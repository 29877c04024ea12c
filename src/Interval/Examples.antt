-- ===== src/Interval/Examples.antt =====
-- The theorems on the interval adjuster, applied to its default settings, fractions and a table in
-- memory.
use animehot.Common.{
  [], ◌∷◌, ℕ, ◌*◌, ◌≡◌, refl, false, Option, none, some, ◌==◌, if◌then◌else◌, arith,
}
use mathlib.Core.Logic.{◌↔◌}
use animehot.Queue.Network.{Fate}
use animehot.Interval.Settings.{
  IntervalAdjuster, AdjustmentType, minute, new_interval_adjuster, determine_adjustment,
}
use animehot.Interval.Adjust.{adjust_after_crawl}
use animehot.Interval.Memory.{Fraction, fraction, fractions, weights}
use animehot.Interval.Steps.{determine_adjustment_table, Decided, crawls, crawls-base}
use animehot.Interval.Laws.{adjust_after_crawl-Keeps}

abbrev settings : IntervalAdjuster
unfolding new_interval_adjuster
settings = new_interval_adjuster (record {
  base_interval = 0;
  min_interval = 0;
  max_interval = 0;
  pages_on_sale = 0;
  pages_sold = 0;
})

-- The IP 7 is crawled every 30 minutes, the IP 8 every 60.
abbrev table : ℕ → Option Fraction
table ip = if ip == 7 then some (fraction 2 1) else if ip == 8 then some (fraction 1 1) else none

table_example :
    (determine_adjustment fractions settings 200 4 30).0 ≡ AdjustmentType.regress
    ↔ Decided fractions settings 200 4 30 AdjustmentType.regress
table_example = determine_adjustment_table fractions settings AdjustmentType.regress 200 4 30

-- Two hours as the base and the longest interval, one hour as the shortest.
abbrev shipped : IntervalAdjuster
shipped = record settings {
  base_interval = 120 * minute;
  min_interval = 60 * minute;
  max_interval = 120 * minute;
}

six_crawls_example : crawls fractions settings 6 200 20 30 ≡ 60
unfolding new_interval_adjuster
six_crawls_example =
    crawls-base fractions settings 6 200 20 30 (λ b. ground arith) (λ q. ground arith) (omega arith)
      (omega arith)

other_ip_example :
    weights.weight_of 8
      (adjust_after_crawl fractions weights settings 7 400 4 false
        (record { store = table; fates = Fate.delivered ∷ Fate.lost_reply ∷ [] })).1.store
    ≡ some (fraction 1 1)
other_ip_example =
    adjust_after_crawl-Keeps fractions weights settings 7 8 400 4 false (some (fraction 1 1))
      (omega arith) (record { store = table; fates = Fate.delivered ∷ Fate.lost_reply ∷ [] }) refl
