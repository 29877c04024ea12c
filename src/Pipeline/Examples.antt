-- ===== src/Pipeline/Examples.antt =====
-- The theorems on slots and sales, applied to concrete times and lists.
use animehot.Common.{
  ℕ, ◌+◌, ◌/◌, ◌*◌, ◌≡◌, ◌≤◌, ◌⊎◌, true, false, none, some, List, [], ◌∷◌, length, arith,
}
use animehot.Common.{refl}
use animehot.Queue.Messages.{Item, ItemStatus, CrawlResponse, redis_error, ok}
use animehot.Queue.Server.{ListKey}
use animehot.Queue.Network.{M, World, calm, fail, call}
use animehot.Queue.Memory.{Memory, Text, memory_server}
use animehot.Queue.Tasks.{record_started}
use animehot.Queue.Results.{pop_result, ack_result}
use animehot.Pipeline.Process.{Verdict, process_one}
use animehot.Tracker.Transitions.{TransitionType, StateTransition, summarize_transitions}
use animehot.Pipeline.Align.{align_to_slot, align_to_slot_lem}
use animehot.Pipeline.Errors.{process_result, is_failure, is_marked, process_one_blocks_retry}
use animehot.Interval.Settings.{IntervalAdjusterConfig, minute}
use animehot.Interval.Memory.{Fraction, fraction, fractions}
use animehot.Pipeline.Next.{next_time, next_time_bounds}
use animehot.Pipeline.Sales.{
  has_nil, sale_infos, collect_sold_items_info, collect_sold_items_info_lem,
}

align_to_slot_example :
    ((k : ℕ) × (align_to_slot 737 15 ≡ k * 15))
    × (737 ≤ align_to_slot 737 15)
    × ((k : ℕ) → 737 ≤ k * 15 → align_to_slot 737 15 ≤ k * 15)
align_to_slot_example = align_to_slot_lem 737 15 (omega arith)

abbrev poster : Item
poster = record {
  source_id = "m2";
  title = "poster";
  price = 40;
  image_url = "";
  item_url = "";
  status = ItemStatus.sold;
}

abbrev sales : List StateTransition
sales =
    record {
      source_id = "m2";
      type = TransitionType.sold;
      old_price = 45;
      new_price = 40;
      ip_id = 7;
    }
    ∷ []

collect_sold_items_info_example :
    ((has_nil (some poster ∷ []) ≡ true)
      × (collect_sold_items_info sales (some poster ∷ []) ≡ none))
    ⊎ ((has_nil (some poster ∷ []) ≡ false)
        × (collect_sold_items_info sales (some poster ∷ [])
            ≡ some (sale_infos sales (some poster ∷ [])))
        × (length (sale_infos sales (some poster ∷ [])) ≤ (summarize_transitions sales).sold))
collect_sold_items_info_example = collect_sold_items_info_lem sales (some poster ∷ [])

abbrev settings : IntervalAdjusterConfig
settings = record {
  base_interval = 60 * minute;
  min_interval = 15 * minute;
  max_interval = 60 * minute;
  pages_on_sale = 5;
  pages_sold = 5;
}

abbrev scaled : ℕ → Fraction → ℕ
scaled d w = (d * w.den) / w.num

next_time_example :
    (12345 + 15 * minute
      ≤ next_time fractions.is_positive scaled settings (15 * minute) 12345 (fraction 2 1))
    × (next_time fractions.is_positive scaled settings (15 * minute) 12345 (fraction 2 1)
        ≤ 12345 + 60 * minute + 15 * minute)
next_time_example =
    next_time_bounds fractions.is_positive scaled settings (15 * minute) 12345 (fraction 2 1)
      (omega arith)

abbrev response : CrawlResponse
response = record {
  ip_id = 7;
  items = [];
  total_found = 0;
  error_message = "";
  task_id = "t1";
  crawled_at = 50;
  pages_crawled = 1;
  retry_count = 0;
}

abbrev lists : ListKey → List Text
lists ListKey.results = Text.response response ∷ []
lists _ = []

-- One result waits. In the second store it is marked as processed.
abbrev fresh : Memory
fresh = record { lists = lists; sets = λ k x. false; cards = λ k. 0; entries = λ k. [] }

abbrev seen : Memory
seen = record { lists = lists; sets = λ k x. true; cards = λ k. 1; entries = λ k. [] }

abbrev rejecting : CrawlResponse → M Memory (Unit {0})
rejecting resp = fail redis_error

abbrev later_popped : Memory → Memory
later_popped s = (pop_result memory_server true 90 (calm s)).1.store

abbrev popped : Memory → World Memory
popped s = (pop_result memory_server true 60 (calm s)).1

-- A result of the same task that reports an error.
abbrev timeout : CrawlResponse
timeout = record response { error_message = "timeout" }

abbrev error_lists : ListKey → List Text
error_lists ListKey.results = Text.response timeout ∷ []
error_lists _ = []

abbrev after_error : Memory
after_error = record fresh { lists = error_lists }

process_one_blocks_retry_example :
    let out =
      process_one memory_server true 3600
        (process_result memory_server rejecting)
        60
        (calm after_error) in
    (out.0 ≡ ok Verdict.done)
    × (is_marked memory_server rejecting "t1" out.1.store ≡ true)
    × (process_one memory_server true 3600 (process_result memory_server rejecting) 90 (calm seen)
        ≡ (
          ok Verdict.skipped,
          (ack_result memory_server true (some response) (calm (later_popped seen))).1,
        ))
unfolding pop_result record_started call is_failure
process_one_blocks_retry_example =
    process_one_blocks_retry memory_server rejecting 3600 60 timeout after_error
      (popped after_error).store refl refl refl refl 90 response seen (later_popped seen) refl refl
      refl
