-- ===== src/Schedule/Examples.antt =====
-- The theorems on the schedule store, applied to a sorted set in memory.
use animehot.Common.{ℕ, ◌<◌, ◌≤◌, ◌^◌, Option, ◌≡◌, refl, some, List, [], ◌∷◌, arith}
use animehot.Queue.Messages.{ok}
use animehot.Queue.Network.{calm}
use animehot.Schedule.Operations.{time_of, get_due, get_next_time}
use animehot.Schedule.Memory.{Set, sorted_set}
use animehot.Schedule.Laws.{Among, AreIds, IsNext, planned, get_due_lem, get_next_time_lem}

-- The IP 7 is due at 100, the IP 8 at 250.
abbrev two_planned : Set
two_planned = record {
  all = record { member = 7; score = 100 } ∷ record { member = 8; score = 250 } ∷ [];
  rising = ((omega arith, tt), (tt, tt));
  unique = (refl, (refl, tt));
}

two_planned-AreIds : AreIds sorted_set two_planned.all
two_planned-AreIds = ((7, omega arith, refl), ((8, omega arith, refl), tt))

get_due_example :
    (ids : List ℕ) × (get_due sorted_set 120 (calm two_planned) ≡ (ok ids, calm two_planned))
    × ((id : ℕ)
        → id < 2 ^ 64
        → (Among id ids → (t : ℕ) × (planned sorted_set id two_planned ≡ some t) × (t ≤ 120))
          × ((t : ℕ) → planned sorted_set id two_planned ≡ some t → t ≤ 120 → Among id ids))
get_due_example = get_due_lem sorted_set 120 two_planned two_planned-AreIds

get_next_time_example :
    (next : Option ℕ) × (get_next_time sorted_set (calm two_planned)
      ≡ (ok (time_of next), calm two_planned))
    × IsNext sorted_set two_planned.all next
get_next_time_example = get_next_time_lem sorted_set two_planned two_planned-AreIds
