-- ===== src/Schedule/Operations.antt =====
-- The operations of internal/scheduler/schedule_store.go. Logging is left out. Times are
-- nanoseconds from 1970, at least 0, and the scores are whole seconds. The clock that `GetDue` reads is given
-- in seconds, as it reads it.
use animehot.Common.{ℕ, ◌*◌, ◌/◌, Option, none, some, List, [], ◌∷◌}
use animehot.Queue.Network.{M, return, ◌>>=◌, update, query}
use animehot.Schedule.Server.{SortedSet, Entry}

abbrev pub second : ℕ
second = 1000000000

-- `Time.Unix` and `time.Unix`
abbrev pub unix : ℕ → ℕ
unix t = t / second

abbrev pub time_unix : ℕ → ℕ
time_unix t = t * second

-- The time of a score.
abbrev pub time_of : Option ℕ → Option ℕ
time_of none = none
time_of (some score) = some (time_unix score)

module _ (r : SortedSet) where
  open r use {Text, Store}

  unfoldable pub schedule : ℕ → ℕ → M Store (Unit {0})
  schedule ip_id next_time =
      update (r.zadd (record { member = r.format_uint ip_id; score = unix next_time } ∷ []))

  -- Members that are no numbers are skipped.
  unfoldable pub parsed : List Text → List ℕ
  parsed [] = []
  parsed (m ∷ ms) =
      let rest = parsed ms in elim (r.parse_uint m) [ none ↦ rest | some n ↦ n ∷ rest ]

  unfoldable pub get_due : ℕ → M Store (List ℕ)
  unfolding parsed
  get_due now = do members ← query (r.zrange_by_score now); return (parsed members)

  unfoldable pub first_time : List (Entry Text) → Option ℕ
  first_time [] = none
  first_time (e ∷ es) = some e.score

  unfoldable pub get_next_time : M Store (Option ℕ)
  unfolding first_time
  get_next_time = do result ← query r.zrange_first; return (time_of (first_time result))

  unfoldable pub remove : ℕ → M Store (Unit {0})
  remove ip_id = update (r.zrem (r.format_uint ip_id))

  unfoldable pub count : M Store ℕ
  count = query r.zcard

  unfoldable pub all_times : List (Entry Text) → List (ℕ × ℕ)
  all_times [] = []
  all_times (e ∷ es) =
      let rest = all_times es in
      elim (r.parse_uint e.member) [ none ↦ rest | some n ↦ (n, time_unix e.score) ∷ rest ]

  -- The map as a list: the members of a set differ.
  unfoldable pub get_all : M Store (List (ℕ × ℕ))
  unfolding all_times
  get_all = do result ← query r.entries; return (all_times result)

  unfoldable pub get_schedule_time : ℕ → M Store (Option ℕ)
  get_schedule_time ip_id = query λ s. time_of (r.zscore (r.format_uint ip_id) s)

  unfoldable pub new_entries : List (ℕ × ℕ) → List (Entry Text)
  new_entries [] = []
  new_entries ((ip_id, next_time) ∷ rest) =
      record { member = r.format_uint ip_id; score = unix next_time } ∷ new_entries rest

  -- The map as a list, in the order in which the loop meets its keys.
  unfoldable pub schedule_batch : List (ℕ × ℕ) → M Store (Unit {0})
  unfolding new_entries
  schedule_batch [] = return tt
  schedule_batch (s ∷ schedules) = update (r.zadd (new_entries (s ∷ schedules)))
