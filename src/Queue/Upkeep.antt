-- ===== src/Queue/Upkeep.antt =====
-- `DeduplicateQueue` and the counters of internal/pkg/redisqueue/client.go.
use animehot.Common.{
  ℕ, suc, String, str_eq, Bool, true, false, Option, none, some, List, [], ◌∷◌, ltb, ◌||◌,
  if◌then◌else◌,
}
use animehot.Queue.Messages.{not_initialized, Result, ok, err}
use animehot.Queue.Server.{
  Redis, tasks, processing, dead, results, result_processing, result_dead, pending, processed,
}
use animehot.Queue.Network.{M, return, ◌>>=◌, ◌>>◌, guard, attempt, call, query}

-- The map `seen`.
unfoldable pub is_seen : String → List String → Bool
is_seen x [] = false
is_seen x (y ∷ ys) = str_eq x y || is_seen x ys

pub record QueueStats : Type 0 where
  pub task_queue_len : ℕ
  pub task_processing_len : ℕ
  pub task_dead_letter_len : ℕ
  pub task_pending_set_size : ℕ
  pub result_queue_len : ℕ
  pub result_processing_len : ℕ
  pub result_dead_letter_len : ℕ
  pub processed_set_size : ℕ

-- A counter whose command failed stays 0.
unfoldable pub or_zero : Result ℕ → ℕ
or_zero (ok n) = n
or_zero (err e) = 0

module _ (r : Redis) where
  open r use {Raw, Store}

  -- The id by which a text counts as a duplicate: none if it does not decode or has no id.
  unfoldable pub dedup_id : Raw → Option String
  dedup_id raw = elim (r.unmarshal_request raw) [
    | none ↦ none
    | some t ↦ if str_eq t.task_id "" then none else some t.task_id
  ]

  -- The texts whose id an earlier text has.
  unfoldable pub find_duplicates : List String → List Raw → List Raw
  unfolding is_seen dedup_id
  find_duplicates seen [] = []
  find_duplicates seen (raw ∷ rest) = elim (dedup_id raw) [
    | none ↦ find_duplicates seen rest
    | some x ↦ elim (is_seen x seen) [
      | true ↦ raw ∷ find_duplicates seen rest
      | false ↦ find_duplicates (x ∷ seen) rest
    ]
  ]

  unfoldable pub count_removed : Result ℕ → ℕ → ℕ
  count_removed (ok n) removed = if ltb 0 n then suc removed else removed
  count_removed (err e) removed = removed

  unfoldable pub remove_each : List Raw → ℕ → M Store ℕ
  unfolding count_removed
  remove_each [] removed = return removed
  remove_each (raw ∷ rest) removed = do
    reply ← attempt (call (r.lrem tasks raw))
    remove_each rest (count_removed reply removed)

  -- With no text in the queue there is no duplicate either, and the early return is this one.
  unfoldable pub deduplicate_queue : Bool → M Store ℕ
  unfolding find_duplicates remove_each
  deduplicate_queue ready = do
    guard ready not_initialized
    raws ← query (r.lrange tasks)
    remove_each (find_duplicates [] raws) 0

  unfoldable pub queue_depth : Bool → M Store (ℕ × ℕ)
  queue_depth ready = do
    guard ready not_initialized
    waiting ← query (r.llen tasks)
    finished ← query (r.llen results)
    return (waiting, finished)

  unfoldable pub pending_set_size : Bool → M Store ℕ
  pending_set_size ready = do guard ready not_initialized; query (r.scard pending)

  unfoldable pub get_queue_stats : Bool → M Store QueueStats
  unfolding or_zero
  get_queue_stats ready = do
    guard ready not_initialized
    a ← attempt (query (r.llen tasks))
    b ← attempt (query (r.llen processing))
    c ← attempt (query (r.llen dead))
    d ← attempt (query (r.scard pending))
    e ← attempt (query (r.llen results))
    f ← attempt (query (r.llen result_processing))
    g ← attempt (query (r.llen result_dead))
    h ← attempt (query (r.scard processed))
    return (record {
      task_queue_len = or_zero a;
      task_processing_len = or_zero b;
      task_dead_letter_len = or_zero c;
      task_pending_set_size = or_zero d;
      result_queue_len = or_zero e;
      result_processing_len = or_zero f;
      result_dead_letter_len = or_zero g;
      processed_set_size = or_zero h;
    })
