-- ===== src/Queue/Recovery.antt =====
-- `RecoverOrphanedTasks` and `RecoverOrphanedResults` of internal/pkg/redisqueue/client.go: on
-- start, what is left in processing goes back to its queue. The Go loop runs until the server
-- answers nil; here it has fuel, and `out_of_fuel` where the loop would go on.
use animehot.Common.{ℕ, zero, suc, String, str_eq, Bool, Option, none, some, if◌then◌else◌}
use animehot.Queue.Messages.{Error, Result, not_initialized, ok, err}
use animehot.Queue.Server.{
  Redis, tasks, processing, results, result_processing, ListKey, HashKey, task_started,
  result_started,
}
use animehot.Queue.Network.{M, return, ◌>>=◌, ◌>>◌, guard, attempt, ignore, call, update}

-- The returned count with the returned error.
pub data Recovered : Type 0 where
  all_moved : ℕ → Recovered
  stopped : ℕ → Error → Recovered
  out_of_fuel : Recovered

module _ (r : Redis) where
  open r use {Raw, Store}

  -- The id of a task, where the text decodes.
  unfoldable pub task_id_of : Raw → Option String
  task_id_of raw = elim (r.unmarshal_request raw) [ none ↦ none | some t ↦ some t.task_id ]

  unfoldable pub result_id_of : Raw → Option String
  result_id_of raw = elim (r.unmarshal_response raw) [ none ↦ none | some t ↦ some t.task_id ]

  unfoldable pub forget_started : HashKey → Option String → M Store (Unit {0})
  forget_started k none = return tt
  forget_started k (some task_id) =
      if str_eq task_id "" then return tt else ignore (update (r.hdel k task_id))

  -- The loop's body behind the move, with the rest of the loop.
  unfoldable pub recover_reply :
      HashKey
      → (Raw → Option String)
      → ℕ
      → M Store Recovered
      → Result (Option Raw)
      → M Store Recovered
  recover_reply hash id_of moved again (err e) = return (stopped moved e)
  recover_reply hash id_of moved again (ok none) = return (all_moved moved)
  recover_reply hash id_of moved again (ok (some raw)) = do forget_started hash (id_of raw); again

  -- The loop, for the task keys and for the result keys.
  unfoldable pub recover :
      ListKey → ListKey → HashKey → (Raw → Option String) → ℕ → ℕ → M Store Recovered
  recover src dst hash id_of zero moved = return out_of_fuel
  recover src dst hash id_of (suc fuel) moved = do
    reply ← attempt (call (r.rpoplpush src dst))
    recover_reply hash id_of moved (recover src dst hash id_of fuel (suc moved)) reply

  unfoldable pub recover_orphaned_tasks : ℕ → Bool → M Store Recovered
  unfolding recover recover_reply task_id_of
  recover_orphaned_tasks fuel ready = do
    guard ready not_initialized
    recover processing tasks task_started task_id_of fuel 0

  unfoldable pub recover_orphaned_results : ℕ → Bool → M Store Recovered
  unfolding recover recover_reply result_id_of
  recover_orphaned_results fuel ready = do
    guard ready not_initialized
    recover result_processing results result_started result_id_of fuel 0
