-- ===== src/Queue/ResultJanitor.antt =====
-- `RescueStuckResults` of internal/pkg/redisqueue/client.go: the janitor's pass over the results in
-- processing. It differs from the pass over the tasks in its keys, in the time that stands in for
-- a missing start, and in that no pending set is involved.
use animehot.Common.{
  ℕ, String, str_eq, Bool, not, none, some, List, [], ◌∷◌, ltb, ◌&&◌, if◌then◌else◌,
}
use animehot.Queue.Messages.{CrawlResponse, not_initialized, increment, exceeds_retries}
use animehot.Queue.Server.{
  Redis, results, result_processing, result_dead, result_started, Stamp, field_of,
}
use animehot.Queue.Network.{M, return, ◌>>=◌, ◌>>◌, guard, attempt, call, query}
use animehot.Queue.Janitor.{RescueResult, no_rescue, overdue, tally, clear_started}

module _ (r : Redis) where
  open r use {Raw, Store}

  -- The Lua script `rescueResultScript`.
  unfoldable pub rescue_result_script : Raw → String → Raw → Bool → Store → ℕ × Store
  rescue_result_script raw task_id new is_dead s =
      let (removed, s₁) = r.lrem result_processing raw s in
      let s₂ = if is_dead then r.lpush result_dead new s₁ else r.lpush results new s₁ in
      if ltb 0 removed then (1, r.hdel result_started task_id s₂) else (0, s₁)

  unfoldable pub rescue_overdue_result : Raw → CrawlResponse → RescueResult → M Store RescueResult
  unfolding tally
  rescue_overdue_result raw t acc =
      let retried = record t { retry_count = increment t.retry_count } in
      let is_dead = exceeds_retries retried.retry_count in
      elim (r.marshal_response retried) [
        | none ↦ return acc
        | some new ↦ do
          reply ← attempt (call (rescue_result_script raw t.task_id new is_dead))
          return (tally reply is_dead acc)
      ]

  unfoldable pub rescue_result :
      List (String × Stamp) → ℕ → ℕ → Raw → RescueResult → M Store RescueResult
  unfolding overdue
  rescue_result started now threshold raw acc = elim (r.unmarshal_response raw) [
    | none ↦ return acc
    | some t ↦
        if not (str_eq t.task_id "")
          && overdue (field_of t.task_id started) t.crawled_at now threshold
        then rescue_overdue_result raw t acc
        else return acc
  ]

  unfoldable pub rescue_results :
      List (String × Stamp) → ℕ → ℕ → List Raw → RescueResult → M Store RescueResult
  rescue_results started now threshold [] acc = return acc
  rescue_results started now threshold (raw ∷ rest) acc = do
    acc' ← rescue_result started now threshold raw acc
    rescue_results started now threshold rest acc'

  unfoldable pub rescue_listed_results :
      List (String × Stamp) → ℕ → ℕ → List Raw → M Store RescueResult
  rescue_listed_results started now threshold [] = do
    clear_started r result_started started
    return no_rescue
  rescue_listed_results started now threshold (raw ∷ rest) =
      rescue_results started now threshold (raw ∷ rest) no_rescue

  unfoldable pub rescue_started_results : ℕ → ℕ → List (String × Stamp) → M Store RescueResult
  unfolding rescue_listed_results
  rescue_started_results now threshold [] = return no_rescue
  rescue_started_results now threshold (entry ∷ rest) = do
    raws ← query (r.lrange result_processing)
    rescue_listed_results (entry ∷ rest) now threshold raws

  unfoldable pub rescue_stuck_results : Bool → ℕ → ℕ → M Store RescueResult
  unfolding rescue_started_results
  rescue_stuck_results ready now threshold = do
    guard ready not_initialized
    started ← query (r.hgetall result_started)
    rescue_started_results now threshold started
