-- ===== src/Queue/Janitor.antt =====
-- `RescueStuckTasks` and `RescueStuckResults` of internal/pkg/redisqueue/client.go: messages that
-- have been in processing for too long go back to their queue, or to the dead letters.
use animehot.Common.{
  ℕ, suc, ◌+◌, String, str_eq, Bool, false, not, Option, none, some, List, [], ◌∷◌, ltb, ◌==◌, ◌&&◌,
  if◌then◌else◌,
}
use animehot.Queue.Messages.{
  CrawlRequest, not_initialized, Result, ok, err, increment, exceeds_retries,
}
use animehot.Queue.Server.{
  Redis, tasks, processing, dead, pending, task_started, Member, ip, Stamp, number, junk, field_of,
  HashKey,
}
use animehot.Queue.Network.{M, return, ◌>>=◌, ◌>>◌, guard, attempt, ignore, call, update, query}

pub record RescueResult : Type 0 where
  pub rescued : ℕ
  pub dead_letter : ℕ

abbrev pub no_rescue : RescueResult
no_rescue = record { rescued = 0; dead_letter = 0 }

-- Whether a message has run out of time. `now - t <= threshold` is written without a subtraction.
unfoldable pub overdue : Option Stamp → ℕ → ℕ → ℕ → Bool
overdue none fallback now threshold = not (fallback == 0) && ltb (fallback + threshold) now
overdue (some junk) fallback now threshold = false
overdue (some (number started)) fallback now threshold = ltb (started + threshold) now

-- The count that a successful script adds to.
unfoldable pub counted : Bool → RescueResult → RescueResult
counted is_dead acc =
    if is_dead
    then record acc { dead_letter = suc acc.dead_letter }
    else record acc { rescued = suc acc.rescued }

-- A script's reply, where an error counts nothing.
unfoldable pub tally : Result ℕ → Bool → RescueResult → RescueResult
unfolding counted
tally (ok n) is_dead acc = if n == 1 then counted is_dead acc else acc
tally (err e) is_dead acc = acc

module _ (r : Redis) where
  open r use {Raw, Store}

  -- The Lua script `rescueScript`.
  unfoldable pub rescue_script : Raw → String → Raw → Bool → Member → Store → ℕ × Store
  rescue_script raw task_id new is_dead key s =
      let (removed, s₁) = r.lrem processing raw s in
      let s₂ = if is_dead then r.srem pending key (r.lpush dead new s₁) else r.lpush tasks new s₁ in
      if ltb 0 removed then (1, r.hdel task_started task_id s₂) else (0, s₁)

  -- The rest of the loop's body, for a task that is overdue.
  unfoldable pub rescue_overdue : Raw → CrawlRequest → RescueResult → M Store RescueResult
  unfolding tally
  rescue_overdue raw t acc =
      let retried = record t { retry_count = increment t.retry_count } in
      let is_dead = exceeds_retries retried.retry_count in
      elim (r.marshal_request retried) [
        | none ↦ return acc
        | some new ↦ do
          reply ← attempt (call (rescue_script raw t.task_id new is_dead (ip t.ip_id)))
          return (tally reply is_dead acc)
      ]

  unfoldable pub rescue_task :
      List (String × Stamp) → ℕ → ℕ → Raw → RescueResult → M Store RescueResult
  unfolding overdue
  rescue_task started now threshold raw acc = elim (r.unmarshal_request raw) [
    | none ↦ return acc
    | some t ↦
        if not (str_eq t.task_id "")
          && overdue (field_of t.task_id started) t.created_at now threshold
        then rescue_overdue raw t acc
        else return acc
  ]

  unfoldable pub rescue_tasks :
      List (String × Stamp) → ℕ → ℕ → List Raw → RescueResult → M Store RescueResult
  rescue_tasks started now threshold [] acc = return acc
  rescue_tasks started now threshold (raw ∷ rest) acc = do
    acc' ← rescue_task started now threshold raw acc
    rescue_tasks started now threshold rest acc'

  -- The started hash has entries, but nothing is in processing.
  unfoldable pub clear_started : HashKey → List (String × Stamp) → M Store (Unit {0})
  clear_started k [] = return tt
  clear_started k ((task_id, stamp) ∷ rest) = do
    ignore (update (r.hdel k task_id))
    clear_started k rest

  unfoldable pub rescue_listed : List (String × Stamp) → ℕ → ℕ → List Raw → M Store RescueResult
  rescue_listed started now threshold [] = do clear_started task_started started; return no_rescue
  rescue_listed started now threshold (raw ∷ rest) =
      rescue_tasks started now threshold (raw ∷ rest) no_rescue

  unfoldable pub rescue_started : ℕ → ℕ → List (String × Stamp) → M Store RescueResult
  unfolding rescue_listed
  rescue_started now threshold [] = return no_rescue
  rescue_started now threshold (entry ∷ rest) = do
    raws ← query (r.lrange processing)
    rescue_listed (entry ∷ rest) now threshold raws

  unfoldable pub rescue_stuck_tasks : Bool → ℕ → ℕ → M Store RescueResult
  unfolding rescue_started
  rescue_stuck_tasks ready now threshold = do
    guard ready not_initialized
    started ← query (r.hgetall task_started)
    rescue_started now threshold started
