-- ===== src/Queue/Tasks.antt =====
-- The task queue's operations of internal/pkg/redisqueue/client.go: push, pop and acknowledge. A
-- nil pointer is `none`; `ready` says that neither the client nor its Redis handle is nil. The
-- Prometheus counters are left out.
use animehot.Common.{
  ℕ, String, str_eq, Bool, not, Option, none, some, List, [], ◌∷◌, ◌==◌, if◌then◌else◌,
}
use animehot.Queue.Messages.{
  CrawlRequest, task_is_nil, not_initialized, task_id_empty, ip_id_empty, marshal_failed,
  unmarshal_failed, no_task, task_exists,
}
use animehot.Queue.Server.{
  Redis, tasks, processing, pending, task_started, Member, ip, member_of, number, HashKey, ListKey,
}
use animehot.Queue.Network.{M, return, ◌>>=◌, ◌>>◌, guard, required, ignore, call, update}

module _ (r : Redis) where
  open r use {Raw, Store}

  -- The Lua script `pushTaskScript`.
  unfoldable pub push_task_script : Member → Raw → Store → ℕ × Store
  push_task_script key raw s =
      let (added, s') = r.sadd pending key s in
      if added == 0 then (0, s') else (1, r.lpush tasks raw s')

  unfoldable pub push_task : Bool → Option CrawlRequest → M Store (Unit {0})
  push_task ready task = do
    t ← required task task_is_nil
    guard ready not_initialized
    guard (not (str_eq t.task_id "")) task_id_empty
    guard (not (t.ip_id == 0)) ip_id_empty
    raw ← required (r.marshal_request t) marshal_failed
    result ← call (push_task_script (ip t.ip_id) raw)
    guard (not (result == 0)) task_exists

  unfoldable pub push_task_force : Bool → Option CrawlRequest → M Store (Unit {0})
  push_task_force ready task = do
    t ← required task task_is_nil
    guard ready not_initialized
    raw ← required (r.marshal_request t) marshal_failed
    update (r.lpush tasks raw)
    if str_eq t.task_id "" then return tt else ignore (call (r.sadd pending (member_of t.task_id)))

  -- `HSet` of the time at which a message was taken up, if it has an id.
  unfoldable pub record_started : HashKey → String → ℕ → M Store (Unit {0})
  record_started k task_id now =
      if str_eq task_id "" then return tt else ignore (update (r.hset k task_id (number now)))

  -- `BRPopLPush` answers nil when its timeout passes on an empty list.
  unfoldable pub pop_task : Bool → ℕ → M Store CrawlRequest
  pop_task ready now = do
    guard ready not_initialized
    reply ← call (r.rpoplpush tasks processing)
    raw ← required reply no_task
    t ← required (r.unmarshal_request raw) unmarshal_failed
    record_started task_started t.task_id now
    return t

  -- The loop of the Lua scripts that acknowledge: the first text that mentions the id.
  unfoldable pub find_mention : String → List Raw → Option Raw
  find_mention task_id [] = none
  find_mention task_id (raw ∷ rest) =
      if r.mentions raw task_id then some raw else find_mention task_id rest

  unfoldable pub remove_mention : ListKey → String → Store → ℕ × Store
  remove_mention k task_id s = elim (find_mention task_id (r.lrange k s)) [
    | none ↦ (0, s)
    | some raw ↦ (1, (r.lrem k raw s).1)
  ]

  -- The Lua script `ackTaskScript`.
  unfoldable pub ack_task_script : String → Member → Store → ℕ × Store
  ack_task_script task_id key s =
      let (removed, s') = remove_mention processing task_id s in
      (removed, r.hdel task_started task_id (r.srem pending key s'))

  unfoldable pub ack_task : Bool → Option CrawlRequest → M Store (Unit {0})
  ack_task ready task = do
    t ← required task task_is_nil
    guard ready not_initialized
    guard (not (str_eq t.task_id "")) task_id_empty
    removed ← call (ack_task_script t.task_id (ip t.ip_id))
    return tt

  unfoldable pub remove_from_pending_set : Bool → String → M Store (Unit {0})
  remove_from_pending_set ready task_id = do
    guard ready not_initialized
    guard (not (str_eq task_id "")) task_id_empty
    update (r.srem pending (member_of task_id))
