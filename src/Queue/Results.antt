-- ===== src/Queue/Results.antt =====
-- The result queue's operations of internal/pkg/redisqueue/client.go: push, pop, acknowledge, and
-- the set of processed task ids.
use animehot.Common.{ℕ, String, str_eq, Bool, not, Option}
use animehot.Queue.Messages.{
  CrawlResponse, result_is_nil, not_initialized, task_id_empty, marshal_failed, unmarshal_failed,
  no_result,
}
use animehot.Queue.Server.{Redis, results, result_processing, processed, result_started, member_of}
use animehot.Queue.Network.{M, return, ◌>>=◌, ◌>>◌, guard, required, ignore, call, update, query}
use animehot.Queue.Tasks.{remove_mention, record_started}

module _ (r : Redis) where
  open r use {Store}

  unfoldable pub push_result : Bool → Option CrawlResponse → M Store (Unit {0})
  push_result ready res = do
    t ← required res result_is_nil
    guard ready not_initialized
    raw ← required (r.marshal_response t) marshal_failed
    update (r.lpush results raw)

  unfoldable pub pop_result : Bool → ℕ → M Store CrawlResponse
  pop_result ready now = do
    guard ready not_initialized
    reply ← call (r.rpoplpush results result_processing)
    raw ← required reply no_result
    t ← required (r.unmarshal_response raw) unmarshal_failed
    record_started r result_started t.task_id now
    return t

  -- The Lua script `ackResultScript`.
  unfoldable pub ack_result_script : String → Store → ℕ × Store
  ack_result_script task_id s =
      let (removed, s') = remove_mention r result_processing task_id s in
      (removed, r.hdel result_started task_id s')

  unfoldable pub ack_result : Bool → Option CrawlResponse → M Store (Unit {0})
  ack_result ready resp = do
    t ← required resp result_is_nil
    guard ready not_initialized
    guard (not (str_eq t.task_id "")) task_id_empty
    removed ← call (ack_result_script t.task_id)
    return tt

  unfoldable pub mark_processed : Bool → String → ℕ → M Store (Unit {0})
  mark_processed ready task_id ttl = do
    guard ready not_initialized
    guard (not (str_eq task_id "")) task_id_empty
    added ← call (r.sadd processed (member_of task_id))
    ignore (update (r.expire processed ttl))

  unfoldable pub is_processed : Bool → String → M Store Bool
  is_processed ready task_id = do
    guard ready not_initialized
    guard (not (str_eq task_id "")) task_id_empty
    query (r.sismember processed (member_of task_id))
