-- ===== src/Queue/Retries.antt =====
-- The retry limit of internal/pkg/redisqueue/client.go (`DefaultMaxRetries`): which calls can put
-- a task with too many retries into the queue.
use animehot.Common.{
  ℕ, ◌+◌, ◌≤◌, ◌≡◌, refl, ◌∙◌, ap, remove_first, inl, inr, Bool, true, false, none, some, bit,
  total, total-unsnoc, unsnoc, total-remove_first-le, occurs, arith, Bool-cases, Option-cases,
}
use animehot.Queue.Messages.{CrawlRequest, exceeds_retries}
use animehot.Queue.Server.{Redis, Contents, tasks, processing, pending, ip, Member, moved}
use animehot.Queue.Tasks.{push_task_script, ack_task_script}
use animehot.Queue.Janitor.{rescue_script}
use animehot.Queue.Views.{
  push_task_script-fresh, push_task_script-pending, ack_task_script-some, ack_task_script-none,
  mentioned, rescue_script-gone, rescue_script-retry, rescue_script-dead, is_pending,
}
use animehot.Queue.Dedup.Calls.{Call, Reach, retried, occurs-cases}

module _ (r : Redis) where
  open r use {Raw, Store, view}

  -- Whether a text is a task with more retries than allowed.
  unfoldable pub over_limit : Raw → ℕ
  over_limit raw = elim (r.unmarshal_request raw) [
    | none ↦ 0
    | some t ↦ bit (exceeds_retries t.retry_count)
  ]

  -- Such tasks that wait or are in processing.
  abbrev pub excess : Contents Raw → ℕ
  excess c = total over_limit (c.lists tasks) + total over_limit (c.lists processing)

  -- A push, forced or not, is of a task within the limit; the other calls are free.
  abbrev pub IsFresh : {s u : Store} → Call r s u → Type 0
  IsFresh (Call.push t raw e) = exceeds_retries t.retry_count ≡ false
  IsFresh (Call.force t raw e) = exceeds_retries t.retry_count ≡ false
  IsFresh _ = Unit {0}

  abbrev pub AllFresh : {s u : Store} → Reach r s u → Type 0
  AllFresh Reach.here = Unit {0}
  AllFresh (Reach.next before c) = AllFresh before × IsFresh c

  over_limit_task :
      (raw : Raw) (t : CrawlRequest)
      → r.unmarshal_request raw ≡ some t
      → over_limit raw ≡ bit (exceeds_retries t.retry_count)
  unfolding over_limit
  over_limit_task raw t e = rw (e, over_limit) refl

  moved-excess :
      (c : Contents Raw)
      → (excess (moved tasks processing c) ≡ excess c)
        × (excess (moved processing tasks c) ≡ excess c)
  moved-excess c = (there, back)
    where
      there : excess (moved tasks processing c) ≡ excess c
      there = elim (Option-cases (unsnoc (c.lists tasks))) [
        | inl e ↦ rw (e, moved) refl
        | inr ((rest, last), e) ↦
            rw (e, moved) (omega (arith, total-unsnoc over_limit (c.lists tasks) rest last e))
      ]

      back : excess (moved processing tasks c) ≡ excess c
      back = elim (Option-cases (unsnoc (c.lists processing))) [
        | inl e ↦ rw (e, moved) refl
        | inr ((rest, last), e) ↦
            rw (e, moved) (omega (arith, total-unsnoc over_limit (c.lists processing) rest last e))
      ]

  push-excess :
      (t : CrawlRequest) (raw : Raw) (s : Store)
      → r.marshal_request t ≡ some raw
      → exceeds_retries t.retry_count ≡ false
      → excess (view (push_task_script r (ip t.ip_id) raw s).1) ≤ excess (view s)
  push-excess t raw s e fresh = elim (Bool-cases (is_pending r (ip t.ip_id) s)) [
    | inl old ↦ rw (push_task_script-pending r (ip t.ip_id) raw s old).0 (omega arith)
    | inr new ↦
        rw (push_task_script-fresh r (ip t.ip_id) raw s new).0
          (ground (arith, over_limit_task raw t (r.request_roundtrip t raw e), fresh))
  ]

  rescue-excess :
      (raw new : Raw) (t : CrawlRequest) (s : Store) (is_dead : Bool)
      → exceeds_retries (retried t).retry_count ≡ is_dead
      → r.marshal_request (retried t) ≡ some new
      → excess (view (rescue_script r raw t.task_id new is_dead (ip t.ip_id) s).1) ≤ excess (view s)
  rescue-excess raw new t s is_dead verdict encodes =
      elim (occurs-cases r raw ((view s).lists processing)) [
        | inl gone ↦
            rw (rescue_script-gone r raw t.task_id new is_dead (ip t.ip_id) s gone)
              (omega (arith, fewer))
        | inr there ↦ by_verdict is_dead there verdict
      ]
    where
      fewer :
          total over_limit ((remove_first r.raw_discrete raw ((view s).lists processing)))
          ≤ total over_limit ((view s).lists processing)
      fewer = total-remove_first-le r.raw_discrete over_limit raw ((view s).lists processing)

      by_verdict :
          (b : Bool)
          → occurs r.raw_discrete raw ((view s).lists processing) ≡ 1
          → exceeds_retries (retried t).retry_count ≡ b
          → excess (view (rescue_script r raw t.task_id new b (ip t.ip_id) s).1) ≤ excess (view s)
      by_verdict true there v =
          rw (rescue_script-dead r raw t.task_id new (ip t.ip_id) s there) (omega (arith, fewer))
      by_verdict false there v = rw (rescue_script-retry r raw t.task_id new (ip t.ip_id) s there) (
          omega (
            arith,
            fewer,
            over_limit_task new (retried t) (r.request_roundtrip (retried t) new encodes)
                ∙ ap bit v,
          ))

  ack-excess :
      (t : CrawlRequest) (s : Store)
      → excess (view (ack_task_script r t.task_id (ip t.ip_id) s).1) ≤ excess (view s)
  ack-excess t s = elim (Option-cases (mentioned r processing t.task_id s)) [
    | inl e ↦ rw (ack_task_script-none r t.task_id (ip t.ip_id) s e) (omega arith)
    | inr (raw, e) ↦ rw (ack_task_script-some r t.task_id (ip t.ip_id) s raw e) (
        omega
          (arith, total-remove_first-le r.raw_discrete over_limit raw ((view s).lists processing)))
  ]

  mark-excess : (m : Member) (s : Store) → excess (view (r.sadd pending m s).1) ≤ excess (view s)
  mark-excess m s = elim (Bool-cases (is_pending r m s)) [
    | inl e ↦ rw (r.sadd_law pending m s, e) (omega arith)
    | inr e ↦ rw (r.sadd_law pending m s, e) (omega arith)
  ]

  Call-excess : {s u : Store} (c : Call r s u) → IsFresh c → excess (view u) ≤ excess (view s)
  Call-excess Call.read _ = omega arith
  Call-excess {s} (Call.push t raw e) fresh = push-excess t raw s e fresh
  Call-excess {s} Call.pop _ =
      rw (r.rpoplpush_law tasks processing s) (omega (arith, (moved-excess (view s)).0))
  Call-excess {s} Call.restore _ =
      rw (r.rpoplpush_law processing tasks s) (omega (arith, (moved-excess (view s)).1))
  Call-excess {s} (Call.force t raw e) fresh =
      rw (r.lpush_law tasks raw s)
        (ground (arith, over_limit_task raw t (r.request_roundtrip t raw e), fresh))
  Call-excess {s} (Call.ack t) _ = ack-excess t s
  Call-excess {s} (Call.rescue raw new t old e) _ = rescue-excess raw new t s _ refl e
  Call-excess {s} (Call.drop raw) _ =
      rw (r.lrem_law tasks raw s)
        (omega (arith, total-remove_first-le r.raw_discrete over_limit raw ((view s).lists tasks)))
  Call-excess {s} (Call.note k f v) _ = rw (r.hset_law k f v s) (omega arith)
  Call-excess {s} (Call.forget k f) _ = rw (r.hdel_law k f s) (omega arith)
  Call-excess {s} (Call.mark m) _ = mark-excess m s
  Call-excess {s} (Call.unmark m) _ = rw (r.srem_law pending m s) (omega arith)

  -- If no task that waits or is in processing has more retries than allowed, and every task that is pushed,
  -- forced or not, is within the limit, then no task that waits or is in processing has more retries than
  -- allowed afterwards, in every order of the server's calls, late acknowledgements included, and however
  -- often tasks are rescued.
  pub Reach-excess :
      {s u : Store} (h : Reach r s u) → AllFresh h → excess (view s) ≡ 0 → excess (view u) ≡ 0
  Reach-excess Reach.here _ e = e
  Reach-excess (Reach.next before c) (fresh, this) e =
      omega (arith, Reach-excess before fresh e, Call-excess c this)
