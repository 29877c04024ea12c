-- ===== src/Queue/Outcomes.antt =====
-- What the operations on the task queue in internal/pkg/redisqueue/client.go report and leave
-- behind, on a network that does not fail.
use animehot.Common.{
  ℕ, ◌<◌, ◌≡◌, refl, ◌∙◌, str_eq, true, false, some, List, ◌∷◌, if◌then◌else◌, ◌==◌, unsnoc, inl,
  inr, Bool-cases, arith,
}
use animehot.Queue.Messages.{CrawlRequest, ok, err, task_exists}
use animehot.Queue.Server.{
  Redis, tasks, processing, task_started, ip, number, with_field, moved, last_of,
}
use animehot.Queue.Network.{calm, call}
use animehot.Queue.Tasks.{push_task, push_task_script, pop_task, record_started}
use animehot.Queue.Views.{is_pending, task_pushed, push_task_script-fresh, push_task_script-pending}
use animehot.Queue.Dedup.Steps.{held, Deduped}

-- A task that `PushTask` accepts for encoding, and its text.
pub record IsPushable (r : Redis) (t : CrawlRequest) (raw : r.Raw) : Type 0 where
  pub has_id : str_eq t.task_id "" ≡ false
  pub has_ip : (t.ip_id == 0) ≡ false
  pub encodes : r.marshal_request t ≡ some raw

module _ (r : Redis) where
  open r use {Raw, Store, view}

  pub push_task-fresh :
      (t : CrawlRequest) (raw : Raw) (s : Store)
      → IsPushable r t raw
      → is_pending r (ip t.ip_id) s ≡ false
      → push_task r true (some t) (calm s) ≡ (ok tt, calm (push_task_script r (ip t.ip_id) raw s).1)
  unfolding push_task call
  push_task-fresh t raw s v e =
      rw (v.has_id, v.has_ip, v.encodes, (push_task_script-fresh r (ip t.ip_id) raw s e).1) refl

  push_task-duplicate :
      (t : CrawlRequest) (raw : Raw) (s : Store)
      → IsPushable r t raw
      → is_pending r (ip t.ip_id) s ≡ true
      → push_task r true (some t) (calm s)
        ≡ (err task_exists, calm (push_task_script r (ip t.ip_id) raw s).1)
  unfolding push_task call
  push_task-duplicate t raw s v e =
      rw (v.has_id, v.has_ip, v.encodes, (push_task_script-pending r (ip t.ip_id) raw s e).1) refl

  -- On a network that does not fail, with a client that is initialized: a task with an id and an IP that
  -- can be encoded is accepted exactly if its IP is not pending. Then it stands at the head of the queue and
  -- its IP is pending; otherwise the push is refused and nothing changes.
  pub push_task_outcome :
      (t : CrawlRequest) (raw : Raw) (s : Store)
      → IsPushable r t raw
      → let after = push_task r true (some t) (calm s) in
        (after.0 ≡ (if is_pending r (ip t.ip_id) s then err task_exists else ok tt))
        × (view after.1.store ≡ (
            if is_pending r (ip t.ip_id) s
            then view s
            else task_pushed r (ip t.ip_id) raw (view s)))
  push_task_outcome t raw s v = elim (Bool-cases (is_pending r (ip t.ip_id) s)) [
    | inl e ↦
        rw (push_task-duplicate t raw s v e, e)
          (refl, (push_task_script-pending r (ip t.ip_id) raw s e).0)
    | inr e ↦
        rw (push_task-fresh t raw s v e, e)
          (refl, (push_task_script-fresh r (ip t.ip_id) raw s e).0)
  ]

  -- While an IP has a task that waits or is in processing, no other one is accepted for it.
  pub push_task_refuses :
      (t : CrawlRequest) (raw : Raw) (s : Store)
      → IsPushable r t raw
      → Deduped r (view s)
      → 0 < held r t.ip_id (view s)
      → let after = push_task r true (some t) (calm s) in
        (after.0 ≡ err task_exists) × (view after.1.store ≡ view s)
  push_task_refuses t raw s v d busy =
      let marked : is_pending r (ip t.ip_id) s ≡ true = ground (arith, d t.ip_id) in
      rw (push_task-duplicate t raw s v marked)
        (refl, (push_task_script-pending r (ip t.ip_id) raw s marked).0)

  -- On a network that does not fail, with a client that is initialized: if the oldest text of the queue
  -- decodes to a task with an id, `PopTask` hands out this task. It leaves the queue's right end for the
  -- head of processing, and the time is recorded under its id.
  pub pop_task_oldest :
      (s : Store) (now : ℕ) (rest : List Raw) (raw : Raw) (t : CrawlRequest)
      → unsnoc ((view s).lists tasks) ≡ some (rest, raw)
      → r.unmarshal_request raw ≡ some t
      → str_eq t.task_id "" ≡ false
      → let after = pop_task r true now (calm s) in
        (after.0 ≡ ok t)
        × (view after.1.store
            ≡ with_field task_started t.task_id
                (some (number now))
                (moved tasks processing (view s)))
        × ((view after.1.store).lists tasks ≡ rest)
        × ((view after.1.store).lists processing ≡ raw ∷ (view s).lists processing)
  unfolding pop_task call record_started
  pop_task_oldest s now rest raw t e d i =
      let got : (r.rpoplpush tasks processing s).0 ≡ some raw =
        r.rpoplpush_reply tasks processing s ∙ (rw (e, last_of) refl) in
      rw
        (
          got,
          d,
          i,
          r.hset_law task_started t.task_id (number now) (r.rpoplpush tasks processing s).1,
          r.rpoplpush_law tasks processing s,
        )
        (refl, refl, rw (e, moved) refl, rw (e, moved) refl)
