-- ===== src/Queue/Races.antt =====
-- Where internal/pkg/redisqueue/client.go loses track of an IP's task: an acknowledgement that comes
-- after the janitor has moved the task.
use animehot.Common.{◌≤◌, ◌<◌, ◌≡◌, refl, ap, ◌∙◌, str_eq, true, false, none, some, ==_refl, arith}
use animehot.Queue.Messages.{CrawlRequest, ok}
use animehot.Queue.Server.{Redis, processing, pending, ip}
use animehot.Queue.Network.{calm, call}
use animehot.Queue.Tasks.{push_task, ack_task, ack_task_script}
use animehot.Queue.Views.{
  is_pending, mentioned, cleared, ack_task_script-none, push_task_script-fresh,
}
use animehot.Queue.Outcomes.{IsPushable, push_task-fresh}
use animehot.Queue.Dedup.Steps.{held, owns_task}

module _ (r : Redis) where
  open r use {Raw, Store, view}

  ack_task_late :
      (t : CrawlRequest) (s : Store)
      → str_eq t.task_id "" ≡ false
      → mentioned r processing t.task_id s ≡ none
      → (ack_task r true (some t) (calm s)
          ≡ (ok tt, calm (ack_task_script r t.task_id (ip t.ip_id) s).1))
        × (view (ack_task_script r t.task_id (ip t.ip_id) s).1
            ≡ cleared r t.task_id (ip t.ip_id) (view s))
  unfolding ack_task call
  ack_task_late t s i gone = (rw i refl, ack_task_script-none r t.task_id (ip t.ip_id) s gone)

  -- An acknowledgement of a task that is not in processing still clears the key of its IP. If the IP
  -- has a task that waits, as after a rescue by the janitor, the next push for the IP is accepted
  -- and the IP has two tasks.
  pub late_ack_duplicates :
      (t u : CrawlRequest) (raw : Raw) (s : Store)
      → str_eq t.task_id "" ≡ false
      → mentioned r processing t.task_id s ≡ none
      → 0 < held r t.ip_id (view s)
      → IsPushable r u raw
      → u.ip_id ≡ t.ip_id
      → let acked = (ack_task r true (some t) (calm s)).1 in
        let after = push_task r true (some u) acked in
        (after.0 ≡ ok tt) × (2 ≤ held r t.ip_id (view after.1.store))
  late_ack_duplicates t u raw s i gone waits v same =
      let s₁ = (ack_task_script r t.task_id (ip t.ip_id) s).1 in
      let (run, after) = ack_task_late t s i gone in
      let free : is_pending r (ip u.ip_id) s₁ ≡ false =
        ap (λ c. c.sets pending (ip u.ip_id)) after ∙ (rw (same, ==_refl t.ip_id) refl) in
      rw (run, push_task-fresh r u raw s₁ v free)
        (
          refl,
          rw ((push_task_script-fresh r (ip u.ip_id) raw s₁ free).0, after)
              (ground (
                arith,
                owns_task r t.ip_id raw u (r.request_roundtrip u raw v.encodes),
                same,
                waits,
              )),
        )
