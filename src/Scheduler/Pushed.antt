-- ===== src/Scheduler/Pushed.antt =====
-- That a pass of the scheduler in internal/scheduler/ip_scheduler.go queues a task for every IP that is
-- due, on a network that does not fail.
use animehot.Common.{
  ℕ, ◌≡◌, refl, sym, subst, ap, ◌∙◌, ◌≤◌, ◌<◌, ◌^◌, ◌⊎◌, inl, inr, true, false, Bool, not, str_eq,
  if◌then◌else◌, ◌==◌, some, List, [], ◌∷◌, ◌++◌, Bool-cases, batches, length, joined, bit, arith,
}
use animehot.Queue.Messages.{
  CrawlRequest, not_initialized, task_id_empty, ip_id_empty, marshal_failed, task_exists,
}
use animehot.Queue.Server.{Redis, Contents, ip as key_of, pending, Member, member_eq}
use animehot.Queue.Views.{is_pending, push_task_script-fresh, push_task_script-pending}
use animehot.Queue.Network.{
  calm, World, continue_with, Keeps, >>=-Keeps, ◌>>◌, call, call-Keeps, guard-Keeps, guard->>-Keeps,
  required->>=-Keeps,
}
use animehot.Queue.Tasks.{push_task, push_task_script}
use animehot.Queue.Pairs.{on_left}
use animehot.Schedule.Operations.{get_due, parsed}
use animehot.Schedule.Laws.{Among, AreIds, planned, planned-due}
use animehot.Scheduler.Settings.{IpScheduler, find_ip}
use animehot.Scheduler.Pass.{
  Stores, visit_all, visit_batches, wait_for_queue_drain, check_and_schedule, drain_ticks,
  batch_size_or_default, threshold_or_default,
}
use animehot.Scheduler.Calm.{takes_task, visit-calm, settle}
use animehot.Scheduler.Due.{
  settle_all, visit_all-calm, wait_for_queue_drain-calm, due_ids, joined-batches-default,
}
use animehot.Scheduler.Queueing.{visit_all-Keeps, visit_batches-Keeps, check_and_schedule-Keeps}
use animehot.Queue.Dedup.Steps.{held, owns_task}

push_task_script-pends :
    (q : Redis) (m key : Member) (raw : q.Raw) (b : q.Store)
    → is_pending q m b ≡ true
    → is_pending q m (push_task_script q key raw b).1 ≡ true
push_task_script-pends q m key raw b p = elim (Bool-cases (is_pending q key b)) [
  | inl e ↦ ap (λ c. c.sets pending m) (push_task_script-pending q key raw b e).0 ∙ p
  | inr e ↦
      ap (λ c. c.sets pending m) (push_task_script-fresh q key raw b e).0
      ∙ either (member_eq key m) _ p
]
  where
    either : (b c : Bool) → c ≡ true → (if b then true else c) ≡ true
    either true c e = refl
    either false c e = e

module _ (s : IpScheduler) where
  open s use {schedule_store, queue, queue_ready, weights, config, db}

  abbrev Marked : ℕ → World (Stores s) → Type 0
  Marked id w = is_pending queue (key_of id) w.store.1 ≡ true

  push_task-Keeps :
      (m : Member) (t : CrawlRequest)
      → Keeps (λ b. is_pending queue m b ≡ true) (push_task queue queue_ready (some t))
  unfolding push_task
  push_task-Keeps m t =
      let Pending : queue.Store → Type 0 = λ b. is_pending queue m b ≡ true in
      guard->>-Keeps Pending queue_ready not_initialized _ (
        guard->>-Keeps Pending (not (str_eq t.task_id "")) task_id_empty _ (
          guard->>-Keeps Pending (not (t.ip_id == 0)) ip_id_empty _ (
            required->>=-Keeps Pending (queue.marshal_request t) marshal_failed _ λ raw e.
              >>=-Keeps Pending (call (push_task_script queue (key_of t.ip_id) raw)) _
                (call-Keeps Pending (push_task_script queue (key_of t.ip_id) raw)
                  (push_task_script-pends queue m (key_of t.ip_id) raw))
                λ n. guard-Keeps Pending (not (n == 0)) task_exists)))

  visit_all-marks :
      (now id : ℕ) (ids : List ℕ) (a : schedule_store.Store) (b : queue.Store)
      → takes_task s (find_ip weights id db) ≡ true
      → Among id ids
      → Marked id (visit_all s now ids (calm (a, b))).1
  unfolding visit_all
  visit_all-marks now id [] a b k x = absurd x
  visit_all-marks now id (i ∷ ids) a b k (inl x) =
      let (c, e, m) = visit-calm s now i a b in
      subst (λ o. Marked id (continue_with o (λ _. visit_all s now ids)).1) (sym e)
        (visit_all-Keeps s (λ q. is_pending queue (key_of id) q ≡ true)
          (push_task-Keeps (key_of id)) now ids (calm (settle s now i a, c))
          (subst (λ n. is_pending queue (key_of n) c ≡ true) (sym x)
            (m (subst (λ n. takes_task s (find_ip weights n db) ≡ true) x k))))
  visit_all-marks now id (i ∷ ids) a b k (inr x) =
      let (c, e, m) = visit-calm s now i a b in
      subst (λ o. Marked id (continue_with o (λ _. visit_all s now ids)).1) (sym e)
        (visit_all-marks now id ids (settle s now i a) c k x)

  Among-append : (id : ℕ) (xs ys : List ℕ) → Among id (xs ++ ys) → Among id xs ⊎ Among id ys
  Among-append id [] ys x = inr x
  Among-append id (y ∷ xs) ys (inl x) = inl (inl x)
  Among-append id (y ∷ xs) ys (inr x) = elim (Among-append id xs ys x) [
    | inl y ↦ inl (inr y)
    | inr y ↦ inr y
  ]

  visit_batches-marks :
      (now threshold id : ℕ) (bs : List (List ℕ)) (a : schedule_store.Store) (b : queue.Store)
      → takes_task s (find_ip weights id db) ≡ true
      → Among id (joined bs)
      → Marked id (visit_batches s now threshold bs (calm (a, b))).1
  unfolding visit_batches
  visit_batches-marks now threshold id [] a b k x = absurd x
  visit_batches-marks now threshold id (batch ∷ []) a b k x = elim (Among-append id batch [] x) [
    | inl y ↦ visit_all-marks now id batch a b k y
    | inr y ↦ absurd y
  ]
  visit_batches-marks now threshold id (batch ∷ next ∷ rest) a b k x =
      let (c, e) = visit_all-calm s now batch a b in
      let later =
        visit_batches-marks now threshold id (next ∷ rest) (settle_all s now batch a) c k in
      let waited =
        wait_for_queue_drain-calm s threshold drain_ticks (settle_all s now batch a, c) in
      subst
        (λ o.
          Marked id
            (continue_with o (λ _.
              wait_for_queue_drain s threshold drain_ticks
              >> visit_batches s now threshold (next ∷ rest))).1)
        (sym e)
        (subst
          (λ o. Marked id (continue_with o (λ _. visit_batches s now threshold (next ∷ rest))).1)
          (sym waited)
          (elim (Among-append id batch (next ++ joined rest) x) [
            | inl y ↦
                visit_batches-Keeps s (λ q. is_pending queue (key_of id) q ≡ true)
                  (push_task-Keeps (key_of id)) now threshold (next ∷ rest)
                  (calm (settle_all s now batch a, c))
                  (subst (λ o. Marked id o.1) e (visit_all-marks now id batch a b k y))
            | inr y ↦ later y
          ]))

  check_and_schedule_marks :
      (due_at now id t : ℕ) (a : schedule_store.Store) (b : queue.Store)
      → AreIds schedule_store (schedule_store.entries a)
      → id < 2 ^ 64
      → planned schedule_store id a ≡ some t
      → t ≤ due_at
      → takes_task s (find_ip weights id db) ≡ true
      → is_pending queue (key_of id) (check_and_schedule s due_at now (calm (a, b))).1.store.1
        ≡ true
  unfolding check_and_schedule get_due on_left call
  check_and_schedule_marks due_at now id t a b ids q p l k =
      let size = batch_size_or_default config.batch_size in
      let threshold = threshold_or_default size config.backpressure_threshold in
      let due = due_ids s due_at a in
      subst
        (λ ms.
          Marked id
            (visit_batches s now threshold
              (batches (length (parsed schedule_store ms)) size (parsed schedule_store ms))
              (calm (a, b))).1)
        (sym (schedule_store.zrange_by_score_law due_at a))
        (visit_batches-marks now threshold id (batches (length due) size due) a b k (
          subst (Among id) (sym (joined-batches-default s config.batch_size due))
            (planned-due schedule_store (schedule_store.entries a) due_at id t q ids p l)))

  -- That an IP which is marked has a task or was marked at the start.
  abbrev Backed : ℕ → queue.Store → queue.Store → Type 0
  Backed id b x =
      (is_pending queue (key_of id) b ≡ true)
      ⊎ (bit (is_pending queue (key_of id) x) ≤ held queue id (queue.view x))

  script-Backed :
      (id : ℕ) (t : CrawlRequest) (raw : queue.Raw) (b x : queue.Store)
      → queue.marshal_request t ≡ some raw
      → Backed id b x
      → Backed id b (push_task_script queue (key_of t.ip_id) raw x).1
  script-Backed id t raw b x e (inl p) = inl p
  script-Backed id t raw b x e (inr p) = elim (Bool-cases (is_pending queue (key_of t.ip_id) x)) [
    | inl old ↦
        inr (subst Marks (sym (push_task_script-pending queue (key_of t.ip_id) raw x old).0) p)
    | inr new ↦ inr (
        subst Marks (sym (push_task_script-fresh queue (key_of t.ip_id) raw x new).0)
          (ground (arith, p, owns_task queue id raw t (queue.request_roundtrip t raw e))))
  ]
    where
      Marks : Contents queue.Raw → Type 0
      Marks c = bit (c.sets pending (key_of id)) ≤ held queue id c

  push_task-Backed :
      (id : ℕ) (b : queue.Store) (t : CrawlRequest)
      → Keeps (Backed id b) (push_task queue queue_ready (some t))
  unfolding push_task
  push_task-Backed id b t = guard->>-Keeps (Backed id b) queue_ready not_initialized _ (
      guard->>-Keeps (Backed id b) (not (str_eq t.task_id "")) task_id_empty _ (
        guard->>-Keeps (Backed id b) (not (t.ip_id == 0)) ip_id_empty _ (
          required->>=-Keeps (Backed id b) (queue.marshal_request t) marshal_failed _ λ raw e.
            >>=-Keeps (Backed id b) (call (push_task_script queue (key_of t.ip_id) raw)) _
              (call-Keeps (Backed id b) (push_task_script queue (key_of t.ip_id) raw)
                (λ x. script-Backed id t raw b x e))
              λ n. guard-Keeps (Backed id b) (not (n == 0)) task_exists)))

  -- On a network that does not fail, with a schedule whose members are ids: after a pass, an IP that was
  -- due, that is active and whose task is one that `PushTask` encodes is marked as pending, and if it was
  -- not marked before the pass, a task of the IP waits in the queue or is in processing.
  pub check_and_schedule_pushes :
      (due_at now id t : ℕ) (a : schedule_store.Store) (b : queue.Store)
      → AreIds schedule_store (schedule_store.entries a)
      → id < 2 ^ 64
      → planned schedule_store id a ≡ some t
      → t ≤ due_at
      → takes_task s (find_ip weights id db) ≡ true
      → let after = (check_and_schedule s due_at now (calm (a, b))).1.store.1 in
        (is_pending queue (key_of id) after ≡ true)
        × ((is_pending queue (key_of id) b ≡ true) ⊎ (1 ≤ held queue id (queue.view after)))
  check_and_schedule_pushes due_at now id t a b ids q p l k =
      let after = (check_and_schedule s due_at now (calm (a, b))).1.store.1 in
      let marked : is_pending queue (key_of id) after ≡ true =
        check_and_schedule_marks due_at now id t a b ids q p l k in
      (
        marked,
        elim (check_and_schedule-Keeps s (Backed id b) (push_task-Backed id b) due_at now
            (calm (a, b)) (backed_first (Bool-cases (is_pending queue (key_of id) b)))) [
              | inl old ↦ inl old
              | inr has ↦ inr (ground (arith, has, marked))
            ],
      )
    where
      backed_first :
          (is_pending queue (key_of id) b ≡ true) ⊎ (is_pending queue (key_of id) b ≡ false)
          → Backed id b b
      backed_first (inl e) = inl e
      backed_first (inr e) = inr (rw e (omega arith))
