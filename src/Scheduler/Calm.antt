-- ===== src/Scheduler/Calm.antt =====
-- A pass of the scheduler in internal/scheduler/ip_scheduler.go on a network that does not fail: what
-- each due IP is scheduled for.
use animehot.Common.{
  ℕ, ◌+◌, ◌*◌, ◌≡◌, refl, sym, inl, inr, Bool, true, false, not, ◌&&◌, Option, none, some, ◌==◌,
  ==_refl, ==_iff, eq_iff, ap, ◌∙◌, subst, List, [], ◌∷◌, str_eq, if◌then◌else◌, Bool-cases,
  Option-cases,
}
use animehot.Queue.Messages.{CrawlRequest, task_exists, Result, ok, err}
use animehot.Queue.Server.{Redis, ip as key_of, id as id_key, Member, member_eq, pending}
use animehot.Queue.Views.{is_pending, push_task_script-fresh, push_task_script-pending}
use animehot.Queue.Network.{calm, call, ignore}
use animehot.Queue.Pairs.{on_left, on_right}
use animehot.Queue.Tasks.{push_task, push_task_script}
use animehot.Schedule.Operations.{schedule, remove}
use animehot.Schedule.Planned.{scheduled, removed}
use animehot.Scheduler.Settings.{
  IpScheduler, IpMetadata, is_active, second, unix, calculate_interval, find_ip,
}
use animehot.Scheduler.Pass.{
  Stores, crawl_request, tolerate_existing, push_tasks_for_ip, get_ip_by_id, reschedule,
  visit_found, visit,
}

abbrev pub is_tolerated : Result (Unit {0}) → Bool
is_tolerated (ok _) = true
is_tolerated (err task_exists) = true
is_tolerated (err _) = false

abbrev pub is_ok : {A : Type 0} → Result A → Bool
is_ok (ok a) = true
is_ok (err e) = false

abbrev pub is_some : {A : Type 0} → Option A → Bool
is_some none = false
is_some (some a) = true

module _ (q : Redis) (ready : Bool) where
  -- What `PushTask` refuses without asking the server.
  abbrev pub is_acceptable : CrawlRequest → Bool
  is_acceptable t =
      ready && (not (str_eq t.task_id "") && (not (t.ip_id == 0) && is_some (q.marshal_request t)))

member_eq_refl : (m : Member) → member_eq m m ≡ true
member_eq_refl (key_of n) = ==_refl n
member_eq_refl (id_key t) = (eq_iff t t).1 refl

module _ (q : Redis) where
  open q use {Store}

  push_task_script-marks :
      (key : Member) (raw : q.Raw) (b : Store)
      → is_pending q key (push_task_script q key raw b).1 ≡ true
  push_task_script-marks key raw b = elim (Bool-cases (is_pending q key b)) [
    | inl e ↦ ap (λ c. c.sets pending key) (push_task_script-pending q key raw b e).0 ∙ e
    | inr e ↦
        ap (λ c. c.sets pending key) (push_task_script-fresh q key raw b e).0
        ∙ (rw (member_eq_refl key) refl)
  ]

  pub push_task-calm :
      (ready : Bool) (t : CrawlRequest) (b : Store)
      → (res : Result (Unit {0})) × (b' : Store) × (push_task q ready (some t) (calm b)
          ≡ (res, calm b'))
        × (is_tolerated res ≡ is_acceptable q ready t)
        × (is_acceptable q ready t ≡ true → is_pending q (key_of t.ip_id) b' ≡ true)
  unfolding push_task call
  push_task-calm false t b = (_, b, refl, refl, λ x. cc)
  push_task-calm true t b = elim (Bool-cases (str_eq t.task_id "")) [
    | inl e ↦ rw e (_, b, refl, refl, λ x. cc)
    | inr e ↦ elim (Bool-cases (t.ip_id == 0)) [
      | inl f ↦ rw (e, f) (_, b, refl, refl, λ x. cc)
      | inr f ↦ elim (Option-cases (q.marshal_request t)) [
        | inl g ↦ rw (e, f, g) (_, b, refl, refl, λ x. cc)
        | inr (raw, g) ↦ elim (Bool-cases ((push_task_script q (key_of t.ip_id) raw b).0 == 0)) [
          | inl h ↦
              rw (e, f, g, h) (_, _, refl, refl, λ _. push_task_script-marks (key_of t.ip_id) raw b)
          | inr h ↦
              rw (e, f, g, h) (_, _, refl, refl, λ _. push_task_script-marks (key_of t.ip_id) raw b)
        ]
      ]
    ]
  ]

module _ (s : IpScheduler) where
  open s use {schedule_store, queue, queue_ready, weights, config, db}

  -- Whether `pushTasksForIP` succeeds, which does not depend on what the queue holds.
  abbrev pub is_pushable : IpMetadata weights → Bool
  is_pushable ip = not (str_eq ip.name "") && is_acceptable queue queue_ready (crawl_request s ip)

  -- The time for which an active IP that was due is scheduled.
  abbrev pub next_at : ℕ → IpMetadata weights → ℕ
  next_at now ip =
      unix (
        now + (if is_pushable ip then calculate_interval weights config ip.weight else 60 * second))

  abbrev pub next_if_active : ℕ → Option (IpMetadata weights) → Option ℕ
  next_if_active now none = none
  next_if_active now (some ip) = if is_active ip.status then some (next_at now ip) else none

  abbrev pub settled_at : ℕ → ℕ → Option ℕ
  settled_at now id = next_if_active now (find_ip weights id db)

  abbrev settle_with : ℕ → Option ℕ → schedule_store.Store → schedule_store.Store
  settle_with id none = removed schedule_store id
  settle_with id (some t) = scheduled schedule_store id t

  abbrev pub settle : ℕ → ℕ → schedule_store.Store → schedule_store.Store
  settle now id = settle_with id (settled_at now id)

  tolerate-calm :
      (res : Result (Unit {0})) (b : Bool) (x : Stores s)
      → is_tolerated res ≡ b
      → (out : Result (Unit {0})) × (tolerate_existing res (calm x) ≡ (out, calm x))
        × (is_ok out ≡ b)
  unfolding tolerate_existing
  tolerate-calm (ok a) b x e = (_, refl, e)
  tolerate-calm (err task_exists) b x e = (_, refl, e)
  tolerate-calm (err other) b x e = (_, refl, e)

  push_tasks_for_ip-calm :
      (ip : IpMetadata weights) (a : schedule_store.Store) (b : queue.Store)
      → (out : Result (Unit {0})) × (b' : queue.Store) × (push_tasks_for_ip s ip (calm (a, b))
          ≡ (out, calm (a, b')))
        × (is_ok out ≡ is_pushable ip)
        × (is_pushable ip ≡ true → is_pending queue (key_of ip.id) b' ≡ true)
  unfolding push_tasks_for_ip on_right
  push_tasks_for_ip-calm ip a b = elim (Bool-cases (str_eq ip.name "")) [
    | inl e ↦ rw e (_, b, refl, refl, λ x. cc)
    | inr e ↦
        let (res, b', p, q, m) = push_task-calm queue queue_ready (crawl_request s ip) b in
        let (out, o, k) = tolerate-calm res _ (a, b') q in rw (e, p, o) (_, b', refl, k, m)
  ]

  reschedule-calm :
      (now id : ℕ) (ip : IpMetadata weights) (out : Result (Unit {0})) (a : schedule_store.Store)
      (b : queue.Store)
      → is_ok out ≡ is_pushable ip
      → reschedule s now id ip out (calm (a, b))
        ≡ (ok tt, calm (scheduled schedule_store id (next_at now ip) a, b))
  unfolding reschedule on_left schedule call
  reschedule-calm now id ip (ok _) a b e = rw (sym e) refl
  reschedule-calm now id ip (err _) a b e = rw (sym e) refl

  remove-calm :
      (id : ℕ) (a : schedule_store.Store) (b : queue.Store)
      → ignore (on_left (remove schedule_store id)) (calm (a, b))
        ≡ (ok tt, calm (removed schedule_store id a, b))
  unfolding on_left remove call
  remove-calm id a b = refl

  -- Whether an id gets a task.
  abbrev pub takes_task : Option (IpMetadata weights) → Bool
  takes_task none = false
  takes_task (some ip) = is_active ip.status && is_pushable ip

  find_ip-id :
      (id : ℕ) (rows : List (IpMetadata weights)) (found : IpMetadata weights)
      → find_ip weights id rows ≡ some found
      → found.id ≡ id
  unfolding find_ip
  find_ip-id id [] found e = cc
  find_ip-id id (row ∷ rows) found e = elim (Bool-cases (row.id == id)) [
    | inl h ↦
        let hit : some row ≡ some found =
          ap (λ b. if b then some row else find_ip weights id rows) (sym h) ∙ e in
        let same : row ≡ found = cc hit in ap (λ x. x.id) (sym same) ∙ (==_iff row.id id).0 h
    | inr h ↦
        find_ip-id id rows found
          (ap (λ b. if b then some row else find_ip weights id rows) (sym h) ∙ e)
  ]

  pub visit-calm :
      (now id : ℕ) (a : schedule_store.Store) (b : queue.Store)
      → (b' : queue.Store) × (visit s now id (calm (a, b)) ≡ (ok tt, calm (settle now id a, b')))
        × (takes_task (find_ip weights id db) ≡ true → is_pending queue (key_of id) b' ≡ true)
  unfolding visit visit_found get_ip_by_id call
  visit-calm now id a b = elim (Option-cases (find_ip weights id db)) [
    | inl e ↦ rw (e, remove-calm id a b) (b, refl, λ x. cc)
    | inr (ip, e) ↦ elim (Bool-cases (is_active ip.status)) [
      | inl f ↦
          let (out, b', p, q, m) = push_tasks_for_ip-calm ip a b in
          rw (e, f, p, reschedule-calm now id ip out a b' q)
            (
              b',
              refl,
              λ x. subst (λ n. is_pending queue (key_of n) b' ≡ true) (find_ip-id id db ip e) (m x),
            )
      | inr f ↦ rw (e, f, remove-calm id a b) (b, refl, λ x. cc)
    ]
  ]
