-- ===== src/Scheduler/Boot.antt =====
-- What the start of the scheduler in internal/scheduler/ip_scheduler.go leaves behind.
use animehot.Common.{
  ℕ, suc, ◌+◌, ◌*◌, ◌≡◌, refl, ap, ◌∙◌, ◌≤◌, ◌<◌, ◌^◌, ◌||◌, ◌⊎◌, inl, inr, Bool, true, false,
  Option, none, some, List, [], ◌∷◌, ◌==◌, if◌then◌else◌, ltb, length, Bool-cases, arith,
}
use animehot.Queue.Messages.{ok, err, already_running}
use animehot.Queue.Network.{
  World, calm, call, M, ignore, Keeps, >>=-Keeps, ignore-Keeps, Fate, ◌>>◌,
}
use animehot.Queue.Pairs.{on_left, on_right}
use animehot.Queue.Recovery.{Recovered, recover_orphaned_tasks}
use animehot.Schedule.Server.{score_in, score_after}
use animehot.Schedule.Operations.{count, schedule_batch, new_entries}
use animehot.Schedule.Laws.{planned}
use animehot.Schedule.Planned.{same_ids}
use animehot.Scheduler.Settings.{
  IpScheduler, IpMetadata, second, unix, calculate_interval, active_ips,
}
use animehot.Scheduler.Pass.{Stores, check_and_schedule}
use animehot.Scheduler.Requests.{get_active_ips, in_active_set}
use animehot.Scheduler.Refresh.{HasIds, listed}
use animehot.Scheduler.Startup.{
  State, initial_time, initial_times, schedule_initial, init_schedule_times, start,
}

module _ (s : IpScheduler) where
  open s use {schedule_store, queue, queue_ready, weights, config, db}

  unix-le : (x y : ℕ) → x ≤ y → unix x ≤ unix y
  unix-le x y l = omega arith

  initial_time-from :
      (now i : ℕ) (ip : IpMetadata weights) (last : Option ℕ) → now ≤ initial_time s now i ip last
  unfolding initial_time
  initial_time-from now i ip none = omega arith
  initial_time-from now i ip (some last) =
      later (last + calculate_interval weights config ip.weight) (i * (10 * second))
    where
      later : (next d : ℕ) → now ≤ (if ltb next now then now + d else next)
      later next d = ground arith

  -- The time of an id after a batch of initial times.
  abbrev after_initial : ℕ → ℕ → List (IpMetadata weights) → ℕ → Option ℕ → Option ℕ
  after_initial now i ips id old =
      score_after schedule_store.same (schedule_store.format_uint id)
        (new_entries schedule_store (initial_times s now i ips)) old

  initial-cases :
      (now i : ℕ) (ips : List (IpMetadata weights)) (id : ℕ) (old : Option ℕ)
      → HasIds s ips
      → id < 2 ^ 64
      → ((listed s id ips ≡ true)
          × ((t : ℕ) × (after_initial now i ips id old ≡ some t) × (unix now ≤ t)))
        ⊎ ((listed s id ips ≡ false) × (after_initial now i ips id old ≡ old))
  unfolding new_entries initial_times in_active_set
  initial-cases now i [] id old k l = inr (refl, refl)
  initial-cases now i (ip ∷ ips) id old (j, k) l =
      let own : Option ℕ = some (unix (initial_time s now i ip ip.last_crawled_at)) in
      elim (initial-cases now (suc i) ips id
        (if schedule_store.same (schedule_store.format_uint id) (schedule_store.format_uint ip.id)
          then own
          else old)
        k l) [
          | inl (h, found) ↦ inl (or_true (id == ip.id) _ h, found)
          | inr (h, e) ↦ elim (Bool-cases (id == ip.id)) [
            | inl same ↦ inl (
              or_left (id == ip.id) _ same,
              (
                unix (initial_time s now i ip ip.last_crawled_at),
                e ∙ ap (λ b. if b then own else old) (same_ids schedule_store id ip.id l j ∙ same),
                unix-le now _ (initial_time-from now i ip ip.last_crawled_at),
              ),
            )
            | inr other ↦ inr (
              or_false (id == ip.id) _ other h,
              e ∙ ap (λ b. if b then own else old) (same_ids schedule_store id ip.id l j ∙ other),
            )
          ]
        ]
    where
      or_true : (x y : Bool) → y ≡ true → (x || y) ≡ true
      or_true true y e = refl
      or_true false y e = e

      or_left : (x y : Bool) → x ≡ true → (x || y) ≡ true
      or_left true y e = refl
      or_left false y e = cc

      or_false : (x y : Bool) → x ≡ false → y ≡ false → (x || y) ≡ false
      or_false true y e f = cc
      or_false false y e f = f

  schedule_batch-calm :
      (plan : List (ℕ × ℕ)) (a : schedule_store.Store) (b : queue.Store)
      → (a' : schedule_store.Store) × (on_left (schedule_batch schedule_store plan) (calm (a, b))
          ≡ (ok tt, calm (a', b)))
        × ((id : ℕ)
            → planned schedule_store id a'
              ≡ score_after schedule_store.same
                  (schedule_store.format_uint id)
                  (new_entries schedule_store plan)
                  (planned schedule_store id a))
  unfolding on_left schedule_batch new_entries call
  schedule_batch-calm [] a b = (a, refl, λ id. refl)
  schedule_batch-calm (p ∷ plan) a b = (
    schedule_store.zadd (new_entries schedule_store (p ∷ plan)) a,
    refl,
    λ id.
        schedule_store.zadd_law (new_entries schedule_store (p ∷ plan))
          (schedule_store.format_uint id) a,
  )

  -- On a network that does not fail, with a table whose ids are numbers of 64 bits: if the schedule is
  -- empty, `initScheduleTimes` schedules every active IP, for the time of its call or later, and no other.
  -- If it is not, `initScheduleTimes` leaves it alone. It leaves the queue alone in both cases.
  pub init_schedule_times_lem :
      (now : ℕ) (a : schedule_store.Store) (b : queue.Store)
      → HasIds s (active_ips weights db)
      → (a' : schedule_store.Store) × (init_schedule_times s now (calm (a, b))
          ≡ (ok tt, calm (a', b)))
        × (0 < length (schedule_store.entries a) → a' ≡ a)
        × (schedule_store.entries a ≡ []
            → (id : ℕ) → id < 2 ^ 64
            → ((listed s id (active_ips weights db) ≡ true)
                × ((t : ℕ) × (planned schedule_store id a' ≡ some t) × (unix now ≤ t)))
              ⊎ ((listed s id (active_ips weights db) ≡ false)
                  × (planned schedule_store id a' ≡ none)))
  unfolding init_schedule_times get_active_ips schedule_initial count on_left call
  init_schedule_times_lem now a b k = elim (Bool-cases (ltb 0 (schedule_store.zcard a))) [
    | inl e ↦ (
      a,
      rw e refl,
      (λ l. refl),
      (λ empty id l.
          absurd
            (occupied (schedule_store.zcard a) e (schedule_store.zcard_law a ∙ ap length empty))),
    )
    | inr e ↦
        let (a', run, f) =
          schedule_batch-calm (initial_times s now 0 (active_ips weights db)) a b in
        (
          a',
          rw e run,
          (λ l. absurd (
              vacant (schedule_store.zcard a) (length (schedule_store.entries a)) e
                (schedule_store.zcard_law a) l)),
          λ empty id l.
              let before : planned schedule_store id a ≡ none =
                ap (score_in schedule_store.same (schedule_store.format_uint id)) empty in
              elim (initial-cases now 0 (active_ips weights db) id (planned schedule_store id a) k
                l) [
                  | inl (h, (t, g, m)) ↦ inl (h, (t, f id ∙ g, m))
                  | inr (h, g) ↦ inr (h, f id ∙ g ∙ before)
                ],
        )
  ]
    where
      occupied : (n : ℕ) → ltb 0 n ≡ true → n ≡ 0 → ⊥
      occupied n e f = ground arith

      vacant : (n m : ℕ) → ltb 0 n ≡ false → n ≡ m → 0 < m → ⊥
      vacant n m e f g = ground arith

  stores-Keeps :
      {A : Type 0} (m : M (Stores s) A) → Keeps (λ (x : State s). x.0 ≡ true) (on_right m)
  unfolding on_right
  stores-Keeps m w p = p

  -- What `Start` does after it has set the field.
  rest_running :
      (fuel due_at now : ℕ)
      → Keeps
          (λ (x : State s). x.0 ≡ true)
          (ignore (on_right (on_right (recover_orphaned_tasks queue fuel queue_ready)))
            >> (on_right (init_schedule_times s now) >> on_right (check_and_schedule s due_at now)))
  rest_running fuel due_at now =
      let Running : State s → Type 0 = λ x. x.0 ≡ true in
      let recovery : M (Stores s) Recovered =
        on_right (recover_orphaned_tasks queue fuel queue_ready) in
      let init : M (State s) (Unit {0}) = on_right (init_schedule_times s now) in
      let pass : M (State s) (Unit {0}) = on_right (check_and_schedule s due_at now) in
      >>=-Keeps Running (ignore (on_right recovery)) (λ _. init >> pass)
        (ignore-Keeps Running (on_right recovery) (stores-Keeps recovery))
        (λ _.
          >>=-Keeps Running init (λ _. pass) (stores-Keeps (init_schedule_times s now))
            (λ _. stores-Keeps (check_and_schedule s due_at now)))

  -- Whatever the network does and whatever `Start` reports, the scheduler counts as running after it. A
  -- scheduler that was running reports so and is left as it is.
  pub start_running :
      (fuel due_at now : ℕ) (w : World (State s))
      → ((start s fuel due_at now w).1.store.0 ≡ true)
        × (w.store.0 ≡ true → start s fuel due_at now w ≡ (err already_running, w))
  unfolding start
  start_running fuel due_at now w = from w.store.0 w.store.1 w.fates
    where
      from :
          (running : Bool) (x : Stores s) (fates : List Fate)
          → ((start s fuel due_at now (record { store = (running, x); fates = fates })).1.store.0
              ≡ true)
            × (running ≡ true
                → start s fuel due_at now (record { store = (running, x); fates = fates })
                  ≡ (err already_running, record { store = (running, x); fates = fates }))
      from true x fates = (refl, λ e. refl)
      from false x fates =
          (rest_running fuel due_at now (record { store = (true, x); fates = fates }) refl, λ e. cc)
