-- ===== src/Scheduler/Due.antt =====
-- What a whole pass of the scheduler in internal/scheduler/ip_scheduler.go leaves behind, on a network
-- that does not fail.
use animehot.Common.{
  ℕ, zero, suc, ◌+◌, ◌*◌, ◌≡◌, refl, sym, subst, ap, ◌∙◌, ◌≤◌, ◌<◌, ◌^◌, ◌⊎◌, inl, inr, Bool, true,
  false, Option, none, some, List, [], ◌∷◌, ◌++◌, ◌==◌, ==_iff, if◌then◌else◌, Bool-cases,
  Option-cases, arith, joined, batches, joined-batches, length,
}
use animehot.Queue.Messages.{ok}
use animehot.Queue.Network.{calm, call, continue_with, World, M, return, ◌>>◌}
use animehot.Queue.Pairs.{on_left, on_right}
use animehot.Queue.Upkeep.{get_queue_stats}
use animehot.Schedule.Operations.{get_due, parsed}
use animehot.Schedule.Server.{members_to}
use animehot.Schedule.Laws.{Among, AreIds, planned, due-planned, planned-due}
use animehot.Schedule.Planned.{planned-scheduled, planned-removed, due-below}
use animehot.Scheduler.Settings.{
  IpScheduler, IpMetadata, is_active, second, unix, calculate_interval, find_ip, within_limits,
}
use animehot.Scheduler.Pass.{
  Stores, visit_all, wait_for_queue_drain, visit_batches, check_and_schedule, drain_ticks,
  is_drained, batch_size_or_default, threshold_or_default,
}
use animehot.Scheduler.Calm.{settled_at, settle, visit-calm, next_if_active, next_at, is_pushable}

abbrev pub AllBelow : List ℕ → Type 0
AllBelow [] = Unit {0}
AllBelow (i ∷ is) = (i < 2 ^ 64) × AllBelow is

module _ (s : IpScheduler) where
  open s use {schedule_store, queue, queue_ready, weights, config, db}

  planned-settle :
      (now id other : ℕ) (a : schedule_store.Store)
      → id < 2 ^ 64
      → other < 2 ^ 64
      → planned schedule_store other (settle s now id a)
        ≡ (if other == id then settled_at s now id else planned schedule_store other a)
  planned-settle now id other a p q = elim (Option-cases (settled_at s now id)) [
    | inl e ↦ rw e (planned-removed schedule_store id other a p q)
    | inr (t, e) ↦ rw e (planned-scheduled schedule_store id t other a p q)
  ]

  abbrev pub settle_all : ℕ → List ℕ → schedule_store.Store → schedule_store.Store
  settle_all now [] a = a
  settle_all now (id ∷ ids) a = settle_all now ids (settle s now id a)

  settle_all-append :
      (now : ℕ) (xs ys : List ℕ) (a : schedule_store.Store)
      → settle_all now (xs ++ ys) a ≡ settle_all now ys (settle_all now xs a)
  settle_all-append now [] ys a = refl
  settle_all-append now (x ∷ xs) ys a = settle_all-append now xs ys (settle s now x a)

  planned-settle_all :
      (now other : ℕ) (ids : List ℕ) (a : schedule_store.Store)
      → AllBelow ids
      → other < 2 ^ 64
      → ((Among other ids)
          × (planned schedule_store other (settle_all now ids a) ≡ settled_at s now other))
        ⊎ ((Among other ids → ⊥)
            × (planned schedule_store other (settle_all now ids a)
                ≡ planned schedule_store other a))
  planned-settle_all now other [] a b q = inr (λ x. x, refl)
  planned-settle_all now other (id ∷ ids) a (p, b) q =
      elim (planned-settle_all now other ids (settle s now id a) b q) [
        | inl (k, e) ↦ inl (inr k, e)
        | inr (k, e) ↦ elim (Bool-cases (other == id)) [
          | inl h ↦
              let same = (==_iff other id).0 h in
              inl (
                inl same,
                e ∙ planned-settle now id other a p q ∙ (rw h (ap (settled_at s now) (sym same))),
              )
          | inr h ↦ inr (
            (λ x. elim x [ inl same ↦ different other id h same | inr later ↦ k later ]),
            e ∙ planned-settle now id other a p q ∙ (rw h refl),
          )
        ]
      ]
    where
      different : (i j : ℕ) → (i == j) ≡ false → i ≡ j → ⊥
      different i j h e = ground arith

  pub visit_all-calm :
      (now : ℕ) (ids : List ℕ) (a : schedule_store.Store) (b : queue.Store)
      → (b' : queue.Store) × (visit_all s now ids (calm (a, b))
          ≡ (ok tt, calm (settle_all now ids a, b')))
  unfolding visit_all
  visit_all-calm now [] a b = (b, refl)
  visit_all-calm now (id ∷ ids) a b =
      let (c, e, m) = visit-calm s now id a b in
      let (d, f) = visit_all-calm now ids (settle s now id a) c in
      (d, ap (λ o. continue_with o (λ _. visit_all s now ids)) e ∙ f)

  get_queue_stats-calm :
      (ready : Bool) (x : Stores s)
      → (on_right {S = schedule_store.Store} (get_queue_stats queue ready) (calm x)).1 ≡ calm x
  unfolding on_right get_queue_stats call
  get_queue_stats-calm true x = refl
  get_queue_stats-calm false x = refl

  either_way :
      (drained : Bool) (x : Stores s) (w : World (Stores s)) (rest : M (Stores s) (Unit {0}))
      → w ≡ calm x
      → rest (calm x) ≡ (ok tt, calm x)
      → (if drained then return tt else rest) w ≡ (ok tt, calm x)
  either_way true x w rest e f = ap (λ v. (ok tt, v)) e
  either_way false x w rest e f = ap rest e ∙ f

  pub wait_for_queue_drain-calm :
      (threshold ticks : ℕ) (x : Stores s)
      → wait_for_queue_drain s threshold ticks (calm x) ≡ (ok tt, calm x)
  unfolding wait_for_queue_drain
  wait_for_queue_drain-calm threshold zero x = refl
  wait_for_queue_drain-calm threshold (suc ticks) x =
      either_way
        (is_drained s threshold
          (on_right {S = schedule_store.Store} (get_queue_stats queue queue_ready) (calm x)).0)
        x _ (wait_for_queue_drain s threshold ticks) (get_queue_stats-calm queue_ready x)
        (wait_for_queue_drain-calm threshold ticks x)

  abbrev Ends :
      M (Stores s) (Unit {0}) → schedule_store.Store → queue.Store → schedule_store.Store → Type 0
  Ends m a b after = (b' : queue.Store) × (m (calm (a, b)) ≡ (ok tt, calm (after, b')))

  visit_batches-calm :
      (now threshold : ℕ) (bs : List (List ℕ)) (a : schedule_store.Store) (b : queue.Store)
      → (b' : queue.Store) × (visit_batches s now threshold bs (calm (a, b))
          ≡ (ok tt, calm (settle_all now (joined bs) a, b')))
  unfolding visit_batches
  visit_batches-calm now threshold [] a b = (b, refl)
  visit_batches-calm now threshold (batch ∷ []) a b =
      subst (Ends (visit_all s now batch) a b) (sym (settle_all-append now batch [] a))
        (visit_all-calm now batch a b)
  visit_batches-calm now threshold (batch ∷ next ∷ rest) a b =
      let (c, e) = visit_all-calm now batch a b in
      let (d, f) = visit_batches-calm now threshold (next ∷ rest) (settle_all now batch a) c in
      subst (Ends (visit_batches s now threshold (batch ∷ next ∷ rest)) a b)
        (sym (settle_all-append now batch (next ++ joined rest) a))
        (
          d,
          ap
                (λ o. continue_with o (λ _.
                  wait_for_queue_drain s threshold drain_ticks
                  >> visit_batches s now threshold (next ∷ rest)))
                e
              ∙ ap (λ o. continue_with o (λ _. visit_batches s now threshold (next ∷ rest)))
                  (wait_for_queue_drain-calm threshold drain_ticks (settle_all now batch a, c))
              ∙ f,
        )

  abbrev pub due_ids : ℕ → schedule_store.Store → List ℕ
  due_ids due_at a = parsed schedule_store (members_to due_at (schedule_store.entries a))

  pub joined-batches-default :
      (size : ℕ) (ids : List ℕ)
      → joined (batches (length ids) (batch_size_or_default size) ids) ≡ ids
  joined-batches-default zero ids = joined-batches (length ids) 9 ids (omega arith)
  joined-batches-default (suc size) ids =
      rw (given size) (joined-batches (length ids) size ids (omega arith))
    where
      given : (n : ℕ) → batch_size_or_default (suc n) ≡ suc n
      given n = ground arith

  pub check_and_schedule-calm :
      (due_at now : ℕ) (a : schedule_store.Store) (b : queue.Store)
      → Ends (check_and_schedule s due_at now) a b (settle_all now (due_ids due_at a) a)
  unfolding check_and_schedule get_due on_left call
  check_and_schedule-calm due_at now a b =
      let size = batch_size_or_default config.batch_size in
      let ids = due_ids due_at a in
      let batched = batches (length ids) size ids in
      let pass : List ℕ → M (Stores s) (Unit {0}) = λ due.
        visit_batches s now (threshold_or_default size config.backpressure_threshold)
          (batches (length due) size due) in
      let (b', e) =
        visit_batches-calm now (threshold_or_default size config.backpressure_threshold) batched a
          b in
      (
        b',
        ap (λ ms. pass (parsed schedule_store ms) (calm (a, b)))
              (schedule_store.zrange_by_score_law due_at a)
            ∙ e
            ∙ ap (λ is. (ok tt, calm (settle_all now is a, b')))
                (joined-batches-default config.batch_size ids),
      )

  below : (ids : List ℕ) → ((id : ℕ) → Among id ids → id < 2 ^ 64) → AllBelow ids
  below [] h = tt
  below (id ∷ ids) h = (h id (inl refl), below ids (λ i k. h i (inr k)))

  due_ids-AllBelow :
      (due_at : ℕ) (a : schedule_store.Store)
      → AreIds schedule_store (schedule_store.entries a)
      → AllBelow (due_ids due_at a)
  due_ids-AllBelow due_at a k =
      below (due_ids due_at a)
        (λ id. due-below schedule_store (schedule_store.entries a) due_at id k)

  -- On a network that does not fail, with a schedule whose members are ids: a pass ends, and every id
  -- that was due is out of the schedule if no active IP has it; if one has, it is scheduled for its interval from the time of the
  -- pass if its task is accepted or exists already, and for a minute from it otherwise. Every other id
  -- keeps its time.
  pub check_and_schedule_lem :
      (due_at now : ℕ) (a : schedule_store.Store) (b : queue.Store)
      → AreIds schedule_store (schedule_store.entries a)
      → (a' : schedule_store.Store) × (b' : queue.Store) × (check_and_schedule s due_at now
            (calm (a, b))
          ≡ (ok tt, calm (a', b')))
        × ((id : ℕ)
            → id < 2 ^ 64
            → ((t : ℕ) × (planned schedule_store id a ≡ some t)
                × (t ≤ due_at)
                × (planned schedule_store id a' ≡ settled_at s now id))
              ⊎ (((t : ℕ) → planned schedule_store id a ≡ some t → due_at < t)
                  × (planned schedule_store id a' ≡ planned schedule_store id a)))
  check_and_schedule_lem due_at now a b k =
      let (b', e) = check_and_schedule-calm due_at now a b in
      (
        settle_all now (due_ids due_at a) a,
        b',
        e,
        λ id q.
            elim (planned-settle_all now id (due_ids due_at a) a (due_ids-AllBelow due_at a k) q) [
              | inl (h, f) ↦
                  let (t, g, l) =
                    due-planned schedule_store (schedule_store.entries a) due_at id
                      (schedule_store.entries-IsUnique a) k h in
                  inl (t, g, l, f)
              | inr (h, f) ↦ inr (
                (λ t g. elim (late_cases t due_at) [
                  | inl late ↦ late
                  | inr l ↦ absurd (
                      h (planned-due schedule_store (schedule_store.entries a) due_at id t q k g l))
                ]),
                f,
              )
            ],
      )
    where
      late_cases : (t due : ℕ) → (due < t) ⊎ (t ≤ due)
      late_cases t due = ground arith

  interval-from :
      (weight : weights.Weight)
      → second ≤ config.min_interval
      → config.min_interval ≤ config.max_interval
      → second ≤ calculate_interval weights config weight
  unfolding calculate_interval
  interval-from weight l m = bounded (
      weights.scaled config.base_interval
        (if weights.is_positive weight then weight else weights.one))
    where
      bounded : (n : ℕ) → second ≤ within_limits weights config.min_interval config.max_interval n
      bounded n = ground arith

  later_second : (now d : ℕ) → second ≤ d → unix now < unix (now + d)
  later_second now d l = omega arith

  either_later :
      (b : Bool) (now d : ℕ) → second ≤ d → unix now < unix (now + (if b then d else 60 * second))
  either_later true now d l = later_second now d l
  either_later false now d l = later_second now (60 * second) (omega arith)

  settled_later :
      (now : ℕ) (found : Option (IpMetadata weights)) (t : ℕ)
      → second ≤ config.min_interval
      → config.min_interval ≤ config.max_interval
      → next_if_active s now found ≡ some t
      → unix now < t
  settled_later now none t l m e = cc
  settled_later now (some ip) t l m e =
      chosen (is_active ip.status) (unix now) (next_at s now ip) t e (
        either_later (is_pushable s ip) now (calculate_interval weights config ip.weight)
          (interval-from ip.weight l m))
    where
      chosen : (b : Bool) (x u t : ℕ) → (if b then some u else none) ≡ some t → x < u → x < t
      chosen b x u t e l = ground arith

  -- If the shortest interval is a second at least and at most the longest one, nothing that was due when
  -- a pass on a network that does not fail began is due when it ends: every id that is scheduled then
  -- has a later time than the second at which `GetDue` looked, if that was not after the time of the pass.
  pub check_and_schedule_clears :
      (due_at now : ℕ) (a : schedule_store.Store) (b : queue.Store)
      → AreIds schedule_store (schedule_store.entries a)
      → due_at ≤ unix now
      → second ≤ config.min_interval
      → config.min_interval ≤ config.max_interval
      → (a' : schedule_store.Store) × (b' : queue.Store) × (check_and_schedule s due_at now
            (calm (a, b))
          ≡ (ok tt, calm (a', b')))
        × ((id t : ℕ) → id < 2 ^ 64 → planned schedule_store id a' ≡ some t → due_at < t)
  check_and_schedule_clears due_at now a b k n l m =
      let (a', b', e, f) = check_and_schedule_lem due_at now a b k in
      (
        a',
        b',
        e,
        λ id t q g. elim (f id q) [
          | inl (t', old, due, new) ↦
              omega (arith, n, settled_later now (find_ip weights id db) t l m (sym new ∙ g))
          | inr (late, same) ↦ late t (sym same ∙ g)
        ],
      )
