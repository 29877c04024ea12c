-- ===== src/Scheduler/Waits.antt =====
-- What `scheduleLoop` of internal/scheduler/ip_scheduler.go waits for, on a network that does not fail.
use animehot.Common.{
  ℕ, ◌+◌, ◌-◌, ◌≡◌, ap, ◌≤◌, ◌<◌, ◌^◌, ◌⊎◌, refl, sym, ◌∙◌, ltb, inl, inr, true, false, Option,
  none, some, leb, Bool-cases, arith,
}
use animehot.Queue.Messages.{ok}
use animehot.Queue.Network.{calm}
use animehot.Queue.Pairs.{on_left-calm}
use animehot.Schedule.Operations.{time_unix, time_of, get_next_time}
use animehot.Schedule.Laws.{AreIds, planned, IsNext, get_next_time_lem}
use animehot.Scheduler.Settings.{IpScheduler, second, unix}
use animehot.Scheduler.Loops.{
  Round, look_again_after, pass_now, pass_after, max_sleep_duration, sleep_duration, round_of,
  schedule_round, run_round,
}
use animehot.Scheduler.Due.{check_and_schedule_clears}

module _ (s : IpScheduler) where
  open s use {schedule_store, queue, config}

  -- The loop looks again after 5 minutes if nothing is scheduled. It starts a pass at once if an IP is
  -- overdue; else at the earliest time in the schedule, or after 5 minutes if that is earlier.
  abbrev pub IsTimely : ℕ → schedule_store.Store → Round → Type 0
  IsTimely now a (look_again_after d) =
      (d ≡ max_sleep_duration) × ((id : ℕ) → planned schedule_store id a ≡ none)
  IsTimely now a pass_now =
      (id : ℕ) × (t : ℕ) × (planned schedule_store id a ≡ some t) × (time_unix t ≤ now)
  IsTimely now a (pass_after d) =
      ((id t : ℕ) → planned schedule_store id a ≡ some t → now + d ≤ time_unix t)
      × (d ≤ max_sleep_duration)
      × ((d ≡ max_sleep_duration)
          ⊎ ((id : ℕ) × (t : ℕ) × (planned schedule_store id a ≡ some t) × (now + d ≡ time_unix t)))

  -- When a round makes its pass, if it makes one.
  abbrev pub passes_at : ℕ → Round → ℕ
  passes_at now (look_again_after d) = now
  passes_at now pass_now = now
  passes_at now (pass_after d) = now + d

  sleep_duration-le : (d : ℕ) → (sleep_duration d ≤ max_sleep_duration) × (sleep_duration d ≤ d)
  sleep_duration-le d = ground arith

  sleep_duration-cases : (d : ℕ) → (sleep_duration d ≡ max_sleep_duration) ⊎ (sleep_duration d ≡ d)
  sleep_duration-cases d = elim (Bool-cases (ltb max_sleep_duration d)) [
    | inl e ↦ inl (rw e refl)
    | inr e ↦ inr (rw e refl)
  ]

  late : (t now : ℕ) → leb (time_unix t) now ≡ true → time_unix t ≤ now
  late t now e = ground arith

  early : (t now : ℕ) → leb (time_unix t) now ≡ false → now < time_unix t
  early t now e = ground arith

  round_of-IsTimely :
      (now : ℕ) (a : schedule_store.Store) (next : Option ℕ)
      → IsNext schedule_store (schedule_store.entries a) next
      → IsTimely now a (round_of now (ok (time_of next)))
  unfolding round_of
  round_of-IsTimely now a none k = (refl, k)
  round_of-IsTimely now a (some t) ((id, l, e), k) = elim (Bool-cases (leb (time_unix t) now)) [
    | inl h ↦ rw h (id, t, e, late t now h)
    | inr h ↦
        let d = time_unix t - now in
        let ahead = early t now h in
        let (most, short) = sleep_duration-le d in
        rw h (
          λ i u f. omega (arith, k i u f, short, ahead),
          most,
          elim (sleep_duration-cases d) [
            | inl x ↦ inl x
            | inr x ↦ inr (id, t, e, omega (arith, x, ahead))
          ],
        )
  ]

  -- A round that runs as found, and what is scheduled when it ends.
  abbrev Ends : ℕ → schedule_store.Store → queue.Store → Round → Type 0
  Ends now a b round =
      (a' : schedule_store.Store) × (b' : queue.Store) × (run_round s now round (calm (a, b))
        ≡ (ok round, calm (a', b')))
      × ((id t : ℕ)
          → id < 2 ^ 64
          → planned schedule_store id a' ≡ some t
          → unix (passes_at now round) < t)

  absent {ℓ} : {A : Type ℓ} {t : ℕ} → none ≡ some t → A
  absent e = cc

  run_round-Ends :
      (now : ℕ) (a : schedule_store.Store) (b : queue.Store) (round : Round)
      → AreIds schedule_store (schedule_store.entries a)
      → second ≤ config.min_interval
      → config.min_interval ≤ config.max_interval
      → IsTimely now a round
      → Ends now a b round
  unfolding run_round
  run_round-Ends now a b (look_again_after d) k n l (e, none_planned) =
      (a, b, refl, λ id t q f. absent (sym (none_planned id) ∙ f))
  run_round-Ends now a b pass_now k n l timely =
      let (a', b', e, f) = check_and_schedule_clears s (unix now) now a b k (omega arith) n l in
      (a', b', ap (λ o. (ok pass_now, o.1)) e, f)
  run_round-Ends now a b (pass_after d) k n l timely =
      let (a', b', e, f) =
        check_and_schedule_clears s (unix (now + d)) (now + d) a b k (omega arith) n l in
      (a', b', ap (λ o. (ok (pass_after d), o.1)) e, f)

  -- On a network that does not fail, with a schedule whose members are ids, a shortest interval of a second
  -- at least and at most the longest one, and nobody else at work while the round sleeps: a round of the
  -- loop looks again after 5 minutes if nothing is scheduled, makes a pass at once if an IP is overdue, and
  -- otherwise at the earliest time in the schedule, or after 5 minutes if that is earlier. When it ends,
  -- nothing is scheduled for the second of its pass or before.
  pub schedule_round_lem :
      (now : ℕ) (a : schedule_store.Store) (b : queue.Store)
      → AreIds schedule_store (schedule_store.entries a)
      → second ≤ config.min_interval
      → config.min_interval ≤ config.max_interval
      → (round : Round) × (a' : schedule_store.Store) × (b' : queue.Store) × (schedule_round s now
            (calm (a, b))
          ≡ (ok round, calm (a', b')))
        × IsTimely now a round
        × ((id t : ℕ)
            → id < 2 ^ 64
            → planned schedule_store id a' ≡ some t
            → unix (passes_at now round) < t)
  unfolding schedule_round
  schedule_round_lem now a b k n l =
      let (next, run, isnext) = get_next_time_lem schedule_store a k in
      let round = round_of now (ok (time_of next)) in
      let timely = round_of-IsTimely now a next isnext in
      let (a', b', e, f) = run_round-Ends now a b round k n l timely in
      (
        round,
        a',
        b',
        ap (λ o. run_round s now (round_of now o.0) o.1)
              (on_left-calm (get_next_time schedule_store) a a b (ok (time_of next)) run)
            ∙ e,
        timely,
        f,
      )
