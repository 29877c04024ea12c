-- ===== src/Scheduler/Once.antt =====
-- How often `archiverLoop` of internal/scheduler/ip_scheduler.go runs its jobs.
use animehot.Common.{
  ℕ, ◌+◌, ◌≡◌, refl, sym, ap, subst, ◌∙◌, ◌≤◌, ◌<◌, inl, inr, Bool, false, Option, none, some, List,
  [], ◌∷◌, ◌==◌, bit, Bool-cases, arith,
}
use animehot.Scheduler.Archiving.{
  JstTime, Job, LastRuns, last_run, same_day, archiver_tick, archiver_loop, never_run,
}
use animehot.Scheduler.Jobs.{successes, successes-append, Part, archiver_tick-Part}

-- The days of the ticks do not fall, and start at `least` or later.
abbrev pub AreRising : ℕ → List JstTime → Type 0
AreRising least [] = Unit {0}
AreRising least (t ∷ ts) = (least ≤ t.day) × AreRising t.day ts

module _ (succeeds : Job → JstTime → Bool) where
  -- No success lies before the ticks.
  none_before :
      (job : Job) (d least : ℕ) (ts : List JstTime) (l : LastRuns)
      → d < least
      → AreRising least ts
      → successes job d (archiver_loop succeeds ts l).0 ≡ 0
  unfolding archiver_loop
  none_before job d least [] l p h = refl
  none_before job d least (t ∷ ts) l p (m, h) =
      let (rs, l') = archiver_tick succeeds t l in
      let rest =
        none_before job d t.day ts (archiver_tick succeeds t l).1 (omega (arith, p, m)) h in
      successes-append job d rs (archiver_loop succeeds ts l').0
      ∙ no_sum (first (archiver_tick-Part succeeds job d t l)) rest
    where
      no_sum : {m n : ℕ} → m ≡ 0 → n ≡ 0 → m + n ≡ 0
      no_sum e f = omega (arith, e, f)

      first :
          Part job d t.day (last_run job l) (archiver_tick succeeds t l)
          → successes job d (archiver_tick succeeds t l).0 ≡ 0
      first (inl (e, f)) = e
      first (inr (e, f, n)) = e ∙ ground (arith, p, m)

  -- A day's success after an earlier one.
  fresh_success :
      (before : Option ℕ) (d today rest : ℕ)
      → ((last : ℕ) → before ≡ some last → last ≤ today)
      → same_day before today ≡ false
      → (d < today → rest ≡ 0)
      → rest + bit (today == d) ≤ 1
      → bit (today == d) + rest + bit (same_day before d) ≤ 1
  unfolding same_day
  fresh_success none d today rest k n z i = omega (arith, i)
  fresh_success (some last) d today rest k n z i = elim (Bool-cases (last == d)) [
    | inl e ↦
        let earlier : d < today = ground (arith, k last refl, n, e) in
        ground (arith, z earlier, earlier)
    | inr e ↦ ground (arith, e, i)
  ]

  -- The last success counts as one of its day.
  at_most_once :
      (job : Job) (d least : ℕ) (ts : List JstTime) (l : LastRuns)
      → AreRising least ts
      → ((last : ℕ) → last_run job l ≡ some last → last ≤ least)
      → successes job d (archiver_loop succeeds ts l).0 + bit (same_day (last_run job l) d) ≤ 1
  unfolding archiver_loop same_day
  at_most_once job d least [] l h k = bit-le (same_day (last_run job l) d)
    where
      bit-le : (b : Bool) → 0 + bit b ≤ 1
      bit-le b = ground arith
  at_most_once job d least (t ∷ ts) l (m, h) k =
      let (rs, l') = archiver_tick succeeds t l in
      let joined = successes-append job d rs (archiver_loop succeeds ts l').0 in
      elim (archiver_tick-Part succeeds job d t l) [
        | inl (e, f) ↦
            let rest =
              at_most_once job d t.day ts (archiver_tick succeeds t l).1 h
                (λ last g. omega (arith, m, k last (sym f ∙ g))) in
            omega (arith, joined, e, rest, ap (λ o. bit (same_day o d)) f)
        | inr (e, f, n) ↦
            let rest =
              at_most_once job d t.day ts (archiver_tick succeeds t l).1 h
                (λ last g. omega (arith, own t.day last (sym f ∙ g))) in
            let total =
              fresh_success (last_run job l) d t.day
                (successes job d (archiver_loop succeeds ts (archiver_tick succeeds t l).1).0)
                (λ last g. omega (arith, m, k last g)) n
                (λ p. none_before job d t.day ts (archiver_tick succeeds t l).1 p h)
                (subst
                  (λ o.
                    successes job d (archiver_loop succeeds ts (archiver_tick succeeds t l).1).0
                      + bit (same_day o d)
                    ≤ 1)
                  f rest) in
            omega (arith, joined, e, total)
      ]
    where
      own : (x y : ℕ) → some x ≡ some y → x ≡ y
      own x y e = cc e

  -- If the clock does not go back to an earlier day, each job of the archiver succeeds at most once on
  -- a day, in any sequence of ticks from the start of the loop on, whichever runs fail.
  pub archiver_loop_once :
      (job : Job) (d : ℕ) (ts : List JstTime)
      → AreRising 0 ts
      → successes job d (archiver_loop succeeds ts never_run).0 ≤ 1
  archiver_loop_once job d ts h = omega (arith, at_most_once job d 0 ts never_run h (nothing job))
    where
      nothing : (j : Job) (last : ℕ) → last_run j never_run ≡ some last → last ≤ 0
      nothing Job.daily last e = cc
      nothing Job.weekly last e = cc
      nothing Job.monthly last e = cc
      nothing Job.cleanup last e = cc
