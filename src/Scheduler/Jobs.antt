-- ===== src/Scheduler/Jobs.antt =====
-- What a tick of `archiverLoop` in internal/scheduler/ip_scheduler.go does to each of its jobs.
use animehot.Common.{
  ℕ, ◌+◌, ◌≡◌, refl, sym, ap, ◌∙◌, ◌⊎◌, inl, inr, Bool, true, false, not, ◌&&◌, Option, some, List,
  [], ◌∷◌, ◌++◌, ◌==◌, bit, if◌then◌else◌, arith,
}
use animehot.Scheduler.Archiving.{
  JstTime, Job, LastRuns, Run, last_run, with_run, same_day, is_time, try_job, archiver_tick,
}

abbrev job_eq : Job → Job → Bool
job_eq Job.daily Job.daily = true
job_eq Job.weekly Job.weekly = true
job_eq Job.monthly Job.monthly = true
job_eq Job.cleanup Job.cleanup = true
job_eq _ _ = false

-- How often a job succeeded on a day.
abbrev pub successes : Job → ℕ → List Run → ℕ
successes job d [] = 0
successes job d (r ∷ rs) =
    bit (job_eq job r.job && (r.day == d && r.succeeded)) + successes job d rs

pub successes-append :
    (job : Job) (d : ℕ) (rs ss : List Run)
    → successes job d (rs ++ ss) ≡ successes job d rs + successes job d ss
successes-append job d [] ss = omega arith
successes-append job d (r ∷ rs) ss = omega (arith, successes-append job d rs ss)

-- What the part of a tick did to a job: nothing, or the day's only success.
abbrev pub Part : Job → ℕ → ℕ → Option ℕ → List Run × LastRuns → Type 0
Part job d today before (rs, after) =
    ((successes job d rs ≡ 0) × (last_run job after ≡ before))
    ⊎ ((successes job d rs ≡ bit (today == d))
        × (last_run job after ≡ some today)
        × (same_day before today ≡ false))

abbrev Quiet : Job → ℕ → Option ℕ → List Run × LastRuns → Type 0
Quiet job d before (rs, after) = (successes job d rs ≡ 0) × (last_run job after ≡ before)

Quiet-append :
    (job : Job) (d : ℕ) (before : Option ℕ) (o p : List Run × LastRuns)
    → Quiet job d before o
    → Quiet job d (last_run job o.1) p
    → Quiet job d before (o.0 ++ p.0, p.1)
Quiet-append job d before (rs, l₁) (ss, l₂) (e, f) (g, h) =
    (omega (arith, successes-append job d rs ss, e, g), h ∙ f)

Part-append_left :
    (job : Job) (d today : ℕ) (before : Option ℕ) (o p : List Run × LastRuns)
    → Quiet job d before o
    → Part job d today (last_run job o.1) p
    → Part job d today before (o.0 ++ p.0, p.1)
Part-append_left job d today before (rs, l₁) (ss, l₂) q (inl r) =
    inl (Quiet-append job d before (rs, l₁) (ss, l₂) q r)
Part-append_left job d today before (rs, l₁) (ss, l₂) (e, f) (inr (g, h, n)) =
    inr
      (omega (arith, successes-append job d rs ss, e, g), h, ap (λ o. same_day o today) (sym f) ∙ n)

Part-append_right :
    (job : Job) (d today : ℕ) (before : Option ℕ) (o p : List Run × LastRuns)
    → Part job d today before o
    → Quiet job d (last_run job o.1) p
    → Part job d today before (o.0 ++ p.0, p.1)
Part-append_right job d today before (rs, l₁) (ss, l₂) (inl q) r =
    inl (Quiet-append job d before (rs, l₁) (ss, l₂) q r)
Part-append_right job d today before (rs, l₁) (ss, l₂) (inr (g, h, n)) (e, f) =
    inr (omega (arith, successes-append job d rs ss, e, g), f ∙ h, n)

with_run-own : (job : Job) (d : ℕ) (l : LastRuns) → last_run job (with_run job d l) ≡ some d
with_run-own Job.daily d l = refl
with_run-own Job.weekly d l = refl
with_run-own Job.monthly d l = refl
with_run-own Job.cleanup d l = refl

with_run-other :
    (job other : Job) (d : ℕ) (l : LastRuns)
    → job_eq job other ≡ false
    → last_run job (with_run other d l) ≡ last_run job l
with_run-other Job.daily Job.daily d l e = cc
with_run-other Job.weekly Job.weekly d l e = cc
with_run-other Job.monthly Job.monthly d l e = cc
with_run-other Job.cleanup Job.cleanup d l e = cc
with_run-other Job.daily Job.weekly d l e = refl
with_run-other Job.daily Job.monthly d l e = refl
with_run-other Job.daily Job.cleanup d l e = refl
with_run-other Job.weekly Job.daily d l e = refl
with_run-other Job.weekly Job.monthly d l e = refl
with_run-other Job.weekly Job.cleanup d l e = refl
with_run-other Job.monthly Job.daily d l e = refl
with_run-other Job.monthly Job.weekly d l e = refl
with_run-other Job.monthly Job.cleanup d l e = refl
with_run-other Job.cleanup Job.daily d l e = refl
with_run-other Job.cleanup Job.weekly d l e = refl
with_run-other Job.cleanup Job.monthly d l e = refl

job_eq_refl : (job : Job) → job_eq job job ≡ true
job_eq_refl Job.daily = refl
job_eq_refl Job.weekly = refl
job_eq_refl Job.monthly = refl
job_eq_refl Job.cleanup = refl

own_count : (b c d : Bool) → b ≡ true → bit (b && (c && d)) + 0 ≡ (if d then bit c else 0)
own_count b c d e = ground arith

other_count : (b c d : Bool) → b ≡ false → bit (b && (c && d)) + 0 ≡ 0
other_count b c d e = ground arith

not_same : (x y : Bool) → (x && not y) ≡ true → y ≡ false
not_same x y e = ground arith

abbrev tried : Job → ℕ → LastRuns → Bool → Bool → List Run × LastRuns
tried job today l runs success =
    if runs
    then (
      record { job = job; day = today; succeeded = success } ∷ [],
      if success then with_run job today l else l,
    )
    else ([], l)

tried_own :
    (job : Job) (d today : ℕ) (l : LastRuns) (runs success : Bool)
    → (runs ≡ true → same_day (last_run job l) today ≡ false)
    → Part job d today (last_run job l) (tried job today l runs success)
tried_own job d today l false success h = inl (refl, refl)
tried_own job d today l true true h = inr (
  own_count (job_eq job job) (today == d) true (job_eq_refl job),
  with_run-own job today l,
  h refl,
)
tried_own job d today l true false h =
    inl (own_count (job_eq job job) (today == d) false (job_eq_refl job), refl)

tried_other :
    (job other : Job) (d today : ℕ) (l : LastRuns) (runs success : Bool)
    → job_eq job other ≡ false
    → Quiet job d (last_run job l) (tried other today l runs success)
tried_other job other d today l false success e = (refl, refl)
tried_other job other d today l true true e =
    (other_count (job_eq job other) (today == d) true e, with_run-other job other today l e)
tried_other job other d today l true false e =
    (other_count (job_eq job other) (today == d) false e, refl)

module _ (succeeds : Job → JstTime → Bool) where
  try_own :
      (job : Job) (d : ℕ) (t : JstTime) (l : LastRuns)
      → Part job d t.day (last_run job l) (try_job succeeds job t l)
  unfolding try_job
  try_own job d t l = tried_own job d t.day l _ (succeeds job t) (not_same (is_time job t) _)

  try_other :
      (job other : Job) (d : ℕ) (t : JstTime) (l : LastRuns)
      → job_eq job other ≡ false
      → Quiet job d (last_run job l) (try_job succeeds other t l)
  unfolding try_job
  try_other job other d t l e =
      tried_other job other d t.day l (is_time other t && not (same_day (last_run other l) t.day))
        (succeeds other t) e

  pub archiver_tick-Part :
      (job : Job) (d : ℕ) (t : JstTime) (l : LastRuns)
      → Part job d t.day (last_run job l) (archiver_tick succeeds t l)
  unfolding archiver_tick
  archiver_tick-Part job d t l = parts job
    where
      o₁ : List Run × LastRuns
      o₁ = try_job succeeds Job.daily t l

      o₂ : List Run × LastRuns
      o₂ = try_job succeeds Job.weekly t o₁.1

      o₃ : List Run × LastRuns
      o₃ = try_job succeeds Job.monthly t o₂.1

      o₄ : List Run × LastRuns
      o₄ = try_job succeeds Job.cleanup t o₃.1

      parts : (j : Job) → Part j d t.day (last_run j l) (o₁.0 ++ (o₂.0 ++ (o₃.0 ++ o₄.0)), o₄.1)
      parts Job.daily =
          Part-append_right Job.daily d t.day _ o₁ (o₂.0 ++ (o₃.0 ++ o₄.0), o₄.1)
            (try_own Job.daily d t l)
            (Quiet-append Job.daily d _ o₂ (o₃.0 ++ o₄.0, o₄.1)
              (try_other Job.daily Job.weekly d t o₁.1 refl)
              (Quiet-append Job.daily d _ o₃ o₄ (try_other Job.daily Job.monthly d t o₂.1 refl)
                (try_other Job.daily Job.cleanup d t o₃.1 refl)))
      parts Job.weekly =
          Part-append_left Job.weekly d t.day _ o₁ (o₂.0 ++ (o₃.0 ++ o₄.0), o₄.1)
            (try_other Job.weekly Job.daily d t l refl)
            (Part-append_right Job.weekly d t.day _ o₂ (o₃.0 ++ o₄.0, o₄.1)
              (try_own Job.weekly d t o₁.1)
              (Quiet-append Job.weekly d _ o₃ o₄ (try_other Job.weekly Job.monthly d t o₂.1 refl)
                (try_other Job.weekly Job.cleanup d t o₃.1 refl)))
      parts Job.monthly =
          Part-append_left Job.monthly d t.day _ o₁ (o₂.0 ++ (o₃.0 ++ o₄.0), o₄.1)
            (try_other Job.monthly Job.daily d t l refl)
            (Part-append_left Job.monthly d t.day _ o₂ (o₃.0 ++ o₄.0, o₄.1)
              (try_other Job.monthly Job.weekly d t o₁.1 refl)
              (Part-append_right Job.monthly d t.day _ o₃ o₄ (try_own Job.monthly d t o₂.1)
                (try_other Job.monthly Job.cleanup d t o₃.1 refl)))
      parts Job.cleanup =
          Part-append_left Job.cleanup d t.day _ o₁ (o₂.0 ++ (o₃.0 ++ o₄.0), o₄.1)
            (try_other Job.cleanup Job.daily d t l refl)
            (Part-append_left Job.cleanup d t.day _ o₂ (o₃.0 ++ o₄.0, o₄.1)
              (try_other Job.cleanup Job.weekly d t o₁.1 refl)
              (Part-append_left Job.cleanup d t.day _ o₃ o₄
                (try_other Job.cleanup Job.monthly d t o₂.1 refl) (try_own Job.cleanup d t o₃.1)))
