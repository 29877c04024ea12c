-- ===== src/Interval/Steps.antt =====
-- How `calculateNewInterval` and `determineAdjustment` of internal/analyzer/interval_adjuster.go move
-- the interval, in minutes.
use animehot.Common.{ℕ, zero, suc, ◌+◌, ◌*◌, ◌≡◌, ◌≢◌, ◌≤◌, ◌<◌, ◌⊎◌, arith, subst}
use mathlib.Core.Logic.{◌↔◌}
use animehot.Interval.Settings.{
  Floats, IntervalAdjuster, AdjustmentType, base_interval_min, min_interval_min, max_interval_min,
  determine_adjustment, calculate_new_interval,
}

module _ (f : Floats) (a : IntervalAdjuster) where
  abbrev base : ℕ
  base = base_interval_min f a

  abbrev least : ℕ
  least = min_interval_min f a

  abbrev most : ℕ
  most = max_interval_min f a

  -- If the base lies between the bounds, the new interval stays in every range that holds the bounds and
  -- the old interval.
  pub calculate_new_interval_bounds :
      (type : AdjustmentType) (current lo hi : ℕ)
      → lo ≤ least
      → least ≤ base
      → base ≤ most
      → most ≤ hi
      → lo ≤ current
      → current ≤ hi
      → (lo ≤ calculate_new_interval f a current type)
        × (calculate_new_interval f a current type ≤ hi)
  unfolding calculate_new_interval
  calculate_new_interval_bounds AdjustmentType.active current lo hi p q l h m n = ground arith
  calculate_new_interval_bounds AdjustmentType.cold current lo hi p q l h m n = ground arith
  calculate_new_interval_bounds AdjustmentType.regress current lo hi p q l h m n = ground arith
  calculate_new_interval_bounds AdjustmentType.none current lo hi p q l h m n = ground arith

  -- Which flows lead to which adjustment.
  abbrev pub IsBusy : ℕ → ℕ → Type 0
  IsBusy inflow outflow =
      (a.active_inflow_threshold < inflow) ⊎ (a.active_outflow_threshold < outflow)

  abbrev pub IsQuiet : ℕ → ℕ → Type 0
  IsQuiet inflow outflow = (inflow < a.cold_inflow_threshold) × (outflow < a.cold_outflow_threshold)

  abbrev pub Decided : ℕ → ℕ → ℕ → AdjustmentType → Type 0
  Decided inflow outflow current AdjustmentType.active = IsBusy inflow outflow
  Decided inflow outflow current AdjustmentType.cold =
      ¬ IsBusy inflow outflow × IsQuiet inflow outflow
  Decided inflow outflow current AdjustmentType.regress =
      ¬ IsBusy inflow outflow × ¬ IsQuiet inflow outflow × (current ≢ base)
  Decided inflow outflow current AdjustmentType.none =
      ¬ IsBusy inflow outflow × ¬ IsQuiet inflow outflow × (current ≡ base)

  determine_adjustment-Decided :
      (inflow outflow current : ℕ)
      → Decided inflow outflow current (determine_adjustment f a inflow outflow current).0
  unfolding determine_adjustment
  determine_adjustment-Decided inflow outflow current = ground arith

  Decided-determine_adjustment :
      (type : AdjustmentType) (inflow outflow current : ℕ)
      → Decided inflow outflow current type
      → (determine_adjustment f a inflow outflow current).0 ≡ type
  unfolding determine_adjustment
  Decided-determine_adjustment AdjustmentType.active inflow outflow current d = ground arith
  Decided-determine_adjustment AdjustmentType.cold inflow outflow current d = ground arith
  Decided-determine_adjustment AdjustmentType.regress inflow outflow current d = ground arith
  Decided-determine_adjustment AdjustmentType.none inflow outflow current d = ground arith

  -- The decision is the one that the flows call for, and no other is.
  pub determine_adjustment_table :
      (type : AdjustmentType) (inflow outflow current : ℕ)
      → (determine_adjustment f a inflow outflow current).0 ≡ type
        ↔ Decided inflow outflow current type
  determine_adjustment_table type inflow outflow current = (
    λ e.
        subst (Decided inflow outflow current) e
          (determine_adjustment-Decided inflow outflow current),
    λ d. Decided-determine_adjustment type inflow outflow current d,
  )

  -- The interval after a number of crawls with flows of which neither is busy nor both are quiet.
  abbrev pub crawls : ℕ → ℕ → ℕ → ℕ → ℕ
  crawls zero inflow outflow current = current
  crawls (suc n) inflow outflow current =
      crawls n inflow outflow
        (calculate_new_interval f a current (determine_adjustment f a inflow outflow current).0)

  regress_closer :
      (k current : ℕ)
      → current ≤ base + (k + a.regress_step_minutes)
      → base ≤ current + (k + a.regress_step_minutes)
      → let next = calculate_new_interval f a current AdjustmentType.regress in
        (next ≤ base + k) × (base ≤ next + k)
  unfolding calculate_new_interval
  regress_closer k current p q = ground arith

  -- One crawl in between brings the interval closer to the base.
  crawl_closer :
      (type : AdjustmentType) (inflow outflow k current : ℕ)
      → ¬ IsBusy inflow outflow
      → ¬ IsQuiet inflow outflow
      → Decided inflow outflow current type
      → current ≤ base + (k + a.regress_step_minutes)
      → base ≤ current + (k + a.regress_step_minutes)
      → let next = calculate_new_interval f a current type in (next ≤ base + k) × (base ≤ next + k)
  unfolding calculate_new_interval
  crawl_closer AdjustmentType.active inflow outflow k current b q d p l = absurd (b d)
  crawl_closer AdjustmentType.cold inflow outflow k current b q d p l = absurd (q d.1)
  crawl_closer AdjustmentType.regress inflow outflow k current b q d p l =
      regress_closer k current p l
  crawl_closer AdjustmentType.none inflow outflow k current b q (_, _, e) p l = omega arith

  -- The decision and the step of the interval, applied again and again with flows that are neither busy
  -- nor both quiet, bring an interval in minutes to the base exactly: so many times are enough that the
  -- regress steps cover the distance. The rounding of stored weights is left out.
  pub crawls-base :
      (n inflow outflow current : ℕ)
      → ¬ IsBusy inflow outflow
      → ¬ IsQuiet inflow outflow
      → current ≤ base + n * a.regress_step_minutes
      → base ≤ current + n * a.regress_step_minutes
      → crawls n inflow outflow current ≡ base
  crawls-base zero inflow outflow current b q p l = omega arith
  crawls-base (suc n) inflow outflow current b q p l =
      let closer =
        crawl_closer _ inflow outflow (n * a.regress_step_minutes) current b q
          (determine_adjustment-Decided inflow outflow current) (omega (arith, p))
          (omega (arith, l)) in
      crawls-base n inflow outflow _ b q closer.0 closer.1
