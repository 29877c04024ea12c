-- ===== src/Interval/Settings.antt =====
-- What internal/analyzer/interval_adjuster.go uses of float64, its settings and its decisions.
-- Durations are nanoseconds, at least 0; inflow and outflow are counts.
use animehot.Common.{ℕ, ◌+◌, ◌-◌, ◌*◌, ◌≡◌, ◌≤◌, Bool, not, ◌&&◌, ltb, ◌==◌, if◌then◌else◌}

abbrev pub minute : ℕ
minute = 60000000000

-- The longest duration of the `time` package in whole minutes.
abbrev pub max_minutes : ℕ
max_minutes = 153722867

-- `float64`. Whole minutes are exact.
pub record Floats : Type 1 where
  pub Float : Type 0
  pub one : Float
  pub minutes : ℕ → Float  -- `Duration.Minutes`
  pub of_int : ℕ → Float
  pub div : Float → Float → Float
  pub round : Float → ℕ  -- `int(math.Round(x))`
  pub truncate : Float → ℕ  -- `int(x)`
  pub is_positive : Float → Bool  -- `x > 0`
  pub truncate-minutes : (n : ℕ) → n ≤ max_minutes → truncate (minutes (n * minute)) ≡ n

pub record IntervalAdjusterConfig : Type 0 where
  pub base_interval : ℕ
  pub min_interval : ℕ
  pub max_interval : ℕ
  pub pages_on_sale : ℕ
  pub pages_sold : ℕ

pub record IntervalAdjuster : Type 0 where
  pub base_interval : ℕ
  pub min_interval : ℕ
  pub max_interval : ℕ
  pub active_inflow_threshold : ℕ
  pub active_outflow_threshold : ℕ
  pub cold_inflow_threshold : ℕ
  pub cold_outflow_threshold : ℕ
  pub active_step_minutes : ℕ
  pub cold_step_minutes : ℕ
  pub regress_step_minutes : ℕ

-- A setting of 0 (in the source, at most 0) stands for the default.
abbrev pub or_default : ℕ → ℕ → ℕ
or_default n default = if n == 0 then default else n

unfoldable pub new_interval_adjuster : IntervalAdjusterConfig → IntervalAdjuster
new_interval_adjuster cfg = record {
  base_interval = or_default cfg.base_interval (60 * minute);
  min_interval = or_default cfg.min_interval (15 * minute);
  max_interval = or_default cfg.max_interval (60 * minute);
  active_inflow_threshold = 100 * or_default cfg.pages_on_sale 3;
  active_outflow_threshold = 100 * or_default cfg.pages_sold 3;
  cold_inflow_threshold = 50 * or_default cfg.pages_on_sale 3;
  cold_outflow_threshold = 3 * or_default cfg.pages_sold 3;
  active_step_minutes = 15;
  cold_step_minutes = 15;
  regress_step_minutes = 5;
}

pub data AdjustmentType : Type 0 where
  active cold regress none : AdjustmentType

pub data Reason : Type 0 where
  inflow_is_high outflow_is_high flows_are_low toward_base at_base first_crawl unchanged : Reason

module _ (f : Floats) (a : IntervalAdjuster) where
  abbrev pub base_interval_min : ℕ
  base_interval_min = f.truncate (f.minutes a.base_interval)

  abbrev pub min_interval_min : ℕ
  min_interval_min = f.truncate (f.minutes a.min_interval)

  abbrev pub max_interval_min : ℕ
  max_interval_min = f.truncate (f.minutes a.max_interval)

  unfoldable pub determine_adjustment : ℕ → ℕ → ℕ → AdjustmentType × Reason
  determine_adjustment inflow outflow current =
      if ltb a.active_inflow_threshold inflow
      then (AdjustmentType.active, Reason.inflow_is_high)
      else if ltb a.active_outflow_threshold outflow
      then (AdjustmentType.active, Reason.outflow_is_high)
      else if ltb inflow a.cold_inflow_threshold && ltb outflow a.cold_outflow_threshold
      then (AdjustmentType.cold, Reason.flows_are_low)
      else if not (current == base_interval_min)
      then (AdjustmentType.regress, Reason.toward_base)
      else (AdjustmentType.none, Reason.at_base)

  -- A difference below 0 is below every bound too, so each test is written with a sum.
  unfoldable pub calculate_new_interval : ℕ → AdjustmentType → ℕ
  calculate_new_interval current AdjustmentType.active =
      if ltb current (min_interval_min + a.active_step_minutes)
      then min_interval_min
      else current - a.active_step_minutes
  calculate_new_interval current AdjustmentType.cold =
      if ltb max_interval_min (current + a.cold_step_minutes)
      then max_interval_min
      else current + a.cold_step_minutes
  calculate_new_interval current AdjustmentType.regress =
      if ltb current base_interval_min
      then (if ltb base_interval_min (current + a.regress_step_minutes)
          then base_interval_min
          else current + a.regress_step_minutes)
      else (if ltb current (base_interval_min + a.regress_step_minutes)
          then base_interval_min
          else current - a.regress_step_minutes)
  calculate_new_interval current AdjustmentType.none = current

  unfoldable pub weight_to_interval_minutes : f.Float → ℕ
  weight_to_interval_minutes weight =
      f.round (f.div (f.minutes a.base_interval) (if f.is_positive weight then weight else f.one))

  unfoldable pub interval_minutes_to_weight : ℕ → f.Float
  interval_minutes_to_weight n =
      f.div (f.minutes a.base_interval) (f.of_int (if n == 0 then base_interval_min else n))
