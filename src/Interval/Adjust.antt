-- ===== src/Interval/Adjust.antt =====
-- `Adjust` and `GetCurrentWeight` of internal/analyzer/interval_adjuster.go. An error of the
-- database is the error of a call. Logging is left out.
use animehot.Common.{ℕ, ◌≡◌, Bool, Option, none, some, ◌==◌, if◌then◌else◌}
use animehot.Queue.Messages.{Result, ok, err}
use animehot.Queue.Network.{M, return, ◌>>=◌, ◌>>◌, update, query, attempt}
use animehot.Interval.Settings.{
  Floats, IntervalAdjuster, AdjustmentType, Reason, determine_adjustment, calculate_new_interval,
  weight_to_interval_minutes, interval_minutes_to_weight,
}

abbrev pub map_some {ℓ ℓ'} : {A : Type ℓ} {B : Type ℓ'} → (A → B) → Option A → Option B
map_some f none = none
map_some f (some x) = some (f x)

-- The column `weight` of the table `ip_metadata`: an update of a missing row changes nothing, and a
-- written weight is kept with two decimal places, as the column's type in internal/model/ip.go says.
pub record WeightTable (f : Floats) : Type 1 where
  pub Store : Type 0
  pub weight_of : ℕ → Store → Option f.Float
  pub set_weight : ℕ → f.Float → Store → Store
  pub in_column : f.Float → f.Float
  pub weight_of-set_weight :
      (i j : ℕ) (w : f.Float) (s : Store)
      → weight_of j (set_weight i w s)
        ≡ (if i == j then map_some (λ _. in_column w) (weight_of j s) else weight_of j s)

pub record AdjustResult (f : Floats) : Type 0 where
  pub type : AdjustmentType
  pub old_weight : f.Float
  pub new_weight : f.Float
  pub old_interval_min : ℕ
  pub new_interval_min : ℕ
  pub reason : Reason

module _ (f : Floats) (db : WeightTable f) (a : IntervalAdjuster) where
  open db use {Store}

  unfoldable pub update_weight : ℕ → f.Float → M Store (Unit {0})
  update_weight ip weight = update (db.set_weight ip weight)

  -- The weight is written if the interval changes.
  unfoldable pub change_interval :
      ℕ → f.Float → ℕ → ℕ → AdjustmentType → Reason → M Store (AdjustResult f)
  unfolding update_weight
  change_interval ip weight old new type reason =
      if new == old
      then return (record {
        type = AdjustmentType.none;
        old_weight = weight;
        new_weight = weight;
        old_interval_min = old;
        new_interval_min = new;
        reason = Reason.unchanged;
      })
      else (do
        update_weight ip (interval_minutes_to_weight f a new)
        return (record {
          type = type;
          old_weight = weight;
          new_weight = interval_minutes_to_weight f a new;
          old_interval_min = old;
          new_interval_min = new;
          reason = reason;
        }))

  unfoldable pub adjust_weight : ℕ → f.Float → ℕ → ℕ → M Store (AdjustResult f)
  unfolding change_interval
  adjust_weight ip weight inflow outflow =
      let old = weight_to_interval_minutes f a weight in
      let found = determine_adjustment f a inflow outflow old in
      change_interval ip weight old (calculate_new_interval f a old found.0) found.0 found.1

  unfoldable pub adjust : ℕ → f.Float → ℕ → ℕ → Bool → M Store (AdjustResult f)
  unfolding adjust_weight
  adjust ip weight inflow outflow is_first_crawl =
      if is_first_crawl
      then return (record {
        type = AdjustmentType.none;
        old_weight = weight;
        new_weight = weight;
        old_interval_min = 0;
        new_interval_min = 0;
        reason = Reason.first_crawl;
      })
      else adjust_weight ip weight inflow outflow

  -- A missing row and a weight that is not positive read as 1.
  abbrev stored_weight : Option f.Float → f.Float
  stored_weight none = f.one
  stored_weight (some w) = if f.is_positive w then w else f.one

  unfoldable pub get_current_weight : ℕ → M Store (f.Float)
  get_current_weight ip = do found ← query (db.weight_of ip); return (stored_weight found)

  -- The adjustment of internal/analyzer/pipeline.go after a crawl: it returns the weight for the
  -- schedule, and an error leaves the weight that was known.
  abbrev weight_after : f.Float → Result (AdjustResult f) → f.Float
  weight_after weight (ok result) = result.new_weight
  weight_after weight (err e) = weight

  unfoldable pub adjust_found : ℕ → ℕ → ℕ → Bool → Result (f.Float) → M Store (f.Float)
  unfolding adjust
  adjust_found ip inflow outflow is_first_crawl (err e) = return f.one
  adjust_found ip inflow outflow is_first_crawl (ok weight) = do
    result ← attempt (adjust ip weight inflow outflow is_first_crawl)
    return (weight_after weight result)

  unfoldable pub adjust_after_crawl : ℕ → ℕ → ℕ → Bool → M Store (f.Float)
  unfolding get_current_weight adjust_found
  adjust_after_crawl ip inflow outflow is_first_crawl = do
    found ← attempt (get_current_weight ip)
    adjust_found ip inflow outflow is_first_crawl found
