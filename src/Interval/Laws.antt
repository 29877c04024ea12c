-- ===== src/Interval/Laws.antt =====
-- What `Adjust` of internal/analyzer/interval_adjuster.go leaves in the database.
use animehot.Common.{ℕ, ◌≡◌, ◌≢◌, ◌∙◌, Bool, true, false, Option, ◌==◌, arith}
use animehot.Queue.Messages.{Result, ok, err}
use animehot.Queue.Network.{
  Keeps, call-Keeps, >>=-Keeps, if-Keeps, query-Keeps, attempt->>=-Keeps, update, query,
}
use animehot.Interval.Settings.{
  Floats, IntervalAdjuster, AdjustmentType, Reason, determine_adjustment, calculate_new_interval,
  interval_minutes_to_weight,
}
use animehot.Interval.Adjust.{
  WeightTable, update_weight, change_interval, adjust_weight, adjust, get_current_weight,
  adjust_found, adjust_after_crawl,
}

different : (i j : ℕ) → i ≢ j → (i == j) ≡ false
different i j n = ground arith

module _ (f : Floats) (db : WeightTable f) (a : IntervalAdjuster) where
  open db use {Store}

  -- The interval that the flows of a crawl call for.
  abbrev pub called_for : ℕ → ℕ → ℕ → ℕ
  called_for inflow outflow current =
      calculate_new_interval f a current (determine_adjustment f a inflow outflow current).0

  change_interval-Keeps :
      (ip j : ℕ) (w : Option f.Float) (weight : f.Float) (old new : ℕ) (type : AdjustmentType)
      (reason : Reason)
      → (ip == j) ≡ false
      → Keeps (λ s. db.weight_of j s ≡ w) (change_interval f db a ip weight old new type reason)
  unfolding change_interval update_weight
  change_interval-Keeps ip j w weight old new type reason n =
      if-Keeps (λ s. db.weight_of j s ≡ w) (new == old) _ _ (λ v p. p)
        (>>=-Keeps (λ s. db.weight_of j s ≡ w)
          (update (db.set_weight ip (interval_minutes_to_weight f a new))) _
          (call-Keeps (λ s. db.weight_of j s ≡ w) _
            (λ s p. db.weight_of-set_weight ip j (interval_minutes_to_weight f a new) s ∙ rw n p))
          (λ x v p. p))

  adjust_found-Keeps :
      (ip j inflow outflow : ℕ) (is_first_crawl : Bool) (w : Option f.Float)
      (found : Result (f.Float))
      → (ip == j) ≡ false
      → Keeps
          (λ s. db.weight_of j s ≡ w)
          (adjust_found f db a ip inflow outflow is_first_crawl found)
  unfolding adjust_found adjust adjust_weight
  adjust_found-Keeps ip j inflow outflow is_first_crawl w (err e) n v p = p
  adjust_found-Keeps ip j inflow outflow true w (ok weight) n v p = p
  adjust_found-Keeps ip j inflow outflow false w (ok weight) n v p =
      change_interval-Keeps ip j w weight _ _ _ _ n v p

  -- Whatever the database does with the calls, a crawl changes the weight of no other IP.
  pub adjust_after_crawl-Keeps :
      (ip j inflow outflow : ℕ) (is_first_crawl : Bool) (w : Option f.Float)
      → ip ≢ j
      → Keeps
          (λ s. db.weight_of j s ≡ w)
          (adjust_after_crawl f db a ip inflow outflow is_first_crawl)
  unfolding adjust_after_crawl get_current_weight
  adjust_after_crawl-Keeps ip j inflow outflow is_first_crawl w n =
      attempt->>=-Keeps (λ s. db.weight_of j s ≡ w) (get_current_weight f db a ip)
        (adjust_found f db a ip inflow outflow is_first_crawl)
        (>>=-Keeps (λ s. db.weight_of j s ≡ w) (query (db.weight_of ip)) _
          (query-Keeps (λ s. db.weight_of j s ≡ w) (db.weight_of ip)) (λ x v p. p))
        (λ found. adjust_found-Keeps ip j inflow outflow is_first_crawl w found (different ip j n))
