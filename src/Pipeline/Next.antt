-- ===== src/Pipeline/Next.antt =====
-- The next schedule time of `processResult` in internal/analyzer/pipeline.go, after the weight of an
-- IP was adjusted. Times and durations are nanoseconds.
use animehot.Common.{ℕ, ◌+◌, ◌≡◌, ◌≤◌, ◌<◌, Bool, true, ltb, if◌then◌else◌, ◌⊎◌, inl, inr, arith}
use animehot.Interval.Settings.{IntervalAdjusterConfig}
use animehot.Pipeline.Align.{align_to_slot, align_to_slot_lem}

-- What the code uses of float64: `w > 0` and `time.Duration(float64(d) / w)`.
module _ {Float : Type 0} (is_positive : Float → Bool) (scaled : ℕ → Float → ℕ) where
  -- The settings are those of the pipeline, as they were given.
  abbrev weighted : IntervalAdjusterConfig → Float → ℕ
  weighted cfg weight =
      if is_positive weight then scaled cfg.base_interval weight else cfg.base_interval

  abbrev at_least : ℕ → ℕ → ℕ
  at_least least n = if ltb n least then least else n

  abbrev at_most : ℕ → ℕ → ℕ
  at_most most n = if ltb most n then most else n

  unfoldable pub next_interval : IntervalAdjusterConfig → Float → ℕ
  next_interval cfg weight =
      at_most cfg.max_interval (at_least cfg.min_interval (weighted cfg weight))

  unfoldable pub next_time : IntervalAdjusterConfig → ℕ → ℕ → Float → ℕ
  unfolding next_interval
  next_time cfg slot now weight =
      let time = now + next_interval cfg weight in
      if ltb 0 slot then align_to_slot time slot else time

  next_interval_bounds :
      (cfg : IntervalAdjusterConfig) (weight : Float)
      → cfg.min_interval ≤ cfg.max_interval
      → (cfg.min_interval ≤ next_interval cfg weight)
        × (next_interval cfg weight ≤ cfg.max_interval)
  unfolding next_interval
  next_interval_bounds cfg weight l = clamped (weighted cfg weight)
    where
      clamped :
          (n : ℕ)
          → (cfg.min_interval ≤ at_most cfg.max_interval (at_least cfg.min_interval n))
            × (at_most cfg.max_interval (at_least cfg.min_interval n) ≤ cfg.max_interval)
      clamped n = ground arith

  align_to_slot-le : (t slot : ℕ) → align_to_slot t slot ≤ t + slot
  unfolding align_to_slot
  align_to_slot-le t slot = ground arith

  slot_cases : (slot : ℕ) → (slot ≡ 0) ⊎ (0 < slot)
  slot_cases slot = ground arith

  slot_positive : (slot : ℕ) → 0 < slot → ltb 0 slot ≡ true
  slot_positive slot p = ground arith

  slotted :
      (t slot : ℕ)
      → (t ≤ (if ltb 0 slot then align_to_slot t slot else t))
        × ((if ltb 0 slot then align_to_slot t slot else t) ≤ t + slot)
  slotted t slot = elim (slot_cases slot) [
    | inl e ↦ rw e (omega arith, omega arith)
    | inr p ↦ rw (slot_positive slot p) ((align_to_slot_lem t slot p).1, align_to_slot-le t slot)
  ]

  -- If the shortest interval is at most the longest one, the next crawl of an IP comes no earlier
  -- than the shortest interval from now, and no later than the longest one and a slot from now,
  -- whatever the weight.
  pub next_time_bounds :
      (cfg : IntervalAdjusterConfig) (slot now : ℕ) (weight : Float)
      → cfg.min_interval ≤ cfg.max_interval
      → (now + cfg.min_interval ≤ next_time cfg slot now weight)
        × (next_time cfg slot now weight ≤ now + cfg.max_interval + slot)
  unfolding next_time
  next_time_bounds cfg slot now weight l =
      let bounds = next_interval_bounds cfg weight l in
      let aligned = slotted (now + next_interval cfg weight) slot in
      (omega (arith, bounds.0, aligned.0), omega (arith, bounds.1, aligned.1))
