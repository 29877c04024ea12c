-- ===== src/Limiter/Examples.antt =====
-- The bound of the rate limiter at concrete times.
use animehot.Common.{◌+◌, ◌-◌, ◌*◌, ◌≤◌, none, [], ◌∷◌, arith}
use animehot.Limiter.Bucket.{allowed_in, allowed_in_bounds}

allowed_in_example :
    1000 * allowed_in 2 1 (5000 ∷ 5100 ∷ 5600 ∷ []) none ≤ 1000 * 1 + (6000 - 5000) * 2
allowed_in_example =
    allowed_in_bounds 2 1 5000 6000 (5100 ∷ 5600 ∷ []) (omega arith) (omega arith) (omega arith)
      (omega arith, (omega arith, tt))
