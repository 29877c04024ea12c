-- ===== src/Interval/Memory.antt =====
-- Fractions that keep the laws of `Floats`, and a weight table in memory.
use animehot.Common.{ℕ, ◌+◌, ◌*◌, ◌/◌, ◌≡◌, refl, ◌≤◌, ◌<◌, Option, ltb, ◌==◌, if◌then◌else◌, arith}
use native.Mathlib.Nat.{le-div_iff_mul-le, div-lt_iff_lt-mul}
use animehot.Interval.Settings.{Floats, minute}
use animehot.Interval.Adjust.{WeightTable, map_some}

pub record Fraction : Type 0 where
  pub num : ℕ
  pub den : ℕ

abbrev pub fraction : ℕ → ℕ → Fraction
fraction n d = record { num = n; den = d }

quotient_unique : (x d q : ℕ) → 0 < d → q * d ≤ x → x < (q + 1) * d → x / d ≡ q
quotient_unique x d q p l h = omega (arith, (le-div_iff_mul-le p).1 l, (div-lt_iff_lt-mul p).1 h)

pub whole_minutes : (n : ℕ) → (n * minute) / minute ≡ n
whole_minutes n = quotient_unique (n * minute) minute n (omega arith) (omega arith) (omega arith)

abbrev quotient : Fraction → Fraction → Fraction
quotient x y = fraction (x.num * y.den) (x.den * y.num)

abbrev rounded : Fraction → ℕ
rounded x = (2 * x.num + x.den) / (2 * x.den)

abbrev length_of : ℕ → Fraction
length_of d = fraction d minute

abbrev pub fractions : Floats
fractions = record {
  Float = Fraction;
  one = fraction 1 1;
  minutes = length_of;
  of_int = λ n. fraction n 1;
  div = quotient;
  round = rounded;
  truncate = λ x. x.num / x.den;
  is_positive = λ x. ltb 0 x.num;
  truncate-minutes = λ n h. whole_minutes n;
}

-- The weight with two decimal places, in hundredths.
abbrev hundredths : ℕ → ℕ → ℕ
hundredths x y = (200 * x + y) / (2 * y)

abbrev pub two_places : Fraction → Fraction
two_places x = fraction (hundredths x.num x.den) 100

abbrev with_weight : ℕ → Fraction → (ℕ → Option Fraction) → ℕ → Option Fraction
with_weight i w s j = if i == j then map_some (λ _. two_places w) (s j) else s j

abbrev pub weights : WeightTable fractions
weights = record {
  Store = ℕ → Option Fraction;
  weight_of = λ i s. s i;
  set_weight = with_weight;
  in_column = two_places;
  weight_of-set_weight = λ i j w s. refl;
}
