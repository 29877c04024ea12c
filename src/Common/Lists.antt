-- ===== src/Common/Lists.antt =====
-- Lists measured by native numbers, and the two ends of a list as a Redis list uses them.
use Prim.Native.Nat.{ℕ, zero, suc, ◌+◌, ◌≤◌}
use mathlib.Core.Path.{◌≡◌, refl, ap, ◌∙◌}
use mathlib.Core.Logic.{ite, if_pos, if_neg, ◌⊎◌, inl, inr}
use mathlib.Core.List.{List, [], ◌∷◌, ◌++◌}
use mathlib.Core.Option.{Option, none, some}
use native.Mathlib.Omega.{arith}
use animehot.Common.Tests.{Option-cases}

module _ {ℓ} {A : Type ℓ} where
  abbrev pub length : List A → ℕ
  length [] = 0
  length (x ∷ xs) = suc (length xs)

  pub length-append : (xs ys : List A) → length (xs ++ ys) ≡ length xs + length ys
  length-append [] ys = omega arith
  length-append (x ∷ xs) ys = omega (arith, length-append xs ys)

  -- Everything but the last entry, and the last entry.
  abbrev pub unsnoc : List A → Option (List A × A)
  unsnoc [] = none
  unsnoc (x ∷ xs) = elim (unsnoc xs) [
    | none ↦ some ([], x)
    | some (init, last) ↦ some (x ∷ init, last)
  ]

  pub unsnoc-none : (xs : List A) → unsnoc xs ≡ none → xs ≡ []
  unsnoc-none [] e = refl
  unsnoc-none (x ∷ xs) e = elim (Option-cases (unsnoc xs)) [
    | inl n ↦ ground arith
    | inr (s, h) ↦ ground arith
  ]

  -- Without the first entry that equals `a`.
  abbrev pub remove_first : Discrete A → A → List A → List A
  remove_first dec a [] = []
  remove_first dec a (x ∷ xs) = ite (dec x a) xs (x ∷ remove_first dec a xs)

  abbrev pub occurs : Discrete A → A → List A → ℕ
  occurs dec a [] = 0
  occurs dec a (x ∷ xs) = ite (dec x a) 1 (occurs dec a xs)

-- A sum of weights over a list.
module _ {ℓ} {A : Type ℓ} where
  abbrev pub total : (A → ℕ) → List A → ℕ
  total f [] = 0
  total f (x ∷ xs) = f x + total f xs

  pub total-append : (f : A → ℕ) (xs ys : List A) → total f (xs ++ ys) ≡ total f xs + total f ys
  total-append f [] ys = omega arith
  total-append f (x ∷ xs) ys = omega (arith, total-append f xs ys)

  pub total-unsnoc :
      (f : A → ℕ) (xs rest : List A) (last : A)
      → unsnoc xs ≡ some (rest, last)
      → total f xs ≡ total f rest + f last
  total-unsnoc f [] rest last e = cc
  total-unsnoc f (x ∷ xs) rest last e = elim (Option-cases (unsnoc xs)) [
    | inl n ↦ ground (arith, unsnoc-none xs n)
    | inr ((init, z), s) ↦ ground (arith, total-unsnoc f xs init z s)
  ]

  -- `LREM` with count 1 takes one entry away, or finds none.
  pub remove_first-cases :
      (dec : Discrete A) (f : A → ℕ) (a : A) (xs : List A)
      → ((occurs dec a xs ≡ 0) × (remove_first dec a xs ≡ xs))
        ⊎ ((occurs dec a xs ≡ 1) × (total f xs ≡ total f (remove_first dec a xs) + f a))
  remove_first-cases dec f a [] = inl (refl, refl)
  remove_first-cases dec f a (x ∷ xs) = elim (dec x a) [
    | yes hit ↦ inr (rw (if_pos _ hit) refl, rw (if_pos _ hit, hit) (omega arith))
    | no miss ↦ rw (if_neg _ miss) (ground (arith, remove_first-cases dec f a xs))
  ]

  pub total-remove_first-le :
      (dec : Discrete A) (f : A → ℕ) (a : A) (xs : List A)
      → total f (remove_first dec a xs) ≤ total f xs
  total-remove_first-le dec f a xs = ground (arith, remove_first-cases dec f a xs)

module _ {ℓ} {A : Type ℓ} where
  pub unsnoc-eq :
      (xs rest : List A) (last : A) → unsnoc xs ≡ some (rest, last) → xs ≡ rest ++ last ∷ []
  unsnoc-eq [] rest last e = cc
  unsnoc-eq (x ∷ xs) rest last e = elim (Option-cases (unsnoc xs)) [
    | inl n ↦ ground (arith, unsnoc-none xs n)
    | inr ((init, z), s) ↦ ground (arith, unsnoc-eq xs init z s)
  ]

module _ {ℓ} {A : Type ℓ} where
  abbrev pub take : ℕ → List A → List A
  take zero xs = []
  take (suc n) [] = []
  take (suc n) (x ∷ xs) = x ∷ take n xs

  abbrev pub drop : ℕ → List A → List A
  drop zero xs = xs
  drop (suc n) [] = []
  drop (suc n) (x ∷ xs) = drop n xs

  pub take-append-drop : (n : ℕ) (xs : List A) → take n xs ++ drop n xs ≡ xs
  take-append-drop zero xs = refl
  take-append-drop (suc n) [] = refl
  take-append-drop (suc n) (x ∷ xs) = rw (take-append-drop n xs)

  pub length-drop-le : (n : ℕ) (xs : List A) → length (drop n xs) ≤ length xs
  length-drop-le zero xs = omega arith
  length-drop-le (suc n) [] = omega arith
  length-drop-le (suc n) (x ∷ xs) = omega (arith, length-drop-le n xs)

  -- `for start := 0; start < len(xs); start += n { xs[start:min(start+n, len(xs))] }`, on fuel.
  unfoldable pub batches : ℕ → ℕ → List A → List (List A)
  batches zero n xs = []
  batches (suc fuel) n [] = []
  batches (suc fuel) n (x ∷ xs) = take n (x ∷ xs) ∷ batches fuel n (drop n (x ∷ xs))

  abbrev pub joined : List (List A) → List A
  joined [] = []
  joined (b ∷ bs) = b ++ joined bs

  -- The batches make up the list, if each holds something and the fuel covers it.
  pub joined-batches :
      (fuel n : ℕ) (xs : List A) → length xs ≤ fuel → joined (batches fuel (suc n) xs) ≡ xs
  unfolding batches
  joined-batches zero n [] h = refl
  joined-batches zero n (x ∷ xs) h = absurd (omega arith)
  joined-batches (suc fuel) n [] h = refl
  joined-batches (suc fuel) n (x ∷ xs) h =
      ap (◌++◌ (x ∷ take n xs))
        (joined-batches fuel n (drop n xs) (omega (arith, length-drop-le n xs)))
      ∙ take-append-drop (suc n) (x ∷ xs)
