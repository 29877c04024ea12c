-- ===== src/Pipeline/Align.antt =====
-- `alignToSlot` of internal/analyzer/pipeline.go. Times are nanoseconds since the zero time, from
-- which `Truncate` counts the slots.
use animehot.Common.{
  ℕ, suc, ◌+◌, ◌-◌, ◌*◌, ◌/◌, ◌%◌, ◌≡◌, ◌≤◌, ◌<◌, ◌⊎◌, ◌==◌, if◌then◌else◌, inl, inr, arith,
}
use native.Mathlib.Nat.{div-add-mod', mod-lt, mul-le-mul_right}

-- `Time.Truncate` for a positive duration.
abbrev pub truncate : ℕ → ℕ → ℕ
truncate t slot = t - t % slot

unfoldable pub align_to_slot : ℕ → ℕ → ℕ
align_to_slot t slot =
    if slot == 0 then t else if truncate t slot == t then t else truncate t slot + slot

leb-cases : (a b : ℕ) → (a ≤ b) ⊎ (b < a)
leb-cases a b = ground arith

on_boundary : (t slot : ℕ) → 0 < slot → t % slot ≡ 0 → align_to_slot t slot ≡ t
unfolding align_to_slot
on_boundary t slot p e = ground arith

off_boundary :
    (t slot : ℕ)
    → 0 < slot
    → 0 < t % slot
    → t % slot ≤ t
    → align_to_slot t slot ≡ t - t % slot + slot
unfolding align_to_slot
off_boundary t slot p e l = ground arith

-- A multiple that is above another has the larger factor.
next_multiple : (q k slot : ℕ) → q * slot < k * slot → q * slot + slot ≤ k * slot
next_multiple q k slot h = elim (leb-cases k q) [
  | inl l ↦ absurd (omega (arith, mul-le-mul_right slot l, h))
  | inr l ↦ omega (arith, mul-le-mul_right slot l)
]

-- For a positive slot, the aligned time is a boundary of a slot, and the first one from the time on.
pub align_to_slot_lem :
    (t slot : ℕ)
    → 0 < slot
    → ((k : ℕ) × (align_to_slot t slot ≡ k * slot))
      × (t ≤ align_to_slot t slot)
      × ((k : ℕ) → t ≤ k * slot → align_to_slot t slot ≤ k * slot)
unfolding align_to_slot
align_to_slot_lem t slot p = elim (leb-cases (t % slot) 0) [
  | inl z ↦
      rw (on_boundary t slot p (omega (arith, z)))
        ((t / slot, omega (arith, split, z)), omega arith, λ k h. h)
  | inr n ↦ rw (off_boundary t slot p n (omega (arith, split))) (
    (suc (t / slot), omega (arith, split)),
    omega (arith, split, mod-lt t p),
    λ k h. omega (arith, split, next_multiple (t / slot) k slot (omega (arith, split, n, h))),
  )
]
  where
    split : t / slot * slot + t % slot ≡ t
    split = div-add-mod' t slot
