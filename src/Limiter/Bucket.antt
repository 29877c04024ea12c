-- ===== src/Limiter/Bucket.antt =====
-- The token bucket of internal/pkg/ratelimit/ratelimit.go: its Lua script and `Allow`. Times are
-- milliseconds. Tokens are counted in thousandths, and exactly: the rounding of Lua's doubles is
-- left out, and so is the life of the key, after which the bucket would be full anyway.
use animehot.Common.{
  ℕ, ◌+◌, ◌-◌, ◌*◌, ◌≡◌, ◌≤◌, ◌<◌, refl, sym, subst, ap, ◌∙◌, Bool, true, false, ◌||◌, ltb, ◌==◌,
  Option, none, some, List, [], ◌∷◌, if◌then◌else◌, Bool-cases, inl, inr, bit, arith,
}
use native.Mathlib.Nat.{add-mul, mul-le-mul_right}

pub record Bucket : Type 0 where
  pub tokens : ℕ
  pub ts : ℕ

-- A key that is missing stands for a full bucket of now.
abbrev pub loaded : ℕ → ℕ → Option Bucket → Bucket
loaded burst now none = record { tokens = 1000 * burst; ts = now }
loaded burst now (some b) = b

abbrev pub at_most : ℕ → ℕ → ℕ
at_most most n = if ltb most n then most else n

unfoldable pub refilled : ℕ → ℕ → ℕ → Bucket → Bucket
refilled rate burst now b =
    let refill = (now - b.ts) * rate in
    if ltb 0 refill
    then record { tokens = at_most (1000 * burst) (b.tokens + refill); ts = now }
    else b

unfoldable pub taken : ℕ → Bucket → Bool × Bucket
taken requested b =
    if ltb b.tokens (1000 * requested)
    then (false, b)
    else (true, record b { tokens = b.tokens - 1000 * requested })

-- The Lua script `tokenBucketLua`, for a rate and a burst above 0.
unfoldable pub token_bucket : ℕ → ℕ → ℕ → ℕ → Option Bucket → Bool × Bucket
unfolding refilled taken
token_bucket rate burst now requested b =
    taken requested (refilled rate burst now (loaded burst now b))

-- `Allow` takes one token. A limit or a burst of 0 (in the source, at most 0) allows everything.
unfoldable pub allow : ℕ → ℕ → ℕ → Option Bucket → Bool × Option Bucket
unfolding token_bucket
allow limit burst now b =
    if limit == 0 || burst == 0
    then (true, b)
    else (let (allowed, after) = token_bucket limit burst now 1 b in (allowed, some after))

-- The refill of the time that has passed.
gained : (rate now ts : ℕ) → 0 < (now - ts) * rate → (now - ts) * rate + ts * rate ≡ now * rate
gained rate now ts h = elim (Bool-cases (ltb ts now)) [
  | inl e ↦ sym (add-mul (now - ts) ts rate) ∙ ap (λ x. x * rate) (rejoined now ts e)
  | inr e ↦ absurd (nothing rate (subst (λ x. 0 < x * rate) (no_time now ts e) h))
]
  where
    rejoined : (now ts : ℕ) → ltb ts now ≡ true → now - ts + ts ≡ now
    rejoined now ts e = ground (arith, e)

    no_time : (now ts : ℕ) → ltb ts now ≡ false → now - ts ≡ 0
    no_time now ts e = ground (arith, e)

    nothing : (rate : ℕ) → 0 < 0 * rate → ⊥
    nothing rate h = omega arith

at_most-le : (most n : ℕ) → at_most most n ≤ n
at_most-le most n = ground arith

positive : (n : ℕ) → ltb 0 n ≡ true → 0 < n
positive n e = ground (arith, e)

refilled-account :
    (rate burst now : ℕ) (b : Bucket)
    → (refilled rate burst now b).tokens + b.ts * rate
      ≤ b.tokens + (refilled rate burst now b).ts * rate
unfolding refilled
refilled-account rate burst now b = elim (Bool-cases (ltb 0 ((now - b.ts) * rate))) [
  | inl e ↦ rw e (
      omega (
        arith,
        at_most-le (1000 * burst) (b.tokens + (now - b.ts) * rate),
        gained rate now b.ts (positive ((now - b.ts) * rate) e),
      ))
  | inr e ↦ rw e (omega arith)
]

refilled-le :
    (rate burst now latest : ℕ) (b : Bucket)
    → now ≤ latest
    → b.ts ≤ latest
    → (refilled rate burst now b).ts ≤ latest
unfolding refilled
refilled-le rate burst now latest b p q = elim (Bool-cases (ltb 0 ((now - b.ts) * rate))) [
  | inl e ↦ rw e p
  | inr e ↦ rw e q
]

taken-account :
    (requested : ℕ) (b : Bucket)
    → ((taken requested b).1.tokens + bit (taken requested b).0 * (1000 * requested) ≡ b.tokens)
      × ((taken requested b).1.ts ≡ b.ts)
unfolding taken
taken-account requested b = elim (Bool-cases (ltb b.tokens (1000 * requested))) [
  | inl e ↦ rw e (omega arith, refl)
  | inr e ↦ rw e (ground (arith, e), refl)
]

-- How many of the requests at some times are allowed.
abbrev pub allowed_in : ℕ → ℕ → List ℕ → Option Bucket → ℕ
allowed_in limit burst [] b = 0
allowed_in limit burst (now ∷ times) b =
    bit (allow limit burst now b).0 + allowed_in limit burst times (allow limit burst now b).1

abbrev pub NoneAfter : ℕ → List ℕ → Type 0
NoneAfter latest [] = Unit {0}
NoneAfter latest (now ∷ times) = (now ≤ latest) × NoneAfter latest times

limited :
    (limit burst now : ℕ) (b : Option Bucket)
    → 0 < limit
    → 0 < burst
    → allow limit burst now b
      ≡ ((token_bucket limit burst now 1 b).0, some (token_bucket limit burst now 1 b).1)
unfolding allow
limited limit burst now b p q = rw (not_zero limit p, not_zero burst q) refl
  where
    not_zero : (n : ℕ) → 0 < n → (n == 0) ≡ false
    not_zero n p = ground arith

-- Every allowed request is paid by a token that was there or was refilled.
allowed_in-account :
    (limit burst latest : ℕ) (times : List ℕ) (b : Bucket)
    → 0 < limit
    → 0 < burst
    → b.ts ≤ latest
    → NoneAfter latest times
    → 1000 * allowed_in limit burst times (some b) + b.ts * limit ≤ b.tokens + latest * limit
unfolding token_bucket
allowed_in-account limit burst latest [] b p q l h = omega (arith, mul-le-mul_right limit l)
allowed_in-account limit burst latest (now ∷ times) b p q l (h, hs) =
    let full = refilled limit burst now b in
    let paid = taken-account 1 full in
    let rest =
      allowed_in-account limit burst latest times (taken 1 full).1 p q
        (omega (arith, paid.1, refilled-le limit burst now latest b h l)) hs in
    subst
      (λ (o : Bool × Option Bucket).
        1000 * (bit o.0 + allowed_in limit burst times o.1) + b.ts * limit
        ≤ b.tokens + latest * limit)
      (sym (limited limit burst now (some b) p q))
      (omega (arith, paid.0, ap (λ x. x * limit) paid.1, refilled-account limit burst now b, rest))

-- A bucket that is not there is loaded full at the first request.
allow-loaded :
    (limit burst now : ℕ) (b : Option Bucket)
    → 0 < limit
    → 0 < burst
    → allow limit burst now b ≡ allow limit burst now (some (loaded burst now b))
unfolding token_bucket
allow-loaded limit burst now b p q =
    limited limit burst now b p q ∙ sym (limited limit burst now (some (loaded burst now b)) p q)

rejoined_time : (first latest : ℕ) → first ≤ latest → latest - first + first ≡ latest
rejoined_time first latest l = omega (arith, l)

since :
    (first latest limit : ℕ)
    → first ≤ latest
    → (latest - first) * limit + first * limit ≡ latest * limit
since first latest limit l =
    sym (add-mul (latest - first) first limit) ∙ ap (λ x. x * limit) (rejoined_time first latest l)

-- For a limit and a burst above 0, requests from one time to a latest one, on a bucket that is new
-- at the first of them: at most the burst and the limit for each second in between are allowed,
-- whatever the order of the times (in thousandths of a token, with times in milliseconds).
pub allowed_in_bounds :
    (limit burst first latest : ℕ) (times : List ℕ)
    → 0 < limit
    → 0 < burst
    → first ≤ latest
    → NoneAfter latest times
    → 1000 * allowed_in limit burst (first ∷ times) none ≤ 1000 * burst + (latest - first) * limit
allowed_in_bounds limit burst first latest times p q l h =
    subst
      (λ (o : Bool × Option Bucket).
        1000 * (bit o.0 + allowed_in limit burst times o.1)
        ≤ 1000 * burst + (latest - first) * limit)
      (sym (allow-loaded limit burst first none p q))
      (omega (
        arith,
        allowed_in-account limit burst latest (first ∷ times) (loaded burst first none) p q l
            (l, h),
        since first latest limit l,
      ))
