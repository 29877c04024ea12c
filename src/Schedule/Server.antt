-- ===== src/Schedule/Server.antt =====
-- What internal/scheduler/schedule_store.go uses of the Redis server: one sorted set, whose members
-- are texts of ids and whose scores are times. Times are Unix seconds from 0 to 2^53, which float64
-- keeps exactly.
use animehot.Common.{
  ℕ, ◌≡◌, ◌≤◌, ◌<◌, ◌^◌, Bool, true, Option, none, some, List, [], ◌∷◌, leb, length, if◌then◌else◌,
}

-- A member and its score.
pub record Entry (Text : Type 0) : Type 0 where
  pub member : Text
  pub score : ℕ

module _ {Text : Type 0} (same : Text → Text → Bool) where
  -- `ZSCORE`
  abbrev pub score_in : Text → List (Entry Text) → Option ℕ
  score_in m [] = none
  score_in m (e ∷ es) = if same m e.member then some e.score else score_in m es

  -- `ZADD`, for a member with the score that was known: the last of the new entries counts.
  abbrev pub score_after : Text → List (Entry Text) → Option ℕ → Option ℕ
  score_after m [] old = old
  score_after m (e ∷ es) old = score_after m es (if same m e.member then some e.score else old)

  -- No two entries have the same member.
  abbrev pub IsUnique : List (Entry Text) → Type 0
  IsUnique [] = Unit {0}
  IsUnique (e ∷ es) = (score_in e.member es ≡ none) × IsUnique es

module _ {Text : Type 0} where
  abbrev pub AllFrom : ℕ → List (Entry Text) → Type 0
  AllFrom t [] = Unit {0}
  AllFrom t (e ∷ es) = (t ≤ e.score) × AllFrom t es

  abbrev pub IsRising : List (Entry Text) → Type 0
  IsRising [] = Unit {0}
  IsRising (e ∷ es) = AllFrom e.score es × IsRising es

  -- `ZRANGEBYSCORE -inf max`
  abbrev pub members_to : ℕ → List (Entry Text) → List Text
  members_to max [] = []
  members_to max (e ∷ es) =
      let rest = members_to max es in if leb e.score max then e.member ∷ rest else rest

  abbrev pub first_of : List (Entry Text) → List (Entry Text)
  first_of [] = []
  first_of (e ∷ es) = e ∷ []

pub record SortedSet : Type 1 where
  pub Text : Type 0
  pub same : Text → Text → Bool
  pub same_iff : (m n : Text) → (same m n ≡ true → m ≡ n) × (m ≡ n → same m n ≡ true)
  pub format_uint : ℕ → Text  -- `strconv.FormatUint`
  pub parse_uint : Text → Option ℕ  -- `strconv.ParseUint`, `none` for an error
  pub parse_uint-format_uint : (n : ℕ) → n < 2 ^ 64 → parse_uint (format_uint n) ≡ some n
  pub Store : Type 0
  pub entries : Store → List (Entry Text)  -- `ZRANGE 0 -1 WITHSCORES`
  pub entries-IsRising : (s : Store) → IsRising (entries s)
  pub entries-IsUnique : (s : Store) → IsUnique same (entries s)
  pub zadd : List (Entry Text) → Store → Store
  pub zadd_law :
      (new : List (Entry Text)) (m : Text) (s : Store)
      → score_in same m (entries (zadd new s))
        ≡ score_after same m new (score_in same m (entries s))
  pub zrem : Text → Store → Store
  pub zrem_law :
      (m n : Text) (s : Store)
      → score_in same n (entries (zrem m s))
        ≡ (if same n m then none else score_in same n (entries s))
  pub zrange_by_score : ℕ → Store → List Text
  pub zrange_by_score_law :
      (max : ℕ) (s : Store) → zrange_by_score max s ≡ members_to max (entries s)
  pub zrange_first : Store → List (Entry Text)  -- `ZRANGE 0 0 WITHSCORES`
  pub zrange_first_law : (s : Store) → zrange_first s ≡ first_of (entries s)
  pub zcard : Store → ℕ
  pub zcard_law : (s : Store) → zcard s ≡ length (entries s)
  pub zscore : Text → Store → Option ℕ
  pub zscore_law : (m : Text) (s : Store) → zscore m s ≡ score_in same m (entries s)
