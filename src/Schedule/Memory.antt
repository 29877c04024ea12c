-- ===== src/Schedule/Memory.antt =====
-- A sorted set in memory, whose members are the ids themselves.
use animehot.Common.{
  ℕ, ◌≡◌, refl, ap, ◌∙◌, ◌≤◌, false, none, some, List, [], ◌∷◌, leb, ◌==◌, ==_iff, ==_refl,
  if◌then◌else◌, Bool-cases, inl, inr, arith, length,
}
use animehot.Schedule.Server.{
  SortedSet, Entry, score_in, score_after, IsUnique, IsRising, AllFrom, members_to, first_of,
}

abbrev pub Entries : Type 0
Entries = List (Entry ℕ)

unfoldable pub insert : Entry ℕ → Entries → Entries
insert e [] = e ∷ []
insert e (x ∷ xs) = let rest = insert e xs in if leb e.score x.score then e ∷ x ∷ xs else x ∷ rest

unfoldable pub without : ℕ → Entries → Entries
without m [] = []
without m (x ∷ xs) = let rest = without m xs in if m == x.member then rest else x ∷ rest

AllFrom-mono : (s t : ℕ) (xs : Entries) → s ≤ t → AllFrom t xs → AllFrom s xs
AllFrom-mono s t [] l h = tt
AllFrom-mono s t (x ∷ xs) l (h, hs) = (omega (arith, l, h), AllFrom-mono s t xs l hs)

insert-AllFrom :
    (t : ℕ) (e : Entry ℕ) (xs : Entries) → t ≤ e.score → AllFrom t xs → AllFrom t (insert e xs)
unfolding insert
insert-AllFrom t e [] l h = (l, tt)
insert-AllFrom t e (x ∷ xs) l (h, hs) = elim (Bool-cases (leb e.score x.score)) [
  | inl b ↦ rw b (l, (h, hs))
  | inr b ↦ rw b (h, insert-AllFrom t e xs l hs)
]

pub insert-IsRising : (e : Entry ℕ) (xs : Entries) → IsRising xs → IsRising (insert e xs)
unfolding insert
insert-IsRising e [] h = (tt, tt)
insert-IsRising e (x ∷ xs) (h, hs) = elim (Bool-cases (leb e.score x.score)) [
  | inl b ↦
      rw b ((ground (arith, b), AllFrom-mono e.score x.score xs (ground (arith, b)) h), (h, hs))
  | inr b ↦ rw b (insert-AllFrom x.score e xs (ground (arith, b)) h, insert-IsRising e xs hs)
]

without-AllFrom : (t m : ℕ) (xs : Entries) → AllFrom t xs → AllFrom t (without m xs)
unfolding without
without-AllFrom t m [] h = tt
without-AllFrom t m (x ∷ xs) (h, hs) = elim (Bool-cases (m == x.member)) [
  | inl b ↦ rw b (without-AllFrom t m xs hs)
  | inr b ↦ rw b (h, without-AllFrom t m xs hs)
]

pub without-IsRising : (m : ℕ) (xs : Entries) → IsRising xs → IsRising (without m xs)
unfolding without
without-IsRising m [] h = tt
without-IsRising m (x ∷ xs) (h, hs) = elim (Bool-cases (m == x.member)) [
  | inl b ↦ rw b (without-IsRising m xs hs)
  | inr b ↦ rw b (without-AllFrom x.score m xs h, without-IsRising m xs hs)
]

score_in-without :
    (m n : ℕ) (xs : Entries)
    → score_in ◌==◌ n (without m xs) ≡ (if n == m then none else score_in ◌==◌ n xs)
unfolding without
score_in-without m n [] = ground arith
score_in-without m n (x ∷ xs) = ground (arith, score_in-without m n xs)

pub without-IsUnique : (m : ℕ) (xs : Entries) → IsUnique ◌==◌ xs → IsUnique ◌==◌ (without m xs)
unfolding without
without-IsUnique m [] h = tt
without-IsUnique m (x ∷ xs) (h, hs) = elim (Bool-cases (m == x.member)) [
  | inl b ↦ rw b (without-IsUnique m xs hs)
  | inr b ↦ rw b (score_in-without m x.member xs ∙ ground (arith, h), without-IsUnique m xs hs)
]

absent_tail :
    (m : ℕ) (x : Entry ℕ) (xs : Entries)
    → score_in ◌==◌ m (x ∷ xs) ≡ none
    → (m == x.member ≡ false) × (score_in ◌==◌ m xs ≡ none)
absent_tail m x xs h = ground arith

swapped : (m n : ℕ) → m == n ≡ false → n == m ≡ false
swapped m n h = ground arith

score_in-insert :
    (n : ℕ) (e : Entry ℕ) (xs : Entries)
    → score_in ◌==◌ e.member xs ≡ none
    → score_in ◌==◌ n (insert e xs) ≡ (if n == e.member then some e.score else score_in ◌==◌ n xs)
unfolding insert
score_in-insert n e [] h = refl
score_in-insert n e (x ∷ xs) h =
    ground
      (arith, absent_tail e.member x xs h, score_in-insert n e xs (absent_tail e.member x xs h).1)

pub insert-IsUnique :
    (e : Entry ℕ) (xs : Entries)
    → score_in ◌==◌ e.member xs ≡ none
    → IsUnique ◌==◌ xs
    → IsUnique ◌==◌ (insert e xs)
unfolding insert
insert-IsUnique e [] h u = (refl, tt)
insert-IsUnique e (x ∷ xs) h (u, us) =
    let (other, absent) = absent_tail e.member x xs h in
    elim (Bool-cases (leb e.score x.score)) [
      | inl b ↦ rw b (h, (u, us))
      | inr b ↦ rw b (
        score_in-insert x.member e xs absent ∙ rw (swapped e.member x.member other) u,
        insert-IsUnique e xs absent us,
      )
    ]

-- A set: rising scores, no member twice.
pub record Set : Type 0 where
  pub all : Entries
  pub rising : IsRising all
  pub unique : IsUnique ◌==◌ all

pub without_lem : (m : ℕ) (xs : Entries) → score_in ◌==◌ m (without m xs) ≡ none
without_lem m xs = score_in-without m m xs ∙ rw (==_refl m) refl

unfoldable pub add_one : Entry ℕ → Set → Set
add_one e s = record {
  all = insert e (without e.member s.all);
  rising = insert-IsRising e (without e.member s.all) (without-IsRising e.member s.all s.rising);
  unique =
      insert-IsUnique e (without e.member s.all) (without_lem e.member s.all)
        (without-IsUnique e.member s.all s.unique);
}

unfoldable pub add_all : List (Entry ℕ) → Set → Set
unfolding add_one
add_all [] s = s
add_all (e ∷ es) s = add_all es (add_one e s)

unfoldable pub drop_one : ℕ → Set → Set
drop_one m s = record {
  all = without m s.all;
  rising = without-IsRising m s.all s.rising;
  unique = without-IsUnique m s.all s.unique;
}

score-add_one :
    (e : Entry ℕ) (m : ℕ) (s : Set)
    → score_in ◌==◌ m (add_one e s).all
      ≡ (if m == e.member then some e.score else score_in ◌==◌ m s.all)
unfolding add_one
score-add_one e m s =
    score_in-insert m e (without e.member s.all) (without_lem e.member s.all)
    ∙ ground (arith, score_in-without e.member m s.all)

pub score-add_all :
    (es : List (Entry ℕ)) (m : ℕ) (s : Set)
    → score_in ◌==◌ m (add_all es s).all ≡ score_after ◌==◌ m es (score_in ◌==◌ m s.all)
unfolding add_all
score-add_all [] m s = refl
score-add_all (e ∷ es) m s =
    score-add_all es m (add_one e s) ∙ ap (score_after ◌==◌ m es) (score-add_one e m s)

pub score-drop_one :
    (m n : ℕ) (s : Set)
    → score_in ◌==◌ n (drop_one m s).all ≡ (if n == m then none else score_in ◌==◌ n s.all)
unfolding drop_one
score-drop_one m n s = score_in-without m n s.all

abbrev pub sorted_set : SortedSet
sorted_set = record {
  Text = ℕ;
  same = ◌==◌;
  same_iff = λ m n. ((==_iff m n).0, (==_iff m n).1);
  format_uint = λ n. n;
  parse_uint = some;
  parse_uint-format_uint = λ n h. refl;
  Store = Set;
  entries = λ s. s.all;
  entries-IsRising = λ s. s.rising;
  entries-IsUnique = λ s. s.unique;
  zadd = add_all;
  zadd_law = score-add_all;
  zrem = drop_one;
  zrem_law = score-drop_one;
  zrange_by_score = λ max s. members_to max s.all;
  zrange_by_score_law = λ max s. refl;
  zrange_first = λ s. first_of s.all;
  zrange_first_law = λ s. refl;
  zcard = λ s. length s.all;
  zcard_law = λ s. refl;
  zscore = λ m s. score_in ◌==◌ m s.all;
  zscore_law = λ m s. refl;
}
