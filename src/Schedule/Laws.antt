-- ===== src/Schedule/Laws.antt =====
-- What the operations of internal/scheduler/schedule_store.go promise to the scheduler.
use animehot.Common.{
  ℕ, ◌≡◌, ◌≢◌, refl, sym, subst, ap, ◌∙◌, ◌≤◌, ◌<◌, ◌^◌, ◌⊎◌, inl, inr, Bool, true, false, Option,
  none, some, List, [], ◌∷◌, leb, if◌then◌else◌, Bool-cases, arith,
}
use animehot.Queue.Messages.{ok}
use animehot.Queue.Network.{calm, call}
use animehot.Schedule.Server.{
  SortedSet, Entry, score_in, IsUnique, IsRising, AllFrom, members_to, first_of,
}
use animehot.Schedule.Operations.{time_of, parsed, get_due, first_time, get_next_time}

abbrev pub Among : ℕ → List ℕ → Type 0
Among x [] = ⊥
Among x (y ∷ ys) = (x ≡ y) ⊎ Among x ys

module _ (r : SortedSet) where
  open r use {Text, Store}

  -- Every member is the text of an id.
  abbrev pub AreIds : List (Entry Text) → Type 0
  AreIds [] = Unit {0}
  AreIds (e ∷ es) = ((id : ℕ) × (id < 2 ^ 64) × (e.member ≡ r.format_uint id)) × AreIds es

  -- The time for which an IP is scheduled.
  abbrev pub planned : ℕ → Store → Option ℕ
  planned id s = score_in r.same (r.format_uint id) (r.entries s)

  pub format_injective :
      (i j : ℕ) → i < 2 ^ 64 → j < 2 ^ 64 → r.format_uint i ≡ r.format_uint j → i ≡ j
  format_injective i j p q e =
      cc (r.parse_uint-format_uint i p, r.parse_uint-format_uint j q, ap r.parse_uint e)

  same_refl : (m : Text) → r.same m m ≡ true
  same_refl m = (r.same_iff m m).1 refl

  -- One entry more.
  pub parsed_step :
      (now i : ℕ) (e : Entry Text) (es : List (Entry Text))
      → i < 2 ^ 64
      → e.member ≡ r.format_uint i
      → parsed r (members_to now (e ∷ es)) ≡ (
          if leb e.score now
          then i ∷ parsed r (members_to now es)
          else parsed r (members_to now es))
  unfolding parsed
  parsed_step now i e es q m = elim (Bool-cases (leb e.score now)) [
    | inl b ↦ rw (b, ap r.parse_uint m ∙ r.parse_uint-format_uint i q) refl
    | inr b ↦ rw b refl
  ]

  pub step-cases :
      (c : Bool) (score now id i : ℕ) (rest : List ℕ)
      → leb score now ≡ c
      → Among id (if c then i ∷ rest else rest)
      → ((id ≡ i) × (score ≤ now)) ⊎ Among id rest
  step-cases true score now id i rest e (inl x) = inl (x, ground (arith, e))
  step-cases true score now id i rest e (inr a) = inr a
  step-cases false score now id i rest e a = inr a

  cases-step :
      (c : Bool) (score now id i : ℕ) (rest : List ℕ)
      → leb score now ≡ c
      → ((id ≡ i) × (score ≤ now)) ⊎ Among id rest
      → Among id (if c then i ∷ rest else rest)
  cases-step true score now id i rest e (inl (x, l)) = inl x
  cases-step true score now id i rest e (inr a) = inr a
  cases-step false score now id i rest e (inl (x, l)) = absurd (ground (arith, e))
  cases-step false score now id i rest e (inr a) = a

  -- A member that another entry does not have.
  pub other_member :
      (m n : Text) (score : ℕ) (es : List (Entry Text)) (t : ℕ)
      → score_in r.same n es ≡ none
      → score_in r.same m es ≡ some t
      → (if r.same m n then some score else score_in r.same m es) ≡ some t
  other_member m n score es t u f = elim (Bool-cases (r.same m n)) [
    | inl e ↦ cc ((r.same_iff m n).0 e)
    | inr e ↦ rw e f
  ]

  pub due-planned :
      (es : List (Entry Text)) (now id : ℕ)
      → IsUnique r.same es
      → AreIds es
      → Among id (parsed r (members_to now es))
      → (t : ℕ) × (score_in r.same (r.format_uint id) es ≡ some t) × (t ≤ now)
  unfolding parsed
  due-planned [] now id u k a = absurd a
  due-planned (e ∷ es) now id (u, us) ((i, q, m), k) a =
      elim (step-cases (leb e.score now) e.score now id i _ refl
        (subst (Among id) (parsed_step now i e es q m) a)) [
          | inl (x, l) ↦ (
            e.score,
            rw ((r.same_iff (r.format_uint id) e.member).1 (ap r.format_uint x ∙ sym m)) refl,
            l,
          )
          | inr b ↦
              let (t, f, l) = due-planned es now id us k b in
              (t, other_member (r.format_uint id) e.member e.score es t u f, l)
        ]

  first-cases :
      (b : Bool) (score t : ℕ) (old : Option ℕ)
      → (if b then some score else old) ≡ some t
      → ((b ≡ true) × (score ≡ t)) ⊎ (old ≡ some t)
  first-cases true score t old e = inl (refl, cc)
  first-cases false score t old e = inr e

  pub planned-due :
      (es : List (Entry Text)) (now id t : ℕ)
      → id < 2 ^ 64
      → AreIds es
      → score_in r.same (r.format_uint id) es ≡ some t
      → t ≤ now
      → Among id (parsed r (members_to now es))
  planned-due [] now id t b k f l = cc
  planned-due (e ∷ es) now id t b ((i, q, m), k) f l =
      subst (Among id) (sym (parsed_step now i e es q m)) (
        cases-step (leb e.score now) e.score now id i _ refl
          (elim (first-cases (r.same (r.format_uint id) e.member) e.score t _ f) [
            | inl (x, y) ↦ inl (
              format_injective id i b q ((r.same_iff (r.format_uint id) e.member).0 x ∙ m),
              omega (arith, y, l),
            )
            | inr g ↦ inr (planned-due es now id t b k g l)
          ]))

  -- On a network that does not fail, if every member of the set is the text of an id, `GetDue` returns
  -- exactly the ids that are scheduled for now or earlier, and changes nothing.
  pub get_due_lem :
      (now : ℕ) (s : Store)
      → AreIds (r.entries s)
      → (ids : List ℕ) × (get_due r now (calm s) ≡ (ok ids, calm s))
        × ((id : ℕ)
            → id < 2 ^ 64
            → (Among id ids → (t : ℕ) × (planned id s ≡ some t) × (t ≤ now))
              × ((t : ℕ) → planned id s ≡ some t → t ≤ now → Among id ids))
  unfolding get_due call
  get_due_lem now s k = (
    parsed r (members_to now (r.entries s)),
    ap (λ ms. (ok (parsed r ms), calm s)) (r.zrange_by_score_law now s),
    λ id b. (
      λ a. due-planned (r.entries s) now id (r.entries-IsUnique s) k a,
      λ t f l. planned-due (r.entries s) now id t b k f l,
    ),
  )

  different_members :
      (i j : ℕ)
      → i < 2 ^ 64
      → j < 2 ^ 64
      → i ≢ j
      → r.same (r.format_uint i) (r.format_uint j) ≡ false
  different_members i j p q n = elim (Bool-cases (r.same (r.format_uint i) (r.format_uint j))) [
    | inl e ↦
        absurd (n (format_injective i j p q ((r.same_iff (r.format_uint i) (r.format_uint j)).0 e)))
    | inr e ↦ e
  ]

  AllFrom-least :
      (es : List (Entry Text)) (least id t : ℕ)
      → AllFrom least es
      → score_in r.same (r.format_uint id) es ≡ some t
      → least ≤ t
  AllFrom-least [] least id t a f = cc
  AllFrom-least (e ∷ es) least id t (a, k) f =
      elim (first-cases (r.same (r.format_uint id) e.member) e.score t _ f) [
        | inl (x, y) ↦ omega (arith, a, y)
        | inr g ↦ AllFrom-least es least id t k g
      ]

  -- What `GetNextTime` finds in a set.
  abbrev pub IsNext : List (Entry Text) → Option ℕ → Type 0
  IsNext es none = (id : ℕ) → score_in r.same (r.format_uint id) es ≡ none
  IsNext es (some t) =
      ((id : ℕ) × (id < 2 ^ 64) × (score_in r.same (r.format_uint id) es ≡ some t))
      × ((id later : ℕ) → score_in r.same (r.format_uint id) es ≡ some later → t ≤ later)

  first_time-IsNext :
      (es : List (Entry Text)) → IsRising es → AreIds es → IsNext es (first_time r (first_of es))
  unfolding first_time
  first_time-IsNext [] h k = λ id. refl
  first_time-IsNext (e ∷ es) (h, hs) ((i, q, m), k) = (
    (i, q, rw ((r.same_iff (r.format_uint i) e.member).1 (sym m)) refl),
    λ id later f. AllFrom-least (e ∷ es) e.score id later (omega arith, h) f,
  )

  -- On a network that does not fail, if every member of the set is the text of an id, `GetNextTime`
  -- returns the time of the earliest second for which an IP is scheduled, and none exactly if no IP is;
  -- it changes nothing.
  pub get_next_time_lem :
      (s : Store)
      → AreIds (r.entries s)
      → (next : Option ℕ) × (get_next_time r (calm s) ≡ (ok (time_of next), calm s))
        × IsNext (r.entries s) next
  unfolding get_next_time call
  get_next_time_lem s k = (
    first_time r (first_of (r.entries s)),
    ap (λ es. (ok (time_of (first_time r es)), calm s)) (r.zrange_first_law s),
    first_time-IsNext (r.entries s) (r.entries-IsRising s) k,
  )
