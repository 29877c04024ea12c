-- ===== src/Schedule/Ids.antt =====
-- That the sorted set of internal/scheduler/schedule_store.go holds ids only: what `Schedule`,
-- `Remove` and `ScheduleBatch` do to that, and which ids `GetAll` finds.
use animehot.Common.{
  ℕ, ◌≡◌, refl, sym, subst, ap, ◌∙◌, ◌<◌, ◌^◌, ◌⊎◌, inl, inr, Bool, true, false, Option, none, some,
  List, [], ◌∷◌, if◌then◌else◌, ◌==◌, arith,
}
use animehot.Schedule.Server.{SortedSet, Entry, score_in, score_after, IsUnique}
use animehot.Schedule.Operations.{unix, time_unix, time_of, all_times, new_entries}
use animehot.Schedule.Laws.{AreIds, other_member}
use animehot.Schedule.Planned.{scheduled, removed, same_ids}

unix-time_unix : (t : ℕ) → unix (time_unix t) ≡ t
unix-time_unix t = omega arith

module _ (r : SortedSet) where
  open r use {Text, Store}

  abbrev pub IsId : Text → Type 0
  IsId m = (id : ℕ) × (id < 2 ^ 64) × (m ≡ r.format_uint id)

  -- Each member that has a score is an id.
  abbrev ScoredIds : List (Entry Text) → Type 0
  ScoredIds es = (m : Text) (t : ℕ) → score_in r.same m es ≡ some t → IsId m

  found-cases :
      (b : Bool) (score t : ℕ) (rest : Option ℕ)
      → (if b then some score else rest) ≡ some t
      → (b ≡ true) ⊎ (rest ≡ some t)
  found-cases true score t rest e = inl refl
  found-cases false score t rest e = inr e

  AreIds-scored : (es : List (Entry Text)) → AreIds r es → ScoredIds es
  AreIds-scored [] k m t e = cc
  AreIds-scored (x ∷ es) ((i, p, q), k) m t e =
      elim (found-cases (r.same m x.member) x.score t _ e) [
        | inl h ↦ (i, p, (r.same_iff m x.member).0 h ∙ q)
        | inr h ↦ AreIds-scored es k m t h
      ]

  scored-AreIds : (es : List (Entry Text)) → IsUnique r.same es → ScoredIds es → AreIds r es
  scored-AreIds [] u k = tt
  scored-AreIds (x ∷ es) (u, us) k = (
    k x.member x.score (rw ((r.same_iff x.member x.member).1 refl) refl),
    scored-AreIds es us (λ m t e. k m t (other_member r m x.member x.score es t u e)),
  )

  -- The ids of a batch.
  abbrev pub AreBelow : List (ℕ × ℕ) → Type 0
  AreBelow [] = Unit {0}
  AreBelow ((id, t) ∷ rest) = (id < 2 ^ 64) × AreBelow rest

  after-cases :
      (new : List (ℕ × ℕ)) (m : Text) (old : Option ℕ) (t : ℕ)
      → AreBelow new
      → score_after r.same m (new_entries r new) old ≡ some t
      → IsId m ⊎ (old ≡ some t)
  unfolding new_entries
  after-cases [] m old t k e = inr e
  after-cases ((id, u) ∷ rest) m old t (l, k) e = elim (after-cases rest m _ t k e) [
    | inl h ↦ inl h
    | inr h ↦ elim (found-cases (r.same m (r.format_uint id)) (unix u) t old h) [
      | inl same ↦ inl (id, l, (r.same_iff m (r.format_uint id)).0 same)
      | inr before ↦ inr before
    ]
  ]

  -- A set whose members are ids is one still after ids are added or one is removed.
  pub added-AreIds :
      (new : List (ℕ × ℕ)) (s : Store)
      → AreBelow new
      → AreIds r (r.entries s)
      → AreIds r (r.entries (r.zadd (new_entries r new) s))
  added-AreIds new s l k =
      scored-AreIds (r.entries (r.zadd (new_entries r new) s)) (r.entries-IsUnique _) (λ m t e.
        elim (after-cases new m _ t l (sym (r.zadd_law (new_entries r new) m s) ∙ e)) [
          | inl h ↦ h
          | inr h ↦ AreIds-scored (r.entries s) k m t h
        ])

  pub scheduled-AreIds :
      (id t : ℕ) (s : Store)
      → id < 2 ^ 64
      → AreIds r (r.entries s)
      → AreIds r (r.entries (scheduled r id t s))
  unfolding new_entries
  scheduled-AreIds id t s l k =
      subst (λ score. AreIds r (r.entries (scheduled r id score s))) (unix-time_unix t)
        (added-AreIds ((id, time_unix t) ∷ []) s (l, tt) k)

  pub removed-AreIds :
      (id : ℕ) (s : Store) → AreIds r (r.entries s) → AreIds r (r.entries (removed r id s))
  removed-AreIds id s k =
      scored-AreIds (r.entries (removed r id s)) (r.entries-IsUnique _) (λ m t e.
        AreIds-scored (r.entries s) k m t
          (kept (r.same m (r.format_uint id)) _ t (sym (r.zrem_law (r.format_uint id) m s) ∙ e)))
    where
      kept : (b : Bool) (old : Option ℕ) (t : ℕ) → (if b then none else old) ≡ some t → old ≡ some t
      kept true old t e = cc
      kept false old t e = e

  -- The time that a list of pairs gives an id.
  abbrev pub time_in : ℕ → List (ℕ × ℕ) → Option ℕ
  time_in id [] = none
  time_in id ((i, t) ∷ rest) = if id == i then some t else time_in id rest

  all_times_step :
      (e : Entry Text) (es : List (Entry Text)) (i : ℕ)
      → i < 2 ^ 64
      → e.member ≡ r.format_uint i
      → all_times r (e ∷ es) ≡ (i, time_unix e.score) ∷ all_times r es
  unfolding all_times
  all_times_step e es i p q = rw (ap r.parse_uint q ∙ r.parse_uint-format_uint i p, all_times) refl

  time_of-if :
      (b : Bool) (score : ℕ) (o : Option ℕ)
      → time_of (if b then some score else o) ≡ (if b then some (time_unix score) else time_of o)
  time_of-if true score o = refl
  time_of-if false score o = refl

  -- `GetAll` returns the time for which each id is scheduled.
  pub time_in-all_times :
      (es : List (Entry Text)) (id : ℕ)
      → id < 2 ^ 64
      → AreIds r es
      → time_in id (all_times r es) ≡ time_of (score_in r.same (r.format_uint id) es)
  unfolding all_times
  time_in-all_times [] id l k = refl
  time_in-all_times (e ∷ es) id l ((i, p, q), k) =
      ap (time_in id) (all_times_step e es i p q)
      ∙ ap (λ o. if id == i then some (time_unix e.score) else o) (time_in-all_times es id l k)
      ∙ ap
          (λ b.
            if b then some (time_unix e.score) else time_of (score_in r.same (r.format_uint id) es))
          (sym (ap (r.same (r.format_uint id)) q ∙ same_ids r id i l p))
      ∙ sym (
          time_of-if (r.same (r.format_uint id) e.member) e.score
            (score_in r.same (r.format_uint id) es))

  pub all_times-AreBelow : (es : List (Entry Text)) → AreIds r es → AreBelow (all_times r es)
  unfolding all_times
  all_times-AreBelow [] k = tt
  all_times-AreBelow (e ∷ es) ((i, p, q), k) =
      subst AreBelow (sym (all_times_step e es i p q)) (p, all_times-AreBelow es k)
