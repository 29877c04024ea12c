-- ===== src/Schedule/Planned.antt =====
-- The time for which an IP is scheduled, after one `Schedule` or `Remove` of
-- internal/scheduler/schedule_store.go, and the range of the ids.
use animehot.Common.{
  ℕ, ◌≡◌, refl, sym, subst, ap, ◌∙◌, ◌<◌, ◌^◌, inl, inr, true, false, none, some, List, [], ◌∷◌,
  leb, ◌==◌, ==_iff, if◌then◌else◌, Bool-cases,
}
use animehot.Schedule.Server.{SortedSet, Entry, members_to}
use animehot.Schedule.Operations.{parsed}
use animehot.Schedule.Laws.{Among, AreIds, planned, format_injective, parsed_step, step-cases}

module _ (r : SortedSet) where
  open r use {Text, Store}

  pub same_ids :
      (i j : ℕ) → i < 2 ^ 64 → j < 2 ^ 64 → r.same (r.format_uint i) (r.format_uint j) ≡ (i == j)
  same_ids i j p q = elim (Bool-cases (r.same (r.format_uint i) (r.format_uint j))) [
    | inl e ↦
        let equal =
          format_injective r i j p q ((r.same_iff (r.format_uint i) (r.format_uint j)).0 e) in
        e ∙ sym ((==_iff i j).1 equal)
    | inr e ↦ elim (Bool-cases (i == j)) [
      | inl h ↦
          let same =
            (r.same_iff (r.format_uint i) (r.format_uint j)).1
              (ap r.format_uint ((==_iff i j).0 h)) in
          absurd (true_is_false (sym same ∙ e))
      | inr h ↦ e ∙ sym h
    ]
  ]
    where
      true_is_false : true ≡ false → ⊥
      true_is_false h = cc

  abbrev pub scheduled : ℕ → ℕ → Store → Store
  scheduled id t = r.zadd (record { member = r.format_uint id; score = t } ∷ [])

  abbrev pub removed : ℕ → Store → Store
  removed id = r.zrem (r.format_uint id)

  pub planned-scheduled :
      (id t other : ℕ) (s : Store)
      → id < 2 ^ 64
      → other < 2 ^ 64
      → planned r other (scheduled id t s) ≡ (if other == id then some t else planned r other s)
  planned-scheduled id t other s p q =
      r.zadd_law (record { member = r.format_uint id; score = t } ∷ []) (r.format_uint other) s
      ∙ ap (λ b. if b then some t else planned r other s) (same_ids other id q p)

  pub planned-removed :
      (id other : ℕ) (s : Store)
      → id < 2 ^ 64
      → other < 2 ^ 64
      → planned r other (removed id s) ≡ (if other == id then none else planned r other s)
  planned-removed id other s p q =
      r.zrem_law (r.format_uint id) (r.format_uint other) s
      ∙ ap (λ b. if b then none else planned r other s) (same_ids other id q p)

  -- The ids that are due.
  pub due-below :
      (es : List (Entry Text)) (now id : ℕ)
      → AreIds r es
      → Among id (parsed r (members_to now es))
      → id < 2 ^ 64
  unfolding parsed
  due-below [] now id k a = absurd a
  due-below (e ∷ es) now id ((i, q, m), k) a =
      elim (step-cases r (leb e.score now) e.score now id i _ refl
        (subst (Among id) (parsed_step r now i e es q m) a)) [
          | inl (x, l) ↦ subst (λ n. n < 2 ^ 64) (sym x) q
          | inr b ↦ due-below es now id k b
        ]
