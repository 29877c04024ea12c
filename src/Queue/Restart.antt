-- ===== src/Queue/Restart.antt =====
-- The start-up recovery of internal/pkg/redisqueue/client.go, on a network that does not fail: its
-- loop ends, and nothing is lost or reordered.
use animehot.Common.{
  ℕ, zero, suc, ◌+◌, ◌<◌, ◌≡◌, refl, sym, ap, ◌∙◌, String, str_eq, true, false, Option, none, some,
  List, [], ◌∷◌, ◌++◌, ◌==◌, unsnoc, unsnoc-eq, unsnoc-none, length, length-append, inl, inr,
  Bool-cases, Option-cases, ==_refl, arith,
}
use mathlib.Core.List.{append_assoc}
use animehot.Queue.Messages.{Result, ok}
use animehot.Queue.Server.{
  Redis, Contents, ListKey, HashKey, tasks, processing, results, result_processing, list_index,
  task_started, result_started, moved, last_of,
}
use animehot.Queue.Network.{World, calm, call}
use animehot.Queue.Recovery.{
  Recovered, all_moved, forget_started, recover, recover_reply, recover_orphaned_tasks,
  recover_orphaned_results, task_id_of, result_id_of,
}

module _ (r : Redis) where
  open r use {Raw, Store, view}

  forget_started-calm :
      (k : HashKey) (found : Option String) (s : Store)
      → (s' : Store) × (forget_started r k found (calm s) ≡ (ok tt, calm s'))
        × ((view s').lists ≡ (view s).lists)
  unfolding forget_started call
  forget_started-calm k none s = (s, refl, refl)
  forget_started-calm k (some x) s = elim (Bool-cases (str_eq x "")) [
    | inl e ↦ (s, rw e refl, refl)
    | inr e ↦ (r.hdel k x s, rw e refl, rw (r.hdel_law k x s) refl)
  ]

  -- The two lists after a move.
  moved-lists :
      (src dst : ListKey) (c : Contents Raw) (rest : List Raw) (last : Raw)
      → (list_index src == list_index dst) ≡ false
      → (list_index dst == list_index src) ≡ false
      → unsnoc (c.lists src) ≡ some (rest, last)
      → ((moved src dst c).lists src ≡ rest) × ((moved src dst c).lists dst ≡ last ∷ c.lists dst)
  moved-lists src dst c rest last ne ne' e =
      rw (e, moved)
        (rw (ne', ==_refl (list_index src)) refl, rw (==_refl (list_index dst), ne) refl)

  -- The lists when the loop ends.
  abbrev Moved : ListKey → ListKey → ℕ → Store → Result Recovered × World Store → Type 0
  Moved src dst n s after =
      (after.0 ≡ ok (all_moved (n + length ((view s).lists src))))
      × ((view after.1.store).lists src ≡ [])
      × ((view after.1.store).lists dst ≡ (view s).lists src ++ (view s).lists dst)

  recover-Moved :
      (src dst : ListKey) (hash : HashKey) (id_of : Raw → Option String) (fuel n : ℕ) (s : Store)
      → (list_index src == list_index dst) ≡ false
      → (list_index dst == list_index src) ≡ false
      → length ((view s).lists src) < fuel
      → Moved src dst n s (recover r src dst hash id_of fuel n (calm s))
  unfolding recover recover_reply call
  recover-Moved src dst hash id_of zero n s ne ne' enough = absurd (omega arith)
  recover-Moved src dst hash id_of (suc fuel) n s ne ne' enough =
      elim (Option-cases (unsnoc ((view s).lists src))) [
        | inl e ↦
            let got : (r.rpoplpush src dst s).0 ≡ none =
              r.rpoplpush_reply src dst s ∙ (rw (e, last_of) refl) in
            let empty : (view s).lists src ≡ [] = unsnoc-none _ e in
            rw (got, r.rpoplpush_law src dst s, e, moved, empty)
              (ap (λ k. ok (all_moved k)) (omega arith), refl, refl)
        | inr ((rest, last), e) ↦
            let got : (r.rpoplpush src dst s).0 ≡ some last =
              r.rpoplpush_reply src dst s ∙ (rw (e, last_of) refl) in
            let s₁ = (r.rpoplpush src dst s).1 in
            let (s₂, done, same) = forget_started-calm hash (id_of last) s₁ in
            let (to_src, to_dst) = moved-lists src dst (view s) rest last ne ne' e in
            let lists_after : (view s₂).lists ≡ (moved src dst (view s)).lists =
              same ∙ ap (λ c. c.lists) (r.rpoplpush_law src dst s) in
            let at_src : (view s₂).lists src ≡ rest = ap (λ f. f src) lists_after ∙ to_src in
            let at_dst : (view s₂).lists dst ≡ last ∷ (view s).lists dst =
              ap (λ f. f dst) lists_after ∙ to_dst in
            let whole : (view s).lists src ≡ rest ++ last ∷ [] = unsnoc-eq _ rest last e in
            let size : length ((view s).lists src) ≡ length rest + 1 =
              ap length whole ∙ length-append rest (last ∷ []) in
            let after =
              recover-Moved src dst hash id_of fuel (suc n) s₂ ne ne'
                (omega (arith, size, ap length at_src)) in
            rw (got, done)
              (
                after.0 ∙ ap (λ k. ok (all_moved k)) (omega (arith, size, ap length at_src)),
                after.1,
                after.2
                    ∙ (rw (at_src, at_dst, whole)
                        (sym (append_assoc rest (last ∷ []) ((view s).lists dst)))),
              )
      ]

  -- On a network that does not fail, with a client that is initialized and more fuel than tasks in
  -- processing, the recovery ends. It moves all of them back before the
  -- waiting tasks, in their order, and reports how many.
  pub recover_orphaned_tasks_all :
      (s : Store) (fuel : ℕ)
      → length ((view s).lists processing) < fuel
      → Moved processing tasks 0 s (recover_orphaned_tasks r fuel true (calm s))
  unfolding recover_orphaned_tasks
  recover_orphaned_tasks_all s fuel enough =
      recover-Moved processing tasks task_started (task_id_of r) fuel 0 s refl refl enough

  -- With more fuel than results in processing, `RecoverOrphanedResults` ends. It moves all of them
  -- back before the waiting results, in their order, and reports how many.
  pub recover_orphaned_results_all :
      (s : Store) (fuel : ℕ)
      → length ((view s).lists result_processing) < fuel
      → Moved result_processing results 0 s (recover_orphaned_results r fuel true (calm s))
  unfolding recover_orphaned_results
  recover_orphaned_results_all s fuel enough =
      recover-Moved result_processing results result_started (result_id_of r) fuel 0 s refl refl
        enough
