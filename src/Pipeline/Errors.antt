-- ===== src/Pipeline/Errors.antt =====
-- The start of `processResult` in internal/analyzer/pipeline.go, and what becomes of a task whose crawl
-- reported an error: `core` is what `processResult` does with the items of a result.
use animehot.Common.{
  ℕ, ◌≡◌, refl, sym, subst, ap, ◌∙◌, String, str_eq, Bool, true, false, not, ◌&&◌, some,
  if◌then◌else◌, Option-cases, inl, inr, unsnoc,
}
use animehot.Queue.Messages.{CrawlResponse, not_initialized, no_result, unmarshal_failed, ok}
use animehot.Queue.Server.{
  Redis, Contents, results, result_processing, processed, result_started, member_of, number,
  HashKey, moved,
}
use animehot.Queue.Network.{
  M, return, calm, call, update, Keeps, call-Keeps, >>=-Keeps, guard->>-Keeps, required->>=-Keeps,
  if-Keeps, ignore-Keeps,
}
use animehot.Queue.Tasks.{record_started, remove_mention, find_mention}
use animehot.Queue.Results.{pop_result, ack_result, ack_result_script, mark_processed, is_processed}
use animehot.Queue.Views.{sadd_sets, member_eq_refl}
use animehot.Pipeline.Process.{
  Verdict, was_processed, process_one, process_one_skips, process_popped, after_pop, finish,
}

-- The crawler reports an error, and no items are expected.
unfoldable pub is_failure : CrawlResponse → Bool
is_failure resp = not (str_eq resp.error_message "") && not (str_eq resp.error_message "no_items")

module _ (r : Redis) (core : CrawlResponse → M r.Store (Unit {0})) where
  open r use {Raw, Store, view}

  -- A result that reports an error is passed over, without an error.
  unfoldable pub process_result : CrawlResponse → M Store (Unit {0})
  unfolding is_failure
  process_result resp = if is_failure resp then return tt else core resp

  -- Whether a task id is marked as processed.
  abbrev pub is_marked : String → Store → Bool
  is_marked x s = (view s).sets processed (member_of x)

  Marked : String → Store → Type 0
  Marked x s = is_marked x s ≡ true

  record_started-Marked :
      (x task_id : String) (k : HashKey) (now : ℕ)
      → Keeps (Marked x) (record_started r k task_id now)
  unfolding record_started Marked
  record_started-Marked x task_id k now =
      if-Keeps (Marked x) (str_eq task_id "") (return tt) _ (λ w p. p)
        (ignore-Keeps (Marked x) (update (r.hset k task_id (number now))) (
          call-Keeps (Marked x) _ (λ s p.
            ap (λ c. c.sets processed (member_of x)) (r.hset_law k task_id (number now) s) ∙ p)))

  moved_marks :
      (c : Contents Raw) (x : String)
      → (moved results result_processing c).sets processed (member_of x)
        ≡ c.sets processed (member_of x)
  moved_marks c x = elim (Option-cases (unsnoc (c.lists results))) [
    | inl e ↦ rw (e, moved) refl
    | inr (l, e) ↦ rw (e, moved) refl
  ]

  pop_result-Marked :
      (x : String) (ready : Bool) (now : ℕ) → Keeps (Marked x) (pop_result r ready now)
  unfolding pop_result Marked
  pop_result-Marked x ready now = guard->>-Keeps (Marked x) ready not_initialized _ (
      >>=-Keeps (Marked x) (call (r.rpoplpush results result_processing)) _
        (call-Keeps (Marked x) _ (λ s p.
          ap (λ c. c.sets processed (member_of x)) (r.rpoplpush_law results result_processing s)
          ∙ moved_marks (view s) x
          ∙ p))
        λ reply. required->>=-Keeps (Marked x) reply no_result _ λ raw _.
          required->>=-Keeps (Marked x) (r.unmarshal_response raw) unmarshal_failed _ λ t _.
            >>=-Keeps (Marked x) (record_started r result_started t.task_id now) _
              (record_started-Marked x t.task_id result_started now) λ _ w p. p)

  ack_result_script-Marked :
      (x task_id : String) (s : Store) → Marked x s → Marked x (ack_result_script r task_id s).1
  unfolding ack_result_script Marked remove_mention
  ack_result_script-Marked x task_id s p =
      elim (Option-cases (find_mention r task_id (r.lrange result_processing s))) [
        | inl e ↦
            rw (e, remove_mention)
              (ap (λ c. c.sets processed (member_of x)) (r.hdel_law result_started task_id s) ∙ p)
        | inr (raw, e) ↦
            rw (e, remove_mention)
              (ap (λ c. c.sets processed (member_of x))
                  (r.hdel_law result_started task_id (r.lrem result_processing raw s).1)
                ∙ ap (λ c. c.sets processed (member_of x)) (r.lrem_law result_processing raw s)
                ∙ p)
      ]

  -- A store in which a task id has been marked.
  abbrev marked_in : String → ℕ → Store → Store
  marked_in x ttl s = r.expire processed ttl (r.sadd processed (member_of x) s).1

  marked_in-Marked : (x : String) (ttl : ℕ) (s : Store) → Marked x (marked_in x ttl s)
  unfolding Marked
  marked_in-Marked x ttl s =
      ap (λ c. c.sets processed (member_of x))
        (r.expire_law processed ttl (r.sadd processed (member_of x) s).1)
      ∙ sadd_sets r processed (member_of x) (member_of x) s refl
      ∙ (rw (member_eq_refl (member_of x)) refl)

  process_one_passes_over :
      (ttl now : ℕ) (a : CrawlResponse) (s after : Store)
      → pop_result r true now (calm s) ≡ (ok a, calm after)
      → str_eq a.task_id "" ≡ false
      → is_failure a ≡ true
      → is_marked a.task_id after ≡ false
      → process_one r true ttl process_result now (calm s)
        ≡ (ok Verdict.done, calm (ack_result_script r a.task_id (marked_in a.task_id ttl after)).1)
  unfolding process_one after_pop was_processed is_processed process_popped process_result finish
      mark_processed ack_result call
  process_one_passes_over ttl now a s after p n f m =
      ap (λ o. after_pop r true ttl process_result o.0 o.1) p
      ∙ (rw (n, r.sismember_law processed (member_of a.task_id) after, m, f) (rw n (rw n refl)))

  -- On a network that does not fail: a result with a task id that is not marked yet and with an error is
  -- not processed, and its task id is marked as processed; in every store in which the id is marked, a
  -- result with the same task id, as that of a next try, is acknowledged and skipped, whatever items it has.
  pub process_one_blocks_retry :
      (ttl now : ℕ) (a : CrawlResponse) (s after : Store)
      → pop_result r true now (calm s) ≡ (ok a, calm after)
      → str_eq a.task_id "" ≡ false
      → is_failure a ≡ true
      → is_marked a.task_id after ≡ false
      → (later : ℕ) (b : CrawlResponse) (t popped : Store) → is_marked a.task_id t ≡ true
      → pop_result r true later (calm t) ≡ (ok b, calm popped)
      → b.task_id ≡ a.task_id
      → let out = process_one r true ttl process_result now (calm s) in
        (out.0 ≡ ok Verdict.done)
        × (is_marked a.task_id out.1.store ≡ true)
        × (process_one r true ttl process_result later (calm t)
            ≡ (ok Verdict.skipped, (ack_result r true (some b) (calm popped)).1))
  unfolding is_processed Marked call
  process_one_blocks_retry ttl now a s after p n f m later b t popped marked q same =
      let own : str_eq b.task_id "" ≡ false = ap (λ x. str_eq x "") same ∙ n in
      let kept : is_marked a.task_id popped ≡ true =
        subst (λ o. is_marked a.task_id o.1.store ≡ true) q
          (pop_result-Marked a.task_id true later (calm t) marked) in
      (
        ap (λ o. o.0) (process_one_passes_over ttl now a s after p n f m),
        subst (λ o. is_marked a.task_id o.1.store ≡ true)
            (sym (process_one_passes_over ttl now a s after p n f m))
            (ack_result_script-Marked a.task_id a.task_id (marked_in a.task_id ttl after)
              (marked_in-Marked a.task_id ttl after)),
        process_one_skips r true ttl process_result later b (calm t) (calm popped) (calm popped) q
            own
            (rw
              (
                own,
                r.sismember_law processed (member_of b.task_id) popped,
                ap (λ x. is_marked x popped) same,
                kept,
              )
              refl),
      )
