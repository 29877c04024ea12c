-- ===== src/Queue/Dedup/Operations.antt =====
-- Each operation of the task queue in internal/pkg/redisqueue/client.go is a chain of the calls of
-- `Calls`, whatever the network does and wherever the operation stops.
use animehot.Common.{
  ℕ, ◌≡◌, String, str_eq, Bool, not, Option, none, some, List, [], ◌∷◌, Option-cases, inl, inr, suc,
  zero, ◌==◌, ◌≤◌, ◌+◌, ◌&&◌, bit, refl, arith, if◌then◌else◌,
}
use animehot.Queue.Messages.{
  CrawlRequest, not_initialized, task_id_empty, ip_id_empty, task_is_nil, marshal_failed,
  task_exists, no_task, unmarshal_failed, exceeds_retries, Result, ok, err,
}
use animehot.Queue.Server.{
  Redis, tasks, processing, pending, task_started, ip, member_of, member_eq, HashKey, Stamp, number,
}
use animehot.Queue.Network.{
  World, guard->>-KeepsAt, call-KeepsAt, required->>=-KeepsAt, call->>=-KeepsAt, M, return, ignore,
  call, update, query, Keeps, call-Keeps, >>=-Keeps, required->>=-Keeps, guard->>-Keeps,
  attempt->>=-Keeps, guard-Keeps, ignore-Keeps, query-Keeps, if-Keeps,
}
use animehot.Queue.Tasks.{
  push_task, push_task_force, push_task_script, pop_task, record_started, ack_task, ack_task_script,
  remove_from_pending_set,
}
use animehot.Queue.Janitor.{
  RescueResult, rescue_script, rescue_overdue, rescue_task, rescue_tasks, clear_started,
  rescue_listed, rescue_started, rescue_stuck_tasks, tally, no_rescue,
}
use animehot.Queue.Recovery.{
  Recovered, out_of_fuel, recover_orphaned_tasks, recover, recover_reply, forget_started,
  task_id_of,
}
use animehot.Queue.Upkeep.{deduplicate_queue, remove_each, find_duplicates, count_removed}
use animehot.Queue.Views.{is_pending}
use animehot.Queue.Dedup.Calls.{Call, Reach, is_late, breach, breaches, retried, Reach-held}
use animehot.Queue.Dedup.Steps.{Deduped, held}

module _ (r : Redis) (start : r.Store) (allowed : ℕ → ℕ) where
  open r use {Raw, Store, view}

  -- Reached by calls with at most so many breaches for each IP.
  abbrev pub Reached : Store → Type 0
  Reached s = (h : Reach r start s) × ((n : ℕ) → breaches r n h ≤ allowed n)

  one_call :
      {A : Type 0} (f : Store → A × Store) (c : (s : Store) → Call r s (f s).1)
      → ((s : Store) (n : ℕ) → breach r n (c s) ≡ 0)
      → Keeps Reached (call f)
  one_call f c clean =
      call-Keeps Reached f (λ s (h, l). (Reach.next h (c s), λ n. omega (arith, l n, clean s n)))

  return-Keeps : {A : Type 0} (a : A) → Keeps Reached (return a)
  return-Keeps a w before = before

  pub push_task-Reach :
      (ready : Bool) (task : Option CrawlRequest) → Keeps Reached (push_task r ready task)
  unfolding push_task
  push_task-Reach ready task = required->>=-Keeps Reached task task_is_nil _ λ t _.
      guard->>-Keeps Reached ready not_initialized _ (
        guard->>-Keeps Reached (not (str_eq t.task_id "")) task_id_empty _ (
          guard->>-Keeps Reached (not (t.ip_id == 0)) ip_id_empty _ (
            required->>=-Keeps Reached (r.marshal_request t) marshal_failed _ λ raw e.
              >>=-Keeps Reached (call (push_task_script r (ip t.ip_id) raw)) _
                (one_call _ (λ s. Call.push t raw e) λ s n. refl)
                λ n. guard-Keeps Reached (not (n == 0)) task_exists)))

  record_started-Reach :
      (k : HashKey) (task_id : String) (now : ℕ) → Keeps Reached (record_started r k task_id now)
  unfolding record_started
  record_started-Reach k task_id now =
      if-Keeps Reached (str_eq task_id "") (return tt) _ (return-Keeps tt) (
        ignore-Keeps Reached (update (r.hset k task_id (number now)))
          (one_call _ (λ s. Call.note k task_id (number now)) λ s n. refl))

  pub pop_task-Reach : (ready : Bool) (now : ℕ) → Keeps Reached (pop_task r ready now)
  unfolding pop_task
  pop_task-Reach ready now = guard->>-Keeps Reached ready not_initialized _ (
      >>=-Keeps Reached (call (r.rpoplpush tasks processing)) _
        (one_call _ (λ s. Call.pop) λ s n. refl)
        λ reply. required->>=-Keeps Reached reply no_task _ λ raw _.
          required->>=-Keeps Reached (r.unmarshal_request raw) unmarshal_failed _ λ t _.
            >>=-Keeps Reached (record_started r task_started t.task_id now) _
              (record_started-Reach task_started t.task_id now) λ _. return-Keeps t)

  rescue_overdue-Reach :
      (raw : Raw) (t : CrawlRequest) (acc : RescueResult)
      → r.unmarshal_request raw ≡ some t
      → Keeps Reached (rescue_overdue r raw t acc)
  unfolding rescue_overdue
  rescue_overdue-Reach raw t acc old = elim (Option-cases (r.marshal_request (retried t))) [
    | inl e ↦ λ w before. rw (e, rescue_overdue) before
    | inr (new, e) ↦ λ w before.
        rw (e, rescue_overdue)
          (attempt->>=-Keeps Reached
            (call (
              rescue_script r raw t.task_id new (exceeds_retries (retried t).retry_count)
                (ip t.ip_id)))
            (λ reply. return (tally reply (exceeds_retries (retried t).retry_count) acc))
            (one_call _ (λ s. Call.rescue raw new t old e) λ s n. refl) (λ reply w' p. p) w before)
  ]

  rescue_task-Reach :
      (started : List (String × Stamp)) (now threshold : ℕ) (raw : Raw) (acc : RescueResult)
      → Keeps Reached (rescue_task r started now threshold raw acc)
  unfolding rescue_task
  rescue_task-Reach started now threshold raw acc w before =
      elim (Option-cases (r.unmarshal_request raw)) [
        | inl e ↦ rw (e, rescue_task) before
        | inr (t, e) ↦
            rw (e, rescue_task)
              (if-Keeps Reached _ (rescue_overdue r raw t acc) (return acc)
                (rescue_overdue-Reach raw t acc e) (return-Keeps acc) w before)
      ]

  rescue_tasks-Reach :
      (started : List (String × Stamp)) (now threshold : ℕ) (raws : List Raw) (acc : RescueResult)
      → Keeps Reached (rescue_tasks r started now threshold raws acc)
  unfolding rescue_tasks
  rescue_tasks-Reach started now threshold [] acc = return-Keeps acc
  rescue_tasks-Reach started now threshold (raw ∷ rest) acc =
      >>=-Keeps Reached (rescue_task r started now threshold raw acc) _
        (rescue_task-Reach started now threshold raw acc)
        (λ acc'. rescue_tasks-Reach started now threshold rest acc')

  clear_started-Reach :
      (k : HashKey) (started : List (String × Stamp)) → Keeps Reached (clear_started r k started)
  unfolding clear_started
  clear_started-Reach k [] = return-Keeps tt
  clear_started-Reach k ((task_id, stamp) ∷ rest) =
      >>=-Keeps Reached (ignore (update (r.hdel k task_id))) (λ _. clear_started r k rest)
        (ignore-Keeps Reached (update (r.hdel k task_id))
          (one_call _ (λ s. Call.forget k task_id) λ s n. refl))
        (λ _. clear_started-Reach k rest)

  rescue_listed-Reach :
      (started : List (String × Stamp)) (now threshold : ℕ) (raws : List Raw)
      → Keeps Reached (rescue_listed r started now threshold raws)
  unfolding rescue_listed
  rescue_listed-Reach started now threshold [] =
      >>=-Keeps Reached (clear_started r task_started started) (λ _. return no_rescue)
        (clear_started-Reach task_started started) (λ _ w p. p)
  rescue_listed-Reach started now threshold (raw ∷ rest) =
      rescue_tasks-Reach started now threshold (raw ∷ rest) no_rescue

  rescue_started-Reach :
      (now threshold : ℕ) (started : List (String × Stamp))
      → Keeps Reached (rescue_started r now threshold started)
  unfolding rescue_started
  rescue_started-Reach now threshold [] = return-Keeps no_rescue
  rescue_started-Reach now threshold (entry ∷ rest) =
      >>=-Keeps Reached (query (r.lrange processing)) _ (query-Keeps Reached (r.lrange processing))
        (λ raws. rescue_listed-Reach (entry ∷ rest) now threshold raws)

  pub rescue_stuck_tasks-Reach :
      (ready : Bool) (now threshold : ℕ) → Keeps Reached (rescue_stuck_tasks r ready now threshold)
  unfolding rescue_stuck_tasks
  rescue_stuck_tasks-Reach ready now threshold = guard->>-Keeps Reached ready not_initialized _ (
      >>=-Keeps Reached (query (r.hgetall task_started)) _
        (query-Keeps Reached (r.hgetall task_started))
        (λ started. rescue_started-Reach now threshold started))

  forget_started-Reach :
      (k : HashKey) (found : Option String) → Keeps Reached (forget_started r k found)
  unfolding forget_started
  forget_started-Reach k none = return-Keeps tt
  forget_started-Reach k (some task_id) =
      if-Keeps Reached (str_eq task_id "") (return tt) _ (return-Keeps tt) (
        ignore-Keeps Reached (update (r.hdel k task_id))
          (one_call _ (λ s. Call.forget k task_id) λ s n. refl))

  recover_reply-Reach :
      (moved : ℕ) (again : M Store Recovered) (reply : Result (Option Raw))
      → Keeps Reached again
      → Keeps Reached (recover_reply r task_started (task_id_of r) moved again reply)
  unfolding recover_reply
  recover_reply-Reach moved again (err e) h w p = p
  recover_reply-Reach moved again (ok none) h w p = p
  recover_reply-Reach moved again (ok (some raw)) h w p =
      >>=-Keeps Reached (forget_started r task_started (task_id_of r raw)) (λ _. again)
        (forget_started-Reach task_started (task_id_of r raw)) (λ _. h) w p

  recover-Reach :
      (fuel moved : ℕ)
      → Keeps Reached (recover r processing tasks task_started (task_id_of r) fuel moved)
  unfolding recover
  recover-Reach zero moved = return-Keeps out_of_fuel
  recover-Reach (suc fuel) moved =
      let rest = recover-Reach fuel (suc moved) in
      attempt->>=-Keeps Reached (call (r.rpoplpush processing tasks))
        (recover_reply r task_started (task_id_of r) moved
          (recover r processing tasks task_started (task_id_of r) fuel (suc moved)))
        (one_call _ (λ s. Call.restore) λ s n. refl)
        (λ reply. recover_reply-Reach moved _ reply rest)

  pub recover_orphaned_tasks-Reach :
      (fuel : ℕ) (ready : Bool) → Keeps Reached (recover_orphaned_tasks r fuel ready)
  unfolding recover_orphaned_tasks
  recover_orphaned_tasks-Reach fuel ready =
      guard->>-Keeps Reached ready not_initialized _ (recover-Reach fuel 0)

  remove_each-Reach : (raws : List Raw) (removed : ℕ) → Keeps Reached (remove_each r raws removed)
  unfolding remove_each
  remove_each-Reach [] removed = return-Keeps removed
  remove_each-Reach (raw ∷ rest) removed =
      attempt->>=-Keeps Reached (call (r.lrem tasks raw))
        (λ reply. remove_each r rest (count_removed r reply removed))
        (one_call _ (λ s. Call.drop raw) λ s n. refl)
        (λ reply. remove_each-Reach rest (count_removed r reply removed))

  pub deduplicate_queue-Reach : (ready : Bool) → Keeps Reached (deduplicate_queue r ready)
  unfolding deduplicate_queue
  deduplicate_queue-Reach ready = guard->>-Keeps Reached ready not_initialized _ (
      >>=-Keeps Reached (query (r.lrange tasks)) _ (query-Keeps Reached (r.lrange tasks))
        (λ raws. remove_each-Reach (find_duplicates r [] raws) 0))

-- Operations whose first call may be a breach.
module _ (r : Redis) (w : World r.Store) (allowed : ℕ → ℕ) where
  open r use {Raw, Store, view}

  abbrev After : Store → Type 0
  After = Reached r w.store allowed

  untouched : After w.store
  untouched = (Reach.here, λ n. omega arith)

  first_call : {u : Store} (c : Call r w.store u) → ((n : ℕ) → breach r n c ≤ allowed n) → After u
  first_call c h = (Reach.next Reach.here c, λ n. omega (arith, h n))

  remove_from_pending_set-Reach :
      (ready : Bool) (task_id : String)
      → ((n : ℕ) → bit (member_eq (member_of task_id) (ip n)) ≤ allowed n)
      → After (remove_from_pending_set r ready task_id w).1.store
  unfolding remove_from_pending_set
  remove_from_pending_set-Reach ready task_id h =
      guard->>-KeepsAt After w ready not_initialized _
        (guard->>-KeepsAt After w (not (str_eq task_id "")) task_id_empty _ (
          call-KeepsAt After w (λ s. (tt, r.srem pending (member_of task_id) s))
            (λ _. first_call (Call.unmark (member_of task_id)) h)))
        untouched

  ack_task-Reach :
      (ready : Bool) (t : CrawlRequest)
      → ((n : ℕ) → bit (is_late r t w.store && (t.ip_id == n)) ≤ allowed n)
      → After (ack_task r ready (some t) w).1.store
  unfolding ack_task
  ack_task-Reach ready t h =
      guard->>-KeepsAt After w ready not_initialized _
        (guard->>-KeepsAt After w (not (str_eq t.task_id "")) task_id_empty _ (
          call->>=-KeepsAt After w (ack_task_script r t.task_id (ip t.ip_id)) (λ _. return tt)
            (λ _. first_call (Call.ack t) h) (λ _ w' p. p)))
        untouched

  mark-Keeps :
      (t : CrawlRequest)
      → Keeps After (
          if str_eq t.task_id ""
          then return tt
          else ignore (call (r.sadd pending (member_of t.task_id))))
  mark-Keeps t =
      if-Keeps After (str_eq t.task_id "") (return tt) _ (λ v p. p)
        (ignore-Keeps After (call (r.sadd pending (member_of t.task_id))) (
          call-Keeps After (r.sadd pending (member_of t.task_id)) (λ s (g, l).
            (Reach.next g (Call.mark (member_of t.task_id)), λ n. omega (arith, l n)))))

  push_task_force-Reach :
      (ready : Bool) (task : Option CrawlRequest)
      → ((t : CrawlRequest) → task ≡ some t → (n : ℕ) → bit (t.ip_id == n) ≤ allowed n)
      → After (push_task_force r ready task w).1.store
  unfolding push_task_force
  push_task_force-Reach ready task h =
      required->>=-KeepsAt After w task task_is_nil _
        (λ t same. guard->>-KeepsAt After w ready not_initialized _ (
          required->>=-KeepsAt After w (r.marshal_request t) marshal_failed _ λ raw e.
            call->>=-KeepsAt After w (λ s. (tt, r.lpush tasks raw s)) _
              (λ _. first_call (Call.force t raw e) (h t same)) (λ _. mark-Keeps t)))
        untouched

-- The operations on the task queue, as a client may start them.
pub data Operation : Type 0 where
  pushes : Bool → Option CrawlRequest → Operation
  forces : Bool → Option CrawlRequest → Operation
  pops : Bool → ℕ → Operation
  acks : Bool → CrawlRequest → Operation
  rescues : Bool → ℕ → ℕ → Operation
  recovers : ℕ → Bool → Operation
  dedups : Bool → Operation
  removes : Bool → String → Operation

module _ (r : Redis) where
  abbrev pub perform : Operation → World r.Store → World r.Store
  perform (pushes ready task) w = (push_task r ready task w).1
  perform (forces ready task) w = (push_task_force r ready task w).1
  perform (pops ready now) w = (pop_task r ready now w).1
  perform (acks ready t) w = (ack_task r ready (some t) w).1
  perform (rescues ready now threshold) w = (rescue_stuck_tasks r ready now threshold w).1
  perform (recovers fuel ready) w = (recover_orphaned_tasks r fuel ready w).1
  perform (dedups ready) w = (deduplicate_queue r ready w).1
  perform (removes ready text) w = (remove_from_pending_set r ready text w).1

  -- How many tasks more an operation may give an IP: one for a forced push of its task, a late
  -- acknowledgement of its task, and the removal of its mark; none for the others.
  abbrev pub allowance : Operation → r.Store → ℕ → ℕ
  allowance (forces ready none) s n = 0
  allowance (forces ready (some t)) s n = bit (t.ip_id == n)
  allowance (acks ready t) s n = bit (is_late r t s && (t.ip_id == n))
  allowance (removes ready text) s n = bit (member_eq (member_of text) (ip n))
  allowance _ s n = 0

  -- Whatever the network does, every operation on the task queue, forced pushes included, changes the
  -- server by a sequence of the calls of `Call` and nothing else, and the calls breach the mark of an IP
  -- at most once, namely in a forced push of its task, in an acknowledgement of its task that takes none
  -- out of processing, and in the removal of its mark.
  pub perform-Reach :
      (o : Operation) (w : World r.Store)
      → (h : Reach r w.store (perform o w).store) × ((n : ℕ)
          → breaches r n h ≤ allowance o w.store n)
  perform-Reach (acks ready t) w =
      ack_task-Reach r w (allowance (acks ready t) w.store) ready t (λ n. omega arith)
  perform-Reach (pushes ready task) w =
      push_task-Reach r w.store (λ n. 0) ready task w (Reach.here, λ n. omega arith)
  perform-Reach (forces ready none) w = push_task_force-Reach r w (λ n. 0) ready none (λ t e. cc)
  perform-Reach (forces ready (some t)) w =
      push_task_force-Reach r w (λ n. bit (t.ip_id == n)) ready (some t)
        (λ u e n. ground (arith, e))
  perform-Reach (pops ready now) w =
      pop_task-Reach r w.store (λ n. 0) ready now w (Reach.here, λ n. omega arith)
  perform-Reach (rescues ready now threshold) w =
      rescue_stuck_tasks-Reach r w.store (λ n. 0) ready now threshold w
        (Reach.here, λ n. omega arith)
  perform-Reach (recovers fuel ready) w =
      recover_orphaned_tasks-Reach r w.store (λ n. 0) fuel ready w (Reach.here, λ n. omega arith)
  perform-Reach (dedups ready) w =
      deduplicate_queue-Reach r w.store (λ n. 0) ready w (Reach.here, λ n. omega arith)
  perform-Reach (removes ready text) w =
      remove_from_pending_set-Reach r w (allowance (removes ready text) w.store) ready text
        (λ n. omega arith)

  -- Whatever the network does: if every IP has at most one task waiting or in processing, marked as
  -- pending, then behind an operation on the task queue an IP has at most one such task, if it is marked,
  -- or none, if it is not, and one more only behind a forced push of its task, an acknowledgement of its
  -- task that takes none out of processing, or the removal of its mark by `RemoveFromPendingSet`.
  pub perform-held :
      (o : Operation) (w : World r.Store) (n : ℕ)
      → Deduped r (r.view w.store)
      → let after = perform o w in
        held r n (r.view after.store)
        ≤ bit (is_pending r (ip n) after.store) + allowance o w.store n
  perform-held o w n d = let (h, l) = perform-Reach o w in omega (arith, Reach-held r h n d, l n)

  pub push_task-Deduped :
      (ready : Bool) (t : CrawlRequest)
      → Keeps (λ s. Deduped r (r.view s)) (push_task r ready (some t))
  push_task-Deduped ready t w d n = omega (arith, perform-held (pushes ready (some t)) w n d)
