-- ===== src/Queue/Dedup/Calls.antt =====
-- Every order in which the server can run the calls that the clients of
-- internal/pkg/redisqueue/client.go make: the scheduler, the crawlers and the janitor act at
-- once, and the server runs one command or script at a time.
use animehot.Common.{
  ℕ, ◌+◌, ◌≤◌, ◌==◌, ◌&&◌, not, bit, ◌≡◌, refl, ◌⊎◌, inl, inr, String, Bool, true, false, none,
  some, List, [], ◌∷◌, occurs, remove_first-cases, arith, Bool-cases, Option-cases, Option, subst,
  sym, if_pos, if_neg,
}
use animehot.Queue.Messages.{CrawlRequest, increment, exceeds_retries}
use animehot.Queue.Server.{
  Redis, Contents, tasks, processing, pending, ip, Member, member_eq, Stamp, HashKey,
}
use animehot.Queue.Tasks.{push_task_script, find_mention, ack_task_script}
use animehot.Queue.Janitor.{rescue_script}
use animehot.Queue.Views.{
  push_task_script-fresh, push_task_script-pending, ack_task_script-some, ack_task_script-none,
  rescue_script-gone, rescue_script-retry, rescue_script-dead, is_pending, mentioned,
}
use animehot.Queue.Dedup.Steps.{
  Deduped, Within, held, owns, push-Within, pop-Within, recover-Within, remove-Within,
  release-Within, retry-Within, ack-Within, late-Within, force-Within,
}

-- The message of the next try.
abbrev pub retried : CrawlRequest → CrawlRequest
retried t = record t { retry_count = increment t.retry_count }

pub data Call (r : Redis) (s : r.Store) : r.Store → Type 0 where
  read : Call r s s
  push :
      (t : CrawlRequest) (raw : r.Raw)
      → r.marshal_request t ≡ some raw
      → Call r s (push_task_script r (ip t.ip_id) raw s).1
  pop : Call r s (r.rpoplpush tasks processing s).1
  restore : Call r s (r.rpoplpush processing tasks s).1
  force :
      (t : CrawlRequest) (raw : r.Raw)
      → r.marshal_request t ≡ some raw
      → Call r s (r.lpush tasks raw s)
  ack : (t : CrawlRequest) → Call r s (ack_task_script r t.task_id (ip t.ip_id) s).1
  rescue :
      (raw new : r.Raw) (t : CrawlRequest)
      → r.unmarshal_request raw ≡ some t
      → r.marshal_request (retried t) ≡ some new
      → Call r s
          (rescue_script r raw t.task_id new
            (exceeds_retries (retried t).retry_count)
            (ip t.ip_id)
            s).1
  drop : (raw : r.Raw) → Call r s (r.lrem tasks raw s).1
  note : (k : HashKey) (f : String) (v : Stamp) → Call r s (r.hset k f v s)
  forget : (k : HashKey) (f : String) → Call r s (r.hdel k f s)
  mark : (m : Member) → Call r s (r.sadd pending m s).1
  unmark : (m : Member) → Call r s (r.srem pending m s)

pub data Reach (r : Redis) (s : r.Store) : r.Store → Type 0 where
  here : Reach r s s
  next : {t u : r.Store} → Reach r s t → Call r t u → Reach r s u

module _ (r : Redis) where
  open r use {Raw, Store, view}

  pub occurs-cases :
      (raw : Raw) (xs : List Raw)
      → (occurs r.raw_discrete raw xs ≡ 0) ⊎ (occurs r.raw_discrete raw xs ≡ 1)
  occurs-cases raw xs = ground (arith, remove_first-cases r.raw_discrete (λ x. 0) raw xs)

  -- What the script finds in a list is in it.
  find_mention-occurs :
      (task_id : String) (xs : List Raw) (raw : Raw)
      → find_mention r task_id xs ≡ some raw
      → occurs r.raw_discrete raw xs ≡ 1
  unfolding find_mention
  find_mention-occurs task_id [] raw e = cc
  find_mention-occurs task_id (x ∷ xs) raw e = elim (r.raw_discrete x raw) [
    | yes same ↦ rw (if_pos _ same) refl
    | no other ↦ rw (if_neg _ other) (ground (arith, find_mention-occurs task_id xs raw))
  ]

  abbrev pub takes_none : CrawlRequest → Option Raw → Bool
  takes_none t none = true
  takes_none t (some raw) = not (owns r t.ip_id raw == 1)

  -- Whether an acknowledgement clears the key of its IP and takes out no task of the IP.
  abbrev pub is_late : CrawlRequest → Store → Bool
  is_late t s = takes_none t (mentioned r processing t.task_id s)

  -- What can cost an IP its place as the only one: a forced push of a task of the IP, a late
  -- acknowledgement of one, and the removal of the IP's mark.
  abbrev pub breach : ℕ → {s u : Store} → Call r s u → ℕ
  breach n (force t raw e) = bit (t.ip_id == n)
  breach n {s} (ack t) = bit (is_late t s && (t.ip_id == n))
  breach n (unmark m) = bit (member_eq m (ip n))
  breach n _ = 0

  abbrev pub breaches : ℕ → {s u : Store} → Reach r s u → ℕ
  breaches n here = 0
  breaches n (next before c) = breaches n before + breach n c

  module _ (n k : ℕ) where
    push-call :
        (t : CrawlRequest) (raw : Raw) (s : Store)
        → r.marshal_request t ≡ some raw
        → Within r n k (view s)
        → Within r n k (view (push_task_script r (ip t.ip_id) raw s).1)
    push-call t raw s e d = elim (Bool-cases (is_pending r (ip t.ip_id) s)) [
      | inl old ↦ rw (push_task_script-pending r (ip t.ip_id) raw s old).0 d
      | inr new ↦
          rw (push_task_script-fresh r (ip t.ip_id) raw s new).0
            (push-Within r n k raw t (view s) (r.request_roundtrip t raw e) new d)
    ]

    ack-call :
        (t : CrawlRequest) (s : Store)
        → Within r n k (view s)
        → Within r n
            (k + bit (is_late t s && (t.ip_id == n)))
            (view (ack_task_script r t.task_id (ip t.ip_id) s).1)
    ack-call t s d = elim (Option-cases (mentioned r processing t.task_id s)) [
      | inl e ↦ subst (Allowed t s) (sym e) (
          rw (ack_task_script-none r t.task_id (ip t.ip_id) s e)
            (late-Within r n k t t.task_id (view s) d))
      | inr (raw, e) ↦ subst (Allowed t s) (sym e) (
          rw (ack_task_script-some r t.task_id (ip t.ip_id) s raw e) (
            ack-Within r n k raw t t.task_id (view s)
              (find_mention-occurs t.task_id ((view s).lists processing) raw e) d))
    ]
      where
        Allowed : CrawlRequest → Store → Option Raw → Type 0
        Allowed t s o =
            Within r n (k + bit (takes_none t o && (t.ip_id == n)))
              (view (ack_task_script r t.task_id (ip t.ip_id) s).1)

    rescue-call :
        (raw new : Raw) (t : CrawlRequest) (s : Store) (is_dead : Bool)
        → r.unmarshal_request raw ≡ some t
        → r.marshal_request (retried t) ≡ some new
        → Within r n k (view s)
        → Within r n k (view (rescue_script r raw t.task_id new is_dead (ip t.ip_id) s).1)
    rescue-call raw new t s is_dead old encodes d =
        elim (occurs-cases raw ((view s).lists processing)) [
          | inl gone ↦
              rw (rescue_script-gone r raw t.task_id new is_dead (ip t.ip_id) s gone)
                (remove-Within r n k raw (view s) d).0
          | inr there ↦ by_verdict is_dead there
        ]
      where
        by_verdict :
            (b : Bool)
            → occurs r.raw_discrete raw ((view s).lists processing) ≡ 1
            → Within r n k (view (rescue_script r raw t.task_id new b (ip t.ip_id) s).1)
        by_verdict true there =
            rw (rescue_script-dead r raw t.task_id new (ip t.ip_id) s there)
              (release-Within r n k raw t t.task_id (view s) old there d)
        by_verdict false there = rw (rescue_script-retry r raw t.task_id new (ip t.ip_id) s there) (
            retry-Within r n k raw new t (retried t) t.task_id (view s) old
              (r.request_roundtrip (retried t) new encodes) refl there d)

    mark-call :
        (m : Member) (s : Store)
        → Within r n k (view s)
        → Within r n k (view (r.sadd pending m s).1)
    mark-call m s d = elim (Bool-cases (is_pending r m s)) [
      | inl e ↦ rw (r.sadd_law pending m s, e) d
      | inr e ↦ rw (r.sadd_law pending m s, e) (ground (arith, d))
    ]

    unmark-call :
        (m : Member) (s : Store)
        → Within r n k (view s)
        → Within r n (k + bit (member_eq m (ip n))) (view (r.srem pending m s))
    unmark-call m s d = rw (r.srem_law pending m s) (ground (arith, d))

    widen : (c : Contents Raw) → Within r n k c → Within r n (k + 0) c
    widen c d = omega (arith, d)

  Call-Within :
      (n k : ℕ) {s u : Store} (c : Call r s u)
      → Within r n k (view s)
      → Within r n (k + breach n c) (view u)
  Call-Within n k {s} read d = widen n k (view s) d
  Call-Within n k {s} (push t raw e) d =
      widen n k (view (push_task_script r (ip t.ip_id) raw s).1) (push-call n k t raw s e d)
  Call-Within n k {s} pop d =
      widen n k (view (r.rpoplpush tasks processing s).1)
        (rw (r.rpoplpush_law tasks processing s) (pop-Within r n k (view s) d))
  Call-Within n k {s} restore d =
      widen n k (view (r.rpoplpush processing tasks s).1)
        (rw (r.rpoplpush_law processing tasks s) (recover-Within r n k (view s) d))
  Call-Within n k {s} (force t raw e) d =
      rw (r.lpush_law tasks raw s)
        (force-Within r n k raw t (view s) (r.request_roundtrip t raw e) d)
  Call-Within n k {s} (ack t) d = ack-call n k t s d
  Call-Within n k {s} (rescue raw new t old e) d =
      widen n k
        (view
          (rescue_script r raw t.task_id new (exceeds_retries (retried t).retry_count) (ip t.ip_id)
            s).1)
        (rescue-call n k raw new t s _ old e d)
  Call-Within n k {s} (drop raw) d =
      widen n k (view (r.lrem tasks raw s).1)
        (rw (r.lrem_law tasks raw s) (remove-Within r n k raw (view s) d).1)
  Call-Within n k {s} (note h f v) d = widen n k (view (r.hset h f v s)) (rw (r.hset_law h f v s) d)
  Call-Within n k {s} (forget h f) d = widen n k (view (r.hdel h f s)) (rw (r.hdel_law h f s) d)
  Call-Within n k {s} (mark m) d = widen n k (view (r.sadd pending m s).1) (mark-call n k m s d)
  Call-Within n k {s} (unmark m) d = unmark-call n k m s d

  -- In every order of the server's calls, forced pushes and late acknowledgements among them: if every IP
  -- has at most one task that waits or is in processing, marked as pending, then afterwards an IP has at
  -- most one such task, if it is marked, or none, if it is not, and one more for each forced push of its
  -- tasks, each acknowledgement of its tasks that takes none of them out of processing, and each removal
  -- of its mark by hand.
  pub Reach-held :
      {s u : Store} (h : Reach r s u) (n : ℕ)
      → Deduped r (view s)
      → held r n (view u) ≤ bit (is_pending r (ip n) u) + breaches n h
  Reach-held {s} here n d = omega (arith, d n)
  Reach-held {s} (next {t} {u} before c) n d =
      omega (arith, Call-Within n (breaches n before) c (Reach-held before n d))
