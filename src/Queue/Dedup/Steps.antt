-- ===== src/Queue/Dedup/Steps.antt =====
-- Which steps of the server keep an IP at one task: the Lua scripts and commands of
-- internal/pkg/redisqueue/client.go, one at a time.
use animehot.Common.{
  ℕ, ◌+◌, ◌≤◌, ◌≡◌, refl, inl, inr, String, false, not, ◌&&◌, none, some, ◌==◌, bit, total,
  total-unsnoc, unsnoc, remove_first-cases, total-remove_first-le, occurs, arith, Option-cases,
}
use animehot.Queue.Messages.{CrawlRequest}
use animehot.Queue.Server.{
  Redis, Contents, tasks, processing, pending, task_started, ip, pushed, moved, with_field,
}
use animehot.Queue.Views.{task_pushed, taken_from, cleared}

module _ (r : Redis) where
  open r use {Raw, Store, view}

  -- Whether a text is a task of the IP.
  unfoldable pub owns : ℕ → Raw → ℕ
  owns n raw = elim (r.unmarshal_request raw) [ none ↦ 0 | some t ↦ bit (t.ip_id == n) ]

  -- The IP's tasks that wait or are in processing.
  abbrev pub held : ℕ → Contents Raw → ℕ
  held n c = total (owns n) (c.lists tasks) + total (owns n) (c.lists processing)

  -- At most so many more tasks of the IP than its mark in the pending set allows.
  abbrev pub Within : ℕ → ℕ → Contents Raw → Type 0
  Within n k c = held n c ≤ bit (c.sets pending (ip n)) + k

  abbrev pub Deduped : Contents Raw → Type 0
  Deduped c = (n : ℕ) → held n c ≤ bit (c.sets pending (ip n))

  pub owns_task :
      (n : ℕ) (raw : Raw) (t : CrawlRequest)
      → r.unmarshal_request raw ≡ some t
      → owns n raw ≡ bit (t.ip_id == n)
  unfolding owns
  owns_task n raw t e = rw (e, owns) refl

  module _ (n k : ℕ) where
    pub push-Within :
        (raw : Raw) (t : CrawlRequest) (c : Contents Raw)
        → r.unmarshal_request raw ≡ some t
        → c.sets pending (ip t.ip_id) ≡ false
        → Within n k c
        → Within n k (task_pushed r (ip t.ip_id) raw c)
    push-Within raw t c decodes fresh d = ground (arith, d, owns_task n raw t decodes, fresh)

    -- Moving the last entry between the two lists.
    pub pop-Within : (c : Contents Raw) → Within n k c → Within n k (moved tasks processing c)
    pop-Within c d = elim (Option-cases (unsnoc (c.lists tasks))) [
      | inl e ↦ rw (e, moved) d
      | inr ((rest, last), e) ↦
          rw (e, moved) (omega (arith, d, total-unsnoc (owns n) (c.lists tasks) rest last e))
    ]

    pub recover-Within : (c : Contents Raw) → Within n k c → Within n k (moved processing tasks c)
    recover-Within c d = elim (Option-cases (unsnoc (c.lists processing))) [
      | inl e ↦ rw (e, moved) d
      | inr ((rest, last), e) ↦
          rw (e, moved) (omega (arith, d, total-unsnoc (owns n) (c.lists processing) rest last e))
    ]

    pub remove-Within :
        (raw : Raw) (c : Contents Raw)
        → Within n k c
        → Within n k (taken_from r processing raw c) × Within n k (taken_from r tasks raw c)
    remove-Within raw c d = (
      omega (arith, d, total-remove_first-le r.raw_discrete (owns n) raw (c.lists processing)),
      omega (arith, d, total-remove_first-le r.raw_discrete (owns n) raw (c.lists tasks)),
    )

    -- A task in processing is taken out together with its key.
    pub release-Within :
        (raw : Raw) (t : CrawlRequest) (task_id : String) (c : Contents Raw)
        → r.unmarshal_request raw ≡ some t
        → occurs r.raw_discrete raw (c.lists processing) ≡ 1
        → Within n k c
        → Within n k (cleared r task_id (ip t.ip_id) (taken_from r processing raw c))
    release-Within raw t task_id c decodes present d = ground (
      arith,
      d,
      owns_task n raw t decodes,
      remove_first-cases r.raw_discrete (owns n) raw (c.lists processing),
    )

    -- A task in processing is replaced by its next try in the queue.
    pub retry-Within :
        (raw new : Raw) (t t' : CrawlRequest) (task_id : String) (c : Contents Raw)
        → r.unmarshal_request raw ≡ some t
        → r.unmarshal_request new ≡ some t'
        → t'.ip_id ≡ t.ip_id
        → occurs r.raw_discrete raw (c.lists processing) ≡ 1
        → Within n k c
        → Within n k (
            with_field task_started task_id none (pushed tasks new (taken_from r processing raw c)))
    retry-Within raw new t t' task_id c old next same present d = ground (
      arith,
      d,
      owns_task n raw t old,
      owns_task n new t' next,
      remove_first-cases r.raw_discrete (owns n) raw (c.lists processing),
    )

    -- An acknowledgement takes out the text it finds and clears the key of its own IP.
    pub ack-Within :
        (raw : Raw) (t : CrawlRequest) (task_id : String) (c : Contents Raw)
        → occurs r.raw_discrete raw (c.lists processing) ≡ 1
        → Within n k c
        → Within n
            (k + bit (not (owns t.ip_id raw == 1) && (t.ip_id == n)))
            (cleared r task_id (ip t.ip_id) (taken_from r processing raw c))
    ack-Within raw t task_id c present d =
        ground (arith, d, remove_first-cases r.raw_discrete (owns n) raw (c.lists processing))

    -- One that finds no text clears the key all the same.
    pub late-Within :
        (t : CrawlRequest) (task_id : String) (c : Contents Raw)
        → Within n k c
        → Within n (k + bit (t.ip_id == n)) (cleared r task_id (ip t.ip_id) c)
    late-Within t task_id c d = ground (arith, d)

    -- A push without a look at the pending set.
    pub force-Within :
        (raw : Raw) (t : CrawlRequest) (c : Contents Raw)
        → r.unmarshal_request raw ≡ some t
        → Within n k c
        → Within n (k + bit (t.ip_id == n)) (pushed tasks raw c)
    force-Within raw t c decodes d = ground (arith, d, owns_task n raw t decodes)
