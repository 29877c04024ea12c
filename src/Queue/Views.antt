-- ===== src/Queue/Views.antt =====
-- What the Lua scripts of internal/pkg/redisqueue/client.go do to the observable contents.
use animehot.Common.{
  ==_refl, ◌+◌, ◌-◌, ◌≡◌, refl, ap, ◌∙◌, inl, inr, String, Bool, true, false, Option, none, some,
  ◌==◌, if◌then◌else◌, ◌⊎◌, ==_iff, eq_iff, remove_first, occurs, Bool-cases, Option-cases,
}
use animehot.Queue.Server.{
  Redis, Contents, ListKey, tasks, processing, dead, pending, task_started, Member, SetKey, ip, id,
  member_eq, set_index, with_list, pushed, with_member, with_field,
}
use animehot.Queue.Tasks.{push_task_script, find_mention, remove_mention, ack_task_script}
use animehot.Queue.Janitor.{rescue_script}

module _ (r : Redis) where
  open r use {Raw, Store, view}

  abbrev pub is_pending : Member → Store → Bool
  is_pending key s = (view s).sets pending key

  -- The task is pushed, and its key is marked pending.
  abbrev pub task_pushed : Member → Raw → Contents Raw → Contents Raw
  task_pushed key raw c = pushed tasks raw (with_member pending key true (c.cards pending + 1) c)

  pub push_task_script-fresh :
      (key : Member) (raw : Raw) (s : Store)
      → is_pending key s ≡ false
      → (view (push_task_script r key raw s).1 ≡ task_pushed key raw (view s))
        × ((push_task_script r key raw s).0 ≡ 1)
  unfolding push_task_script
  push_task_script-fresh key raw s e =
      let reply : (r.sadd pending key s).0 ≡ 1 = r.sadd_reply pending key s ∙ (rw e refl) in
      let marked : view (r.sadd pending key s).1
          ≡ with_member pending key true ((view s).cards pending + 1) (view s) =
        rw (r.sadd_law pending key s, e) refl in
      rw reply (r.lpush_law tasks raw (r.sadd pending key s).1 ∙ ap (pushed tasks raw) marked, refl)

  pub push_task_script-pending :
      (key : Member) (raw : Raw) (s : Store)
      → is_pending key s ≡ true
      → (view (push_task_script r key raw s).1 ≡ view s) × ((push_task_script r key raw s).0 ≡ 0)
  unfolding push_task_script
  push_task_script-pending key raw s e =
      let reply : (r.sadd pending key s).0 ≡ 0 = r.sadd_reply pending key s ∙ (rw e refl) in
      rw reply (r.sadd_law pending key s ∙ (rw e refl), refl)

  abbrev pub mentioned : ListKey → String → Store → Option Raw
  mentioned k task_id s = find_mention r task_id ((view s).lists k)

  abbrev pub taken_from : ListKey → Raw → Contents Raw → Contents Raw
  taken_from k raw c = with_list k (remove_first r.raw_discrete raw (c.lists k)) c

  pub remove_mention-none :
      (k : ListKey) (task_id : String) (s : Store)
      → mentioned k task_id s ≡ none
      → remove_mention r k task_id s ≡ (0, s)
  unfolding remove_mention
  remove_mention-none k task_id s e = rw (r.lrange_law k s, e, remove_mention)

  pub remove_mention-some :
      (k : ListKey) (task_id : String) (s : Store) (raw : Raw)
      → mentioned k task_id s ≡ some raw
      → remove_mention r k task_id s ≡ (1, (r.lrem k raw s).1)
  unfolding remove_mention
  remove_mention-some k task_id s raw e = rw (r.lrange_law k s, e, remove_mention)

  abbrev without_member : Member → Contents Raw → Contents Raw
  without_member key c =
      with_member pending key false
        (if c.sets pending key then c.cards pending - 1 else c.cards pending) c

  -- The key is no longer pending, and the start of the task is forgotten.
  abbrev pub cleared : String → Member → Contents Raw → Contents Raw
  cleared task_id key c = with_field task_started task_id none (without_member key c)

  cleared_view :
      (task_id : String) (key : Member) (s : Store)
      → view (r.hdel task_started task_id (r.srem pending key s)) ≡ cleared task_id key (view s)
  cleared_view task_id key s =
      rw (r.hdel_law task_started task_id (r.srem pending key s), r.srem_law pending key s) refl

  pub ack_task_script-none :
      (task_id : String) (key : Member) (s : Store)
      → mentioned processing task_id s ≡ none
      → view (ack_task_script r task_id key s).1 ≡ cleared task_id key (view s)
  unfolding ack_task_script
  ack_task_script-none task_id key s e =
      rw (remove_mention-none processing task_id s e) (cleared_view task_id key s)

  pub ack_task_script-some :
      (task_id : String) (key : Member) (s : Store) (raw : Raw)
      → mentioned processing task_id s ≡ some raw
      → view (ack_task_script r task_id key s).1
        ≡ cleared task_id key (taken_from processing raw (view s))
  unfolding ack_task_script
  ack_task_script-some task_id key s raw e =
      rw
        (
          remove_mention-some processing task_id s raw e,
          cleared_view task_id key (r.lrem processing raw s).1,
          r.lrem_law processing raw s,
        )
        refl

  pub rescue_script-gone :
      (raw : Raw) (task_id : String) (new : Raw) (is_dead : Bool) (key : Member) (s : Store)
      → occurs r.raw_discrete raw ((view s).lists processing) ≡ 0
      → view (rescue_script r raw task_id new is_dead key s).1 ≡ taken_from processing raw (view s)
  unfolding rescue_script
  rescue_script-gone raw task_id new is_dead key s e =
      rw (r.lrem_count processing raw s, e, rescue_script) (r.lrem_law processing raw s)

  pub rescue_script-retry :
      (raw : Raw) (task_id : String) (new : Raw) (key : Member) (s : Store)
      → occurs r.raw_discrete raw ((view s).lists processing) ≡ 1
      → view (rescue_script r raw task_id new false key s).1
        ≡ with_field task_started task_id none
            (pushed tasks new (taken_from processing raw (view s)))
  unfolding rescue_script
  rescue_script-retry raw task_id new key s e =
      rw
        (
          r.lrem_count processing raw s,
          e,
          r.hdel_law task_started task_id (r.lpush tasks new (r.lrem processing raw s).1),
          r.lpush_law tasks new (r.lrem processing raw s).1,
          r.lrem_law processing raw s,
        )
        refl

  pub rescue_script-dead :
      (raw : Raw) (task_id : String) (new : Raw) (key : Member) (s : Store)
      → occurs r.raw_discrete raw ((view s).lists processing) ≡ 1
      → view (rescue_script r raw task_id new true key s).1
        ≡ cleared task_id key (pushed dead new (taken_from processing raw (view s)))
  unfolding rescue_script
  rescue_script-dead raw task_id new key s e =
      rw
        (
          r.lrem_count processing raw s,
          e,
          cleared_view task_id key (r.lpush dead new (r.lrem processing raw s).1),
          r.lpush_law dead new (r.lrem processing raw s).1,
          r.lrem_law processing raw s,
        )
        refl

pub member_eq_refl : (m : Member) → member_eq m m ≡ true
member_eq_refl (ip n) = ==_refl n
member_eq_refl (id s) = (eq_iff s s).1 refl

member_eq-eq : (m x : Member) → member_eq m x ≡ true → m ≡ x
member_eq-eq (ip a) (ip b) e = ap ip ((==_iff a b).0 e)
member_eq-eq (ip a) (id t) e = cc
member_eq-eq (id s) (ip b) e = cc
member_eq-eq (id s) (id t) e = ap id ((eq_iff s t).0 e)

module _ (r : Redis) where
  open r use {Raw, Store, view}

  -- Membership after an addition.
  pub sadd_sets :
      (k : SetKey) (m x : Member) (s : Store)
      → (set_index k == set_index k) ≡ true
      → (view (r.sadd k m s).1).sets k x ≡ (if member_eq m x then true else (view s).sets k x)
  sadd_sets k m x s same = elim (Bool-cases ((view s).sets k m)) [
    | inl old ↦ rw (r.sadd_law k m s, old) (already (Bool-cases (member_eq m x)) old)
    | inr new ↦ rw (r.sadd_law k m s, new, same) refl
  ]
    where
      already :
          (member_eq m x ≡ true) ⊎ (member_eq m x ≡ false)
          → (view s).sets k m ≡ true
          → (view s).sets k x ≡ (if member_eq m x then true else (view s).sets k x)
      already (inl e) old = rw e (rw (member_eq-eq m x e) at old)
      already (inr e) old = rw e refl

  -- The marks of the pending set after an acknowledgement, whatever is in processing.
  pub ack_task_script-marks :
      (task_id : String) (key x : Member) (s : Store)
      → is_pending r x (ack_task_script r task_id key s).1
        ≡ (if member_eq key x then false else is_pending r x s)
  ack_task_script-marks task_id key x s = elim (Option-cases (mentioned r processing task_id s)) [
    | inl e ↦ ap (λ c. c.sets pending x) (ack_task_script-none r task_id key s e)
    | inr (raw, e) ↦ ap (λ c. c.sets pending x) (ack_task_script-some r task_id key s raw e)
  ]
