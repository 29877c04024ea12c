-- ===== src/Tracker/Laws.antt =====
-- What `UpdateItemState` of internal/analyzer/state_machine.go does to the state of one item, and
-- what happens when it is called again.
use animehot.Common.{
  ℕ, str_eq, ◌≡◌, refl, ap, ◌∙◌, true, false, Option, none, some, [], ◌∷◌, ==_refl, eq_iff, ◌+◌,
  ltb, if◌then◌else◌, Bool-cases, inl, inr,
}
use animehot.Queue.Messages.{Item, ItemStatus, ok, err, redis_error}
use animehot.Queue.Network.{Fate, World, calm}
use animehot.Tracker.Server.{
  ItemServer, ItemKey, Write, Fields, Items, key_eq, written, living, merged,
}
use animehot.Tracker.Transitions.{
  TrackedItemState, StateTransition, status_to_string, parse_hash_result, determine_transition,
  seen_transition, read_number, read_text,
}
use animehot.Tracker.Machine.{
  Ttls, item_key, write_of, save, get_item_state, track_item, update_item_state, get_ttl_for_status,
}
use animehot.Tracker.Sequential.{known}
use animehot.Queue.Network.{call}

-- The state that an update leaves, given the one that was known.
abbrev pub updated : Option TrackedItemState → Item → ℕ → TrackedItemState
updated none item now = record {
  status = status_to_string item.status;
  price = item.price;
  first_seen = now;
  last_seen = now;
}
updated (some old) item now = record old {
  status = status_to_string item.status;
  price = item.price;
  last_seen = now;
}

key_eq_refl : (k : ItemKey) → key_eq k k ≡ true
key_eq_refl k = rw (==_refl k.ip_id) ((eq_iff k.source_id k.source_id).1 refl)

parse-merged :
    (old : Option Fields) (item : Item) (now : ℕ)
    → parse_hash_result (some (merged (write_of (parse_hash_result old) item now) old))
      ≡ some (updated (parse_hash_result old) item now)
unfolding parse_hash_result write_of read_number read_text
parse-merged none item now = refl
parse-merged (some f) item now = refl

-- The item is seen again as it was.
same_again :
    (ip : ℕ) (item : Item) (status : ItemStatus) (old : TrackedItemState)
    → old.status ≡ status_to_string status
    → old.price ≡ item.price
    → seen_transition ip item old (status_to_string status) ≡ none
unfolding seen_transition status_to_string
same_again ip item ItemStatus.on_sale old e p = rw (e, p, ==_refl item.price) refl
same_again ip item ItemStatus.sold old e p = rw e refl
same_again ip item ItemStatus.other old e p = rw (e, p, ==_refl item.price) refl

seen-updated :
    (ip now : ℕ) (item : Item) (old : Option TrackedItemState)
    → determine_transition ip item (some (updated old item now)) (status_to_string item.status)
      ≡ none
unfolding determine_transition
seen-updated ip now item none = same_again ip item item.status (updated none item now) refl refl
seen-updated ip now item (some old) =
    same_again ip item item.status (updated (some old) item now) refl refl

module _ (r : ItemServer) (ttls : Ttls) where
  open r use {Store, view}

  -- What a save leaves: the item's hash and its life are new, all others are as before.
  pub record IsSaved (ip now : ℕ) (item : Item) (s s' : Store) : Type 0 where
    pub item_known :
        known r ttls ip (view s') item ≡ some (updated (known r ttls ip (view s) item) item now)
    pub life :
        (view s').ttls (item_key ip item.source_id)
        ≡ some (get_ttl_for_status ttls (status_to_string item.status))
    pub others :
        (k : ItemKey)
        → key_eq (item_key ip item.source_id) k ≡ false
        → ((view s').hashes k ≡ (view s).hashes k) × ((view s').ttls k ≡ (view s).ttls k)

  save-view :
      (k : ItemKey) (u : Write) (s : Store)
      → view (save r ttls k u s)
        ≡ living k (get_ttl_for_status ttls u.status) (written k u (view s))
  unfolding save
  save-view k u s =
      r.expire_law k (get_ttl_for_status ttls u.status) (r.hset k u s)
      ∙ ap (living k (get_ttl_for_status ttls u.status)) (r.hset_law k u s)

  new_life :
      (k : ItemKey) (u : Write) (ttl : ℕ) (c : Items)
      → (living k ttl (written k u c)).ttls k ≡ some ttl
  new_life k u ttl c = rw (key_eq_refl k) refl

  status-write_of :
      (old : Option TrackedItemState) (item : Item) (now : ℕ)
      → (write_of old item now).status ≡ status_to_string item.status
  unfolding write_of
  status-write_of none item now = refl
  status-write_of (some old) item now = refl

  save-IsSaved :
      (ip now : ℕ) (item : Item) (s : Store)
      → IsSaved ip now item s (
          save r ttls
            (item_key ip item.source_id)
            (write_of (known r ttls ip (view s) item) item now)
            s)
  save-IsSaved ip now item s = record {
    item_known =
        ap (known_in) saved ∙ rw (key_eq_refl k) (parse-merged ((view s).hashes k) item now);
    life =
        ap (λ (c : Items). c.ttls k) saved
        ∙ new_life k u _ (view s)
        ∙ ap (λ x. some (get_ttl_for_status ttls x))
            (status-write_of (known r ttls ip (view s) item) item now);
    others = λ j n. (
      ap (λ (c : Items). c.hashes j) saved ∙ rw n refl,
      ap (λ (c : Items). c.ttls j) saved ∙ rw n refl,
    );
  }
    where
      k : ItemKey
      k = item_key ip item.source_id

      u : Write
      u = write_of (known r ttls ip (view s) item) item now

      known_in : Items → Option TrackedItemState
      known_in c = parse_hash_result (c.hashes k)

      saved :
          view (save r ttls k u s)
          ≡ living k (get_ttl_for_status ttls u.status) (written k u (view s))
      saved = save-view k u s

  -- The store after the write.
  abbrev saved : ℕ → ℕ → Item → Store → Store
  saved ip now item s =
      save r ttls (item_key ip item.source_id) (write_of (known r ttls ip (view s) item) item now) s

  abbrev pub lost_write : Store → World Store
  lost_write s = record { store = s; fates = Fate.delivered ∷ Fate.lost_reply ∷ [] }

  abbrev reported : ℕ → Item → Store → Option StateTransition
  reported ip item s =
      determine_transition ip item (known r ttls ip (view s) item) (status_to_string item.status)

  update_item_state-calm :
      (ip now : ℕ) (item : Item) (s : Store)
      → str_eq item.source_id "" ≡ false
      → update_item_state r ttls ip now (some item) (calm s)
        ≡ (ok (reported ip item s), calm (saved ip now item s))
  unfolding update_item_state track_item get_item_state call
  update_item_state-calm ip now item s h = rw (h, r.hgetall_law (item_key ip item.source_id) s) refl

  update_item_state-lost :
      (ip now : ℕ) (item : Item) (s : Store)
      → str_eq item.source_id "" ≡ false
      → update_item_state r ttls ip now (some item) (lost_write s)
        ≡ (err redis_error, calm (saved ip now item s))
  unfolding update_item_state track_item get_item_state call
  update_item_state-lost ip now item s h = rw (h, r.hgetall_law (item_key ip item.source_id) s) refl

  reported-saved :
      (ip now : ℕ) (item : Item) (s : Store) → reported ip item (saved ip now item s) ≡ none
  reported-saved ip now item s =
      ap (λ old. determine_transition ip item old (status_to_string item.status))
        (save-IsSaved ip now item s).item_known
      ∙ seen-updated ip now item (known r ttls ip (view s) item)

  -- For an item with an id, on a network that does not fail, `UpdateItemState` returns the
  -- transition from the state that the server knows. Afterwards the server knows the item's status
  -- and price, the time of this sighting and that of the first one, and keeps them for as long as
  -- the status says; no other item has changed.
  pub update_item_state_lem :
      (ip now : ℕ) (item : Item) (s : Store)
      → str_eq item.source_id "" ≡ false
      → let o = update_item_state r ttls ip now (some item) (calm s) in
        (o.0
          ≡ ok (
              determine_transition ip item
                (known r ttls ip (view s) item)
                (status_to_string item.status)))
        × IsSaved ip now item s o.1.store
  update_item_state_lem ip now item s h =
      rw (update_item_state-calm ip now item s h) (refl, save-IsSaved ip now item s)

  -- What is reported of the same item some time after a save.
  abbrev pub reported_again : ℕ → ℕ → Item → Option StateTransition
  reported_again ip elapsed item =
      if ltb elapsed (get_ttl_for_status ttls (status_to_string item.status))
      then none
      else determine_transition ip item none (status_to_string item.status)

  known-wait :
      (ip elapsed ttl : ℕ) (item : Item) (s : Store)
      → (view s).ttls (item_key ip item.source_id) ≡ some ttl
      → known r ttls ip (view (r.wait elapsed s)) item
        ≡ (if ltb elapsed ttl then known r ttls ip (view s) item else none)
  unfolding parse_hash_result
  known-wait ip elapsed ttl item s e = elim (Bool-cases (ltb elapsed ttl)) [
    | inl b ↦ rw (r.wait_law elapsed s, e, b) refl
    | inr b ↦ rw (r.wait_law elapsed s, e, b) refl
  ]

  reported-wait :
      (ip now elapsed : ℕ) (item : Item) (s : Store)
      → reported ip item (r.wait elapsed (saved ip now item s)) ≡ reported_again ip elapsed item
  reported-wait ip now elapsed item s =
      let ttl = get_ttl_for_status ttls (status_to_string item.status) in
      ap (λ old. determine_transition ip item old (status_to_string item.status))
        (known-wait ip elapsed ttl item (saved ip now item s) (save-IsSaved ip now item s).life)
      ∙ (elim (Bool-cases (ltb elapsed ttl)) [
        | inl b ↦ rw b (reported-saved ip now item s)
        | inr b ↦ rw b refl
      ])

  -- On a network that does not fail, `UpdateItemState` for the same item (with an id) again reports no
  -- transition while the item's state lives, that is for the time to live of the item's status; once
  -- that time is over, the item is reported as one that was never seen.
  pub update_item_state-update_item_state :
      (ip now elapsed : ℕ) (item : Item) (s : Store)
      → str_eq item.source_id "" ≡ false
      → let first = (update_item_state r ttls ip now (some item) (calm s)).1.store in
        (update_item_state r ttls ip (now + elapsed) (some item) (calm (r.wait elapsed first))).0
        ≡ ok (reported_again ip elapsed item)
  update_item_state-update_item_state ip now elapsed item s h =
      rw
        (
          update_item_state-calm ip now item s h,
          update_item_state-calm ip (now + elapsed) item (r.wait elapsed (saved ip now item s)) h,
        )
        (ap ok (reported-wait ip now elapsed item s))

  -- For an item with an id, if the read works and the reply to the write is lost, `UpdateItemState`
  -- returns only the error, and the transition is never reported: on a network that does not fail, a retry
  -- reports none while the item's state lives, since the write has been done, and after that reports the
  -- item as one that was never seen.
  pub update_item_state-lost_reply :
      (ip now elapsed : ℕ) (item : Item) (s : Store)
      → str_eq item.source_id "" ≡ false
      → let o = update_item_state r ttls ip now (some item) (lost_write s) in
        (o.0 ≡ err redis_error)
        × ((update_item_state r ttls ip
              (now + elapsed)
              (some item)
              (calm (r.wait elapsed o.1.store))).0
            ≡ ok (reported_again ip elapsed item))
  update_item_state-lost_reply ip now elapsed item s h =
      rw
        (
          update_item_state-lost ip now item s h,
          update_item_state-calm ip (now + elapsed) item (r.wait elapsed (saved ip now item s)) h,
        )
        (refl, ap ok (reported-wait ip now elapsed item s))
