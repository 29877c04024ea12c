-- ===== src/Tracker/Sequential.antt =====
-- `ProcessItemsBatch` of internal/analyzer/state_machine.go against `UpdateItemState`, one item after
-- the other, on a network that does not fail.
use animehot.Common.{
  ℕ, ◌≡◌, refl, sym, ap, ◌∙◌, String, str_eq, Bool, true, false, Option, none, some, List, [], ◌∷◌,
  ◌++◌, map, if◌then◌else◌, length, joined, joined-batches, arith, ==_refl,
}
use animehot.Queue.Messages.{Item, Result, ok}
use animehot.Queue.Network.{World, calm, M, return, ◌>>=◌, ◌>>◌, call, continue_with}
use animehot.Tracker.Server.{ItemServer, ItemKey, Write, Items, Fields, key_eq}
use animehot.Tracker.Transitions.{
  TrackedItemState, StateTransition, status_to_string, parse_hash_result, determine_transition,
}
use animehot.Tracker.Machine.{
  Ttls, item_key, write_of, save, get_item_state, track_item, update_item_state, get_ttl_for_status,
}
use animehot.Tracker.Batch.{
  valid_items, cons_some, in_batches, plan_transitions, plan_updates, read_batches, save_all,
  write_batches, process_valid, process_items_batch,
}

-- No item of the list has the id; all ids of the list differ.
abbrev pub IsAbsent : String → List Item → Type 0
IsAbsent x [] = Unit {0}
IsAbsent x (item ∷ items) = (str_eq x item.source_id ≡ false) × IsAbsent x items

abbrev pub IsDistinct : List Item → Type 0
IsDistinct [] = Unit {0}
IsDistinct (item ∷ items) = IsAbsent item.source_id items × IsDistinct items

map-++ {ℓ ℓ'} :
    {A : Type ℓ} {B : Type ℓ'} (f : A → B) (xs ys : List A)
    → map f (xs ++ ys) ≡ map f xs ++ map f ys
map-++ f [] ys = refl
map-++ f (x ∷ xs) ys = ap (◌∷◌ (f x)) (map-++ f xs ys)

map-map {ℓ ℓ' ℓ''} :
    {A : Type ℓ} {B : Type ℓ'} {C : Type ℓ''} (f : B → C) (g : A → B) (xs : List A)
    → map f (map g xs) ≡ map (λ x. f (g x)) xs
map-map f g [] = refl
map-map f g (x ∷ xs) = ap (◌∷◌ (f (g x))) (map-map f g xs)

module _ (r : ItemServer) (ttls : Ttls) where
  open r use {Store, view}

  -- The reference: `UpdateItemState` for each item in turn, and the transitions that it returns.
  unfoldable pub track_all : ℕ → ℕ → List (Option Item) → M Store (List StateTransition)
  track_all ip now [] = return []
  track_all ip now (item ∷ items) = do
    found ← update_item_state r ttls ip now item
    more ← track_all ip now items
    return (cons_some found more)

  -- What the server knows of an item.
  abbrev pub known : ℕ → Items → Item → Option TrackedItemState
  known ip c item = parse_hash_result (c.hashes (item_key ip item.source_id))

  states_law :
      (s : Store) (ks : List ItemKey)
      → map (λ k. parse_hash_result (r.hgetall k s)) ks
        ≡ map (λ k. parse_hash_result ((view s).hashes k)) ks
  states_law s ks i = map (λ k. parse_hash_result (r.hgetall_law k s i)) ks

  read_batches-calm :
      (bs : List (List ItemKey)) (s : Store)
      → read_batches r ttls bs (calm s)
        ≡ (ok (map (λ k. parse_hash_result ((view s).hashes k)) (joined bs)), calm s)
  unfolding read_batches call
  read_batches-calm [] s = refl
  read_batches-calm (b ∷ bs) s =
      ap
        (λ o.
          continue_with o (λ more. return (map (λ k. parse_hash_result (r.hgetall k s)) b ++ more)))
        (read_batches-calm bs s)
      ∙ ap
          (λ olds.
            (ok (olds ++ map (λ k. parse_hash_result ((view s).hashes k)) (joined bs)), calm s))
          (states_law s b)
      ∙ ap (λ olds. (ok olds, calm s))
          (sym (map-++ (λ k. parse_hash_result ((view s).hashes k)) b (joined bs)))

  save_all-++ :
      (us vs : List (ItemKey × Write)) (s : Store)
      → save_all r ttls (us ++ vs) s ≡ save_all r ttls vs (save_all r ttls us s)
  unfolding save_all
  save_all-++ [] vs s = refl
  save_all-++ (u ∷ us) vs s = save_all-++ us vs (save r ttls u.0 u.1 s)

  write_batches-calm :
      (bs : List (List (ItemKey × Write))) (s : Store)
      → write_batches r ttls bs (calm s) ≡ (ok tt, calm (save_all r ttls (joined bs) s))
  unfolding write_batches call save_all
  write_batches-calm [] s = refl
  write_batches-calm (b ∷ bs) s =
      write_batches-calm bs (save_all r ttls b s)
      ∙ ap (λ x. (ok tt, calm x)) (sym (save_all-++ b (joined bs) s))

  -- What the server knows of each item.
  abbrev olds : ℕ → Store → List Item → List (Option TrackedItemState)
  olds ip s items = map (known ip (view s)) items

  abbrev planned : ℕ → ℕ → List Item → Store → Result (List StateTransition) × World Store
  planned ip now items s = (
    ok (plan_transitions ip items (olds ip s items)),
    calm (save_all r ttls (plan_updates ip now items (olds ip s items)) s),
  )

  joined-in_batches {ℓ} : {A : Type ℓ} (xs : List A) → joined (in_batches r ttls xs) ≡ xs
  joined-in_batches xs = joined-batches (length xs) 499 xs (omega arith)

  -- One item more, in front.
  after_write :
      (ip now : ℕ) (items : List Item) (olds : List (Option TrackedItemState)) (s : Store)
      → (write_batches r ttls (in_batches r ttls (plan_updates ip now items olds))
            >> return (plan_transitions ip items olds))
          (calm s)
        ≡ (
          ok (plan_transitions ip items olds),
          calm (save_all r ttls (plan_updates ip now items olds) s),
        )
  after_write ip now items olds s =
      ap (λ o. continue_with o (λ _. return (plan_transitions ip items olds)))
        (write_batches-calm (in_batches r ttls (plan_updates ip now items olds)) s)
      ∙ ap (λ us. (ok (plan_transitions ip items olds), calm (save_all r ttls us s)))
          (joined-in_batches (plan_updates ip now items olds))

  process_valid-calm :
      (ip now : ℕ) (items : List Item) (s : Store)
      → process_valid r ttls ip now items (calm s) ≡ planned ip now items s
  unfolding process_valid
  process_valid-calm ip now items s =
      ap
        (λ o. continue_with o (λ olds.
          write_batches r ttls (in_batches r ttls (plan_updates ip now items olds))
          >> return (plan_transitions ip items olds)))
        (read_batches-calm
            (in_batches r ttls (map (λ (item : Item). item_key ip item.source_id) items)) s
          ∙ ap (λ ks. (ok (map (λ k. parse_hash_result ((view s).hashes k)) ks), calm s))
              (joined-in_batches (map (λ (item : Item). item_key ip item.source_id) items))
          ∙ ap (λ xs. (ok xs, calm s))
              (map-map (λ k. parse_hash_result ((view s).hashes k))
                (λ (item : Item). item_key ip item.source_id) items))
      ∙ after_write ip now items (olds ip s items) s

  -- A write to another item is not seen.
  other_hash :
      (k j : ItemKey) (u : Write) (s : Store)
      → key_eq k j ≡ false
      → (view (save r ttls k u s)).hashes j ≡ (view s).hashes j
  unfolding save
  other_hash k j u s n =
      ap (λ (c : Items). c.hashes j)
        (r.expire_law k (get_ttl_for_status ttls u.status) (r.hset k u s))
      ∙ ap (λ (c : Items). c.hashes j) (r.hset_law k u s)
      ∙ rw n refl

  other_olds :
      (ip : ℕ) (item : Item) (u : Write) (items : List Item) (s : Store)
      → IsAbsent item.source_id items
      → olds ip (save r ttls (item_key ip item.source_id) u s) items ≡ olds ip s items
  unfolding item_key
  other_olds ip item u [] s h = refl
  other_olds ip item u (x ∷ items) s (h, hs) =
      ap (λ f. parse_hash_result f ∷ olds ip (save r ttls (item_key ip item.source_id) u s) items)
        (other_hash (item_key ip item.source_id) (item_key ip x.source_id) u s (rw (==_refl ip) h))
      ∙ ap (◌∷◌ (known ip (view s) x)) (other_olds ip item u items s hs)

  -- What is left to do after the first item.
  track_item-planned :
      (ip now : ℕ) (item : Item) (items : List Item) (more : M Store (List StateTransition))
      (s : Store)
      → IsAbsent item.source_id items
      → ((s : Store) → more (calm s) ≡ planned ip now items s)
      → (track_item r ttls ip now item >>= λ found. more >>= λ rest. return (cons_some found rest))
          (calm s)
        ≡ planned ip now (item ∷ items) s
  unfolding track_item call get_item_state plan_transitions plan_updates save_all
  track_item-planned ip now item items more s h e =
      (λ i. step (r.hgetall_law (item_key ip item.source_id) s i))
      ∙ ap (λ o. continue_with o (λ rest. return (cons_some (found old) rest))) (e (next old))
      ∙ ap
          (λ xs. (
            ok (cons_some (found old) (plan_transitions ip items xs)),
            calm (save_all r ttls (plan_updates ip now items xs) (next old)),
          ))
          (other_olds ip item (write_of old item now) items s h)
    where
      old : Option TrackedItemState
      old = known ip (view s) item

      found : Option TrackedItemState → Option StateTransition
      found o = determine_transition ip item o (status_to_string item.status)

      next : Option TrackedItemState → Store
      next o = save r ttls (item_key ip item.source_id) (write_of o item now) s

      step : Option Fields → Result (List StateTransition) × World Store
      step f =
          (more >>= λ rest. return (cons_some (found (parse_hash_result f)) rest))
            (calm (next (parse_hash_result f)))

  track_all-planned :
      (ip now : ℕ) (items : List (Option Item)) (s : Store)
      → IsDistinct (valid_items items)
      → track_all ip now items (calm s) ≡ planned ip now (valid_items items) s
  unfolding track_all valid_items update_item_state plan_transitions plan_updates save_all
  track_all-planned ip now [] s h = refl
  track_all-planned ip now (none ∷ items) s h =
      ap (λ o. continue_with o (λ more. return more)) (track_all-planned ip now items s h)
  track_all-planned ip now (some item ∷ items) s h =
      skip_or_track (str_eq item.source_id "") h (λ s' d. track_all-planned ip now items s' d)
    where
      skip_or_track :
          (b : Bool)
          → IsDistinct (if b then valid_items items else item ∷ valid_items items)
          → ((s : Store)
              → IsDistinct (valid_items items)
              → track_all ip now items (calm s) ≡ planned ip now (valid_items items) s)
          → ((if b then return none else track_item r ttls ip now item) >>= λ found.
                track_all ip now items >>= λ more. return (cons_some found more))
              (calm s)
            ≡ planned ip now (if b then valid_items items else item ∷ valid_items items) s
      skip_or_track true d rest = ap (λ o. continue_with o (λ more. return more)) (rest s d)
      skip_or_track false (d, ds) rest =
          track_item-planned ip now item (valid_items items) (track_all ip now items) s d
            (λ s'. rest s' ds)

  -- On a network that does not fail, a batch whose valid items have different ids is processed as if
  -- `UpdateItemState` was called for one item after the other: the same transitions in the same
  -- order, and the same store. Nil items and items without an id may be among them.
  pub process_items_batch-track_all :
      (ip now : ℕ) (items : List (Option Item)) (s : Store)
      → IsDistinct (valid_items items)
      → process_items_batch r ttls ip now items (calm s) ≡ track_all ip now items (calm s)
  unfolding process_items_batch
  process_items_batch-track_all ip now items s h =
      process_valid-calm ip now (valid_items items) s ∙ sym (track_all-planned ip now items s h)
