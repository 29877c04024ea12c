-- ===== src/Tracker/Batch.antt =====
-- `ProcessItemsBatch` of internal/analyzer/state_machine.go: it reads the states of all items, works
-- out the transitions, and writes all items. Logging is left out.
use animehot.Common.{
  ℕ, str_eq, Option, none, some, List, [], ◌∷◌, ◌++◌, map, if◌then◌else◌, length, batches,
}
use animehot.Queue.Messages.{Item}
use animehot.Queue.Network.{M, return, ◌>>=◌, ◌>>◌, update, query}
use animehot.Tracker.Server.{ItemServer, ItemKey, Write}
use animehot.Tracker.Transitions.{
  TrackedItemState, StateTransition, status_to_string, parse_hash_result, determine_transition,
}
use animehot.Tracker.Machine.{Ttls, item_key, write_of, save}

abbrev pub pipeline_batch_size : ℕ
pipeline_batch_size = 500

-- Items that are nil or have no id are skipped.
unfoldable pub valid_items : List (Option Item) → List Item
valid_items [] = []
valid_items (none ∷ items) = valid_items items
valid_items (some item ∷ items) =
    if str_eq item.source_id "" then valid_items items else item ∷ valid_items items

abbrev pub cons_some {ℓ} : {A : Type ℓ} → Option A → List A → List A
cons_some none xs = xs
cons_some (some x) xs = x ∷ xs

-- The loop over the valid items, with the state read for each: the transitions.
unfoldable pub plan_transitions :
    ℕ → List Item → List (Option TrackedItemState) → List StateTransition
unfolding determine_transition
plan_transitions ip [] olds = []
plan_transitions ip (item ∷ items) [] = []
plan_transitions ip (item ∷ items) (old ∷ olds) =
    cons_some (determine_transition ip item old (status_to_string item.status))
      (plan_transitions ip items olds)

-- And the writes.
unfoldable pub plan_updates :
    ℕ → ℕ → List Item → List (Option TrackedItemState) → List (ItemKey × Write)
unfolding write_of item_key
plan_updates ip now [] olds = []
plan_updates ip now (item ∷ items) [] = []
plan_updates ip now (item ∷ items) (old ∷ olds) =
    (item_key ip item.source_id, write_of old item now) ∷ plan_updates ip now items olds

module _ (r : ItemServer) (ttls : Ttls) where
  open r use {Store}

  -- One pipeline of `HGETALL`s for each batch.
  unfoldable pub read_batches : List (List ItemKey) → M Store (List (Option TrackedItemState))
  unfolding parse_hash_result
  read_batches [] = return []
  read_batches (batch ∷ rest) = do
    states ← query (λ s. map (λ k. parse_hash_result (r.hgetall k s)) batch)
    more ← read_batches rest
    return (states ++ more)

  unfoldable pub save_all : List (ItemKey × Write) → Store → Store
  unfolding save
  save_all [] s = s
  save_all ((k, u) ∷ rest) s = save_all rest (save r ttls k u s)

  -- One pipeline of `HSET`s and `EXPIRE`s for each batch.
  unfoldable pub write_batches : List (List (ItemKey × Write)) → M Store (Unit {0})
  unfolding save_all
  write_batches [] = return tt
  write_batches (batch ∷ rest) = do update (save_all batch); write_batches rest

  abbrev pub in_batches {ℓ} : {A : Type ℓ} → List A → List (List A)
  in_batches xs = batches (length xs) pipeline_batch_size xs

  unfoldable pub process_valid : ℕ → ℕ → List Item → M Store (List StateTransition)
  unfolding read_batches write_batches plan_transitions plan_updates item_key
  process_valid ip now valid = do
    olds ← read_batches (in_batches (map (λ (item : Item). item_key ip item.source_id) valid))
    write_batches (in_batches (plan_updates ip now valid olds))
    return (plan_transitions ip valid olds)

  -- Without a valid item nothing is read or written, and this is the early return.
  unfoldable pub process_items_batch : ℕ → ℕ → List (Option Item) → M Store (List StateTransition)
  unfolding process_valid valid_items
  process_items_batch ip now items = process_valid ip now (valid_items items)
