-- ===== src/Tracker/Machine.antt =====
-- The operations of internal/analyzer/state_machine.go on one item. A pipeline of commands is one
-- call: it arrives whole or not at all.
use animehot.Common.{ℕ, String, str_eq, Option, none, some, [], ◌∷◌, ◌==◌, if◌then◌else◌}
use animehot.Queue.Messages.{Item}
use animehot.Queue.Network.{M, return, ◌>>=◌, ◌>>◌, update, query}
use animehot.Tracker.Server.{ItemServer, ItemKey, Write}
use animehot.Tracker.Transitions.{
  TrackedItemState, StateTransition, sold_text, status_to_string, parse_hash_result,
  determine_transition,
}

-- The two lives, in seconds. A configured 0 stands for the default.
pub record Ttls : Type 0 where
  pub available : ℕ
  pub sold : ℕ

unfoldable pub new_ttls : ℕ → ℕ → Ttls
new_ttls available sold = record {
  available = if available == 0 then 86400 else available;
  sold = if sold == 0 then 172800 else sold;
}

unfoldable pub get_ttl_for_status : Ttls → String → ℕ
get_ttl_for_status ttls status = if str_eq status sold_text then ttls.sold else ttls.available

unfoldable pub item_key : ℕ → String → ItemKey
item_key ip source_id = record { ip_id = ip; source_id = source_id }

-- What is written for an item: its first sighting too, if it is new.
unfoldable pub write_of : Option TrackedItemState → Item → ℕ → Write
write_of none item now = record {
  status = status_to_string item.status;
  price = item.price;
  first_seen = some now;
  last_seen = now;
}
write_of (some old) item now = record {
  status = status_to_string item.status;
  price = item.price;
  first_seen = none;
  last_seen = now;
}

module _ (r : ItemServer) (ttls : Ttls) where
  open r use {Store}

  unfoldable pub get_item_state : ℕ → String → M Store (Option TrackedItemState)
  unfolding item_key parse_hash_result
  get_item_state ip source_id = do
    fields ← query (r.hgetall (item_key ip source_id))
    return (parse_hash_result fields)

  -- `HSET` and `EXPIRE` of one item.
  unfoldable pub save : ItemKey → Write → Store → Store
  unfolding get_ttl_for_status
  save k u s = r.expire k (get_ttl_for_status ttls u.status) (r.hset k u s)

  unfoldable pub track_item : ℕ → ℕ → Item → M Store (Option StateTransition)
  unfolding determine_transition write_of item_key save get_item_state
  track_item ip now item = do
    old ← get_item_state ip item.source_id
    update (save (item_key ip item.source_id) (write_of old item now))
    return (determine_transition ip item old (status_to_string item.status))

  unfoldable pub update_item_state : ℕ → ℕ → Option Item → M Store (Option StateTransition)
  unfolding track_item
  update_item_state ip now none = return none
  update_item_state ip now (some item) =
      if str_eq item.source_id "" then return none else track_item ip now item

  unfoldable pub clear_item_state : ℕ → String → M Store (Unit {0})
  clear_item_state ip source_id = update (r.del (item_key ip source_id ∷ []))
