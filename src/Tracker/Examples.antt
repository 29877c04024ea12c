-- ===== src/Tracker/Examples.antt =====
-- The theorems on the item state machine, applied to a server in memory.
use animehot.Common.{◌+◌, refl, ◌≡◌, none, some, List, [], ◌∷◌, Option}
use animehot.Queue.Messages.{Item, ItemStatus, ok, err, redis_error}
use animehot.Queue.Network.{calm}
use animehot.Tracker.Transitions.{
  TransitionType, StateTransition, TrackedItemState, status_to_string, determine_transition,
  summarize_transitions,
}
use animehot.Tracker.Machine.{get_ttl_for_status, Ttls, update_item_state}
use animehot.Tracker.Batch.{valid_items, process_items_batch}
use animehot.Tracker.Memory.{Memory, memory_items, no_items}
use animehot.Tracker.Sequential.{track_all, process_items_batch-track_all}
use animehot.Tracker.Laws.{
  IsSaved, lost_write, reported_again, update_item_state_lem, update_item_state-update_item_state,
  update_item_state-lost_reply,
}
use animehot.Tracker.Table.{Observed, IsAbout, determine_transition_table}

abbrev lives : Ttls
lives = record { available = 86400; sold = 172800 }

abbrev figure : Item
figure = record {
  source_id = "m1";
  title = "figure";
  price = 100;
  image_url = "";
  item_url = "";
  status = ItemStatus.on_sale;
}

abbrev poster : Item
poster = record {
  source_id = "m2";
  title = "poster";
  price = 40;
  image_url = "";
  item_url = "";
  status = ItemStatus.sold;
}

abbrev cheaper_figure : Item
cheaper_figure = record figure { price = 90 }

abbrev page : List (Option Item)
page = some figure ∷ none ∷ some poster ∷ []

abbrev after_page : Memory
after_page = (track_all memory_items lives 7 100 page (calm no_items)).1.store

update_item_state_example :
    let o = update_item_state memory_items lives 7 100 (some figure) (calm no_items) in
    (o.0
      ≡ ok (
          some (record {
            source_id = "m1";
            type = TransitionType.new_listing;
            old_price = 0;
            new_price = 100;
            ip_id = 7;
          })))
    × IsSaved memory_items lives 7 100 figure no_items o.1.store
unfolding determine_transition animehot.Tracker.Transitions.parse_hash_result
update_item_state_example = update_item_state_lem memory_items lives 7 100 figure no_items refl

-- 100 seconds later the item's state lives, and it is not reported again.
twice_example :
    (update_item_state memory_items lives 7 (100 + 100) (some figure) (
      calm (
        memory_items.wait 100
          (update_item_state memory_items lives 7 100 (some figure) (calm no_items)).1.store))).0
    ≡ ok none
unfolding get_ttl_for_status status_to_string
twice_example =
    update_item_state-update_item_state memory_items lives 7 100 100 figure no_items refl

lost_reply_example :
    let o =
      update_item_state memory_items lives 7 100
        (some figure)
        (lost_write memory_items lives no_items) in
    (o.0 ≡ err redis_error)
    × ((update_item_state memory_items lives 7
          (100 + 100)
          (some figure)
          (calm (memory_items.wait 100 o.1.store))).0
        ≡ ok (reported_again memory_items lives 7 100 figure))
lost_reply_example = update_item_state-lost_reply memory_items lives 7 100 100 figure no_items refl

process_items_batch_example :
    process_items_batch memory_items lives 7 100 page (calm no_items)
    ≡ track_all memory_items lives 7 100 page (calm no_items)
unfolding valid_items
process_items_batch_example =
    process_items_batch-track_all memory_items lives 7 100 page no_items ((refl, tt), (tt, tt))

abbrev seen_figure : TrackedItemState
seen_figure = record { status = "available"; price = 100; first_seen = 5; last_seen = 9 }

determine_transition_example :
    let found =
      determine_transition 7 cheaper_figure
        (some seen_figure)
        (status_to_string ItemStatus.on_sale) in
    ((t : StateTransition)
      → found ≡ some t
      → Observed (some seen_figure) cheaper_figure t.type
        × IsAbout 7 cheaper_figure (some seen_figure) t)
    × ((type : TransitionType)
        → Observed (some seen_figure) cheaper_figure type
        → (t : StateTransition) × (found ≡ some t) × (t.type ≡ type))
determine_transition_example = determine_transition_table 7 cheaper_figure (some seen_figure)

abbrev two_transitions : List StateTransition
two_transitions =
    record {
      source_id = "m1";
      type = TransitionType.new_sold;
      old_price = 0;
      new_price = 100;
      ip_id = 7;
    }
    ∷ record {
      source_id = "m2";
      type = TransitionType.sold;
      old_price = 40;
      new_price = 40;
      ip_id = 7;
    }
    ∷ []
