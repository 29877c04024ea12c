-- ===== src/Tracker/Transitions.antt =====
-- The data of internal/analyzer/state_machine.go, `determineTransition` and the summary.
use animehot.Common.{
  ℕ, suc, String, str_eq, not, Option, none, some, List, [], ◌∷◌, ◌==◌, ◌&&◌, if◌then◌else◌,
}
use animehot.Queue.Messages.{Item, ItemStatus}
use animehot.Tracker.Server.{Cell, number, junk, Fields}

pub record TrackedItemState : Type 0 where
  pub status : String
  pub price : ℕ
  pub first_seen : ℕ
  pub last_seen : ℕ

pub data TransitionType : Type 0 where
  new_listing new_sold sold price_change relisted : TransitionType

pub record StateTransition : Type 0 where
  pub source_id : String
  pub type : TransitionType
  pub old_price : ℕ
  pub new_price : ℕ
  pub ip_id : ℕ

abbrev pub available_text : String
available_text = "available"

abbrev pub sold_text : String
sold_text = "sold"

unfoldable pub status_to_string : ItemStatus → String
status_to_string ItemStatus.sold = sold_text
status_to_string _ = available_text

-- A missing or unreadable number stays 0.
unfoldable pub read_number : Option Cell → ℕ
read_number none = 0
read_number (some junk) = 0
read_number (some (number n)) = n

unfoldable pub read_text : Option String → String
read_text none = ""
read_text (some s) = s

-- `parseHashResult`: an empty answer is no item.
unfoldable pub parse_hash_result : Option Fields → Option TrackedItemState
unfolding read_number read_text
parse_hash_result none = none
parse_hash_result (some f) = some (record {
  status = read_text f.status;
  price = read_number f.price;
  first_seen = read_number f.first_seen;
  last_seen = read_number f.last_seen;
})

-- A transition of an item that was not seen before, and of one that was.
unfoldable pub first_transition : ℕ → Item → TransitionType → StateTransition
first_transition ip item type = record {
  source_id = item.source_id;
  type = type;
  old_price = 0;
  new_price = item.price;
  ip_id = ip;
}

unfoldable pub next_transition : ℕ → Item → TrackedItemState → TransitionType → StateTransition
next_transition ip item old type = record {
  source_id = item.source_id;
  type = type;
  old_price = old.price;
  new_price = item.price;
  ip_id = ip;
}

unfoldable pub unseen_transition : ℕ → Item → ItemStatus → Option StateTransition
unfolding first_transition
unseen_transition ip item ItemStatus.on_sale =
    some (first_transition ip item TransitionType.new_listing)
unseen_transition ip item ItemStatus.sold = some (first_transition ip item TransitionType.new_sold)
unseen_transition ip item ItemStatus.other = none

unfoldable pub seen_transition : ℕ → Item → TrackedItemState → String → Option StateTransition
unfolding next_transition
seen_transition ip item old new_status =
    if str_eq old.status available_text && str_eq new_status sold_text
    then some (next_transition ip item old TransitionType.sold)
    else if str_eq old.status sold_text && str_eq new_status available_text
    then some (next_transition ip item old TransitionType.relisted)
    else if str_eq old.status available_text
        && str_eq new_status available_text
        && not (old.price == item.price)
    then some (next_transition ip item old TransitionType.price_change)
    else none

unfoldable pub determine_transition :
    ℕ → Item → Option TrackedItemState → String → Option StateTransition
unfolding unseen_transition seen_transition
determine_transition ip item none new_status = unseen_transition ip item item.status
determine_transition ip item (some old) new_status = seen_transition ip item old new_status

pub record TransitionSummary : Type 0 where
  pub new_listings : ℕ
  pub sold : ℕ
  pub price_changes : ℕ
  pub relisted : ℕ

abbrev pub no_transitions : TransitionSummary
no_transitions = record { new_listings = 0; sold = 0; price_changes = 0; relisted = 0 }

-- The `switch` of `SummarizeTransitions`.
unfoldable pub add_transition : TransitionType → TransitionSummary → TransitionSummary
add_transition TransitionType.new_listing s = record s { new_listings = suc s.new_listings }
add_transition TransitionType.sold s = record s { sold = suc s.sold }
add_transition TransitionType.new_sold s = record s { sold = suc s.sold }
add_transition TransitionType.price_change s = record s { price_changes = suc s.price_changes }
add_transition TransitionType.relisted s = record s { relisted = suc s.relisted }

unfoldable pub summarize_from : TransitionSummary → List StateTransition → TransitionSummary
unfolding add_transition
summarize_from acc [] = acc
summarize_from acc (t ∷ ts) = summarize_from (add_transition t.type acc) ts

unfoldable pub summarize_transitions : List StateTransition → TransitionSummary
unfolding summarize_from
summarize_transitions ts = summarize_from no_transitions ts
