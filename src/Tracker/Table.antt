-- ===== src/Tracker/Table.antt =====
-- Which transition `determineTransition` of internal/analyzer/state_machine.go reports, against a
-- table, and what the summary counts.
use animehot.Common.{ℕ, ◌+◌, ◌≡◌, ◌≢◌, refl, eq_iff, Option, none, some, List, [], ◌∷◌, arith}
use animehot.Queue.Messages.{Item, ItemStatus}
use animehot.Tracker.Transitions.{
  TrackedItemState, TransitionType, StateTransition, TransitionSummary, available_text, sold_text,
  status_to_string, determine_transition, seen_transition, unseen_transition, first_transition,
  next_transition, no_transitions, add_transition, summarize_from, summarize_transitions,
}

-- The table: what is known of an item, how it is seen now, and the transition.
abbrev pub Observed : Option TrackedItemState → Item → TransitionType → Type 0
Observed none item TransitionType.new_listing = item.status ≡ ItemStatus.on_sale
Observed none item TransitionType.new_sold = item.status ≡ ItemStatus.sold
Observed (some old) item TransitionType.sold =
    (old.status ≡ available_text) × (item.status ≡ ItemStatus.sold)
Observed (some old) item TransitionType.relisted =
    (old.status ≡ sold_text) × (item.status ≢ ItemStatus.sold)
Observed (some old) item TransitionType.price_change =
    (old.status ≡ available_text) × (item.status ≢ ItemStatus.sold) × (old.price ≢ item.price)
Observed _ _ _ = ⊥

abbrev pub known_price : Option TrackedItemState → ℕ
known_price none = 0
known_price (some old) = old.price

-- A transition speaks of the item, with its known and its new price.
pub record IsAbout (ip : ℕ) (item : Item) (old : Option TrackedItemState) (t : StateTransition)
    : Type 0 where
  pub same_id : t.source_id ≡ item.source_id
  pub same_ip : t.ip_id ≡ ip
  pub from_price : t.old_price ≡ known_price old
  pub to_price : t.new_price ≡ item.price

seen-Observed :
    (ip : ℕ) (item : Item) (status : ItemStatus) (old : TrackedItemState) (t : StateTransition)
    → item.status ≡ status
    → seen_transition ip item old (status_to_string status) ≡ some t
    → Observed (some old) item t.type × IsAbout ip item (some old) t
unfolding seen_transition status_to_string
seen-Observed ip item ItemStatus.on_sale old t s e =
    ground (arith, eq_iff old.status available_text, eq_iff old.status sold_text)
seen-Observed ip item ItemStatus.sold old t s e =
    ground (arith, eq_iff old.status available_text, eq_iff old.status sold_text)
seen-Observed ip item ItemStatus.other old t s e =
    ground (arith, eq_iff old.status available_text, eq_iff old.status sold_text)

Observed-seen :
    (ip : ℕ) (item : Item) (status : ItemStatus) (old : TrackedItemState) (type : TransitionType)
    → item.status ≡ status
    → Observed (some old) item type
    → (t : StateTransition) × (seen_transition ip item old (status_to_string status) ≡ some t)
      × (t.type ≡ type)
unfolding seen_transition status_to_string
Observed-seen ip item status old TransitionType.new_listing s o = absurd o
Observed-seen ip item status old TransitionType.new_sold s o = absurd o
Observed-seen ip item ItemStatus.sold old TransitionType.sold s (a, b) =
    (next_transition ip item old TransitionType.sold, rw a refl, refl)
Observed-seen ip item ItemStatus.on_sale old TransitionType.sold s (a, b) = cc
Observed-seen ip item ItemStatus.other old TransitionType.sold s (a, b) = cc
Observed-seen ip item ItemStatus.sold old TransitionType.relisted s (a, b) = absurd (b s)
Observed-seen ip item ItemStatus.on_sale old TransitionType.relisted s (a, b) =
    (next_transition ip item old TransitionType.relisted, rw a refl, refl)
Observed-seen ip item ItemStatus.other old TransitionType.relisted s (a, b) =
    (next_transition ip item old TransitionType.relisted, rw a refl, refl)
Observed-seen ip item ItemStatus.sold old TransitionType.price_change s (a, b, c) = absurd (b s)
Observed-seen ip item ItemStatus.on_sale old TransitionType.price_change s (a, b, c) =
    (next_transition ip item old TransitionType.price_change, rw a (ground (arith, c)), refl)
Observed-seen ip item ItemStatus.other old TransitionType.price_change s (a, b, c) =
    (next_transition ip item old TransitionType.price_change, rw a (ground (arith, c)), refl)

-- A transition that is reported is in the table and speaks of the item, and whatever the table has
-- is reported.
pub determine_transition_table :
    (ip : ℕ) (item : Item) (old : Option TrackedItemState)
    → let found = determine_transition ip item old (status_to_string item.status) in
      ((t : StateTransition) → found ≡ some t → Observed old item t.type × IsAbout ip item old t)
      × ((type : TransitionType)
          → Observed old item type
          → (t : StateTransition) × (found ≡ some t) × (t.type ≡ type))
unfolding determine_transition
determine_transition_table ip item none = (reported, listed)
  where
    reported :
        (t : StateTransition)
        → unseen_transition ip item item.status ≡ some t
        → Observed none item t.type × IsAbout ip item none t
    reported t e = ground arith

    listed :
        (type : TransitionType)
        → Observed none item type
        → (t : StateTransition) × (unseen_transition ip item item.status ≡ some t) × (t.type ≡ type)
    listed TransitionType.new_listing o =
        (first_transition ip item TransitionType.new_listing, rw o refl, refl)
    listed TransitionType.new_sold o =
        (first_transition ip item TransitionType.new_sold, rw o refl, refl)
    listed TransitionType.sold o = absurd o
    listed TransitionType.price_change o = absurd o
    listed TransitionType.relisted o = absurd o
determine_transition_table ip item (some old) = (
  λ t e. seen-Observed ip item item.status old t refl e,
  λ type o. Observed-seen ip item item.status old type refl o,
)

-- How many transitions of a type a list has.
abbrev pub same_type : TransitionType → TransitionType → ℕ
same_type TransitionType.new_listing TransitionType.new_listing = 1
same_type TransitionType.new_sold TransitionType.new_sold = 1
same_type TransitionType.sold TransitionType.sold = 1
same_type TransitionType.price_change TransitionType.price_change = 1
same_type TransitionType.relisted TransitionType.relisted = 1
same_type _ _ = 0

abbrev pub count_type : TransitionType → List StateTransition → ℕ
count_type type [] = 0
count_type type (t ∷ ts) = same_type type t.type + count_type type ts

-- The counts of a summary on top of those of another.
record Adds (acc : TransitionSummary) (ts : List StateTransition) (s : TransitionSummary)
    : Type 0 where
  listings : s.new_listings ≡ acc.new_listings + count_type TransitionType.new_listing ts
  sales :
      s.sold ≡ acc.sold + count_type TransitionType.sold ts + count_type TransitionType.new_sold ts
  prices : s.price_changes ≡ acc.price_changes + count_type TransitionType.price_change ts
  relistings : s.relisted ≡ acc.relisted + count_type TransitionType.relisted ts

add-Adds :
    (acc : TransitionSummary) (t : StateTransition) (ts : List StateTransition)
    (type : TransitionType) (s : TransitionSummary)
    → t.type ≡ type
    → Adds (add_transition type acc) ts s
    → Adds acc (t ∷ ts) s
unfolding add_transition
add-Adds acc t ts TransitionType.new_listing s e h = ground arith
add-Adds acc t ts TransitionType.new_sold s e h = ground arith
add-Adds acc t ts TransitionType.sold s e h = ground arith
add-Adds acc t ts TransitionType.price_change s e h = ground arith
add-Adds acc t ts TransitionType.relisted s e h = ground arith

summarize_from-Adds :
    (acc : TransitionSummary) (ts : List StateTransition) → Adds acc ts (summarize_from acc ts)
unfolding summarize_from
summarize_from-Adds acc [] = omega arith
summarize_from-Adds acc (t ∷ ts) =
    add-Adds acc t ts t.type _ refl (summarize_from-Adds (add_transition t.type acc) ts)

-- The summary counts the new listings, the sales (of items known or not), the price changes and the
-- relistings of a batch.
pub summarize_transitions_counts :
    (ts : List StateTransition)
    → let s = summarize_transitions ts in
      (s.new_listings ≡ count_type TransitionType.new_listing ts)
      × (s.sold ≡ count_type TransitionType.sold ts + count_type TransitionType.new_sold ts)
      × (s.price_changes ≡ count_type TransitionType.price_change ts)
      × (s.relisted ≡ count_type TransitionType.relisted ts)
unfolding summarize_transitions
summarize_transitions_counts ts = omega (arith, summarize_from-Adds no_transitions ts)
