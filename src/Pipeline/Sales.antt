-- ===== src/Pipeline/Sales.antt =====
-- `collectSoldItemsInfo` of internal/analyzer/pipeline.go. A nil item makes the source panic when
-- its id is read: the result is `none`.
use animehot.Common.{
  ℕ, ◌+◌, ◌≡◌, ◌≤◌, refl, sym, subst, ap, ◌∙◌, String, str_eq, eq_iff, Bool, true, false, ltb,
  Option, none, some, List, [], ◌∷◌, ◌++◌, ◌==◌, length, ◌⊎◌, inl, inr, if◌then◌else◌, Bool-cases,
  arith,
}
use animehot.Queue.Messages.{Item}
use animehot.Tracker.Transitions.{TransitionType, StateTransition, summarize_transitions}
use animehot.Tracker.Table.{count_type, same_type, summarize_transitions_counts}

pub record PriceItemInfo : Type 0 where
  pub source_id : String
  pub title : String
  pub price : ℕ
  pub image_url : String
  pub item_url : String

-- The map from ids to items as a function: the last item with an id counts, and no item without one.
unfoldable pub item_map :
    List (Option Item) → (String → Option Item) → Option (String → Option Item)
item_map [] known = some known
item_map (none ∷ items) known = none
item_map (some item ∷ items) known = item_map items (
    if str_eq item.source_id "" then known else λ id.
    if str_eq item.source_id id then some item else known id)

unfoldable pub is_sale : TransitionType → Bool
is_sale TransitionType.sold = true
is_sale TransitionType.new_sold = true
is_sale _ = false

unfoldable pub price_info : Item → PriceItemInfo
price_info item = record {
  source_id = item.source_id;
  title = item.title;
  price = item.price;
  image_url = item.image_url;
  item_url = item.item_url;
}

abbrev pub add_info : Option Item → List PriceItemInfo → List PriceItemInfo
add_info none infos = infos
add_info (some item) infos = if ltb 0 item.price then price_info item ∷ infos else infos

unfoldable pub sold_infos : List StateTransition → (String → Option Item) → List PriceItemInfo
unfolding is_sale price_info
sold_infos [] known = []
sold_infos (t ∷ ts) known =
    let rest = sold_infos ts known in
    if is_sale t.type then add_info (known t.source_id) rest else rest

abbrev pub infos_of :
    List StateTransition → Option (String → Option Item) → Option (List PriceItemInfo)
infos_of ts none = none
infos_of ts (some known) = some (sold_infos ts known)

unfoldable pub collect_sold_items_info :
    List StateTransition → List (Option Item) → Option (List PriceItemInfo)
unfolding item_map
collect_sold_items_info ts items = infos_of ts (item_map items (λ id. none))

-- The list holds a nil item.
abbrev pub has_nil : List (Option Item) → Bool
has_nil [] = false
has_nil (none ∷ items) = true
has_nil (some item ∷ items) = has_nil items

-- The last item of the list with an id.
abbrev pub last_with : String → List (Option Item) → Option Item
last_with id [] = none
last_with id (none ∷ items) = last_with id items
last_with id (some item ∷ items) = elim (last_with id items) [
  | some later ↦ some later
  | none ↦ if str_eq item.source_id id then some item else none
]

-- What `collectSoldItemsInfo` should report of a transition: the last item with its id, if the
-- transition is one of those that the summary counts as sales, and the item has a price.
abbrev pub sale_count : TransitionType → ℕ
sale_count type = same_type TransitionType.sold type + same_type TransitionType.new_sold type

abbrev pub priced : Option Item → List PriceItemInfo
priced none = []
priced (some item) = if ltb 0 item.price then price_info item ∷ [] else []

abbrev pub sale_infos : List StateTransition → List (Option Item) → List PriceItemInfo
sale_infos [] items = []
sale_infos (t ∷ ts) items =
    (if sale_count t.type == 0
      then []
      else if str_eq t.source_id ""
      then []
      else priced (last_with t.source_id items))
    ++ sale_infos ts items

abbrev or_else : Option Item → Option Item → Option Item
or_else (some x) o = some x
or_else none o = o

unequal {ℓ} : {A : Type ℓ} → true ≡ false → A
unequal e = cc

put_item :
    (item : Item) (known : String → Option Item) (id : String)
    → (if str_eq item.source_id ""
        then known id
        else if str_eq item.source_id id
        then some item
        else known id)
      ≡ (if str_eq id ""
          then known id
          else if str_eq item.source_id id
          then some item
          else known id)
put_item item known id = elim (Bool-cases (str_eq item.source_id "")) [
  | inl a ↦ elim (Bool-cases (str_eq id "")) [
    | inl c ↦ rw (a, c) refl
    | inr c ↦ elim (Bool-cases (str_eq item.source_id id)) [
      | inl b ↦ unequal (
          sym (
            (eq_iff id "").1
              (sym ((eq_iff item.source_id id).0 b) ∙ (eq_iff item.source_id "").0 a))
          ∙ c)
      | inr b ↦ rw (a, c, b) refl
    ]
  ]
  | inr a ↦ elim (Bool-cases (str_eq id "")) [
    | inl c ↦ elim (Bool-cases (str_eq item.source_id id)) [
      | inl b ↦ unequal (
          sym ((eq_iff item.source_id "").1 ((eq_iff item.source_id id).0 b ∙ (eq_iff id "").0 c))
          ∙ a)
      | inr b ↦ rw (a, c, b) refl
    ]
    | inr c ↦ rw (a, c) refl
  ]
]

same_some {ℓ} : {A : Type ℓ} {x y : A} → some x ≡ some y → x ≡ y
same_some e = cc

-- The map finds the last item with an id, and none without one.
item_map-last_with :
    (items : List (Option Item)) (known found : String → Option Item) (id : String)
    → item_map items known ≡ some found
    → found id ≡ (if str_eq id "" then known id else or_else (last_with id items) (known id))
unfolding item_map
item_map-last_with [] known found id e = elim (Bool-cases (str_eq id "")) [
  | inl c ↦ ap (λ f. f id) (sym (same_some e)) ∙ (rw c refl)
  | inr c ↦ ap (λ f. f id) (sym (same_some e)) ∙ (rw c refl)
]
item_map-last_with (none ∷ items) known found id e = cc
item_map-last_with (some item ∷ items) known found id e =
    let put : Option Item =
      if str_eq item.source_id ""
      then known id
      else if str_eq item.source_id id
      then some item
      else known id in
    item_map-last_with items _ found id e
    ∙ ap (λ o. if str_eq id "" then o else or_else (last_with id items) o)
        (put_at ∙ put_item item known id)
    ∙ merged (str_eq id "") (str_eq item.source_id id) (last_with id items)
  where
    put_at :
        (if str_eq item.source_id "" then known else λ x.
        if str_eq item.source_id x then some item else known x)
          id
        ≡ (if str_eq item.source_id ""
            then known id
            else if str_eq item.source_id id
            then some item
            else known id)
    put_at = elim (Bool-cases (str_eq item.source_id "")) [ inl a ↦ rw a refl | inr a ↦ rw a refl ]

    merged :
        (c b : Bool) (o : Option Item)
        → (if c
            then (if c then known id else if b then some item else known id)
            else or_else o (if c then known id else if b then some item else known id))
          ≡ (if c
              then known id
              else or_else
                  (elim o [ some later ↦ some later | none ↦ if b then some item else none ])
                  (known id))
    merged true b o = refl
    merged false b (some x) = refl
    merged false true none = refl
    merged false false none = refl

item_map-cases :
    (items : List (Option Item)) (known : String → Option Item)
    → ((has_nil items ≡ true) × (item_map items known ≡ none))
      ⊎ ((has_nil items ≡ false)
          × (found : String → Option Item) × (item_map items known ≡ some found))
unfolding item_map
item_map-cases [] known = inr (refl, known, refl)
item_map-cases (none ∷ items) known = inl (refl, refl)
item_map-cases (some item ∷ items) known = item_map-cases items _

length-add_info :
    (o : Option Item) (infos : List PriceItemInfo) → length (add_info o infos) ≤ length infos + 1
length-add_info none infos = omega arith
length-add_info (some item) infos = ground arith

-- The number of infos is at most the number of sales that the summary counts.
length-sold_infos :
    (ts : List StateTransition) (known : String → Option Item)
    → length (sold_infos ts known)
      ≤ count_type TransitionType.sold ts + count_type TransitionType.new_sold ts
unfolding sold_infos is_sale
length-sold_infos [] known = omega arith
length-sold_infos (t ∷ ts) known = by_type t.type refl (length-sold_infos ts known)
  where
    by_type :
        (type : TransitionType)
        → t.type ≡ type
        → length (sold_infos ts known)
          ≤ count_type TransitionType.sold ts + count_type TransitionType.new_sold ts
        → length (
            if is_sale type
            then add_info (known t.source_id) (sold_infos ts known)
            else sold_infos ts known)
          ≤ (same_type TransitionType.sold type + count_type TransitionType.sold ts)
            + (same_type TransitionType.new_sold type + count_type TransitionType.new_sold ts)
    by_type TransitionType.sold e h =
        omega (arith, h, length-add_info (known t.source_id) (sold_infos ts known))
    by_type TransitionType.new_sold e h =
        omega (arith, h, length-add_info (known t.source_id) (sold_infos ts known))
    by_type TransitionType.new_listing e h = omega (arith, h)
    by_type TransitionType.price_change e h = omega (arith, h)
    by_type TransitionType.relisted e h = omega (arith, h)

add_info-priced :
    (o : Option Item) (infos : List PriceItemInfo) → add_info o infos ≡ priced o ++ infos
add_info-priced none infos = refl
add_info-priced (some item) infos = elim (Bool-cases (ltb 0 item.price)) [
  | inl b ↦ rw b refl
  | inr b ↦ rw b refl
]

sold_infos-sale_infos :
    (ts : List StateTransition) (items : List (Option Item)) (known : String → Option Item)
    → ((id : String) → known id ≡ (if str_eq id "" then none else last_with id items))
    → sold_infos ts known ≡ sale_infos ts items
unfolding sold_infos is_sale
sold_infos-sale_infos [] items known k = refl
sold_infos-sale_infos (t ∷ ts) items known k =
    ap (λ rest. if is_sale t.type then add_info (known t.source_id) rest else rest)
      (sold_infos-sale_infos ts items known k)
    ∙ by_type t.type
  where
    looked_up :
        (c : Bool) (o : Option Item) (rest : List PriceItemInfo)
        → priced (if c then none else o) ++ rest ≡ (if c then [] else priced o) ++ rest
    looked_up true o rest = refl
    looked_up false o rest = refl

    counted_sale :
        add_info (known t.source_id) (sale_infos ts items)
        ≡ (if str_eq t.source_id "" then [] else priced (last_with t.source_id items))
          ++ sale_infos ts items
    counted_sale =
        add_info-priced (known t.source_id) (sale_infos ts items)
        ∙ ap (λ o. priced o ++ sale_infos ts items) (k t.source_id)
        ∙ looked_up (str_eq t.source_id "") (last_with t.source_id items) (sale_infos ts items)

    by_type :
        (type : TransitionType)
        → (if is_sale type
            then add_info (known t.source_id) (sale_infos ts items)
            else sale_infos ts items)
          ≡ (if sale_count type == 0
              then []
              else if str_eq t.source_id ""
              then []
              else priced (last_with t.source_id items))
            ++ sale_infos ts items
    by_type TransitionType.sold = counted_sale
    by_type TransitionType.new_sold = counted_sale
    by_type TransitionType.new_listing = refl
    by_type TransitionType.price_change = refl
    by_type TransitionType.relisted = refl

some_or_else :
    (c : Bool) (o : Option Item) → (if c then none else or_else o none) ≡ (if c then none else o)
some_or_else true o = refl
some_or_else false none = refl
some_or_else false (some x) = refl

-- `collectSoldItemsInfo` panics exactly if the list holds a nil item. Otherwise it reports, in the order
-- of the transitions, for each transition that the summary counts as a sale and whose id is not empty,
-- the last item of the list with this id, if there is one and it has a price, and nothing else; so there
-- are at most as many infos as sales in the summary.
pub collect_sold_items_info_lem :
    (ts : List StateTransition) (items : List (Option Item))
    → ((has_nil items ≡ true) × (collect_sold_items_info ts items ≡ none))
      ⊎ ((has_nil items ≡ false)
          × (collect_sold_items_info ts items ≡ some (sale_infos ts items))
          × (length (sale_infos ts items) ≤ (summarize_transitions ts).sold))
unfolding collect_sold_items_info
collect_sold_items_info_lem ts items = elim (item_map-cases items (λ id. none)) [
  | inl (n, e) ↦ inl (n, ap (infos_of ts) e)
  | inr (n, known, e) ↦
      let all : sold_infos ts known ≡ sale_infos ts items =
        sold_infos-sale_infos ts items known λ id.
          item_map-last_with items (λ x. none) known id e
          ∙ some_or_else (str_eq id "") (last_with id items) in
      inr (
        n,
        ap (infos_of ts) e ∙ ap some all,
        subst (λ infos. length infos ≤ (summarize_transitions ts).sold) all
            (omega (arith, length-sold_infos ts known, (summarize_transitions_counts ts).1)),
      )
]
