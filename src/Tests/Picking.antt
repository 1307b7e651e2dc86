-- ===== src/Tests/Picking.antt =====
-- A pick list for two orders, one of them for a bundle.
use brothers_book_house.Base.{
  All, List, Option, [], if◌then◌else◌, insert_by, length, map, none, refl, some, sort_by, true, ℕ,
  ◌==◌, ◌∷◌, ◌≡◌, ◌≤◌,
}
use brothers_book_house.Base.Int.{sub_ℕ, ℤ}
use brothers_book_house.Base.Text.{Text}
use brothers_book_house.Orders.Lines.{LineKind}
use brothers_book_house.Orders.Picking.{
  PickItem, PickOrderInput, Recipient, StockLevel, add, add_item, add_items, add_orders,
  build_pick_list, pick_components, sorted_groups,
}
use brothers_book_house.Orders.Picking.Picked.{group_units, needed_units}
use brothers_book_house.Orders.Picking.Groups.{IsShort, build_pick_list_lem, group_count}

abbrev single : PickItem
single = record {
  kind = LineKind.product_line;
  product_id = some 7;
  title = 78 ∷ [];
  quantity = 2;
  components = [];
}

abbrev set_of_two : PickItem
set_of_two = record {
  kind = LineKind.bundle_line;
  product_id = none;
  title = 83 ∷ [];
  quantity = 1;
  components =
      record { product_id = 7; title = 78 ∷ []; quantity = 1 }
      ∷ record { product_id = 8; title = 79 ∷ []; quantity = 4 }
      ∷ [];
}

abbrev to_reader : Text → Recipient
to_reader order_no = record {
  order_no = order_no;
  contact_name = 65 ∷ [];
  contact_phone = 49 ∷ [];
  address = 66 ∷ [];
}

abbrev two_orders : List PickOrderInput
two_orders =
    record { recipient = to_reader (1 ∷ []); items = single ∷ [] }
    ∷ record { recipient = to_reader (2 ∷ []); items = set_of_two ∷ single ∷ [] }
    ∷ []

abbrev on_shelf : ℕ → Option StockLevel
on_shelf id =
    if id == 7 then some (record { stock_on_hand = 3; stock_reserved = 0; sku = none }) else none

-- Titles by their lengths.
abbrev by_length : Text → Text → ℤ
by_length a b = sub_ℕ (length a) (length b)

first_groups :
    map (λ g. g.quantity) (build_pick_list on_shelf by_length two_orders).groups ≡ 5 ∷ 4 ∷ []
unfolding build_pick_list sorted_groups sort_by insert_by add_orders add_items add_item
    pick_components add
first_groups = refl

build_pick_list_lem_example :
    let l = build_pick_list on_shelf by_length two_orders in
    ((q : ℕ) → group_count q l.groups ≤ 1)
    × ((q : ℕ) → group_units (λ id. id == q) l.groups ≡ needed_units (λ id. id == q) two_orders)
    × All (IsShort on_shelf) l.groups
    × (l.units ≡ needed_units (λ id. true) two_orders)
build_pick_list_lem_example = build_pick_list_lem on_shelf by_length two_orders
