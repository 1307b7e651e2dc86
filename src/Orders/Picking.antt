-- ===== src/Orders/Picking.antt =====
-- backend/src/modules/orders/domain/pick-list.ts: what must leave the shelf for a set of orders.
-- `localeCompare`, by which products with equal quantities are sorted, is the parameter `collate`.
pub mod Picked
pub mod Groups
use brothers_book_house.Base.{
  Bool, List, Option, [], any, if◌then◌else◌, is_empty, keep, length, ltb, map, map_option, none,
  some, sort_by, sum_by, ℕ, ◌&&◌, ◌++◌, ◌+◌, ◌-◌, ◌==◌, ◌||◌, ◌∷◌,
}
use brothers_book_house.Base.Int.{ltb_ℤ, pos, ℤ}
use brothers_book_house.Base.Text.{Text}
use brothers_book_house.Orders.Lines.{LineKind, is_bundle}
use brothers_book_house.Finance.Cash.Postings.{same_text}

pub record PickComponent : Type 0 where
  pub product_id : ℕ
  pub title : Text
  pub quantity : ℕ

pub record PickItem : Type 0 where
  pub kind : LineKind
  pub product_id : Option ℕ
  pub title : Text
  pub quantity : ℕ
  pub components : List PickComponent

pub record Recipient : Type 0 where
  pub order_no : Text
  pub contact_name : Text
  pub contact_phone : Text
  pub address : Text

pub record PickOrderInput : Type 0 where
  pub recipient : Recipient
  pub items : List PickItem

pub record StockLevel : Type 0 where
  pub stock_on_hand : ℕ
  pub stock_reserved : ℕ
  pub sku : Option Text

pub record PickGroup : Type 0 where
  pub product_id : ℕ
  pub title : Text
  pub sku : Option Text
  pub quantity : ℕ
  pub stock_on_hand : Option ℕ
  pub shortfall : ℕ
  pub orders : List Text
  pub via_bundles : List Text

pub record PickList : Type 0 where
  pub groups : List PickGroup
  pub units : ℕ
  pub short_count : ℕ
  pub orders : List Recipient

-- `if (!list.includes(x)) list.push(x)`
abbrev pub push_new : Text → List Text → List Text
push_new x list = if any (λ y. same_text y x) list then list else list ++ (x ∷ [])

-- `if (via && …)`: an empty title is not listed
abbrev pub push_via : Option Text → List Text → List Text
push_via none list = list
push_via (some via) list = if is_empty via then list else push_new via list

abbrev pub sku_of : Option StockLevel → Option Text
sku_of none = none
sku_of (some s) = s.sku

abbrev pub new_group : ℕ → Text → Option StockLevel → PickGroup
new_group product_id title s = record {
  product_id = product_id;
  title = title;
  sku = sku_of s;
  quantity = 0;
  stock_on_hand = map_option (λ (l : StockLevel). l.stock_on_hand) s;
  shortfall = 0;
  orders = [];
  via_bundles = [];
}

abbrev pub grown : ℕ → Text → Option Text → PickGroup → PickGroup
grown qty order_no via g = record g {
  quantity = g.quantity + qty;
  orders = push_new order_no g.orders;
  via_bundles = push_via via g.via_bundles;
}

abbrev pub short_of : Option ℕ → ℕ → ℕ
short_of none quantity = 0
short_of (some on_hand) quantity = quantity - on_hand

abbrev pub with_shortfall : PickGroup → PickGroup
with_shortfall g = record g { shortfall = short_of g.stock_on_hand g.quantity }

module _ (stock : ℕ → Option StockLevel) (collate : Text → Text → ℤ) where
  -- `add`: the product's group, at the end when it is new
  unfoldable pub add : ℕ → Text → ℕ → Text → Option Text → List PickGroup → List PickGroup
  add product_id title qty order_no via [] =
      grown qty order_no via (new_group product_id title (stock product_id)) ∷ []
  add product_id title qty order_no via (g ∷ gs) =
      let rest = add product_id title qty order_no via gs in
      if g.product_id == product_id then grown qty order_no via g ∷ gs else g ∷ rest

  unfoldable pub pick_components :
      Text → Text → List PickComponent → List PickGroup → List PickGroup
  pick_components order_no via [] groups = groups
  pick_components order_no via (c ∷ cs) groups =
      pick_components order_no via cs
        (add c.product_id c.title c.quantity order_no (some via) groups)

  abbrev pub add_product : Text → PickItem → Option ℕ → List PickGroup → List PickGroup
  add_product order_no it none groups = groups
  add_product order_no it (some id) groups = add id it.title it.quantity order_no none groups

  unfoldable pub add_item : Text → PickItem → List PickGroup → List PickGroup
  add_item order_no it groups =
      if is_bundle it.kind
      then pick_components order_no it.title it.components groups
      else add_product order_no it it.product_id groups

  unfoldable pub add_items : Text → List PickItem → List PickGroup → List PickGroup
  add_items order_no [] groups = groups
  add_items order_no (it ∷ its) groups = add_items order_no its (add_item order_no it groups)

  unfoldable pub add_orders : List PickOrderInput → List PickGroup → List PickGroup
  add_orders [] groups = groups
  add_orders (o ∷ os) groups = add_orders os (add_items o.recipient.order_no o.items groups)

  -- the larger quantity first, then by title
  abbrev pub stands_after : PickGroup → PickGroup → Bool
  stands_after a b =
      ltb a.quantity b.quantity
      || (a.quantity == b.quantity && ltb_ℤ (pos 0) (collate a.title b.title))

  unfoldable pub sorted_groups : List PickOrderInput → List PickGroup
  sorted_groups os = sort_by stands_after (map with_shortfall (add_orders os []))

  unfoldable pub build_pick_list : List PickOrderInput → PickList
  build_pick_list os =
      let groups = sorted_groups os in
      record {
        groups = groups;
        units = sum_by (λ g. g.quantity) groups;
        short_count = length (keep (λ g. ltb 0 g.shortfall) groups);
        orders = map (λ (o : PickOrderInput). o.recipient) os;
      }
