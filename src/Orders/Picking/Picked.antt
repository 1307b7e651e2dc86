-- ===== src/Orders/Picking/Picked.antt =====
-- What a pick list holds of each product, against what the orders need.
use brothers_book_house.Base.{
  Bool, Bool-cases, List, Option, [], arith, if◌then◌else◌, inl, inr, map, none, refl, some, sum_by,
  sum_by-sort_by, sym, zero-add, ℕ, ◌+◌, ◌==◌, ◌∙◌, ◌∷◌, ◌≡◌,
}
use brothers_book_house.Base.Int.{ℤ}
use brothers_book_house.Base.Text.{Text}
use brothers_book_house.Orders.Lines.{is_bundle}
use brothers_book_house.Orders.Picking.{
  PickComponent, PickGroup, PickItem, PickOrderInput, StockLevel, add, add_item, add_items,
  add_orders, add_product, pick_components, sorted_groups, stands_after, with_shortfall,
}

-- The units that the orders need of the products that pass the test.
abbrev pub units_if : (ℕ → Bool) → ℕ → ℕ → ℕ
units_if p id qty = if p id then qty else 0

abbrev pub product_units : (ℕ → Bool) → ℕ → Option ℕ → ℕ
product_units p qty none = 0
product_units p qty (some id) = units_if p id qty

abbrev pub component_units : (ℕ → Bool) → List PickComponent → ℕ
component_units p cs = sum_by (λ c. units_if p c.product_id c.quantity) cs

abbrev pub item_units : (ℕ → Bool) → PickItem → ℕ
item_units p it =
    if is_bundle it.kind
    then component_units p it.components
    else product_units p it.quantity it.product_id

abbrev pub order_units : (ℕ → Bool) → PickOrderInput → ℕ
order_units p o = sum_by (λ it. item_units p it) o.items

abbrev pub needed_units : (ℕ → Bool) → List PickOrderInput → ℕ
needed_units p os = sum_by (λ o. order_units p o) os

-- The units of the groups, of the products that pass the test.
abbrev pub group_units : (ℕ → Bool) → List PickGroup → ℕ
group_units p gs = sum_by (λ g. units_if p g.product_id g.quantity) gs

module _ (stock : ℕ → Option StockLevel) (collate : Text → Text → ℤ) (p : ℕ → Bool) where
  group_units-add :
      (id : ℕ) (title : Text) (qty : ℕ) (order_no : Text) (via : Option Text) (gs : List PickGroup)
      → group_units p (add stock collate id title qty order_no via gs)
        ≡ group_units p gs + units_if p id qty
  unfolding add
  group_units-add id title qty order_no via [] = ground arith
  group_units-add id title qty order_no via (g ∷ gs) = elim (Bool-cases (g.product_id == id)) [
    | inl e ↦ rw e (same_product (ground (arith, e)))
    | inr e ↦ rw e (omega (arith, group_units-add id title qty order_no via gs))
  ]
    where
      same_product :
          g.product_id ≡ id
          → units_if p g.product_id (g.quantity + qty) + group_units p gs
            ≡ units_if p g.product_id g.quantity + group_units p gs + units_if p id qty
      same_product e = rw (sym e) (ground arith)

  group_units-pick_components :
      (order_no via : Text) (cs : List PickComponent) (gs : List PickGroup)
      → group_units p (pick_components stock collate order_no via cs gs)
        ≡ group_units p gs + component_units p cs
  unfolding pick_components
  group_units-pick_components order_no via [] gs = omega arith
  group_units-pick_components order_no via (c ∷ cs) gs = omega (
    arith,
    group_units-pick_components order_no via cs
        (add stock collate c.product_id c.title c.quantity order_no (some via) gs),
    group_units-add c.product_id c.title c.quantity order_no (some via) gs,
  )

  group_units-add_product :
      (order_no : Text) (it : PickItem) (o : Option ℕ) (gs : List PickGroup)
      → group_units p (add_product stock collate order_no it o gs)
        ≡ group_units p gs + product_units p it.quantity o
  group_units-add_product order_no it none gs = omega arith
  group_units-add_product order_no it (some id) gs =
      group_units-add id it.title it.quantity order_no none gs

  group_units-add_item :
      (order_no : Text) (it : PickItem) (gs : List PickGroup)
      → group_units p (add_item stock collate order_no it gs) ≡ group_units p gs + item_units p it
  unfolding add_item
  group_units-add_item order_no it gs = elim (Bool-cases (is_bundle it.kind)) [
    | inl e ↦ rw e (group_units-pick_components order_no it.title it.components gs)
    | inr e ↦ rw e (group_units-add_product order_no it it.product_id gs)
  ]

  group_units-add_items :
      (order_no : Text) (its : List PickItem) (gs : List PickGroup)
      → group_units p (add_items stock collate order_no its gs)
        ≡ group_units p gs + sum_by (λ it. item_units p it) its
  unfolding add_items
  group_units-add_items order_no [] gs = omega arith
  group_units-add_items order_no (it ∷ its) gs = omega (
    arith,
    group_units-add_items order_no its (add_item stock collate order_no it gs),
    group_units-add_item order_no it gs,
  )

  group_units-add_orders :
      (os : List PickOrderInput) (gs : List PickGroup)
      → group_units p (add_orders stock collate os gs) ≡ group_units p gs + needed_units p os
  unfolding add_orders
  group_units-add_orders [] gs = omega arith
  group_units-add_orders (o ∷ os) gs = omega (
    arith,
    group_units-add_orders os (add_items stock collate o.recipient.order_no o.items gs),
    group_units-add_items o.recipient.order_no o.items gs,
  )

  group_units-map : (gs : List PickGroup) → group_units p (map with_shortfall gs) ≡ group_units p gs
  group_units-map [] = refl
  group_units-map (g ∷ gs) = omega (arith, group_units-map gs)

  pub group_units-sorted_groups :
      (os : List PickOrderInput)
      → group_units p (sorted_groups stock collate os) ≡ needed_units p os
  unfolding sorted_groups
  group_units-sorted_groups os =
      sum_by-sort_by (stands_after stock collate) (λ g. units_if p g.product_id g.quantity)
        (map with_shortfall (add_orders stock collate os []))
      ∙ group_units-map (add_orders stock collate os [])
      ∙ group_units-add_orders os []
      ∙ zero-add (needed_units p os)
