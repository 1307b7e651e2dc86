-- ===== src/Orders/Picking/Groups.antt =====
-- The groups of a pick list: one for each product, with what the shelf lacks.
use brothers_book_house.Base.{
  All, All-sort_by, Bool-cases, List, Option, [], ap, arith, if◌then◌else◌, inl, inr, map,
  map_option, none, refl, some, subst, sum_by, sum_by-sort_by, sym, true, ℕ, ℕ_discrete, ◌==◌, ◌∙◌,
  ◌∷◌, ◌≡◌, ◌≢◌, ◌≤◌,
}
use brothers_book_house.Base.Int.{ℤ}
use brothers_book_house.Base.Text.{Text}
use brothers_book_house.Orders.Picking.{
  PickComponent, PickGroup, PickItem, PickOrderInput, StockLevel, add, add_item, add_items,
  add_orders, add_product, build_pick_list, pick_components, short_of, sorted_groups, stands_after,
  with_shortfall,
}
use brothers_book_house.Orders.Lines.{is_bundle}
use brothers_book_house.Orders.Picking.Picked.{group_units, group_units-sorted_groups, needed_units}

-- How many groups a product has.
abbrev pub group_count : ℕ → List PickGroup → ℕ
group_count q gs = sum_by (λ g. if g.product_id == q then 1 else 0) gs

abbrev pub on_hand_of : Option StockLevel → Option ℕ
on_hand_of s = map_option (λ (l : StockLevel). l.stock_on_hand) s

-- What the shelf lacks of a group's units.
abbrev pub IsShort : (ℕ → Option StockLevel) → PickGroup → Type 0
IsShort stock g = g.shortfall ≡ short_of (on_hand_of (stock g.product_id)) g.quantity

module _ (stock : ℕ → Option StockLevel) (collate : Text → Text → ℤ) where
  -- What a group tells of the shelf is what is in stock of its product.
  abbrev IsTold : PickGroup → Type 0
  IsTold g = g.stock_on_hand ≡ on_hand_of (stock g.product_id)

  abbrev IsGrouped : List PickGroup → Type 0
  IsGrouped gs = ((q : ℕ) → group_count q gs ≤ 1) × All IsTold gs

  other_count :
      (q id : ℕ) (title : Text) (qty : ℕ) (order_no : Text) (via : Option Text)
      (gs : List PickGroup)
      → id ≢ q
      → group_count q (add stock collate id title qty order_no via gs) ≡ group_count q gs
  unfolding add
  other_count q id title qty order_no via [] h = ground (arith, h)
  other_count q id title qty order_no via (g ∷ gs) h =
      ground (arith, other_count q id title qty order_no via gs h)

  own_count :
      (id : ℕ) (title : Text) (qty : ℕ) (order_no : Text) (via : Option Text) (gs : List PickGroup)
      → group_count id gs ≤ 1
      → group_count id (add stock collate id title qty order_no via gs) ≡ 1
  unfolding add
  own_count id title qty order_no via [] h = ground arith
  own_count id title qty order_no via (g ∷ gs) h = elim (Bool-cases (g.product_id == id)) [
    | inl e ↦ ground (arith, h, e)
    | inr e ↦ ground (arith, h, e, own_count id title qty order_no via gs)
  ]

  All-add :
      (id : ℕ) (title : Text) (qty : ℕ) (order_no : Text) (via : Option Text) (gs : List PickGroup)
      → All IsTold gs
      → All IsTold (add stock collate id title qty order_no via gs)
  unfolding add
  All-add id title qty order_no via [] ps = (refl, tt)
  All-add id title qty order_no via (g ∷ gs) ps = elim (Bool-cases (g.product_id == id)) [
    | inl e ↦ rw e (ps.0, ps.1)
    | inr e ↦ rw e (ps.0, All-add id title qty order_no via gs ps.1)
  ]

  IsGrouped-add :
      (id : ℕ) (title : Text) (qty : ℕ) (order_no : Text) (via : Option Text) (gs : List PickGroup)
      → IsGrouped gs
      → IsGrouped (add stock collate id title qty order_no via gs)
  IsGrouped-add id title qty order_no via gs p = (
    λ q. elim (ℕ_discrete id q) [
      | yes e ↦
          subst (λ x. group_count x (add stock collate id title qty order_no via gs) ≤ 1) e
            (omega (arith, own_count id title qty order_no via gs (p.0 id)))
      | no n ↦ omega (arith, other_count q id title qty order_no via gs n, p.0 q)
    ],
    All-add id title qty order_no via gs p.1,
  )

  IsGrouped-pick_components :
      (order_no via : Text) (cs : List PickComponent) (gs : List PickGroup)
      → IsGrouped gs
      → IsGrouped (pick_components stock collate order_no via cs gs)
  unfolding pick_components
  IsGrouped-pick_components order_no via [] gs p = p
  IsGrouped-pick_components order_no via (c ∷ cs) gs p =
      IsGrouped-pick_components order_no via cs
        (add stock collate c.product_id c.title c.quantity order_no (some via) gs)
        (IsGrouped-add c.product_id c.title c.quantity order_no (some via) gs p)

  IsGrouped-add_product :
      (order_no : Text) (it : PickItem) (o : Option ℕ) (gs : List PickGroup)
      → IsGrouped gs
      → IsGrouped (add_product stock collate order_no it o gs)
  IsGrouped-add_product order_no it none gs p = p
  IsGrouped-add_product order_no it (some id) gs p =
      IsGrouped-add id it.title it.quantity order_no none gs p

  IsGrouped-add_item :
      (order_no : Text) (it : PickItem) (gs : List PickGroup)
      → IsGrouped gs
      → IsGrouped (add_item stock collate order_no it gs)
  unfolding add_item
  IsGrouped-add_item order_no it gs p = elim (Bool-cases (is_bundle it.kind)) [
    | inl e ↦ rw e (IsGrouped-pick_components order_no it.title it.components gs p)
    | inr e ↦ rw e (IsGrouped-add_product order_no it it.product_id gs p)
  ]

  IsGrouped-add_items :
      (order_no : Text) (its : List PickItem) (gs : List PickGroup)
      → IsGrouped gs
      → IsGrouped (add_items stock collate order_no its gs)
  unfolding add_items
  IsGrouped-add_items order_no [] gs p = p
  IsGrouped-add_items order_no (it ∷ its) gs p =
      IsGrouped-add_items order_no its (add_item stock collate order_no it gs)
        (IsGrouped-add_item order_no it gs p)

  IsGrouped-add_orders :
      (os : List PickOrderInput) (gs : List PickGroup)
      → IsGrouped gs
      → IsGrouped (add_orders stock collate os gs)
  unfolding add_orders
  IsGrouped-add_orders [] gs p = p
  IsGrouped-add_orders (o ∷ os) gs p =
      IsGrouped-add_orders os (add_items stock collate o.recipient.order_no o.items gs)
        (IsGrouped-add_items o.recipient.order_no o.items gs p)

  group_count-map :
      (q : ℕ) (gs : List PickGroup) → group_count q (map with_shortfall gs) ≡ group_count q gs
  group_count-map q [] = refl
  group_count-map q (g ∷ gs) = ground (arith, group_count-map q gs)

  All-map : (gs : List PickGroup) → All IsTold gs → All (IsShort stock) (map with_shortfall gs)
  All-map [] ps = tt
  All-map (g ∷ gs) ps = (ap (λ o. short_of o g.quantity) ps.0, All-map gs ps.1)

  -- The list has at most one group of a product, with the units of it that the orders need, the parts
  -- of bundles included; a group's shortfall is what the shelf lacks of these units, and none when the
  -- stock of the product is not known; and the list counts all the units that the orders need.
  pub build_pick_list_lem :
      (os : List PickOrderInput)
      → let l = build_pick_list stock collate os in
        ((q : ℕ) → group_count q l.groups ≤ 1)
        × ((q : ℕ) → group_units (λ id. id == q) l.groups ≡ needed_units (λ id. id == q) os)
        × All (IsShort stock) l.groups
        × (l.units ≡ needed_units (λ id. true) os)
  unfolding build_pick_list sorted_groups
  build_pick_list_lem os =
      let gs = add_orders stock collate os [] in
      let grouped : IsGrouped gs = IsGrouped-add_orders os [] (λ q. omega arith, tt) in
      (
        λ q.
            subst (λ n. n ≤ 1)
              (sym (
                sum_by-sort_by (stands_after stock collate)
                  (λ g. if g.product_id == q then 1 else 0) (map with_shortfall gs)
                ∙ group_count-map q gs))
              (grouped.0 q),
        λ q. group_units-sorted_groups stock collate (λ id. id == q) os,
        All-sort_by (stands_after stock collate) (IsShort stock) (map with_shortfall gs)
            (All-map gs grouped.1),
        group_units-sorted_groups stock collate (λ id. true) os,
      )
