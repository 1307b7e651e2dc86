-- ===== src/Inventory/Shelf.antt =====
-- backend/src/modules/inventory/inventory.service.ts: what the service promises of a product, whatever
-- happens to its batches and its cost. The shelf forgets both.
use brothers_book_house.Base.{
  ==_iff, Bool, Bool-cases, List, Option, any, arith, if◌then◌else◌, inl, inr, is_empty, is_some,
  ltb, map_option, none, not, refl, some, sum_by, true, ℕ, ◌+◌, ◌-◌, ◌==◌, ◌||◌, ◌∙◌, ◌≡◌,
}
use brothers_book_house.Base.Int.{neg_part, pos_part, ℤ}
use brothers_book_house.Base.Outcome.{ok}
use brothers_book_house.Inventory.{
  LotSource, Product, Stock, StockContext, StockMovementType, log, return, set_product,
  within_checks, write_product,
}
use brothers_book_house.Inventory.Lots.{
  Used, average_cost, consume, consumption_rows, cost_price_of, create_lot, give_lots_back,
  price_of, refresh_cost, set_cost, stamp_order_cost, take_oldest, unconsume,
}
use brothers_book_house.Inventory.Steps.{follow_count, stamp}
use brothers_book_house.Money.{Decimal, Money}

pub record Item : Type 0 where
  pub on_hand : ℕ
  pub reserved : ℕ
  pub tracked : Bool
  pub backorder : Bool
  pub deleted : Bool

abbrev pub item_of : Product → Item
item_of p = record {
  on_hand = p.stock_on_hand;
  reserved = p.stock_reserved;
  tracked = p.track_inventory;
  backorder = p.allow_backorder;
  deleted = p.deleted;
}

abbrev pub shelf : Stock → ℕ → Option Item
shelf s id = map_option item_of (s.products id)

-- What the movements of a product brought in, and what they took out.
abbrev pub moved_in : ℕ → Stock → ℕ
moved_in id s =
    sum_by (λ m. if m.product_id == id then pos_part m.qty_on_hand_delta else 0) s.movements

abbrev pub moved_out : ℕ → Stock → ℕ
moved_out id s =
    sum_by (λ m. if m.product_id == id then neg_part m.qty_on_hand_delta else 0) s.movements

-- Shelf and movements are as before.
abbrev pub Kept : Stock → Stock → Type 0
Kept s t = ((q : ℕ) → shelf t q ≡ shelf s q) × (t.movements ≡ s.movements)

-- One product was written, and one movement with its change.
abbrev pub Wrote : Stock → ℕ → Product → ℤ → Stock → Type 0
Wrote s id p d t =
    ((q : ℕ) → shelf t q ≡ (if q == id then some (item_of p) else shelf s q))
    × ((q : ℕ) → moved_in q t ≡ (if id == q then pos_part d else 0) + moved_in q s)
    × ((q : ℕ) → moved_out q t ≡ (if id == q then neg_part d else 0) + moved_out q s)

pub Kept-trans : (s t u : Stock) → Kept s t → Kept t u → Kept s u
Kept-trans s t u h k = (λ q. k.0 q ∙ h.0 q, k.1 ∙ h.1)

pub Wrote-Kept :
    (s t u : Stock) (id : ℕ) (p : Product) (d : ℤ) → Wrote s id p d t → Kept t u → Wrote s id p d u
Wrote-Kept s t u id p d w k = (λ q. k.0 q ∙ w.0 q, λ q. rw (k.1) (w.1 q), λ q. rw (k.1) (w.2 q))

shelf-set_product :
    (s : Stock) (id : ℕ) (p : Product) (q : ℕ)
    → shelf (set_product s id p) q ≡ (if q == id then some (item_of p) else shelf s q)
shelf-set_product s id p q = elim (Bool-cases (q == id)) [ inl t ↦ rw t refl | inr t ↦ rw t refl ]

pub write_product-Wrote :
    (s s' : Stock) (id : ℕ) (p : Product) (type : StockMovementType) (d r : ℤ) (ctx : StockContext)
    (cost : Option Money)
    → write_product s id p ≡ ok s'
    → (within_checks p ≡ true) × Wrote s id p d (log s' id p type d r ctx cost)
unfolding write_product log
write_product-Wrote s s' id p type d r ctx cost h = elim (Bool-cases (within_checks p)) [
  | inl t ↦
      let same : s' ≡ set_product s id p = ground arith in
      rw same (t, (λ q. shelf-set_product s id p q, λ q. refl, λ q. refl))
  | inr t ↦ ground arith
]

set_cost-Kept : (id : ℕ) (a : Option Money) (s : Stock) → Kept s (set_cost id a (s.products id) s)
set_cost-Kept id none s = (λ q. refl, refl)
set_cost-Kept id (some a) s = go (s.products id) refl
  where
    go : (o : Option Product) → s.products id ≡ o → Kept s (set_cost id (some a) o s)
    go none e = (λ q. refl, refl)
    go (some p) e = (
      λ q. elim (Bool-cases (q == id)) [
        | inl t ↦ rw t (rw ((==_iff q id).0 t) (rw e refl))
        | inr t ↦ rw t refl
      ],
      refl,
    )

module _ ⦃dec : Decimal⦄ where
  pub refresh_cost-Kept : (id : ℕ) (s : Stock) → Kept s (refresh_cost id s)
  unfolding refresh_cost
  refresh_cost-Kept id s = set_cost-Kept id (average_cost id s.lots) s

  pub consume-Kept : (id qty : ℕ) (order : Option ℕ) (s : Stock) → Kept s (consume id qty order s).0
  unfolding consume
  consume-Kept id qty order s = refresh_cost-Kept id (record s {
    lots = (take_oldest id qty s.lots).lots;
    consumptions = consumption_rows id order (take_oldest id qty s.lots).used s.consumptions;
  })

  pub stamp-Kept :
      (o : Option ℕ) (id : ℕ) (used : List Used) (s : Stock) → Kept s (stamp o id used s)
  unfolding stamp stamp_order_cost
  stamp-Kept none id used s = (λ q. refl, refl)
  stamp-Kept (some o) id used s =
      elim (Bool-cases (is_empty used || any (λ u. not (is_some u.unit_cost)) used)) [
        | inl t ↦ rw t (λ q. refl, refl)
        | inr t ↦ rw t (λ q. refl, refl)
      ]

  pub create_lot-Kept :
      (id : ℕ) (source : LotSource) (qty : ℕ) (cost price : Option Money) (at : Option ℕ)
      (s : Stock)
      → Kept s (create_lot id source qty cost price at s)
  unfolding create_lot
  create_lot-Kept id source qty cost price at s = (λ q. refl, refl)

  give_lots_back-Kept :
      (o : Option ℕ) (id qty : ℕ) (s : Stock) → Kept s (give_lots_back o id qty s).0
  unfolding give_lots_back
  give_lots_back-Kept none id qty s = (λ q. refl, refl)
  give_lots_back-Kept (some o) id qty s = (λ q. refl, refl)

  pub unconsume-Kept :
      (id qty : ℕ) (ctx : StockContext) (s : Stock) → Kept s (unconsume id qty ctx s)
  unfolding unconsume
  unconsume-Kept id qty ctx s =
      let (t, left) = give_lots_back ctx.order_id id qty s in
      let given = give_lots_back-Kept ctx.order_id id qty s in
      let lot = create_lot id return left (cost_price_of t id) (price_of t id) none t in
      let after : Kept s (if left == 0 then t else lot) = elim (Bool-cases (left == 0)) [
        | inl e ↦ rw e given
        | inr e ↦ rw e given
      ] in
      Kept-trans s (if left == 0 then t else lot) (refresh_cost id (if left == 0 then t else lot))
        after (refresh_cost-Kept id _)

  pub follow_count-Kept :
      (id before after : ℕ) (type : StockMovementType) (p : Product) (s : Stock)
      → Kept s (follow_count id before after type p s)
  unfolding follow_count
  follow_count-Kept id before after type p s = elim (Bool-cases (ltb before after)) [
    | inl t ↦ rw t (λ q. refl, refl)
    | inr t ↦ rw t (consume-Kept id (before - after) none s)
  ]
