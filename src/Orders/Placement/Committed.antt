-- ===== src/Orders/Placement/Committed.antt =====
-- backend/src/modules/orders/application/order-placement.service.ts: what a committed placement went through.
use brothers_book_house.Base.{Option, ap, subst, sym, ℕ, ◌+◌, ◌∙◌, ◌≡◌}
use brothers_book_house.Base.Outcome.{>>=-eq-ok, ok, ok-inj}
use brothers_book_house.Orders.Status.{PaymentMethod}
use brothers_book_house.Orders.Idempotency.{Keys, Prepared}
use brothers_book_house.Orders.Placement.{
  Found, PlacedOrder, Priced, Shop, accepted, answer_of, claim_with, complete_with, finish,
  place_claimed, place_in_tx, place_priced, placed_body, placed_order, write_placed,
}

-- The steps that a committed transaction went through.
pub record Committed (method : PaymentMethod) (found : Found) (idem : Option Prepared) (now : ℕ)
    (shop shop' : Shop) (body : PlacedOrder) : Type 0 where
  pub claimed : Keys PlacedOrder
  pub priced : Priced
  pub is_claimed : claim_with idem now shop.keys ≡ ok claimed
  pub is_accepted : accepted method found ≡ ok priced
  pub is_written :
      write_placed priced
        (placed_order shop.next_order found.customer_id method priced.quote)
        shop.world
      ≡ ok shop'.world
  pub is_body :
      placed_body
        (placed_order shop.next_order found.customer_id method priced.quote)
        priced.quote
        now
      ≡ body
  pub is_completed : complete_with idem (answer_of body) claimed ≡ ok shop'.keys
  pub is_counted : shop'.next_order ≡ shop.next_order + 1

pub place_in_tx-Committed :
    (method : PaymentMethod) (found : Found) (idem : Option Prepared) (now : ℕ) (shop shop' : Shop)
    (body : PlacedOrder)
    → place_in_tx method found idem now shop ≡ ok (shop', body)
    → Committed method found idem now shop shop' body
unfolding place_in_tx place_claimed place_priced finish
place_in_tx-Committed method found idem now shop shop' body h =
    let (keys, c, h1) =
      >>=-eq-ok (claim_with idem now shop.keys) (place_claimed method found idem now shop)
        (shop', body) h in
    let (p, a, h2) =
      >>=-eq-ok (accepted method found) (place_priced method found idem now shop keys) (shop', body)
        h1 in
    let o = placed_order shop.next_order found.customer_id method p.quote in
    let b = placed_body o p.quote now in
    let (w, r, h3) =
      >>=-eq-ok (write_placed p o shop.world) (finish idem b shop keys) (shop', body) h2 in
    let (keys', d, h4) =
      >>=-eq-ok (complete_with idem (answer_of b) keys)
        (λ keys'. ok (record { world = w; keys = keys'; next_order = shop.next_order + 1 }, b))
        (shop', body) h3 in
    let same = ok-inj h4 in
    let same_shop = ap (λ (x : Shop × PlacedOrder). x.0) same in
    let same_body : b ≡ body = ap (λ (x : Shop × PlacedOrder). x.1) same in
    record {
      claimed = keys;
      priced = p;
      is_claimed = c;
      is_accepted = a;
      is_written = r ∙ ap (λ (s : Shop). ok s.world) same_shop;
      is_body = same_body;
      is_completed =
          subst (λ (x : PlacedOrder). complete_with idem (answer_of x) keys ≡ ok shop'.keys)
            same_body (d ∙ ap (λ (s : Shop). ok s.keys) same_shop);
      is_counted = ap (λ (s : Shop). s.next_order) (sym same_shop);
    }
