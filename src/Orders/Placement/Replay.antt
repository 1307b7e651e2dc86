-- ===== src/Orders/Placement/Replay.antt =====
-- backend/src/modules/orders/application/order-placement.service.ts: a request that is sent again.
use brothers_book_house.Base.{
  Bool-cases, if◌then◌else◌, inl, inr, refl, some, true, ℕ, ◌&&◌, ◌+◌, ◌==◌, ◌≡◌, ◌≤◌,
}
use brothers_book_house.Base.Outcome.{fail, ok}
use brothers_book_house.Orders.Status.{PaymentMethod}
use brothers_book_house.Orders.Idempotency.{Prepared, lookup-complete, ttl_ms}
use brothers_book_house.Orders.Placement.{Found, PlacedOrder, Shop, answer_of, place, place_in_tx}
use brothers_book_house.Orders.Placement.Committed.{place_in_tx-Committed}

-- A request that is sent again under its key within a day gets the answer to the first one, without
-- anything being done, whatever prices and customer are found now; another request under that key is
-- refused.
pub place-place_in_tx :
    (method method' : PaymentMethod) (found found' : Found) (p q : Prepared) (now later : ℕ)
    (shop shop' : Shop) (body : PlacedOrder)
    → place_in_tx method found (some p) now shop ≡ ok (shop', body)
    → q.key ≡ p.key
    → later ≤ now + ttl_ms
    → place method' found' (some q) later shop' ≡ (
        if q.scope == p.scope && q.hash == p.hash
        then ok (record { shop = shop'; replayed = true; code = 201; body = body })
        else fail "idempotency.key_reused")
unfolding place
place-place_in_tx method method' found found' p q now later shop shop' body h same early =
    let t = place_in_tx-Committed method found (some p) now shop shop' body h in
    let answer =
      lookup-complete p q now later (answer_of body) shop.keys t.claimed shop'.keys t.is_claimed
        t.is_completed same early in
    elim (Bool-cases (q.scope == p.scope && q.hash == p.hash)) [
      | inl e ↦ rw e (rw (rw e at answer) refl)
      | inr e ↦ rw e (rw (rw e at answer) refl)
    ]
