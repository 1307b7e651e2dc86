-- ===== src/Tests/Orders.antt =====
-- An order that is placed from a cart, sent again, and one that is called off.
use brothers_book_house.Orders.Shipping.{by_total, live_rules, lowest_from}
use brothers_book_house.Orders.Quote.Units.{need_of}
use brothers_book_house.Orders.Life.{
  AllConsistent, IsCovered, Life, and_then, at_start, order_moved, total,
}
use brothers_book_house.Orders.Life.Covered.{Life-IsCovered}
use brothers_book_house.Orders.Placement.Written.{IsPlaced, place_in_tx-IsPlaced}
use brothers_book_house.Orders.Placement.Replay.{place-place_in_tx}
use brothers_book_house.Orders.Transition.Units.{IsConsistent}
use brothers_book_house.Base.{
  Bool-cases, [], ap, arith, false, if◌then◌else◌, inl, inr, insert_by, none, refl, some, sort_by,
  subst, sum_by, sym, true, ℕ, ◌+◌, ◌==◌, ◌∙◌, ◌∷◌, ◌≡◌,
}
use brothers_book_house.Base.Int.{pos}
use brothers_book_house.Base.Outcome.{ok}
use brothers_book_house.Money.Rounding.{paisa_decimal}
use brothers_book_house.Inventory.{
  Stock, StockMovementType, add_line, add_lines, each_line, log, merge, write_product,
}
use brothers_book_house.Inventory.Steps.{reserve, reserve_row}
use brothers_book_house.Orders.Status.{PaymentMethod, TransitionActor, is_terminal}
use brothers_book_house.Orders.Quote.{
  Quote, QuoteInput, calculate_quote, coupon_effect, of_product, quoted_lines, stock_units_from,
}
use brothers_book_house.Orders.Transition.{Order, apply, stock_lines_of}
use brothers_book_house.Orders.Idempotency.{
  KeyRow, Keys, Prepared, claim, complete, set_key, ttl_ms,
}
use brothers_book_house.Orders.Placement.{
  Found, PlacedOrder, Shop, accepted, answer_of, check_priced, finish, place, place_claimed,
  place_in_tx, place_priced, placed_body, placed_order, take_coupon, with_order, write_placed,
}
use brothers_book_house.Tests.Stockroom.{bought, novel}
use brothers_book_house.Tests.Carry.{call_off, called_off, calls_off, shop, two_copies, used_once}
use brothers_book_house.Tests.Prices.{dhaka, plain_book}

abbrev small_cart : QuoteInput
small_cart = record {
  lines = of_product (record plain_book { id = 7 }) 2 ∷ [];
  coupon = none;
  zone = some dhaka;
  shipping_rules = [];
  now = 50;
}

abbrev quote : Quote
quote = calculate_quote ⦃dec = paisa_decimal⦄ small_cart

abbrev buyer : Found
buyer = record {
  phone = some 1_711_000_000;
  customer_id = 5;
  is_blocked = false;
  priced = ok (record { quote = quote; coupon_id = none });
}

abbrev key : Prepared
key = record { scope = 1; key = 65 ∷ 66 ∷ []; hash = 99 }

abbrev before : Shop
before = record { world = record shop { orders = λ k. none }; keys = λ k. none; next_order = 20 }

abbrev order_20 : Order
order_20 = placed_order 20 5 PaymentMethod.cod quote

abbrev body_20 : PlacedOrder
body_20 = placed_body order_20 quote 50

abbrev stock_20 : Stock
stock_20 = record before.world.stock {
  products = λ q.
      if q == 7 then some (record novel { stock_reserved = 4 }) else before.world.stock.products q;
  movements =
      record bought {
        type = StockMovementType.order_reserve;
        qty_on_hand_delta = pos 0;
        qty_reserved_delta = pos 2;
        order_id = some 20;
      }
      ∷ bought
      ∷ [];
}

abbrev claimed_row : KeyRow PlacedOrder
claimed_row = record { scope = 1; request_hash = 99; expires_at = 50 + ttl_ms; response = none }

abbrev claimed : Keys PlacedOrder
claimed = set_key (65 ∷ 66 ∷ []) (some claimed_row) before.keys

abbrev after_20 : Shop
after_20 = record {
  world = with_order order_20 before.world stock_20 used_once;
  keys =
      set_key (65 ∷ 66 ∷ []) (some (record claimed_row { response = some (answer_of body_20) }))
        claimed;
  next_order = 21;
}

places : place_in_tx PaymentMethod.cod buyer (some key) 50 before ≡ ok (after_20, body_20)
unfolding place_in_tx claim place_claimed accepted check_priced place_priced write_placed
    take_coupon with_order finish complete calculate_quote coupon_effect quoted_lines live_rules
    by_total lowest_from stock_units_from reserve merge add_lines add_line sort_by insert_by
    each_line reserve_row write_product log
places = refl

place_in_tx-IsPlaced_example :
    (true ≡ true)
    × (false ≡ false)
    × (◌≡◌ {A = ℕ} 20 20)
    × (◌≡◌ {A = ℕ} 21 21)
    × IsPlaced order_20 quote
        (λ id. sum_by (need_of id) small_cart.lines)
        before.world
        after_20.world
place_in_tx-IsPlaced_example =
    place_in_tx-IsPlaced ⦃dec = paisa_decimal⦄ small_cart none buyer PaymentMethod.cod (some key) 50
      before after_20 body_20 refl places

place-place_in_tx_example :
    place PaymentMethod.bkash buyer (some key) 60 after_20
    ≡ ok (record { shop = after_20; replayed = true; code = 201; body = body_20 })
place-place_in_tx_example =
    place-place_in_tx PaymentMethod.cod PaymentMethod.bkash buyer buyer key key 50 60 before
      after_20 body_20 places refl (omega arith)

shop-AllConsistent : AllConsistent 13 shop
unfolding is_terminal
shop-AllConsistent k o found = elim (Bool-cases (k == 12)) [
  | inl t ↦
      let e : k ≡ 12 = ground arith in
      let same : two_copies ≡ o = ground (arith, rw t at found) in
      (omega (arith, e), ap (λ (x : Order). x.id) (sym same) ∙ sym e, subst IsConsistent same refl)
  | inr t ↦ cc (rw t at found)
]

shop-IsCovered : IsCovered 13 shop
unfolding total stock_lines_of
shop-IsCovered id i found = elim (Bool-cases (id == 7)) [
  | inl t ↦ ground arith
  | inr t ↦ ground arith
]

applies : apply ⦃dec = paisa_decimal⦄ 12 call_off TransitionActor.customer 9 shop ≡ ok called_off
unfolding apply
applies = calls_off

abbrev one_event : Life ⦃dec = paisa_decimal⦄ 13 shop called_off.world
one_event =
    and_then at_start (order_moved 12 call_off TransitionActor.customer 9 called_off applies refl)

Life-IsCovered_example : AllConsistent 13 called_off.world × IsCovered 13 called_off.world
Life-IsCovered_example =
    Life-IsCovered ⦃dec = paisa_decimal⦄ 13 shop called_off.world one_event shop-AllConsistent
      shop-IsCovered
