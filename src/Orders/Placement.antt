-- ===== src/Orders/Placement.antt =====
-- backend/src/modules/orders/application/order-placement.service.ts: place and placeInTx. What the phone
-- number, the customer and the prices are is found by other services and given here; the contact, the
-- address, the cart, the message to the customer and the audit entry are left out.
pub mod Holds
pub mod Replay
pub mod Committed
pub mod Written
use Prim.Native.String.{String}
use brothers_book_house.Base.{
  Bool, Option, false, if◌then◌else◌, is_empty, is_some, ltb, map, none, not, some, some_and, true,
  ℕ, ◌&&◌, ◌+◌, ◌==◌,
}
use brothers_book_house.Base.Int.{pos, ◌+ℤ◌}
use brothers_book_house.Base.Outcome.{Outcome, fail, ok, ◌>>=◌}
use brothers_book_house.Money.{Money}
use brothers_book_house.Inventory.{Stock, StockLine}
use brothers_book_house.Inventory.Steps.{reserve}
use brothers_book_house.Orders.Status.{
  OrderPaymentStatus, OrderStatus, PaymentMethod, cod, pending, sslcommerz, unpaid,
}
use brothers_book_house.Orders.Quote.{Quote, QuoteCoupon, QuotedLine, StockUnit}
use brothers_book_house.Orders.Redemption.{Coupons, redeem}
use brothers_book_house.Orders.Transition.{
  Customer, Order, OrderItem, World, context_of, set_customer,
}
use brothers_book_house.Orders.Idempotency.{Answer, Keys, Prepared, claim, complete, lookup}

pub record Priced : Type 0 where
  pub quote : Quote
  pub coupon_id : Option ℕ

-- What the services that are asked before the order is written have found.
pub record Found : Type 0 where
  pub phone : Option ℕ
  pub customer_id : ℕ
  pub is_blocked : Bool
  pub priced : Outcome Priced

pub record PlacedOrder : Type 0 where
  pub id : ℕ
  pub status : OrderStatus
  pub payment_method : PaymentMethod
  pub payment_status : OrderPaymentStatus
  pub items_subtotal : Money
  pub discount_total : Money
  pub shipping_fee : Option Money
  pub tax_total : Money
  pub grand_total : Money
  pub placed_at : ℕ
  pub requires_payment : Bool

-- The database: the orders and what they touch, the keys, and the counter of the orders.
pub record Shop : Type 0 where
  pub world : World
  pub keys : Keys PlacedOrder
  pub next_order : ℕ

abbrev pub is_cod : PaymentMethod → Bool
is_cod cod = true
is_cod _ = false

abbrev pub is_sslcommerz : PaymentMethod → Bool
is_sslcommerz sslcommerz = true
is_sslcommerz _ = false

-- ৳10, in paisa
abbrev pub ssl_min : Money
ssl_min = 1_000

abbrev pub or_reject {ℓ} : {A : Type ℓ} → Option String → Outcome A → Outcome A
or_reject none next = next
or_reject (some code) next = fail code

unfoldable pub check_priced : PaymentMethod → Priced → Outcome Priced
check_priced method p = or_reject p.quote.coupon_rejection (
    if is_empty p.quote.lines
    then fail "cart.empty"
    else if not (is_some p.quote.shipping_fee)
    then fail "geo.district_required"
    else if is_sslcommerz method && ltb p.quote.grand_total ssl_min
    then fail "payment.min_amount"
    else ok p)

unfoldable pub accepted : PaymentMethod → Found → Outcome Priced
unfolding check_priced
accepted method found =
    if not (is_some found.phone)
    then fail "order.phone_invalid"
    else if found.is_blocked && is_cod method
    then fail "order.customer_blocked"
    else found.priced >>= check_priced method

abbrev pub order_item_of : QuotedLine → OrderItem
order_item_of l = record {
  kind = l.kind;
  product_id = l.product_id;
  quantity = l.quantity;
  components = map (λ c. record { product_id = c.product_id; qty = c.quantity }) l.components;
}

abbrev pub line_of : StockUnit → StockLine
line_of u = record { product_id = u.product_id; qty = u.qty }

abbrev pub placed_order : ℕ → ℕ → PaymentMethod → Quote → Order
placed_order id buyer method q = record {
  id = id;
  version = 0;
  customer_id = buyer;
  status = pending;
  payment_method = method;
  payment_status = unpaid;
  grand_total = q.grand_total;
  amount_paid = 0;
  paid_at = none;
  stock_reserved = true;
  confirmed_at = none;
  shipped_at = none;
  delivered_at = none;
  cancelled_at = none;
  cancelled_from = none;
  cancel_reason = none;
  courier_loss = 0;
  items = map order_item_of q.lines;
}

abbrev pub placed_body : Order → Quote → ℕ → PlacedOrder
placed_body o q now = record {
  id = o.id;
  status = o.status;
  payment_method = o.payment_method;
  payment_status = o.payment_status;
  items_subtotal = q.items_subtotal;
  discount_total = q.discount_total;
  shipping_fee = q.shipping_fee;
  tax_total = q.tax_total;
  grand_total = o.grand_total;
  placed_at = now;
  requires_payment = is_sslcommerz o.payment_method;
}

-- `if (q.coupon && priced.coupon)`
abbrev pub redeem_with : Option ℕ → Option QuoteCoupon → Order → Coupons → Outcome Coupons
redeem_with (some id) (some c) o cs =
    redeem
      (record {
        coupon_id = id;
        order_id = o.id;
        customer_id = o.customer_id;
        discount = c.discount;
        revoked_at = none;
      })
      cs
redeem_with _ _ o cs = ok cs

abbrev pub count_placed : Money → Customer → Customer
count_placed total c = record c {
  live_orders = c.live_orders + 1;
  total_spent = c.total_spent +ℤ pos total;
}

-- the state once stock and coupon are taken
unfoldable pub with_order : Order → World → Stock → Coupons → World
with_order o w stock coupons = set_customer o.customer_id (count_placed o.grand_total) (record w {
  orders = λ id. if id == o.id then some o else w.orders id;
  stock = stock;
  coupons = coupons;
})

unfoldable pub take_coupon : Priced → Order → World → Stock → Outcome World
unfolding with_order redeem
take_coupon p o w stock = do
  coupons ← redeem_with p.coupon_id p.quote.coupon o w.coupons
  ok (with_order o w stock coupons)

unfoldable pub write_placed : Priced → Order → World → Outcome World
unfolding take_coupon reserve
write_placed p o w = do
  stock ← reserve (map line_of p.quote.stock_units) (context_of o) w.stock
  take_coupon p o w stock

abbrev pub claim_with : Option Prepared → ℕ → Keys PlacedOrder → Outcome (Keys PlacedOrder)
claim_with none now ks = ok ks
claim_with (some p) now ks = claim p now ks

abbrev pub complete_with :
    Option Prepared → Answer PlacedOrder → Keys PlacedOrder → Outcome (Keys PlacedOrder)
complete_with none answer ks = ok ks
complete_with (some p) answer ks = complete p.key answer ks

abbrev pub answer_of : PlacedOrder → Answer PlacedOrder
answer_of body = record { code = 201; body = body }

unfoldable pub finish :
    Option Prepared → PlacedOrder → Shop → Keys PlacedOrder → World → Outcome (Shop × PlacedOrder)
unfolding complete
finish idem body shop keys w = do
  keys' ← complete_with idem (answer_of body) keys
  ok (record { world = w; keys = keys'; next_order = shop.next_order + 1 }, body)

unfoldable pub place_priced :
    PaymentMethod
    → Found
    → Option Prepared
    → ℕ
    → Shop
    → Keys PlacedOrder
    → Priced
    → Outcome (Shop × PlacedOrder)
unfolding write_placed finish
place_priced method found idem now shop keys p =
    let o = placed_order shop.next_order found.customer_id method p.quote in
    write_placed p o shop.world >>= finish idem (placed_body o p.quote now) shop keys

unfoldable pub place_claimed :
    PaymentMethod
    → Found
    → Option Prepared
    → ℕ
    → Shop
    → Keys PlacedOrder
    → Outcome (Shop × PlacedOrder)
unfolding accepted place_priced
place_claimed method found idem now shop keys =
    accepted method found >>= place_priced method found idem now shop keys

unfoldable pub place_in_tx :
    PaymentMethod → Found → Option Prepared → ℕ → Shop → Outcome (Shop × PlacedOrder)
unfolding claim place_claimed
place_in_tx method found idem now shop =
    claim_with idem now shop.keys >>= place_claimed method found idem now shop

pub record Placed : Type 0 where
  pub shop : Shop
  pub replayed : Bool
  pub code : ℕ
  pub body : PlacedOrder

abbrev pub lookup_with :
    Option Prepared → ℕ → Keys PlacedOrder → Outcome (Option (Answer PlacedOrder))
lookup_with none now ks = ok none
lookup_with (some p) now ks = lookup p now ks

abbrev pub replay_or : Shop → Outcome Placed → Option (Answer PlacedOrder) → Outcome Placed
replay_or shop next none = next
replay_or shop next (some a) =
    ok (record { shop = shop; replayed = true; code = a.code; body = a.body })

abbrev pub as_placed : Shop × PlacedOrder → Placed
as_placed (shop, body) = record { shop = shop; replayed = false; code = 201; body = body }

abbrev pub collides : Option Prepared → ℕ → Keys PlacedOrder → Bool
collides none now ks = false
collides (some p) now ks = some_and (ks p.key) (λ r. not (ltb r.expires_at now))

-- The transaction, on the state as it is then; a key that another transaction has claimed meanwhile is
-- looked up again.
unfoldable pub place_looked : PaymentMethod → Found → Option Prepared → ℕ → Shop → Outcome Placed
unfolding place_in_tx lookup
place_looked method found idem now shop =
    if collides idem now shop.keys
    then lookup_with idem now shop.keys >>= replay_or shop (fail "key_collision")
    else (place_in_tx method found idem now shop >>= λ placed. ok (as_placed placed))

-- With no other transaction between the look-up and the writing.
unfoldable pub place : PaymentMethod → Found → Option Prepared → ℕ → Shop → Outcome Placed
unfolding place_looked
place method found idem now shop =
    lookup_with idem now shop.keys >>= replay_or shop (place_looked method found idem now shop)
