-- ===== src/Orders/Transition.antt =====
-- backend/src/modules/orders/application/order-transition.service.ts: carrying a plan out on the order,
-- the stock, the coupon and the customer, in one transaction. An order is read first and written later,
-- under its version: between the two, other transactions may have committed. Notes of the order, audit
-- entries and telemetry are left out.
pub mod Units
pub mod Others
pub mod Unshelved
pub mod Revive
pub mod Conflict
use brothers_book_house.Base.{
  Bool, List, Option, [], get_or, if◌then◌else◌, is_empty, is_some, map_option, none, not, some,
  some_and, true, ℕ, ◌&&◌, ◌++◌, ◌+◌, ◌-◌, ◌==◌, ◌∷◌,
}
use brothers_book_house.Base.Int.{pos, ℤ, ◌+ℤ◌, ◌-ℤ◌}
use brothers_book_house.Base.Text.{Text}
use brothers_book_house.Base.Outcome.{Outcome, fail, ok, ◌>>=◌}
use brothers_book_house.Money.{Decimal, Money}
use brothers_book_house.Inventory.{LowStockHit, Stock, StockContext, StockLine}
use brothers_book_house.Inventory.Steps.{fulfill, reserve, restock_lines}
use brothers_book_house.Orders.Status.{
  CreditInput, Mode, OrderPaymentStatus, OrderSnapshot, OrderStatus, PaymentMethod, StockEffect,
  TransitionActor, TransitionPlan, TransitionRequest, advance, confirmed, fulfil, nothing, paid,
  pending, plan_transition, regress_target,
}
use brothers_book_house.Orders.Reopen.{
  ReopenPlan, ReopenRequest, ReopenTarget, plan_reopen, to_confirmed, to_pending, wants_confirmed,
}
use brothers_book_house.Orders.Lines.{LineKind, product_line}
use brothers_book_house.Orders.Redemption.{Coupons, Redemption}
use brothers_book_house.Orders.Redemption
use brothers_book_house.Inventory.Steps

pub record OrderItem : Type 0 where
  pub kind : LineKind
  pub product_id : Option ℕ
  pub quantity : ℕ
  pub components : List StockLine

pub record Order : Type 0 where
  pub id : ℕ
  pub version : ℕ
  pub customer_id : ℕ
  pub status : OrderStatus
  pub payment_method : PaymentMethod
  pub payment_status : OrderPaymentStatus
  pub grand_total : Money
  pub amount_paid : Money
  pub paid_at : Option ℕ
  pub stock_reserved : Bool
  pub confirmed_at : Option ℕ
  pub shipped_at : Option ℕ
  pub delivered_at : Option ℕ
  pub cancelled_at : Option ℕ
  pub cancelled_from : Option OrderStatus
  pub cancel_reason : Option Text
  pub courier_loss : Money
  pub items : List OrderItem

pub record Customer : Type 0 where
  pub live_orders : ℕ
  pub cancelled_orders : ℕ
  pub total_spent : ℤ

pub record HistoryRow : Type 0 where
  pub order_id : ℕ
  pub from : OrderStatus
  pub to : OrderStatus
  pub actor : TransitionActor

pub record World : Type 0 where
  pub orders : ℕ → Option Order
  pub stock : Stock
  pub coupons : Coupons
  pub customers : ℕ → Customer
  pub history : List HistoryRow

pub record TransitionCommand : Type 0 where
  pub to : OrderStatus
  pub mode : Option Mode
  pub note : Option Text
  pub credit : Option CreditInput
  -- `D(cmd.credit?.courierLoss ?? 0)`
  pub courier_loss : Money
  pub expected_version : Option ℕ

-- What is published after the transaction.
pub record Applied : Type 0 where
  pub world : World
  pub plan : TransitionPlan
  pub low_stock : List LowStockHit

abbrev pub own_line : LineKind → Option ℕ → ℕ → List StockLine
own_line product_line (some id) q = record { product_id = id; qty = q } ∷ []
own_line _ _ q = []

unfoldable pub stock_lines_of : List OrderItem → List StockLine
stock_lines_of [] = []
stock_lines_of (i ∷ is) =
    own_line i.kind i.product_id i.quantity ++ (i.components ++ stock_lines_of is)

abbrev pub snapshot_of : Order → OrderSnapshot
snapshot_of o = record {
  status = o.status;
  payment_method = o.payment_method;
  payment_status = o.payment_status;
  stock_reserved = o.stock_reserved;
  confirmed_at = o.confirmed_at;
  shipped_at = o.shipped_at;
}

abbrev pub request_of : TransitionCommand → TransitionActor → ℕ → TransitionRequest
request_of cmd actor now = record {
  to = cmd.to;
  mode = get_or cmd.mode advance;
  actor = actor;
  credit = cmd.credit;
  now = now;
}

-- `a ?? b`, and a field that is set only if there is a value
abbrev pub or_given {ℓ} : {A : Type ℓ} → Option A → Option A → Option A
or_given none b = b
or_given (some a) b = some a

-- The row after the update: `o` is the order that was read, `row` the one that is stored. A column that
-- is not listed stays as it is stored.
unfoldable pub changed : Order → TransitionCommand → TransitionPlan → ℕ → Order → Order
changed o cmd plan now row = record row {
  version = row.version + 1;
  status = plan.to;
  stock_reserved = get_or plan.changes.stock_reserved row.stock_reserved;
  confirmed_at = or_given plan.changes.confirmed_at row.confirmed_at;
  shipped_at = or_given plan.changes.shipped_at row.shipped_at;
  delivered_at = or_given plan.changes.delivered_at row.delivered_at;
  cancelled_at = or_given plan.changes.cancelled_at row.cancelled_at;
  cancelled_from = or_given plan.changes.cancelled_from row.cancelled_from;
  cancel_reason =
      if plan.voids
      then or_given (map_option (λ c. c.reason) plan.credit) cmd.note
      else row.cancel_reason;
  courier_loss = if plan.voids && is_some plan.credit then cmd.courier_loss else row.courier_loss;
  payment_status = if plan.mark_paid then paid else row.payment_status;
  amount_paid = if plan.mark_paid then o.grand_total else row.amount_paid;
  paid_at = if plan.mark_paid then some now else row.paid_at;
}

-- `updateMany` under the version that was read
abbrev pub same_version : ℕ → Option Order → Bool
same_version version o = some_and o (λ cur. cur.version == version)

unfoldable pub write_order : ℕ → ℕ → (Order → Order) → World → Outcome World
write_order version ref update w =
    if same_version version (w.orders ref)
    then ok (record w {
      orders = λ id. if id == ref then map_option update (w.orders ref) else w.orders id;
    })
    else fail "order.version_conflict"

abbrev pub plainly : Outcome Stock → Outcome (Stock × List LowStockHit)
plainly m = m >>= λ s. ok (s, [])

abbrev pub context_of : Order → StockContext
context_of o = record { order_id = some o.id; purchase_id = none }

module _ ⦃dec : Decimal⦄ where
  unfoldable pub stock_effect :
      StockEffect → List StockLine → StockContext → Stock → Outcome (Stock × List LowStockHit)
  stock_effect nothing lines ctx s = ok (s, [])
  stock_effect fulfil lines ctx s = fulfill lines ctx s
  stock_effect StockEffect.release lines ctx s = plainly (Steps.release lines ctx s)
  stock_effect StockEffect.restock lines ctx s = plainly (restock_lines lines ctx s)

  -- the stock is touched only if the order has lines
  unfoldable pub on_lines :
      StockEffect → List StockLine → StockContext → Stock → Outcome (Stock × List LowStockHit)
  unfolding stock_effect
  on_lines effect lines ctx s =
      if is_empty lines then ok (s, []) else stock_effect effect lines ctx s

-- `GREATEST(live_orders - 1, 0)`, and what a void changes
unfoldable pub counted : TransitionPlan → Money → Customer → Customer
counted plan total c = record {
  live_orders = if plan.closes then c.live_orders - 1 else c.live_orders;
  cancelled_orders = if plan.voids then c.cancelled_orders + 1 else c.cancelled_orders;
  total_spent = if plan.voids then c.total_spent -ℤ pos total else c.total_spent;
}

abbrev pub set_customer : ℕ → (Customer → Customer) → World → World
set_customer id f w = record w {
  customers = λ c. if c == id then f (w.customers c) else w.customers c;
}

-- The bookkeeping after the stock: coupon, customer and history.
unfoldable pub book : Order → TransitionPlan → TransitionActor → ℕ → World → World
unfolding counted
book o plan actor now w =
    let coupons =
      if plan.revoke_coupon then (Redemption.revoke o.id now w.coupons).0 else w.coupons in
    let w =
      set_customer o.customer_id (counted plan o.grand_total) (record w { coupons = coupons }) in
    record w {
      history =
          record { order_id = o.id; from = plan.from; to = plan.to; actor = actor } ∷ w.history;
    }

module _ ⦃dec : Decimal⦄ where
  -- the result, once the stock is moved
  unfoldable pub applied :
      Order → TransitionPlan → TransitionActor → ℕ → World → Stock × List LowStockHit → Applied
  unfolding book
  applied o plan actor now w (stock, low) = record {
    world = book o plan actor now (record w { stock = stock });
    plan = plan;
    low_stock = low;
  }

  unfoldable pub apply_stock :
      Order → TransitionPlan → TransitionActor → ℕ → World → Outcome Applied
  unfolding on_lines applied
  apply_stock o plan actor now w = do
    moved ← on_lines plan.stock (stock_lines_of o.items) (context_of o) w.stock
    ok (applied o plan actor now w moved)

  unfoldable pub apply_plan :
      Order → TransitionCommand → TransitionActor → ℕ → World → TransitionPlan → Outcome Applied
  unfolding changed write_order apply_stock
  apply_plan o cmd actor now w plan = do
    w' ← write_order o.version o.id (changed o cmd plan now) w
    apply_stock o plan actor now w'

  -- From the order that was read to the commit, on the state as it is when the order is written.
  unfoldable pub apply_read :
      Order → TransitionCommand → TransitionActor → ℕ → World → Outcome Applied
  unfolding apply_plan
  apply_read o cmd actor now w =
      if some_and cmd.expected_version (λ v. not (v == o.version))
      then fail "order.version_conflict"
      else do
        plan ← plan_transition (snapshot_of o) (request_of cmd actor now)
        apply_plan o cmd actor now w plan

  abbrev pub apply_found :
      Option Order → TransitionCommand → TransitionActor → ℕ → World → Outcome Applied
  apply_found none cmd actor now w = fail "not_found"
  apply_found (some o) cmd actor now w = apply_read o cmd actor now w

  -- With no other transaction between the reading and the writing.
  unfoldable pub apply : ℕ → TransitionCommand → TransitionActor → ℕ → World → Outcome Applied
  unfolding apply_read
  apply ref cmd actor now w = apply_found (w.orders ref) cmd actor now w

  abbrev pub regress_found :
      Option OrderStatus → ℕ → Option ℕ → TransitionActor → ℕ → World → Outcome Applied
  regress_found none ref version actor now w = fail "order.regress_not_allowed"
  regress_found (some to) ref version actor now w =
      apply ref
        (record {
          to = to;
          mode = some Mode.regress;
          note = none;
          credit = none;
          courier_loss = 0;
          expected_version = version;
        })
        actor now w

  unfoldable pub regress : ℕ → Option ℕ → TransitionActor → ℕ → World → Outcome Applied
  unfolding apply regress_target
  regress ref version actor now w = elim (w.orders ref) [
    | none ↦ fail "not_found"
    | some o ↦ regress_found (regress_target o.status) ref version actor now w
  ]

abbrev pub status_of_target : ReopenTarget → OrderStatus
status_of_target to_pending = pending
status_of_target to_confirmed = confirmed

-- the row of an order that is brought back
unfoldable pub revived : ReopenTarget → ℕ → Order → Order
revived to now row = record row {
  version = row.version + 1;
  status = status_of_target to;
  cancelled_at = none;
  cancel_reason = none;
  cancelled_from = none;
  courier_loss = 0;
  shipped_at = none;
  delivered_at = none;
  confirmed_at = if wants_confirmed to then some now else none;
  stock_reserved = true;
}

unfoldable pub book_reopen : Order → ReopenPlan → TransitionActor → World → World
book_reopen o plan actor w =
    let w =
      set_customer o.customer_id
        (λ c. record {
          live_orders = c.live_orders + 1;
          cancelled_orders = c.cancelled_orders - 1;
          total_spent = c.total_spent +ℤ pos o.grand_total;
        })
        (record w { coupons = (Redemption.restore o.id w.coupons).0 }) in
    record w {
      history =
          record { order_id = o.id; from = plan.from; to = status_of_target plan.to; actor = actor }
          ∷ w.history;
    }

abbrev pub reserve_lines : List StockLine → StockContext → Stock → Outcome Stock
reserve_lines lines ctx s = if is_empty lines then ok s else reserve lines ctx s

unfoldable pub reopen_stock : Order → ReopenRequest → ReopenPlan → World → Outcome World
unfolding book_reopen
reopen_stock o req plan w = do
  stock ← reserve_lines (stock_lines_of o.items) (context_of o) w.stock
  ok (book_reopen o plan req.actor (record w { stock = stock }))

unfoldable pub reopen_plan : Order → ReopenRequest → ℕ → World → ReopenPlan → Outcome World
unfolding revived write_order reopen_stock
reopen_plan o req now w plan = do
  w' ← write_order o.version o.id (revived plan.to now) w
  reopen_stock o req plan w'

unfoldable pub reopen_read : Order → ReopenRequest → Option ℕ → ℕ → World → Outcome World
unfolding reopen_plan
reopen_read o req version now w =
    if some_and version (λ v. not (v == o.version))
    then fail "order.version_conflict"
    else do plan ← plan_reopen (snapshot_of o) o.cancelled_from req; reopen_plan o req now w plan

unfoldable pub reopen : ℕ → ReopenRequest → Option ℕ → ℕ → World → Outcome World
unfolding reopen_read
reopen ref req version now w = elim (w.orders ref) [
  | none ↦ fail "not_found"
  | some o ↦ reopen_read o req version now w
]
