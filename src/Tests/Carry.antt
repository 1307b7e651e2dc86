-- ===== src/Tests/Carry.antt =====
-- An order of two copies that is called off, and a coupon that is given back.
use Prim.Native.String.{String}
use brothers_book_house.Inventory.Steps
use brothers_book_house.Base.{
  [], arith, false, if◌then◌else◌, insert_by, none, refl, some, sort_by, true, ◌+◌, ◌-◌, ◌==◌, ◌∷◌,
  ◌≡◌, ◌⊎◌,
}
use brothers_book_house.Base.Int.{negsuc, pos, ◌-ℤ◌}
use brothers_book_house.Base.Outcome.{fail, ok}
use brothers_book_house.Money.Rounding.{paisa_decimal}
use brothers_book_house.Inventory.{
  Stock, StockMovementType, add_line, add_lines, each_line, log, merge, write_product,
}
use brothers_book_house.Inventory.Steps.{release_row}
use brothers_book_house.Orders.Lines.{product_line}
use brothers_book_house.Orders.Status.{
  OrderPaymentStatus, OrderStatus, PaymentMethod, StockEffect, TransitionActor, TransitionPlan,
  is_terminal, no_changes, plan_transition,
}
use brothers_book_house.Orders.Redemption.{
  Coupons, IsCounted, Redemption, redeem, restore, revoke, revoke_row, update_first,
  used_count-IsCounted,
}
use brothers_book_house.Orders.Transition.{
  Applied, Order, TransitionCommand, World, applied, apply_plan, apply_read, apply_stock, book,
  changed, counted, on_lines, request_of, snapshot_of, stock_effect, stock_lines_of, write_order,
}
use brothers_book_house.Orders.Transition.Units.{IsCarried, IsConsistent, apply_read-IsCarried}
use brothers_book_house.Orders.Transition.Conflict.{apply_read_twice}
use brothers_book_house.Tests.Stockroom.{bought, novel, stockroom}

abbrev pub two_copies : Order
two_copies = record {
  id = 12;
  version = 3;
  customer_id = 5;
  status = OrderStatus.pending;
  payment_method = PaymentMethod.cod;
  payment_status = OrderPaymentStatus.unpaid;
  grand_total = 86_000;
  amount_paid = 0;
  paid_at = none;
  stock_reserved = true;
  confirmed_at = none;
  shipped_at = none;
  delivered_at = none;
  cancelled_at = none;
  cancelled_from = none;
  cancel_reason = none;
  courier_loss = 0;
  items = record { kind = product_line; product_id = some 7; quantity = 2; components = [] } ∷ [];
}

abbrev pub used_once : Coupons
used_once = record {
  redemptions =
      record { coupon_id = 3; order_id = 12; customer_id = 5; discount = 1_000; revoked_at = none }
      ∷ [];
  used_count = λ c. if c == 3 then 1 else 0;
}

abbrev pub shop : World
shop = record {
  orders = λ id. if id == 12 then some two_copies else none;
  stock = record stockroom {
    products = λ q. if q == 7 then some (record novel { stock_reserved = 2 }) else none;
  };
  coupons = used_once;
  customers = λ c. record { live_orders = 1; cancelled_orders = 0; total_spent = pos 86_000 };
  history = [];
}

abbrev pub call_off : TransitionCommand
call_off = record {
  to = OrderStatus.cancelled;
  mode = none;
  note = none;
  credit = none;
  courier_loss = 0;
  expected_version = some 3;
}

abbrev plan_of_call_off : TransitionPlan
plan_of_call_off = record {
  from = OrderStatus.pending;
  to = OrderStatus.cancelled;
  stock = StockEffect.release;
  changes = record no_changes {
    cancelled_at = some 9;
    cancelled_from = some OrderStatus.pending;
    stock_reserved = some false;
  };
  mark_paid = false;
  revoke_coupon = true;
  closes = true;
  voids = true;
  credit = none;
}

abbrev called_off_order : Order
called_off_order = record two_copies {
  version = 4;
  status = OrderStatus.cancelled;
  cancelled_at = some 9;
  cancelled_from = some OrderStatus.pending;
  stock_reserved = false;
}

abbrev let_go : Stock
let_go = record shop.stock {
  products =
      λ q. if q == 7 then some (record novel { stock_reserved = 0 }) else shop.stock.products q;
  movements =
      record bought {
        type = StockMovementType.order_release;
        qty_on_hand_delta = pos 0;
        qty_reserved_delta = negsuc 1;
        order_id = some 12;
      }
      ∷ bought
      ∷ [];
}

abbrev given_back : Coupons
given_back = record {
  redemptions =
      record {
        coupon_id = 3;
        order_id = 12;
        customer_id = 5;
        discount = 1_000;
        revoked_at = some 9;
      }
      ∷ [];
  used_count = λ c. if c == 3 then used_once.used_count c - 1 else used_once.used_count c;
}

abbrev pub called_off : Applied
called_off = record {
  world = record {
    orders = λ id. if id == 12 then some called_off_order else shop.orders id;
    stock = let_go;
    coupons = given_back;
    customers = λ c.
        if c == 5
        then record {
          live_orders = 0;
          cancelled_orders = 1;
          total_spent = pos 86_000 -ℤ pos 86_000;
        }
        else shop.customers c;
    history =
        record {
          order_id = 12;
          from = OrderStatus.pending;
          to = OrderStatus.cancelled;
          actor = TransitionActor.customer;
        }
        ∷ [];
  };
  plan = plan_of_call_off;
  low_stock = [];
}

pub calls_off :
    apply_read ⦃dec = paisa_decimal⦄ two_copies call_off TransitionActor.customer 9 shop
    ≡ ok called_off
unfolding apply_read plan_transition is_terminal apply_plan changed write_order apply_stock
    stock_lines_of on_lines stock_effect merge add_lines add_line sort_by insert_by each_line
    release_row write_product log applied book counted revoke revoke_row update_first Steps.release
calls_off = refl

-- A refund changed the row in between, and left its version.
abbrev refunded_row : Order
refunded_row = record two_copies { payment_status = OrderPaymentStatus.refunded }

abbrev shop_meanwhile : World
shop_meanwhile = record shop { orders = λ id. if id == 12 then some refunded_row else none }

abbrev called_off_meanwhile : Applied
called_off_meanwhile = record called_off {
  world = record called_off.world {
    orders = λ id.
        if id == 12
        then some (record called_off_order { payment_status = OrderPaymentStatus.refunded })
        else shop_meanwhile.orders id;
  };
}

calls_off_meanwhile :
    apply_read ⦃dec = paisa_decimal⦄ two_copies call_off TransitionActor.customer 9 shop_meanwhile
    ≡ ok called_off_meanwhile
unfolding apply_read plan_transition is_terminal apply_plan changed write_order apply_stock
    stock_lines_of on_lines stock_effect merge add_lines add_line sort_by insert_by each_line
    release_row write_product log applied book counted revoke revoke_row update_first Steps.release
calls_off_meanwhile = refl

refunded_row-IsConsistent : IsConsistent refunded_row
unfolding is_terminal
refunded_row-IsConsistent = refl

apply_read-IsCarried_example :
    IsCarried ⦃dec = paisa_decimal⦄ two_copies refunded_row call_off 9 shop_meanwhile
      called_off_meanwhile
apply_read-IsCarried_example =
    apply_read-IsCarried ⦃dec = paisa_decimal⦄ two_copies refunded_row call_off
      TransitionActor.customer 9 shop_meanwhile called_off_meanwhile refl (λ _. (refl, refl, refl))
      refunded_row-IsConsistent calls_off_meanwhile

apply_read_twice_example :
    (apply_read ⦃dec = paisa_decimal⦄ two_copies call_off TransitionActor.staff 10 called_off.world
      ≡ fail "order.version_conflict")
    ⊎ ((code : String) × (plan_transition
            (snapshot_of two_copies)
            (request_of call_off TransitionActor.staff 10)
          ≡ fail code)
        × (apply_read ⦃dec = paisa_decimal⦄ two_copies call_off TransitionActor.staff 10
              called_off.world
            ≡ fail code))
apply_read_twice_example =
    apply_read_twice ⦃dec = paisa_decimal⦄ two_copies call_off call_off TransitionActor.customer
      TransitionActor.staff 9 10 shop called_off calls_off

used_once-IsCounted : IsCounted used_once
used_once-IsCounted coupon = ground arith

abbrev second_use : Redemption
second_use = record {
  coupon_id = 3;
  order_id = 13;
  customer_id = 6;
  discount = 500;
  revoked_at = none;
}

abbrev used_twice : Coupons
used_twice = record {
  redemptions = second_use ∷ used_once.redemptions;
  used_count = λ c. if c == 3 then used_once.used_count c + 1 else used_once.used_count c;
}

used_count-IsCounted_example :
    (redeem second_use used_once ≡ ok used_twice → IsCounted used_twice)
    × IsCounted (revoke 12 9 used_once).0
    × IsCounted (restore 12 used_once).0
    × (revoke 12 10 (revoke 12 9 used_once).0 ≡ ((revoke 12 9 used_once).0, false))
    × (restore 12 (restore 12 used_once).0 ≡ ((restore 12 used_once).0, false))
used_count-IsCounted_example =
    used_count-IsCounted second_use 12 9 10 used_once used_twice used_once-IsCounted
