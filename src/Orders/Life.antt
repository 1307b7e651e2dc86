-- ===== src/Orders/Life.antt =====
-- backend/src/modules/orders/application: the life of the orders, from order-placement.service.ts on
-- through order-transition.service.ts, and the stock that they hold.
pub mod Sums
pub mod Moved
pub mod Covered
use brothers_book_house.Base.{Option, [], if◌then◌else◌, none, some, suc, zero, ℕ, ◌+◌, ◌<◌, ◌≡◌}
use brothers_book_house.Base.Outcome.{ok}
use brothers_book_house.Money.{Decimal}
use brothers_book_house.Inventory.Lines.{units_of}
use brothers_book_house.Inventory.Shelf.{Item, shelf}
use brothers_book_house.Orders.Status.{PaymentMethod, TransitionActor}
use brothers_book_house.Orders.Reopen.{ReopenRequest}
use brothers_book_house.Orders.Transition.{
  Applied, Order, TransitionCommand, World, apply, reopen, stock_lines_of,
}
use brothers_book_house.Orders.Transition.Units.{IsConsistent}
use brothers_book_house.Orders.Placement.{Priced, placed_order, write_placed}
use brothers_book_house.Orders.Quote.{stock_units_from}

-- The sum of the first `n` of a family.
unfoldable pub total : ℕ → (ℕ → ℕ) → ℕ
total zero f = 0
total (suc n) f = total n f + f n

-- The units of a product that an order holds on the shelf.
abbrev pub held_units : ℕ → Option Order → ℕ
held_units id none = 0
held_units id (some o) = if o.stock_reserved then units_of id (stock_lines_of o.items) else 0

-- Every order is kept under its number, below `n`, and is consistent.
abbrev pub AllConsistent : ℕ → World → Type 0
AllConsistent n w =
    (k : ℕ) (o : Order) → w.orders k ≡ some o → (k < n) × (o.id ≡ k) × IsConsistent o

-- What is reserved of each product is what the orders hold of it.
abbrev pub IsCovered : ℕ → World → Type 0
IsCovered n w =
    (id : ℕ) (i : Item)
    → shelf w.stock id ≡ some i
    → i.reserved ≡ total n (λ k. held_units id (w.orders k))

-- One committed transaction on the orders; `n` bounds their numbers.
pub data Event ⦃dec : Decimal⦄ (n : ℕ) (w w' : World) : Type 0 where
  order_placed :
      (p : Priced) (number buyer : ℕ) (method : PaymentMethod)
      → number < n
      → w.orders number ≡ none
      → p.quote.stock_units ≡ stock_units_from p.quote.lines []
      → write_placed p (placed_order number buyer method p.quote) w ≡ ok w'
      → Event n w w'
  order_moved :
      (ref : ℕ) (cmd : TransitionCommand) (actor : TransitionActor) (now : ℕ) (r : Applied)
      → apply ref cmd actor now w ≡ ok r
      → r.world ≡ w'
      → Event n w w'
  order_revived :
      (ref : ℕ) (req : ReopenRequest) (version : Option ℕ) (now : ℕ)
      → reopen ref req version now w ≡ ok w'
      → Event n w w'

-- Any such transactions, one after the other.
pub data Life ⦃dec : Decimal⦄ (n : ℕ) (w : World) : World → Type 0 where
  at_start : Life n w w
  and_then : {m w' : World} → Life n w m → Event n m w' → Life n w w'
