-- ===== src/Orders.antt =====
-- backend/src/modules/orders: the life of an order.
pub mod Picking
pub mod Life
pub mod Placement
pub mod Idempotency
pub mod Status
pub mod Reopen
pub mod Lines
pub mod Coupon
pub mod Shipping
pub mod Quote
pub mod Redemption
pub mod Transition
