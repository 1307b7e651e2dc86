-- ===== src/Payments.antt =====
-- backend/src/modules/payments: the answers of the payment gateway.
pub mod Refunding
pub mod Settlement
pub mod Paid
pub mod Validation
pub mod Fee
