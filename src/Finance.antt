-- ===== src/Finance.antt =====
-- backend/src/modules/finance and backend/src/modules/payments: papers, bills, refunds and the books.
pub mod Profit
pub mod Cash
pub mod Documents
pub mod Purchases
pub mod Refunds
