-- ===== src/Tests.antt =====
-- Runs of the model at concrete inputs, and the theorems at inputs that meet their hypotheses.
pub mod Picking
pub mod Papers
mod Refunding
mod Orders
mod Desk
mod Carry
mod Stockroom
mod Shelf
mod Gateway
mod Ledger
mod Prices
mod Moves
