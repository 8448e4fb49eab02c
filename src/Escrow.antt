-- ===== src/Escrow.antt =====
-- src/escrowes/escrow.service.ts: money of a buyer that is held in an account of its own until it
-- is released to the seller, refunded, or divided. This file has the service; what its operations
-- do is in the children.
pub mod Network
pub mod Service
pub mod Branches
pub mod Payouts
pub mod Division
pub mod Totals
pub mod Repeats
pub mod Opening
pub mod Tests
