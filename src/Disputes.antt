-- ===== src/Disputes.antt =====
-- src/disputes/: complaints about a transaction, and what they do to its escrow.
pub mod StateMachine
pub mod Service
pub mod Final
pub mod Freeze
pub mod Resolution
pub mod Expiry
pub mod Tests
