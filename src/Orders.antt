-- ===== src/Orders.antt =====
-- src/orders/orders.service.ts: orders from their creation, which reserves stock, to their end, with
-- the table of their statuses.
pub mod Lifecycle
pub mod Service
pub mod Stock
pub mod Creation
pub mod Cancellation
pub mod Updates
pub mod Tests
