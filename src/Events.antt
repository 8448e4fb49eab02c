-- ===== src/Events.antt =====
-- What the services send out: the events of src/common/events.ts that the modelled services emit on
-- the event bus, the payments that reach the Stellar network, and the admin webhook. The listeners
-- and the network are not part of the model.
use market_x_backend.Common.{ℕ, String, Option}
use market_x_backend.Common.Int.{ℤ}
use market_x_backend.Entities.{OrderStatus}

-- A payment transaction: from account, to account, amount.
pub record Payment : Type 0 where
  pub from : ℕ
  pub to : ℕ
  pub amount : ℤ

pub data Event : Type 0 where
  inventory_low_stock : ℕ → String → ℤ → Event
  order_updated : ℕ → ℕ → OrderStatus → OrderStatus → Event
  order_completed : ℕ → ℕ → ℤ → Event
  payment_released : ℕ → ℕ → ℕ → ℤ → Option ℕ → Event
  massive_order : ℕ → ℕ → ℤ → ℕ → Event
  payment_sent : Payment → Event
