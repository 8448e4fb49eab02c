-- ===== src/Entities/EscrowRows.antt =====
-- src/escrowes/entities/escrow.entity.ts. Amounts count the smallest unit of the columns, 10^-7.
use market_x_backend.Common.{ℕ, Bool, Option, ◌≡◌, arith}
use market_x_backend.Common.Int.{ℤ}
use market_x_backend.Common.Outcome.{Exception}
use market_x_backend.Status.{Enum}

pub data EscrowStatus : Type 0 where
  pending locked released refunded cancelled frozen partially_released : EscrowStatus

abbrev pub escrow_rank : EscrowStatus → ℕ
escrow_rank pending = 0
escrow_rank locked = 1
escrow_rank released = 2
escrow_rank refunded = 3
escrow_rank cancelled = 4
escrow_rank frozen = 5
escrow_rank partially_released = 6

pub escrow_rank-injective : (a b : EscrowStatus) → escrow_rank a ≡ escrow_rank b → a ≡ b
escrow_rank-injective a b h = ground arith

instance abbrev pub escrow_status_enum : Enum EscrowStatus
escrow_status_enum = record { rank = escrow_rank; rank_injective = escrow_rank-injective }

-- Public keys and transaction hashes are strings that the code only passes on and compares:
-- numbers here.
pub record EscrowEntity : Type 0 where
  pub id : ℕ
  pub order_id : ℕ
  pub buyer_public_key : ℕ
  pub seller_public_key : ℕ
  pub amount : ℤ
  pub released_amount : ℤ
  pub refunded_amount : ℤ
  pub escrow_account_public_key : ℕ
  pub lock_transaction_hash : Option ℕ
  pub release_transaction_hash : Option ℕ
  pub refund_transaction_hash : Option ℕ
  pub status : EscrowStatus
  pub delivery_confirmed_at : Option ℕ
  pub cancelled_at : Option ℕ
  pub error_message : Option Exception
  pub dispute_flag : Bool
