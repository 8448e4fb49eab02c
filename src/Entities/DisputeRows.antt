-- ===== src/Entities/DisputeRows.antt =====
-- src/disputes/dispute.entity.ts and src/disputes/evidence.entity.ts.
use market_x_backend.Common.{ℕ, String, Option, ◌≡◌, arith}
use market_x_backend.Status.{Enum}

pub data DisputeStatus : Type 0 where
  open_dispute escalated resolved rejected auto_resolved : DisputeStatus

abbrev pub dispute_rank : DisputeStatus → ℕ
dispute_rank open_dispute = 0
dispute_rank escalated = 1
dispute_rank resolved = 2
dispute_rank rejected = 3
dispute_rank auto_resolved = 4

pub dispute_rank-injective : (a b : DisputeStatus) → dispute_rank a ≡ dispute_rank b → a ≡ b
dispute_rank-injective a b h = ground arith

instance abbrev pub dispute_status_enum : Enum DisputeStatus
dispute_status_enum = record { rank = dispute_rank; rank_injective = dispute_rank-injective }

pub record Dispute : Type 0 where
  pub id : ℕ
  pub transaction_id : ℕ
  pub complainant_id : ℕ
  pub respondent_id : ℕ
  pub reason : String
  pub status : DisputeStatus
  pub created_at : ℕ
  pub escrow_id : Option ℕ
  pub description : Option String
  pub image_urls : Option String

pub record Evidence : Type 0 where
  pub id : ℕ
  pub dispute_id : ℕ
  pub submitted_by : ℕ
  pub file_url : String
  pub description : Option String
