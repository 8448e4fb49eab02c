-- ===== src/AutoRelease.antt =====
-- src/scheduler/escrow-auto-release.task.ts: the daily job that releases the escrows of orders that
-- were delivered seven days ago.
pub mod Eligible
pub mod Tests
use market_x_backend.Common.{
  ℕ, ◌+◌, ◌-◌, ◌*◌, ◌/◌, Bool, true, false, not, ◌&&◌, ◌||◌, Option, none, some, List, [], ◌∷◌,
  ◌++◌, leb, ◌==◌, if◌then◌else◌,
}
use market_x_backend.Common.Outcome.{Outcome, ok, err, World, pure, gets, emit, ◌>>=◌, ◌>>◌}
use market_x_backend.Common.Database.{Database}
use market_x_backend.Status.{◌===◌}
use market_x_backend.Entities.{
  EscrowEntity, EscrowStatus, escrow_status_enum, Order, OrderStatus, order_status_enum, Dispute,
  DisputeStatus, dispute_status_enum,
}
use market_x_backend.Events.{Event, payment_released}
use market_x_backend.Rows.{Rows, Call}
use market_x_backend.Escrow.Network.{Stellar}
use market_x_backend.Escrow.Service.{EscrowResponse, save_escrow, release_funds}

abbrev pub ms_per_day : ℕ
ms_per_day = 24 * 60 * 60 * 1000

-- The tests of `findEligibleEscrows` on the order of an escrow. `daysSinceDelivery` is the floor of a
-- difference that is negative, and then not 7 or more, for a delivery in the future.
unfoldable pub is_delivered : ℕ → Option Order → Bool
is_delivered now none = false
is_delivered now (some o) = o.status === OrderStatus.delivered && elim o.delivered_at [
  | none ↦ false
  | some delivered_at ↦ leb 7 ((now - delivered_at) / ms_per_day)
]

abbrev pub is_active : Dispute → Bool
is_active d = not (
    d.status === DisputeStatus.resolved
    || d.status === DisputeStatus.rejected
    || d.status === DisputeStatus.auto_resolved)

abbrev pub concerns : ℕ → Dispute → Bool
concerns k d = elim d.escrow_id [ none ↦ false | some j ↦ j == k ]

module _ (db : Database) where
  unfoldable pub eligible_loop :
      ℕ → List EscrowEntity → List EscrowEntity → Call db (List EscrowEntity)
  eligible_loop now [] eligible_escrows = pure eligible_escrows
  eligible_loop now (e ∷ es) eligible_escrows = do
    order ← gets (λ r. db.find_one e.order_id r.orders)
    eligible_loop now es
        (if is_delivered now order then eligible_escrows ++ e ∷ [] else eligible_escrows)

  unfoldable pub find_eligible_escrows : ℕ → Call db (List EscrowEntity)
  find_eligible_escrows now = do
    locked_escrows ←
        gets λ r. db.find (λ e. e.status === EscrowStatus.locked && not e.dispute_flag) r.escrows
    eligible_loop now locked_escrows []

  abbrev pub first_active : List Dispute → Bool
  first_active [] = false
  first_active (d ∷ ds) = true

module _ (db : Database) (stellar : Stellar) where
  -- `emitPaymentReleasedEvent`
  abbrev emit_payment_released : EscrowEntity → Option ℕ → Call db (Unit {0})
  emit_payment_released e transaction_hash =
      emit (payment_released e.id e.order_id e.seller_public_key e.amount transaction_hash)

  -- The release itself: `executeSellerPayout` only logs. A missing hash is `none`, for 'pending'.
  unfoldable pub release_and_announce : ℕ → EscrowEntity → Call db (Unit {0})
  release_and_announce now e = do
    response ← release_funds db stellar now e.id
    emit_payment_released e response.release_transaction_hash

  unfoldable pub process_auto_release : ℕ → EscrowEntity → Call db (Unit {0})
  process_auto_release now e = do
    disputed ←
        gets (λ r. first_active db (db.find (λ d. concerns e.id d && is_active d) r.disputes))
    if disputed
        then save_escrow db (record e { dispute_flag = true })
        else release_and_announce now e

  -- The loop of `handleEscrowAutoRelease` and `triggerManualRelease`: how many succeeded and failed.
  abbrev pub tally : Outcome (Unit {0}) → ℕ × ℕ → ℕ × ℕ
  tally (ok _) (released, failed) = (released + 1, failed)
  tally (err _) (released, failed) = (released, failed + 1)

  unfoldable pub release_loop : ℕ → List EscrowEntity → ℕ × ℕ → Call db (ℕ × ℕ)
  release_loop now [] counts w = (ok counts, w)
  release_loop now (e ∷ es) counts w =
      let (r, w') = process_auto_release now e w in release_loop now es (tally r counts) w'

  unfoldable pub trigger_manual_release : ℕ → Call db (ℕ × ℕ)
  trigger_manual_release now = do
    eligible_escrows ← find_eligible_escrows db now
    release_loop now eligible_escrows (0, 0)
