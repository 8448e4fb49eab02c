-- ===== src/Escrow/Branches.antt =====
-- Escrows that are settled, and what the operations refuse.
use market_x_backend.Common.{ℕ, some, ◌≡◌, ◌⊎◌, arith}
use market_x_backend.Common.Int.{ℤ}
use market_x_backend.Common.Outcome.{Outcome, err, Exception, bad_request, World}
use market_x_backend.Common.Database.{Database}
use market_x_backend.Status.{validate}
use market_x_backend.Entities.{EscrowEntity, released, refunded, cancelled}
use market_x_backend.Events.{Event}
use market_x_backend.Rows.{Rows}
use market_x_backend.Escrow.Network.{Stellar}
use market_x_backend.Escrow.Service.{
  escrow_at, release_funds, release_partial, freeze_escrow, admin_release_funds, refund_buyer,
  Distribution,
}

abbrev pub IsSettled : EscrowEntity → Type 0
IsSettled e = (e.status ≡ released) ⊎ (e.status ≡ refunded) ⊎ (e.status ≡ cancelled)

-- A call that is refused: it throws a bad request, and nothing was stored or sent.
abbrev pub IsRefused :
    {A : Type 0} {db : Database}
    → World (Rows db) Event
    → Outcome A × World (Rows db) Event
    → Type 0
IsRefused w r = (e : Exception) × (r ≡ (err e, w))

module _ (db : Database) (stellar : Stellar) where
  -- Every operation refuses an escrow that was released, refunded or cancelled: nothing is paid,
  -- and nothing is stored, whatever the network would answer.
  pub settled_escrow-IsRefused :
      (now k : ℕ) (n : ℤ) (d : Distribution) (w : World (Rows db) Event) (e : EscrowEntity)
      → escrow_at db k w ≡ some e
      → IsSettled e
      → IsRefused w (release_funds db stellar now k w)
        × IsRefused w (release_partial db stellar k n w)
        × IsRefused w (freeze_escrow db k w)
        × IsRefused w (admin_release_funds db stellar now k d w)
        × IsRefused w (refund_buyer db stellar now k w)
  unfolding release_funds release_partial freeze_escrow admin_release_funds refund_buyer validate
  settled_escrow-IsRefused now k n d w e found settled = (
    (bad_request "Invalid status transition", ground arith),
    (bad_request "Invalid status transition", ground arith),
    (bad_request "Invalid status transition", ground arith),
    (bad_request "Can only release frozen escrow", ground arith),
    (bad_request "Invalid status transition", ground arith),
  )
