-- ===== src/Disputes/Freeze.antt =====
-- What opening a dispute does to the escrow.
use market_x_backend.Common.{
  ℕ, true, none, some, ◌≡◌, ◌≢◌, ◌∙◌, ap, arith, if◌then◌else◌, ◌==◌, ==_refl,
}
use market_x_backend.Common.Int.{ℤ}
use market_x_backend.Common.Outcome.{ok, err, bad_request, World}
use market_x_backend.Common.Database.{Database}
use market_x_backend.Status.{validate}
use market_x_backend.Entities.{Dispute, EscrowEntity, frozen, locked}
use market_x_backend.Events.{Event}
use market_x_backend.Rows.{Rows}
use market_x_backend.Escrow.Network.{Stellar}
use market_x_backend.Escrow.Service.{escrow_at, freeze_escrow, release_funds, release_partial}
use market_x_backend.Escrow.Branches.{IsRefused}
use market_x_backend.Disputes.Service.{
  CreateDisputeDto, create_dispute, freeze_if_given, set_dispute_flag, new_dispute,
}
use market_x_backend.Disputes.Final.{dispute_at}

module _ (db : Database) (stellar : Stellar) where
  -- Opening a dispute about an escrow, where that returns, found the escrow locked. The escrow is
  -- then frozen and flagged, with all else of it and every other escrow as before; the dispute is
  -- stored as open under a key that was free, and no other dispute has changed; nothing was paid.
  pub create_dispute_freezes :
      (now k : ℕ) (dto : CreateDisputeDto) (w w' : World (Rows db) Event) (e : EscrowEntity)
      → (d : Dispute) → dto.escrow_id ≡ some k
      → escrow_at db k w ≡ some e
      → create_dispute db now dto w ≡ (ok d, w')
      → (e.status ≡ locked)
        × ((j : ℕ)
            → escrow_at db j w' ≡ (
                if k == j
                then some (record e { status = frozen; dispute_flag = true })
                else escrow_at db j w))
        × (d ≡ new_dispute (db.next_key w.rows.disputes) now dto)
        × (dispute_at db stellar d.id w ≡ none)
        × ((j : ℕ)
            → dispute_at db stellar j w'
              ≡ (if d.id == j then some d else dispute_at db stellar j w))
        × (w'.emitted ≡ w.emitted)
  unfolding create_dispute freeze_if_given freeze_escrow set_dispute_flag validate
  create_dispute_freezes now k dto w w' e d given found run = (
    grind (arith, db.find_one-key k w.rows.escrows e found),
    λ j.
        grind
          (arith, db.find_one-save j, db.find_one-save k, db.find_one-key k w.rows.escrows e found),
    grind arith,
    grind (arith, db.next_key_fresh w.rows.disputes),
    λ j. grind (arith, db.find_one-save j, db.find_one-save k),
    grind arith,
  )

  -- Right after opening a dispute about an escrow has returned, the escrow cannot be released, in
  -- whole or in part, nor frozen again: each attempt is refused, whatever the network would answer.
  pub create_dispute_blocks_release :
      (now later k : ℕ) (n : ℤ) (dto : CreateDisputeDto) (w w' : World (Rows db) Event)
      → (e : EscrowEntity) (d : Dispute) → dto.escrow_id ≡ some k
      → escrow_at db k w ≡ some e
      → create_dispute db now dto w ≡ (ok d, w')
      → IsRefused w' (release_funds db stellar later k w')
        × IsRefused w' (release_partial db stellar k n w')
        × IsRefused w' (freeze_escrow db k w')
  unfolding release_funds release_partial freeze_escrow validate
  create_dispute_blocks_release now later k n dto w w' e d given found run =
      let frozen_now : escrow_at db k w'
          ≡ some (record e { status = frozen; dispute_flag = true }) =
        (create_dispute_freezes now k dto w w' e d given found run).1 k
        ∙ ap
            (λ b.
              if b
              then some (record e { status = frozen; dispute_flag = true })
              else escrow_at db k w)
            (==_refl k) in
      (
        (bad_request "Invalid status transition", ground arith),
        (bad_request "Invalid status transition", ground arith),
        (bad_request "Invalid status transition", ground arith),
      )

  -- A dispute about an escrow that is not locked is refused, but it is stored as an open dispute
  -- all the same; the escrow stays as it is.
  pub create_dispute_refused_stays :
      (now k : ℕ) (dto : CreateDisputeDto) (w : World (Rows db) Event) (e : EscrowEntity)
      → dto.escrow_id ≡ some k
      → escrow_at db k w ≡ some e
      → e.status ≢ locked
      → let id = db.next_key w.rows.disputes in
        let (r, w') = create_dispute db now dto w in
        (r ≡ err (bad_request "Failed to freeze escrow"))
        × (dispute_at db stellar id w' ≡ some (new_dispute id now dto))
        × ((j : ℕ) → escrow_at db j w' ≡ escrow_at db j w)
  unfolding create_dispute freeze_if_given freeze_escrow set_dispute_flag validate
  create_dispute_refused_stays now k dto w e given found other = (
    ground arith,
    grind (arith, db.find_one-save (db.next_key w.rows.disputes)),
    λ j. ground arith,
  )
