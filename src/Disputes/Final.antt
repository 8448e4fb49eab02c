-- ===== src/Disputes/Final.antt =====
-- Disputes that are decided.
use market_x_backend.Common.{ℕ, String, Option, some, ◌≡◌, ◌⊎◌, arith, if◌then◌else◌, ◌==◌}
use market_x_backend.Common.Outcome.{bad_request, forbidden, World}
use market_x_backend.Common.Database.{Database}
use market_x_backend.Entities.{Dispute, DisputeStatus, resolved, rejected, auto_resolved}
use market_x_backend.Events.{Event}
use market_x_backend.Rows.{Rows}
use market_x_backend.Escrow.Network.{Stellar}
use market_x_backend.Escrow.Branches.{IsRefused}
use market_x_backend.Disputes.Service.{
  ResolveDisputeDto, get_dispute_by_id, escalate_dispute, admin_update_dispute,
  admin_resolve_dispute,
}

abbrev pub IsDecided : Dispute → Type 0
IsDecided d = (d.status ≡ resolved) ⊎ (d.status ≡ rejected) ⊎ (d.status ≡ auto_resolved)

module _ (db : Database) (stellar : Stellar) where
  abbrev pub dispute_at : ℕ → World (Rows db) Event → Option Dispute
  dispute_at k w = db.find_one k w.rows.disputes

  -- A decided dispute stays decided: it cannot be escalated, given another status or resolved again,
  -- and the attempt neither stores nor pays anything.
  pub decided_dispute-IsRefused :
      (now k user : ℕ) (s : DisputeStatus) (admin_note : Option String) (dto : ResolveDisputeDto)
      → (w : World (Rows db) Event) (d : Dispute) → dispute_at k w ≡ some d
      → IsDecided d
      → IsRefused w (escalate_dispute db k user w)
        × IsRefused w (admin_update_dispute db k (some s) admin_note w)
        × IsRefused w (admin_resolve_dispute db stellar now dto k w)
  unfolding escalate_dispute admin_update_dispute admin_resolve_dispute get_dispute_by_id
  decided_dispute-IsRefused now k user s admin_note dto w d found decided = (
    (
      if d.complainant_id == user
          then bad_request "Cannot escalate dispute from current status"
          else forbidden "Only the complainant can escalate the dispute",
      ground arith,
    ),
    (bad_request "Invalid status transition", ground arith),
    (bad_request "Cannot resolve dispute from current status", ground arith),
  )
