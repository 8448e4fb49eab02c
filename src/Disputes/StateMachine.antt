-- ===== src/Disputes/StateMachine.antt =====
-- src/disputes/state-machine/dispute.state-machine.ts.
use market_x_backend.Common.{
  ℕ, ◌+◌, ◌*◌, Bool, false, not, ◌&&◌, List, [], ◌∷◌, leb, ◌==◌, any, if◌then◌else◌,
}
use market_x_backend.Status.{includes, ◌===◌}
use market_x_backend.Entities.{
  Dispute, DisputeStatus, open_dispute, escalated, resolved, rejected, auto_resolved,
  dispute_status_enum, Evidence,
}

abbrev pub allowed_transitions : DisputeStatus → List DisputeStatus
allowed_transitions open_dispute = escalated ∷ auto_resolved ∷ resolved ∷ rejected ∷ []
allowed_transitions escalated = resolved ∷ rejected ∷ []
allowed_transitions resolved = []
allowed_transitions rejected = []
allowed_transitions auto_resolved = []

unfoldable pub can_transition : DisputeStatus → DisputeStatus → Bool
can_transition from to = includes (allowed_transitions from) to

abbrev pub ms_per_day : ℕ
ms_per_day = 1000 * 60 * 60 * 24

-- `daysSinceCreated >= autoResolveDays`, a comparison of fractions of a day, is one of milliseconds.
unfoldable pub should_auto_resolve : Dispute → List Evidence → ℕ → ℕ → Bool
should_auto_resolve d evidences now auto_resolve_days =
    if not (d.status === open_dispute)
    then false
    else leb (d.created_at + auto_resolve_days * ms_per_day) now
      && not (any (λ e. e.submitted_by == d.respondent_id) evidences)
