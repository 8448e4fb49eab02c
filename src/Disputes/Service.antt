-- ===== src/Disputes/Service.antt =====
-- src/disputes/disputes.service.ts, without its two stubs (`uploadEvidenceFile`, `notifyParties`) and
-- the listing of disputes.
use market_x_backend.Common.{
  ℕ, ◌+◌, String, Bool, true, false, not, ◌||◌, Option, none, some, List, [], ◌∷◌, if◌then◌else◌,
  ◌==◌, from_option,
}
use market_x_backend.Common.Int.{ℤ, pos, ◌-ℤ◌}
use market_x_backend.Common.Values.{text, as_number}
use market_x_backend.Common.Outcome.{
  not_found, bad_request, forbidden, pure, throw, gets, or_throw, throw_if, modify, try, ◌>>=◌,
  ◌>>◌,
}
use market_x_backend.Common.Database.{Database}
use market_x_backend.Status.{◌===◌}
use market_x_backend.Entities.{
  Dispute, DisputeStatus, open_dispute, escalated, resolved, rejected, auto_resolved,
  dispute_status_enum, Evidence, EscrowEntity,
}
use market_x_backend.Rows.{Call}
use market_x_backend.Escrow.Network.{Stellar}
use market_x_backend.Escrow.Service.{
  save_escrow, find_escrow_or_fail, freeze_escrow, admin_release_funds,
}
use market_x_backend.Disputes.StateMachine.{can_transition, should_auto_resolve}

pub record CreateDisputeDto : Type 0 where
  pub transaction_id : ℕ
  pub complainant_id : ℕ
  pub respondent_id : ℕ
  pub reason : String
  pub escrow_id : Option ℕ
  pub description : Option String
  pub image_urls : Option String

pub record SubmitEvidenceDto : Type 0 where
  pub dispute_id : ℕ
  pub submitted_by : ℕ
  pub file_url : String
  pub description : Option String

pub data DisputeResolutionType : Type 0 where
  full_to_buyer full_to_seller split_50_50 custom_split : DisputeResolutionType

pub record ResolveDisputeDto : Type 0 where
  pub admin_decision : String
  pub resolution_type : Option DisputeResolutionType
  pub refund_amount : Option ℤ

-- A dispute with the note that `(dispute as any).resolutionNote` puts on the object. It is no column
-- of the entity, so it is returned and not stored.
pub record NotedDispute : Type 0 where
  pub dispute : Dispute
  pub resolution_note : Option String

abbrev pub new_dispute : ℕ → ℕ → CreateDisputeDto → Dispute
new_dispute id now dto = record {
  id = id;
  transaction_id = dto.transaction_id;
  complainant_id = dto.complainant_id;
  respondent_id = dto.respondent_id;
  reason = dto.reason;
  status = open_dispute;
  created_at = now;
  escrow_id = dto.escrow_id;
  description = dto.description;
  image_urls = dto.image_urls;
}

abbrev new_evidence : ℕ → SubmitEvidenceDto → Evidence
new_evidence id dto = record {
  id = id;
  dispute_id = dto.dispute_id;
  submitted_by = dto.submitted_by;
  file_url = dto.file_url;
  description = dto.description;
}

module _ (db : Database) where
  abbrev pub save_dispute : Dispute → Call db (Unit {0})
  save_dispute d = modify (λ r. record r { disputes = db.save d r.disputes })

  -- `escrowRepo.update({ id }, { disputeFlag: true })`, which does nothing where there is no row.
  abbrev flag_found : Option EscrowEntity → Call db (Unit {0})
  flag_found none = pure tt
  flag_found (some e) = save_escrow db (record e { dispute_flag = true })

  unfoldable pub set_dispute_flag : ℕ → Call db (Unit {0})
  set_dispute_flag escrow_id = do
    found ← gets (λ r. db.find_one escrow_id r.escrows)
    flag_found found

  -- What `createDispute` does with the escrow, in its `try`.
  unfoldable pub freeze_if_given : Option ℕ → Call db (Unit {0})
  freeze_if_given none = pure tt
  freeze_if_given (some escrow_id) =
      try (do freeze_escrow db escrow_id; set_dispute_flag escrow_id)
        (λ error. throw (bad_request "Failed to freeze escrow"))

  unfoldable pub create_dispute : ℕ → CreateDisputeDto → Call db Dispute
  create_dispute now dto = do
    id ← gets (λ r. db.next_key r.disputes)
    let d = new_dispute id now dto
    save_dispute d
    freeze_if_given dto.escrow_id
    pure d

  unfoldable pub get_dispute_by_id : ℕ → Call db Dispute
  get_dispute_by_id id = do
    found ← gets (λ r. db.find_one id r.disputes)
    or_throw found (not_found "Dispute not found")

  unfoldable pub submit_evidence : SubmitEvidenceDto → Call db Evidence
  unfolding get_dispute_by_id
  submit_evidence dto = do
    d ← get_dispute_by_id dto.dispute_id
    throw_if (d.status === resolved || d.status === rejected)
        (bad_request "Cannot submit evidence to a closed dispute")
    id ← gets (λ r. db.next_key r.evidences)
    let e = new_evidence id dto
    modify (λ r. record r { evidences = db.save e r.evidences })
    pure e

  unfoldable pub escalate_dispute : ℕ → ℕ → Call db Dispute
  unfolding get_dispute_by_id can_transition
  escalate_dispute dispute_id user_id = do
    d ← get_dispute_by_id dispute_id
    throw_if (not (d.complainant_id == user_id))
        (forbidden "Only the complainant can escalate the dispute")
    throw_if (not (can_transition d.status escalated))
        (bad_request "Cannot escalate dispute from current status")
    let d' = record d { status = escalated }
    save_dispute d'
    pure d'

  -- `dto.status && !canTransition(dispute.status, dto.status)`
  unfoldable pub refuses : Dispute → Option DisputeStatus → Bool
  unfolding can_transition
  refuses d none = false
  refuses d (some status) = not (can_transition d.status status)

  -- `if (note) dispute.resolutionNote = note`; an empty string is no note.
  abbrev noted : Option String → Option String
  noted none = none
  noted (some String.[]) = none
  noted (some (String.◌∷◌ c s)) = some (String.◌∷◌ c s)

  unfoldable pub admin_update_dispute :
      ℕ → Option DisputeStatus → Option String → Call db NotedDispute
  unfolding get_dispute_by_id refuses
  admin_update_dispute dispute_id status resolution_note = do
    d ← get_dispute_by_id dispute_id
    throw_if (refuses d status) (bad_request "Invalid status transition")
    let d' = record d { status = from_option d.status status }
    save_dispute d'
    pure (record { dispute = d'; resolution_note = noted resolution_note })

  abbrev pub resolve_if : Bool → Dispute → Call db (Unit {0})
  resolve_if true d = save_dispute (record d { status = auto_resolved })
  resolve_if false d = pure tt

  -- The loop of `autoResolveDisputes` over the open disputes; the time is read once.
  unfoldable pub auto_resolve_loop : ℕ → List Dispute → ℕ → Call db ℕ
  auto_resolve_loop now [] resolved_count = pure resolved_count
  auto_resolve_loop now (d ∷ ds) resolved_count = do
    evidences ← gets (λ r. db.find (λ e. e.dispute_id == d.id) r.evidences)
    let due = should_auto_resolve d evidences now 3
    resolve_if due d
    auto_resolve_loop now ds (if due then resolved_count + 1 else resolved_count)

  unfoldable pub auto_resolve_disputes : ℕ → Call db ℕ
  auto_resolve_disputes now = do
    open_disputes ← gets (λ r. db.find (λ d. d.status === open_dispute) r.disputes)
    auto_resolve_loop now open_disputes 0

module _ (db : Database) (stellar : Stellar) where
  -- What `adminResolveDispute` does with the escrow, in its `try`. `refundAmount || 0`: no amount is
  -- an amount of zero.
  unfoldable pub distribute_if_escrowed : ℕ → Option ℕ → ResolveDisputeDto → Call db (Unit {0})
  distribute_if_escrowed now none dto = pure tt
  distribute_if_escrowed now (some escrow_id) dto =
      try
        (do
          e ← find_escrow_or_fail db escrow_id
          let refund_amount = from_option (pos 0) dto.refund_amount
          admin_release_funds db stellar now escrow_id (record {
            to_seller = as_number (text e.amount) -ℤ refund_amount;
            to_buyer = refund_amount;
          })
          pure tt)
        (λ error. throw (bad_request "Failed to distribute funds"))

  unfoldable pub admin_resolve_dispute : ℕ → ResolveDisputeDto → ℕ → Call db NotedDispute
  unfolding can_transition
  admin_resolve_dispute now dto dispute_id = do
    d ← get_dispute_by_id db dispute_id
    throw_if (not (can_transition d.status resolved))
        (bad_request "Cannot resolve dispute from current status")
    distribute_if_escrowed now d.escrow_id dto
    let d' = record d { status = resolved }
    save_dispute db d'
    pure (record { dispute = d'; resolution_note = some dto.admin_decision })
