-- ===== src/Disputes/Tests.antt =====
-- The disputes service on the sample shop.
use market_x_backend.Common.{true, none, some, [], ◌∷◌, ◌≡◌, refl, inr}
use market_x_backend.Common.Int.{pos}
use market_x_backend.Common.Outcome.{ok, World}
use market_x_backend.Common.Memory.{memory}
use market_x_backend.Status.{validate}
use market_x_backend.Entities.{EscrowEntity, frozen, Dispute, escalated, auto_resolved}
use market_x_backend.Events.{Event}
use market_x_backend.Rows.{Rows}
use market_x_backend.Samples.{shop, escrow, dispute}
use market_x_backend.Escrow.Network.{Stellar}
use market_x_backend.Escrow.Service.{release_funds, release_partial, freeze_escrow}
use market_x_backend.Escrow.Branches.{IsRefused}
use market_x_backend.Disputes.Service.{
  CreateDisputeDto, ResolveDisputeDto, create_dispute, new_dispute, freeze_if_given,
  set_dispute_flag, escalate_dispute, admin_update_dispute, admin_resolve_dispute,
}
use market_x_backend.Disputes.Final.{decided_dispute-IsRefused}
use market_x_backend.Disputes.Freeze.{create_dispute_blocks_release}

abbrev willing : Stellar
willing = record { load_account = λ _ _. true; submit = λ _ _. some 77 }

abbrev complaint : CreateDisputeDto
complaint = record {
  transaction_id = 900;
  complainant_id = 40;
  respondent_id = 41;
  reason = "late";
  escrow_id = some 5;
  description = none;
  image_urls = none;
}

abbrev refund_1000 : ResolveDisputeDto
refund_1000 = record {
  admin_decision = "part";
  resolution_type = none;
  refund_amount = some (pos 1000);
}

abbrev with_dispute : Dispute → EscrowEntity → World (Rows memory) Event
with_dispute d e = record {
  rows = record (shop.rows) { disputes = d ∷ []; escrows = e ∷ [] };
  emitted = [];
}

abbrev timed_out : Dispute
timed_out = record dispute { status = auto_resolved }

decided_dispute-IsRefused_example :
    IsRefused
      (with_dispute timed_out escrow)
      (escalate_dispute memory 3 40 (with_dispute timed_out escrow))
    × IsRefused
        (with_dispute timed_out escrow)
        (admin_update_dispute memory 3 (some escalated) none (with_dispute timed_out escrow))
    × IsRefused
        (with_dispute timed_out escrow)
        (admin_resolve_dispute memory willing 9 refund_1000 3 (with_dispute timed_out escrow))
decided_dispute-IsRefused_example =
    decided_dispute-IsRefused memory willing 9 3 40 escalated none refund_1000
      (with_dispute timed_out escrow) timed_out refl (inr (inr refl))

abbrev disputed_shop : World (Rows memory) Event
disputed_shop = (create_dispute memory 9 complaint shop).1

create_ok : create_dispute memory 9 complaint shop ≡ (ok (new_dispute 4 9 complaint), disputed_shop)
unfolding create_dispute freeze_if_given freeze_escrow set_dispute_flag validate
create_ok = refl

create_dispute_blocks_release_example :
    IsRefused disputed_shop (release_funds memory willing 10 5 disputed_shop)
    × IsRefused disputed_shop (release_partial memory willing 5 (pos 1) disputed_shop)
    × IsRefused disputed_shop (freeze_escrow memory 5 disputed_shop)
create_dispute_blocks_release_example =
    create_dispute_blocks_release memory willing 9 10 5 (pos 1) complaint shop disputed_shop escrow
      (new_dispute 4 9 complaint) refl refl create_ok

-- A second dispute, about no escrow.
abbrev about_nothing : Dispute
about_nothing = record dispute { id = 4; escrow_id = none }

abbrev two_disputes : World (Rows memory) Event
two_disputes = record {
  rows = record (shop.rows) {
    disputes = dispute ∷ about_nothing ∷ [];
    escrows = record escrow { status = frozen; dispute_flag = true } ∷ [];
  };
  emitted = [];
}
