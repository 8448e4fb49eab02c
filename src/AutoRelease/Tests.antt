-- ===== src/AutoRelease/Tests.antt =====
-- The auto-release job on the sample shop.
use market_x_backend.Common.{ℕ, ◌*◌, true, some, [], ◌∷◌, ◌≡◌, refl, if◌then◌else◌, ◌==◌, inl}
use market_x_backend.Common.Outcome.{ok, World}
use market_x_backend.Common.Memory.{memory}
use market_x_backend.Status.{validate}
use market_x_backend.Entities.{delivered}
use market_x_backend.Events.{Event}
use market_x_backend.Rows.{Rows}
use market_x_backend.Samples.{shop, escrow, order, dispute}
use market_x_backend.Escrow.Network.{Stellar, build_transaction, submit_transaction}
use market_x_backend.Escrow.Service.{escrow_at, pay, release_funds}
use market_x_backend.AutoRelease.{
  ms_per_day, is_delivered, eligible_loop, find_eligible_escrows, process_auto_release,
  release_loop, release_and_announce, trigger_manual_release,
}
use market_x_backend.AutoRelease.Eligible.{process_auto_release_disputed}

abbrev willing : Stellar
willing = record { load_account = λ _ _. true; submit = λ _ _. some 77 }

-- The order was delivered a day after the epoch, and nothing is disputed.
abbrev delivered_shop : World (Rows memory) Event
delivered_shop = record {
  rows = record (shop.rows) {
    orders = record order { status = delivered; delivered_at = some ms_per_day } ∷ [];
    disputes = [];
  };
  emitted = [];
}

released_on_day_8 :
    trigger_manual_release memory willing (8 * ms_per_day) delivered_shop
    ≡ (ok (1, 0), (trigger_manual_release memory willing (8 * ms_per_day) delivered_shop).1)
unfolding trigger_manual_release find_eligible_escrows eligible_loop is_delivered release_loop
    process_auto_release release_and_announce release_funds validate pay build_transaction
    submit_transaction
released_on_day_8 = refl

process_auto_release_disputed_example :
    let (r, w') = process_auto_release memory willing 9 escrow shop in
    (r ≡ ok tt)
    × (w'.emitted ≡ [])
    × ((j : ℕ)
        → escrow_at memory j w' ≡ (
            if 5 == j
            then some (record escrow { dispute_flag = true })
            else escrow_at memory j shop))
process_auto_release_disputed_example =
    process_auto_release_disputed memory willing 9 3 shop escrow dispute refl refl (inl refl)
