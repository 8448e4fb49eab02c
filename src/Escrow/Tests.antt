-- ===== src/Escrow/Tests.antt =====
-- The escrow service on the sample shop.
use market_x_backend.Common.{
  ℕ, true, Option, none, some, List, [], ◌∷◌, ◌++◌, ◌≡◌, ◌≢◌, refl, arith, inl,
}
use market_x_backend.Common.Int.{pos, ◌+ℤ◌, ◌-ℤ◌, ◌≤ℤ◌}
use market_x_backend.Common.Outcome.{ok, World}
use market_x_backend.Common.Memory.{memory}
use market_x_backend.Status.{validate}
use market_x_backend.Entities.{EscrowEntity, locked, released, frozen}
use market_x_backend.Events.{Event}
use market_x_backend.Rows.{Rows}
use market_x_backend.Samples.{shop, escrow}
use market_x_backend.Escrow.Network.{Stellar, build_transaction, submit_transaction}
use market_x_backend.Escrow.Service.{
  CreateEscrowDto, create_escrow, escrow_at, Distribution, EscrowResponse, map_to_response, pay,
  pay_if_positive, divide_funds, release_funds, release_partial, freeze_escrow, admin_release_funds,
  refund_buyer,
}
use market_x_backend.Escrow.Branches.{IsRefused, settled_escrow-IsRefused}
use market_x_backend.Escrow.Payouts.{Stores, sent}
use market_x_backend.Escrow.Division.{divided}
use market_x_backend.Escrow.Opening.{opened, create_escrow_exact}
use market_x_backend.Escrow.Totals.{PaysOut, returned_pays_amount}
use market_x_backend.Escrow.Repeats.{partially_released_pays_twice}

-- A network that accepts every payment, and one that accepts the first alone.
abbrev willing : Stellar
willing = record { load_account = λ _ _. true; submit = λ _ _. some 77 }

abbrev accept_first : List Event → Option ℕ
accept_first [] = some 77
accept_first (e ∷ es) = none

abbrev once : Stellar
once = record { load_account = λ _ _. true; submit = λ es _. accept_first es }

abbrev in_shop : EscrowEntity → World (Rows memory) Event
in_shop e = record { rows = record (shop.rows) { escrows = e ∷ [] }; emitted = [] }

abbrev even : Distribution
even = record { to_seller = pos 8700; to_buyer = pos 8700 }

settled_escrow-IsRefused_example :
    IsRefused
      (in_shop (record escrow { status = released }))
      (release_funds memory willing 9 5 (in_shop (record escrow { status = released })))
    × IsRefused
        (in_shop (record escrow { status = released }))
        (release_partial memory willing 5 (pos 1) (in_shop (record escrow { status = released })))
    × IsRefused
        (in_shop (record escrow { status = released }))
        (freeze_escrow memory 5 (in_shop (record escrow { status = released })))
    × IsRefused (in_shop (record escrow { status = released })) (
        admin_release_funds memory willing 9 5 even (in_shop (record escrow { status = released })))
    × IsRefused
        (in_shop (record escrow { status = released }))
        (refund_buyer memory willing 9 5 (in_shop (record escrow { status = released })))
settled_escrow-IsRefused_example =
    settled_escrow-IsRefused memory willing 9 5 (pos 1) even
      (in_shop (record escrow { status = released })) (record escrow { status = released }) refl
      (inl refl)

abbrev half_released : World (Rows memory) Event
half_released = (release_partial memory willing 5 (pos 8700) shop).1

abbrev half : EscrowResponse
half = map_to_response (divided memory willing escrow (pos 8700) (pos 8700) 77 (some 77))

half_ok : release_partial memory willing 5 (pos 8700) shop ≡ (ok half, half_released)
unfolding release_partial divide_funds validate pay pay_if_positive build_transaction
    submit_transaction ◌-ℤ◌
half_ok = refl

abbrev frozen_shop : World (Rows memory) Event
frozen_shop = in_shop (record escrow { status = frozen })

returned_pays_amount_example :
    PaysOut memory willing escrow (pos 17400) shop half_released
    × IsRefused shop (admin_release_funds memory willing 9 5 even shop)
returned_pays_amount_example =
    let (_, partial, _, refused) =
      returned_pays_amount memory willing 9 5 (pos 8700) even shop half_released escrow half refl in
    (partial half_ok, refused)

abbrev after_first : World (Rows memory) Event
after_first = (pay memory once 102 101 (pos 8700) shop).1

partially_released_pays_twice_example :
    (r' : EscrowResponse) × (w' : World (Rows memory) Event) × (release_funds memory willing 9 5
        half_released
      ≡ (ok r', w'))
    × PaysOut memory willing escrow (pos 17400 +ℤ pos 17400) shop w'
unfolding release_partial divide_funds validate pay pay_if_positive build_transaction
    submit_transaction ◌-ℤ◌
partially_released_pays_twice_example =
    partially_released_pays_twice memory willing 9 5 (pos 8700) shop half_released
      (pay memory willing 102 101 (pos 17400) half_released).1 escrow half 77 refl half_ok
      (omega arith) refl

-- The account of the new escrow is 103, and its key is 6.
abbrev request : CreateEscrowDto
request = record { order_id = 7; buyer_public_key = 100; seller_public_key = 101; amount = pos 500 }

abbrev opened_escrow : EscrowEntity
opened_escrow = record (opened memory willing 103 request shop) {
  lock_transaction_hash = some 77;
  status = locked;
}

open_ok :
    create_escrow memory willing 103 request shop
    ≡ (ok (map_to_response opened_escrow), (create_escrow memory willing 103 request shop).1)
unfolding create_escrow pay build_transaction submit_transaction
open_ok = refl

create_escrow_exact_example :
    let w' = (create_escrow memory willing 103 request shop).1 in
    (pos 1 ≤ℤ request.amount)
    × (request.buyer_public_key ≢ request.seller_public_key)
    × (escrow_at memory 6 shop ≡ none)
    × ((hash : ℕ) × Stores memory willing 6
          (record (opened memory willing 103 request shop) {
            lock_transaction_hash = some hash;
            status = locked;
          })
          shop
          w')
    × (w'.emitted ≡ shop.emitted ++ sent memory willing 100 103 (pos 500) ∷ [])
create_escrow_exact_example =
    create_escrow_exact memory willing 103 request shop
      (create_escrow memory willing 103 request shop).1 (map_to_response opened_escrow) open_ok
