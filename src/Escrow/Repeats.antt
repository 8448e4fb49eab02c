-- ===== src/Escrow/Repeats.antt =====
-- Escrows that stay open after money was paid out of them.
use market_x_backend.Common.{ℕ, some, [], ◌∷◌, ◌++◌, ◌≡◌, ◌∙◌, ap, arith, if◌then◌else◌, ==_refl}
use market_x_backend.Common.Int.{ℤ, pos, ◌+ℤ◌, ◌-ℤ◌, ◌≤ℤ◌, +ℤ_assoc}
use market_x_backend.Common.Outcome.{ok, err, Exception, bad_request, World}
use market_x_backend.Common.Database.{Database}
use market_x_backend.Status.{validate}
use market_x_backend.Entities.{EscrowEntity, released, locked, partially_released}
use market_x_backend.Events.{Event}
use market_x_backend.Rows.{Rows}
use market_x_backend.Escrow.Network.{Stellar}
use market_x_backend.Escrow.Service.{
  escrow_at, map_to_response, EscrowResponse, pay, pay_if_positive, divide_funds, record_failure,
  release_funds, release_partial, Distribution,
}
use market_x_backend.Escrow.Payouts.{Stores, sent, pay_exact, pay_if_positive_err}
use market_x_backend.Escrow.Division.{divided, release_partial_exact}
use market_x_backend.Escrow.Totals.{PaysOut, returned_pays_amount}

module _ (db : Database) (stellar : Stellar) where
  -- A partial release whose payment to the seller goes through and whose refund does not fails, but
  -- the seller keeps the money, and the escrow is stored with its status and its amounts as before,
  -- the error noted: nothing records that the payment was made, and no other escrow has changed.
  pub failed_refund_forgets_payment :
      (k : ℕ) (n : ℤ) (w w1 w2 : World (Rows db) Event) (e : EscrowEntity) (hash : ℕ)
      → (x : Exception) → escrow_at db k w ≡ some e
      → e.status ≡ locked
      → pos 1 ≤ℤ n
      → n ≤ℤ e.amount
      → pay db stellar e.escrow_account_public_key e.seller_public_key n w ≡ (ok hash, w1)
      → pay_if_positive db stellar e.escrow_account_public_key e.buyer_public_key (e.amount -ℤ n) w1
        ≡ (err x, w2)
      → let (r, w') = release_partial db stellar k n w in
        (r ≡ err (bad_request "Failed partial release"))
        × Stores db stellar k (record e { error_message = some x }) w w'
        × (w'.emitted
            ≡ w.emitted ++ sent db stellar e.escrow_account_public_key e.seller_public_key n ∷ [])
  unfolding release_partial validate record_failure divide_funds
  failed_refund_forgets_payment k n w w1 w2 e hash x found lock low high paid failed =
      let account = e.escrow_account_public_key in
      let first = pay_exact db stellar account e.seller_public_key n w w1 hash paid in
      let second =
        pay_if_positive_err db stellar account e.buyer_public_key (e.amount -ℤ n) w1 w2 x failed in
      (
        ground arith,
        λ j.
            grind
              (arith, db.find_one-save j, db.find_one-key k w.rows.escrows e found, first, second),
        ground (arith, first, second),
      )

  release_funds_returns :
      (now k : ℕ) (w w1 : World (Rows db) Event) (e : EscrowEntity) (hash : ℕ)
      → escrow_at db k w ≡ some e
      → e.status ≡ partially_released
      → pay db stellar e.escrow_account_public_key e.seller_public_key e.amount w ≡ (ok hash, w1)
      → (r : EscrowResponse) × (w' : World (Rows db) Event) × (release_funds db stellar now k w
          ≡ (ok r, w'))
  unfolding release_funds validate
  release_funds_returns now k w w1 e hash found open_still accepted = (
    map_to_response (record e {
      release_transaction_hash = some hash;
      status = released;
      delivery_confirmed_at = some now;
    }),
    (release_funds db stellar now k w).1,
    ground arith,
  )

  -- After a partial release with a rest, which has paid out the whole amount, the escrow can still
  -- be released: if the network accepts the payment, that succeeds, and the account has paid the
  -- amount twice.
  pub partially_released_pays_twice :
      (now k : ℕ) (n : ℤ) (w w1 w2 : World (Rows db) Event) (e : EscrowEntity)
      → (r : EscrowResponse) (hash : ℕ) → escrow_at db k w ≡ some e
      → release_partial db stellar k n w ≡ (ok r, w1)
      → pos 1 ≤ℤ e.amount -ℤ n
      → pay db stellar e.escrow_account_public_key e.seller_public_key e.amount w1 ≡ (ok hash, w2)
      → (r' : EscrowResponse) × (w' : World (Rows db) Event) × (release_funds db stellar now k w1
          ≡ (ok r', w'))
        × PaysOut db stellar e (e.amount +ℤ e.amount) w w'
  partially_released_pays_twice now k n w w1 w2 e r hash found run rest accepted =
      let none_forced : Distribution = record { to_seller = pos 0; to_buyer = pos 0 } in
      let (_, _, (h1, h2, stored, _)) = release_partial_exact db stellar k n w w1 e r found run in
      let e1 = divided db stellar e n (e.amount -ℤ n) h1 h2 in
      let here : escrow_at db k w1 ≡ some e1 =
        stored k ∙ ap (λ b. if b then some e1 else escrow_at db k w) (==_refl k) in
      let (r', w', again) =
        release_funds_returns now k w1 w2 e1 hash here (ground arith) accepted in
      let first = (returned_pays_amount db stellar now k n none_forced w w1 e r found).1 run in
      let second = (returned_pays_amount db stellar now k n none_forced w1 w' e1 r' here).0 again in
      (r', w', again, second ∙ (ap (λ m. m +ℤ e.amount) first ∙ +ℤ_assoc _ e.amount e.amount))
