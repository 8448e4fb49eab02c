-- ===== src/Escrow/Division.antt =====
-- `releasePartial`, which divides an escrow between the seller and the buyer, and `adminReleaseFunds`,
-- which would.
use mathlib.Core.List.{append_assoc}
use market_x_backend.Common.{
  ℕ, Option, some, [], ◌∷◌, ◌++◌, ◌≡◌, arith, inl, inr, if◌then◌else◌, Option-cases, Bool-cases,
}
use market_x_backend.Common.Int.{ℤ, pos, ◌-ℤ◌, ◌≤ℤ◌, ltb_ℤ}
use market_x_backend.Common.Outcome.{ok, World, Outcome-cases, not_found, bad_request}
use market_x_backend.Common.Database.{Database}
use market_x_backend.Status.{validate, ◌===◌}
use market_x_backend.Entities.{
  EscrowEntity, released, frozen, partially_released, escrow_status_enum,
}
use market_x_backend.Events.{Event}
use market_x_backend.Rows.{Rows}
use market_x_backend.Escrow.Network.{Stellar}
use market_x_backend.Escrow.Service.{
  escrow_at, EscrowResponse, pay, pay_if_positive, divide_funds, record_failure, release_partial,
  admin_release_funds, Distribution,
}
use market_x_backend.Escrow.Payouts.{
  Stores, sent, sent_if_positive, pay_exact, pay_if_positive_exact,
}
use market_x_backend.Escrow.Branches.{IsRefused}

module _ (db : Database) (stellar : Stellar) where
  -- The escrow after `releasePartial`.
  abbrev pub divided : EscrowEntity → ℤ → ℤ → ℕ → Option ℕ → EscrowEntity
  divided e n m release_hash refund_hash = record e {
    release_transaction_hash = some release_hash;
    refund_transaction_hash = refund_hash;
    released_amount = n;
    refunded_amount = m;
    status = if ltb_ℤ (pos 0) m then partially_released else released;
  }

  divide_funds_exact :
      (k : ℕ) (n m : ℤ) (w w' : World (Rows db) Event) (e : EscrowEntity) (r : EscrowResponse)
      → escrow_at db k w ≡ some e
      → divide_funds db stellar e n m w ≡ (ok r, w')
      → (release_hash : ℕ) × (refund_hash : Option ℕ) × Stores db stellar k
          (divided e n m release_hash refund_hash)
          w
          w'
        × (w'.emitted
            ≡ w.emitted
              ++ (sent db stellar e.escrow_account_public_key e.seller_public_key n
                  ∷ sent_if_positive db stellar e.escrow_account_public_key e.buyer_public_key m))
  unfolding divide_funds
  divide_funds_exact k n m w w' e r found run =
      let account = e.escrow_account_public_key in
      elim (Outcome-cases (pay db stellar account e.seller_public_key n w)) [
        | inl (hash, w1, paid) ↦
            let first = pay_exact db stellar account e.seller_public_key n w w1 hash paid in
            elim (Outcome-cases (pay_if_positive db stellar account e.buyer_public_key m w1)) [
              | inl (hash', w2, paid') ↦
                  let second =
                    pay_if_positive_exact db stellar account e.buyer_public_key m w1 w2 hash'
                      paid' in
                  (
                    hash,
                    hash',
                    λ j. grind (
                      arith,
                      db.find_one-save j,
                      db.find_one-key k w.rows.escrows e found,
                      first,
                      second,
                    ),
                    ground (
                      arith,
                      first,
                      second,
                      append_assoc w.emitted (sent db stellar account e.seller_public_key n ∷ [])
                          (sent_if_positive db stellar account e.buyer_public_key m),
                    ),
                  )
              | inr (x, w2, failed) ↦ absurd (ground arith)
            ]
        | inr (x, w1, failed) ↦ absurd (ground arith)
      ]

  -- A partial release that returns had a positive amount of at most the escrow's. It has paid that
  -- amount to the seller and the rest, if there is one, to the buyer, in this order and nothing
  -- else, and has recorded both amounts; the escrow is partially released, or released if there was
  -- no rest, and no other escrow has changed.
  pub release_partial_exact :
      (k : ℕ) (n : ℤ) (w w' : World (Rows db) Event) (e : EscrowEntity) (r : EscrowResponse)
      → escrow_at db k w ≡ some e
      → release_partial db stellar k n w ≡ (ok r, w')
      → (pos 1 ≤ℤ n)
        × (n ≤ℤ e.amount)
        × ((release_hash : ℕ) × (refund_hash : Option ℕ) × Stores db stellar k
              (divided e n (e.amount -ℤ n) release_hash refund_hash)
              w
              w'
            × (w'.emitted
                ≡ w.emitted
                  ++ (sent db stellar e.escrow_account_public_key e.seller_public_key n
                      ∷ sent_if_positive db stellar e.escrow_account_public_key e.buyer_public_key
                          (e.amount -ℤ n))))
  unfolding release_partial validate record_failure
  release_partial_exact k n w w' e r found run = (
    ground arith,
    ground arith,
    elim (Outcome-cases (divide_funds db stellar e n (e.amount -ℤ n) w)) [
      | inl (r', w1, done) ↦ divide_funds_exact k n (e.amount -ℤ n) w w' e r found (ground arith)
      | inr (x, w1, failed) ↦ absurd (ground arith)
    ],
  )

  -- An administrator's release is always refused, before anything is stored or paid: the sum of the
  -- shares is a number, the amount that is read from the database is a text, and they are compared by
  -- `!==`.
  pub admin_release_funds-IsRefused :
      (now k : ℕ) (d : Distribution) (w : World (Rows db) Event)
      → IsRefused w (admin_release_funds db stellar now k d w)
  unfolding admin_release_funds
  admin_release_funds-IsRefused now k d w = elim (Option-cases (escrow_at db k w)) [
    | inl missing ↦ (not_found "Escrow not found", ground arith)
    | inr (e, found) ↦ elim (Bool-cases (e.status === frozen)) [
      | inl is_frozen ↦ (bad_request "Distribution must equal total escrow amount", ground arith)
      | inr other ↦ (bad_request "Can only release frozen escrow", ground arith)
    ]
  ]
