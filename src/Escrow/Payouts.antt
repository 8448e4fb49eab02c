-- ===== src/Escrow/Payouts.antt =====
-- What the operations pay out of the account of an escrow.
use mathlib.Core.List.{append-nil}
use market_x_backend.Common.{
  ℕ, Option, some, List, [], ◌∷◌, ◌++◌, ◌≡◌, arith, inl, inr, if◌then◌else◌, ◌==◌,
}
use market_x_backend.Common.Int.{ℤ, pos, ltb_ℤ}
use market_x_backend.Common.Outcome.{ok, err, Exception, World, Outcome-cases}
use market_x_backend.Common.Database.{Database}
use market_x_backend.Status.{validate}
use market_x_backend.Entities.{EscrowEntity, released, refunded}
use market_x_backend.Events.{Event, payment_sent}
use market_x_backend.Rows.{Rows}
use market_x_backend.Escrow.Network.{Stellar}
use market_x_backend.Escrow.Service.{
  escrow_at, EscrowResponse, pay, pay_if_positive, release_funds, refund_buyer,
}

module _ (db : Database) (stellar : Stellar) where
  -- The escrow with key `k` is now `e'`, and no other has changed.
  abbrev pub Stores : ℕ → EscrowEntity → World (Rows db) Event → World (Rows db) Event → Type 0
  Stores k e' w w' = (j : ℕ) → escrow_at db j w' ≡ (if k == j then some e' else escrow_at db j w)

  abbrev pub sent : ℕ → ℕ → ℤ → Event
  sent from to n = payment_sent (record { from = from; to = to; amount = n })

  abbrev pub sent_if_positive : ℕ → ℕ → ℤ → List Event
  sent_if_positive from to n = if ltb_ℤ (pos 0) n then sent from to n ∷ [] else []

  pub pay_exact :
      (from to : ℕ) (n : ℤ) (w w' : World (Rows db) Event) (hash : ℕ)
      → pay db stellar from to n w ≡ (ok hash, w')
      → w' ≡ record w { emitted = w.emitted ++ sent from to n ∷ [] }
  unfolding pay
  pay_exact from to n w w' hash run = grind arith

  pub pay_if_positive_exact :
      (from to : ℕ) (n : ℤ) (w w' : World (Rows db) Event) (hash : Option ℕ)
      → pay_if_positive db stellar from to n w ≡ (ok hash, w')
      → w' ≡ record w { emitted = w.emitted ++ sent_if_positive from to n }
  unfolding pay_if_positive pay
  pay_if_positive_exact from to n w w' hash run = grind (arith, append-nil w.emitted)

  -- A payment that is not made changes nothing.
  pub pay_if_positive_err :
      (from to : ℕ) (n : ℤ) (w w' : World (Rows db) Event) (x : Exception)
      → pay_if_positive db stellar from to n w ≡ (err x, w')
      → w' ≡ w
  unfolding pay_if_positive pay
  pay_if_positive_err from to n w w' x run = grind arith

  -- A release that returns has paid the amount of the escrow to the seller, once, and nothing else;
  -- the escrow is released, with the payment's hash and the time noted, and no other escrow has
  -- changed.
  pub release_funds_exact :
      (now k : ℕ) (w w' : World (Rows db) Event) (e : EscrowEntity) (r : EscrowResponse)
      → escrow_at db k w ≡ some e
      → release_funds db stellar now k w ≡ (ok r, w')
      → (hash : ℕ) × Stores k
          (record e {
            release_transaction_hash = some hash;
            status = released;
            delivery_confirmed_at = some now;
          })
          w
          w'
        × (w'.emitted
            ≡ w.emitted ++ sent e.escrow_account_public_key e.seller_public_key e.amount ∷ [])
  unfolding release_funds validate
  release_funds_exact now k w w' e r found run =
      elim (Outcome-cases
        (pay db stellar e.escrow_account_public_key e.seller_public_key e.amount w)) [
          | inl (hash, w1, paid) ↦ (
            hash,
            λ j. grind (
              arith,
              db.find_one-save j,
              db.find_one-key k w.rows.escrows e found,
              pay_exact e.escrow_account_public_key e.seller_public_key e.amount w w1 hash paid,
            ),
            ground (
              arith,
              pay_exact e.escrow_account_public_key e.seller_public_key e.amount w w1 hash paid,
            ),
          )
          | inr (x, w1, failed) ↦ absurd (ground arith)
        ]

  -- A refund that returns has paid the amount of the escrow to the buyer, once, and nothing else; the
  -- escrow is refunded, with the payment's hash, the amounts and the time noted, and no other escrow
  -- has changed.
  pub refund_buyer_exact :
      (now k : ℕ) (w w' : World (Rows db) Event) (e : EscrowEntity) (r : EscrowResponse)
      → escrow_at db k w ≡ some e
      → refund_buyer db stellar now k w ≡ (ok r, w')
      → (hash : ℕ) × Stores k
          (record e {
            refund_transaction_hash = some hash;
            refunded_amount = e.amount;
            released_amount = pos 0;
            status = refunded;
            cancelled_at = some now;
          })
          w
          w'
        × (w'.emitted
            ≡ w.emitted ++ sent e.escrow_account_public_key e.buyer_public_key e.amount ∷ [])
  unfolding refund_buyer validate
  refund_buyer_exact now k w w' e r found run =
      elim (Outcome-cases
        (pay db stellar e.escrow_account_public_key e.buyer_public_key e.amount w)) [
          | inl (hash, w1, paid) ↦ (
            hash,
            λ j. grind (
              arith,
              db.find_one-save j,
              db.find_one-key k w.rows.escrows e found,
              pay_exact e.escrow_account_public_key e.buyer_public_key e.amount w w1 hash paid,
            ),
            ground (
              arith,
              pay_exact e.escrow_account_public_key e.buyer_public_key e.amount w w1 hash paid,
            ),
          )
          | inr (x, w1, failed) ↦ absurd (ground arith)
        ]
