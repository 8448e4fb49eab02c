-- ===== src/Escrow/Opening.antt =====
-- `createEscrow`, whether the payment into the escrow goes through or not.
use market_x_backend.Common.{
  ℕ, none, some, [], ◌∷◌, ◌++◌, ◌≡◌, ◌≢◌, arith, inl, inr, ==_refl, false,
}
use market_x_backend.Common.Int.{pos, ◌≤ℤ◌}
use market_x_backend.Common.Outcome.{ok, World, Outcome-cases}
use market_x_backend.Common.Database.{Database}
use market_x_backend.Entities.{EscrowEntity, locked, pending}
use market_x_backend.Events.{Event}
use market_x_backend.Rows.{Rows}
use market_x_backend.Escrow.Network.{Stellar}
use market_x_backend.Escrow.Service.{escrow_at, CreateEscrowDto, EscrowResponse, pay, create_escrow}
use market_x_backend.Escrow.Payouts.{Stores, sent, pay_exact}

module _ (db : Database) (stellar : Stellar) where
  -- The escrow that is stored for a request, in the account that was made for it.
  abbrev pub opened : ℕ → CreateEscrowDto → World (Rows db) Event → EscrowEntity
  opened account dto w = record {
    id = db.next_key w.rows.escrows;
    order_id = dto.order_id;
    buyer_public_key = dto.buyer_public_key;
    seller_public_key = dto.seller_public_key;
    amount = dto.amount;
    released_amount = pos 0;
    refunded_amount = pos 0;
    escrow_account_public_key = account;
    lock_transaction_hash = none;
    release_transaction_hash = none;
    refund_transaction_hash = none;
    status = pending;
    delivery_confirmed_at = none;
    cancelled_at = none;
    error_message = none;
    dispute_flag = false;
  }

  -- An escrow is opened only for a positive amount between two different parties. If that returns,
  -- the buyer has paid the amount into its account, once, and the escrow is stored with the order,
  -- the parties and the amount of the request, nothing released or refunded, and locked, under a key
  -- that was free, with no other escrow changed.
  pub create_escrow_exact :
      (account : ℕ) (dto : CreateEscrowDto) (w w' : World (Rows db) Event) (r : EscrowResponse)
      → create_escrow db stellar account dto w ≡ (ok r, w')
      → (pos 1 ≤ℤ dto.amount)
        × (dto.buyer_public_key ≢ dto.seller_public_key)
        × (escrow_at db (db.next_key w.rows.escrows) w ≡ none)
        × ((hash : ℕ) × Stores db stellar
              (db.next_key w.rows.escrows)
              (record (opened account dto w) { lock_transaction_hash = some hash; status = locked })
              w
              w')
        × (w'.emitted ≡ w.emitted ++ sent db stellar dto.buyer_public_key account dto.amount ∷ [])
  unfolding create_escrow
  create_escrow_exact account dto w w' r run =
      let e = opened account dto w in
      let saved : World (Rows db) Event = record w {
        rows = record w.rows { escrows = db.save e w.rows.escrows };
      } in
      elim (Outcome-cases (pay db stellar dto.buyer_public_key account dto.amount saved)) [
        | inl (hash, w1, paid) ↦
            let out =
              pay_exact db stellar dto.buyer_public_key account dto.amount saved w1 hash paid in
            (
              ground arith,
              λ same. ground (arith, ==_refl dto.seller_public_key),
              db.next_key_fresh w.rows.escrows,
              (hash, λ j. grind (arith, db.find_one-save j, out)),
              ground (arith, out),
            )
        | inr (x, w1, failed) ↦ absurd (ground arith)
      ]
