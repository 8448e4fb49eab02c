-- ===== src/Escrow/Network.antt =====
-- What the escrow service uses of the Stellar SDK, which is not part of the repository: an account
-- is loaded, and a transaction of one payment is submitted; either may throw. The answers may depend
-- on all that was sent before.
use market_x_backend.Common.{ℕ, Bool, not, Option, none, some, List}
use market_x_backend.Common.Int.{ℤ}
use market_x_backend.Common.Outcome.{network, pure, throw, throw_if, emit, ◌>>◌}
use market_x_backend.Common.Database.{Database}
use market_x_backend.Events.{Event, Payment, payment_sent}
use market_x_backend.Rows.{Call}

pub record Stellar : Type 0 where
  -- Does `loadAccount` find the account?
  pub load_account : List Event → ℕ → Bool
  -- The hash of the accepted transaction, or `none` if `submitTransaction` throws.
  pub submit : List Event → Payment → Option ℕ

module _ (db : Database) (stellar : Stellar) where
  unfoldable pub build_transaction : ℕ → ℕ → ℤ → Call db Payment
  build_transaction from to amount w =
      (do
        throw_if (not (stellar.load_account w.emitted from)) (network "loadAccount")
        pure (record { from = from; to = to; amount = amount }))
        w

  abbrev accept : Payment → Option ℕ → Call db ℕ
  accept tx none = throw (network "submitTransaction")
  accept tx (some hash) = do emit (payment_sent tx); pure hash

  unfoldable pub submit_transaction : Payment → Call db ℕ
  submit_transaction tx w = accept tx (stellar.submit w.emitted tx) w
