-- ===== src/Escrow/Totals.antt =====
-- How much the operations pay out of the account of an escrow in all.
use market_x_backend.Common.{ℕ, some, List, [], ◌∷◌, ◌++◌, ◌≡◌, ◌∙◌, ap, ap₂, if◌then◌else◌, ◌==◌}
use market_x_backend.Common.Int.{ℤ, pos, ◌+ℤ◌, ◌-ℤ◌, ◌≤ℤ◌, int_laws}
use market_x_backend.Common.Outcome.{ok, World}
use market_x_backend.Common.Database.{Database}
use market_x_backend.Entities.{EscrowEntity}
use market_x_backend.Events.{Event, payment_sent}
use market_x_backend.Rows.{Rows}
use market_x_backend.Escrow.Network.{Stellar}
use market_x_backend.Escrow.Service.{
  escrow_at, EscrowResponse, release_funds, release_partial, admin_release_funds, refund_buyer,
  Distribution,
}
use market_x_backend.Escrow.Payouts.{
  sent, sent_if_positive, release_funds_exact, refund_buyer_exact,
}
use market_x_backend.Escrow.Division.{release_partial_exact, admin_release_funds-IsRefused}
use market_x_backend.Escrow.Branches.{IsRefused}

-- What an event pays out of an account, and what a history of them does together.
abbrev pub payment_of : ℕ → Event → ℤ
payment_of account (payment_sent p) = if p.from == account then p.amount else pos 0
payment_of account e = pos 0

abbrev pub paid_out : ℕ → List Event → ℤ
paid_out account [] = pos 0
paid_out account (e ∷ es) = payment_of account e +ℤ paid_out account es

pub paid_out-append :
    (account : ℕ) (es fs : List Event)
    → paid_out account (es ++ fs) ≡ paid_out account es +ℤ paid_out account fs
paid_out-append account [] fs = omega int_laws
paid_out-append account (e ∷ es) fs = rw (paid_out-append account es fs) (omega int_laws)

module _ (db : Database) (stellar : Stellar) where
  -- The account of `e` has paid `n` more.
  abbrev pub PaysOut : EscrowEntity → ℤ → World (Rows db) Event → World (Rows db) Event → Type 0
  PaysOut e n w w' =
      paid_out e.escrow_account_public_key w'.emitted
      ≡ paid_out e.escrow_account_public_key w.emitted +ℤ n

  pub paid_after :
      (account : ℕ) (n : ℤ) (es : List Event) (w w' : World (Rows db) Event)
      → w'.emitted ≡ w.emitted ++ es
      → paid_out account es ≡ n
      → paid_out account w'.emitted ≡ paid_out account w.emitted +ℤ n
  paid_after account n es w w' e total =
      ap (paid_out account) e
      ∙ (paid_out-append account w.emitted es ∙ ap (λ m. paid_out account w.emitted +ℤ m) total)

  one_payment : (account to : ℕ) (n : ℤ) → paid_out account (sent db stellar account to n ∷ []) ≡ n
  one_payment account to n = grind int_laws

  payment_if_positive :
      (account to : ℕ) (n : ℤ)
      → pos 0 ≤ℤ n
      → paid_out account (sent_if_positive db stellar account to n) ≡ n
  payment_if_positive account to n nonneg = grind int_laws

  two_payments :
      (account : ℕ) (n m a : ℤ) (es fs : List Event)
      → paid_out account es ≡ n
      → paid_out account fs ≡ m
      → n +ℤ m ≡ a
      → paid_out account (es ++ fs) ≡ a
  two_payments account n m a es fs p q sum = paid_out-append account es fs ∙ (ap₂ ◌+ℤ◌ p q ∙ sum)

  -- A release, a partial release or a refund that returns has paid exactly the amount of the escrow
  -- out of its account. An administrator's distribution never returns, and pays and stores nothing.
  pub returned_pays_amount :
      (now k : ℕ) (n : ℤ) (d : Distribution) (w w' : World (Rows db) Event) (e : EscrowEntity)
      → (r : EscrowResponse) → escrow_at db k w ≡ some e
      → (release_funds db stellar now k w ≡ (ok r, w') → PaysOut e e.amount w w')
        × (release_partial db stellar k n w ≡ (ok r, w') → PaysOut e e.amount w w')
        × (refund_buyer db stellar now k w ≡ (ok r, w') → PaysOut e e.amount w w')
        × IsRefused w (admin_release_funds db stellar now k d w)
  returned_pays_amount now k n d w w' e r found =
      let account = e.escrow_account_public_key in
      (
        λ run.
            let (_, _, out) = release_funds_exact db stellar now k w w' e r found run in
            paid_after account e.amount _ w w' out
              (one_payment account e.seller_public_key e.amount),
        λ run.
            let (low, high, (_, _, _, out)) =
              release_partial_exact db stellar k n w w' e r found run in
            paid_after account e.amount _ w w' out (
              two_payments account n (e.amount -ℤ n) e.amount
                (sent db stellar account e.seller_public_key n ∷ []) _
                (one_payment account e.seller_public_key n)
                (payment_if_positive account e.buyer_public_key (e.amount -ℤ n) (omega int_laws))
                (omega int_laws)),
        λ run.
            let (_, _, out) = refund_buyer_exact db stellar now k w w' e r found run in
            paid_after account e.amount _ w w' out
              (one_payment account e.buyer_public_key e.amount),
        admin_release_funds-IsRefused db stellar now k d w,
      )
