-- ===== src/Escrow/Service.antt =====
-- The operations of `EscrowService`. `now` is the clock's time when the operation runs; the key of
-- a new escrow's account, which the SDK draws, is an argument.
use market_x_backend.Common.{ℕ, false, not, Option, none, some, List, [], ◌∷◌, if◌then◌else◌, ◌==◌}
use market_x_backend.Common.Int.{ℤ, pos, ◌+ℤ◌, ◌-ℤ◌, ltb_ℤ, leb_ℤ}
use market_x_backend.Common.Values.{number, text, strictly_equal}
use market_x_backend.Common.Outcome.{
  World, Exception, not_found, bad_request, pure, throw, gets, or_throw, throw_if, modify, try,
  ◌>>=◌, ◌>>◌,
}
use market_x_backend.Common.Database.{Database}
use market_x_backend.Status.{StatusTransitionValidator, validate, ◌===◌}
use market_x_backend.Entities.{
  EscrowEntity, EscrowStatus, pending, locked, released, refunded, cancelled, frozen,
  partially_released, escrow_status_enum,
}
use market_x_backend.Events.{Event}
use market_x_backend.Rows.{Rows, Call}
use market_x_backend.Escrow.Network.{Stellar, build_transaction, submit_transaction}

abbrev pub escrow_transitions : EscrowStatus → List EscrowStatus
escrow_transitions pending = locked ∷ cancelled ∷ []
escrow_transitions locked = released ∷ refunded ∷ frozen ∷ partially_released ∷ []
escrow_transitions released = []
escrow_transitions refunded = []
escrow_transitions cancelled = []
escrow_transitions frozen = locked ∷ refunded ∷ []
escrow_transitions partially_released = released ∷ refunded ∷ []

abbrev pub escrow_transition_validator : StatusTransitionValidator EscrowStatus
escrow_transition_validator = record {
  valid_transitions = escrow_transitions;
  entity_name = "Escrow";
}

pub record CreateEscrowDto : Type 0 where
  pub order_id : ℕ
  pub buyer_public_key : ℕ
  pub seller_public_key : ℕ
  pub amount : ℤ

pub record Distribution : Type 0 where
  pub to_seller : ℤ
  pub to_buyer : ℤ

-- The response of the service; the two timestamps that the database sets are left out.
pub record EscrowResponse : Type 0 where
  pub id : ℕ
  pub order_id : ℕ
  pub buyer_public_key : ℕ
  pub seller_public_key : ℕ
  pub amount : ℤ
  pub escrow_account_public_key : ℕ
  pub status : EscrowStatus
  pub lock_transaction_hash : Option ℕ
  pub release_transaction_hash : Option ℕ
  pub refund_transaction_hash : Option ℕ

abbrev pub map_to_response : EscrowEntity → EscrowResponse
map_to_response e = record {
  id = e.id;
  order_id = e.order_id;
  buyer_public_key = e.buyer_public_key;
  seller_public_key = e.seller_public_key;
  amount = e.amount;
  escrow_account_public_key = e.escrow_account_public_key;
  status = e.status;
  lock_transaction_hash = e.lock_transaction_hash;
  release_transaction_hash = e.release_transaction_hash;
  refund_transaction_hash = e.refund_transaction_hash;
}

-- `escrowRepository.create({ … })`, with the defaults of the columns.
abbrev pub new_escrow : ℕ → ℕ → CreateEscrowDto → EscrowEntity
new_escrow id account dto = record {
  id = id;
  order_id = dto.order_id;
  buyer_public_key = dto.buyer_public_key;
  seller_public_key = dto.seller_public_key;
  amount = dto.amount;
  released_amount = pos 0;
  refunded_amount = pos 0;
  escrow_account_public_key = account;
  lock_transaction_hash = none;
  release_transaction_hash = none;
  refund_transaction_hash = none;
  status = pending;
  delivery_confirmed_at = none;
  cancelled_at = none;
  error_message = none;
  dispute_flag = false;
}

module _ (db : Database) where
  abbrev pub escrow_at : ℕ → World (Rows db) Event → Option EscrowEntity
  escrow_at k w = db.find_one k w.rows.escrows

  abbrev pub save_escrow : EscrowEntity → Call db (Unit {0})
  save_escrow e = modify (λ r. record r { escrows = db.save e r.escrows })

  abbrev pub find_escrow_or_fail : ℕ → Call db EscrowEntity
  find_escrow_or_fail id = do
    found ← gets (λ r. db.find_one id r.escrows)
    or_throw found (not_found "Escrow not found")

  unfoldable pub get_escrow : ℕ → Call db EscrowResponse
  get_escrow id = do e ← find_escrow_or_fail id; pure (map_to_response e)

  abbrev first : List EscrowEntity → Option EscrowEntity
  first [] = none
  first (e ∷ es) = some e

  unfoldable pub get_escrow_by_order_id : ℕ → Call db EscrowResponse
  get_escrow_by_order_id order_id = do
    found ← gets (λ r. first (db.find (λ e. e.order_id == order_id) r.escrows))
    e ← or_throw found (not_found "Escrow not found for order")
    pure (map_to_response e)

  unfoldable pub freeze_escrow : ℕ → Call db EscrowResponse
  freeze_escrow id = do
    e ← find_escrow_or_fail id
    validate escrow_transition_validator e.status frozen
    let e' = record e { status = frozen }
    save_escrow e'
    pure (map_to_response e')

module _ (db : Database) (stellar : Stellar) where
  -- A payment out of or into an escrow: the transaction is built and submitted.
  unfoldable pub pay : ℕ → ℕ → ℤ → Call db ℕ
  unfolding build_transaction submit_transaction
  pay from to amount = do
    tx ← build_transaction db stellar from to amount
    submit_transaction db stellar tx

  -- `if (amount > 0) hash = …`
  unfoldable pub pay_if_positive : ℕ → ℕ → ℤ → Call db (Option ℕ)
  unfolding pay
  pay_if_positive from to amount =
      let paid = pay from to amount >>= λ hash. pure (some hash) in
      if ltb_ℤ (pos 0) amount then paid else pure none

  unfoldable pub create_escrow : ℕ → CreateEscrowDto → Call db EscrowResponse
  create_escrow account dto = do
    throw_if (leb_ℤ dto.amount (pos 0)) (bad_request "Amount must be positive")
    throw_if (dto.buyer_public_key == dto.seller_public_key)
        (bad_request "Buyer and seller cannot be the same")
    id ← gets (λ r. db.next_key r.escrows)
    let e = new_escrow id account dto
    save_escrow db e
    hash ← pay dto.buyer_public_key account dto.amount
    let e' = record e { lock_transaction_hash = some hash; status = locked }
    save_escrow db e'
    pure (map_to_response e')

  unfoldable pub release_funds : ℕ → ℕ → Call db EscrowResponse
  release_funds now id = do
    e ← find_escrow_or_fail db id
    validate escrow_transition_validator e.status released
    hash ← pay e.escrow_account_public_key e.seller_public_key e.amount
    let e' = record e {
      release_transaction_hash = some hash;
      status = released;
      delivery_confirmed_at = some now;
    }
    save_escrow db e'
    pure (map_to_response e')

  -- The `try` of `releasePartial`.
  unfoldable pub divide_funds : EscrowEntity → ℤ → ℤ → Call db EscrowResponse
  divide_funds e released_amount refund_amount = do
    release_hash ← pay e.escrow_account_public_key e.seller_public_key released_amount
    refund_hash ← pay_if_positive e.escrow_account_public_key e.buyer_public_key refund_amount
    let e' = record e {
      release_transaction_hash = some release_hash;
      refund_transaction_hash = refund_hash;
      released_amount = released_amount;
      refunded_amount = refund_amount;
      status = if ltb_ℤ (pos 0) refund_amount then partially_released else released;
    }
    save_escrow db e'
    pure (map_to_response e')

  -- The two `catch` blocks, which differ in the message.
  unfoldable pub record_failure : EscrowEntity → Exception → Exception → Call db EscrowResponse
  record_failure e failure error = do
    save_escrow db (record e { error_message = some error })
    throw failure

  unfoldable pub release_partial : ℕ → ℤ → Call db EscrowResponse
  release_partial id released_amount = do
    e ← find_escrow_or_fail db id
    validate escrow_transition_validator e.status partially_released
    throw_if (leb_ℤ released_amount (pos 0)) (bad_request "Released amount must be positive")
    throw_if (ltb_ℤ e.amount released_amount) (bad_request "Released amount exceeds escrow balance")
    try (divide_funds e released_amount (e.amount -ℤ released_amount))
        (record_failure e (bad_request "Failed partial release"))

  -- The `try` of `adminReleaseFunds`.
  unfoldable pub distribute_funds : ℕ → EscrowEntity → Distribution → Call db EscrowResponse
  distribute_funds now e distribution = do
    release_hash ←
        pay_if_positive e.escrow_account_public_key e.seller_public_key distribution.to_seller
    refund_hash ←
        pay_if_positive e.escrow_account_public_key e.buyer_public_key distribution.to_buyer
    let e' = record e {
      release_transaction_hash = release_hash;
      refund_transaction_hash = refund_hash;
      status = released;
      delivery_confirmed_at = some now;
    }
    save_escrow db e'
    pure (map_to_response e')

  unfoldable pub admin_release_funds : ℕ → ℕ → Distribution → Call db EscrowResponse
  admin_release_funds now id distribution = do
    e ← find_escrow_or_fail db id
    throw_if (not (e.status === frozen)) (bad_request "Can only release frozen escrow")
    throw_if
        (not (
          strictly_equal (number (distribution.to_seller +ℤ distribution.to_buyer))
            (text e.amount)))
        (bad_request "Distribution must equal total escrow amount")
    try (distribute_funds now e distribution)
        (record_failure e (bad_request "Failed to release frozen escrow"))

  unfoldable pub refund_buyer : ℕ → ℕ → Call db EscrowResponse
  refund_buyer now id = do
    e ← find_escrow_or_fail db id
    validate escrow_transition_validator e.status refunded
    hash ← pay e.escrow_account_public_key e.buyer_public_key e.amount
    let e' = record e {
      refund_transaction_hash = some hash;
      refunded_amount = e.amount;
      released_amount = pos 0;
      status = refunded;
      cancelled_at = some now;
    }
    save_escrow db e'
    pure (map_to_response e')
