-- ===== src/Refunds.antt =====
-- src/refunds/refunds.service.ts: requests to return an order and their review. Amounts are whole
-- cents, moments milliseconds.
pub mod Requests
pub mod Reviews
pub mod Single
pub mod Tests
use market_x_backend.Common.{
  ℕ, zero, suc, ◌+◌, ◌*◌, Bool, true, false, not, ◌&&◌, Option, none, some, List, [], ◌∷◌, String,
  ltb, ◌==◌, if◌then◌else◌, is_some, from_option, first,
}
use market_x_backend.Common.Int.{ℤ, pos, ◌+ℤ◌, ◌*ℤ◌, ltb_ℤ, eqb_ℤ}
use market_x_backend.Common.Outcome.{
  World, Action, not_found, bad_request, forbidden, pure, throw, gets, or_throw, throw_if, modify,
  emit, ◌>>=◌, ◌>>◌,
}
use market_x_backend.Common.Database.{Database}
use market_x_backend.Status.{◌===◌}
use market_x_backend.Entities.{Order, OrderItem, OrderStatus, order_status_enum, SupportedCurrency}
use market_x_backend.Rows.{order_key}

pub data ReturnStatus : Type 0 where
  pending approved rejected processing completed : ReturnStatus

abbrev pub is_pending : ReturnStatus → Bool
is_pending pending = true
is_pending approved = false
is_pending rejected = false
is_pending processing = false
is_pending completed = false

pub data RefundType : Type 0 where
  full partial : RefundType

pub data ReturnReason : Type 0 where
  defective wrong_item not_as_described no_longer_needed changed_mind other : ReturnReason

pub record ReturnItemDto : Type 0 where
  pub listing_id : ℕ
  pub quantity : ℤ

pub record ReturnRequest : Type 0 where
  pub id : ℕ
  pub order_id : ℕ
  pub buyer_id : ℕ
  pub seller_id : ℕ
  pub reason : ReturnReason
  pub reason_description : Option String
  pub status : ReturnStatus
  pub refund_type : RefundType
  pub requested_amount : Option ℤ
  pub currency : SupportedCurrency
  pub items : Option (List ReturnItemDto)
  pub return_window_days : ℕ
  pub reviewed_by : Option ℕ
  pub reviewed_at : Option ℕ
  pub review_notes : Option String

pub data ReturnEvent : Type 0 where
  return_requested : ℕ → ℕ → ℕ → ℕ → ReturnEvent
  return_reviewed : ℕ → ReturnStatus → ℕ → ℕ → ReturnEvent

pub record CreateReturnRequestDto : Type 0 where
  pub order_id : ℕ
  pub buyer_id : ℕ
  pub seller_id : ℕ
  pub reason : ReturnReason
  pub reason_description : Option String
  pub refund_type : Option RefundType
  pub items : Option (List ReturnItemDto)
  pub return_window_days : Option ℕ

pub data ReviewAction : Type 0 where
  approve reject : ReviewAction

pub record ReviewReturnRequestDto : Type 0 where
  pub action : ReviewAction
  pub notes : Option String
  pub approved_amount : Option ℤ

abbrev pub return_key : ReturnRequest → ℕ
return_key r = r.id

pub record RefundRows (db : Database) : Type 0 where
  pub returns : db.Table ReturnRequest return_key
  pub orders : db.Table Order order_key

abbrev pub RefundCall : Database → Type 0 → Type 0
RefundCall db A = Action (RefundRows db) ReturnEvent A

-- `DEFAULT_RETURN_WINDOW_DAYS`, and `returnWindowDays || DEFAULT_RETURN_WINDOW_DAYS`.
abbrev pub default_return_window_days : ℕ
default_return_window_days = 30

abbrev pub max_return_days : Option ℕ → ℕ
max_return_days none = default_return_window_days
max_return_days (some zero) = default_return_window_days
max_return_days (some (suc n)) = suc n

-- `diffDays > maxReturnDays`, where a day has 86400000 milliseconds.
abbrev pub window_closed : ℕ → ℕ → ℕ → Bool
window_closed now delivered_at days = ltb (delivered_at + days * 86400000) now

-- `order.items?.find((i) => i.productId === item.listingId)`
abbrev pub item_of : ℕ → List OrderItem → Option OrderItem
item_of listing_id [] = none
item_of listing_id (i ∷ items) =
    if i.product_id == listing_id then some i else item_of listing_id items

-- What a request of some items asks for so far, if every item is in the order.
unfoldable pub partial_amount : List OrderItem → List ReturnItemDto → ℤ → Option ℤ
partial_amount ordered [] amount = some amount
partial_amount ordered (item ∷ items) amount = elim (item_of item.listing_id ordered) [
  | none ↦ none
  | some i ↦ partial_amount ordered items (amount +ℤ i.price *ℤ item.quantity)
]

abbrev pub new_request : ℕ → CreateReturnRequestDto → Order → ℤ → ReturnRequest
new_request id dto order requested_amount = record {
  id = id;
  order_id = dto.order_id;
  buyer_id = dto.buyer_id;
  seller_id = dto.seller_id;
  reason = dto.reason;
  reason_description = dto.reason_description;
  status = pending;
  refund_type = from_option full dto.refund_type;
  requested_amount = some requested_amount;
  currency = order.currency;
  items = dto.items;
  return_window_days = max_return_days dto.return_window_days;
  reviewed_by = none;
  reviewed_at = none;
  review_notes = none;
}

-- `approvedAmount !== undefined && approvedAmount > (requestedAmount || 0)`
abbrev pub above_requested : Option ℤ → Option ℤ → Bool
above_requested none requested = false
above_requested (some n) requested = ltb_ℤ (from_option (pos 0) requested) n

-- `if (approvedAmount) requestedAmount = approvedAmount`: an amount of zero changes nothing.
abbrev pub approved_or : Option ℤ → Option ℤ → Option ℤ
approved_or none requested = requested
approved_or (some n) requested = if eqb_ℤ n (pos 0) then requested else some n

abbrev pub pending_for : ℕ → ReturnRequest → Bool
pending_for order_id r = r.order_id == order_id && is_pending r.status

module _ (db : Database) where
  -- The amount, by the type of the refund.
  abbrev pub requested : RefundType → Option (List ReturnItemDto) → Order → RefundCall db ℤ
  requested RefundType.full items order = pure order.total_amount
  requested RefundType.partial none order =
      throw (bad_request "Partial refund requires specifying items")
  requested RefundType.partial (some []) order =
      throw (bad_request "Partial refund requires specifying items")
  requested RefundType.partial (some (i ∷ items)) order =
      or_throw (partial_amount order.items (i ∷ items) (pos 0))
        (bad_request "Item not found in order")

  unfoldable pub create_return_request : ℕ → CreateReturnRequestDto → RefundCall db ReturnRequest
  create_return_request now dto = do
    found ← gets (λ r. db.find_one dto.order_id r.orders)
    order ← or_throw found (not_found "Order not found")
    throw_if (not (order.buyer_id == dto.buyer_id))
        (forbidden "You can only request returns for your own orders")
    throw_if (not (order.status === OrderStatus.delivered))
        (bad_request "Only delivered orders can be refunded")
    delivered_at ← or_throw order.delivered_at (bad_request "Order has no delivery date recorded")
    throw_if (window_closed now delivered_at (max_return_days dto.return_window_days))
        (bad_request "Return window has expired")
    existing ← gets (λ r. first (db.find (pending_for dto.order_id) r.returns))
    throw_if (is_some existing)
        (bad_request "A pending return request already exists for this order")
    amount ← requested (from_option RefundType.full dto.refund_type) dto.items order
    id ← gets (λ r. db.next_key r.returns)
    let request = new_request id dto order amount
    modify (λ r. record r { returns = db.save request r.returns })
    emit (return_requested id dto.order_id dto.buyer_id dto.seller_id)
    pure request

  -- What the review makes of the request, unless it refuses.
  abbrev pub reviewed : ℕ → ReviewReturnRequestDto → ℕ → ReturnRequest → RefundCall db ReturnRequest
  reviewed now dto reviewer_id r = decide dto.action
    where
      noted : ReturnRequest → ReturnRequest
      noted r = record r {
        reviewed_by = some reviewer_id;
        reviewed_at = some now;
        review_notes = dto.notes;
      }

      decide : ReviewAction → RefundCall db ReturnRequest
      decide ReviewAction.approve =
          throw_if (above_requested dto.approved_amount r.requested_amount)
            (bad_request "Approved amount cannot exceed requested amount")
          >> pure (
              noted (record r {
                status = approved;
                requested_amount = approved_or dto.approved_amount r.requested_amount;
              }))
      decide ReviewAction.reject = pure (noted (record r { status = rejected }))

  unfoldable pub review_return_request :
      ℕ → ℕ → ReviewReturnRequestDto → ℕ → RefundCall db ReturnRequest
  review_return_request now id dto reviewer_id = do
    found ← gets (λ r. db.find_one id r.returns)
    r ← or_throw found (not_found "Return request not found")
    throw_if (not (is_pending r.status)) (bad_request "Can only review pending return requests")
    r' ← reviewed now dto reviewer_id r
    modify (λ rows. record rows { returns = db.save r' rows.returns })
    emit (return_reviewed r'.id r'.status r'.buyer_id r'.seller_id)
    pure r'
