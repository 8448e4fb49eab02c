-- ===== src/Refunds/Single.antt =====
-- An order has at most one pending request.
use market_x_backend.Common.{ℕ, ◌≤◌, some, ◌≡◌, arith, inl, inr, length, ==_iff}
use market_x_backend.Common.Outcome.{Outcome-cases}
use market_x_backend.Common.Database.{Database}
use market_x_backend.Common.Counts.{length-find-new, length-find-old}
use market_x_backend.Common.Runs.{Steps, steps-keep}
use market_x_backend.Refunds.{
  CreateReturnRequestDto, ReviewReturnRequestDto, create_return_request, review_return_request,
  pending_for,
}
use market_x_backend.Refunds.Requests.{
  RefundWorld, return_at, create_return_request_accepts, create_return_request_throws,
}
use market_x_backend.Refunds.Reviews.{review_return_request_decides, review_return_request_throws}

module _ (db : Database) where
  -- How many requests for the order are pending.
  abbrev pub pending_requests : ℕ → RefundWorld db → ℕ
  pending_requests k w = length (db.find (pending_for k) w.rows.returns)

  unfoldable pub OnePending : RefundWorld db → Type 0
  OnePending w = (k : ℕ) → pending_requests k w ≤ 1

  create-OnePending :
      (now : ℕ) (dto : CreateReturnRequestDto) (w : RefundWorld db)
      → OnePending w
      → OnePending (create_return_request db now dto w).1
  unfolding OnePending
  create-OnePending now dto w h k = elim (Outcome-cases (create_return_request db now dto w)) [
    | inl (r, w', run) ↦
        let (
          o, d, amount, found, mine, delivered, dated, within, none_pending, asks, is, fresh, store,
          sent,
        ) =
          create_return_request_accepts db now dto w w' r run in
        ground (
          arith,
          h k,
          ==_iff dto.order_id k,
          length-find-new db (pending_for k) r w.rows.returns fresh,
        )
    | inr (e, w', run) ↦ ground (arith, h k, create_return_request_throws db now dto w w' e run)
  ]

  review-OnePending :
      (now j reviewer_id : ℕ) (dto : ReviewReturnRequestDto) (w : RefundWorld db)
      → OnePending w
      → OnePending (review_return_request db now j dto reviewer_id w).1
  unfolding OnePending
  review-OnePending now j reviewer_id dto w h k =
      elim (Outcome-cases (review_return_request db now j dto reviewer_id w)) [
        | inl (r', w', run) ↦
            let (r, found, was, decided, store) =
              review_return_request_decides db now j reviewer_id dto w w' r' run in
            let same : r.id ≡ j = db.find_one-key j w.rows.returns r found in
            let at : return_at db r'.id w ≡ some r = ground arith in
            ground (arith, h k, length-find-old db (pending_for k) r' w.rows.returns r at)
        | inr (e, w', run) ↦
            ground (arith, h k, review_return_request_throws db now j reviewer_id dto w w' e run)
      ]

-- A call of the service, whether it returns or throws.
pub data RefundStep (db : Database) : RefundWorld db → RefundWorld db → Type 0 where
  requests :
      (now : ℕ) (dto : CreateReturnRequestDto) (w : RefundWorld db)
      → RefundStep db w (create_return_request db now dto w).1
  reviews :
      (now k reviewer_id : ℕ) (dto : ReviewReturnRequestDto) (w : RefundWorld db)
      → RefundStep db w (review_return_request db now k dto reviewer_id w).1

module _ (db : Database) where
  RefundStep-OnePending :
      {w w' : RefundWorld db} → RefundStep db w w' → OnePending db w → OnePending db w'
  RefundStep-OnePending (RefundStep.requests now dto w) h = create-OnePending db now dto w h
  RefundStep-OnePending (RefundStep.reviews now k reviewer_id dto w) h =
      review-OnePending db now k reviewer_id dto w h

  -- After any number of requests and reviews, made one after the other, no order has two pending
  -- requests, if none had two before.
  pub refund_calls-OnePending :
      {w w' : RefundWorld db} → Steps (RefundStep db) w w' → OnePending db w → OnePending db w'
  refund_calls-OnePending = steps-keep (OnePending db) (λ w w' s. RefundStep-OnePending s)
