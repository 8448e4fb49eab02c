-- ===== src/Refunds/Reviews.antt =====
-- What a review makes of a request.
use market_x_backend.Common.{ℕ, some, ◌≡◌, arith, Option-cases, inl, inr, from_option}
use market_x_backend.Common.Int.{ℤ, pos, ◌≤ℤ◌}
use market_x_backend.Common.Outcome.{Exception, ok, err, bad_request}
use market_x_backend.Common.Database.{Database}
use market_x_backend.Refunds.{
  ReturnRequest, ReviewReturnRequestDto, review_return_request, pending, approved, rejected,
  approve, reject,
}
use market_x_backend.Refunds.Requests.{RefundWorld, return_at}

-- The amount of a request, where none is nothing.
abbrev pub amount_of : ReturnRequest → ℤ
amount_of r = from_option (pos 0) r.requested_amount

-- What a review may leave of the request `r`.
abbrev pub Decided : ReviewReturnRequestDto → ℕ → ReturnRequest → ReturnRequest → Type 0
Decided dto reviewer_id r r' =
    (r'.id ≡ r.id)
    × (r'.order_id ≡ r.order_id)
    × (r'.reviewed_by ≡ some reviewer_id)
    × (amount_of r' ≤ℤ amount_of r)
    × (dto.action ≡ approve → r'.status ≡ approved)
    × (dto.action ≡ reject → (r'.status ≡ rejected) × (r'.requested_amount ≡ r.requested_amount))

module _ (db : Database) (now k reviewer_id : ℕ) (dto : ReviewReturnRequestDto)
    (w w' : RefundWorld db) (r' : ReturnRequest) where
  -- Where a review comes back, the request was pending; it is approved or rejected as the reviewer
  -- said, its amount has not grown, and a rejection leaves the amount; only it is stored.
  pub review_return_request_decides :
      review_return_request db now k dto reviewer_id w ≡ (ok r', w')
      → (r : ReturnRequest) × (return_at db k w ≡ some r)
        × (r.status ≡ pending)
        × Decided dto reviewer_id r r'
        × (w'.rows ≡ record (w.rows) { returns = db.save r' w.rows.returns })
  unfolding review_return_request
  review_return_request_decides run = elim (Option-cases (return_at db k w)) [
    | inl missing ↦ absurd (ground arith)
    | inr (r, found) ↦ (r, found, ground arith, ground arith, ground arith)
  ]

  -- A request is reviewed once: right after a review has come back every further review of it throws
  -- and changes nothing.
  pub review_return_request_once :
      (later other_reviewer : ℕ) (again : ReviewReturnRequestDto)
      → review_return_request db now k dto reviewer_id w ≡ (ok r', w')
      → (e : Exception) × (review_return_request db later k again other_reviewer w' ≡ (err e, w'))
  unfolding review_return_request
  review_return_request_once later other_reviewer again run =
      let (r, found, was, decided, store) = review_return_request_decides run in
      let stored : return_at db k w' ≡ some r' =
        grind (arith, store, db.find_one-save k, db.find_one-key k w.rows.returns r found) in
      (bad_request "Can only review pending return requests", ground arith)

-- A review that is refused changes nothing.
pub review_return_request_throws :
    (db : Database) (now k reviewer_id : ℕ) (dto : ReviewReturnRequestDto) (w w' : RefundWorld db)
    → (e : Exception) → review_return_request db now k dto reviewer_id w ≡ (err e, w')
    → w' ≡ w
unfolding review_return_request
review_return_request_throws db now k reviewer_id dto w w' e run =
    elim (Option-cases (return_at db k w)) [
      | inl missing ↦ ground arith
      | inr (r, found) ↦ ground arith
    ]
