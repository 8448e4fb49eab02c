-- ===== src/Refunds/Tests.antt =====
-- Return requests in memory.
use market_x_backend.Common.{ℕ, ◌+◌, ◌*◌, ◌≤◌, none, some, List, [], ◌∷◌, ◌++◌, ◌≡◌, refl, arith}
use market_x_backend.Common.Int.{ℤ, pos, ◌+ℤ◌, ◌*ℤ◌}
use market_x_backend.Common.Outcome.{ok}
use market_x_backend.Common.Memory.{memory}
use market_x_backend.Common.Runs.{Steps}
use market_x_backend.Entities.{Order, OrderStatus}
use market_x_backend.Samples.{order}
use market_x_backend.Refunds.{
  CreateReturnRequestDto, ReviewReturnRequestDto, ReturnRequest, ReturnReason,
  create_return_request, review_return_request, new_request, partial_amount, max_return_days,
  partial, approve, approved, return_requested, pending_for,
}
use market_x_backend.Refunds.Requests.{RefundWorld, return_at, Asks, create_return_request_accepts}
use market_x_backend.Refunds.Single.{OnePending, RefundStep, refund_calls-OnePending}

abbrev delivered_order : Order
delivered_order = record order { status = OrderStatus.delivered; delivered_at = some 1000 }

abbrev delivery : List ReturnRequest → RefundWorld memory
delivery requests = record {
  rows = record { returns = requests; orders = delivered_order ∷ [] };
  emitted = [];
}

-- A hundred lamps of the three in the order.
abbrev hundred_lamps : CreateReturnRequestDto
hundred_lamps = record {
  order_id = 7;
  buyer_id = 40;
  seller_id = 41;
  reason = ReturnReason.defective;
  reason_description = none;
  refund_type = some partial;
  items = some (record { listing_id = 1; quantity = pos 100 } ∷ []);
  return_window_days = some 1;
}

abbrev stored : ReturnRequest
stored = new_request 0 hundred_lamps delivered_order (pos 250000)

abbrev after_request : RefundWorld memory
after_request = record (delivery (stored ∷ [])) { emitted = return_requested 0 7 40 41 ∷ [] }

lamps_requested :
    create_return_request memory 86401000 hundred_lamps (delivery []) ≡ (ok stored, after_request)
unfolding create_return_request partial_amount ◌+ℤ◌ ◌*ℤ◌
lamps_requested = refl

create_return_request_accepts_example :
    (o : Order) × (delivered_at : ℕ) × (amount : ℤ) × (memory.find_one {key = λ o. o.id} 7
        (delivered_order ∷ [])
      ≡ some o)
    × (o.buyer_id ≡ 40)
    × (o.status ≡ OrderStatus.delivered)
    × (o.delivered_at ≡ some delivered_at)
    × (86401000 ≤ delivered_at + max_return_days (some 1) * 86400000)
    × (memory.find {key = λ r. r.id} (pending_for 7) [] ≡ [])
    × Asks partial hundred_lamps.items o amount
    × (stored ≡ new_request 0 hundred_lamps o amount)
    × (return_at memory 0 (delivery []) ≡ none)
    × (after_request.rows ≡ record ((delivery []).rows) { returns = stored ∷ [] })
    × (after_request.emitted ≡ [] ++ return_requested 0 7 40 41 ∷ [])
create_return_request_accepts_example =
    create_return_request_accepts memory 86401000 hundred_lamps (delivery []) after_request stored
      lamps_requested

abbrev some_of_it : ReviewReturnRequestDto
some_of_it = record { action = approve; notes = none; approved_amount = some (pos 5000) }

abbrev reviewed_request : ReturnRequest
reviewed_request = record stored {
  status = approved;
  requested_amount = some (pos 5000);
  reviewed_by = some 2;
  reviewed_at = some 90000000;
}

abbrev after_review : RefundWorld memory
after_review = (review_return_request memory 90000000 0 some_of_it 2 after_request).1

reviewed :
    review_return_request memory 90000000 0 some_of_it 2 after_request
    ≡ (ok reviewed_request, after_review)
unfolding review_return_request
reviewed = refl

none_pending : OnePending memory (delivery [])
unfolding OnePending
none_pending k = ground arith

request_and_review :
    Steps
      (RefundStep memory)
      (delivery [])
      (review_return_request memory 90000000 0 some_of_it 2
        (create_return_request memory 86401000 hundred_lamps (delivery [])).1).1
request_and_review = Steps.step (RefundStep.requests 86401000 hundred_lamps (delivery [])) (
    Steps.step
      (RefundStep.reviews 90000000 0 2 some_of_it
        (create_return_request memory 86401000 hundred_lamps (delivery [])).1)
      Steps.stop)

refund_calls-OnePending_example :
    OnePending memory
      (review_return_request memory 90000000 0 some_of_it 2
        (create_return_request memory 86401000 hundred_lamps (delivery [])).1).1
refund_calls-OnePending_example = refund_calls-OnePending memory request_and_review none_pending
