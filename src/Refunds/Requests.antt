-- ===== src/Refunds/Requests.antt =====
-- Which requests to return an order are stored, and for how much.
use market_x_backend.Common.{
  ℕ, ◌+◌, ◌*◌, ◌≤◌, Option, none, some, List, [], ◌∷◌, ◌++◌, ◌≡◌, refl, arith, Option-cases, inl,
  inr, from_option, subst, no_first,
}
use market_x_backend.Common.Int.{ℤ, pos, ◌+ℤ◌, ◌*ℤ◌, int_laws}
use market_x_backend.Common.Outcome.{World, Exception, ok, err, Outcome-cases}
use market_x_backend.Common.Database.{Database}
use market_x_backend.Entities.{Order, OrderItem, OrderStatus}
use market_x_backend.Refunds.{
  CreateReturnRequestDto, ReturnRequest, ReturnEvent, ReturnItemDto, RefundRows, RefundType,
  create_return_request, max_return_days, partial_amount, item_of, requested, pending_for, full,
  return_requested, ReturnStatus,
}

module _ (db : Database) where
  abbrev pub RefundWorld : Type 0
  RefundWorld = World (RefundRows db) ReturnEvent

  abbrev pub return_at : ℕ → RefundWorld → Option ReturnRequest
  return_at k w = db.find_one k w.rows.returns

-- What the items asked for cost together, at the prices of the order.
pub Costs : List OrderItem → List ReturnItemDto → ℤ → Type 0
Costs ordered [] amount = amount ≡ pos 0
Costs ordered (item ∷ items) amount =
    (i : OrderItem) × (rest : ℤ) × (item_of item.listing_id ordered ≡ some i)
    × Costs ordered items rest
    × (amount ≡ i.price *ℤ item.quantity +ℤ rest)

partial_amount-Costs :
    (ordered : List OrderItem) (items : List ReturnItemDto) (amount total : ℤ)
    → partial_amount ordered items amount ≡ some total
    → (rest : ℤ) × Costs ordered items rest × (total ≡ amount +ℤ rest)
unfolding partial_amount Costs
partial_amount-Costs ordered [] amount total h = (pos 0, refl, grind int_laws)
partial_amount-Costs ordered (item ∷ items) amount total h =
    elim (Option-cases (item_of item.listing_id ordered)) [
      | inl missing ↦ absurd (ground arith)
      | inr (i, found) ↦
          let (rest, costs, sum) =
            partial_amount-Costs ordered items (amount +ℤ i.price *ℤ item.quantity) total
              (ground arith) in
          (i.price *ℤ item.quantity +ℤ rest, (i, rest, found, costs, refl), grind int_laws)
    ]

-- What a request asks for: the total of the order, or the price of the items by their quantities.
abbrev pub Asks : RefundType → Option (List ReturnItemDto) → Order → ℤ → Type 0
Asks RefundType.full items o amount = amount ≡ o.total_amount
Asks RefundType.partial none o amount = ⊥
Asks RefundType.partial (some items) o amount = Costs o.items items amount

requested-Asks :
    (db : Database) (t : RefundType) (items : Option (List ReturnItemDto)) (o : Order)
    → (w w' : RefundWorld db) (amount : ℤ) → requested db t items o w ≡ (ok amount, w')
    → (w' ≡ w) × Asks t items o amount
requested-Asks db RefundType.full items o w w' amount h = (ground arith, ground arith)
requested-Asks db RefundType.partial none o w w' amount h = absurd (ground arith)
requested-Asks db RefundType.partial (some []) o w w' amount h = absurd (ground arith)
requested-Asks db RefundType.partial (some (i ∷ items)) o w w' amount h =
    elim (Option-cases (partial_amount o.items (i ∷ items) (pos 0))) [
      | inl missing ↦ absurd (ground arith)
      | inr (n, found) ↦
          let (rest, costs, total) = partial_amount-Costs o.items (i ∷ items) (pos 0) n found in
          let same : rest ≡ amount = grind int_laws in
          (ground arith, subst (Costs o.items (i ∷ items)) same costs)
    ]

-- Where a request to return an order comes back, the order is the buyer's, it is delivered and was so
-- no longer ago than the days that the request gives (or 30), no request for it was pending, and the
-- request is stored as pending under a key that was free, for the whole total or for the price of its
-- items; nothing else is stored, and its event is emitted.
pub create_return_request_accepts :
    (db : Database) (now : ℕ) (dto : CreateReturnRequestDto) (w w' : RefundWorld db)
    → (r : ReturnRequest) → create_return_request db now dto w ≡ (ok r, w')
    → (o : Order) × (delivered_at : ℕ) × (amount : ℤ) × (db.find_one dto.order_id w.rows.orders
        ≡ some o)
      × (o.buyer_id ≡ dto.buyer_id)
      × (o.status ≡ OrderStatus.delivered)
      × (o.delivered_at ≡ some delivered_at)
      × (now ≤ delivered_at + max_return_days dto.return_window_days * 86400000)
      × (db.find (pending_for dto.order_id) w.rows.returns ≡ [])
      × Asks (from_option full dto.refund_type) dto.items o amount
      × (r ≡ record {
        id = db.next_key w.rows.returns;
        order_id = dto.order_id;
        buyer_id = dto.buyer_id;
        seller_id = dto.seller_id;
        reason = dto.reason;
        reason_description = dto.reason_description;
        status = ReturnStatus.pending;
        refund_type = from_option full dto.refund_type;
        requested_amount = some amount;
        currency = o.currency;
        items = dto.items;
        return_window_days = max_return_days dto.return_window_days;
        reviewed_by = none;
        reviewed_at = none;
        review_notes = none;
      })
      × (return_at db r.id w ≡ none)
      × (w'.rows ≡ record (w.rows) { returns = db.save r w.rows.returns })
      × (w'.emitted
          ≡ w.emitted ++ return_requested r.id dto.order_id dto.buyer_id dto.seller_id ∷ [])
unfolding create_return_request
create_return_request_accepts db now dto w w' r run =
    elim (Option-cases (db.find_one dto.order_id w.rows.orders)) [
      | inl missing ↦ absurd (ground arith)
      | inr (o, found) ↦ elim (Option-cases o.delivered_at) [
        | inl undated ↦ absurd (ground arith)
        | inr (d, dated) ↦
            let t = from_option full dto.refund_type in
            elim (Outcome-cases (requested db t dto.items o w)) [
              | inl (amount, w₁, asked) ↦
                  let asks = requested-Asks db t dto.items o w w₁ amount asked in
                  (
                    o,
                    d,
                    amount,
                    found,
                    ground (arith, asks.0),
                    ground (arith, asks.0),
                    dated,
                    ground (arith, asks.0),
                    ground (
                      arith,
                      asks.0,
                      no_first (db.find (pending_for dto.order_id) w.rows.returns),
                    ),
                    asks.1,
                    ground (arith, asks.0),
                    grind (arith, asks.0, db.next_key_fresh w.rows.returns),
                    ground (arith, asks.0),
                    ground (arith, asks.0),
                  )
              | inr (e, w₁, refused) ↦ absurd (ground arith)
            ]
      ]
    ]

requested-throws :
    (db : Database) (t : RefundType) (items : Option (List ReturnItemDto)) (o : Order)
    → (w w' : RefundWorld db) (e : Exception) → requested db t items o w ≡ (err e, w')
    → w' ≡ w
requested-throws db RefundType.full items o w w' e h = absurd (ground arith)
requested-throws db RefundType.partial none o w w' e h = ground arith
requested-throws db RefundType.partial (some []) o w w' e h = ground arith
requested-throws db RefundType.partial (some (i ∷ items)) o w w' e h =
    elim (Option-cases (partial_amount o.items (i ∷ items) (pos 0))) [
      | inl missing ↦ ground arith
      | inr (n, found) ↦ absurd (ground arith)
    ]

-- A request that is refused changes nothing.
pub create_return_request_throws :
    (db : Database) (now : ℕ) (dto : CreateReturnRequestDto) (w w' : RefundWorld db) (e : Exception)
    → create_return_request db now dto w ≡ (err e, w')
    → w' ≡ w
unfolding create_return_request
create_return_request_throws db now dto w w' e run =
    elim (Option-cases (db.find_one dto.order_id w.rows.orders)) [
      | inl missing ↦ ground arith
      | inr (o, found) ↦ elim (Option-cases o.delivered_at) [
        | inl undated ↦ ground arith
        | inr (d, dated) ↦
            let t = from_option full dto.refund_type in
            elim (Outcome-cases (requested db t dto.items o w)) [
              | inl (amount, w₁, asked) ↦
                  ground (arith, requested-Asks db t dto.items o w w₁ amount asked)
              | inr (f, w₁, refused) ↦
                  ground (arith, requested-throws db t dto.items o w w₁ f refused)
            ]
      ]
    ]
