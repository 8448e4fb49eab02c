-- ===== src/Shipping/Delivery.antt =====
-- What a change of the status of a shipment does to it and to its order.
use market_x_backend.Common.{
  ℕ, true, false, Option, none, some, [], ◌∷◌, ◌++◌, ◌≡◌, ◌≢◌, refl, arith, Option-cases,
  Bool-cases, ==_iff, ◌==◌, subst, inl, inr, if◌then◌else◌,
}
use market_x_backend.Common.Outcome.{Exception, ok, err}
use market_x_backend.Common.Database.{Database}
use market_x_backend.Status.{◌===◌, is_valid}
use market_x_backend.Entities.{Order, OrderStatus, order_status_enum}
use market_x_backend.Orders.Lifecycle.{order_transitions, order_transition_validator}
use market_x_backend.Shipping.{
  Shipment, ShipmentStatus, shipment_status_enum, UpdateShipmentStatusDto, delivered,
  out_for_delivery, shipment_status_updated,
}
use market_x_backend.Shipping.Lifecycle.{valid_transitions, is_valid_state_transition}
use market_x_backend.Shipping.Service.{
  moved, update_status, sync_order_status, sync_found, with_notes,
}
use market_x_backend.Shipping.Creation.{ShippingWorld, shipment_at, order_of}

-- The order of a shipment after a change of its status.
abbrev pub synced : ℕ → ShipmentStatus → Option Order → Option Order
synced now status none = none
synced now status (some o) = some (
    if status === delivered
    then record o { status = OrderStatus.delivered; delivered_at = some now }
    else o)

-- The shipment after it.
abbrev pub moved_on : ℕ → UpdateShipmentStatusDto → Shipment → Shipment
moved_on now dto s = record s {
  status = dto.status;
  notes = with_notes dto.notes s.notes;
  actual_delivery_date = if dto.status === delivered then some now else s.actual_delivery_date;
}

-- What holds at one key and what holds at the others.
at_or_else :
    {A : Type 0} (k : ℕ) (f g h : ℕ → A)
    → f k ≡ g k
    → ((j : ℕ) → k ≢ j → f j ≡ h j)
    → (j : ℕ) → f j ≡ (if k == j then g j else h j)
at_or_else k f g h same others j = elim (Bool-cases (k == j)) [
  | inl on ↦
      let at : k ≡ j = ground (arith, ==_iff k j) in
      let here : f j ≡ g j = subst (λ i. f i ≡ g i) at same in ground (arith, here)
  | inr off ↦
      let apart : k ≢ j = λ at. ground (arith, ==_iff k j, at) in ground (arith, others j apart)
]

module _ (db : Database) (add_days : ℕ → ℕ → ℕ) where
  sync_found_lem :
      (now k : ℕ) (found : Option Order) (status : ShipmentStatus) (w : ShippingWorld db add_days)
      → order_of db add_days k w ≡ found
      → let (r, w') = sync_found db add_days now found status w in
        (r ≡ ok tt)
        × (w'.rows.shipments ≡ w.rows.shipments)
        × (w'.emitted ≡ w.emitted)
        × (order_of db add_days k w' ≡ synced now status found)
        × ((j : ℕ) → k ≢ j → order_of db add_days j w' ≡ order_of db add_days j w)
  sync_found_lem now k none status w at = (refl, refl, refl, at, λ j other. refl)
  sync_found_lem now k (some o) delivered w at = (
    refl,
    refl,
    refl,
    grind (arith, db.find_one-save k, db.find_one-key k w.rows.orders o at),
    λ j other. grind (arith, db.find_one-save j, db.find_one-key k w.rows.orders o at),
  )
  sync_found_lem now k (some o) status w at = (refl, refl, refl, at, λ j other. refl)

  -- A change of the status of a shipment that returns was one that the table allows. The shipment is
  -- stored with the new status and no other shipment changes. Its order, if it is there, becomes
  -- delivered with the shipment and is not touched otherwise, and no other order changes.
  pub update_status_moves :
      (now k : ℕ) (dto : UpdateShipmentStatusDto) (w w' : ShippingWorld db add_days) (s' : Shipment)
      → update_status db add_days now k dto w ≡ (ok s', w')
      → (s : Shipment) × (shipment_at db add_days k w ≡ some s)
        × (is_valid_state_transition s.status dto.status ≡ true)
        × (s' ≡ moved_on now dto s)
        × (w'.rows.shipments ≡ db.save s' w.rows.shipments)
        × ((j : ℕ)
            → order_of db add_days j w' ≡ (
                if s.order_id == j
                then synced now dto.status (order_of db add_days j w)
                else order_of db add_days j w))
        × (w'.emitted ≡ w.emitted ++ shipment_status_updated k s.order_id dto.status s.status ∷ [])
  unfolding update_status sync_order_status
  update_status_moves now k dto w w' s' run = elim (Option-cases (shipment_at db add_days k w)) [
    | inl missing ↦ absurd (ground arith)
    | inr (s, found) ↦
        let stored : ShippingWorld db add_days = record w {
          rows = record (w.rows) { shipments = db.save (moved now dto s) w.rows.shipments };
        } in
        let (done, ships, sent, mine, others) =
          sync_found_lem now s.order_id (order_of db add_days s.order_id w) dto.status stored
            refl in
        (
          s,
          found,
          ground arith,
          ground (arith, done),
          ground (arith, done, ships),
          at_or_else s.order_id (λ j. order_of db add_days j w')
              (λ j. synced now dto.status (order_of db add_days j w))
              (λ j. order_of db add_days j w) (ground (arith, done, mine))
              (λ j other. ground (arith, done, others j other)),
          ground (arith, done, sent),
        )
  ]

  -- A change of the status of a shipment that is refused changes nothing.
  pub update_status_throws :
      (now k : ℕ) (dto : UpdateShipmentStatusDto) (w w' : ShippingWorld db add_days) (e : Exception)
      → update_status db add_days now k dto w ≡ (err e, w')
      → w' ≡ w
  unfolding update_status sync_order_status
  update_status_throws now k dto w w' e run = elim (Option-cases (shipment_at db add_days k w)) [
    | inl missing ↦ ground arith
    | inr (s, found) ↦ elim (Option-cases (order_of db add_days s.order_id w)) [
      | inl no_order ↦ ground arith
      | inr (o, ordered) ↦ ground arith
    ]
  ]

  -- Delivering a shipment makes its order delivered, whatever became of the order meanwhile: of an
  -- order that is not shipped (a cancelled or refunded one, say) the orders' own table allows no such
  -- change of the status.
  pub delivery_overrides_order :
      (now k : ℕ) (dto : UpdateShipmentStatusDto) (w : ShippingWorld db add_days) (s : Shipment)
      (o : Order)
      → shipment_at db add_days k w ≡ some s
      → order_of db add_days s.order_id w ≡ some o
      → s.status ≡ out_for_delivery
      → dto.status ≡ delivered
      → o.status ≢ OrderStatus.shipped
      → let (r, w') = update_status db add_days now k dto w in
        (r ≡ ok (moved_on now dto s))
        × (order_of db add_days s.order_id w'
            ≡ some (record o { status = OrderStatus.delivered; delivered_at = some now }))
        × (is_valid order_transition_validator o.status OrderStatus.delivered ≡ false)
  unfolding update_status sync_order_status is_valid_state_transition valid_transitions is_valid
      order_transitions
  delivery_overrides_order now k dto w s o found ordered out done unshipped = (
    ground arith,
    grind (arith, db.find_one-save s.order_id, db.find_one-key s.order_id w.rows.orders o ordered),
    ground (arith, unshipped),
  )
