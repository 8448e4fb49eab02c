-- ===== src/Shipping/Creation.antt =====
-- Which shipments are created.
use market_x_backend.Common.{
  ℕ, no_first, true, Option, none, some, [], ◌∷◌, ◌++◌, ◌≡◌, refl, arith, Option-cases, inl, inr,
  from_option,
}
use market_x_backend.Common.Outcome.{World, Exception, ok, err}
use market_x_backend.Common.Database.{Database}
use market_x_backend.Status.{is_valid}
use market_x_backend.Entities.{Order, OrderStatus, order_status_enum}
use market_x_backend.Orders.Lifecycle.{order_transitions, order_transition_validator}
use market_x_backend.Shipping.{
  ShippingCarrier, Shipment, CreateShipmentDto, ShipmentEvent, ShippingRows, shipment_created, ups,
  fedex, dhl, usps, local, label_created,
}
use market_x_backend.Shipping.Service.{
  for_order, calculate_estimated_delivery, estimated_delivery, create_shipment,
}

abbrev pub longest : ShippingCarrier → ℕ
longest ups = 7
longest fedex = 5
longest dhl = 10
longest usps = 14
longest local = 3

module _ (db : Database) (add_days : ℕ → ℕ → ℕ) where
  abbrev pub ShippingWorld : Type 0
  ShippingWorld = World (ShippingRows db) ShipmentEvent

  abbrev pub shipment_at : ℕ → ShippingWorld → Option Shipment
  shipment_at k w = db.find_one k w.rows.shipments

  abbrev pub order_of : ℕ → ShippingWorld → Option Order
  order_of k w = db.find_one k w.rows.orders

  -- The estimate never throws: the table has every carrier.
  estimated_delivery_returns :
      (now : ℕ) (carrier : ShippingCarrier) (date : Option ℕ) (w : ShippingWorld)
      → estimated_delivery db add_days now carrier date w
        ≡ (ok (from_option (add_days now (longest carrier)) date), w)
  unfolding calculate_estimated_delivery
  estimated_delivery_returns now carrier none w = ground arith
  estimated_delivery_returns now carrier (some date) w = refl

  -- A shipment that comes back is of a paid order without a shipment. It is stored under a key that
  -- was free, as a label that was created, and is estimated by its request or else by the longest time of its carrier; its order
  -- is stored as shipped, which is a change of the status that the orders' own table allows; and the
  -- event is emitted.
  pub create_shipment_exact :
      (now : ℕ) (dto : CreateShipmentDto) (w w' : ShippingWorld) (s : Shipment)
      → create_shipment db add_days now dto w ≡ (ok s, w')
      → (o : Order) × (order_of dto.order_id w ≡ some o)
        × (o.status ≡ OrderStatus.paid)
        × (is_valid order_transition_validator o.status OrderStatus.shipped ≡ true)
        × (db.find (for_order dto.order_id) w.rows.shipments ≡ [])
        × (s ≡ record {
          id = db.next_key w.rows.shipments;
          order_id = dto.order_id;
          carrier = dto.carrier;
          tracking_number = dto.tracking_number;
          status = label_created;
          shipping_address = dto.shipping_address;
          weight = dto.weight;
          dimensions = dto.dimensions;
          shipping_cost = dto.shipping_cost;
          estimated_delivery_date =
              some (from_option (add_days now (longest dto.carrier)) dto.estimated_delivery_date);
          actual_delivery_date = none;
          label_url = dto.label_url;
          notes = dto.notes;
        })
        × (shipment_at s.id w ≡ none)
        × (w'.rows ≡ record {
          shipments = db.save s w.rows.shipments;
          orders =
              db.save
                (record o {
                  status = OrderStatus.shipped;
                  tracking_number = some dto.tracking_number;
                  shipped_at = some now;
                })
                w.rows.orders;
        })
        × (w'.emitted
            ≡ w.emitted ++ shipment_created s.id dto.order_id dto.tracking_number dto.carrier ∷ [])
  unfolding create_shipment is_valid order_transitions
  create_shipment_exact now dto w w' s run = elim (Option-cases (order_of dto.order_id w)) [
    | inl missing ↦ absurd (ground arith)
    | inr (o, found) ↦
        let est = estimated_delivery_returns now dto.carrier dto.estimated_delivery_date w in
        (
          o,
          found,
          ground (arith, est),
          ground (arith, est),
          ground (arith, est, no_first (db.find (for_order dto.order_id) w.rows.shipments)),
          ground (arith, est),
          grind (arith, est, db.next_key_fresh w.rows.shipments),
          ground (arith, est),
          ground (arith, est, db.find_one-key dto.order_id w.rows.orders o found),
        )
  ]

  -- A shipment that is refused changes nothing.
  pub create_shipment_throws :
      (now : ℕ) (dto : CreateShipmentDto) (w w' : ShippingWorld) (e : Exception)
      → create_shipment db add_days now dto w ≡ (err e, w')
      → w' ≡ w
  unfolding create_shipment
  create_shipment_throws now dto w w' e run = elim (Option-cases (order_of dto.order_id w)) [
    | inl missing ↦ ground arith
    | inr (o, found) ↦
        ground (arith, estimated_delivery_returns now dto.carrier dto.estimated_delivery_date w)
  ]
