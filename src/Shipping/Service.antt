-- ===== src/Shipping/Service.antt =====
-- `ShippingService`: creating a shipment, moving it on, and the status of its order. The queries by
-- the tracking number and by the order are left out. The days of a delivery are added to the
-- moment of the request by the language's dates.
use market_x_backend.Common.{ℕ, Bool, not, Option, none, some, String, ◌==◌, is_some, first}
use market_x_backend.Common.Outcome.{
  not_found, bad_request, pure, gets, or_throw, throw_if, modify, emit, ◌>>=◌, ◌>>◌,
}
use market_x_backend.Common.Database.{Database}
use market_x_backend.Status.{◌===◌}
use market_x_backend.Entities.{Order, OrderStatus, order_status_enum}
use market_x_backend.Shipping.{
  ShippingCarrier, ShipmentStatus, Shipment, CreateShipmentDto, UpdateShipmentStatusDto,
  ShippingCall, label_created, delivered, details_of, carrier_details, shipment_created,
  shipment_status_updated,
}
use market_x_backend.Shipping.Lifecycle.{is_valid_state_transition}

abbrev pub new_shipment : ℕ → CreateShipmentDto → ℕ → Shipment
new_shipment id dto estimated = record {
  id = id;
  order_id = dto.order_id;
  carrier = dto.carrier;
  tracking_number = dto.tracking_number;
  status = label_created;
  shipping_address = dto.shipping_address;
  weight = dto.weight;
  dimensions = dto.dimensions;
  shipping_cost = dto.shipping_cost;
  estimated_delivery_date = some estimated;
  actual_delivery_date = none;
  label_url = dto.label_url;
  notes = dto.notes;
}

abbrev pub order_shipped : ℕ → CreateShipmentDto → Order → Order
order_shipped now dto o = record o {
  status = OrderStatus.shipped;
  tracking_number = some dto.tracking_number;
  shipped_at = some now;
}

abbrev pub order_delivered : ℕ → Order → Order
order_delivered now o = record o { status = OrderStatus.delivered; delivered_at = some now }

-- `if (dto.notes) shipment.notes = dto.notes`, where an empty text counts as none.
abbrev pub with_notes : Option String → Option String → Option String
with_notes none old = old
with_notes (some String.[]) old = old
with_notes (some (String.◌∷◌ c s)) old = some (String.◌∷◌ c s)

abbrev pub delivery_date : ℕ → ShipmentStatus → Option ℕ → Option ℕ
delivery_date now delivered old = some now
delivery_date now status old = old

abbrev pub moved : ℕ → UpdateShipmentStatusDto → Shipment → Shipment
moved now dto s = record s {
  status = dto.status;
  notes = with_notes dto.notes s.notes;
  actual_delivery_date = delivery_date now dto.status s.actual_delivery_date;
}

abbrev pub for_order : ℕ → Shipment → Bool
for_order order_id s = s.order_id == order_id

module _ (db : Database) (add_days : ℕ → ℕ → ℕ) where
  abbrev pub save_shipment : Shipment → ShippingCall db (Unit {0})
  save_shipment s = modify (λ r. record r { shipments = db.save s r.shipments })

  abbrev pub save_shipped : Order → ShippingCall db (Unit {0})
  save_shipped o = modify (λ r. record r { orders = db.save o r.orders })

  unfoldable pub calculate_estimated_delivery : ℕ → ShippingCarrier → ShippingCall db ℕ
  calculate_estimated_delivery now carrier = do
    info ← or_throw (details_of carrier carrier_details) (bad_request "Unsupported carrier")
    pure (add_days now info.max_days)

  abbrev pub estimated_delivery : ℕ → ShippingCarrier → Option ℕ → ShippingCall db ℕ
  estimated_delivery now carrier none = calculate_estimated_delivery now carrier
  estimated_delivery now carrier (some date) = pure date

  unfoldable pub create_shipment : ℕ → CreateShipmentDto → ShippingCall db Shipment
  create_shipment now dto = do
    found ← gets (λ r. db.find_one dto.order_id r.orders)
    order ← or_throw found (not_found "Order not found")
    throw_if (not (order.status === OrderStatus.paid))
        (bad_request "Order must be in PAID status to create a shipment")
    existing ← gets (λ r. first (db.find (for_order dto.order_id) r.shipments))
    throw_if (is_some existing) (bad_request "A shipment already exists for order")
    estimated ← estimated_delivery now dto.carrier dto.estimated_delivery_date
    id ← gets (λ r. db.next_key r.shipments)
    let s = new_shipment id dto estimated
    save_shipment s
    save_shipped (order_shipped now dto order)
    emit (shipment_created s.id order.id s.tracking_number s.carrier)
    pure s

  abbrev pub sync_found : ℕ → Option Order → ShipmentStatus → ShippingCall db (Unit {0})
  sync_found now none status = pure tt
  sync_found now (some o) delivered = save_shipped (order_delivered now o)
  sync_found now (some o) status = pure tt

  unfoldable pub sync_order_status : ℕ → ℕ → ShipmentStatus → ShippingCall db (Unit {0})
  sync_order_status now order_id status = do
    found ← gets (λ r. db.find_one order_id r.orders)
    sync_found now found status

  unfoldable pub update_status : ℕ → ℕ → UpdateShipmentStatusDto → ShippingCall db Shipment
  update_status now id dto = do
    found ← gets (λ r. db.find_one id r.shipments)
    s ← or_throw found (not_found "Shipment not found")
    throw_if (not (is_valid_state_transition s.status dto.status))
        (bad_request "Invalid state transition")
    let s' = moved now dto s
    save_shipment s'
    sync_order_status now s.order_id dto.status
    emit (shipment_status_updated id s.order_id dto.status s.status)
    pure s'
