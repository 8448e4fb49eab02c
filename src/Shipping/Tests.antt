-- ===== src/Shipping/Tests.antt =====
-- Shipments in memory.
use market_x_backend.Common.{
  if◌then◌else◌, ◌==◌, ℕ, ◌+◌, true, false, none, some, List, [], ◌∷◌, ◌++◌, ◌≡◌, ◌≢◌, refl, arith,
  from_option,
}
use market_x_backend.Common.Outcome.{ok}
use market_x_backend.Common.Memory.{memory}
use market_x_backend.Common.Runs.{Steps}
use market_x_backend.Status.{is_valid}
use market_x_backend.Entities.{Order, OrderStatus, order_status_enum}
use market_x_backend.Orders.Lifecycle.{order_transition_validator}
use market_x_backend.Samples.{order}
use market_x_backend.Shipping.{
  Shipment, ShippingAddress, CreateShipmentDto, UpdateShipmentStatusDto, ShipmentStatus, fedex,
  label_created, picked_up, in_transit, out_for_delivery, delivered, failed, shipment_created,
  shipment_status_updated, shipment_key,
}
use market_x_backend.Shipping.Lifecycle.{
  seen, is_valid_state_transition, valid_transitions, delivered_was_out,
}
use market_x_backend.Shipping.Service.{
  new_shipment, order_shipped, order_delivered, moved, for_order, create_shipment, update_status,
  calculate_estimated_delivery, sync_order_status,
}
use market_x_backend.Shipping.Creation.{
  ShippingWorld, shipment_at, order_of, longest, create_shipment_exact,
}
use market_x_backend.Shipping.Delivery.{synced, update_status_moves, delivery_overrides_order}
use market_x_backend.Shipping.Single.{OneShipment, ShippingStep, shipping_calls-OneShipment}

abbrev days_later : ℕ → ℕ → ℕ
days_later now days = now + days

abbrev paid_order : Order
paid_order = record order { status = OrderStatus.paid }

abbrev shop_with : List Shipment → Order → ShippingWorld memory days_later
shop_with shipments o = record {
  rows = record { shipments = shipments; orders = o ∷ [] };
  emitted = [];
}

abbrev home : ShippingAddress
home = record {
  street = "1 Main St";
  city = "Lagos";
  state = "LA";
  postal_code = "1";
  country = "NG";
}

abbrev by_fedex : CreateShipmentDto
by_fedex = record {
  order_id = 7;
  carrier = fedex;
  tracking_number = "F1";
  shipping_address = home;
  weight = none;
  dimensions = none;
  shipping_cost = none;
  estimated_delivery_date = none;
  label_url = none;
  notes = none;
}

abbrev first_shipment : Shipment
first_shipment = new_shipment 0 by_fedex 105

abbrev after_creation : ShippingWorld memory days_later
after_creation = record (shop_with (first_shipment ∷ []) (order_shipped 100 by_fedex paid_order)) {
  emitted = shipment_created 0 7 "F1" fedex ∷ [];
}

shipment_created_ok :
    create_shipment memory days_later 100 by_fedex (shop_with [] paid_order)
    ≡ (ok first_shipment, after_creation)
unfolding create_shipment calculate_estimated_delivery
shipment_created_ok = refl

create_shipment_exact_example :
    (o : Order) × (order_of memory days_later 7 (shop_with [] paid_order) ≡ some o)
    × (o.status ≡ OrderStatus.paid)
    × (is_valid order_transition_validator o.status (order_shipped 100 by_fedex o).status ≡ true)
    × (memory.find {key = shipment_key} (for_order 7) [] ≡ [])
    × (first_shipment
        ≡ new_shipment
            (memory.next_key {key = shipment_key} [])
            by_fedex
            (from_option (days_later 100 (longest fedex)) none))
    × (shipment_at memory days_later 0 (shop_with [] paid_order) ≡ none)
    × (after_creation.rows ≡ record {
      shipments = memory.save {key = shipment_key} first_shipment [];
      orders = memory.save {key = λ o. o.id} (order_shipped 100 by_fedex o) (paid_order ∷ []);
    })
    × (after_creation.emitted ≡ [] ++ shipment_created 0 7 "F1" fedex ∷ [])
create_shipment_exact_example =
    create_shipment_exact memory days_later 100 by_fedex (shop_with [] paid_order) after_creation
      first_shipment shipment_created_ok

abbrev out : Shipment
out = record first_shipment { status = out_for_delivery }

abbrev handed_over : UpdateShipmentStatusDto
handed_over = record { status = delivered; notes = none }

abbrev cancelled_order : Order
cancelled_order = record order { status = OrderStatus.cancelled }

abbrev cancelled_shop : ShippingWorld memory days_later
cancelled_shop = shop_with (out ∷ []) cancelled_order

abbrev after_delivery : ShippingWorld memory days_later
after_delivery =
    record (shop_with (moved 200 handed_over out ∷ []) (order_delivered 200 cancelled_order)) {
      emitted = shipment_status_updated 0 7 delivered out_for_delivery ∷ [];
    }

delivery_ok :
    update_status memory days_later 200 0 handed_over cancelled_shop
    ≡ (ok (moved 200 handed_over out), after_delivery)
unfolding update_status sync_order_status is_valid_state_transition valid_transitions
delivery_ok = refl

update_status_moves_example :
    (s : Shipment) × (shipment_at memory days_later 0 cancelled_shop ≡ some s)
    × (is_valid_state_transition s.status delivered ≡ true)
    × (moved 200 handed_over out ≡ moved 200 handed_over s)
    × (after_delivery.rows.shipments
        ≡ memory.save {key = shipment_key} (moved 200 handed_over out) (out ∷ []))
    × ((j : ℕ)
        → order_of memory days_later j after_delivery ≡ (
            if s.order_id == j
            then synced 200 delivered (order_of memory days_later j cancelled_shop)
            else order_of memory days_later j cancelled_shop))
    × (after_delivery.emitted ≡ [] ++ shipment_status_updated 0 s.order_id delivered s.status ∷ [])
update_status_moves_example =
    update_status_moves memory days_later 200 0 handed_over cancelled_shop after_delivery
      (moved 200 handed_over out) delivery_ok

cancelled_not_shipped : OrderStatus.cancelled ≢ OrderStatus.shipped
cancelled_not_shipped e = ground arith

delivery_overrides_order_example :
    let (r, w') = update_status memory days_later 200 0 handed_over cancelled_shop in
    (r ≡ ok (moved 200 handed_over out))
    × (order_of memory days_later 7 w' ≡ some (order_delivered 200 cancelled_order))
    × (is_valid order_transition_validator OrderStatus.cancelled OrderStatus.delivered ≡ false)
delivery_overrides_order_example =
    delivery_overrides_order memory days_later 200 0 handed_over cancelled_shop out cancelled_order
      refl refl refl refl cancelled_not_shipped

none_shipped : OneShipment memory days_later (shop_with [] paid_order)
unfolding OneShipment
none_shipped k = ground arith

abbrev picked : UpdateShipmentStatusDto
picked = record { status = picked_up; notes = some "at the gate" }

create_and_move :
    Steps
      (ShippingStep memory days_later)
      (shop_with [] paid_order)
      (update_status memory days_later 101 0 picked
        (create_shipment memory days_later 100 by_fedex (shop_with [] paid_order)).1).1
create_and_move = Steps.step (ShippingStep.creates 100 by_fedex (shop_with [] paid_order)) (
    Steps.step
      (ShippingStep.updates 101 0 picked
        (create_shipment memory days_later 100 by_fedex (shop_with [] paid_order)).1)
      Steps.stop)

shipping_calls-OneShipment_example :
    OneShipment memory days_later
      (update_status memory days_later 101 0 picked
        (create_shipment memory days_later 100 by_fedex (shop_with [] paid_order)).1).1
shipping_calls-OneShipment_example =
    shipping_calls-OneShipment memory days_later create_and_move none_shipped

-- A delivery that failed once starts over.
abbrev second_try : List ShipmentStatus
second_try = failed ∷ label_created ∷ picked_up ∷ in_transit ∷ out_for_delivery ∷ delivered ∷ []

out_before_second_delivery : seen out_for_delivery second_try ≡ true
unfolding is_valid_state_transition valid_transitions
out_before_second_delivery =
    delivered_was_out picked_up second_try refl (refl, (refl, (refl, (refl, (refl, (refl, tt))))))
      refl
