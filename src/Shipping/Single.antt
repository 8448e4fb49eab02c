-- ===== src/Shipping/Single.antt =====
-- An order has at most one shipment.
use market_x_backend.Common.{ℕ, ◌≤◌, some, ◌≡◌, arith, inl, inr, length, ==_iff}
use market_x_backend.Common.Outcome.{Outcome-cases}
use market_x_backend.Common.Database.{Database}
use market_x_backend.Common.Counts.{length-find-new, length-find-old}
use market_x_backend.Common.Runs.{Steps, steps-keep}
use market_x_backend.Shipping.{CreateShipmentDto, UpdateShipmentStatusDto}
use market_x_backend.Shipping.Service.{for_order, create_shipment, update_status}
use market_x_backend.Shipping.Creation.{
  ShippingWorld, shipment_at, create_shipment_exact, create_shipment_throws,
}
use market_x_backend.Shipping.Delivery.{update_status_moves, update_status_throws}

module _ (db : Database) (add_days : ℕ → ℕ → ℕ) where
  -- How many shipments the order has.
  abbrev pub shipments_of : ℕ → ShippingWorld db add_days → ℕ
  shipments_of k w = length (db.find (for_order k) w.rows.shipments)

  unfoldable pub OneShipment : ShippingWorld db add_days → Type 0
  OneShipment w = (k : ℕ) → shipments_of k w ≤ 1

  create-OneShipment :
      (now : ℕ) (dto : CreateShipmentDto) (w : ShippingWorld db add_days)
      → OneShipment w
      → OneShipment (create_shipment db add_days now dto w).1
  unfolding OneShipment
  create-OneShipment now dto w h k = elim (Outcome-cases (create_shipment db add_days now dto w)) [
    | inl (s, w', run) ↦
        let (o, found, paid, allowed, unshipped, is, fresh, store, sent) =
          create_shipment_exact db add_days now dto w w' s run in
        ground (
          arith,
          h k,
          ==_iff dto.order_id k,
          length-find-new db (for_order k) s w.rows.shipments fresh,
        )
    | inr (e, w', run) ↦ ground (arith, h k, create_shipment_throws db add_days now dto w w' e run)
  ]

  update-OneShipment :
      (now j : ℕ) (dto : UpdateShipmentStatusDto) (w : ShippingWorld db add_days)
      → OneShipment w
      → OneShipment (update_status db add_days now j dto w).1
  unfolding OneShipment
  update-OneShipment now j dto w h k =
      elim (Outcome-cases (update_status db add_days now j dto w)) [
        | inl (s', w', run) ↦
            let (s, found, valid, is, store, orders, sent) =
              update_status_moves db add_days now j dto w w' s' run in
            let same : s.id ≡ j = db.find_one-key j w.rows.shipments s found in
            let at : shipment_at db add_days s'.id w ≡ some s = ground arith in
            ground (arith, h k, length-find-old db (for_order k) s' w.rows.shipments s at)
        | inr (e, w', run) ↦
            ground (arith, h k, update_status_throws db add_days now j dto w w' e run)
      ]

-- A call of the service, whether it returns or throws.
pub data ShippingStep (db : Database) (add_days : ℕ → ℕ → ℕ)
    : ShippingWorld db add_days → ShippingWorld db add_days → Type 0 where
  creates :
      (now : ℕ) (dto : CreateShipmentDto) (w : ShippingWorld db add_days)
      → ShippingStep db add_days w (create_shipment db add_days now dto w).1
  updates :
      (now k : ℕ) (dto : UpdateShipmentStatusDto) (w : ShippingWorld db add_days)
      → ShippingStep db add_days w (update_status db add_days now k dto w).1

module _ (db : Database) (add_days : ℕ → ℕ → ℕ) where
  ShippingStep-OneShipment :
      {w w' : ShippingWorld db add_days}
      → ShippingStep db add_days w w'
      → OneShipment db add_days w
      → OneShipment db add_days w'
  ShippingStep-OneShipment (ShippingStep.creates now dto w) h =
      create-OneShipment db add_days now dto w h
  ShippingStep-OneShipment (ShippingStep.updates now k dto w) h =
      update-OneShipment db add_days now k dto w h

  -- After any number of calls, made one after the other, no order has two shipments, if none had two
  -- before.
  pub shipping_calls-OneShipment :
      {w w' : ShippingWorld db add_days}
      → Steps (ShippingStep db add_days) w w'
      → OneShipment db add_days w
      → OneShipment db add_days w'
  shipping_calls-OneShipment =
      steps-keep (OneShipment db add_days) (λ w w' s. ShippingStep-OneShipment s)
