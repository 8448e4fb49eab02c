-- ===== src/Orders/Updates.antt =====
-- `updateStatus`: which changes of the status it makes, and what it leaves alone.
use market_x_backend.Common.{
  ℕ, true, some, ◌≡◌, refl, arith, Option-cases, inl, inr, if◌then◌else◌, ◌==◌, All-of,
}
use market_x_backend.Common.Outcome.{ok, World, Outcome-cases, for_each, for_each-keeps}
use market_x_backend.Common.Database.{Database}
use market_x_backend.Status.{validate, is_valid}
use market_x_backend.Entities.{Order, OrderItem, OrderStatus, order_status_enum, PaymentStatus}
use market_x_backend.Events.{Event}
use market_x_backend.Rows.{Rows}
use market_x_backend.Inventory.OrderStock
use market_x_backend.Inventory.OrderStock.{confirm_item, confirm_order, cancel_item}
use market_x_backend.Inventory.Stocked.{transaction-keeps}
use market_x_backend.Orders.Lifecycle.{order_transition_validator}
use market_x_backend.Orders.Service.{order_at, find_one, apply_status, update_status}

module _ (db : Database) where
  -- Nothing but listings and the history of the stock is changed.
  abbrev OnlyListings : Rows db → Rows db → Type 0
  OnlyListings before r = r ≡ record before { listings = r.listings; history = r.history }

  confirm_item-frame :
      (o : Order) (before : Rows db) (item : OrderItem) (w : World (Rows db) Event)
      → OnlyListings before w.rows
      → OnlyListings before (confirm_item db o item w).1.rows
  unfolding confirm_item
  confirm_item-frame o before item w h =
      elim (Option-cases (db.find_one item.product_id w.rows.listings)) [
        | inl missing ↦ ground arith
        | inr (l, found) ↦ ground arith
      ]

  cancel_item-frame :
      (o : Order) (before : Rows db) (item : OrderItem) (w : World (Rows db) Event)
      → OnlyListings before w.rows
      → OnlyListings before (cancel_item db o item w).1.rows
  unfolding cancel_item
  cancel_item-frame o before item w h =
      elim (Option-cases (db.find_one item.product_id w.rows.listings)) [
        | inl missing ↦ ground arith
        | inr (l, found) ↦ ground arith
      ]

  confirm_order-frame :
      (o : Order) (w : World (Rows db) Event)
      → OnlyListings w.rows (OrderStock.confirm_order db o w).1.rows
  unfolding OrderStock.confirm_order
  confirm_order-frame o w =
      transaction-keeps db (OnlyListings w.rows) (for_each (confirm_item db o) o.items) w refl (
        for_each-keeps (λ v. OnlyListings w.rows v.rows) (confirm_item db o) o.items
          (All-of (confirm_item-frame o w.rows) o.items) w refl)

  cancel_order-frame :
      (o : Order) (w : World (Rows db) Event)
      → OnlyListings w.rows (OrderStock.cancel_order db o w).1.rows
  unfolding OrderStock.cancel_order
  cancel_order-frame o w =
      transaction-keeps db (OnlyListings w.rows) (for_each (cancel_item db o) o.items) w refl (
        for_each-keeps (λ v. OnlyListings w.rows v.rows) (cancel_item db o) o.items
          (All-of (cancel_item-frame o w.rows) o.items) w refl)

  -- The columns that a new status sets.
  abbrev pub updated : ℕ → Order → OrderStatus → Order
  updated now o OrderStatus.paid = record o {
    payment_status = PaymentStatus.paid;
    confirmed_at = some now;
    status = OrderStatus.paid;
  }
  updated now o OrderStatus.cancelled = record o {
    cancelled_at = some now;
    status = OrderStatus.cancelled;
  }
  updated now o OrderStatus.shipped = record o {
    shipped_at = some now;
    status = OrderStatus.shipped;
  }
  updated now o OrderStatus.delivered = record o {
    delivered_at = some now;
    status = OrderStatus.delivered;
  }
  updated now o status = record o { status = status }

  apply_status_exact :
      (now : ℕ) (status : OrderStatus) (w w' : World (Rows db) Event) (o o' : Order)
      → apply_status db now o status w ≡ (ok o', w')
      → (record o' { status = status } ≡ updated now o status) × OnlyListings w.rows w'.rows
  unfolding apply_status
  apply_status_exact now OrderStatus.paid w w' o o' e =
      elim (Outcome-cases (OrderStock.confirm_order db o w)) [
        | inl (_, w1, run) ↦ (ground arith, ground (arith, confirm_order-frame o w))
        | inr (x, w1, failed) ↦ absurd (ground arith)
      ]
  apply_status_exact now OrderStatus.cancelled w w' o o' e =
      elim (Outcome-cases (OrderStock.cancel_order db o w)) [
        | inl (_, w1, run) ↦ (ground arith, ground (arith, cancel_order-frame o w))
        | inr (x, w1, failed) ↦ absurd (ground arith)
      ]
  apply_status_exact now status w w' o o' e = (ground arith, ground arith)

  -- A change of the status that returns was one that the table allows. The order is stored with the
  -- new status and with the payment or the time that belongs to it, and no other order is changed;
  -- and no product has changed: what `create` reserved of the products is still reserved, whether
  -- the order was paid or cancelled.
  pub update_status_exact :
      (now k : ℕ) (status : OrderStatus) (w w' : World (Rows db) Event) (o o' : Order)
      → order_at db k w ≡ some o
      → update_status db now k status w ≡ (ok o', w')
      → (is_valid order_transition_validator o.status status ≡ true)
        × (o' ≡ updated now o status)
        × ((j : ℕ) → order_at db j w' ≡ (if k == j then some o' else order_at db j w))
        × (w'.rows.products ≡ w.rows.products)
  unfolding update_status find_one validate is_valid
  update_status_exact now k status w w' o o' found run =
      elim (Outcome-cases (apply_status db now o status w)) [
        | inl (applied, w1, done) ↦
            let (same, frame) = apply_status_exact now status w w1 o applied done in
            (
              ground arith,
              ground (arith, same),
              λ j.
                  grind (
                    arith,
                    db.find_one-save j,
                    db.find_one-key k w.rows.orders o found,
                    same,
                    frame,
                  ),
              ground (arith, frame),
            )
        | inr (x, w1, failed) ↦ absurd (ground arith)
      ]
