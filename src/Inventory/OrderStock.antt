-- ===== src/Inventory/OrderStock.antt =====
-- The stock of listings as an order moves on: `reserveForOrder`, `confirmOrder`, `cancelOrder` and
-- `restoreInventoryFromRefund`, with the two reading operations.
use market_x_backend.Common.{ℕ, List, ◌==◌}
use market_x_backend.Common.Int.{ℤ, pos, ◌+ℤ◌, ◌-ℤ◌, ltb_ℤ, leb_ℤ}
use market_x_backend.Common.Outcome.{
  not_found, bad_request, pure, gets, or_throw, throw_if, when, for_each, ◌>>=◌, ◌>>◌,
}
use market_x_backend.Common.Database.{Database}
use market_x_backend.Entities.{
  InventoryHistory, purchase, reservation, cancellation, refund, reserved_for_order,
  order_confirmed, order_cancelled, order_refunded, Order, OrderItem,
}
use market_x_backend.Rows.{Call}
use market_x_backend.Inventory.{restock, clamp, find_listing, save_listing, log, notify_low_stock}

module _ (db : Database) where
  -- The body of the loop of `reserveForOrder`.
  unfoldable pub reserve_item : Order → OrderItem → Call db (Unit {0})
  reserve_item order item = do
    found ← find_listing db item.product_id
    l ← or_throw found (not_found "Listing not found")
    throw_if (ltb_ℤ l.available item.quantity) (bad_request "Not enough inventory")
    save_listing db (restock l l.quantity (l.reserved +ℤ item.quantity))
    log db item.product_id order.buyer_id item.quantity reservation (reserved_for_order order.id)

  unfoldable pub reserve_for_order : Order → Call db (Unit {0})
  reserve_for_order order = db.transaction (for_each (reserve_item order) order.items)

  unfoldable pub confirm_item : Order → OrderItem → Call db (Unit {0})
  confirm_item order item = do
    found ← find_listing db item.product_id
    l ← or_throw found (not_found "Listing not found")
    let l' = restock l (l.quantity -ℤ item.quantity) (clamp (l.reserved -ℤ item.quantity))
    save_listing db l'
    log db item.product_id order.buyer_id (pos 0 -ℤ item.quantity) purchase
        (order_confirmed order.id)
    when (leb_ℤ l'.available (pos 5)) (notify_low_stock db l')

  unfoldable pub confirm_order : Order → Call db (Unit {0})
  confirm_order order = db.transaction (for_each (confirm_item order) order.items)

  unfoldable pub cancel_item : Order → OrderItem → Call db (Unit {0})
  cancel_item order item = do
    found ← find_listing db item.product_id
    l ← or_throw found (not_found "Listing not found")
    save_listing db (restock l l.quantity (clamp (l.reserved -ℤ item.quantity)))
    log db item.product_id order.buyer_id item.quantity cancellation (order_cancelled order.id)

  unfoldable pub cancel_order : Order → Call db (Unit {0})
  cancel_order order = db.transaction (for_each (cancel_item order) order.items)

  unfoldable pub restore_item : Order → OrderItem → Call db (Unit {0})
  restore_item order item = do
    found ← find_listing db item.product_id
    l ← or_throw found (not_found "Listing not found")
    let l' = restock l (l.quantity +ℤ item.quantity) l.reserved
    save_listing db l'
    log db item.product_id order.buyer_id item.quantity refund (order_refunded order.id)
    when (leb_ℤ l'.available (pos 5)) (notify_low_stock db l')

  unfoldable pub restore_inventory_from_refund : Order → Call db (Unit {0})
  restore_inventory_from_refund order = db.transaction (for_each (restore_item order) order.items)

  unfoldable pub get_inventory_history : ℕ → Call db (List InventoryHistory)
  get_inventory_history listing_id = gets (λ r. db.find (λ h. h.listing_id == listing_id) r.history)

  unfoldable pub get_inventory : ℕ → Call db (ℤ × ℤ × ℤ)
  get_inventory listing_id = do
    found ← find_listing db listing_id
    l ← or_throw found (not_found "Listing not found")
    pure (l.quantity, l.reserved, l.available)
