-- ===== src/Inventory/ProductStock.antt =====
-- The stock of products: `reserveInventory`, `releaseInventory` and `commitSale`. The `_work` of each
-- is its local function `work`, which runs in the caller's transaction or in one of its own.
use market_x_backend.Common.{ℕ, Bool}
use market_x_backend.Common.Int.{ℤ, pos, ◌+ℤ◌, ◌-ℤ◌, ltb_ℤ, leb_ℤ}
use market_x_backend.Common.Outcome.{
  not_found, bad_request, pure, or_throw, throw_if, emit, when, ◌>>=◌, ◌>>◌,
}
use market_x_backend.Common.Database.{Database}
use market_x_backend.Entities.{
  Product, purchase, reservation, release, reserved_for_checkout, reservation_released, unnoted,
}
use market_x_backend.Events.{inventory_low_stock}
use market_x_backend.Rows.{Call}
use market_x_backend.Inventory.{restock_product, clamp, find_product, save_product, log, within}

module _ (db : Database) where
  unfoldable pub reserve_work : ℕ → ℕ → ℤ → Call db Product
  reserve_work product_id user_id amount = do
    found ← find_product db product_id
    p ← or_throw found (not_found "Product not found")
    throw_if (ltb_ℤ p.available amount) (bad_request "Insufficient stock for product")
    let p' = restock_product p p.quantity (p.reserved +ℤ amount)
    save_product db p'
    log db product_id user_id amount reservation reserved_for_checkout
    when (leb_ℤ p'.available (pos 5)) (emit (inventory_low_stock p'.id p'.title p'.available))
    pure p'

  unfoldable pub reserve_inventory : Bool → ℕ → ℕ → ℤ → Call db Product
  reserve_inventory manager product_id user_id amount =
      within db manager (reserve_work product_id user_id amount)

  unfoldable pub release_work : ℕ → ℕ → ℤ → Call db Product
  release_work product_id user_id amount = do
    found ← find_product db product_id
    p ← or_throw found (not_found "Product not found")
    let p' = restock_product p p.quantity (clamp (p.reserved -ℤ amount))
    save_product db p'
    log db product_id user_id (pos 0 -ℤ amount) release reservation_released
    pure p'

  unfoldable pub release_inventory : Bool → ℕ → ℕ → ℤ → Call db Product
  release_inventory manager product_id user_id amount =
      within db manager (release_work product_id user_id amount)

  unfoldable pub commit_work : ℕ → ℕ → ℤ → Call db Product
  commit_work product_id user_id amount = do
    found ← find_product db product_id
    p ← or_throw found (not_found "Product not found")
    let p' = restock_product p (p.quantity -ℤ amount) (clamp (p.reserved -ℤ amount))
    save_product db p'
    log db product_id user_id (pos 0 -ℤ amount) purchase unnoted
    pure p'

  unfoldable pub commit_sale : Bool → ℕ → ℕ → ℤ → Call db Product
  commit_sale manager product_id user_id amount =
      within db manager (commit_work product_id user_id amount)
