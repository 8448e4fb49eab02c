-- ===== src/Inventory/Invariant.antt =====
-- What holds of the stock columns between two calls of the service.
use market_x_backend.Common.{ℕ, Bool, List, arith, Option-cases, inl, inr, All, All-map, All-of}
use market_x_backend.Common.Int.{ℤ, pos, ◌≤ℤ◌, int_laws}
use market_x_backend.Common.Outcome.{World, for_each, for_each-keeps}
use market_x_backend.Common.Database.{Database}
use market_x_backend.Entities.{Order, OrderItem}
use market_x_backend.Events.{Event}
use market_x_backend.Rows.{Rows, Call}
use market_x_backend.Inventory.OrderStock.{
  reserve_item, reserve_for_order, confirm_item, confirm_order, cancel_item, cancel_order,
  restore_item, restore_inventory_from_refund,
}
use market_x_backend.Inventory.ProductStock.{
  reserve_work, reserve_inventory, release_work, release_inventory, commit_work, commit_sale,
}
use market_x_backend.Inventory.Stocked.{
  Ordered, ListingsStocked, ListingsCovered, ProductsStocked, transaction-keeps, within-keeps,
}

module _ (db : Database) where
  reserve_work-stocked :
      (k u : ℕ) (n : ℤ) (w : World (Rows db) Event)
      → pos 0 ≤ℤ n
      → ProductsStocked db w.rows
      → ProductsStocked db (reserve_work db k u n w).1.rows
  unfolding reserve_work
  reserve_work-stocked k u n w n_nonneg h j q e =
      elim (Option-cases (db.find_one k w.rows.products)) [
        | inl missing ↦ ground (arith, h j q)
        | inr (p, found) ↦ grind (int_laws, h k p found, h j q, db.find_one-save)
      ]

  release_work-stocked :
      (k u : ℕ) (n : ℤ) (w : World (Rows db) Event)
      → ProductsStocked db w.rows
      → ProductsStocked db (release_work db k u n w).1.rows
  unfolding release_work
  release_work-stocked k u n w h j q e = elim (Option-cases (db.find_one k w.rows.products)) [
    | inl missing ↦ ground (arith, h j q)
    | inr (p, found) ↦ grind (int_laws, h k p found, h j q, db.find_one-save)
  ]

  commit_work-stocked :
      (k u : ℕ) (n : ℤ) (w : World (Rows db) Event)
      → ProductsStocked db w.rows
      → ProductsStocked db (commit_work db k u n w).1.rows
  unfolding commit_work
  commit_work-stocked k u n w h j q e = elim (Option-cases (db.find_one k w.rows.products)) [
    | inl missing ↦ ground (arith, h j q)
    | inr (p, found) ↦ grind (int_laws, h k p found, h j q, db.find_one-save)
  ]

  reserve_item-stocked :
      (o : Order) (item : OrderItem)
      → pos 0 ≤ℤ item.quantity
      → (w : World (Rows db) Event) → ListingsStocked db w.rows
      → ListingsStocked db (reserve_item db o item w).1.rows
  unfolding reserve_item
  reserve_item-stocked o item n_nonneg w h j q e =
      elim (Option-cases (db.find_one item.product_id w.rows.listings)) [
        | inl missing ↦ ground (arith, h j q)
        | inr (l, found) ↦ grind (int_laws, h item.product_id l found, h j q, db.find_one-save)
      ]

  confirm_item-stocked :
      (o : Order) (item : OrderItem)
      → (w : World (Rows db) Event) → ListingsStocked db w.rows
      → ListingsStocked db (confirm_item db o item w).1.rows
  unfolding confirm_item
  confirm_item-stocked o item w h j q e =
      elim (Option-cases (db.find_one item.product_id w.rows.listings)) [
        | inl missing ↦ ground (arith, h j q)
        | inr (l, found) ↦ grind (int_laws, h item.product_id l found, h j q, db.find_one-save)
      ]

  cancel_item-stocked :
      (o : Order) (item : OrderItem)
      → (w : World (Rows db) Event) → ListingsStocked db w.rows
      → ListingsStocked db (cancel_item db o item w).1.rows
  unfolding cancel_item
  cancel_item-stocked o item w h j q e =
      elim (Option-cases (db.find_one item.product_id w.rows.listings)) [
        | inl missing ↦ ground (arith, h j q)
        | inr (l, found) ↦ grind (int_laws, h item.product_id l found, h j q, db.find_one-save)
      ]

  restore_item-stocked :
      (o : Order) (item : OrderItem)
      → (w : World (Rows db) Event) → ListingsStocked db w.rows
      → ListingsStocked db (restore_item db o item w).1.rows
  unfolding restore_item
  restore_item-stocked o item w h j q e =
      elim (Option-cases (db.find_one item.product_id w.rows.listings)) [
        | inl missing ↦ ground (arith, h j q)
        | inr (l, found) ↦ grind (int_laws, h item.product_id l found, h j q, db.find_one-save)
      ]

  -- The loop over the items of an order, in its transaction.
  order_keeps :
      (P : Rows db → Type 0) (body : OrderItem → Call db (Unit {0})) (items : List OrderItem)
      → All (λ item. (w : World (Rows db) Event) → P w.rows → P (body item w).1.rows) items
      → (w : World (Rows db) Event) → P w.rows
      → P (db.transaction (for_each body items) w).1.rows
  order_keeps P body items keep w h =
      transaction-keeps db P (for_each body items) w h
        (for_each-keeps (λ v. P v.rows) body items keep w h)

  -- Whatever becomes of an order, each step of it on the stock, failed or not, leaves `available`
  -- equal to `quantity - reserved` and `reserved` at zero or more, for every listing of the shop, if
  -- the order asks for no negative quantity.
  pub order_steps-stocked :
      (o : Order) (w : World (Rows db) Event)
      → Ordered o.items
      → ListingsStocked db w.rows
      → ListingsStocked db (reserve_for_order db o w).1.rows
        × ListingsStocked db (confirm_order db o w).1.rows
        × ListingsStocked db (cancel_order db o w).1.rows
        × ListingsStocked db (restore_inventory_from_refund db o w).1.rows
  unfolding reserve_for_order confirm_order cancel_order restore_inventory_from_refund
  order_steps-stocked o w nonneg h = (
    order_keeps (ListingsStocked db) (reserve_item db o) o.items
        (All-map (reserve_item-stocked o) o.items nonneg) w h,
    order_keeps (ListingsStocked db) (confirm_item db o) o.items
        (All-of (confirm_item-stocked o) o.items) w h,
    order_keeps (ListingsStocked db) (cancel_item db o) o.items
        (All-of (cancel_item-stocked o) o.items) w h,
    order_keeps (ListingsStocked db) (restore_item db o) o.items
        (All-of (restore_item-stocked o) o.items) w h,
  )

  reserve_item-covered :
      (o : Order) (item : OrderItem)
      → pos 0 ≤ℤ item.quantity
      → (w : World (Rows db) Event) → ListingsCovered db w.rows
      → ListingsCovered db (reserve_item db o item w).1.rows
  unfolding reserve_item
  reserve_item-covered o item nonneg w h j q e =
      elim (Option-cases (db.find_one item.product_id w.rows.listings)) [
        | inl missing ↦ ground (arith, h j q)
        | inr (l, found) ↦ grind (int_laws, h item.product_id l found, h j q, db.find_one-save)
      ]

  -- Where no listing has more reserved than it has, that holds after a reservation for an order too,
  -- whether it succeeds or fails part of the way, if the order asks for no negative quantity.
  pub reserve_for_order-covered :
      (o : Order) (w : World (Rows db) Event)
      → Ordered o.items
      → ListingsCovered db w.rows
      → ListingsCovered db (reserve_for_order db o w).1.rows
  unfolding reserve_for_order
  reserve_for_order-covered o w nonneg h =
      order_keeps (ListingsCovered db) (reserve_item db o) o.items
        (All-map (reserve_item-covered o) o.items nonneg) w h

  -- Every operation on the stock of a product, failed or not, in the caller's transaction or in its
  -- own, leaves `available` equal to `quantity - reserved` and `reserved` at zero or more, for every
  -- product, if no negative amount is reserved.
  pub product_steps-stocked :
      (manager : Bool) (k u : ℕ) (n : ℤ) (w : World (Rows db) Event)
      → pos 0 ≤ℤ n
      → ProductsStocked db w.rows
      → ProductsStocked db (reserve_inventory db manager k u n w).1.rows
        × ProductsStocked db (release_inventory db manager k u n w).1.rows
        × ProductsStocked db (commit_sale db manager k u n w).1.rows
  unfolding reserve_inventory release_inventory commit_sale
  product_steps-stocked manager k u n w nonneg h = (
    within-keeps db (ProductsStocked db) manager (reserve_work db k u n) w h
        (reserve_work-stocked k u n w nonneg h),
    within-keeps db (ProductsStocked db) manager (release_work db k u n) w h
        (release_work-stocked k u n w h),
    within-keeps db (ProductsStocked db) manager (commit_work db k u n) w h
        (commit_work-stocked k u n w h),
  )
