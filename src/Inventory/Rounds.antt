-- ===== src/Inventory/Rounds.antt =====
-- The rounds of the loops of `reserveForOrder` and its like: what each does to the listings, what it
-- needs and when it returns.
use market_x_backend.Common.{ℕ, true, Option, ◌≡◌, arith, Option-cases, inl, inr, is_some}
use market_x_backend.Common.Int.{ℤ, ◌+ℤ◌, ◌-ℤ◌}
use market_x_backend.Common.Outcome.{ok, World}
use market_x_backend.Common.Database.{Database}
use market_x_backend.Entities.{Listing, Order, OrderItem}
use market_x_backend.Events.{Event}
use market_x_backend.Rows.{Rows}
use market_x_backend.Inventory.{restock, clamp}
use market_x_backend.Inventory.OrderStock.{reserve_item, confirm_item, cancel_item, restore_item}
use market_x_backend.Inventory.Loops.{Touches}

abbrev pub reserve_column : ℤ → Listing → Listing
reserve_column n l = restock l l.quantity (l.reserved +ℤ n)

abbrev pub confirm_column : ℤ → Listing → Listing
confirm_column n l = restock l (l.quantity -ℤ n) (clamp (l.reserved -ℤ n))

abbrev pub cancel_column : ℤ → Listing → Listing
cancel_column n l = restock l l.quantity (clamp (l.reserved -ℤ n))

abbrev pub restore_column : ℤ → Listing → Listing
restore_column n l = restock l (l.quantity +ℤ n) l.reserved

module _ (db : Database) where
  abbrev pub listing_at : ℕ → World (Rows db) Event → Option Listing
  listing_at j w = db.find_one j w.rows.listings

  pub reserve_item-Touches : (o : Order) → Touches listing_at (reserve_item db o) reserve_column
  unfolding reserve_item
  reserve_item-Touches o item w w' e j = elim (Option-cases (listing_at item.product_id w)) [
    | inl missing ↦ absurd (ground arith)
    | inr (l, found) ↦
        grind (arith, db.find_one-save j, db.find_one-key item.product_id w.rows.listings l found)
  ]

  pub confirm_item-Touches : (o : Order) → Touches listing_at (confirm_item db o) confirm_column
  unfolding confirm_item
  confirm_item-Touches o item w w' e j = elim (Option-cases (listing_at item.product_id w)) [
    | inl missing ↦ absurd (ground arith)
    | inr (l, found) ↦
        grind (arith, db.find_one-save j, db.find_one-key item.product_id w.rows.listings l found)
  ]

  pub cancel_item-Touches : (o : Order) → Touches listing_at (cancel_item db o) cancel_column
  unfolding cancel_item
  cancel_item-Touches o item w w' e j = elim (Option-cases (listing_at item.product_id w)) [
    | inl missing ↦ absurd (ground arith)
    | inr (l, found) ↦
        grind (arith, db.find_one-save j, db.find_one-key item.product_id w.rows.listings l found)
  ]

  pub restore_item-Touches : (o : Order) → Touches listing_at (restore_item db o) restore_column
  unfolding restore_item
  restore_item-Touches o item w w' e j = elim (Option-cases (listing_at item.product_id w)) [
    | inl missing ↦ absurd (ground arith)
    | inr (l, found) ↦
        grind (arith, db.find_one-save j, db.find_one-key item.product_id w.rows.listings l found)
  ]

  pub reserve_item-needs :
      (o : Order) (item : OrderItem) (w w' : World (Rows db) Event)
      → reserve_item db o item w ≡ (ok tt, w')
      → is_some (listing_at item.product_id w) ≡ true
  unfolding reserve_item
  reserve_item-needs o item w w' e = ground arith

  pub cancel_item-returns :
      (o : Order) (item : OrderItem) (w : World (Rows db) Event)
      → is_some (listing_at item.product_id w) ≡ true
      → (w' : World (Rows db) Event) × (cancel_item db o item w ≡ (ok tt, w'))
  unfolding cancel_item
  cancel_item-returns o item w found = elim (Option-cases (listing_at item.product_id w)) [
    | inl missing ↦ absurd (ground arith)
    | inr (l, there) ↦ ((cancel_item db o item w).1, ground arith)
  ]

  pub confirm_item-returns :
      (o : Order) (item : OrderItem) (w : World (Rows db) Event)
      → is_some (listing_at item.product_id w) ≡ true
      → (w' : World (Rows db) Event) × (confirm_item db o item w ≡ (ok tt, w'))
  unfolding confirm_item
  confirm_item-returns o item w found = elim (Option-cases (listing_at item.product_id w)) [
    | inl missing ↦ absurd (ground arith)
    | inr (l, there) ↦ ((confirm_item db o item w).1, ground arith)
  ]
