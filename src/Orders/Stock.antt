-- ===== src/Orders/Stock.antt =====
-- The loops over the items of an order that reserve and release the stock of products: what they do
-- to each product, and what they leave alone.
use mathlib.Core.Option
use market_x_backend.Common.{
  ℕ, true, List, ◌≡◌, refl, ◌∙◌, ap, arith, Option-cases, inl, inr, is_some, All-of,
}
use market_x_backend.Common.Int.{ℤ, ◌+ℤ◌, ◌-ℤ◌, int_laws}
use market_x_backend.Common.Outcome.{ok, World, for_each, for_each-keeps}
use market_x_backend.Common.Database.{Database}
use market_x_backend.Entities.{Product, OrderItem}
use market_x_backend.Events.{Event}
use market_x_backend.Rows.{Rows}
use market_x_backend.Inventory.{restock_product, clamp}
use market_x_backend.Inventory.ProductStock.{
  reserve_work, reserve_inventory, release_work, release_inventory,
}
use market_x_backend.Inventory.ProductLaws.{product_at}
use market_x_backend.Inventory.Stocked.{ProductStocked, ProductsStocked, Ordered}
use market_x_backend.Inventory.Loops.{replay, Touches, for_each-Touches}
use market_x_backend.Inventory.Replay.{ordered, replay_at_once, clamp_twice, map-replay}
use market_x_backend.Orders.Service.{reserve_ordered, release_ordered}

abbrev pub reserve_product : ℤ → Product → Product
reserve_product n p = restock_product p p.quantity (p.reserved +ℤ n)

abbrev pub release_product : ℤ → Product → Product
release_product n p = restock_product p p.quantity (clamp (p.reserved -ℤ n))

replay-reserve_product :
    (j : ℕ) (items : List OrderItem) (p : Product)
    → Ordered items
    → ProductStocked p
    → replay reserve_product j items p ≡ reserve_product (ordered j items) p
replay-reserve_product =
    replay_at_once ProductStocked reserve_product (λ p h. grind int_laws)
      (λ n p hn h. grind int_laws) (λ n m p hn hm. grind int_laws)

replay-release_product :
    (j : ℕ) (items : List OrderItem) (p : Product)
    → Ordered items
    → ProductStocked p
    → replay release_product j items p ≡ release_product (ordered j items) p
replay-release_product =
    replay_at_once ProductStocked release_product (λ p h. grind int_laws)
      (λ n p hn h. grind int_laws)
      (λ n m p hn hm. ap (restock_product p p.quantity) (clamp_twice p.reserved n m hn hm))

pub release_reserve_product :
    (n : ℤ) (p : Product) → ProductStocked p → release_product n (reserve_product n p) ≡ p
release_reserve_product n p h = grind int_laws

module _ (db : Database) where
  pub reserve_ordered-Touches :
      (buyer_id : ℕ) → Touches (product_at db) (reserve_ordered db buyer_id) reserve_product
  unfolding reserve_ordered reserve_inventory reserve_work
  reserve_ordered-Touches buyer_id item w w' e j =
      elim (Option-cases (product_at db item.product_id w)) [
        | inl missing ↦ absurd (ground arith)
        | inr (p, found) ↦
            grind
              (arith, db.find_one-save j, db.find_one-key item.product_id w.rows.products p found)
      ]

  pub release_ordered-Touches :
      (user_id : ℕ) → Touches (product_at db) (release_ordered db user_id) release_product
  unfolding release_ordered release_inventory release_work
  release_ordered-Touches user_id item w w' e j =
      elim (Option-cases (product_at db item.product_id w)) [
        | inl missing ↦ absurd (ground arith)
        | inr (p, found) ↦
            grind
              (arith, db.find_one-save j, db.find_one-key item.product_id w.rows.products p found)
      ]

  pub reserve_ordered-needs :
      (buyer_id : ℕ) (item : OrderItem) (w w' : World (Rows db) Event)
      → reserve_ordered db buyer_id item w ≡ (ok tt, w')
      → is_some (product_at db item.product_id w) ≡ true
  unfolding reserve_ordered reserve_inventory reserve_work
  reserve_ordered-needs buyer_id item w w' e = ground arith

  pub release_ordered-returns :
      (user_id : ℕ) (item : OrderItem) (w : World (Rows db) Event)
      → is_some (product_at db item.product_id w) ≡ true
      → (w' : World (Rows db) Event) × (release_ordered db user_id item w ≡ (ok tt, w'))
  unfolding release_ordered release_inventory release_work
  release_ordered-returns user_id item w found =
      elim (Option-cases (product_at db item.product_id w)) [
        | inl missing ↦ absurd (ground arith)
        | inr (p, there) ↦ ((release_ordered db user_id item w).1, ground arith)
      ]

  -- What the loop that reserves does to each product.
  pub reserve_all_exact :
      (buyer_id : ℕ) (items : List OrderItem) (w w' : World (Rows db) Event)
      → Ordered items
      → ProductsStocked db w.rows
      → for_each (reserve_ordered db buyer_id) items w ≡ (ok tt, w')
      → (j : ℕ)
      → product_at db j w' ≡ Option.map (reserve_product (ordered j items)) (product_at db j w)
  reserve_all_exact buyer_id items w w' p h e j =
      for_each-Touches (product_at db) (reserve_ordered db buyer_id) reserve_product
        (reserve_ordered-Touches buyer_id) items w w' e j
      ∙ map-replay ProductStocked (replay reserve_product j items)
          (reserve_product (ordered j items)) (product_at db j w)
          (λ q. replay-reserve_product j items q p) (h j)

  pub release_all_exact :
      (user_id : ℕ) (items : List OrderItem) (w w' : World (Rows db) Event)
      → Ordered items
      → ProductsStocked db w.rows
      → for_each (release_ordered db user_id) items w ≡ (ok tt, w')
      → (j : ℕ)
      → product_at db j w' ≡ Option.map (release_product (ordered j items)) (product_at db j w)
  release_all_exact user_id items w w' p h e j =
      for_each-Touches (product_at db) (release_ordered db user_id) release_product
        (release_ordered-Touches user_id) items w w' e j
      ∙ map-replay ProductStocked (replay release_product j items)
          (release_product (ordered j items)) (product_at db j w)
          (λ q. replay-release_product j items q p) (h j)

  -- Nothing but products and the history of the stock is changed.
  abbrev pub OnlyProducts : Rows db → Rows db → Type 0
  OnlyProducts before r = r ≡ record before { products = r.products; history = r.history }

  reserve_ordered-frame :
      (buyer_id : ℕ) (before : Rows db) (item : OrderItem) (w : World (Rows db) Event)
      → OnlyProducts before w.rows
      → OnlyProducts before (reserve_ordered db buyer_id item w).1.rows
  unfolding reserve_ordered reserve_inventory reserve_work
  reserve_ordered-frame buyer_id before item w h =
      elim (Option-cases (product_at db item.product_id w)) [
        | inl missing ↦ ground arith
        | inr (p, found) ↦ ground arith
      ]

  release_ordered-frame :
      (user_id : ℕ) (before : Rows db) (item : OrderItem) (w : World (Rows db) Event)
      → OnlyProducts before w.rows
      → OnlyProducts before (release_ordered db user_id item w).1.rows
  unfolding release_ordered release_inventory release_work
  release_ordered-frame user_id before item w h =
      elim (Option-cases (product_at db item.product_id w)) [
        | inl missing ↦ ground arith
        | inr (p, found) ↦ ground arith
      ]

  pub reserve_all-frame :
      (buyer_id : ℕ) (items : List OrderItem) (w : World (Rows db) Event)
      → OnlyProducts w.rows (for_each (reserve_ordered db buyer_id) items w).1.rows
  reserve_all-frame buyer_id items w =
      for_each-keeps (λ v. OnlyProducts w.rows v.rows) (reserve_ordered db buyer_id) items
        (All-of (reserve_ordered-frame buyer_id w.rows) items) w refl

  pub release_all-frame :
      (user_id : ℕ) (items : List OrderItem) (w : World (Rows db) Event)
      → OnlyProducts w.rows (for_each (release_ordered db user_id) items w).1.rows
  release_all-frame user_id items w =
      for_each-keeps (λ v. OnlyProducts w.rows v.rows) (release_ordered db user_id) items
        (All-of (release_ordered-frame user_id w.rows) items) w refl
