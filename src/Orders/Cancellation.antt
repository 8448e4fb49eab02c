-- ===== src/Orders/Cancellation.antt =====
-- `cancelOrder`: what it gives back, and which orders it takes.
use mathlib.Core.Option
use market_x_backend.Common.{
  ℕ, some, ◌≡◌, ◌≢◌, ◌⊎◌, refl, ◌∙◌, ap, sym, subst, arith, Option-cases, inl, inr, if◌then◌else◌,
  ◌==◌, ==_refl, All,
}
use market_x_backend.Common.Int.{ℤ, pos, ◌≤ℤ◌, int_laws}
use market_x_backend.Common.Outcome.{ok, bad_request, World, Outcome-cases, for_each}
use market_x_backend.Common.Database.{Database}
use market_x_backend.Status.{validate}
use market_x_backend.Entities.{Order, OrderStatus}
use market_x_backend.Events.{Event}
use market_x_backend.Rows.{Rows}
use market_x_backend.Escrow.Branches.{IsRefused}
use market_x_backend.Inventory.ProductLaws.{product_at}
use market_x_backend.Inventory.Stocked.{ProductStocked, ProductsStocked, Ordered}
use market_x_backend.Inventory.Loops.{Found, for_each-returns}
use market_x_backend.Inventory.Replay.{
  ordered, ordered_nonneg, map-after, map-same, transaction-returns, transaction-eq-ok,
}
use market_x_backend.Orders.Lifecycle.{order_transitions}
use market_x_backend.Orders.Service.{
  Catalogue, CreateOrderDto, create, create_work, release_ordered, cancel_work, cancel_order,
  find_one, order_at, update_status,
}
use market_x_backend.Orders.Stock.{
  reserve_product, release_product, release_reserve_product, release_ordered-Touches,
  release_ordered-returns, release_all_exact, release_all-frame,
}
use market_x_backend.Orders.Creation.{
  create_placed, Built-Ordered, place_exact, placed_orders, placed_products, placed-Found, paid_in,
  ordered_as,
}

-- The order after `cancelOrder`.
abbrev pub called_off : ℕ → Order → Order
called_off now o = record o { status = OrderStatus.cancelled; cancelled_at = some now }

module _ (db : Database) (catalogue : Catalogue) where
  cancel_released :
      (now k u : ℕ) (w w' : World (Rows db) Event) (o o' : Order)
      → order_at db k w ≡ some o
      → cancel_work db now k u w ≡ (ok o', w')
      → (o.buyer_id ≡ u)
        × (o.status ≢ OrderStatus.cancelled)
        × (o' ≡ called_off now o)
        × ((middle : World (Rows db) Event) × (for_each (release_ordered db u) o.items w
              ≡ (ok tt, middle))
            × (w'.rows
                ≡ record middle.rows { orders = db.save (called_off now o) middle.rows.orders }))
  unfolding cancel_work
  cancel_released now k u w w' o o' found e =
      elim (Outcome-cases (for_each (release_ordered db u) o.items w)) [
        | inl (_, middle, run) ↦
            (ground arith, ground arith, ground arith, (middle, run, ground arith))
        | inr (x, middle, failed) ↦ absurd (ground arith)
      ]

  -- An order that `cancelOrder` cancels is the caller's own and was not cancelled before. It is
  -- stored as cancelled, with the time, and no other order is changed; and of each product what the
  -- items asked for is reserved no more. The order's quantities are not negative, and the stock
  -- columns are consistent before.
  pub cancel_order_exact :
      (now k u : ℕ) (w w' : World (Rows db) Event) (o o' : Order)
      → order_at db k w ≡ some o
      → Ordered o.items
      → ProductsStocked db w.rows
      → cancel_order db now k u w ≡ (ok o', w')
      → (o.buyer_id ≡ u)
        × (o.status ≢ OrderStatus.cancelled)
        × (o' ≡ called_off now o)
        × ((j : ℕ) → order_at db j w' ≡ (if k == j then some o' else order_at db j w))
        × ((j : ℕ)
            → product_at db j w'
              ≡ Option.map (release_product (ordered j o.items)) (product_at db j w))
  unfolding cancel_order
  cancel_order_exact now k u w w' o o' found p h run =
      let (own, before, same, (middle, released, rows)) =
        cancel_released now k u w w' o o' found
          (transaction-eq-ok db (cancel_work db now k u) w o' w' run) in
      let frame = release_all-frame db u o.items w in
      let orders : middle.rows.orders ≡ w.rows.orders =
        ap (λ r. r.1.rows.orders) (sym released) ∙ ap (λ r. r.orders) frame in
      (
        own,
        before,
        same,
        λ j.
            grind
              (arith, rows, orders, db.find_one-save j, db.find_one-key k w.rows.orders o found),
        λ j.
            ap (λ r. db.find_one j r.products) rows
            ∙ release_all_exact db u o.items w middle p h released j,
      )

  -- An order of the caller's that is not cancelled, and whose products are there, is cancelled.
  cancel_order_returns :
      (now k u : ℕ) (w : World (Rows db) Event) (o : Order)
      → order_at db k w ≡ some o
      → o.buyer_id ≡ u
      → o.status ≢ OrderStatus.cancelled
      → Found (product_at db) w o.items
      → (w' : World (Rows db) Event) × (cancel_order db now k u w ≡ (ok (called_off now o), w'))
  unfolding cancel_order cancel_work
  cancel_order_returns now k u w o found own open_still there =
      let (middle, run) =
        for_each-returns (product_at db) (release_ordered db u) release_product
          (release_ordered-Touches db u) (release_ordered-returns db u) o.items w there in
      let w' = (cancel_work db now k u w).1 in
      (w', transaction-returns db (cancel_work db now k u) w (called_off now o) w' (ground arith))

  -- Where every product of one world is that of another with more reserved, both are stocked.
  reserved-Stocked :
      (n : ℕ → ℤ) (w w' : World (Rows db) Event)
      → ((j : ℕ) → pos 0 ≤ℤ n j)
      → ProductsStocked db w.rows
      → ((j : ℕ) → product_at db j w' ≡ Option.map (reserve_product (n j)) (product_at db j w))
      → ProductsStocked db w'.rows
  reserved-Stocked n w w' nonneg h moved j q e = elim (Option-cases (product_at db j w)) [
    | inl missing ↦ absurd (ground (arith, moved j))
    | inr (p, found) ↦ grind (int_laws, h j p found, moved j, nonneg j)
  ]

  -- Cancelling an order right after its creation succeeds for its buyer, and leaves every product as
  -- it was before the creation. The quantities that were asked for are not negative, and the stock
  -- columns were consistent.
  pub cancel_order-create :
      (dto : CreateOrderDto) (now : ℕ) (w w1 : World (Rows db) Event) (o : Order)
      → All (λ d. pos 0 ≤ℤ d.quantity) dto.items
      → ProductsStocked db w.rows
      → create db catalogue dto w ≡ (ok o, w1)
      → (w2 : World (Rows db) Event) × (cancel_order db now o.id o.buyer_id w1
          ≡ (ok (called_off now o), w2))
        × ((j : ℕ) → product_at db j w2 ≡ product_at db j w)
  unfolding create
  cancel_order-create dto now w w1 o nonneg h run =
      let (items, built, _, _, placed) =
        create_placed db catalogue dto w w1 o
          (transaction-eq-ok db (create_work db catalogue dto) w o w1 run) in
      let o1 = ordered_as db catalogue dto items w in
      let same : o ≡ o1 = (place_exact db catalogue o1 o w w1 placed).0 in
      let p : Ordered items =
        Built-Ordered db catalogue (paid_in db catalogue dto) dto.items items nonneg built in
      let moved = placed_products db catalogue o1 o w w1 p h placed in
      let here : order_at db o1.id w1 ≡ some o1 =
        placed_orders db catalogue o1 o w w1 placed o1.id
        ∙ ap (λ b. if b then some o1 else order_at db o1.id w) (==_refl o1.id) in
      let (w2, cancels) =
        cancel_order_returns now o1.id o1.buyer_id w1 o1 here refl (λ e. ground arith)
          (placed-Found db catalogue o1 o w w1 placed) in
      let stocked =
        reserved-Stocked (λ j. ordered j items) w w1 (λ j. ordered_nonneg j items p) h moved in
      let (_, _, _, _, back) =
        cancel_order_exact now o1.id o1.buyer_id w1 w2 o1 (called_off now o1) here p stocked
          cancels in
      let restored : (j : ℕ) → product_at db j w2 ≡ product_at db j w = λ j.
        back j
        ∙ (ap (Option.map (release_product (ordered j items))) (moved j)
            ∙ map-after ProductStocked (release_product (ordered j items))
                (reserve_product (ordered j items)) (λ q. q) (product_at db j w)
                (release_reserve_product (ordered j items)) (h j)
            ∙ map-same (product_at db j w)) in
      subst
        (λ u.
          (v : World (Rows db) Event) × (cancel_order db now u.id u.buyer_id w1
            ≡ (ok (called_off now u), v))
          × ((j : ℕ) → product_at db j v ≡ product_at db j w))
        (sym same) (w2, cancels, restored)

  -- `cancelOrder` does not ask the table of the statuses: a delivered, completed or refunded order,
  -- which `updateStatus` refuses to cancel, is cancelled for its buyer all the same, if its products
  -- are there.
  pub cancel_order_ignores_table :
      (now later k : ℕ) (w : World (Rows db) Event) (o : Order)
      → order_at db k w ≡ some o
      → (o.status ≡ OrderStatus.delivered)
        ⊎ (o.status ≡ OrderStatus.completed)
        ⊎ (o.status ≡ OrderStatus.refunded)
      → Found (product_at db) w o.items
      → IsRefused w (update_status db now k OrderStatus.cancelled w)
        × ((w' : World (Rows db) Event) × (cancel_order db later k o.buyer_id w
              ≡ (ok (called_off later o), w')))
  unfolding update_status find_one validate order_transitions
  cancel_order_ignores_table now later k w o found ended there = (
    (bad_request "Invalid status transition", ground arith),
    cancel_order_returns later k o.buyer_id w o found refl (λ e. ground arith) there,
  )
