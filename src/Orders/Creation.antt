-- ===== src/Orders/Creation.antt =====
-- `create`: what a new order is, and what it has reserved.
use mathlib.Core.Option
use market_x_backend.Common.{
  ℕ, true, false, Option, none, some, List, [], ◌∷◌, ◌≡◌, refl, ◌∙◌, ap, sym, subst, arith,
  Option-cases, inl, inr, if◌then◌else◌, ◌==◌, All, from_option,
}
use market_x_backend.Common.Int.{pos, ◌≤ℤ◌}
use market_x_backend.Common.Outcome.{ok, World, Outcome-cases, for_each}
use market_x_backend.Common.Database.{Database}
use market_x_backend.Entities.{Order, OrderItem, SupportedCurrency, OrderStatus, PaymentStatus}
use market_x_backend.Events.{Event}
use market_x_backend.Rows.{Rows}
use market_x_backend.Inventory.ProductLaws.{product_at}
use market_x_backend.Inventory.Stocked.{ProductsStocked, Ordered}
use market_x_backend.Inventory.Replay.{ordered}
use market_x_backend.Inventory.Loops.{Found, Found-moved, for_each-Found, for_each-Touches, replay}
use market_x_backend.Orders.Service.{
  Catalogue, CatalogueProduct, CreateOrderDto, CreateOrderItemDto, currency_eqb, new_item,
  order_milestones, milestones_exceed, total_amount, build_items, reserve_ordered, place,
  create_work, order_at,
}
use market_x_backend.Orders.Stock.{
  reserve_ordered-Touches, reserve_ordered-needs, reserve_product, reserve_all_exact,
  reserve_all-frame,
}

module _ (db : Database) (catalogue : Catalogue) where
  -- Each item is made from the product that the catalogue has for it, in the order's currency.
  abbrev pub Built : SupportedCurrency → List CreateOrderItemDto → List OrderItem → Type 0
  Built currency [] [] = Unit
  Built currency [] (i ∷ is) = ⊥
  Built currency (d ∷ ds) [] = ⊥
  Built currency (d ∷ ds) (i ∷ is) =
      ((p : CatalogueProduct) × (catalogue.find_one d.product_id currency ≡ ok (some p))
        × (currency_eqb p.currency currency ≡ true)
        × (i ≡ new_item d p))
      × Built currency ds is

  pub build_items_exact :
      (currency : SupportedCurrency) (dtos : List CreateOrderItemDto) (w w' : World (Rows db) Event)
      → (items : List OrderItem) → build_items db catalogue currency dtos w ≡ (ok items, w')
      → (w' ≡ w) × Built currency dtos items
  unfolding build_items
  build_items_exact currency [] w w' [] e = (ground arith, tt)
  build_items_exact currency [] w w' (i ∷ is) e = absurd (ground arith)
  build_items_exact currency (d ∷ ds) w w' items e =
      elim (Outcome-cases (catalogue.find_one d.product_id currency, w)) [
        | inr (x, w1, failed) ↦ absurd (ground arith)
        | inl (found, w1, answered) ↦ elim (Option-cases found) [
          | inl missing ↦ absurd (ground arith)
          | inr (p, there) ↦ elim (Outcome-cases (build_items db catalogue currency ds w)) [
            | inl (rest, w2, run) ↦
                let (stays, built) = build_items_exact currency ds w w2 rest run in
                let same : currency_eqb p.currency currency ≡ true = ground arith in
                let made : items ≡ new_item d p ∷ rest = ground arith in
                (
                  ground arith,
                  subst (Built currency (d ∷ ds)) (sym made) ((p, ground arith, same, refl), built),
                )
            | inr (x, w2, failed) ↦ absurd (ground arith)
          ]
        ]
      ]

  pub place_exact :
      (o o' : Order) (w w' : World (Rows db) Event)
      → place db o w ≡ (ok o', w')
      → (o' ≡ o)
        × ((middle : World (Rows db) Event) × (for_each
                (reserve_ordered db o.buyer_id)
                o.items
                (record w { rows = record w.rows { orders = db.save o w.rows.orders } })
              ≡ (ok tt, middle))
            × (w'.rows ≡ middle.rows))
  unfolding place
  place_exact o o' w w' e =
      let saved = record w { rows = record w.rows { orders = db.save o w.rows.orders } } in
      elim (Outcome-cases (for_each (reserve_ordered db o.buyer_id) o.items saved)) [
        | inl (_, middle, run) ↦ (ground arith, (middle, run, ground arith))
        | inr (x, middle, failed) ↦ absurd (ground arith)
      ]

  pub placed_orders :
      (o o' : Order) (w w' : World (Rows db) Event)
      → place db o w ≡ (ok o', w')
      → (j : ℕ) → order_at db j w' ≡ (if o.id == j then some o else order_at db j w)
  placed_orders o o' w w' e j =
      let saved : World (Rows db) Event = record w {
        rows = record w.rows { orders = db.save o w.rows.orders };
      } in
      let (_, (middle, reserved, rows)) = place_exact o o' w w' e in
      let here : Rows db → Option Order = λ r. db.find_one j r.orders in
      ap here rows
      ∙ (ap (λ r. here r.1.rows) (sym reserved)
          ∙ (ap here (reserve_all-frame db o.buyer_id o.items saved)
              ∙ db.find_one-save j o w.rows.orders))

  pub placed_products :
      (o o' : Order) (w w' : World (Rows db) Event)
      → Ordered o.items
      → ProductsStocked db w.rows
      → place db o w ≡ (ok o', w')
      → (j : ℕ)
      → product_at db j w' ≡ Option.map (reserve_product (ordered j o.items)) (product_at db j w)
  placed_products o o' w w' p h e j =
      let saved : World (Rows db) Event = record w {
        rows = record w.rows { orders = db.save o w.rows.orders };
      } in
      let (_, (middle, reserved, rows)) = place_exact o o' w w' e in
      ap (λ r. db.find_one j r.products) rows
      ∙ reserve_all_exact db o.buyer_id o.items saved middle p h reserved j

  -- The products of the items of a placed order are there.
  pub placed-Found :
      (o o' : Order) (w w' : World (Rows db) Event)
      → place db o w ≡ (ok o', w')
      → Found (product_at db) w' o.items
  placed-Found o o' w w' e =
      let saved : World (Rows db) Event = record w {
        rows = record w.rows { orders = db.save o w.rows.orders };
      } in
      let (_, (middle, reserved, rows)) = place_exact o o' w w' e in
      let touches = reserve_ordered-Touches db o.buyer_id in
      (Found-moved (product_at db) (λ j. replay reserve_product j o.items) saved w'
          (λ j.
            ap (λ r. db.find_one j r.products) rows
            ∙ for_each-Touches (product_at db) (reserve_ordered db o.buyer_id) reserve_product
                touches o.items saved middle reserved j)
          o.items).0
        (for_each-Found (product_at db) (reserve_ordered db o.buyer_id) reserve_product touches
          (reserve_ordered-needs db o.buyer_id) o.items saved middle reserved)

  abbrev pub paid_in : CreateOrderDto → SupportedCurrency
  paid_in dto = from_option SupportedCurrency.usd dto.payment_currency

  -- The order that is placed for the items.
  abbrev pub ordered_as : CreateOrderDto → List OrderItem → World (Rows db) Event → Order
  ordered_as dto items w = record {
    id = db.next_key w.rows.orders;
    buyer_id = dto.buyer_id;
    seller_id = none;
    total_amount = total_amount (pos 0) items;
    currency = paid_in dto;
    status = OrderStatus.pending;
    payment_status = PaymentStatus.unpaid;
    items = items;
    escrow_type = dto.escrow_type;
    milestones = order_milestones dto.milestones;
    released_amount = pos 0;
    remaining_amount = total_amount (pos 0) items;
    shipping_address = dto.shipping_address;
    tracking_number = none;
    confirmed_at = none;
    shipped_at = none;
    delivered_at = none;
    cancelled_at = none;
  }

  pub create_placed :
      (dto : CreateOrderDto) (w w' : World (Rows db) Event) (o : Order)
      → create_work db catalogue dto w ≡ (ok o, w')
      → (items : List OrderItem) × Built (paid_in dto) dto.items items
        × (pos 1 ≤ℤ total_amount (pos 0) items)
        × (milestones_exceed (order_milestones dto.milestones) (total_amount (pos 0) items) ≡ false)
        × (place db (ordered_as dto items w) w ≡ (ok o, w'))
  unfolding create_work
  create_placed dto w w' o e =
      elim (Outcome-cases (build_items db catalogue (paid_in dto) dto.items w)) [
        | inl (items, w1, run) ↦
            let (stays, built) = build_items_exact (paid_in dto) dto.items w w1 items run in
            (items, built, ground arith, ground arith, ground arith)
        | inr (x, w1, failed) ↦ absurd (ground arith)
      ]

  -- Items made of quantities that are not negative order no negative quantity.
  pub Built-Ordered :
      (currency : SupportedCurrency) (dtos : List CreateOrderItemDto) (items : List OrderItem)
      → All (λ d. pos 0 ≤ℤ d.quantity) dtos
      → Built currency dtos items
      → Ordered items
  Built-Ordered currency [] [] nonneg built = tt
  Built-Ordered currency [] (i ∷ is) nonneg built = absurd built
  Built-Ordered currency (d ∷ ds) [] nonneg built = absurd built
  Built-Ordered currency (d ∷ ds) (i ∷ is) nonneg ((p, found, same, made), built) = (
    subst (λ u. pos 0 ≤ℤ u.quantity) (sym made) nonneg.0,
    Built-Ordered currency ds is nonneg.1 built,
  )
