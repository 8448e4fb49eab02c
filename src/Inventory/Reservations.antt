-- ===== src/Inventory/Reservations.antt =====
-- A reservation for an order and what undoes or completes it, listing by listing.
use mathlib.Core.Option
use market_x_backend.Common.{ℕ, ◌≡◌, ◌∙◌, ap, subst}
use market_x_backend.Common.Int.{◌-ℤ◌}
use market_x_backend.Common.Outcome.{ok, World, for_each}
use market_x_backend.Common.Database.{Database}
use market_x_backend.Entities.{Order}
use market_x_backend.Events.{Event}
use market_x_backend.Rows.{Rows}
use market_x_backend.Inventory.{restock}
use market_x_backend.Inventory.OrderStock.{
  reserve_item, reserve_for_order, confirm_item, confirm_order, cancel_item, cancel_order,
}
use market_x_backend.Inventory.Loops.{
  replay, for_each-Touches, Found, Found-moved, for_each-Found, for_each-returns,
}
use market_x_backend.Inventory.Rounds.{
  reserve_column, confirm_column, cancel_column, listing_at, reserve_item-needs,
  cancel_item-returns, confirm_item-returns, reserve_item-Touches, confirm_item-Touches,
  cancel_item-Touches,
}
use market_x_backend.Inventory.Stocked.{ListingStocked, ListingsStocked, Ordered}
use market_x_backend.Inventory.Invariant.{order_steps-stocked}
use market_x_backend.Inventory.Replay.{
  ordered, replay-reserve, replay-cancel, replay-confirm, cancel_reserve, confirm_reserve,
  map-replay, map-after, map-same, transaction-returns, transaction-eq-ok,
}

module _ (db : Database) where
  -- A reservation for an order that succeeds adds, to what is reserved of each listing, what the
  -- items of the order ask for of it, and takes as much from what is available; listings that the
  -- order does not name, and all other columns, stay as they are. The order's quantities are not
  -- negative, and the stock columns are consistent before.
  pub reserve_for_order_exact :
      (o : Order) (w w' : World (Rows db) Event)
      → Ordered o.items
      → ListingsStocked db w.rows
      → reserve_for_order db o w ≡ (ok tt, w')
      → (j : ℕ)
      → listing_at db j w' ≡ Option.map (reserve_column (ordered j o.items)) (listing_at db j w)
  unfolding reserve_for_order
  reserve_for_order_exact o w w' p h e j =
      for_each-Touches (listing_at db) (reserve_item db o) reserve_column
        (reserve_item-Touches db o) o.items w w'
        (transaction-eq-ok db (for_each (reserve_item db o) o.items) w tt w' e) j
      ∙ map-replay ListingStocked (replay reserve_column j o.items)
          (reserve_column (ordered j o.items)) (listing_at db j w)
          (λ l. replay-reserve j o.items l p) (h j)

  -- The loops of the cancellation and of the confirmation, listing by listing.
  cancel_order_exact :
      (o : Order) (w w' : World (Rows db) Event)
      → Ordered o.items
      → ListingsStocked db w.rows
      → for_each (cancel_item db o) o.items w ≡ (ok tt, w')
      → (j : ℕ)
      → listing_at db j w' ≡ Option.map (cancel_column (ordered j o.items)) (listing_at db j w)
  cancel_order_exact o w w' p h e j =
      for_each-Touches (listing_at db) (cancel_item db o) cancel_column (cancel_item-Touches db o)
        o.items w w' e j
      ∙ map-replay ListingStocked (replay cancel_column j o.items)
          (cancel_column (ordered j o.items)) (listing_at db j w) (λ l. replay-cancel j o.items l p)
          (h j)

  confirm_order_exact :
      (o : Order) (w w' : World (Rows db) Event)
      → Ordered o.items
      → ListingsStocked db w.rows
      → for_each (confirm_item db o) o.items w ≡ (ok tt, w')
      → (j : ℕ)
      → listing_at db j w' ≡ Option.map (confirm_column (ordered j o.items)) (listing_at db j w)
  confirm_order_exact o w w' p h e j =
      for_each-Touches (listing_at db) (confirm_item db o) confirm_column
        (confirm_item-Touches db o) o.items w w' e j
      ∙ map-replay ListingStocked (replay confirm_column j o.items)
          (confirm_column (ordered j o.items)) (listing_at db j w)
          (λ l. replay-confirm j o.items l p) (h j)

  -- After a reservation that succeeded the listing of every item is there.
  reserved-Found :
      (o : Order) (w w' : World (Rows db) Event)
      → for_each (reserve_item db o) o.items w ≡ (ok tt, w')
      → Found (listing_at db) w' o.items
  reserved-Found o w w' e =
      (Found-moved (listing_at db) (λ j. replay reserve_column j o.items) w w'
          (for_each-Touches (listing_at db) (reserve_item db o) reserve_column
            (reserve_item-Touches db o) o.items w w' e)
          o.items).0
        (for_each-Found (listing_at db) (reserve_item db o) reserve_column
          (reserve_item-Touches db o) (reserve_item-needs db o) o.items w w' e)

  reserve_for_order-stocked :
      (o : Order) (w w' : World (Rows db) Event)
      → Ordered o.items
      → ListingsStocked db w.rows
      → reserve_for_order db o w ≡ (ok tt, w')
      → ListingsStocked db w'.rows
  reserve_for_order-stocked o w w' p h e =
      subst (λ r. ListingsStocked db r.1.rows) e (order_steps-stocked db o w p h).0

  -- Cancelling an order right after a reservation for it that succeeded succeeds, and leaves every
  -- listing as it was before the reservation, if the order's quantities are not negative and the
  -- stock columns were consistent.
  pub cancel_order-reserve_for_order :
      (o : Order) (w w' : World (Rows db) Event)
      → Ordered o.items
      → ListingsStocked db w.rows
      → reserve_for_order db o w ≡ (ok tt, w')
      → (w'' : World (Rows db) Event) × (cancel_order db o w' ≡ (ok tt, w''))
        × ((j : ℕ) → listing_at db j w'' ≡ listing_at db j w)
  unfolding cancel_order reserve_for_order
  cancel_order-reserve_for_order o w w' p h e =
      let reserved = transaction-eq-ok db (for_each (reserve_item db o) o.items) w tt w' e in
      let (w'', run) =
        for_each-returns (listing_at db) (cancel_item db o) cancel_column (cancel_item-Touches db o)
          (cancel_item-returns db o) o.items w' (reserved-Found o w w' reserved) in
      (
        w'',
        transaction-returns db (for_each (cancel_item db o) o.items) w' tt w'' run,
        λ j.
            cancel_order_exact o w' w'' p (reserve_for_order-stocked o w w' p h e) run j
            ∙ (ap (Option.map (cancel_column (ordered j o.items)))
                  (reserve_for_order_exact o w w' p h e j)
                ∙ map-after ListingStocked (cancel_column (ordered j o.items))
                    (reserve_column (ordered j o.items)) (λ l. l) (listing_at db j w)
                    (cancel_reserve (ordered j o.items)) (h j)
                ∙ map-same (listing_at db j w)),
      )

  -- Confirming a paid order right after a reservation for it that succeeded succeeds, and leaves
  -- every listing as it was before the reservation, less what the order asks for of it, which has
  -- left its quantity for good, if the order's quantities are not negative and the stock columns
  -- were consistent.
  pub confirm_order-reserve_for_order :
      (o : Order) (w w' : World (Rows db) Event)
      → Ordered o.items
      → ListingsStocked db w.rows
      → reserve_for_order db o w ≡ (ok tt, w')
      → (w'' : World (Rows db) Event) × (confirm_order db o w' ≡ (ok tt, w''))
        × ((j : ℕ)
            → listing_at db j w''
              ≡ Option.map
                  (λ l. restock l (l.quantity -ℤ ordered j o.items) l.reserved)
                  (listing_at db j w))
  unfolding confirm_order reserve_for_order
  confirm_order-reserve_for_order o w w' p h e =
      let reserved = transaction-eq-ok db (for_each (reserve_item db o) o.items) w tt w' e in
      let (w'', run) =
        for_each-returns (listing_at db) (confirm_item db o) confirm_column
          (confirm_item-Touches db o) (confirm_item-returns db o) o.items w'
          (reserved-Found o w w' reserved) in
      (
        w'',
        transaction-returns db (for_each (confirm_item db o) o.items) w' tt w'' run,
        λ j.
            confirm_order_exact o w' w'' p (reserve_for_order-stocked o w w' p h e) run j
            ∙ (ap (Option.map (confirm_column (ordered j o.items)))
                  (reserve_for_order_exact o w w' p h e j)
                ∙ map-after ListingStocked (confirm_column (ordered j o.items))
                    (reserve_column (ordered j o.items))
                    (λ l. restock l (l.quantity -ℤ ordered j o.items) l.reserved)
                    (listing_at db j w) (confirm_reserve (ordered j o.items)) (h j)),
      )
