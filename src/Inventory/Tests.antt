-- ===== src/Inventory/Tests.antt =====
-- The inventory service on the sample shop.
use mathlib.Core.Option
use market_x_backend.Common.{ℕ, true, [], ◌∷◌, ◌≡◌, refl, arith}
use market_x_backend.Common.Int.{pos, ◌+ℤ◌, ◌-ℤ◌}
use market_x_backend.Common.Outcome.{ok, err, World, bad_request, for_each}
use market_x_backend.Common.Memory.{memory}
use market_x_backend.Entities.{Order, ListingVariant}
use market_x_backend.Events.{Event}
use market_x_backend.Rows.{Rows}
use market_x_backend.Samples.{shop, order, item, lamp, desk, lamp_product}
use market_x_backend.Inventory.OrderStock.{
  reserve_item, reserve_for_order, confirm_order, cancel_order, restore_inventory_from_refund,
}
use market_x_backend.Inventory.ProductStock.{reserve_work, reserve_inventory}
use market_x_backend.Inventory.{restock}
use market_x_backend.Inventory.Rounds.{listing_at}
use market_x_backend.Inventory.Replay.{ordered}
use market_x_backend.Inventory.Reservations.{
  cancel_order-reserve_for_order, confirm_order-reserve_for_order,
}
use market_x_backend.Inventory.Stocked.{ListingsStocked, ListingsCovered, ProductsStocked, Ordered}
use market_x_backend.Inventory.Invariant.{order_steps-stocked}

abbrev reserved_shop : World (Rows memory) Event
reserved_shop = (reserve_for_order memory order shop).1

reserve_order_ok : reserve_for_order memory order shop ≡ (ok tt, reserved_shop)
unfolding reserve_for_order reserve_item for_each ◌+ℤ◌ ◌-ℤ◌
reserve_order_ok = refl

reserve_order_rows :
    reserved_shop.rows.listings
    ≡ record lamp { reserved = pos 5; available = pos 5 }
      ∷ record desk { reserved = pos 1; available = pos 2 }
      ∷ []
unfolding reserve_for_order reserve_item for_each ◌+ℤ◌ ◌-ℤ◌
reserve_order_rows = refl

-- Twelve lamps are not there: the desk that was reserved first is free again.
abbrev large_order : Order
large_order = record order { items = item 2 1 ∷ item 1 12 ∷ [] }

reserve_too_much :
    reserve_for_order memory large_order shop ≡ (err (bad_request "Not enough inventory"), shop)
unfolding reserve_for_order reserve_item for_each ◌+ℤ◌ ◌-ℤ◌
reserve_too_much = refl

shop-stocked : ListingsStocked memory shop.rows
unfolding ◌-ℤ◌
shop-stocked k l e = ground arith

shop-covered : ListingsCovered memory shop.rows
unfolding ◌-ℤ◌
shop-covered k l e = ground arith

products-stocked : ProductsStocked memory shop.rows
unfolding ◌-ℤ◌
products-stocked k p e = ground arith

order-Ordered : Ordered order.items
order-Ordered = ground arith

order_steps-stocked_example :
    ListingsStocked memory (reserve_for_order memory order shop).1.rows
    × ListingsStocked memory (confirm_order memory order shop).1.rows
    × ListingsStocked memory (cancel_order memory order shop).1.rows
    × ListingsStocked memory (restore_inventory_from_refund memory order shop).1.rows
order_steps-stocked_example = order_steps-stocked memory order shop order-Ordered shop-stocked

cancel_order-reserve_for_order_example :
    (w : World (Rows memory) Event) × (cancel_order memory order reserved_shop ≡ (ok tt, w))
    × ((j : ℕ) → listing_at memory j w ≡ listing_at memory j shop)
cancel_order-reserve_for_order_example =
    cancel_order-reserve_for_order memory order shop reserved_shop order-Ordered shop-stocked
      reserve_order_ok

confirm_order-reserve_for_order_example :
    (w : World (Rows memory) Event) × (confirm_order memory order reserved_shop ≡ (ok tt, w))
    × ((j : ℕ)
        → listing_at memory j w
          ≡ Option.map
              (λ l. restock l (l.quantity -ℤ ordered j order.items) l.reserved)
              (listing_at memory j shop))
confirm_order-reserve_for_order_example =
    confirm_order-reserve_for_order memory order shop reserved_shop order-Ordered shop-stocked
      reserve_order_ok

abbrev held_shop : World (Rows memory) Event
held_shop = (reserve_inventory memory true 1 40 (pos 6) shop).1

hold_ok :
    reserve_inventory memory true 1 40 (pos 6) shop
    ≡ (ok (record lamp_product { reserved = pos 8; available = pos 2 }), held_shop)
unfolding reserve_inventory reserve_work ◌+ℤ◌ ◌-ℤ◌
hold_ok = refl

-- A variant and a listing with the same key, of which four and ten are there.
abbrev small_lamp : ListingVariant
small_lamp = record {
  id = 1;
  listing_id = 1;
  price = pos 2000;
  currency = "USD";
  quantity = pos 4;
  reserved = pos 1;
  available = pos 3;
}

abbrev variant_shop : World (Rows memory) Event
variant_shop = record shop { rows = record (shop.rows) { variants = small_lamp ∷ [] } }
