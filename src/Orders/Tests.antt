-- ===== src/Orders/Tests.antt =====
-- The orders service on the sample shop, with a catalogue that has the lamp.
use mathlib.Core.Option
use market_x_backend.Common.{
  ℕ, ◌≤◌, true, none, some, List, [], ◌∷◌, ◌++◌, ◌≡◌, refl, arith, if◌then◌else◌, ◌==◌,
}
use market_x_backend.Common.Int.{pos, ◌+ℤ◌, ◌-ℤ◌, ◌*ℤ◌}
use market_x_backend.Common.Outcome.{ok, World, for_each}
use market_x_backend.Common.Memory.{memory}
use market_x_backend.Status.{is_valid, validate}
use market_x_backend.Status.Laws.{Accepts}
use market_x_backend.Entities.{
  Order, OrderStatus, order_status_enum, SupportedCurrency, PaymentStatus,
}
use market_x_backend.Events.{Event}
use market_x_backend.Rows.{Rows}
use market_x_backend.Samples.{shop, order, item}
use market_x_backend.Inventory.OrderStock
use market_x_backend.Inventory.OrderStock.{confirm_item}
use market_x_backend.Inventory.ProductStock.{
  reserve_inventory, reserve_work, release_inventory, release_work,
}
use market_x_backend.Inventory.ProductLaws.{product_at}
use market_x_backend.Inventory.Stocked.{ProductsStocked}
use market_x_backend.Orders.Lifecycle.{
  order_can_complete, order_transitions, order_life_ends, order_transition_validator,
}
use market_x_backend.Orders.Service.{
  Catalogue, CreateOrderDto, total_amount, milestones_exceed, build_items, reserve_ordered,
  release_ordered, place, create_work, create, cancel_work, cancel_order, order_at, find_one,
  apply_status, update_status,
}
use market_x_backend.Orders.Cancellation.{called_off, cancel_order-create}
use market_x_backend.Orders.Updates.{updated, update_status_exact}

abbrev lamps_only : Catalogue
lamps_only = record {
  find_one = λ id currency.
      if id == 1
      then ok (some (record { name = "lamp"; price = pos 2500; currency = SupportedCurrency.usd }))
      else ok none;
}

-- Two lamps and another.
abbrev three_lamps : CreateOrderDto
three_lamps = record {
  items =
      record { product_id = 1; quantity = pos 2 }
      ∷ record { product_id = 1; quantity = pos 1 }
      ∷ [];
  buyer_id = 40;
  shipping_address = none;
  payment_currency = none;
  milestones = none;
  escrow_type = none;
}

abbrev placed_shop : World (Rows memory) Event
placed_shop = (create memory lamps_only three_lamps shop).1

abbrev placed_order : Order
placed_order = record {
  id = 8;
  buyer_id = 40;
  seller_id = none;
  total_amount = pos 7500;
  currency = SupportedCurrency.usd;
  status = OrderStatus.pending;
  payment_status = PaymentStatus.unpaid;
  items =
      record {
        product_id = 1;
        product_name = "lamp";
        quantity = pos 2;
        price = pos 2500;
        subtotal = pos 5000;
        price_currency = SupportedCurrency.usd;
      }
      ∷ record {
        product_id = 1;
        product_name = "lamp";
        quantity = pos 1;
        price = pos 2500;
        subtotal = pos 2500;
        price_currency = SupportedCurrency.usd;
      }
      ∷ [];
  escrow_type = none;
  milestones = none;
  released_amount = pos 0;
  remaining_amount = pos 7500;
  shipping_address = none;
  tracking_number = none;
  confirmed_at = none;
  shipped_at = none;
  delivered_at = none;
  cancelled_at = none;
}

create_ok : create memory lamps_only three_lamps shop ≡ (ok placed_order, placed_shop)
unfolding create create_work build_items total_amount milestones_exceed place reserve_ordered
    reserve_inventory reserve_work for_each ◌+ℤ◌ ◌-ℤ◌ ◌*ℤ◌
create_ok = refl

products-stocked : ProductsStocked memory shop.rows
unfolding ◌-ℤ◌
products-stocked k p e = ground arith

order_life_ends_example : 4 ≤ 8
unfolding is_valid order_transitions
order_life_ends_example =
    order_life_ends OrderStatus.pending
      (OrderStatus.confirmed ∷ OrderStatus.processing ∷ OrderStatus.paid ∷ OrderStatus.shipped ∷ [])
      (refl, (refl, (refl, (refl, tt))))

cancel_order-create_example :
    (w2 : World (Rows memory) Event) × (cancel_order memory 99 8 40 placed_shop
      ≡ (ok (called_off 99 placed_order), w2))
    × ((j : ℕ) → product_at memory j w2 ≡ product_at memory j shop)
cancel_order-create_example =
    cancel_order-create memory lamps_only three_lamps 99 shop placed_shop placed_order
      (omega arith, (omega arith, tt)) products-stocked create_ok

-- An order of two lamps, as it is and as it was delivered.
abbrev two_lamps : Order
two_lamps = record order { items = item 1 2 ∷ [] }

abbrev lamp_shop : World (Rows memory) Event
lamp_shop = record { rows = record (shop.rows) { orders = two_lamps ∷ [] }; emitted = [] }

abbrev delivered_lamps : Order
delivered_lamps = record two_lamps { status = OrderStatus.delivered }

abbrev delivered_shop : World (Rows memory) Event
delivered_shop = record {
  rows = record (shop.rows) { orders = delivered_lamps ∷ [] };
  emitted = [];
}

lamp_products-stocked : ProductsStocked memory lamp_shop.rows
lamp_products-stocked = products-stocked

cancel_ok :
    cancel_order memory 99 7 40 lamp_shop
    ≡ (ok (called_off 99 two_lamps), (cancel_order memory 99 7 40 lamp_shop).1)
unfolding cancel_order cancel_work release_ordered release_inventory release_work for_each ◌+ℤ◌ ◌-ℤ◌
cancel_ok = refl

pay_ok : update_status memory 50 7 OrderStatus.paid shop ≡ (
  ok (updated memory 50 order OrderStatus.paid),
  (update_status memory 50 7 OrderStatus.paid shop).1,
)
unfolding update_status find_one validate order_transitions apply_status OrderStock.confirm_order
    confirm_item for_each ◌+ℤ◌ ◌-ℤ◌
pay_ok = refl

update_status_exact_example :
    let w' = (update_status memory 50 7 OrderStatus.paid shop).1 in
    let o' = updated memory 50 order OrderStatus.paid in
    (is_valid order_transition_validator OrderStatus.processing OrderStatus.paid ≡ true)
    × (o' ≡ o')
    × ((j : ℕ) → order_at memory j w' ≡ (if 7 == j then some o' else order_at memory j shop))
    × (w'.rows.products ≡ shop.rows.products)
update_status_exact_example =
    update_status_exact memory 50 7 OrderStatus.paid shop
      (update_status memory 50 7 OrderStatus.paid shop).1 order
      (updated memory 50 order OrderStatus.paid) refl pay_ok

order_can_complete_example :
    (ts : List OrderStatus) × Accepts order_transition_validator OrderStatus.processing
      (ts ++ OrderStatus.completed ∷ [])
order_can_complete_example = order_can_complete OrderStatus.processing (omega arith)
