-- ===== src/Orders/Service.antt =====
-- `OrdersService`: `create`, `cancelOrder`, `findOne` and `updateStatus`. The amounts of an order are
-- whole numbers of hundredths, as its columns hold them. The products' catalogue, which
-- `ProductsService` keeps in memory, is an interface: what it answers for a product and a currency.
use market_x_backend.Common.{
  ℕ, String, Bool, true, false, not, Option, none, some, List, [], ◌∷◌, length, ◌==◌, if◌then◌else◌,
  from_option,
}
use market_x_backend.Common.Int.{ℤ, pos, ◌+ℤ◌, ◌*ℤ◌, ltb_ℤ, leb_ℤ}
use market_x_backend.Common.Outcome.{
  not_found, bad_request, Outcome, World, pure, gets, modify, or_throw, throw_if, emit, when,
  for_each, ◌>>=◌, ◌>>◌,
}
use market_x_backend.Common.Database.{Database}
use market_x_backend.Status.{◌===◌, validate}
use market_x_backend.Entities.{
  Order, OrderItem, OrderMilestone, OrderStatus, order_status_enum, PaymentStatus,
  SupportedCurrency, EscrowType,
}
use market_x_backend.Events.{Event, order_updated, order_completed, massive_order}
use market_x_backend.Rows.{Rows, Call}
use market_x_backend.Inventory.OrderStock
use market_x_backend.Inventory.ProductStock.{reserve_inventory, release_inventory}
use market_x_backend.Orders.Lifecycle.{order_transition_validator}

pub record CreateOrderItemDto : Type 0 where
  pub product_id : ℕ
  pub quantity : ℤ

pub record CreateOrderMilestoneDto : Type 0 where
  pub title : String
  pub description : String
  pub amount : ℤ
  pub percentage : ℤ
  pub type : Option String
  pub trigger : Option String
  pub auto_release : Option Bool
  pub sort_order : Option ℤ

pub record CreateOrderDto : Type 0 where
  pub items : List CreateOrderItemDto
  pub buyer_id : ℕ
  pub shipping_address : Option String
  pub payment_currency : Option SupportedCurrency
  pub milestones : Option (List CreateOrderMilestoneDto)
  pub escrow_type : Option EscrowType

-- What an order reads of a product that the catalogue displays.
pub record CatalogueProduct : Type 0 where
  pub name : String
  pub price : ℤ
  pub currency : SupportedCurrency

-- `productsService.findOne(id, preferredCurrency)`
pub record Catalogue : Type 0 where
  pub find_one : ℕ → SupportedCurrency → Outcome (Option CatalogueProduct)

abbrev pub currency_eqb : SupportedCurrency → SupportedCurrency → Bool
currency_eqb SupportedCurrency.xlm SupportedCurrency.xlm = true
currency_eqb SupportedCurrency.usdc SupportedCurrency.usdc = true
currency_eqb SupportedCurrency.usd SupportedCurrency.usd = true
currency_eqb _ _ = false

-- `value || otherwise`, where an empty text counts as none.
abbrev pub or_text : Option String → String → String
or_text none otherwise = otherwise
or_text (some String.[]) otherwise = otherwise
or_text (some (String.◌∷◌ c s)) otherwise = String.◌∷◌ c s

-- `items.reduce((sum, item) => sum + item.subtotal, 0)`
unfoldable pub total_amount : ℤ → List OrderItem → ℤ
total_amount sum [] = sum
total_amount sum (item ∷ items) = total_amount (sum +ℤ item.subtotal) items

unfoldable pub milestone_amount : ℤ → List OrderMilestone → ℤ
milestone_amount sum [] = sum
milestone_amount sum (m ∷ ms) = milestone_amount (sum +ℤ m.amount) ms

abbrev pub new_milestone : CreateOrderMilestoneDto → OrderMilestone
new_milestone m = record {
  title = m.title;
  description = m.description;
  amount = m.amount;
  percentage = m.percentage;
  type = or_text m.type "standard";
  trigger = or_text m.trigger "manual";
  auto_release = from_option false m.auto_release;
  sort_order = from_option (pos 0) m.sort_order;
}

abbrev pub map_milestones : List CreateOrderMilestoneDto → List OrderMilestone
map_milestones [] = []
map_milestones (m ∷ ms) = new_milestone m ∷ map_milestones ms

abbrev pub order_milestones : Option (List CreateOrderMilestoneDto) → Option (List OrderMilestone)
order_milestones none = none
order_milestones (some ms) = some (map_milestones ms)

-- `totalMilestoneAmount && totalMilestoneAmount > totalAmount`; zero exceeds no positive amount.
unfoldable pub milestones_exceed : Option (List OrderMilestone) → ℤ → Bool
milestones_exceed none total = false
milestones_exceed (some ms) total = ltb_ℤ total (milestone_amount (pos 0) ms)

abbrev pub new_item : CreateOrderItemDto → CatalogueProduct → OrderItem
new_item dto p = record {
  product_id = dto.product_id;
  product_name = p.name;
  quantity = dto.quantity;
  price = p.price;
  subtotal = p.price *ℤ dto.quantity;
  price_currency = p.currency;
}

abbrev pub new_order : ℕ → CreateOrderDto → SupportedCurrency → List OrderItem → ℤ → Order
new_order id dto currency items total = record {
  id = id;
  buyer_id = dto.buyer_id;
  seller_id = none;
  total_amount = total;
  currency = currency;
  status = OrderStatus.pending;
  payment_status = PaymentStatus.unpaid;
  items = items;
  escrow_type = dto.escrow_type;
  milestones = order_milestones dto.milestones;
  released_amount = pos 0;
  remaining_amount = total;
  shipping_address = dto.shipping_address;
  tracking_number = none;
  confirmed_at = none;
  shipped_at = none;
  delivered_at = none;
  cancelled_at = none;
}

-- The time that the new status sets, where it is neither PAID nor CANCELLED.
abbrev pub stamped : ℕ → Order → OrderStatus → Order
stamped now o OrderStatus.shipped = record o { shipped_at = some now }
stamped now o OrderStatus.delivered = record o { delivered_at = some now }
stamped now o _ = o

module _ (db : Database) where
  abbrev pub save_order : Order → Call db (Unit {0})
  save_order o = modify (λ r. record r { orders = db.save o r.orders })

  abbrev pub order_at : ℕ → World (Rows db) Event → Option Order
  order_at k w = db.find_one k w.rows.orders

  -- What the catalogue answers, the caller returns or throws.
  abbrev pub answer : {A : Type 0} → Outcome A → Call db A
  answer r w = (r, w)

  unfoldable pub build_items :
      Catalogue → SupportedCurrency → List CreateOrderItemDto → Call db (List OrderItem)
  build_items catalogue currency [] = pure []
  build_items catalogue currency (dto ∷ dtos) = do
    found ← answer (catalogue.find_one dto.product_id currency)
    p ← or_throw found (not_found "Product not found")
    throw_if (not (currency_eqb p.currency currency))
        (bad_request "Product currency does not match order currency")
    items ← build_items catalogue currency dtos
    pure (new_item dto p ∷ items)

  -- The rounds of the loops over the items of an order, in the order's transaction.
  unfoldable pub reserve_ordered : ℕ → OrderItem → Call db (Unit {0})
  reserve_ordered buyer_id item = do
    reserve_inventory db true item.product_id buyer_id item.quantity
    pure tt

  unfoldable pub release_ordered : ℕ → OrderItem → Call db (Unit {0})
  release_ordered user_id item = do
    release_inventory db true item.product_id user_id item.quantity
    pure tt

  -- The order is saved under a new key, its stock is reserved, and an order over 5000 is reported.
  unfoldable pub place : Order → Call db Order
  place o = do
    save_order o
    for_each (reserve_ordered o.buyer_id) o.items
    when (ltb_ℤ (pos 500000) o.total_amount)
        (emit (massive_order o.id o.buyer_id o.total_amount (length o.items)))
    pure o

  unfoldable pub create_work : Catalogue → CreateOrderDto → Call db Order
  create_work catalogue dto = do
    let currency = from_option SupportedCurrency.usd dto.payment_currency
    items ← build_items catalogue currency dto.items
    let total = total_amount (pos 0) items
    throw_if (leb_ℤ total (pos 0)) (bad_request "Order total amount must be greater than zero")
    throw_if (milestones_exceed (order_milestones dto.milestones) total)
        (bad_request "Total milestone amount cannot exceed order total")
    id ← gets (λ r. db.next_key r.orders)
    place (new_order id dto currency items total)

  unfoldable pub create : Catalogue → CreateOrderDto → Call db Order
  create catalogue dto = db.transaction (create_work catalogue dto)

  -- `!order || order.buyerId !== userId`
  abbrev pub owned : ℕ → Option Order → Option Order
  owned user_id none = none
  owned user_id (some o) = if o.buyer_id == user_id then some o else none

  unfoldable pub cancel_work : ℕ → ℕ → ℕ → Call db Order
  cancel_work now id user_id = do
    found ← gets (λ r. db.find_one id r.orders)
    o ← or_throw (owned user_id found) (bad_request "Order not found or unauthorized")
    throw_if (o.status === OrderStatus.cancelled) (bad_request "Order is already cancelled")
    for_each (release_ordered user_id) o.items
    let o' = record o { status = OrderStatus.cancelled; cancelled_at = some now }
    save_order o'
    pure o'

  unfoldable pub cancel_order : ℕ → ℕ → ℕ → Call db Order
  cancel_order now id user_id = db.transaction (cancel_work now id user_id)

  unfoldable pub find_one : ℕ → Call db Order
  find_one id = do
    found ← gets (λ r. db.find_one id r.orders)
    or_throw found (not_found "Order not found")

  -- What `updateStatus` does for the new status: the stock, the payment and the times.
  unfoldable pub apply_status : ℕ → Order → OrderStatus → Call db Order
  apply_status now o OrderStatus.paid = do
    OrderStock.confirm_order db o
    pure (record o { payment_status = PaymentStatus.paid; confirmed_at = some now })
  apply_status now o OrderStatus.cancelled = do
    OrderStock.cancel_order db o
    pure (record o { cancelled_at = some now })
  apply_status now o status = pure (stamped now o status)

  unfoldable pub update_status : ℕ → ℕ → OrderStatus → Call db Order
  update_status now id status = do
    o ← find_one id
    validate order_transition_validator o.status status
    applied ← apply_status now o status
    let o' = record applied { status = status }
    save_order o'
    emit (order_updated o'.id o'.buyer_id o'.status o.status)
    when (status === OrderStatus.completed)
        (emit (order_completed o'.id o'.buyer_id o'.total_amount))
    pure o'
