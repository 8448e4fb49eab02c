-- ===== src/Samples.antt =====
-- A small shop in memory, on which the tests and the examples run.
use market_x_backend.Common.{ℕ, false, none, some, [], ◌∷◌}
use market_x_backend.Common.Int.{pos}
use market_x_backend.Common.Outcome.{World}
use market_x_backend.Common.Memory.{memory}
use market_x_backend.Entities.{
  Listing, ListingVariant, Product, Order, OrderItem, OrderStatus, PaymentStatus, SupportedCurrency,
  EscrowEntity, EscrowStatus, Dispute, DisputeStatus,
}
use market_x_backend.Events.{Event}
use market_x_backend.Rows.{Rows}

abbrev pub lamp : Listing
lamp = record {
  id = 1;
  title = "lamp";
  price = pos 2500;
  currency = "USD";
  quantity = pos 10;
  reserved = pos 2;
  available = pos 8;
}

abbrev pub desk : Listing
desk = record {
  id = 2;
  title = "desk";
  price = pos 9900;
  currency = "USD";
  quantity = pos 3;
  reserved = pos 0;
  available = pos 3;
}

abbrev pub small_desk : ListingVariant
small_desk = record {
  id = 21;
  listing_id = 2;
  price = pos 8900;
  currency = "USD";
  quantity = pos 2;
  reserved = pos 0;
  available = pos 2;
}

abbrev pub large_desk : ListingVariant
large_desk = record {
  id = 22;
  listing_id = 2;
  price = pos 9900;
  currency = "USD";
  quantity = pos 1;
  reserved = pos 0;
  available = pos 1;
}

abbrev pub lamp_product : Product
lamp_product = record {
  id = 1;
  title = "lamp";
  quantity = pos 10;
  reserved = pos 2;
  available = pos 8;
}

abbrev pub item : ℕ → ℕ → OrderItem
item product_id quantity = record {
  product_id = product_id;
  product_name = "item";
  quantity = pos quantity;
  price = pos 2500;
  subtotal = pos 5000;
  price_currency = SupportedCurrency.usd;
}

-- Two lamps, a desk and another lamp.
abbrev pub order : Order
order = record {
  id = 7;
  buyer_id = 40;
  seller_id = some 41;
  total_amount = pos 17400;
  currency = SupportedCurrency.usd;
  status = OrderStatus.processing;
  payment_status = PaymentStatus.unpaid;
  items = item 1 2 ∷ item 2 1 ∷ item 1 1 ∷ [];
  escrow_type = none;
  milestones = none;
  released_amount = pos 0;
  remaining_amount = pos 17400;
  shipping_address = none;
  tracking_number = none;
  confirmed_at = none;
  shipped_at = none;
  delivered_at = none;
  cancelled_at = none;
}

abbrev pub escrow : EscrowEntity
escrow = record {
  id = 5;
  order_id = 7;
  buyer_public_key = 100;
  seller_public_key = 101;
  amount = pos 17400;
  released_amount = pos 0;
  refunded_amount = pos 0;
  escrow_account_public_key = 102;
  lock_transaction_hash = some 900;
  release_transaction_hash = none;
  refund_transaction_hash = none;
  status = EscrowStatus.locked;
  delivery_confirmed_at = none;
  cancelled_at = none;
  error_message = none;
  dispute_flag = false;
}

abbrev pub dispute : Dispute
dispute = record {
  id = 3;
  transaction_id = 900;
  complainant_id = 40;
  respondent_id = 41;
  reason = "late";
  status = DisputeStatus.open_dispute;
  created_at = 0;
  escrow_id = some 5;
  description = none;
  image_urls = none;
}

abbrev pub shop : World (Rows memory) Event
shop = record {
  rows = record {
    listings = lamp ∷ desk ∷ [];
    variants = small_desk ∷ large_desk ∷ [];
    products = lamp_product ∷ [];
    history = [];
    orders = order ∷ [];
    escrows = escrow ∷ [];
    disputes = dispute ∷ [];
    evidences = [];
  };
  emitted = [];
}
