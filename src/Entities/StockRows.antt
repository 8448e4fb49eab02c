-- ===== src/Entities/StockRows.antt =====
-- src/listing/entities/listing.entity.ts, src/listing/entities/listing-variant.entity.ts,
-- src/entities/product.entity.ts and src/inventory/inventory-history.entity.ts.
use market_x_backend.Common.{ℕ, String, Option}
use market_x_backend.Common.Int.{ℤ}

pub record Listing : Type 0 where
  pub id : ℕ
  pub title : String
  pub price : ℤ
  pub currency : String
  pub quantity : ℤ
  pub reserved : ℤ
  pub available : ℤ

pub record ListingVariant : Type 0 where
  pub id : ℕ
  pub listing_id : ℕ
  pub price : ℤ
  pub currency : String
  pub quantity : ℤ
  pub reserved : ℤ
  pub available : ℤ

pub record Product : Type 0 where
  pub id : ℕ
  pub title : String
  pub quantity : ℤ
  pub reserved : ℤ
  pub available : ℤ

pub data InventoryChangeType : Type 0 where
  purchase adjustment reservation release bulk_update cancellation refund : InventoryChangeType

-- The notes that the service writes; `given` is a caller's.
pub data Note : Type 0 where
  given : Option String → Note
  reserved_for_order order_confirmed order_cancelled order_refunded : ℕ → Note
  reserved_for_checkout reservation_released unnoted : Note

pub record InventoryHistory : Type 0 where
  pub id : ℕ
  pub listing_id : ℕ
  pub user_id : ℕ
  pub change : ℤ
  pub type : InventoryChangeType
  pub note : Note
