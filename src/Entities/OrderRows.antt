-- ===== src/Entities/OrderRows.antt =====
-- src/entities/order.entity.ts, with `PaymentStatus` of src/payments/dto/payment.dto.ts.
use market_x_backend.Common.{ℕ, String, Bool, Option, List, ◌≡◌, arith}
use market_x_backend.Common.Int.{ℤ}
use market_x_backend.Status.{Enum}

pub data OrderStatus : Type 0 where
  pending confirmed processing paid shipped delivered completed cancelled refunded manual_review :
      OrderStatus

abbrev pub order_rank : OrderStatus → ℕ
order_rank pending = 0
order_rank confirmed = 1
order_rank processing = 2
order_rank paid = 3
order_rank shipped = 4
order_rank delivered = 5
order_rank completed = 6
order_rank cancelled = 7
order_rank refunded = 8
order_rank manual_review = 9

pub order_rank-injective : (a b : OrderStatus) → order_rank a ≡ order_rank b → a ≡ b
order_rank-injective a b h = ground arith

instance abbrev pub order_status_enum : Enum OrderStatus
order_status_enum = record { rank = order_rank; rank_injective = order_rank-injective }

pub data PaymentStatus : Type 0 where
  unpaid pending paid confirmed failed timeout refunded : PaymentStatus

pub data SupportedCurrency : Type 0 where
  xlm usdc usd : SupportedCurrency

pub data EscrowType : Type 0 where
  standard milestone : EscrowType

pub record OrderItem : Type 0 where
  pub product_id : ℕ
  pub product_name : String
  pub quantity : ℤ
  pub price : ℤ
  pub subtotal : ℤ
  pub price_currency : SupportedCurrency

pub record OrderMilestone : Type 0 where
  pub title : String
  pub description : String
  pub amount : ℤ
  pub percentage : ℤ
  pub type : String
  pub trigger : String
  pub auto_release : Bool
  pub sort_order : ℤ

pub record Order : Type 0 where
  pub id : ℕ
  pub buyer_id : ℕ
  pub seller_id : Option ℕ
  pub total_amount : ℤ
  pub currency : SupportedCurrency
  pub status : OrderStatus
  pub payment_status : PaymentStatus
  pub items : List OrderItem
  pub escrow_type : Option EscrowType
  pub milestones : Option (List OrderMilestone)
  pub released_amount : ℤ
  pub remaining_amount : ℤ
  pub shipping_address : Option String
  pub tracking_number : Option String
  pub confirmed_at : Option ℕ
  pub shipped_at : Option ℕ
  pub delivered_at : Option ℕ
  pub cancelled_at : Option ℕ
