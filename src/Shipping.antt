-- ===== src/Shipping.antt =====
-- src/shipping/shipping.service.ts: shipments of paid orders and their statuses, with the row of
-- src/shipping/entities/shipment.entity.ts. A response has the columns of the row. A date of a request
-- is a moment that is parsed already.
pub mod Lifecycle
pub mod Service
pub mod Creation
pub mod Delivery
pub mod Single
pub mod Tests
use market_x_backend.Common.{
  ℕ, Bool, false, not, Option, none, some, List, [], ◌∷◌, String, ◌==◌, if◌then◌else◌, is_some,
  first, ◌≡◌, arith,
}
use market_x_backend.Common.Int.{ℤ}
use market_x_backend.Common.Outcome.{
  Action, not_found, bad_request, pure, gets, or_throw, throw_if, modify, emit, when, ◌>>=◌, ◌>>◌,
}
use market_x_backend.Common.Database.{Database}
use market_x_backend.Status.{Enum, ◌===◌, includes}
use market_x_backend.Entities.{Order, OrderStatus, order_status_enum}
use market_x_backend.Rows.{order_key}

pub data ShippingCarrier : Type 0 where
  ups fedex dhl usps local : ShippingCarrier

abbrev pub carrier_rank : ShippingCarrier → ℕ
carrier_rank ups = 0
carrier_rank fedex = 1
carrier_rank dhl = 2
carrier_rank usps = 3
carrier_rank local = 4

pub data ShipmentStatus : Type 0 where
  label_created picked_up in_transit out_for_delivery delivered failed returned : ShipmentStatus

abbrev pub shipment_rank : ShipmentStatus → ℕ
shipment_rank label_created = 0
shipment_rank picked_up = 1
shipment_rank in_transit = 2
shipment_rank out_for_delivery = 3
shipment_rank delivered = 4
shipment_rank failed = 5
shipment_rank returned = 6

pub shipment_rank-injective : (a b : ShipmentStatus) → shipment_rank a ≡ shipment_rank b → a ≡ b
shipment_rank-injective a b h = ground arith

instance abbrev pub shipment_status_enum : Enum ShipmentStatus
shipment_status_enum = record { rank = shipment_rank; rank_injective = shipment_rank-injective }

pub record ShippingAddress : Type 0 where
  pub street : String
  pub city : String
  pub state : String
  pub postal_code : String
  pub country : String

pub record PackageDimensions : Type 0 where
  pub length : ℤ
  pub width : ℤ
  pub height : ℤ
  pub unit : Option String

pub record Shipment : Type 0 where
  pub id : ℕ
  pub order_id : ℕ
  pub carrier : ShippingCarrier
  pub tracking_number : String
  pub status : ShipmentStatus
  pub shipping_address : ShippingAddress
  pub weight : Option ℤ
  pub dimensions : Option PackageDimensions
  pub shipping_cost : Option ℤ
  pub estimated_delivery_date : Option ℕ
  pub actual_delivery_date : Option ℕ
  pub label_url : Option String
  pub notes : Option String

pub record CreateShipmentDto : Type 0 where
  pub order_id : ℕ
  pub carrier : ShippingCarrier
  pub tracking_number : String
  pub shipping_address : ShippingAddress
  pub weight : Option ℤ
  pub dimensions : Option PackageDimensions
  pub shipping_cost : Option ℤ
  pub estimated_delivery_date : Option ℕ
  pub label_url : Option String
  pub notes : Option String

pub record UpdateShipmentStatusDto : Type 0 where
  pub status : ShipmentStatus
  pub notes : Option String

pub data ShipmentEvent : Type 0 where
  shipment_created : ℕ → ℕ → String → ShippingCarrier → ShipmentEvent
  shipment_status_updated : ℕ → ℕ → ShipmentStatus → ShipmentStatus → ShipmentEvent

-- What the service computes with of `carrierDetails`: the days of a delivery.
pub record CarrierInfo : Type 0 where
  pub carrier : ShippingCarrier
  pub min_days : ℕ
  pub max_days : ℕ

abbrev pub carrier_details : List CarrierInfo
carrier_details =
    record { carrier = ups; min_days = 3; max_days = 7 }
    ∷ record { carrier = fedex; min_days = 2; max_days = 5 }
    ∷ record { carrier = dhl; min_days = 3; max_days = 10 }
    ∷ record { carrier = usps; min_days = 5; max_days = 14 }
    ∷ record { carrier = local; min_days = 1; max_days = 3 }
    ∷ []

-- `carrierDetails.find((c) => c.carrier === carrier)`
abbrev pub details_of : ShippingCarrier → List CarrierInfo → Option CarrierInfo
details_of carrier [] = none
details_of carrier (c ∷ cs) =
    if carrier_rank c.carrier == carrier_rank carrier then some c else details_of carrier cs

abbrev pub shipment_key : Shipment → ℕ
shipment_key s = s.id

pub record ShippingRows (db : Database) : Type 0 where
  pub shipments : db.Table Shipment shipment_key
  pub orders : db.Table Order order_key

abbrev pub ShippingCall : Database → Type 0 → Type 0
ShippingCall db A = Action (ShippingRows db) ShipmentEvent A
