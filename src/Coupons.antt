-- ===== src/Coupons.antt =====
-- src/coupons/entities: coupons and their usages, with the methods of the coupon entity. Amounts of
-- money are whole cents and the value of a discount is in hundredths of a percent or cents; a
-- discount is in ten-thousandths of a cent, in which a percentage of an amount is exact. A code is
-- the list of its characters' codes. Moments are numbers.
pub mod Requests
pub mod Service
pub mod Rules
pub mod Discounts
pub mod Responses
pub mod Usages
pub mod Tests
use market_x_backend.Common.{
  ℕ, ◌-◌, Bool, true, false, not, ◌&&◌, Option, none, some, List, [], ◌∷◌, ltb, leb, ◌==◌,
  if◌then◌else◌,
}
use market_x_backend.Common.Int.{ℤ, pos, ◌*ℤ◌, ltb_ℤ, eqb_ℤ}

pub data DiscountType : Type 0 where
  percentage fixed_amount : DiscountType

pub data CouponStatus : Type 0 where
  active inactive expired depleted : CouponStatus

-- `c.status === CouponStatus.ACTIVE`
abbrev pub is_active : CouponStatus → Bool
is_active CouponStatus.active = true
is_active CouponStatus.inactive = false
is_active CouponStatus.expired = false
is_active CouponStatus.depleted = false

-- A list that is missing is an empty one: every reader treats them alike.
pub record CouponRestriction : Type 0 where
  pub product_ids : List ℕ
  pub category_ids : List ℕ
  pub excluded_product_ids : List ℕ
  pub excluded_category_ids : List ℕ
  pub minimum_order_amount : Option ℤ
  pub maximum_discount_amount : Option ℤ
  pub new_customers_only : Bool
  pub first_order_only : Bool

pub record Coupon : Type 0 where
  pub id : ℕ
  pub code : List ℕ
  pub name : List ℕ
  pub discount_type : DiscountType
  pub discount_value : ℤ
  pub status : CouponStatus
  pub start_date : Option ℕ
  pub end_date : Option ℕ
  pub total_usage_limit : ℕ
  pub per_user_limit : ℕ
  pub current_usage_count : ℕ
  pub restrictions : Option CouponRestriction
  pub deleted_at : Option ℕ

pub record CouponUsage : Type 0 where
  pub id : ℕ
  pub coupon_id : ℕ
  pub user_id : ℕ
  pub order_id : ℕ
  pub order_amount : ℤ
  pub discount_amount : ℤ
  pub currency : List ℕ
  pub used_at : ℕ

-- `start && now < start` and `end && now > end`
abbrev pub not_yet : ℕ → Option ℕ → Bool
not_yet now none = false
not_yet now (some start) = ltb now start

abbrev pub over : ℕ → Option ℕ → Bool
over now none = false
over now (some end) = ltb end now

unfoldable pub is_depleted : Coupon → Bool
is_depleted c = ltb 0 c.total_usage_limit && leb c.total_usage_limit c.current_usage_count

unfoldable pub is_expired : ℕ → Coupon → Bool
is_expired now c = over now c.end_date

-- `isValid`, with its returns in the order of the code.
unfoldable pub is_valid_coupon : ℕ → Coupon → Bool
is_valid_coupon now c =
    if not (is_active c.status)
    then false
    else if not_yet now c.start_date
    then false
    else if over now c.end_date
    then false
    else if ltb 0 c.total_usage_limit && leb c.total_usage_limit c.current_usage_count
    then false
    else true

-- `Math.min`
abbrev pub min_ℤ : ℤ → ℤ → ℤ
min_ℤ a b = if ltb_ℤ b a then b else a

-- The ten-thousandths of a cent in an amount of cents.
abbrev pub fine : ℤ → ℤ
fine cents = cents *ℤ pos 10000

-- `restrictions?.maximumDiscountAmount && discount > restrictions.maximumDiscountAmount`; an amount
-- of zero is no amount.
abbrev pub capped : ℤ → Option ℤ → ℤ
capped discount none = discount
capped discount (some cap) =
    if not (eqb_ℤ cap (pos 0)) && ltb_ℤ (fine cap) discount then fine cap else discount

abbrev pub cap_of : Option CouponRestriction → Option ℤ
cap_of none = none
cap_of (some r) = r.maximum_discount_amount

abbrev pub uncapped : DiscountType → ℤ → ℤ → ℤ
uncapped DiscountType.percentage value order_amount = order_amount *ℤ value
uncapped DiscountType.fixed_amount value order_amount = fine value

unfoldable pub calculate_discount : Coupon → ℤ → ℤ
calculate_discount c order_amount =
    let discount = uncapped c.discount_type c.discount_value order_amount in
    min_ℤ (capped discount (cap_of c.restrictions)) (fine order_amount)
