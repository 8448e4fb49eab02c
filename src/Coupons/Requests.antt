-- ===== src/Coupons/Requests.antt =====
-- src/coupons/dto and what src/coupons/coupons.service.ts computes of the rows and requests alone.
use market_x_backend.Common.{
  ℕ, ◌-◌, Bool, true, false, not, ◌&&◌, ◌||◌, Option, none, some, List, [], ◌∷◌, ◌++◌, String, ltb,
  leb, ◌==◌, if◌then◌else◌, is_some, from_option,
}
use market_x_backend.Common.Int.{ℤ, pos, ltb_ℤ, eqb_ℤ}
use market_x_backend.Common.Outcome.{Action}
use market_x_backend.Common.Database.{Database}
use market_x_backend.Common.Counts.{sum}
use market_x_backend.Events.{Event}
use market_x_backend.Coupons.{
  Coupon, CouponUsage, CouponRestriction, CouponStatus, DiscountType, active,
}

abbrev pub coupon_key : Coupon → ℕ
coupon_key c = c.id

abbrev pub usage_key : CouponUsage → ℕ
usage_key u = u.id

pub record CouponRows (db : Database) : Type 0 where
  pub coupons : db.Table Coupon coupon_key
  pub usages : db.Table CouponUsage usage_key

abbrev pub CouponCall : Database → Type 0 → Type 0
CouponCall db A = Action (CouponRows db) Event A

pub record CreateCouponDto : Type 0 where
  pub code : List ℕ
  pub name : List ℕ
  pub discount_type : DiscountType
  pub discount_value : ℤ
  pub status : Option CouponStatus
  pub start_date : Option ℕ
  pub end_date : Option ℕ
  pub total_usage_limit : Option ℕ
  pub per_user_limit : Option ℕ
  pub restrictions : Option CouponRestriction

pub record UpdateCouponDto : Type 0 where
  pub name : Option (List ℕ)
  pub status : Option CouponStatus
  pub start_date : Option ℕ
  pub end_date : Option ℕ
  pub total_usage_limit : Option ℕ
  pub per_user_limit : Option ℕ
  pub restrictions : Option CouponRestriction

pub record OrderItemForCouponDto : Type 0 where
  pub product_id : ℕ
  pub category_id : Option ℕ
  pub quantity : ℤ
  pub price : ℤ
  pub subtotal : ℤ

pub record ApplyCouponDto : Type 0 where
  pub code : List ℕ
  pub user_id : ℕ
  pub items : List OrderItemForCouponDto
  pub subtotal : Option ℤ

pub record CouponValidationResult : Type 0 where
  pub valid : Bool
  pub message : Option String
  pub discount_amount : Option ℤ
  pub applicable_items : Option (List OrderItemForCouponDto)

pub record ApplyCouponResponseDto : Type 0 where
  pub valid : Bool
  pub coupon_id : Option ℕ
  pub code : Option (List ℕ)
  pub discount_amount : Option ℤ
  pub new_total : Option ℤ
  pub message : Option String
  pub applied_restrictions : Option (List String)

-- `toUpperCase`, of the letters of ASCII.
abbrev pub upper_code : ℕ → ℕ
upper_code c = if leb 97 c && leb c 122 then c - 32 else c

unfoldable pub to_upper_case : List ℕ → List ℕ
to_upper_case [] = []
to_upper_case (c ∷ cs) = upper_code c ∷ to_upper_case cs

abbrev pub same_text : List ℕ → List ℕ → Bool
same_text [] [] = true
same_text [] (d ∷ ds) = false
same_text (c ∷ cs) [] = false
same_text (c ∷ cs) (d ∷ ds) = c == d && same_text cs ds

-- `ids.includes(id)` and `id && ids.includes(id)`
abbrev pub includes_id : ℕ → List ℕ → Bool
includes_id id [] = false
includes_id id (i ∷ ids) = i == id || includes_id id ids

abbrev pub includes_some : Option ℕ → List ℕ → Bool
includes_some none ids = false
includes_some (some id) ids = includes_id id ids

-- `ids?.length`, as a condition
abbrev pub has_any : List ℕ → Bool
has_any [] = false
has_any (i ∷ ids) = true

-- The test of `getApplicableItems`.
abbrev pub item_allowed : CouponRestriction → OrderItemForCouponDto → Bool
item_allowed r item =
    if has_any r.excluded_product_ids && includes_id item.product_id r.excluded_product_ids
    then false
    else if has_any r.excluded_category_ids
        && includes_some item.category_id r.excluded_category_ids
    then false
    else if has_any r.product_ids && not (includes_id item.product_id r.product_ids)
    then false
    else if has_any r.category_ids && not (includes_some item.category_id r.category_ids)
    then false
    else true

abbrev pub items_allowed :
    CouponRestriction → List OrderItemForCouponDto → List OrderItemForCouponDto
items_allowed r [] = []
items_allowed r (item ∷ items) =
    let rest = items_allowed r items in if item_allowed r item then item ∷ rest else rest

abbrev pub applicable :
    Option CouponRestriction → List OrderItemForCouponDto → List OrderItemForCouponDto
applicable none items = items
applicable (some r) items = items_allowed r items

unfoldable pub get_applicable_items :
    Coupon → List OrderItemForCouponDto → List OrderItemForCouponDto
get_applicable_items c items = applicable c.restrictions items

unfoldable pub calculate_subtotal : List OrderItemForCouponDto → ℤ
calculate_subtotal items = sum (λ item. item.subtotal) items

-- `subtotal || this.calculateSubtotal(items)`: a subtotal of zero is none.
unfoldable pub order_subtotal : Option ℤ → List OrderItemForCouponDto → ℤ
unfolding calculate_subtotal
order_subtotal none items = calculate_subtotal items
order_subtotal (some n) items = if eqb_ℤ n (pos 0) then calculate_subtotal items else n

-- `minimum && subtotal < minimum`
abbrev pub below : ℤ → Option ℤ → Bool
below n none = false
below n (some minimum) = not (eqb_ℤ minimum (pos 0)) && ltb_ℤ n minimum

abbrev pub minimum_of : Option CouponRestriction → Option ℤ
minimum_of none = none
minimum_of (some r) = r.minimum_order_amount

abbrev pub truthy : Option ℤ → Bool
truthy none = false
truthy (some n) = not (eqb_ℤ n (pos 0))

abbrev pub listed : Bool → String → List String
listed c text = if c then text ∷ [] else []

unfoldable pub get_applied_restrictions : Option CouponRestriction → List String
get_applied_restrictions none = []
get_applied_restrictions (some r) =
    listed (truthy r.minimum_order_amount) "Minimum order amount"
    ++ listed (truthy r.maximum_discount_amount) "Maximum discount"
    ++ listed (has_any r.product_ids) "Valid for specific products only"
    ++ listed (has_any r.category_ids) "Valid for specific categories only"
    ++ listed r.new_customers_only "New customers only"
    ++ listed r.first_order_only "First order only"

abbrev pub invalid : String → CouponValidationResult
invalid message = record {
  valid = false;
  message = some message;
  discount_amount = none;
  applicable_items = none;
}

-- Both dates are given and the first is after the second.
abbrev pub dates_reversed : Option ℕ → Option ℕ → Bool
dates_reversed none end = false
dates_reversed (some start) none = false
dates_reversed (some start) (some end) = ltb end start

abbrev pub is_percentage : DiscountType → Bool
is_percentage DiscountType.percentage = true
is_percentage DiscountType.fixed_amount = false

abbrev pub new_coupon : ℕ → CreateCouponDto → Coupon
new_coupon id dto = record {
  id = id;
  code = to_upper_case dto.code;
  name = dto.name;
  discount_type = dto.discount_type;
  discount_value = dto.discount_value;
  status = from_option active dto.status;
  start_date = dto.start_date;
  end_date = dto.end_date;
  total_usage_limit = from_option 0 dto.total_usage_limit;
  per_user_limit = from_option 0 dto.per_user_limit;
  current_usage_count = 0;
  restrictions = dto.restrictions;
  deleted_at = none;
}

abbrev pub kept : {A : Type 0} → Option A → Option A → Option A
kept old none = old
kept old (some new) = some new

-- `Object.assign(coupon, updateCouponDto)`
abbrev pub assigned : Coupon → UpdateCouponDto → Coupon
assigned c dto = record c {
  name = from_option c.name dto.name;
  status = from_option c.status dto.status;
  start_date = kept c.start_date dto.start_date;
  end_date = kept c.end_date dto.end_date;
  total_usage_limit = from_option c.total_usage_limit dto.total_usage_limit;
  per_user_limit = from_option c.per_user_limit dto.per_user_limit;
  restrictions = kept c.restrictions dto.restrictions;
}

abbrev pub rejected : Option String → ApplyCouponResponseDto
rejected message = record {
  valid = false;
  coupon_id = none;
  code = none;
  discount_amount = none;
  new_total = none;
  message = message;
  applied_restrictions = none;
}

abbrev pub new_usage : ℕ → ℕ → ℕ → ℕ → ℕ → ℤ → ℤ → List ℕ → CouponUsage
new_usage id now coupon_id order_id user_id order_amount discount_amount currency = record {
  id = id;
  coupon_id = coupon_id;
  user_id = user_id;
  order_id = order_id;
  order_amount = order_amount;
  discount_amount = discount_amount;
  currency = currency;
  used_at = now;
}

-- A row that is deleted softly is not found.
abbrev pub live : Option Coupon → Option Coupon
live none = none
live (some c) = if is_some c.deleted_at then none else some c
