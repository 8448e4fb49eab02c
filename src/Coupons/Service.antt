-- ===== src/Coupons/Service.antt =====
-- src/coupons/coupons.service.ts. Queries that only list rows in an order are left out.
use market_x_backend.Common.{
  ℕ, ◌+◌, Bool, true, not, ◌&&◌, Option, none, some, List, ltb, leb, ◌==◌, if◌then◌else◌, length,
  is_some, first,
}
use market_x_backend.Common.Int.{ℤ, pos, ◌-ℤ◌, ltb_ℤ}
use market_x_backend.Common.Outcome.{
  not_found, bad_request, conflict, pure, gets, or_throw, throw_if, modify, ◌>>=◌, ◌>>◌,
}
use market_x_backend.Common.Database.{Database}
use market_x_backend.Coupons.{
  Coupon, CouponUsage, is_active, not_yet, over, calculate_discount, fine,
}
use market_x_backend.Coupons.Requests.{
  CouponCall, to_upper_case, same_text, get_applicable_items, calculate_subtotal, order_subtotal,
  below, minimum_of, get_applied_restrictions, invalid, dates_reversed, is_percentage, new_coupon,
  assigned, rejected, new_usage, live, CouponRows, CreateCouponDto, UpdateCouponDto,
  OrderItemForCouponDto, ApplyCouponDto, CouponValidationResult, ApplyCouponResponseDto,
}

module _ (db : Database) where
  abbrev pub save_coupon : Coupon → CouponCall db (Unit {0})
  save_coupon c = modify (λ r. record r { coupons = db.save c r.coupons })

  abbrev pub with_code : List ℕ → CouponRows db → Option Coupon
  with_code code r =
      first (db.find (λ c. same_text c.code code && not (is_some c.deleted_at)) r.coupons)

  abbrev pub with_id : ℕ → CouponRows db → Option Coupon
  with_id id r = live (db.find_one id r.coupons)

  unfoldable pub create : CreateCouponDto → CouponCall db Coupon
  create dto = do
    existing ← gets (with_code (to_upper_case dto.code))
    throw_if (is_some existing) (conflict "Coupon already exists")
    throw_if (is_percentage dto.discount_type && ltb_ℤ (pos 10000) dto.discount_value)
        (bad_request "Percentage discount cannot exceed 100%")
    throw_if (dates_reversed dto.start_date dto.end_date)
        (bad_request "Start date cannot be after end date")
    id ← gets (λ r. db.next_key r.coupons)
    let c = new_coupon id dto
    save_coupon c
    pure c

  unfoldable pub find_one : ℕ → CouponCall db Coupon
  find_one id = do found ← gets (with_id id); or_throw found (not_found "Coupon not found")

  unfoldable pub find_by_code : List ℕ → CouponCall db Coupon
  find_by_code code = do
    found ← gets (with_code (to_upper_case code))
    or_throw found (not_found "Coupon not found")

  unfoldable pub update : ℕ → UpdateCouponDto → CouponCall db Coupon
  unfolding find_one
  update id dto = do
    c ← find_one id
    throw_if (dates_reversed dto.start_date dto.end_date)
        (bad_request "Start date cannot be after end date")
    let c' = assigned c dto
    save_coupon c'
    pure c'

  unfoldable pub remove : ℕ → ℕ → CouponCall db (Unit {0})
  unfolding find_one
  remove now id = do c ← find_one id; save_coupon (record c { deleted_at = some now })

  abbrev pub used_by : ℕ → ℕ → CouponUsage → Bool
  used_by coupon_id user_id u = u.coupon_id == coupon_id && u.user_id == user_id

  unfoldable pub get_user_coupon_usage_count : ℕ → ℕ → CouponRows db → ℕ
  get_user_coupon_usage_count coupon_id user_id r =
      length (db.find (used_by coupon_id user_id) r.usages)

  unfoldable pub validate_coupon :
      ℕ
      → Coupon
      → ℕ
      → List OrderItemForCouponDto
      → Option ℤ
      → CouponRows db
      → CouponValidationResult
  unfolding get_user_coupon_usage_count order_subtotal get_applicable_items calculate_subtotal
  validate_coupon now c user_id items subtotal r =
      if not (is_active c.status)
      then invalid "Coupon is not active"
      else if not_yet now c.start_date
      then invalid "Coupon is not yet valid"
      else if over now c.end_date
      then invalid "Coupon has expired"
      else if ltb 0 c.total_usage_limit && leb c.total_usage_limit c.current_usage_count
      then invalid "Coupon usage limit has been reached"
      else if ltb 0 c.per_user_limit
          && leb c.per_user_limit (get_user_coupon_usage_count c.id user_id r)
      then invalid "You have already used this coupon the maximum number of times"
      else if below (order_subtotal subtotal items) (minimum_of c.restrictions)
      then invalid "Minimum order amount required"
      else let applicable_items = get_applicable_items c items in
        if length applicable_items == 0
        then invalid "Coupon is not applicable to any items in your cart"
        else record {
          valid = true;
          message = none;
          discount_amount = some (calculate_discount c (calculate_subtotal applicable_items));
          applicable_items = some applicable_items;
        }

  -- What `validateAndApplyCoupon` answers for the coupon with the code and its validation.
  abbrev pub respond :
      Coupon
      → List OrderItemForCouponDto
      → Option ℤ
      → CouponValidationResult
      → ApplyCouponResponseDto
  respond c items subtotal result =
      if not result.valid
      then rejected result.message
      else let discount_amount = calculate_discount c (order_subtotal subtotal items) in
        record {
          valid = true;
          coupon_id = some c.id;
          code = some c.code;
          discount_amount = some discount_amount;
          new_total = some (fine (order_subtotal subtotal items) -ℤ discount_amount);
          message = none;
          applied_restrictions = some (get_applied_restrictions c.restrictions);
        }

  abbrev pub answer : ℕ → ApplyCouponDto → CouponRows db → Option Coupon → ApplyCouponResponseDto
  answer now dto r none = rejected (some "Invalid coupon code")
  answer now dto r (some c) =
      respond c dto.items dto.subtotal (validate_coupon now c dto.user_id dto.items dto.subtotal r)

  unfoldable pub validate_and_apply_coupon :
      ℕ → ApplyCouponDto → CouponCall db ApplyCouponResponseDto
  validate_and_apply_coupon now dto = do
    found ← gets (with_code (to_upper_case dto.code))
    gets (λ r. answer now dto r found)

  -- `increment({ id }, 'currentUsageCount', 1)`, which does nothing where there is no row.
  abbrev pub increment : Option Coupon → CouponCall db (Unit {0})
  increment none = pure tt
  increment (some c) = save_coupon (record c { current_usage_count = c.current_usage_count + 1 })

  unfoldable pub apply_coupon_to_order : ℕ → ℕ → ℕ → ℕ → ℤ → ℤ → List ℕ → CouponCall db (Unit {0})
  apply_coupon_to_order now coupon_id order_id user_id order_amount discount_amount currency = do
    id ← gets (λ r. db.next_key r.usages)
    let usage = new_usage id now coupon_id order_id user_id order_amount discount_amount currency
    modify (λ r. record r { usages = db.save usage r.usages })
    found ← gets (λ r. db.find_one coupon_id r.coupons)
    increment found
