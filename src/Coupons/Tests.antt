-- ===== src/Coupons/Tests.antt =====
-- Coupons in memory.
use market_x_backend.Common.{ℕ, true, false, none, some, List, [], ◌∷◌, ◌≡◌, refl, arith}
use market_x_backend.Common.Int.{pos, ◌-ℤ◌, ◌*ℤ◌, ◌+ℤ◌}
use market_x_backend.Common.Outcome.{World, ok, err, conflict}
use market_x_backend.Common.Memory.{memory}
use market_x_backend.Common.Runs.{Steps}
use market_x_backend.Events.{Event}
use market_x_backend.Coupons.{
  Coupon, CouponRestriction, CouponStatus, DiscountType, calculate_discount,
}
use market_x_backend.Coupons.Requests.{
  CouponRows, CreateCouponDto, ApplyCouponDto, OrderItemForCouponDto, to_upper_case,
  get_applied_restrictions,
}
use market_x_backend.Coupons.Service.{
  create, validate_coupon, validate_and_apply_coupon, apply_coupon_to_order,
}
use market_x_backend.Coupons.Rules.{Accepts, validate_coupon_iff}
use market_x_backend.Coupons.Usages.{Counted, CouponStep, coupon_calls-Counted}

-- Not on product 9, and at most 15 off.
abbrev not_nine : CouponRestriction
not_nine = record {
  product_ids = [];
  category_ids = [];
  excluded_product_ids = 9 ∷ [];
  excluded_category_ids = [];
  minimum_order_amount = some (pos 1000);
  maximum_discount_amount = some (pos 1500);
  new_customers_only = false;
  first_order_only = true;
}

-- "SUN": a fifth off, once.
abbrev sun : Coupon
sun = record {
  id = 0;
  code = 83 ∷ 85 ∷ 78 ∷ [];
  name = [];
  discount_type = DiscountType.percentage;
  discount_value = pos 2000;
  status = CouponStatus.active;
  start_date = some 100;
  end_date = some 200;
  total_usage_limit = 1;
  per_user_limit = 2;
  current_usage_count = 0;
  restrictions = some not_nine;
  deleted_at = none;
}

abbrev new_sun : CreateCouponDto
new_sun = record {
  code = 115 ∷ 117 ∷ 110 ∷ [];
  name = [];
  discount_type = DiscountType.percentage;
  discount_value = pos 2000;
  status = none;
  start_date = some 100;
  end_date = some 200;
  total_usage_limit = some 1;
  per_user_limit = some 2;
  restrictions = some not_nine;
}

abbrev cart_item : ℕ → ℕ → OrderItemForCouponDto
cart_item product_id cents = record {
  product_id = product_id;
  category_id = none;
  quantity = pos 1;
  price = pos cents;
  subtotal = pos cents;
}

abbrev cart : List OrderItemForCouponDto
cart = cart_item 9 2000 ∷ cart_item 8 3000 ∷ []

abbrev empty_shop : World (CouponRows memory) Event
empty_shop = record { rows = record { coupons = []; usages = [] }; emitted = [] }

abbrev with_sun : World (CouponRows memory) Event
with_sun = record { rows = record { coupons = sun ∷ []; usages = [] }; emitted = [] }

abbrev request : ApplyCouponDto
request = record { code = 115 ∷ 85 ∷ 110 ∷ []; user_id = 40; items = cart; subtotal = some (pos 0) }

-- A fifth of 5000, not of the 3000 that it applies to.
sun_answer :
    (validate_and_apply_coupon memory 150 request with_sun).0
    ≡ ok (record {
      valid = true;
      coupon_id = some 0;
      code = some (83 ∷ 85 ∷ 78 ∷ []);
      discount_amount = some (pos 10000000);
      new_total = some (pos 40000000);
      message = none;
      applied_restrictions =
          some ("Minimum order amount" ∷ "Maximum discount" ∷ "First order only" ∷ []);
    })
unfolding validate_and_apply_coupon to_upper_case validate_coupon ◌+ℤ◌ calculate_discount ◌-ℤ◌
    get_applied_restrictions ◌*ℤ◌
sun_answer = refl

sun_created : create memory new_sun empty_shop ≡ (ok sun, with_sun)
unfolding create to_upper_case
sun_created = refl

sun_taken : (create memory new_sun with_sun).0 ≡ err (conflict "Coupon already exists")
unfolding create to_upper_case
sun_taken = refl

validate_coupon_iff_example :
    ((validate_coupon memory 150 sun 40 cart none with_sun.rows).valid ≡ true
      → Accepts memory 150 sun 40 cart none with_sun.rows)
    × (Accepts memory 150 sun 40 cart none with_sun.rows
        → (validate_coupon memory 150 sun 40 cart none with_sun.rows).valid ≡ true)
validate_coupon_iff_example = validate_coupon_iff memory 150 sun 40 cart none with_sun.rows

abbrev used_twice : World (CouponRows memory) Event
used_twice =
    (apply_coupon_to_order memory 150 0 8 40 (pos 5000) (pos 1000) []
      (apply_coupon_to_order memory 150 0 7 40 (pos 5000) (pos 1000) [] with_sun).1).1

two_uses : Steps (CouponStep memory) with_sun used_twice
unfolding apply_coupon_to_order
two_uses = Steps.step (CouponStep.applied 150 0 7 40 (pos 5000) (pos 1000) [] with_sun sun refl) (
    Steps.step
      (CouponStep.applied 150 0 8 40 (pos 5000) (pos 1000) []
        (apply_coupon_to_order memory 150 0 7 40 (pos 5000) (pos 1000) [] with_sun).1
        (record sun { current_usage_count = 1 }) refl)
      Steps.stop)

sun_unused : Counted memory with_sun
unfolding Counted
sun_unused k = ground arith

coupon_calls-Counted_example : Counted memory used_twice
coupon_calls-Counted_example = coupon_calls-Counted memory two_uses sun_unused
