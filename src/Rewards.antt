-- ===== src/Rewards.antt =====
-- src/rewards: the ledger of reward points, and what points buy: coupons and discounts. Points are
-- whole numbers, amounts whole cents, so that a point is a cent. A balance is a sum over a column,
-- which the database's driver answers as a text. Texts that are only carried are left
-- out.
pub mod Ledger
pub mod Redeeming
pub mod Checkout
pub mod Keeping
pub mod Tests
use market_x_backend.Common.{
  ℕ, ◌*◌, ◌/◌, Bool, true, false, not, ◌&&◌, Option, none, some, List, [], ltb, ◌==◌, if◌then◌else◌,
  is_some, from_option, ◌∷◌,
}
use market_x_backend.Common.Int.{ℤ, pos, negsuc, ◌+ℤ◌, ◌-ℤ◌, ltb_ℤ, leb_ℤ}
use market_x_backend.Common.Outcome.{
  World, Action, bad_request, pure, gets, throw_if, modify, ◌>>=◌, ◌>>◌, or_throw, type_error,
}
use market_x_backend.Common.Database.{Database}
use market_x_backend.Common.Counts.{sum}
use market_x_backend.Events.{Event}
use market_x_backend.Coupons.{Coupon, CouponRestriction, CouponStatus, DiscountType, min_ℤ}
use market_x_backend.Coupons.Requests.{coupon_key}
use market_x_backend.Common.Values.{Value, number, text, as_number, stored_sum, fits_int}

pub data PointsTransactionType : Type 0 where
  earned redeemed expired adjusted : PointsTransactionType

abbrev pub is_redeemed : Option PointsTransactionType → Bool
is_redeemed none = false
is_redeemed (some PointsTransactionType.earned) = false
is_redeemed (some PointsTransactionType.redeemed) = true
is_redeemed (some PointsTransactionType.expired) = false
is_redeemed (some PointsTransactionType.adjusted) = false

pub record RewardPoints : Type 0 where
  pub id : ℕ
  pub user_id : ℕ
  pub points : ℤ
  pub transaction_type : PointsTransactionType
  pub reference_id : Option ℕ
  pub balance_after : ℤ
  pub deleted_at : Option ℕ

pub record CreateRewardDto : Type 0 where
  pub user_id : ℕ
  pub points : ℤ
  pub transaction_type : Option PointsTransactionType
  pub reference_id : Option ℕ

pub record Redemption : Type 0 where
  pub coupon : Coupon
  pub points_used : ℤ
  pub remaining_balance : Value

pub record CheckoutDiscount : Type 0 where
  pub discount_amount : ℤ
  pub points_used : ℤ
  pub remaining_balance : Value

abbrev pub reward_key : RewardPoints → ℕ
reward_key r = r.id

pub record RewardRows (db : Database) : Type 0 where
  pub rewards : db.Table RewardPoints reward_key
  pub coupons : db.Table Coupon coupon_key

abbrev pub RewardCall : Database → Type 0 → Type 0
RewardCall db A = Action (RewardRows db) Event A

-- `Math.floor(totalAmount * POINTS_PER_DOLLAR)` of an amount in cents: ten points for a dollar.
abbrev pub points_earned : ℤ → ℤ
points_earned (pos cents) = pos (cents / 10)
points_earned (negsuc n) = negsuc (n / 10)

abbrev pub new_reward : ℕ → CreateRewardDto → ℤ → RewardPoints
new_reward id dto balance_after = record {
  id = id;
  user_id = dto.user_id;
  points = dto.points;
  transaction_type = from_option PointsTransactionType.earned dto.transaction_type;
  reference_id = dto.reference_id;
  balance_after = balance_after;
  deleted_at = none;
}

abbrev pub nothing_restricted : CouponRestriction
nothing_restricted = record {
  product_ids = [];
  category_ids = [];
  excluded_product_ids = [];
  excluded_category_ids = [];
  minimum_order_amount = some (pos 0);
  maximum_discount_amount = none;
  new_customers_only = false;
  first_order_only = false;
}

-- The coupon for some points: a hundred points are a dollar.
abbrev pub reward_coupon : ℕ → List ℕ → ℤ → Coupon
reward_coupon id code points = record {
  id = id;
  code = code;
  name = [];
  discount_type = DiscountType.fixed_amount;
  discount_value = points;
  status = CouponStatus.active;
  start_date = none;
  end_date = none;
  total_usage_limit = 1;
  per_user_limit = 1;
  current_usage_count = 0;
  restrictions = some nothing_restricted;
  deleted_at = none;
}

abbrev pub redeeming : ℕ → ℤ → Option ℕ → CreateRewardDto
redeeming user_id points reference_id = record {
  user_id = user_id;
  points = points;
  transaction_type = some PointsTransactionType.redeemed;
  reference_id = reference_id;
}

abbrev pub earning : ℕ → ℤ → ℕ → CreateRewardDto
earning user_id points order_id = record {
  user_id = user_id;
  points = points;
  transaction_type = some PointsTransactionType.earned;
  reference_id = some order_id;
}

abbrev pub adjusting : ℕ → ℤ → Option ℕ → CreateRewardDto
adjusting user_id points reference_id = record {
  user_id = user_id;
  points = points;
  transaction_type = some PointsTransactionType.adjusted;
  reference_id = reference_id;
}

abbrev pub counts_for : ℕ → RewardPoints → Bool
counts_for user_id r = r.user_id == user_id && not (is_some r.deleted_at)

module _ (db : Database) where
  -- `SUM(reward.points)` over the user's rows that are not deleted.
  abbrev pub balance_of : ℕ → RewardRows db → ℤ
  balance_of user_id rows = sum (λ r. r.points) (db.find (counts_for user_id) rows.rewards)

  -- `result?.total || 0`: a sum over some rows is a text; over no rows it is null.
  unfoldable pub total_of : List RewardPoints → Value
  total_of [] = number (pos 0)
  total_of (r ∷ rs) = text (sum (λ x. x.points) (r ∷ rs))

  unfoldable pub get_user_balance : ℕ → RewardCall db Value
  get_user_balance user_id = gets (λ rows. total_of (db.find (counts_for user_id) rows.rewards))

  unfoldable pub create_reward : CreateRewardDto → RewardCall db RewardPoints
  unfolding get_user_balance
  create_reward dto = do
    current_balance ← get_user_balance dto.user_id
    throw_if (is_redeemed dto.transaction_type && ltb_ℤ (as_number current_balance) dto.points)
        (bad_request "Insufficient reward points balance")
    balance_after ←
        or_throw (stored_sum current_balance dto.points) (type_error "balance_after is no integer")
    throw_if (not (fits_int dto.points)) (type_error "points out of range for type integer")
    id ← gets (λ rows. db.next_key rows.rewards)
    let r = new_reward id dto balance_after
    modify (λ rows. record rows { rewards = db.save r rows.rewards })
    pure r

  unfoldable pub grant_points_for_order : ℕ → ℕ → ℤ → RewardCall db RewardPoints
  grant_points_for_order user_id order_id total_amount = do
    throw_if (leb_ℤ (points_earned total_amount) (pos 0))
        (bad_request "Order amount must be greater than zero to earn points")
    create_reward (earning user_id (points_earned total_amount) order_id)

  unfoldable pub adjust_points : ℕ → ℤ → Option ℕ → RewardCall db RewardPoints
  adjust_points user_id points reference_id = create_reward (adjusting user_id points reference_id)

  -- The code is the text of the time and the user that the template makes.
  unfoldable pub redeem_points : (ℕ → ℕ → List ℕ) → ℕ → ℕ → ℤ → RewardCall db Redemption
  redeem_points reward_code now user_id points = do
    current_balance ← get_user_balance user_id
    throw_if (ltb_ℤ (as_number current_balance) points)
        (bad_request "Insufficient reward points balance")
    id ← gets (λ rows. db.next_key rows.coupons)
    let c = reward_coupon id (reward_code now user_id) points
    modify (λ rows. record rows { coupons = db.save c rows.coupons })
    r ← create_reward (redeeming user_id (pos 0 -ℤ points) (some c.id))
    remaining_balance ← get_user_balance user_id
    pure (record { coupon = c; points_used = points; remaining_balance = remaining_balance })

  -- The parameter is what `Math.floor(d * 100)` is for a discount `d` of so many cents, which the
  -- floating-point numbers can put one below them.
  unfoldable pub apply_points_to_checkout : (ℤ → ℤ) → ℕ → ℤ → ℤ → RewardCall db CheckoutDiscount
  apply_points_to_checkout floor_points user_id points_to_use order_total = do
    current_balance ← get_user_balance user_id
    throw_if (ltb_ℤ (as_number current_balance) points_to_use)
        (bad_request "Insufficient reward points balance")
    let discount_amount = min_ℤ points_to_use order_total
    let actual_points_used = floor_points discount_amount
    r ← create_reward (redeeming user_id (pos 0 -ℤ actual_points_used) none)
    remaining_balance ← get_user_balance user_id
    pure (record {
      discount_amount = discount_amount;
      points_used = actual_points_used;
      remaining_balance = remaining_balance;
    })
