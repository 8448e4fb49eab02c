-- ===== src/Subscriptions/Tests.antt =====
-- Subscriptions in memory.
use market_x_backend.Common.{ℕ, ◌+◌, true, false, none, some, [], ◌∷◌, ◌≡◌, refl}
use market_x_backend.Common.Outcome.{ok}
use market_x_backend.Common.Memory.{memory}
use market_x_backend.Subscriptions.{
  Subscription, SubscriptionFeature, BillingCycle, UserRow, free, basic, premium, can_upgrade,
  within_limit, monthly, quarterly, calculate_price, get_tier_config, get_upgrade_path, active,
}
use market_x_backend.Subscriptions.Service.{
  UpgradeSubscriptionDto, upgraded, mirrored, renewed, get_active, upgrade_subscription, check_one,
  can_perform_action, get_current_usage,
}
use market_x_backend.Subscriptions.Changes.{
  SubscriptionWorld, subscription_at, user_at, upgrade_subscription_falls_to_free,
}
use market_x_backend.Subscriptions.Renewal.{check_one_exact}

abbrev in_a_month : ℕ → BillingCycle → ℕ
in_a_month now cycle = now + 30

abbrev basic_plan : Subscription
basic_plan = record {
  id = 0;
  user_id = 40;
  tier = basic;
  status = active;
  billing_cycle = monthly;
  price = 9990;
  starts_at = 100;
  ends_at = 130;
  expires_at = 130;
  last_payment_at = none;
  next_billing_at = none;
  payment_method_token = none;
  payment_provider = none;
  auto_renew = true;
  cancellation_reason = none;
  cancelled_at = none;
  created_at = 100;
}

abbrev seller : UserRow
seller = record {
  id = 40;
  subscription_tier = basic;
  subscription_status = some active;
  subscription_expires_at = some 130;
  has_premium_subscription = true;
}

abbrev with_plan : Subscription → SubscriptionWorld memory in_a_month
with_plan s = record { rows = record { subscriptions = s ∷ []; users = seller ∷ [] }; emitted = [] }

abbrev to_premium : UpgradeSubscriptionDto
to_premium = record { target_tier = premium; billing_cycle = none; payment_method_token = none }

abbrev thirty : ℕ → ℕ
thirty user_id = 30

quarterly_price : calculate_price (get_tier_config basic) quarterly ≡ 26973
unfolding calculate_price
quarterly_price = refl

paths : get_upgrade_path free ≡ basic ∷ premium ∷ []
unfolding get_upgrade_path
paths = refl

upgrade_subscription_falls_to_free_example :
    let s' = upgraded memory in_a_month 110 to_premium basic_plan in
    let (r, w') = upgrade_subscription memory in_a_month 110 40 to_premium (with_plan basic_plan) in
    (r ≡ ok s')
    × (subscription_at memory in_a_month 0 w' ≡ some s')
    × (user_at memory in_a_month 40 w' ≡ some (mirrored s' seller))
    × ((mirrored s' seller).has_premium_subscription ≡ false)
    × (get_active memory in_a_month 40 w'.rows ≡ none)
    × ((listings featured : ℕ → ℕ) (feature : SubscriptionFeature) (count : ℕ)
        → can_perform_action memory in_a_month listings featured 40 feature count w'.rows
          ≡ within_limit free feature
              (get_current_usage memory in_a_month listings featured 40 feature)
              count)
unfolding can_upgrade
upgrade_subscription_falls_to_free_example =
    upgrade_subscription_falls_to_free memory in_a_month 110 40 to_premium (with_plan basic_plan)
      basic_plan seller refl refl refl refl

check_one_exact_example :
    let (r, w') = check_one memory in_a_month 140 basic_plan (with_plan basic_plan) in
    (r ≡ ok tt)
    × (subscription_at memory in_a_month 0 w' ≡ some (renewed memory in_a_month 140 basic_plan))
    × (user_at memory in_a_month 40 w' ≡ some (mirrored basic_plan seller))
check_one_exact_example =
    check_one_exact memory in_a_month 140 (with_plan basic_plan) basic_plan seller refl refl
