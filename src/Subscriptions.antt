-- ===== src/Subscriptions.antt =====
-- src/subscriptions/config and src/subscriptions/entities: the tiers with their limits, and the rows.
-- Prices are tenths of a cent, in which the quarterly price is whole; the column, which rounds it to
-- cents, is not modelled. The currency, always USD, and the columns that nothing reads or that are
-- never set (usage, metadata, trial and grace periods) are left out.
pub mod Service
pub mod Tiers
pub mod Changes
pub mod Renewal
pub mod Tests
use market_x_backend.Common.{
  ℕ, ◌*◌, ◌/◌, Bool, true, false, not, ◌&&◌, Option, none, some, List, [], ◌∷◌, ltb, leb,
  if◌then◌else◌,
}
use market_x_backend.Common.Int.{ℤ, pos, negsuc, ◌+ℤ◌, leb_ℤ, eqb_ℤ}

pub data SubscriptionTier : Type 0 where
  free basic premium : SubscriptionTier

abbrev pub is_free : SubscriptionTier → Bool
is_free free = true
is_free basic = false
is_free premium = false

pub data SubscriptionStatus : Type 0 where
  active expired cancelled pending suspended : SubscriptionStatus

abbrev pub runs : SubscriptionStatus → Bool
runs active = true
runs expired = false
runs cancelled = false
runs pending = false
runs suspended = false

pub data BillingCycle : Type 0 where
  monthly quarterly yearly : BillingCycle

pub data SubscriptionFeature : Type 0 where
  max_listings max_images_per_listing featured_listings analytics_dashboard bulk_upload
        priority_support custom_branding api_access advanced_analytics verification_badge :
      SubscriptionFeature

-- A limit is a number, or whether the feature is there.
pub data Limit : Type 0 where
  number : ℤ → Limit
  flag : Bool → Limit

pub record SubscriptionTierConfig : Type 0 where
  pub tier : SubscriptionTier
  pub monthly_price : ℕ
  pub yearly_price : ℕ
  pub features : SubscriptionFeature → Limit
  pub is_active : Bool
  pub sort_order : ℕ

abbrev pub free_features : SubscriptionFeature → Limit
free_features max_listings = number (pos 5)
free_features max_images_per_listing = number (pos 3)
free_features featured_listings = number (pos 0)
free_features analytics_dashboard = flag false
free_features bulk_upload = flag false
free_features priority_support = flag false
free_features custom_branding = flag false
free_features api_access = flag false
free_features advanced_analytics = flag false
free_features verification_badge = flag false

abbrev pub basic_features : SubscriptionFeature → Limit
basic_features max_listings = number (pos 50)
basic_features max_images_per_listing = number (pos 10)
basic_features featured_listings = number (pos 2)
basic_features analytics_dashboard = flag true
basic_features bulk_upload = flag false
basic_features priority_support = flag false
basic_features custom_branding = flag false
basic_features api_access = flag false
basic_features advanced_analytics = flag false
basic_features verification_badge = flag true

abbrev pub premium_features : SubscriptionFeature → Limit
premium_features max_listings = number (negsuc 0)
premium_features max_images_per_listing = number (pos 20)
premium_features featured_listings = number (pos 10)
premium_features analytics_dashboard = flag true
premium_features bulk_upload = flag true
premium_features priority_support = flag true
premium_features custom_branding = flag true
premium_features api_access = flag true
premium_features advanced_analytics = flag true
premium_features verification_badge = flag true

-- `getTierConfig`: the entry of `SUBSCRIPTION_TIERS`, which has one for each tier.
abbrev pub get_tier_config : SubscriptionTier → SubscriptionTierConfig
get_tier_config free = record {
  tier = free;
  monthly_price = 0;
  yearly_price = 0;
  features = free_features;
  is_active = true;
  sort_order = 1;
}
get_tier_config basic = record {
  tier = basic;
  monthly_price = 9990;
  yearly_price = 99990;
  features = basic_features;
  is_active = true;
  sort_order = 2;
}
get_tier_config premium = record {
  tier = premium;
  monthly_price = 29990;
  yearly_price = 299990;
  features = premium_features;
  is_active = true;
  sort_order = 3;
}

abbrev pub subscription_tiers : List SubscriptionTierConfig
subscription_tiers = get_tier_config free ∷ get_tier_config basic ∷ get_tier_config premium ∷ []

unfoldable pub can_upgrade : SubscriptionTier → SubscriptionTier → Bool
can_upgrade current target =
    ltb (get_tier_config current).sort_order (get_tier_config target).sort_order

-- The tiers of the entries above an order, in the order of the table, which is that of `sortOrder`.
abbrev above : ℕ → List SubscriptionTierConfig → List SubscriptionTier
above order [] = []
above order (c ∷ cs) =
    let rest = above order cs in
    if c.is_active && ltb order c.sort_order then c.tier ∷ rest else rest

unfoldable pub get_upgrade_path : SubscriptionTier → List SubscriptionTier
get_upgrade_path current = above (get_tier_config current).sort_order subscription_tiers

-- `limit === -1`, and a limit as a number where it is compared: true is 1.
abbrev pub unlimited : Limit → Bool
unlimited (number n) = eqb_ℤ n (negsuc 0)
unlimited (flag b) = false

abbrev pub as_number : Limit → ℤ
as_number (number n) = n
as_number (flag true) = pos 1
as_number (flag false) = pos 0

-- What `canPerformAction` answers for a tier and a usage.
unfoldable pub within_limit : SubscriptionTier → SubscriptionFeature → ℕ → ℕ → Bool
within_limit tier feature current_usage count =
    let limit = (get_tier_config tier).features feature in
    if unlimited limit then true else leb_ℤ (pos current_usage +ℤ pos count) (as_number limit)

unfoldable pub calculate_price : SubscriptionTierConfig → BillingCycle → ℕ
calculate_price c monthly = c.monthly_price
calculate_price c yearly = c.yearly_price
calculate_price c quarterly = c.monthly_price * 27 / 10

pub record Subscription : Type 0 where
  pub id : ℕ
  pub user_id : ℕ
  pub tier : SubscriptionTier
  pub status : SubscriptionStatus
  pub billing_cycle : BillingCycle
  pub price : ℕ
  pub starts_at : ℕ
  pub ends_at : ℕ
  pub expires_at : ℕ
  pub last_payment_at : Option ℕ
  pub next_billing_at : Option ℕ
  pub payment_method_token : Option (List ℕ)
  pub payment_provider : Option (List ℕ)
  pub auto_renew : Bool
  pub cancellation_reason : Option (List ℕ)
  pub cancelled_at : Option ℕ
  pub created_at : ℕ

-- The columns of src/users/users.entity.ts about the subscription.
pub record UserRow : Type 0 where
  pub id : ℕ
  pub subscription_tier : SubscriptionTier
  pub subscription_status : Option SubscriptionStatus
  pub subscription_expires_at : Option ℕ
  pub has_premium_subscription : Bool
