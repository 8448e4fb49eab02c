-- ===== src/Subscriptions/Tiers.antt =====
-- What the tiers allow.
use market_x_backend.Common.{ℕ, true, ◌≡◌, arith}
use market_x_backend.Common.Int.{◌+ℤ◌}
use market_x_backend.Subscriptions.{
  SubscriptionTier, SubscriptionFeature, can_upgrade, within_limit,
}

-- An upgrade takes no right away: what is within the limits of a tier is within the limits of every
-- tier that it can be upgraded to.
pub can_upgrade_keeps_rights :
    (current target : SubscriptionTier) (feature : SubscriptionFeature) (usage count : ℕ)
    → can_upgrade current target ≡ true
    → within_limit current feature usage count ≡ true
    → within_limit target feature usage count ≡ true
unfolding can_upgrade within_limit ◌+ℤ◌
can_upgrade_keeps_rights current target feature usage count up within = ground arith
