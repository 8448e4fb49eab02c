-- ===== src/Subscriptions/Changes.antt =====
-- What an upgrade does to the rights of its user.
use market_x_backend.Common.{
  ℕ, true, false, Option, none, some, List, [], ◌∷◌, ◌≡◌, arith, ap, subst, All, length,
}
use market_x_backend.Common.Outcome.{World, ok}
use market_x_backend.Common.Database.{Database}
use market_x_backend.Common.Counts.{length-find-old}
use market_x_backend.Events.{Event}
use market_x_backend.Subscriptions.{
  Subscription, SubscriptionFeature, BillingCycle, UserRow, free, can_upgrade, within_limit,
}
use market_x_backend.Subscriptions.Service.{
  SubscriptionRows, UpgradeSubscriptionDto, active_of, upgraded, mirrored, get_active,
  get_active_subscription, update_user_subscription_status, upgrade_subscription,
  can_perform_action, get_current_usage, tier_of,
}

no_rows : {A : Type 0} (xs : List A) → length xs ≡ 0 → xs ≡ []
no_rows xs h = ground arith

module _ (db : Database) (end_date : ℕ → BillingCycle → ℕ) where
  abbrev pub SubscriptionWorld : Type 0
  SubscriptionWorld = World (SubscriptionRows db) Event

  abbrev pub subscription_at : ℕ → SubscriptionWorld → Option Subscription
  subscription_at k w = db.find_one k w.rows.subscriptions

  abbrev pub user_at : ℕ → SubscriptionWorld → Option UserRow
  user_at k w = db.find_one k w.rows.users

  -- Upgrading the only active subscription of a user returns and stores it in the new tier as
  -- pending. The user then has no active subscription and is no premium user, and may do what the
  -- free tier allows.
  pub upgrade_subscription_falls_to_free :
      (now user_id : ℕ) (dto : UpgradeSubscriptionDto) (w : SubscriptionWorld) (s : Subscription)
      → (u : UserRow) → db.find (active_of user_id) w.rows.subscriptions ≡ s ∷ []
      → subscription_at s.id w ≡ some s
      → user_at user_id w ≡ some u
      → can_upgrade s.tier dto.target_tier ≡ true
      → let s' = upgraded db end_date now dto s in
        let (r, w') = upgrade_subscription db end_date now user_id dto w in
        (r ≡ ok s')
        × (subscription_at s.id w' ≡ some s')
        × (user_at user_id w' ≡ some (mirrored s' u))
        × ((mirrored s' u).has_premium_subscription ≡ false)
        × (get_active db end_date user_id w'.rows ≡ none)
        × ((listings featured : ℕ → ℕ) (feature : SubscriptionFeature) (count : ℕ)
            → can_perform_action db end_date listings featured user_id feature count w'.rows
              ≡ within_limit free feature
                  (get_current_usage db end_date listings featured user_id feature)
                  count)
  unfolding upgrade_subscription get_active_subscription update_user_subscription_status
      can_perform_action
  upgrade_subscription_falls_to_free now user_id dto w s u only stored user up =
      let s' = upgraded db end_date now dto s in
      let mine : active_of user_id s ≡ true =
        (subst (All (λ t. active_of user_id t ≡ true)) only
          (db.find-holds (active_of user_id) w.rows.subscriptions)).0 in
      let w' = (upgrade_subscription db end_date now user_id dto w).1 in
      let rows : w'.rows.subscriptions ≡ db.save s' w.rows.subscriptions = ground arith in
      let idle : db.find (active_of user_id) (db.save s' w.rows.subscriptions) ≡ [] =
        no_rows (db.find (active_of user_id) (db.save s' w.rows.subscriptions)) (
          ground (
            arith,
            mine,
            length-find-old db (active_of user_id) s' w.rows.subscriptions s stored,
          )) in
      let none_active : get_active db end_date user_id w'.rows ≡ none = ground arith in
      (
        ground arith,
        grind (arith, db.find_one-save s.id),
        grind (arith, db.find_one-save user_id, db.find_one-key user_id w.rows.users u user),
        ground arith,
        none_active,
        λ listings featured feature count.
            ap
              (λ o.
                within_limit (tier_of o) feature
                  (get_current_usage db end_date listings featured user_id feature) count)
              none_active,
      )
