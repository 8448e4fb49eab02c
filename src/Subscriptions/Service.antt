-- ===== src/Subscriptions/Service.antt =====
-- src/subscriptions/subscriptions.service.ts, without the reminders, which are only logged, and the
-- statistics of the usage.
use market_x_backend.Common.{
  ℕ, Bool, true, false, not, ◌&&◌, Option, none, some, List, [], ◌∷◌, ltb, ◌==◌, if◌then◌else◌,
  is_some, from_option,
}
use market_x_backend.Common.Outcome.{
  Action, Outcome, World, ok, err, not_found, bad_request, pure, gets, or_throw, throw_if, modify,
  for_each, ◌>>=◌, ◌>>◌,
}
use market_x_backend.Common.Database.{Database}
use market_x_backend.Events.{Event}
use market_x_backend.Subscriptions.{
  Subscription, SubscriptionTier, SubscriptionFeature, BillingCycle, UserRow, free, active, expired,
  cancelled, pending, suspended, is_free, runs, get_tier_config, can_upgrade, within_limit,
  calculate_price, max_listings, featured_listings,
}

abbrev pub subscription_key : Subscription → ℕ
subscription_key s = s.id

abbrev pub user_key : UserRow → ℕ
user_key u = u.id

pub record SubscriptionRows (db : Database) : Type 0 where
  pub subscriptions : db.Table Subscription subscription_key
  pub users : db.Table UserRow user_key

abbrev pub SubscriptionCall : Database → Type 0 → Type 0
SubscriptionCall db A = Action (SubscriptionRows db) Event A

pub record CreateSubscriptionDto : Type 0 where
  pub tier : SubscriptionTier
  pub billing_cycle : BillingCycle
  pub payment_method_token : Option (List ℕ)
  pub payment_provider : Option (List ℕ)
  pub auto_renew : Option Bool

pub record UpgradeSubscriptionDto : Type 0 where
  pub target_tier : SubscriptionTier
  pub billing_cycle : Option BillingCycle
  pub payment_method_token : Option (List ℕ)

-- `order: { createdAt: 'DESC' }` of `findOne`.
abbrev pub latest : List Subscription → Option Subscription
latest [] = none
latest (s ∷ ss) = elim (latest ss) [
  | none ↦ some s
  | some t ↦ if ltb s.created_at t.created_at then some t else some s
]

abbrev pub active_of : ℕ → Subscription → Bool
active_of user_id s = s.user_id == user_id && runs s.status

abbrev pub overdue : ℕ → Subscription → Bool
overdue now s = runs s.status && ltb s.expires_at now

-- What `updateUserSubscriptionStatus` stores of a subscription.
abbrev pub mirrored : Subscription → UserRow → UserRow
mirrored s u = record u {
  subscription_tier = s.tier;
  subscription_status = some s.status;
  subscription_expires_at = some s.expires_at;
  has_premium_subscription = not (is_free s.tier) && runs s.status;
}

-- `new || old` of two texts, of which an empty one counts as missing.
abbrev pub either : Option (List ℕ) → Option (List ℕ) → Option (List ℕ)
either none old = old
either (some []) old = old
either (some (c ∷ cs)) old = some (c ∷ cs)

abbrev pub tier_of : Option Subscription → SubscriptionTier
tier_of none = free
tier_of (some s) = s.tier

-- The end of a billing cycle: `setMonth` and `setFullYear` of the language's dates.
module _ (db : Database) (end_date : ℕ → BillingCycle → ℕ) where
  abbrev pub new_subscription : ℕ → ℕ → ℕ → CreateSubscriptionDto → Subscription
  new_subscription id now user_id dto = record {
    id = id;
    user_id = user_id;
    tier = dto.tier;
    status = pending;
    billing_cycle = dto.billing_cycle;
    price = calculate_price (get_tier_config dto.tier) dto.billing_cycle;
    starts_at = now;
    ends_at = end_date now dto.billing_cycle;
    expires_at = end_date now dto.billing_cycle;
    last_payment_at = none;
    next_billing_at = none;
    payment_method_token = dto.payment_method_token;
    payment_provider = dto.payment_provider;
    auto_renew = from_option true dto.auto_renew;
    cancellation_reason = none;
    cancelled_at = none;
    created_at = now;
  }

  abbrev pub upgraded : ℕ → UpgradeSubscriptionDto → Subscription → Subscription
  upgraded now dto s =
      let cycle = from_option s.billing_cycle dto.billing_cycle in
      record s {
        tier = dto.target_tier;
        billing_cycle = cycle;
        price = calculate_price (get_tier_config dto.target_tier) cycle;
        ends_at = end_date now cycle;
        expires_at = end_date now cycle;
        next_billing_at = some (end_date now cycle);
        status = pending;
        payment_method_token = either dto.payment_method_token s.payment_method_token;
      }

  abbrev pub renewed : ℕ → Subscription → Subscription
  renewed now s = record s {
    status = active;
    last_payment_at = some now;
    next_billing_at = some (end_date now s.billing_cycle);
    expires_at = end_date now s.billing_cycle;
    ends_at = end_date now s.billing_cycle;
  }

  abbrev pub save_subscription : Subscription → SubscriptionCall db (Unit {0})
  save_subscription s = modify (λ r. record r { subscriptions = db.save s r.subscriptions })

  abbrev pub get_active : ℕ → SubscriptionRows db → Option Subscription
  get_active user_id r = latest (db.find (active_of user_id) r.subscriptions)

  unfoldable pub get_active_subscription : ℕ → SubscriptionCall db (Option Subscription)
  get_active_subscription user_id = gets (get_active user_id)

  -- `usersRepo.update(userId, …)`, which does nothing where there is no row.
  abbrev mirror_found : Subscription → Option UserRow → SubscriptionCall db (Unit {0})
  mirror_found s none = pure tt
  mirror_found s (some u) = modify (λ r. record r { users = db.save (mirrored s u) r.users })

  unfoldable pub update_user_subscription_status : ℕ → Subscription → SubscriptionCall db (Unit {0})
  update_user_subscription_status user_id s = do
    found ← gets (λ r. db.find_one user_id r.users)
    mirror_found s found

  unfoldable pub create_subscription :
      ℕ → ℕ → CreateSubscriptionDto → SubscriptionCall db Subscription
  unfolding get_active_subscription update_user_subscription_status
  create_subscription now user_id dto = do
    existing ← get_active_subscription user_id
    throw_if (is_some existing) (bad_request "User already has an active subscription")
    throw_if (not (get_tier_config dto.tier).is_active) (bad_request "Invalid subscription tier")
    id ← gets (λ r. db.next_key r.subscriptions)
    let s = new_subscription id now user_id dto
    save_subscription s
    update_user_subscription_status user_id s
    pure s

  unfoldable pub upgrade_subscription :
      ℕ → ℕ → UpgradeSubscriptionDto → SubscriptionCall db Subscription
  unfolding get_active_subscription update_user_subscription_status
  upgrade_subscription now user_id dto = do
    found ← get_active_subscription user_id
    s ← or_throw found (not_found "No active subscription found")
    throw_if (not (can_upgrade s.tier dto.target_tier))
        (bad_request "Cannot downgrade to lower tier")
    throw_if (not (get_tier_config dto.target_tier).is_active)
        (bad_request "Invalid target subscription tier")
    let s' = upgraded now dto s
    save_subscription s'
    update_user_subscription_status user_id s'
    pure s'

  unfoldable pub cancel_subscription : ℕ → ℕ → Option (List ℕ) → SubscriptionCall db Subscription
  unfolding get_active_subscription update_user_subscription_status
  cancel_subscription now user_id reason = do
    found ← get_active_subscription user_id
    s ← or_throw found (not_found "No active subscription found")
    let s' = record s {
      status = cancelled;
      cancellation_reason = either reason none;
      cancelled_at = some now;
      auto_renew = false;
    }
    save_subscription s'
    update_user_subscription_status user_id s'
    pure s'

  abbrev pub renew_if : ℕ → Subscription → Bool → SubscriptionCall db Subscription
  renew_if now s false = pure s
  renew_if now s true = do
    let s' = renewed now s
    save_subscription s'
    update_user_subscription_status s.user_id s'
    pure s'

  unfoldable pub process_renewal : ℕ → ℕ → SubscriptionCall db Subscription
  process_renewal now id = do
    found ← gets (λ r. db.find_one id r.subscriptions)
    s ← or_throw found (not_found "Subscription not found")
    renew_if now s s.auto_renew

  -- The `try` around the renewal: the object that the loop goes on with.
  abbrev pub after_renewal :
      Subscription
      → Outcome Subscription × World (SubscriptionRows db) Event
      → Outcome Subscription × World (SubscriptionRows db) Event
  after_renewal s (ok t, w) = (ok s, w)
  after_renewal s (err e, w) = (save_subscription s' >> pure s') w
    where
      s' : Subscription
      s' = record s { status = suspended }

  abbrev pub renew_or_expire : ℕ → Subscription → Bool → SubscriptionCall db Subscription
  renew_or_expire now s true w = after_renewal s (process_renewal now s.id w)
  renew_or_expire now s false w = (save_subscription s' >> pure s') w
    where
      s' : Subscription
      s' = record s { status = expired }

  -- The body of the loop of `checkExpiredSubscriptions`.
  unfoldable pub check_one : ℕ → Subscription → SubscriptionCall db (Unit {0})
  unfolding process_renewal update_user_subscription_status
  check_one now s = do
    s' ← renew_or_expire now s s.auto_renew
    update_user_subscription_status s.user_id s'

  unfoldable pub check_expired_subscriptions : ℕ → SubscriptionCall db (Unit {0})
  check_expired_subscriptions now = do
    expired_subscriptions ← gets (λ r. db.find (overdue now) r.subscriptions)
    for_each (check_one now) expired_subscriptions

  -- The counts of a user's listings, and of the featured ones, are those of the listings' table.
  abbrev pub get_current_usage : (ℕ → ℕ) → (ℕ → ℕ) → ℕ → SubscriptionFeature → ℕ
  get_current_usage listings featured user_id max_listings = listings user_id
  get_current_usage listings featured user_id featured_listings = featured user_id
  get_current_usage listings featured user_id _ = 0

  unfoldable pub can_perform_action :
      (ℕ → ℕ) → (ℕ → ℕ) → ℕ → SubscriptionFeature → ℕ → SubscriptionRows db → Bool
  can_perform_action listings featured user_id feature count r =
      within_limit (tier_of (get_active user_id r)) feature
        (get_current_usage listings featured user_id feature) count
