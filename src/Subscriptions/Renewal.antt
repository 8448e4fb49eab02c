-- ===== src/Subscriptions/Renewal.antt =====
-- The hourly job over the subscriptions that have run out.
use market_x_backend.Common.{
  ℕ, some, List, [], ◌∷◌, ◌≡◌, refl, arith, Option-cases, Bool-cases, if◌then◌else◌, inl, inr, not,
  ◌&&◌,
}
use market_x_backend.Common.Outcome.{ok, for_each}
use market_x_backend.Common.Database.{Database}
use market_x_backend.Subscriptions.{
  Subscription, BillingCycle, UserRow, expired, active, is_free, runs,
}
use market_x_backend.Subscriptions.Service.{
  process_renewal, update_user_subscription_status, check_one, check_expired_subscriptions, overdue,
}
use market_x_backend.Subscriptions.Changes.{SubscriptionWorld, subscription_at, user_at}

module _ (db : Database) (end_date : ℕ → BillingCycle → ℕ) where
  -- The row after a renewal: active, paid now, and running until the end of a new cycle.
  abbrev pub renewed_row : ℕ → Subscription → Subscription
  renewed_row now s = record s {
    status = active;
    last_payment_at = some now;
    next_billing_at = some (end_date now s.billing_cycle);
    expires_at = end_date now s.billing_cycle;
    ends_at = end_date now s.billing_cycle;
  }

  -- A subscription that the job finds is renewed, if it renews itself, and expires otherwise. The
  -- columns of its user then mirror the subscription as the job read it, but for the status: after a
  -- renewal they have the old date of expiry and not the renewed one.
  pub check_one_exact :
      (now : ℕ) (w : SubscriptionWorld db end_date) (s : Subscription) (u : UserRow)
      → subscription_at db end_date s.id w ≡ some s
      → user_at db end_date s.user_id w ≡ some u
      → let ended = record s { status = expired } in
        let (r, w') = check_one db end_date now s w in
        (r ≡ ok tt)
        × (subscription_at db end_date s.id w'
            ≡ some (if s.auto_renew then renewed_row now s else ended))
        × (user_at db end_date s.user_id w'
            ≡ some (record u {
              subscription_tier = s.tier;
              subscription_status = some (if s.auto_renew then s.status else expired);
              subscription_expires_at = some s.expires_at;
              has_premium_subscription = not (is_free s.tier) && s.auto_renew && runs s.status;
            }))
  unfolding check_one process_renewal update_user_subscription_status
  check_one_exact now w s u stored user =
      let at_user = db.find_one-key s.user_id w.rows.users u user in
      (
        ground arith,
        elim (Bool-cases s.auto_renew) [
          | inl on ↦ grind (arith, db.find_one-save s.id)
          | inr off ↦ grind (arith, db.find_one-save s.id)
        ],
        elim (Bool-cases s.auto_renew) [
          | inl on ↦ grind (arith, db.find_one-save s.user_id, at_user)
          | inr off ↦ grind (arith, db.find_one-save s.user_id, at_user)
        ],
      )

  check_one_returns :
      (now : ℕ) (s : Subscription) (w : SubscriptionWorld db end_date)
      → (check_one db end_date now s w).0 ≡ ok tt
  unfolding check_one process_renewal update_user_subscription_status
  check_one_returns now s w = elim (Option-cases (subscription_at db end_date s.id w)) [
    | inl missing ↦ ground arith
    | inr (t, found) ↦ ground arith
  ]

  for_each_returns :
      (now : ℕ) (ss : List Subscription) (w : SubscriptionWorld db end_date)
      → (for_each (check_one db end_date now) ss w).0 ≡ ok tt
  unfolding for_each
  for_each_returns now [] w = refl
  for_each_returns now (s ∷ ss) w =
      ground (
        arith,
        check_one_returns now s w,
        for_each_returns now ss (check_one db end_date now s w).1,
      )

  -- The job always returns, whatever subscriptions it finds.
  pub check_expired_subscriptions_returns :
      (now : ℕ) (w : SubscriptionWorld db end_date)
      → (check_expired_subscriptions db end_date now w).0 ≡ ok tt
  unfolding check_expired_subscriptions
  check_expired_subscriptions_returns now w =
      for_each_returns now (db.find (overdue now) w.rows.subscriptions) w
