-- ===== src/Rewards/Keeping.antt =====
-- Nobody who has points ever loses any.
use market_x_backend.Common.{
  ℕ, ◌≤◌, ◌≡◌, refl, arith, ◌==◌, ==_iff, Option, none, some, List, inl, inr, ◌⊎◌, subst, sym, true,
  ==_refl, Bool-cases,
}
use market_x_backend.Common.Int.{ℤ, pos, negsuc, ◌-ℤ◌, ◌≤ℤ◌, ltb_ℤ, leb_ℤ, int_laws}
use market_x_backend.Common.Outcome.{throw_if, bad_request, >>=-keeps}
use market_x_backend.Common.Database.{Database}
use market_x_backend.Common.Runs.{Steps, steps-keep}
use market_x_backend.Common.Values.{as_number}
use market_x_backend.Coupons.{min_ℤ}
use market_x_backend.Rewards.{
  CreateRewardDto, create_reward, apply_points_to_checkout, grant_points_for_order, redeem_points,
  adjust_points, get_user_balance, redeeming, earning, adjusting, points_earned, reward_coupon,
}
use market_x_backend.Rewards.Ledger.{
  RewardWorld, balance, entries, entered, balance-entered, entries-entered, balance_value,
  create_reward-negative, create_reward-cases,
}

-- A call of the service, whether it returns or throws.
pub data RewardStep (db : Database) (reward_code : ℕ → ℕ → List ℕ) (floor_points : ℤ → ℤ)
    : RewardWorld db → RewardWorld db → Type 0 where
  grants :
      (u order_id : ℕ) (amount : ℤ) (w : RewardWorld db)
      → RewardStep db reward_code floor_points w (grant_points_for_order db u order_id amount w).1
  redeems :
      (now u : ℕ) (points : ℤ) (w : RewardWorld db)
      → RewardStep db reward_code floor_points w (redeem_points db reward_code now u points w).1
  checks_out :
      (u : ℕ) (points total : ℤ) (w : RewardWorld db)
      → RewardStep db reward_code floor_points w
          (apply_points_to_checkout db floor_points u points total w).1
  adjusts :
      (u : ℕ) (points : ℤ) (reference : Option ℕ) (w : RewardWorld db)
      → RewardStep db reward_code floor_points w (adjust_points db u points reference w).1

sign : (n : ℤ) → (pos 0 ≤ℤ n) ⊎ ((m : ℕ) × (n ≡ negsuc m))
sign (pos n) = inl (grind int_laws)
sign (negsuc m) = inr (m, refl)

module _ (db : Database) (u : ℕ) (least : ℤ) where
  -- The user has an entry, and at least so many points.
  unfoldable pub HasPoints : RewardWorld db → Type 0
  HasPoints w = (1 ≤ entries db u w) × (least ≤ℤ balance db u w)

  entered-HasPoints :
      (dto : CreateRewardDto) (after : ℤ) (w : RewardWorld db)
      → (dto.user_id ≡ u → pos 0 ≤ℤ dto.points)
      → HasPoints w
      → HasPoints (entered db dto after w)
  unfolding HasPoints
  entered-HasPoints dto after w rises h = (
    ground (arith, entries-entered db dto after w u, h.0),
    grind (int_laws, balance-entered db dto after w u, h.1, rises, ==_iff dto.user_id u),
  )

  -- An entry that raises the points of whoever it is for, or is for somebody else.
  made-HasPoints :
      (dto : CreateRewardDto) (w : RewardWorld db)
      → (dto.user_id ≡ u → pos 0 ≤ℤ dto.points)
      → HasPoints w
      → HasPoints (create_reward db dto w).1
  made-HasPoints dto w rises h = elim (create_reward-cases db dto w) [
    | inl (e, refused) ↦ subst (λ r. HasPoints r.1) (sym refused) h
    | inr (after, made) ↦
        subst (λ r. HasPoints r.1) (sym made) (entered-HasPoints dto after w rises h)
  ]

  has_entry :
      (dto : CreateRewardDto) (w : RewardWorld db)
      → (dto.user_id == u) ≡ true
      → HasPoints w
      → 1 ≤ entries db dto.user_id w
  unfolding HasPoints
  has_entry dto w mine h = ground (arith, h.0, ==_iff dto.user_id u)

  create_reward-HasPoints :
      (dto : CreateRewardDto) (w : RewardWorld db)
      → HasPoints w
      → HasPoints (create_reward db dto w).1
  create_reward-HasPoints dto w h = elim (sign dto.points) [
    | inl rises ↦ made-HasPoints dto w (λ mine. rises) h
    | inr (n, falls) ↦ elim (Bool-cases (dto.user_id == u)) [
      | inl mine ↦
          let (e, refused) = create_reward-negative db dto n w falls (has_entry dto w mine h) in
          subst (λ r. HasPoints r.1) (sym refused) h
      | inr other ↦ made-HasPoints dto w (λ mine. ground (arith, ==_refl u)) h
    ]
  ]

  step-HasPoints :
      (reward_code : ℕ → ℕ → List ℕ) (floor_points : ℤ → ℤ) {w w' : RewardWorld db}
      → RewardStep db reward_code floor_points w w'
      → HasPoints w
      → HasPoints w'
  unfolding grant_points_for_order redeem_points apply_points_to_checkout adjust_points
      get_user_balance HasPoints
  step-HasPoints reward_code floor_points (RewardStep.grants v order_id amount w) h =
      >>=-keeps HasPoints
        (throw_if (leb_ℤ (points_earned amount) (pos 0))
          (bad_request "Order amount must be greater than zero to earn points"))
        (λ _. create_reward db (earning v (points_earned amount) order_id)) w h
        (λ _ w' h'. create_reward-HasPoints (earning v (points_earned amount) order_id) w' h')
  step-HasPoints reward_code floor_points (RewardStep.redeems now v points w) h =
      let c = reward_coupon (db.next_key w.rows.coupons) (reward_code now v) points in
      let w₁ : RewardWorld db = record w {
        rows = record (w.rows) { coupons = db.save c w.rows.coupons };
      } in
      let dto = redeeming v (pos 0 -ℤ points) (some c.id) in
      let entry = create_reward-HasPoints dto w₁ h in
      elim (Bool-cases (ltb_ℤ (as_number (balance_value db v w)) points)) [
        | inl poor ↦ ground (arith, h)
        | inr rich ↦ elim (create_reward-cases db dto w₁) [
          | inl (e, refused) ↦ ground (arith, h, refused)
          | inr (after, made) ↦ ground (arith, entry, made)
        ]
      ]
  step-HasPoints reward_code floor_points (RewardStep.checks_out v points total w) h =
      let dto = redeeming v (pos 0 -ℤ floor_points (min_ℤ points total)) none in
      let entry = create_reward-HasPoints dto w h in
      elim (Bool-cases (ltb_ℤ (as_number (balance_value db v w)) points)) [
        | inl poor ↦ ground (arith, h)
        | inr rich ↦ elim (create_reward-cases db dto w) [
          | inl (e, refused) ↦ ground (arith, h, refused)
          | inr (after, made) ↦ ground (arith, entry, made)
        ]
      ]
  step-HasPoints reward_code floor_points (RewardStep.adjusts v points reference w) h =
      create_reward-HasPoints (adjusting v points reference) w h

  -- A user who has an entry never gets fewer points, whatever calls are made, those that redeem, spend
  -- or adjust points included.
  pub reward_calls-HasPoints :
      (reward_code : ℕ → ℕ → List ℕ) (floor_points : ℤ → ℤ) {w w' : RewardWorld db}
      → Steps (RewardStep db reward_code floor_points) w w'
      → HasPoints w
      → HasPoints w'
  reward_calls-HasPoints reward_code floor_points run h =
      steps-keep HasPoints (λ s t step. step-HasPoints reward_code floor_points step) run h
