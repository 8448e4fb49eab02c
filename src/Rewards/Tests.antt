-- ===== src/Rewards/Tests.antt =====
-- Reward points in memory.
use market_x_backend.Common.{ℕ, true, none, some, List, [], ◌∷◌, ◌≡◌, refl, arith, if◌then◌else◌}
use market_x_backend.Common.Int.{ℤ, pos, negsuc, ◌+ℤ◌, ltb_ℤ}
use market_x_backend.Common.Values.{digits_from}
use market_x_backend.Common.Outcome.{err, Exception}
use market_x_backend.Common.Memory.{memory}
use market_x_backend.Common.Runs.{Steps}
use market_x_backend.Coupons.{Coupon, is_valid_coupon, calculate_discount, fine, min_ℤ}
use market_x_backend.Coupons.Requests.{coupon_key}
use market_x_backend.Rewards.{
  RewardPoints, PointsTransactionType, create_reward, redeem_points, grant_points_for_order,
  adjust_points, get_user_balance, total_of,
}
use market_x_backend.Rewards.Ledger.{RewardWorld, balance}
use market_x_backend.Rewards.Redeeming.{redeem_points_gives_away}
use market_x_backend.Rewards.Keeping.{RewardStep, HasPoints, reward_calls-HasPoints}

abbrev thousand : RewardPoints
thousand = record {
  id = 0;
  user_id = 40;
  points = pos 1000;
  transaction_type = PointsTransactionType.earned;
  reference_id = some 7;
  balance_after = pos 1000;
  deleted_at = none;
}

abbrev with_points : RewardWorld memory
with_points = record { rows = record { rewards = thousand ∷ []; coupons = [] }; emitted = [] }

abbrev no_code : ℕ → ℕ → List ℕ
no_code now user_id = []

abbrev exact : ℤ → ℤ
exact d = d

granted :
    (grant_points_for_order memory 40 8 (pos 2599) with_points).1.rows.rewards
    ≡ thousand
      ∷ record thousand {
        id = 1;
        points = pos 259;
        reference_id = some 8;
        balance_after = pos 1000259;
      }
      ∷ []
unfolding grant_points_for_order create_reward get_user_balance total_of digits_from ◌+ℤ◌
granted = refl

redeem_points_gives_away_example :
    let (r, w') = redeem_points memory no_code 9 40 (pos 300) with_points in
    (e : Exception) × (r ≡ err e)
    × (w'.rows.rewards ≡ thousand ∷ [])
    × ((c : Coupon) × (memory.find_one {key = coupon_key} c.id [] ≡ none)
        × (w'.rows.coupons ≡ (
            if ltb_ℤ (balance memory 40 with_points) (pos 300)
            then []
            else memory.save {key = coupon_key} c []))
        × ((moment a : ℕ)
            → (is_valid_coupon moment c ≡ true)
              × (calculate_discount c (pos a) ≡ min_ℤ (fine (pos 300)) (fine (pos a)))))
redeem_points_gives_away_example = redeem_points_gives_away memory no_code 9 40 299 with_points

abbrev after_redeeming : RewardWorld memory
after_redeeming = (redeem_points memory no_code 9 40 (pos 300) with_points).1

redeemed_and_adjusted :
    Steps
      (RewardStep memory no_code exact)
      with_points
      (adjust_points memory 40 (negsuc 4999) none after_redeeming).1
redeemed_and_adjusted =
    Steps.step (RewardStep.redeems 9 40 (pos 300) with_points)
      (Steps.step (RewardStep.adjusts 40 (negsuc 4999) none after_redeeming) Steps.stop)

thousand_HasPoints : HasPoints memory 40 (pos 1000) with_points
unfolding HasPoints ◌+ℤ◌
thousand_HasPoints = (ground arith, ground arith)

reward_calls-HasPoints_example :
    HasPoints memory 40 (pos 1000) (adjust_points memory 40 (negsuc 4999) none after_redeeming).1
reward_calls-HasPoints_example =
    reward_calls-HasPoints memory 40 (pos 1000) no_code exact redeemed_and_adjusted
      thousand_HasPoints
