-- ===== src/Rewards/Redeeming.antt =====
-- Points for a coupon.
use market_x_backend.Common.{
  ℕ, true, false, none, some, List, ◌≡◌, refl, arith, suc, ◌≤◌, [], ◌∷◌, length, Bool-cases, inl,
  inr, if◌then◌else◌,
}
use market_x_backend.Common.Int.{pos, ◌-ℤ◌, ◌≤ℤ◌, ltb_ℤ, int_laws, ℤ, negsuc}
use market_x_backend.Common.Outcome.{err, bad_request, Exception}
use market_x_backend.Common.Database.{Database}
use market_x_backend.Coupons.{is_valid_coupon, calculate_discount, fine, min_ℤ, Coupon}
use market_x_backend.Coupons.Discounts.{calculate_discount_exact}
use market_x_backend.Rewards.{redeem_points, redeeming, reward_coupon, get_user_balance, counts_for}
use market_x_backend.Rewards.Ledger.{
  RewardWorld, balance, entries, balance_value-number, create_reward-negative,
}
use market_x_backend.Common.Counts.{sum}

-- A coupon for points is valid at once and takes as many cents off an order as it cost points, or the
-- whole order where that is less.
reward_coupon-value :
    (id n moment a : ℕ) (code : List ℕ)
    → let c = reward_coupon id code (pos n) in
      (is_valid_coupon moment c ≡ true)
      × (calculate_discount c (pos a) ≡ min_ℤ (fine (pos n)) (fine (pos a)))
unfolding is_valid_coupon
reward_coupon-value id n moment a code =
    (refl, (calculate_discount_exact (reward_coupon id code (pos n)) a n refl refl).1 refl)

no_sum : {A : Type 0} (f : A → ℤ) (xs : List A) → pos 1 ≤ℤ sum f xs → 1 ≤ length xs
no_sum f [] h = absurd (ground arith)
no_sum f (x ∷ xs) h = ground arith

module _ (db : Database) (reward_code : ℕ → ℕ → List ℕ) (now u n : ℕ) (w : RewardWorld db) where
  abbrev with_coupon : RewardWorld db
  with_coupon = record w {
    rows = record (w.rows) {
      coupons =
          db.save (reward_coupon (db.next_key w.rows.coupons) (reward_code now u) (pos (suc n)))
            w.rows.coupons;
    };
  }

  redeem_points-poor :
      ltb_ℤ (balance db u w) (pos (suc n)) ≡ true
      → redeem_points db reward_code now u (pos (suc n)) w
        ≡ (err (bad_request "Insufficient reward points balance"), w)
  unfolding redeem_points get_user_balance
  redeem_points-poor poor = ground (arith, balance_value-number db u w)

  redeem_points-rich :
      ltb_ℤ (balance db u w) (pos (suc n)) ≡ false
      → (e : Exception) × (redeem_points db reward_code now u (pos (suc n)) w
          ≡ (err e, with_coupon))
  unfolding redeem_points get_user_balance
  redeem_points-rich rich =
      let some_points : pos 1 ≤ℤ balance db u w = grind int_laws in
      let has : 1 ≤ entries db u w =
        no_sum (λ r. r.points) (db.find (counts_for u) w.rows.rewards) some_points in
      let taken : pos 0 -ℤ pos (suc n) ≡ negsuc n = grind int_laws in
      let (e, refused) =
        create_reward-negative db
          (redeeming u (pos 0 -ℤ pos (suc n)) (some (db.next_key w.rows.coupons))) n with_coupon
          taken has in
      (e, ground (arith, refused, balance_value-number db u w))

  -- Redeeming at least one point never returns and never takes a point from anyone. Where the user
  -- has the points, a coupon is stored all the same, under a key that was free: it is valid and takes
  -- as many cents off an order as points were asked for, or the whole order where that is less.
  pub redeem_points_gives_away :
      let (r, w') = redeem_points db reward_code now u (pos (suc n)) w in
      (e : Exception) × (r ≡ err e)
      × (w'.rows.rewards ≡ w.rows.rewards)
      × ((c : Coupon) × (db.find_one c.id w.rows.coupons ≡ none)
          × (w'.rows.coupons ≡ (
              if ltb_ℤ (balance db u w) (pos (suc n))
              then w.rows.coupons
              else db.save c w.rows.coupons))
          × ((moment a : ℕ)
              → (is_valid_coupon moment c ≡ true)
                × (calculate_discount c (pos a) ≡ min_ℤ (fine (pos (suc n))) (fine (pos a)))))
  redeem_points_gives_away =
      let c = reward_coupon (db.next_key w.rows.coupons) (reward_code now u) (pos (suc n)) in
      let valued = λ (moment a : ℕ). reward_coupon-value c.id (suc n) moment a c.code in
      let fresh = db.next_key_fresh w.rows.coupons in
      elim (Bool-cases (ltb_ℤ (balance db u w) (pos (suc n)))) [
        | inl poor ↦
            let run = redeem_points-poor poor in
            (
              bad_request "Insufficient reward points balance",
              ground (arith, run),
              ground (arith, run),
              (c, fresh, ground (arith, run), valued),
            )
        | inr rich ↦
            let (e, run) = redeem_points-rich rich in
            (e, ground (arith, run), ground (arith, run), (c, fresh, ground (arith, run), valued))
      ]
