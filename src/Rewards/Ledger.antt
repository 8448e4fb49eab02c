-- ===== src/Rewards/Ledger.antt =====
-- The balance of a user before and after an entry of the ledger.
use market_x_backend.Common.{
  ℕ, ◌≤◌, ◌&&◌, true, false, some, List, [], ◌∷◌, ◌≡◌, refl, arith, ◌==◌, if◌then◌else◌, length,
  Bool-cases, Option-cases, inl, inr, ◌⊎◌,
}
use market_x_backend.Common.Int.{ℤ, pos, negsuc, ◌+ℤ◌, ltb_ℤ, int_laws}
use market_x_backend.Common.Values.{Value, text, as_number, stored_sum, fits_int}
use market_x_backend.Common.Outcome.{World, ok, err, bad_request, type_error, Exception}
use market_x_backend.Common.Database.{Database}
use market_x_backend.Common.Counts.{sum, sum-find-new, length-find-new}
use market_x_backend.Events.{Event}
use market_x_backend.Rewards.{
  RewardRows, RewardPoints, CreateRewardDto, create_reward, get_user_balance, balance_of, total_of,
  new_reward, counts_for, is_redeemed,
}

module _ (db : Database) where
  abbrev pub RewardWorld : Type 0
  RewardWorld = World (RewardRows db) Event

  -- The points of the user.
  abbrev pub balance : ℕ → RewardWorld → ℤ
  balance u w = balance_of db u w.rows

  -- How many entries the user has.
  abbrev pub entries : ℕ → RewardWorld → ℕ
  entries u w = length (db.find (counts_for u) w.rows.rewards)

  abbrev pub balance_value : ℕ → RewardWorld → Value
  balance_value u w = total_of db (db.find (counts_for u) w.rows.rewards)

  total_of-number : (rs : List RewardPoints) → as_number (total_of db rs) ≡ sum (λ r. r.points) rs
  unfolding total_of
  total_of-number [] = refl
  total_of-number (r ∷ rs) = refl

  total_of-text :
      (rs : List RewardPoints) → 1 ≤ length rs → total_of db rs ≡ text (sum (λ r. r.points) rs)
  unfolding total_of
  total_of-text [] h = absurd (ground arith)
  total_of-text (r ∷ rs) h = refl

  pub balance_value-number : (u : ℕ) (w : RewardWorld) → as_number (balance_value u w) ≡ balance u w
  balance_value-number u w = total_of-number (db.find (counts_for u) w.rows.rewards)

  -- The balance of a user with an entry is a text.
  pub balance_value-text :
      (u : ℕ) (w : RewardWorld) → 1 ≤ entries u w → balance_value u w ≡ text (balance u w)
  balance_value-text u w h = total_of-text (db.find (counts_for u) w.rows.rewards) h

  -- The world after an entry for `dto` that records the balance `after`.
  abbrev pub entered : CreateRewardDto → ℤ → RewardWorld → RewardWorld
  entered dto after w = record w {
    rows = record (w.rows) {
      rewards = db.save (new_reward (db.next_key w.rows.rewards) dto after) w.rows.rewards;
    };
  }

  pub balance-entered :
      (dto : CreateRewardDto) (after : ℤ) (w : RewardWorld) (u : ℕ)
      → balance u (entered dto after w)
        ≡ balance u w +ℤ (if dto.user_id == u then dto.points else pos 0)
  balance-entered dto after w u = grind (
    int_laws,
    sum-find-new db (counts_for u) (new_reward (db.next_key w.rows.rewards) dto after)
        w.rows.rewards (db.next_key_fresh w.rows.rewards) (λ r. r.points),
  )

  pub entries-entered :
      (dto : CreateRewardDto) (after : ℤ) (w : RewardWorld) (u : ℕ)
      → entries u w ≤ entries u (entered dto after w)
  entries-entered dto after w u = ground (
    arith,
    length-find-new db (counts_for u) (new_reward (db.next_key w.rows.rewards) dto after)
        w.rows.rewards (db.next_key_fresh w.rows.rewards),
  )

  -- An entry that nothing refuses.
  pub create_reward-entered :
      (dto : CreateRewardDto) (after : ℤ) (w : RewardWorld)
      → (is_redeemed dto.transaction_type && ltb_ℤ (balance dto.user_id w) dto.points) ≡ false
      → stored_sum (balance_value dto.user_id w) dto.points ≡ some after
      → fits_int dto.points ≡ true
      → create_reward db dto w
        ≡ (ok (new_reward (db.next_key w.rows.rewards) dto after), entered dto after w)
  unfolding create_reward get_user_balance
  create_reward-entered dto after w covered sum fits =
      ground (arith, balance_value-number dto.user_id w)

  -- The entry of a negative number of points is refused, for a user who has an entry: the number is
  -- appended to the text of the balance.
  pub create_reward-negative :
      (dto : CreateRewardDto) (n : ℕ) (w : RewardWorld)
      → dto.points ≡ negsuc n
      → 1 ≤ entries dto.user_id w
      → (e : Exception) × (create_reward db dto w ≡ (err e, w))
  unfolding create_reward get_user_balance
  create_reward-negative dto n w taken has =
      let v = balance_value-text dto.user_id w has in
      elim (Bool-cases
        (is_redeemed dto.transaction_type && ltb_ℤ (balance dto.user_id w) dto.points)) [
          | inl short ↦ (bad_request "Insufficient reward points balance", ground (arith, v))
          | inr covered ↦ (type_error "balance_after is no integer", ground (arith, v))
        ]

  -- An entry that is made is of the points that are asked for, whatever balance it records.
  pub create_reward-cases :
      (dto : CreateRewardDto) (w : RewardWorld)
      → ((e : Exception) × (create_reward db dto w ≡ (err e, w)))
        ⊎ ((after : ℤ) × (create_reward db dto w
              ≡ (ok (new_reward (db.next_key w.rows.rewards) dto after), entered dto after w)))
  unfolding create_reward get_user_balance
  create_reward-cases dto w =
      elim (Bool-cases (
        is_redeemed dto.transaction_type
        && ltb_ℤ (as_number (balance_value dto.user_id w)) dto.points)) [
          | inl short ↦ inl (bad_request "Insufficient reward points balance", ground arith)
          | inr covered ↦
              elim (Option-cases (stored_sum (balance_value dto.user_id w) dto.points)) [
                | inl no_integer ↦ inl (type_error "balance_after is no integer", ground arith)
                | inr (after, sum) ↦ elim (Bool-cases (fits_int dto.points)) [
                  | inl fits ↦ inr (after, ground arith)
                  | inr large ↦
                      inl (type_error "points out of range for type integer", ground arith)
                ]
              ]
        ]
