-- ===== src/Coupons/Usages.antt =====
-- The counter of a coupon's uses against the usages that are recorded.
use market_x_backend.Common.{
  ℕ, ◌+◌, Bool, Option, none, some, List, ◌≡◌, arith, length, if◌then◌else◌, ◌==◌, Option-cases,
  inl, inr, ==_iff,
}
use market_x_backend.Common.Int.{ℤ}
use market_x_backend.Common.Outcome.{World, ok}
use market_x_backend.Common.Database.{Database}
use market_x_backend.Common.Counts.{length-find-new}
use market_x_backend.Common.Runs.{Steps, steps-keep}
use market_x_backend.Events.{Event}
use market_x_backend.Coupons.{Coupon, CouponUsage}
use market_x_backend.Coupons.Requests.{
  CouponRows, CreateCouponDto, UpdateCouponDto, ApplyCouponDto, new_usage,
}
use market_x_backend.Coupons.Service.{
  create, find_one, update, remove, validate_and_apply_coupon, apply_coupon_to_order,
}

abbrev pub uses_of : ℕ → CouponUsage → Bool
uses_of k u = u.coupon_id == k

abbrev pub count_of : Option Coupon → ℕ
count_of none = 0
count_of (some c) = c.current_usage_count

module _ (db : Database) where
  abbrev pub coupon_at : ℕ → World (CouponRows db) Event → Option Coupon
  coupon_at k w = db.find_one k w.rows.coupons

  -- How often the coupon has been used.
  abbrev pub uses : ℕ → World (CouponRows db) Event → ℕ
  uses k w = length (db.find (uses_of k) w.rows.usages)

-- Every counter is the number of the usages recorded for its coupon, and there are none for a key
-- without a coupon.
unfoldable pub Counted : (db : Database) → World (CouponRows db) Event → Type 0
Counted db w = (k : ℕ) → uses db k w ≡ count_of (coupon_at db k w)

-- A call of the service, whether it returns or throws. A usage refers to a row of the coupons: the
-- foreign key of `CouponUsage.coupon`.
pub data CouponStep (db : Database)
    : World (CouponRows db) Event → World (CouponRows db) Event → Type 0 where
  created :
      (dto : CreateCouponDto) (w : World (CouponRows db) Event)
      → CouponStep db w (create db dto w).1
  updated :
      (k : ℕ) (dto : UpdateCouponDto) (w : World (CouponRows db) Event)
      → CouponStep db w (update db k dto w).1
  removed : (now k : ℕ) (w : World (CouponRows db) Event) → CouponStep db w (remove db now k w).1
  answered :
      (now : ℕ) (dto : ApplyCouponDto) (w : World (CouponRows db) Event)
      → CouponStep db w (validate_and_apply_coupon db now dto w).1
  applied :
      (now k order_id user_id : ℕ) (order_amount discount_amount : ℤ) (currency : List ℕ)
      → (w : World (CouponRows db) Event) (c : Coupon) → coupon_at db k w ≡ some c
      → CouponStep db w
          (apply_coupon_to_order db now k order_id user_id order_amount discount_amount currency
            w).1

module _ (db : Database) where
  create-Counted :
      (dto : CreateCouponDto) (w : World (CouponRows db) Event)
      → Counted db w
      → Counted db (create db dto w).1
  unfolding create Counted
  create-Counted dto w h k =
      grind (arith, db.find_one-save k, db.next_key_fresh w.rows.coupons, h k)

  update-Counted :
      (j : ℕ) (dto : UpdateCouponDto) (w : World (CouponRows db) Event)
      → Counted db w
      → Counted db (update db j dto w).1
  unfolding update find_one Counted
  update-Counted j dto w h k = elim (Option-cases (db.find_one j w.rows.coupons)) [
    | inl missing ↦ ground (arith, h k)
    | inr (c, found) ↦
        grind (arith, db.find_one-save k, db.find_one-key j w.rows.coupons c found, h k)
  ]

  remove-Counted :
      (now j : ℕ) (w : World (CouponRows db) Event)
      → Counted db w
      → Counted db (remove db now j w).1
  unfolding remove find_one Counted
  remove-Counted now j w h k = elim (Option-cases (db.find_one j w.rows.coupons)) [
    | inl missing ↦ ground (arith, h k)
    | inr (c, found) ↦
        grind (arith, db.find_one-save k, db.find_one-key j w.rows.coupons c found, h k)
  ]

  -- Applying a coupon that exists always returns, records one more usage of it, and counts it: no
  -- limit of the coupon is looked at. Other coupons and their usages stay.
  pub apply_coupon_to_order_exact :
      (now k order_id user_id : ℕ) (order_amount discount_amount : ℤ) (currency : List ℕ)
      → (w : World (CouponRows db) Event) (c : Coupon) → coupon_at db k w ≡ some c
      → let (r, w') =
          apply_coupon_to_order db now k order_id user_id order_amount discount_amount currency w in
        (r ≡ ok tt)
        × ((j : ℕ)
            → coupon_at db j w' ≡ (
                if k == j
                then some (record c { current_usage_count = c.current_usage_count + 1 })
                else coupon_at db j w))
        × ((j : ℕ) → uses db j w' ≡ uses db j w + (if k == j then 1 else 0))
  unfolding apply_coupon_to_order
  apply_coupon_to_order_exact now k order_id user_id order_amount discount_amount currency w c
        found =
      (
        ground arith,
        λ j. grind (arith, db.find_one-save j, db.find_one-key k w.rows.coupons c found),
        λ j. ground (
          arith,
          length-find-new db (uses_of j)
              (new_usage (db.next_key w.rows.usages) now k order_id user_id order_amount
                discount_amount currency)
              w.rows.usages (db.next_key_fresh w.rows.usages),
        ),
      )

  validate-Counted :
      (now : ℕ) (dto : ApplyCouponDto) (w : World (CouponRows db) Event)
      → Counted db w
      → Counted db (validate_and_apply_coupon db now dto w).1
  unfolding validate_and_apply_coupon
  validate-Counted now dto w h = h

  apply-Counted :
      (now k order_id user_id : ℕ) (order_amount discount_amount : ℤ) (currency : List ℕ)
      → (w : World (CouponRows db) Event) (c : Coupon) → coupon_at db k w ≡ some c
      → Counted db w
      → Counted db
          (apply_coupon_to_order db now k order_id user_id order_amount discount_amount currency
            w).1
  unfolding Counted
  apply-Counted now k order_id user_id order_amount discount_amount currency w c found h j =
      let e =
        apply_coupon_to_order_exact now k order_id user_id order_amount discount_amount currency w c
          found in
      grind (arith, e.1 j, e.2 j, h j, ==_iff k j)

  CouponStep-Counted :
      {w w' : World (CouponRows db) Event} → CouponStep db w w' → Counted db w → Counted db w'
  CouponStep-Counted (CouponStep.created dto w) h = create-Counted dto w h
  CouponStep-Counted (CouponStep.updated k dto w) h = update-Counted k dto w h
  CouponStep-Counted (CouponStep.removed now k w) h = remove-Counted now k w h
  CouponStep-Counted (CouponStep.answered now dto w) h = validate-Counted now dto w h
  CouponStep-Counted (CouponStep.applied now k o u n d currency w c found) h =
      apply-Counted now k o u n d currency w c found h

  -- After any number of calls, from a state where every counter of a coupon is the number of its
  -- recorded usages, every counter is.
  pub coupon_calls-Counted :
      {w w' : World (CouponRows db) Event}
      → Steps (CouponStep db) w w'
      → Counted db w
      → Counted db w'
  coupon_calls-Counted = steps-keep (Counted db) (λ w w' s. CouponStep-Counted s)
