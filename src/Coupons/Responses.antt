-- ===== src/Coupons/Responses.antt =====
-- What `validateAndApplyCoupon` answers.
use market_x_backend.Common.{
  ℕ, true, none, some, List, [], ◌∷◌, ◌≡◌, arith, All, is_some, not, ◌&&◌, subst, first,
}
use market_x_backend.Common.Database.{Database}
use market_x_backend.Coupons.{Coupon}
use market_x_backend.Coupons.Requests.{CouponRows, same_text}
use market_x_backend.Coupons.Service.{with_code}

first-All : {A : Type 0} (P : A → Type 0) (xs : List A) (a : A) → All P xs → first xs ≡ some a → P a
first-All P [] a h e = absurd (ground arith)
first-All P (x ∷ xs) a h e = subst P (ground arith) h.0

module _ (db : Database) where
  pub with_code-holds :
      (code : List ℕ) (r : CouponRows db) (c : Coupon)
      → with_code db code r ≡ some c
      → (same_text c.code code ≡ true) × (c.deleted_at ≡ none)
  with_code-holds code r c found =
      let both : (same_text c.code code && not (is_some c.deleted_at)) ≡ true =
        first-All (λ d. (same_text d.code code && not (is_some d.deleted_at)) ≡ true)
          (db.find (λ d. same_text d.code code && not (is_some d.deleted_at)) r.coupons) c
          (db.find-holds (λ d. same_text d.code code && not (is_some d.deleted_at)) r.coupons)
          found in
      ground arith
