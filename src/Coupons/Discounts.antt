-- ===== src/Coupons/Discounts.antt =====
-- The bounds of `calculateDiscount`.
use market_x_backend.Common.{ℕ, ◌*◌, ◌≤◌, none, some, ◌≡◌, arith, Option, ◌⊎◌}
use native.Mathlib.Nat.{mul-le-mul_left}
use market_x_backend.Common.Int.{ℤ, pos, ◌≤ℤ◌, ◌*ℤ◌, int_laws}
use market_x_backend.Coupons.{Coupon, DiscountType, min_ℤ, calculate_discount, cap_of, fine}

*ℤ_pos : (a b : ℕ) → pos a *ℤ pos b ≡ pos (a * b)
unfolding ◌*ℤ◌
*ℤ_pos a b = ground arith

pub calculate_discount_le : (c : Coupon) (n : ℤ) → calculate_discount c n ≤ℤ fine n
unfolding calculate_discount
calculate_discount_le c n = grind int_laws

-- A cap that is not negative, or none.
abbrev pub WholeCap : Option ℤ → Type 0
WholeCap none = Unit
WholeCap (some cap) = pos 0 ≤ℤ cap

-- A discount within the cap; a cap of zero counts as none.
abbrev pub WithinCap : Option ℤ → ℤ → Type 0
WithinCap none discount = Unit
WithinCap (some cap) discount = (cap ≡ pos 0) ⊎ (discount ≤ℤ fine cap)

part_le : (a v : ℕ) → v ≤ 10000 → a * v ≤ a * 10000
part_le a v h = mul-le-mul_left a h

-- A percentage up to a hundred that has no cap takes exactly that part of the amount; a fixed value
-- without a cap takes the value, or the whole amount where that is less.
pub calculate_discount_exact :
    (c : Coupon) (a v : ℕ)
    → c.discount_value ≡ pos v
    → cap_of c.restrictions ≡ none
    → (c.discount_type ≡ DiscountType.percentage
        → v ≤ 10000
        → calculate_discount c (pos a) ≡ pos (a * v))
      × (c.discount_type ≡ DiscountType.fixed_amount
          → calculate_discount c (pos a) ≡ min_ℤ (fine (pos v)) (fine (pos a)))
unfolding calculate_discount
calculate_discount_exact c a v value has =
    grind (int_laws, *ℤ_pos a v, *ℤ_pos v 10000, *ℤ_pos a 10000, part_le a v)
