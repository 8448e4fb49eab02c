-- ===== src/Pricing/Rounding.antt =====
-- How far a rounded amount is from the exact one.
use native.Mathlib.Nat.{mod-add-div', mod-lt, mul-div_cancel, zero-mod, zero-div}
use market_x_backend.Common.{
  ℕ, zero, suc, sym, subst, ◌+◌, ◌*◌, ◌/◌, ◌%◌, ◌≤◌, ◌<◌, ◌≡◌, refl, ◌∙◌, ap, arith, ◌⊎◌, inl, inr,
  ltb, ◌==◌, if◌then◌else◌,
}
use market_x_backend.Common.Int.{ℤ, pos, negsuc, int_laws}
use market_x_backend.Pricing.{divide_with_half_up, abs, neg, negative}

-- Rounding of a quotient of natural numbers.
abbrev pub half_up : ℕ → ℕ → ℕ
half_up n d = if n % d == 0 then n / d else if ltb (n % d * 2) d then n / d else n / d + 1

half_up-cases :
    (n d : ℕ)
    → 1 ≤ d
    → ((half_up n d ≡ n / d) × (n % d * 2 < d)) ⊎ ((half_up n d ≡ n / d + 1) × (d ≤ n % d * 2))
half_up-cases n d h = grind arith

pub half_up_near :
    (n d : ℕ) → 1 ≤ d → (2 * (half_up n d * d) ≤ 2 * n + d) × (2 * n < 2 * (half_up n d * d) + d)
half_up_near n d h =
    let whole = mod-add-div' n d in
    let part = mod-lt n h in
    elim (half_up-cases n d h) [
      | inl (down, small) ↦ rw down (omega arith, omega arith)
      | inr (up, large) ↦ rw up (omega arith, omega arith)
    ]

abbrev pub signed : ℤ → ℕ → ℤ
signed n h = if negative n then neg h else pos h

pub divide_half_up : (n : ℤ) (d : ℕ) → divide_with_half_up n (pos d) ≡ signed n (half_up (abs n) d)
unfolding divide_with_half_up
divide_half_up (pos n) d = grind int_laws
divide_half_up (negsuc n) d = grind int_laws

abs-signed : (n : ℤ) (h : ℕ) → abs (signed n h) ≡ h
abs-signed (pos n) h = refl
abs-signed (negsuc n) zero = refl
abs-signed (negsuc n) (suc h) = refl

-- Rounding is to the nearest whole number, and half of one away from zero, for every numerator and
-- every positive denominator: the result has the sign of the numerator, and twice its distance from
-- the exact quotient is at most one, and less than one where it is the larger.
pub divide_with_half_up_near :
    (n : ℤ) (d : ℕ)
    → 1 ≤ d
    → let r = divide_with_half_up n (pos d) in
      (r ≡ signed n (abs r)) × (2 * (abs r * d) ≤ 2 * abs n + d) × (2 * abs n < 2 * (abs r * d) + d)
divide_with_half_up_near n d h =
    let r = half_up (abs n) d in
    let size : abs (divide_with_half_up n (pos d)) ≡ r =
      ap abs (divide_half_up n d) ∙ abs-signed n r in
    let (low, high) = half_up_near (abs n) d h in
    (divide_half_up n d ∙ ap (signed n) (sym size), rw size low, rw size high)

pub exact_half_up : (a r : ℕ) → 1 ≤ r → half_up (a * r) r ≡ a
exact_half_up a r h =
    let whole = mul-div_cancel a h in
    let split : a * r % r + a * r ≡ a * r =
      subst (λ q. a * r % r + q * r ≡ a * r) whole (mod-add-div' (a * r) r) in
    let rest : a * r % r ≡ 0 = omega (arith, split) in rw rest whole

divide_neg : (k d : ℕ) → 1 ≤ d → divide_with_half_up (neg k) (pos d) ≡ neg (half_up k d)
divide_neg zero d h = divide_half_up (pos 0) d ∙ rw (zero-mod d, zero-div d) refl
divide_neg (suc k) d h = divide_half_up (negsuc k) d

-- An exact quotient is not changed by rounding.
pub divide_with_half_up-exact :
    (m : ℤ) (r : ℕ) → 1 ≤ r → divide_with_half_up (signed m (abs m * r)) (pos r) ≡ m
divide_with_half_up-exact (pos a) r h =
    divide_half_up (pos (a * r)) r ∙ ap pos (exact_half_up a r h)
divide_with_half_up-exact (negsuc a) r h =
    divide_neg (suc a * r) r h ∙ ap neg (exact_half_up (suc a) r h)
