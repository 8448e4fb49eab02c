-- ===== src/Pricing/Conversion.antt =====
-- Conversions between currencies, totals and the bounds of a price.
use market_x_backend.Common.{
  ℕ, zero, suc, ◌+◌, ◌-◌, ◌*◌, ◌≤◌, ◌<◌, ◌≡◌, ◌↔◌, refl, ◌∙◌, ap, arith, List, [], ◌∷◌, All,
}
use market_x_backend.Common.Int.{ℤ, pos, negsuc, ◌+ℤ◌, ◌*ℤ◌, ◌≤ℤ◌, int_laws, +ℤ_assoc}
use market_x_backend.Common.Outcome.{ok}
use market_x_backend.Entities.{SupportedCurrency}
use market_x_backend.Pricing.{
  DecimalValue, precision, pow10, abs, divide_with_half_up, to_minor_units, min_price_of,
  max_price_of, validate_price, multiplier, convert_minor_units, PricedItem, order_total,
}
use market_x_backend.Pricing.Rounding.{signed, divide_with_half_up_near, divide_with_half_up-exact}

*ℤ_pos : (m : ℤ) (b : ℕ) → m *ℤ pos b ≡ signed m (abs m * b)
unfolding ◌*ℤ◌
*ℤ_pos (pos a) b = ground arith
*ℤ_pos (negsuc a) b = ground arith

pub pow10_positive : (n : ℕ) → 1 ≤ pow10 n
unfolding pow10
pow10_positive zero = omega arith
pow10_positive (suc n) = omega (arith, pow10_positive n)

one-le-mul : (a b : ℕ) → 1 ≤ a → 1 ≤ b → 1 ≤ a * b
one-le-mul zero b h k = absurd (omega arith)
one-le-mul (suc a) zero h k = absurd (omega arith)
one-le-mul (suc a) (suc b) h k = omega arith

-- A decimal with no more places than the currency has is not rounded.
to_minor_units-exact :
    (p : DecimalValue) (c : SupportedCurrency)
    → p.scale ≤ precision c
    → to_minor_units p c ≡ p.int *ℤ pos (pow10 (precision c - p.scale))
unfolding to_minor_units
to_minor_units-exact p c h = ground arith

*ℤ_one : (m : ℤ) → m *ℤ pos 1 ≡ m
unfolding ◌*ℤ◌
*ℤ_one m = ground arith

multiplier_same : (up down : ℕ) → up ≡ down → multiplier up down ≡ pos 1
unfolding pow10
multiplier_same up down same =
    let gone : up - down ≡ 0 = omega (arith, same) in ap (λ n. pos (pow10 n)) gone

module _ (rates : SupportedCurrency → DecimalValue) where
  -- With the integer of the rate of the target not zero, the conversion is a division.
  convert_divides :
      (m : ℤ) (source target : SupportedCurrency) (numerator : ℤ) (d : ℕ)
      → let up = (rates target).scale + precision target in
        let down = precision source + (rates source).scale in
        1 ≤ d
        → m *ℤ (rates source).int *ℤ multiplier up down ≡ numerator
        → (rates target).int *ℤ multiplier down up ≡ pos d
        → convert_minor_units rates m source target ≡ ok (divide_with_half_up numerator (pos d))
  unfolding convert_minor_units
  convert_divides m source target numerator d h top bottom = rw (top, bottom) (ground arith)

  -- An amount that is converted to its own currency does not change, whatever the positive rate is.
  pub convert_to_same :
      (m : ℤ) (c : SupportedCurrency) (r : ℕ)
      → 1 ≤ r
      → (rates c).int ≡ pos r
      → convert_minor_units rates m c c ≡ ok m
  convert_to_same m c r h rate =
      let none_up : multiplier ((rates c).scale + precision c) (precision c + (rates c).scale)
          ≡ pos 1 =
        multiplier_same _ _ (omega arith) in
      let none_down : multiplier (precision c + (rates c).scale) ((rates c).scale + precision c)
          ≡ pos 1 =
        multiplier_same _ _ (omega arith) in
      convert_divides m c c (signed m (abs m * r)) r h (rw (rate, none_up, *ℤ_one) (*ℤ_pos m r))
        (rw (rate, none_down) (*ℤ_one (pos r)))
      ∙ ap ok (divide_with_half_up-exact m r h)

  -- The conversion of an amount that is not negative, with rates that are positive, returns the
  -- nearest whole number of the target's smallest unit: with N and D for the numerator and the
  -- denominator that the rates and the precisions give, the result `t` is the nearest to N / D.
  pub convert_near :
      (m rs rt : ℕ) (source target : SupportedCurrency)
      → (rates source).int ≡ pos rs
      → (rates target).int ≡ pos rt
      → 1 ≤ rt
      → let up = (rates target).scale + precision target in
        let down = precision source + (rates source).scale in
        let n = m * rs * pow10 (up - down) in
        let d = rt * pow10 (down - up) in
        (t : ℕ) × (convert_minor_units rates (pos m) source target ≡ ok (pos t))
        × (2 * (t * d) ≤ 2 * n + d)
        × (2 * n < 2 * (t * d) + d)
  convert_near m rs rt source target hs ht h =
      let up = (rates target).scale + precision target in
      let down = precision source + (rates source).scale in
      let n = m * rs * pow10 (up - down) in
      let d = rt * pow10 (down - up) in
      let positive : 1 ≤ d = one-le-mul rt (pow10 (down - up)) h (pow10_positive (down - up)) in
      let (sign, low, high) = divide_with_half_up_near (pos n) d positive in
      (
        abs (divide_with_half_up (pos n) (pos d)),
        convert_divides (pos m) source target (pos n) d positive
              (rw (hs, *ℤ_pos (pos m) rs) (*ℤ_pos (pos (m * rs)) (pow10 (up - down))))
              (rw ht (*ℤ_pos (pos rt) (pow10 (down - up))))
            ∙ ap ok sign,
        low,
        high,
      )

  -- The amount of the items in the smallest unit of their currency, without any rounding.
  abbrev pub exact_total : SupportedCurrency → List PricedItem → ℤ
  exact_total c [] = pos 0
  exact_total c (item ∷ items) =
      item.price.int *ℤ pos (pow10 (precision c - item.price.scale)) *ℤ item.quantity
      +ℤ exact_total c items

  -- The total of items that are priced in the currency of the total, to its precision, is exact:
  -- converting and rounding each of them changes nothing.
  pub order_total-exact :
      (c : SupportedCurrency) (r : ℕ) (items : List PricedItem) (total : ℤ)
      → 1 ≤ r
      → (rates c).int ≡ pos r
      → All (λ item. (item.currency ≡ c) × (item.price.scale ≤ precision c)) items
      → order_total rates c items total ≡ ok (total +ℤ exact_total c items)
  unfolding order_total
  order_total-exact c r [] total h rate fit = ap ok (omega int_laws)
  order_total-exact c r (item ∷ items) total h rate fit =
      let minor = item.price.int *ℤ pos (pow10 (precision c - item.price.scale)) in
      let converted : convert_minor_units rates (to_minor_units item.price item.currency)
            item.currency c
          ≡ ok minor =
        rw (fit.0.0, to_minor_units-exact item.price c fit.0.1)
          (convert_to_same minor c r h rate) in
      rw (converted, order_total)
        (order_total-exact c r items (total +ℤ minor *ℤ item.quantity) h rate fit.1
          ∙ ap ok (+ℤ_assoc total (minor *ℤ item.quantity) (exact_total c items)))

min_price_minor : (c : SupportedCurrency) → to_minor_units (min_price_of c) c ≡ pos 1
unfolding to_minor_units pow10 ◌*ℤ◌
min_price_minor SupportedCurrency.xlm = refl
min_price_minor SupportedCurrency.usdc = refl
min_price_minor SupportedCurrency.usd = refl

max_price_minor :
    (c : SupportedCurrency)
    → to_minor_units (max_price_of c) c ≡ pos (1000000000 * pow10 (precision c))
unfolding to_minor_units pow10 ◌*ℤ◌
max_price_minor SupportedCurrency.xlm = refl
max_price_minor SupportedCurrency.usdc = refl
max_price_minor SupportedCurrency.usd = refl

-- A price is accepted exactly if it has no more decimal places than the currency, and is at least one
-- smallest unit and at most 1000000000 whole units of it.
pub validate_price_iff :
    (p : DecimalValue) (c : SupportedCurrency)
    → (validate_price p c ≡ ok tt) ↔ (
        (p.scale ≤ precision c)
        × (pos 1 ≤ℤ p.int *ℤ pos (pow10 (precision c - p.scale)))
        × (p.int *ℤ pos (pow10 (precision c - p.scale)) ≤ℤ pos (1000000000 * pow10 (precision c))))
unfolding validate_price
validate_price_iff p c =
    ground (arith, min_price_minor c, max_price_minor c, to_minor_units-exact p c)
