-- ===== src/Pricing/Tests.antt =====
-- Prices in lumens and in dollars.
use market_x_backend.Common.{ℕ, ◌*◌, ◌≤◌, ◌<◌, ◌+◌, ◌-◌, ◌≡◌, refl, [], ◌∷◌, arith}
use market_x_backend.Common.Int.{pos, negsuc, ◌+ℤ◌, ◌*ℤ◌}
use market_x_backend.Common.Outcome.{ok}
use market_x_backend.Entities.{SupportedCurrency}
use market_x_backend.Pricing.{
  pow10, abs, divide_with_half_up, default_rates, convert_minor_units, PricedItem, order_total,
}
use market_x_backend.Pricing.Rounding.{signed, divide_with_half_up_near}
use market_x_backend.Pricing.Conversion.{convert_to_same, convert_near, order_total-exact}

-- -2.5 is rounded to -3, and 12.3456789 lumens are 1.48 dollars.
half_down : divide_with_half_up (negsuc 4) (pos 2) ≡ negsuc 2
unfolding divide_with_half_up ◌+ℤ◌
half_down = refl

lumens_in_dollars :
    convert_minor_units default_rates (pos 123456789) SupportedCurrency.xlm SupportedCurrency.usd
    ≡ ok (pos 148)
unfolding convert_minor_units divide_with_half_up pow10 ◌+ℤ◌ ◌*ℤ◌
lumens_in_dollars = refl

divide_with_half_up_near_example :
    let r = divide_with_half_up (negsuc 4) (pos 2) in
    (r ≡ signed (negsuc 4) (abs r)) × (2 * (abs r * 2) ≤ 2 * 5 + 2) × (2 * 5 < 2 * (abs r * 2) + 2)
divide_with_half_up_near_example = divide_with_half_up_near (negsuc 4) 2 (omega arith)

convert_to_same_example :
    convert_minor_units default_rates (pos 250) SupportedCurrency.usd SupportedCurrency.usd
    ≡ ok (pos 250)
convert_to_same_example =
    convert_to_same default_rates (pos 250) SupportedCurrency.usd 10000000 (omega arith) refl

convert_near_example :
    let n = 123456789 * 1200000 * pow10 (7 + 2 - (7 + 7)) in
    let d = 10000000 * pow10 (7 + 7 - (7 + 2)) in
    (t : ℕ) × (convert_minor_units default_rates
        (pos 123456789)
        SupportedCurrency.xlm
        SupportedCurrency.usd
      ≡ ok (pos t))
    × (2 * (t * d) ≤ 2 * n + d)
    × (2 * n < 2 * (t * d) + d)
convert_near_example =
    convert_near default_rates 123456789 1200000 10000000 SupportedCurrency.xlm
      SupportedCurrency.usd refl refl (omega arith)

-- Three of 12.5 dollars.
abbrev lamp_price : PricedItem
lamp_price = record {
  price = record { int = pos 125; scale = 1 };
  currency = SupportedCurrency.usd;
  quantity = pos 3;
}

order_total-exact_example :
    order_total default_rates SupportedCurrency.usd (lamp_price ∷ []) (pos 0) ≡ ok (pos 3750)
unfolding pow10 ◌+ℤ◌ ◌*ℤ◌
order_total-exact_example =
    order_total-exact default_rates SupportedCurrency.usd 10000000 (lamp_price ∷ []) (pos 0)
      (omega arith) refl ((refl, omega arith), tt)
