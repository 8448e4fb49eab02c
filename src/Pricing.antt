-- ===== src/Pricing.antt =====
-- src/products/services/pricing.service.ts: amounts as whole numbers of a currency's smallest unit,
-- rounding, and the conversion between currencies. A decimal text is here what `parseDecimal` makes
-- of it: its digits as a whole number, and how many of them stand after the point.
pub mod Rounding
pub mod Conversion
pub mod Tests
use market_x_backend.Common.{
  ℕ, zero, suc, ◌+◌, ◌-◌, ◌*◌, ◌/◌, ◌%◌, Bool, true, false, ◌||◌, List, [], ◌∷◌, ltb, leb, ◌==◌,
  if◌then◌else◌,
}
use market_x_backend.Common.Int.{ℤ, pos, negsuc, ◌+ℤ◌, ◌*ℤ◌, ltb_ℤ, eqb_ℤ}
use market_x_backend.Common.Outcome.{Outcome, ok, err, bad_request}
use market_x_backend.Entities.{SupportedCurrency}

pub record DecimalValue : Type 0 where
  pub int : ℤ
  pub scale : ℕ

-- `getCurrencyPrecision`
abbrev pub precision : SupportedCurrency → ℕ
precision SupportedCurrency.xlm = 7
precision SupportedCurrency.usdc = 2
precision SupportedCurrency.usd = 2

unfoldable pub pow10 : ℕ → ℕ
pow10 zero = 1
pow10 (suc n) = 10 * pow10 n

-- The absolute value of a big integer, its negation, and `/` and `%` of big integers, which round
-- toward zero; `%` has the sign of the first operand.
abbrev pub abs : ℤ → ℕ
abs (pos n) = n
abs (negsuc n) = suc n

abbrev pub neg : ℕ → ℤ
neg zero = pos 0
neg (suc n) = negsuc n

abbrev pub negative : ℤ → Bool
negative (pos n) = false
negative (negsuc n) = true

abbrev pub quotient : ℤ → ℤ → ℤ
quotient (pos a) (pos b) = pos (a / b)
quotient (pos a) (negsuc b) = neg (a / suc b)
quotient (negsuc a) (pos b) = neg (suc a / b)
quotient (negsuc a) (negsuc b) = pos (suc a / suc b)

abbrev pub remainder : ℤ → ℤ → ℤ
remainder (pos a) b = pos (a % abs b)
remainder (negsuc a) b = neg (suc a % abs b)

unfoldable pub divide_with_half_up : ℤ → ℤ → ℤ
divide_with_half_up numerator denominator =
    let q = quotient numerator denominator in
    let r = remainder numerator denominator in
    if eqb_ℤ r (pos 0)
    then q
    else if ltb (abs r * 2) (abs denominator)
    then q
    else q +ℤ (if negative numerator then negsuc 0 else pos 1)

-- `toMinorUnitsFromString`
unfoldable pub to_minor_units : DecimalValue → SupportedCurrency → ℤ
to_minor_units decimal currency =
    if leb decimal.scale (precision currency)
    then decimal.int *ℤ pos (pow10 (precision currency - decimal.scale))
    else divide_with_half_up decimal.int (pos (pow10 (decimal.scale - precision currency)))

-- The smallest and the largest price of a currency: `minPriceByCurrency` is one of its smallest unit
-- and `maxPriceByCurrency` is 1000000000.
abbrev pub min_price_of : SupportedCurrency → DecimalValue
min_price_of SupportedCurrency.xlm = record { int = pos 1; scale = 7 }
min_price_of SupportedCurrency.usdc = record { int = pos 1; scale = 2 }
min_price_of SupportedCurrency.usd = record { int = pos 1; scale = 2 }

abbrev pub max_price_of : SupportedCurrency → DecimalValue
max_price_of currency = record { int = pos 1000000000; scale = 0 }

unfoldable pub validate_price : DecimalValue → SupportedCurrency → Outcome (Unit {0})
validate_price amount currency =
    if ltb (precision currency) amount.scale
    then err (bad_request "Invalid precision")
    else let minor = to_minor_units amount currency in
      if ltb_ℤ minor (to_minor_units (min_price_of currency) currency)
        || ltb_ℤ (to_minor_units (max_price_of currency) currency) minor
      then err (bad_request "Price out of range")
      else ok tt

-- `defaultRates`: one unit of the currency in dollars.
abbrev pub default_rates : SupportedCurrency → DecimalValue
default_rates SupportedCurrency.xlm = record { int = pos 1200000; scale = 7 }
default_rates SupportedCurrency.usdc = record { int = pos 10000000; scale = 7 }
default_rates SupportedCurrency.usd = record { int = pos 10000000; scale = 7 }

-- `10 ** exponent` for an exponent `up - down`, and 1 for one below zero.
abbrev pub multiplier : ℕ → ℕ → ℤ
multiplier up down = pos (pow10 (up - down))

-- The rates are what `getLiveRates` returns.
unfoldable pub convert_minor_units :
    (SupportedCurrency → DecimalValue) → ℤ → SupportedCurrency → SupportedCurrency → Outcome ℤ
convert_minor_units rates source_minor source target =
    let up = (rates target).scale + precision target in
    let down = precision source + (rates source).scale in
    let numerator = source_minor *ℤ (rates source).int *ℤ multiplier up down in
    let denominator = (rates target).int *ℤ multiplier down up in
    if eqb_ℤ denominator (pos 0)
    then err (bad_request "Invalid conversion rate configuration.")
    else ok (divide_with_half_up numerator denominator)

pub record PricedItem : Type 0 where
  pub price : DecimalValue
  pub currency : SupportedCurrency
  pub quantity : ℤ

-- What the conversion of one item adds to the total, if there is a rate.
abbrev pub add_converted : ℤ → ℤ → Outcome ℤ → Outcome ℤ
add_converted total quantity (ok minor) = ok (total +ℤ minor *ℤ quantity)
add_converted total quantity (err e) = err e

-- The loop of `calculateOrderTotal`, before the total is printed.
unfoldable pub order_total :
    (SupportedCurrency → DecimalValue) → SupportedCurrency → List PricedItem → ℤ → Outcome ℤ
order_total rates target [] total = ok total
order_total rates target (item ∷ items) total =
    elim (add_converted total item.quantity
      (convert_minor_units rates (to_minor_units item.price item.currency) item.currency target)) [
        | ok total' ↦ order_total rates target items total'
        | err e ↦ err e
      ]
