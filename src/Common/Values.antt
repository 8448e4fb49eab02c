-- ===== src/Common/Values.antt =====
-- Values of the language: a number, or the text as which the database's driver answers the number of
-- a `decimal` column or of a sum over a column. Columns of type `int` and what they store.
use Prim.Native.Nat.{ℕ, zero, suc, ◌+◌, ◌*◌, ◌/◌, ◌^◌, ◌-◌, ◌<◌}
use Prim.Native.Nat.pow
use mathlib.Core.Path.{◌≡◌}
use mathlib.Core.Bool.{Bool, false, ◌&&◌}
use mathlib.Core.Option.{Option, none, some}
use native.Mathlib.Omega.{arith}
use market_x_backend.Common.Tests.{ltb, if◌then◌else◌}
use market_x_backend.Common.Int.{ℤ, pos, negsuc, ◌+ℤ◌, leb_ℤ, eqb_ℤ}

pub data Value : Type 0 where
  number : ℤ → Value
  text : ℤ → Value

-- `===`, which no number and text meet.
abbrev pub strictly_equal : Value → Value → Bool
strictly_equal (number a) (number b) = eqb_ℤ a b
strictly_equal (text a) (text b) = eqb_ℤ a b
strictly_equal (number a) (text b) = false
strictly_equal (text a) (number b) = false

-- `Number(value)` and `parseFloat(value.toString())`; `<` and `>` with a number compare this.
abbrev pub as_number : Value → ℤ
as_number (number n) = n
as_number (text n) = n

-- How many digits a number has, if that is at most twenty-two.
unfoldable pub digits_from : ℕ → ℕ → ℕ
digits_from zero n = 1
digits_from (suc fuel) n = let rest = digits_from fuel (n / 10) in if ltb n 10 then 1 else suc rest

abbrev pub digits : ℕ → ℕ
digits n = digits_from 21 n

-- An `int` column refuses what 32 bits do not hold.
abbrev pub fits_int : ℤ → Bool
fits_int n = leb_ℤ (negsuc 2147483647) n && leb_ℤ n (pos 2147483647)

abbrev pub int_column : ℤ → Option ℤ
int_column n = if fits_int n then some n else none

-- The text of the first number followed by that of the second, if that is a number's text again.
abbrev pub appended : ℤ → ℤ → Option ℤ
appended a (negsuc n) = none
appended (pos a) (pos n) = some (pos (a * 10 ^ digits n + n))
appended (negsuc a) (pos n) = some (negsuc (suc a * 10 ^ digits n + n - 1))

-- What an `int` column stores of `value + n`: `+` adds to a number and appends to a text.
abbrev pub stored_sum : Value → ℤ → Option ℤ
stored_sum (number a) n = int_column (a +ℤ n)
stored_sum (text a) n = elim (appended a n) [ none ↦ none | some m ↦ int_column m ]

pow_suc : (b k : ℕ) → b ^ suc k ≡ b ^ k * b
pow_suc b k = pow.suc b k

-- The fuel of `digits` is enough for every number below 10 ^ 22, where numbers have no exponent yet.
pub digits_from-enough : (fuel n : ℕ) → n < 10 ^ suc fuel → n < 10 ^ digits_from fuel n
unfolding digits_from
digits_from-enough zero n below = below
digits_from-enough (suc fuel) n below =
    let tenth : n / 10 < 10 ^ suc fuel = omega (arith, pow_suc 10 (suc fuel)) in
    let rest = digits_from-enough fuel (n / 10) tenth in
    ground (arith, rest, pow_suc 10 (digits_from fuel (n / 10)), pow_suc 10 0, pow.zero 10)
