-- ===== src/Base/Float.antt =====
-- Float64 arithmetic on fractions: a result is rounded to 53 significant bits, to the nearest and of
-- two to the even one (IEEE 754, as Go's float64 has it). Fractions have no largest or smallest
-- exponent; what is computed with here, whole numbers of an int64 and their quotients, stays far
-- inside the exponents that a float64 has.
use Prim.Native.Nat.{ℕ, zero, suc, ◌+◌, ◌*◌, ◌/◌, ◌%◌, ◌^◌}
use mathlib.Core.Path.{◌≡◌, refl}
use mathlib.Core.Bool.{true, false, ◌&&◌, ◌||◌}
use stable_bank.Base.Tests.{ltb, ◌==◌, if◌then◌else◌}

-- The number of bits of `n`, of which `fuel` is at least as many.
unfoldable pub bit_length : ℕ → ℕ → ℕ
bit_length zero n = 0
bit_length (suc fuel) n = elim (n == 0) as (λ _. ℕ) [
  | true ↦ 0
  | false ↦ suc (bit_length fuel (n / 2))
]

-- A fraction of natural numbers, with a denominator that is not zero.
pub record Fraction : Type 0 where
  pub num : ℕ
  pub den : ℕ

-- n/d to the nearest whole number, of two to the even one.
unfoldable pub half_even : ℕ → ℕ → ℕ
half_even n d =
    let q = n / d in
    let twice = n % d * 2 in if ltb d twice || ((twice == d) && (q % 2 == 1)) then q + 1 else q

-- `scaled` is the fraction times 2^(d + 54 - n), for its parts' bit lengths `n` and `d`: it lies
-- between 2^53 and 2^55, and with the divisor 2 or 4 it has 53 bits before the point.
unfoldable pub round_float : Fraction → Fraction
unfolding bit_length half_even
round_float x =
    let n = bit_length x.num x.num in
    let d = bit_length x.den x.den in
    let up = 2 ^ (d + 54) in
    let scaled = x.num * up in
    let unit = x.den * 2 ^ n in
    let divisor = if ltb scaled (unit * 2 ^ 54) then 2 else 4 in
    record { num = half_even scaled (unit * divisor) * (2 ^ n * divisor); den = up }

-- `a / b * c` for whole numbers.
unfoldable pub float_ratio : ℕ → ℕ → ℕ → Fraction
unfolding round_float
float_ratio a b c =
    let whole = round_float (record { num = a; den = 1 }) in
    let quotient = round_float (record { num = whole.num; den = whole.den * b }) in
    round_float (record { num = quotient.num * c; den = quotient.den })

-- 55000 / 100000 * 100 exceeds 55 by 2^-47, and 1 / 4 * 100 is exact.
ratio_test :
    (float_ratio 55000 100000 100).num * 2 ^ 47
    ≡ (55 * 2 ^ 47 + 1) * (float_ratio 55000 100000 100).den
unfolding float_ratio round_float
ratio_test = refl

exact_test : (float_ratio 1 4 100).num ≡ 25 * (float_ratio 1 4 100).den
unfolding float_ratio round_float
exact_test = refl
