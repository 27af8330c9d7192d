-- ===== src/Ledger/Fx/Rounding.antt =====
-- The rounding of `convertMinor` (internal/ledger/fx.go).
use Prim.Native.Nat.{◌≤◌, ◌<◌}
use native.Mathlib.Nat.{one-le-pow, mul-le-mul_right}
use native.Mathlib.Omega.{arith}
use stable_bank.Base.{
  ℕ, ◌+◌, ◌*◌, ◌/◌, ◌^◌, ◌≡◌, refl, Bool, true, ◌⊎◌, inl, inr, ltb, if◌then◌else◌, zero, suc, ok,
  err, Bool-cases,
}
use stable_bank.Base.Int.{ℤ, pos, ◌*ℤ◌, nat_abs}
use stable_bank.Base.Int64.{half_mod}
use stable_bank.Base.Round.{half_up, half_up_nearest, div_below}
use stable_bank.Ledger.Types.{amount_overflow}
use stable_bank.Ledger.Fx.{is_negative, negate, round_rat, convert_minor}

-- `v` has the sign asked for, and the magnitude of a nearest whole number of n/d.
abbrev pub IsNearest : Bool → ℕ → ℕ → ℤ → Type 0
IsNearest neg n d v =
    (nat_abs v * d * 2 ≤ n * 2 + d)
    × (n * 2 < nat_abs v * d * 2 + d)
    × ((is_negative v ≡ neg) ⊎ (v ≡ pos 0))

-- `v` is n/d with the sign asked for, cut off towards zero.
abbrev pub IsCut : Bool → ℕ → ℕ → ℤ → Type 0
IsCut neg n d v =
    (nat_abs v * d ≤ n) × (n < nat_abs v * d + d) × ((is_negative v ≡ neg) ⊎ (v ≡ pos 0))

negated-sign :
    (q : ℕ) → (nat_abs (negate q) ≡ q) × ((is_negative (negate q) ≡ true) ⊎ (negate q ≡ pos 0))
negated-sign zero = (refl, inr refl)
negated-sign (suc q) = (refl, inl refl)

module _ (neg : Bool) (n d : ℕ) (h : 0 < d) where
  signed-IsNearest : IsNearest neg n d (if neg then negate (half_up n d) else pos (half_up n d))
  signed-IsNearest = elim (Bool-cases neg) [
    | inl minus ↦
        rw (minus, (negated-sign (half_up n d)).0)
          ((half_up_nearest n d h).0, (half_up_nearest n d h).1, (negated-sign (half_up n d)).1)
    | inr plus ↦ rw plus ((half_up_nearest n d h).0, (half_up_nearest n d h).1, inl refl)
  ]

  round_rat-half_up :
      ((v : ℤ) × (round_rat neg n d "half_up" ≡ ok v) × IsNearest neg n d v)
      ⊎ ((round_rat neg n d "half_up" ≡ err amount_overflow) × (half_mod * d * 2 ≤ n * 2 + d))
  unfolding round_rat
  round_rat-half_up = elim (Bool-cases (ltb (half_up n d) half_mod)) [
    | inl small ↦ inl (_, rw small refl, signed-IsNearest)
    | inr large ↦
        let many : half_mod * d ≤ half_up n d * d = mul-le-mul_right d (ground arith) in
        inr (rw large refl, omega (arith, many, (half_up_nearest n d h).0))
  ]

  signed-IsCut : IsCut neg n d (if neg then negate (n / d) else pos (n / d))
  signed-IsCut = elim (Bool-cases neg) [
    | inl minus ↦
        rw (minus, (negated-sign (n / d)).0)
          ((div_below n d h).0, (div_below n d h).1, (negated-sign (n / d)).1)
    | inr plus ↦ rw plus ((div_below n d h).0, (div_below n d h).1, inl refl)
  ]

  round_rat-down :
      ((v : ℤ) × (round_rat neg n d "down" ≡ ok v) × IsCut neg n d v)
      ⊎ ((round_rat neg n d "down" ≡ err amount_overflow) × (half_mod * d ≤ n))
  unfolding round_rat
  round_rat-down = elim (Bool-cases (ltb (n / d) half_mod)) [
    | inl small ↦ inl (_, rw small refl, signed-IsCut)
    | inr large ↦
        let many : half_mod * d ≤ n / d * d = mul-le-mul_right d (ground arith) in
        inr (rw large refl, omega (arith, many, (div_below n d h).0))
  ]

-- The exact fraction that a conversion rounds: `amount` and `unit` below.
abbrev pub exact : ℤ → ℕ → ℤ → ℤ
exact minor to_decimals scaled = minor *ℤ scaled *ℤ pos (10 ^ to_decimals)

abbrev pub unit : ℕ → ℕ
unit from_decimals = 10 ^ 8 * 10 ^ from_decimals

unit_pos : (decimals : ℕ) → 0 < unit decimals
unit_pos decimals = omega (arith, one-le-pow decimals 10 (omega arith))

-- Converting an amount in the mode half_up gives a nearest whole number of minor units to the exact
-- product of amount, rate and the ratio of the currencies' units, halves away from zero and with the
-- product's sign; or it is refused for overflow, and then that number is 2^63 or more in magnitude.
pub convert_minor-half_up :
    (minor : ℤ) (from_decimals to_decimals : ℕ) (scaled : ℤ)
    → let x = exact minor to_decimals scaled in
      let r = convert_minor minor from_decimals to_decimals scaled "half_up" in
      ((v : ℤ) × (r ≡ ok v) × IsNearest (is_negative x) (nat_abs x) (unit from_decimals) v)
      ⊎ ((r ≡ err amount_overflow)
          × (half_mod * unit from_decimals * 2 ≤ nat_abs x * 2 + unit from_decimals))
unfolding convert_minor
convert_minor-half_up minor from_decimals to_decimals scaled =
    let x = exact minor to_decimals scaled in
    round_rat-half_up (is_negative x) (nat_abs x) (unit from_decimals) (unit_pos from_decimals)

-- Converting an amount in the mode down cuts the exact product off towards zero; or it is refused
-- for overflow, and then the product is 2^63 minor units or more.
pub convert_minor-down :
    (minor : ℤ) (from_decimals to_decimals : ℕ) (scaled : ℤ)
    → let x = exact minor to_decimals scaled in
      let r = convert_minor minor from_decimals to_decimals scaled "down" in
      ((v : ℤ) × (r ≡ ok v) × IsCut (is_negative x) (nat_abs x) (unit from_decimals) v)
      ⊎ ((r ≡ err amount_overflow) × (half_mod * unit from_decimals ≤ nat_abs x))
unfolding convert_minor
convert_minor-down minor from_decimals to_decimals scaled =
    let x = exact minor to_decimals scaled in
    round_rat-down (is_negative x) (nat_abs x) (unit from_decimals) (unit_pos from_decimals)
