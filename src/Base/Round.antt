-- ===== src/Base/Round.antt =====
-- Division of natural numbers with rounding: `q.QuoRem(n, d, rem)` on big integers, and its quotient
-- rounded half up. big.Rat keeps fractions in lowest terms; `quo_rem-scale` and `half_up-scale` show
-- that both functions depend on the value of the fraction only.
use Prim.Native.Nat.{ℕ, suc, ◌+◌, ◌*◌, ◌/◌, ◌%◌, ◌≤◌, ◌<◌}
use mathlib.Core.Path.{◌≡◌, ap, subst}
use mathlib.Core.Logic.{inl, inr}
use native.Mathlib.Omega.{arith}
use native.Mathlib.Nat.{mul-div-mul_left, div-add-mod, mul-le-mul_left}
use stable_bank.Base.Tests.{leb, leb→le, le→leb, lt→not_leb, if◌then◌else◌, Bool-cases}

-- `twice.Cmp(d) >= 0` adds one to the quotient.
unfoldable pub half_up : ℕ → ℕ → ℕ
half_up n d = if leb d (n % d * 2) then n / d + 1 else n / d

pub div_parts : (n d : ℕ) → 0 < d → (n / d * d + n % d ≡ n) × (n % d < d)
div_parts n d h = grind arith

-- The result is a nearest whole number, and the larger one of two.
pub half_up_nearest :
    (n d : ℕ) → 0 < d → (half_up n d * d * 2 ≤ n * 2 + d) × (n * 2 < half_up n d * d * 2 + d)
unfolding half_up
half_up_nearest n d h = elim (Bool-cases (leb d (n % d * 2))) [
  | inl up ↦ rw up (grind (arith, div_parts n d h))
  | inr down ↦ rw down (grind (arith, div_parts n d h))
]

pub div_below : (n d : ℕ) → 0 < d → (n / d * d ≤ n) × (n < n / d * d + d)
div_below n d h = grind (arith, div_parts n d h)

mod-scale : (k n d : ℕ) → 0 < k → k * n % (k * d) ≡ k * (n % d)
mod-scale k n d h =
    let split : k * d * (n / d) + k * n % (k * d) ≡ k * n =
      subst (λ q. k * d * q + k * n % (k * d) ≡ k * n) (mul-div-mul_left n d h)
        (div-add-mod (k * n) (k * d)) in
    omega (arith, split, ap (λ (x : ℕ). k * x) (div-add-mod n d))

pub quo_rem-scale :
    (k n d : ℕ) → 0 < k → (k * n / (k * d) ≡ n / d) × (k * n % (k * d) ≡ k * (n % d))
quo_rem-scale k n d h = (mul-div-mul_left n d h, mod-scale k n d h)

scaled_test : (k d r : ℕ) → 0 < k → leb (k * d) (k * r * 2) ≡ leb d (r * 2)
scaled_test k d r h = elim (Bool-cases (leb d (r * 2))) [
  | inl le ↦ rw le (le→leb _ _ (omega (arith, mul-le-mul_left k (leb→le d (r * 2) le))))
  | inr gt ↦
      let less : k * suc (r * 2) ≤ k * d = mul-le-mul_left k (ground arith) in
      rw gt (lt→not_leb _ _ (omega (arith, less, h)))
]

pub half_up-scale : (k n d : ℕ) → 0 < k → half_up (k * n) (k * d) ≡ half_up n d
unfolding half_up
half_up-scale k n d h =
    rw ((quo_rem-scale k n d h).1, (quo_rem-scale k n d h).0, scaled_test k d (n % d) h)
