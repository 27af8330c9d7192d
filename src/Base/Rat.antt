-- ===== src/Base/Rat.antt =====
-- Go's big.Rat as an unreduced fraction with a positive denominator. The program reads a big.Rat by
-- its sign and by rounding it, and both depend on its value only: see `half_up-scale` in Base/Round.
use Prim.Native.Nat.{ℕ, zero, suc, ◌*◌}
use stable_bank.Base.Int.{ℤ, pos, negsuc, ◌+ℤ◌, ◌-ℤ◌, ◌*ℤ◌, nat_abs}

pub record Rat : Type 0 where
  pub num : ℤ
  pub den : ℕ

abbrev pub rat_of : ℤ → Rat
rat_of a = record { num = a; den = 1 }

abbrev pub rat_mul : Rat → Rat → Rat
rat_mul a b = record { num = a.num *ℤ b.num; den = a.den * b.den }

abbrev pub rat_add : Rat → Rat → Rat
rat_add a b = record { num = a.num *ℤ pos b.den +ℤ b.num *ℤ pos a.den; den = a.den * b.den }

abbrev pub rat_sub : Rat → Rat → Rat
rat_sub a b = record { num = a.num *ℤ pos b.den -ℤ b.num *ℤ pos a.den; den = a.den * b.den }

-- 1, 0 or -1 by the sign of the integer.
abbrev sign_of : ℤ → ℤ
sign_of (pos zero) = pos 0
sign_of (pos (suc n)) = pos 1
sign_of (negsuc n) = negsuc 0

-- `Quo`, of a divisor that is not zero.
abbrev pub rat_quo : Rat → Rat → Rat
rat_quo a b = record { num = a.num *ℤ pos b.den *ℤ sign_of b.num; den = a.den * nat_abs b.num }
