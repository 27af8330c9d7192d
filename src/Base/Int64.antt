-- ===== src/Base/Int64.antt =====
-- Go's int64: an integer kept in range by wrapping around 2^64.
use Prim.Native.Nat.{ℕ, ◌+◌, ◌-◌, ◌%◌, ◌<◌, ◌≤◌}
use mathlib.Core.Path.{◌≡◌, refl, ap, ◌∙◌}
use mathlib.Core.Bool.{Bool}
use native.Mathlib.Omega.{arith}
use stable_bank.Base.Tests.{ltb, ◌==◌, if◌then◌else◌}
use stable_bank.Base.Int.{ℤ, pos, negsuc, pos_part, neg_part, ◌+ℤ◌, ◌-ℤ◌, int_laws}

-- 2^64 and 2^63.
abbrev pub word_mod : ℕ
word_mod = 18446744073709551616

abbrev pub half_mod : ℕ
half_mod = 9223372036854775808

-- The bit pattern of an integer, two's complement.
unfoldable pub bits : ℤ → ℕ
bits (pos n) = n % word_mod
bits (negsuc n) = word_mod - 1 - n % word_mod

-- The integer that a bit pattern stands for.
unfoldable pub signed : ℕ → ℤ
signed w = if ltb w half_mod then pos w else negsuc (word_mod - 1 - w)

unfoldable pub wrap64 : ℤ → ℤ
unfolding bits signed
wrap64 a = signed (bits a)

unfoldable pub add64 : ℤ → ℤ → ℤ
unfolding wrap64 ◌+ℤ◌
add64 a b = wrap64 (a +ℤ b)

unfoldable pub sub64 : ℤ → ℤ → ℤ
unfolding wrap64 ◌-ℤ◌
sub64 a b = wrap64 (a -ℤ b)

abbrev pub eq_ℤ : ℤ → ℤ → Bool
eq_ℤ a b = (pos_part a + neg_part b) == (pos_part b + neg_part a)

-- What an int64 can hold.
abbrev pub Fits : ℤ → Type 0
Fits a = (pos_part a < half_mod) × (neg_part a ≤ half_mod)

pub bits-lt : (a : ℤ) → bits a < word_mod
unfolding bits
bits-lt a = ground arith

pub wrap64-Fits : (a : ℤ) → Fits (wrap64 a)
unfolding wrap64
wrap64-Fits a = ground (arith, bits-lt a)

pub wrap64-eq : (a : ℤ) → Fits a → wrap64 a ≡ a
unfolding wrap64
wrap64-eq a h = ground arith

pub bits-wrap64 : (a : ℤ) → bits (wrap64 a) ≡ bits a
unfolding wrap64
bits-wrap64 a = ground arith

pub bits-+ℤ : (a b : ℤ) → bits (a +ℤ b) ≡ (bits a + bits b) % word_mod
unfolding bits ◌+ℤ◌
bits-+ℤ a b = ground arith

pub wrap64-of-bits : (a b : ℤ) → bits a ≡ bits b → wrap64 a ≡ wrap64 b
unfolding wrap64
wrap64-of-bits a b h = ground arith

-- What is taken off and added again, in either order, gives the integer back.
sub-then-add : (a b : ℤ) → b +ℤ (a -ℤ b) ≡ a
sub-then-add a b = omega (int_laws)

pub add64-sub64 : (a b : ℤ) → Fits a → add64 b (sub64 a b) ≡ a
unfolding add64 sub64
add64-sub64 a b h =
    let same_bits : bits (b +ℤ wrap64 (a -ℤ b)) ≡ bits (b +ℤ (a -ℤ b)) =
      omega (arith, bits-+ℤ b (wrap64 (a -ℤ b)), bits-+ℤ b (a -ℤ b), bits-wrap64 (a -ℤ b)) in
    wrap64-of-bits (b +ℤ wrap64 (a -ℤ b)) (b +ℤ (a -ℤ b)) same_bits
    ∙ ap wrap64 (sub-then-add a b)
    ∙ wrap64-eq a h

add_comm : (a b : ℤ) → a +ℤ b ≡ b +ℤ a
add_comm a b = omega (int_laws)

pub add64_comm : (a b : ℤ) → add64 a b ≡ add64 b a
unfolding add64
add64_comm a b = ap wrap64 (add_comm a b)

pub sub64-Fits : (a b : ℤ) → Fits (sub64 a b)
unfolding sub64
sub64-Fits a b = wrap64-Fits (a -ℤ b)

sub_self : (a : ℤ) → a -ℤ a ≡ pos 0
sub_self a = omega (int_laws)

pub sub64_self : (a : ℤ) → sub64 a a ≡ pos 0
unfolding sub64 wrap64
sub64_self a = rw (sub_self a) refl

add_zero : (a : ℤ) → a +ℤ pos 0 ≡ a
add_zero a = omega (int_laws)

pub add64_zero : (a : ℤ) → Fits a → add64 a (pos 0) ≡ a
unfolding add64
add64_zero a h = ap wrap64 (add_zero a) ∙ wrap64-eq a h

exact_difference : (m p : ℕ) → p ≤ m → pos m -ℤ pos p ≡ pos (m - p)
exact_difference m p le = omega (int_laws)

pub sub64-pos : (m p : ℕ) → m < half_mod → p ≤ m → sub64 (pos m) (pos p) ≡ pos (m - p)
unfolding sub64
sub64-pos m p h le =
    ap wrap64 (exact_difference m p le) ∙ wrap64-eq (pos (m - p)) (omega (arith, h), omega arith)

exact_sum : (m p : ℕ) → pos m +ℤ pos p ≡ pos (m + p)
exact_sum m p = omega (int_laws)

pub add64-pos : (m p : ℕ) → m + p < half_mod → add64 (pos m) (pos p) ≡ pos (m + p)
unfolding add64
add64-pos m p h = ap wrap64 (exact_sum m p) ∙ wrap64-eq (pos (m + p)) (h, omega arith)

pub add64-eq : (a b : ℤ) → Fits (a +ℤ b) → add64 a b ≡ a +ℤ b
unfolding add64
add64-eq a b h = wrap64-eq (a +ℤ b) h
