-- ===== src/Ledger/Totals.antt =====
-- The sum of a map of int64, in int64, and what a posting adds to it.
use stable_bank.Base.{
  ◌+◌, ◌%◌, ◌≡◌, refl, sym, ◌∙◌, String, true, false, inl, inr, [], ◌∷◌, arith, Bool-cases, str_eq,
}
use stable_bank.Base.Int.{ℤ, pos}
use stable_bank.Base.Int64.{
  word_mod, bits, wrap64, add64, bits-lt, bits-wrap64, bits-+ℤ, wrap64-of-bits, wrap64-eq,
  wrap64-Fits,
}
use stable_bank.Base.Dict.{Dict, lookup, insert}
use stable_bank.Ledger.Projection.{lookup_zero, bump}

-- The sum of all the values of the map, as a Go loop over it adds them up.
unfoldable pub total64 : Dict ℤ → ℤ
total64 [] = pos 0
total64 ((k, v) ∷ m) = add64 v (total64 m)

pub bits-add64 : (a b : ℤ) → bits (add64 a b) ≡ (bits a + bits b) % word_mod
bits-add64 a b = unfold add64 in (bits-wrap64 _ ∙ bits-+ℤ a b)

pub bits-zero : bits (pos 0) ≡ 0
unfolding bits
bits-zero = refl

hit_total :
    (k j : String) (v u : ℤ) (m : Dict ℤ)
    → str_eq j k ≡ true
    → total64 (insert k v ((j, u) ∷ m)) ≡ add64 v (total64 m)
unfolding total64 insert
hit_total k j v u m h = rw h

miss_total :
    (k j : String) (v u : ℤ) (m : Dict ℤ)
    → str_eq j k ≡ false
    → total64 (insert k v ((j, u) ∷ m)) ≡ add64 u (total64 (insert k v m))
unfolding total64 insert
miss_total k j v u m h = rw h

hit_value : (k j : String) (u : ℤ) (m : Dict ℤ) → str_eq j k ≡ true → lookup_zero k ((j, u) ∷ m) ≡ u
unfolding lookup_zero lookup
hit_value k j u m h = ground arith

miss_value :
    (k j : String) (u : ℤ) (m : Dict ℤ)
    → str_eq j k ≡ false
    → lookup_zero k ((j, u) ∷ m) ≡ lookup_zero k m
unfolding lookup_zero lookup
miss_value k j u m h = ground arith

total64-cons : (k : String) (v : ℤ) (m : Dict ℤ) → total64 ((k, v) ∷ m) ≡ add64 v (total64 m)
unfolding total64
total64-cons k v m = refl

ruleset bit_laws = (arith, bits-add64, bits-zero, bits-lt)

-- A write replaces one value in the sum.
total64-insert :
    (k : String) (v : ℤ) (m : Dict ℤ)
    → (bits (total64 (insert k v m)) + bits (lookup_zero k m)) % word_mod
      ≡ (bits (total64 m) + bits v) % word_mod
total64-insert k v [] = unfold total64 insert lookup_zero lookup in omega bit_laws
total64-insert k v ((j, u) ∷ m) = elim (Bool-cases (str_eq j k)) [
  | inl same ↦
      rw (hit_total k j v u m same, hit_value k j u m same, total64-cons j u m) (omega bit_laws)
  | inr other ↦
      rw (miss_total k j v u m other, miss_value k j u m other, total64-cons j u m)
        (omega (bit_laws, total64-insert k v m))
]

-- `m[k] += x` adds `x` to the sum of the map.
pub total64-bump :
    (k : String) (x : ℤ) (m : Dict ℤ)
    → bits (total64 (bump k x m)) ≡ (bits (total64 m) + bits x) % word_mod
unfolding bump
total64-bump k x m = omega (bit_laws, total64-insert k (add64 (lookup_zero k m) x) m)

total64-wrapped : (m : Dict ℤ) → wrap64 (total64 m) ≡ total64 m
unfolding total64
total64-wrapped [] = wrap64-eq (pos 0) (omega arith)
total64-wrapped ((k, v) ∷ m) = unfold add64 in wrap64-eq _ (wrap64-Fits _)

-- Two sums with the same bit pattern are equal.
pub total64-eq : (m n : Dict ℤ) → bits (total64 m) ≡ bits (total64 n) → total64 m ≡ total64 n
total64-eq m n h = sym (total64-wrapped m) ∙ wrap64-of-bits _ _ h ∙ total64-wrapped n
