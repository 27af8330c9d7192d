-- ===== src/Base/Selection.antt =====
-- Boolean tests of properties, and the elements of a list that have a property, as a relation of two
-- lists.
use mathlib.Core.Path.{◌≡◌, refl}
use mathlib.Core.Logic.{◌⊎◌, ◌↔◌, inl, inr}
use mathlib.Core.Bool.{Bool, true, false, ◌&&◌, ◌||◌}
use mathlib.Core.List.{List, [], ◌∷◌}
use Prim.Native.Nat.{ℕ, ◌<◌}
use Prim.Native.String.{String}
use native.Mathlib.Omega.{arith}
use text.Mathlib.Text.{◌==◌ as str_eq}
use text.Mathlib.TextEquality.{eq_iff}
use stable_bank.Base.Tests.{ltb, ltb→lt, lt→ltb}
use stable_bank.Base.Lists.{keep}

-- What a test says of a property.
abbrev pub Tells : Bool → Type 0 → Type 0
Tells b P = ((b ≡ true) × P) ⊎ ((b ≡ false) × (¬ P))

pub tells_and : (a b : Bool) {P Q : Type 0} → Tells a P → Tells b Q → Tells (a && b) (P × Q)
tells_and a b (inl (holds, p)) (inl (holds', q)) = inl (ground arith, (p, q))
tells_and a b (inl (holds, p)) (inr (fails, lacks)) = inr (ground arith, λ h. lacks h.1)
tells_and a b (inr (fails, lacks)) t = inr (ground arith, λ h. lacks h.0)

pub tells_or : (a b : Bool) {P Q : Type 0} → Tells a P → Tells b Q → Tells (a || b) (P ⊎ Q)
tells_or a b (inl (holds, p)) t = inl (ground arith, inl p)
tells_or a b (inr (fails, lacks)) (inl (holds, q)) = inl (ground arith, inr q)
tells_or a b (inr (fails, lacks)) (inr (fails', lacks')) =
    inr (ground arith, λ h. elim h [ inl p ↦ lacks p | inr q ↦ lacks' q ])

pub tells_iff : (a : Bool) {P Q : Type 0} → P ↔ Q → Tells a P → Tells a Q
tells_iff a iff (inl (holds, p)) = inl (holds, iff.0 p)
tells_iff a iff (inr (fails, lacks)) = inr (fails, λ q. lacks (iff.1 q))

pub tells_by : (a : Bool) {P : Type 0} → (a ≡ true) ↔ P → Tells a P
tells_by true iff = inl (refl, iff.0 refl)
tells_by false iff = inr (refl, λ p. let bad : false ≡ true = iff.1 p in cc)

pub tells_same : (s t : String) → Tells (str_eq s t) (s ≡ t)
tells_same s t = tells_by (str_eq s t) (eq_iff s t)

pub tells_less : (m n : ℕ) → Tells (ltb m n) (m < n)
tells_less m n = tells_by (ltb m n) (ltb→lt m n, lt→ltb m n)

-- The second list has the elements of the first that have the property, in their order.
pub data Selection {A : Type 0} (Has : A → Type 0) : List A → List A → Type 0 where
  nothing : Selection Has [] []
  with_it : {x : A} {xs ys : List A} → Has x → Selection Has xs ys → Selection Has (x ∷ xs) (x ∷ ys)
  without : {x : A} {xs ys : List A} → ¬ Has x → Selection Has xs ys → Selection Has (x ∷ xs) ys

pub keep-Selection :
    {A : Type 0} {Has : A → Type 0} (p : A → Bool)
    → ((x : A) → Tells (p x) (Has x))
    → (xs : List A) → Selection Has xs (keep p xs)
keep-Selection p tells [] = nothing
keep-Selection p tells (x ∷ xs) = elim (tells x) [
  | inl (holds, has) ↦ rw holds (with_it has (keep-Selection p tells xs))
  | inr (fails, lacks) ↦ rw fails (without lacks (keep-Selection p tells xs))
]
