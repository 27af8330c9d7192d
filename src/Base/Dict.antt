-- ===== src/Base/Dict.antt =====
-- A Go map with string keys, as an association list. The order of entries is never observed: where
-- the program ranges over a map it sorts what it collected, or collects into another map.
use Prim.Native.String.{String}
use mathlib.Core.Path.{◌≡◌, refl}
use mathlib.Core.Bool.{Bool, true, false}
use mathlib.Core.Option.{Option, none, some}
use mathlib.Core.List.{List, [], ◌∷◌}
use native.Mathlib.Omega.{arith}
use text.Mathlib.Text.{◌==◌}
use text.Mathlib.TextEquality.{eq_iff}
use stable_bank.Base.Tests.{if◌then◌else◌}

abbrev pub Dict : Type 0 → Type 0
Dict V = List (String × V)

module _ {V : Type 0} where
  unfoldable pub lookup : String → Dict V → Option V
  lookup key [] = none
  lookup key ((at, value) ∷ rest) = if at == key then some value else lookup key rest

  -- `m[k] = v`
  unfoldable pub insert : String → V → Dict V → Dict V
  insert key new [] = (key, new) ∷ []
  insert key new ((at, old) ∷ rest) =
      if at == key then (key, new) ∷ rest else (at, old) ∷ insert key new rest

  abbrev pub is_some : Option V → Bool
  is_some none = false
  is_some (some v) = true

  abbrev pub is_none : Option V → Bool
  is_none none = true
  is_none (some v) = false

  -- The entries' values, as `range` gives them.
  abbrev pub values : Dict V → List V
  values [] = []
  values ((k, v) ∷ m) = v ∷ values m

  -- `_, ok := m[k]`
  abbrev pub contains : String → Dict V → Bool
  contains k m = is_some (lookup k m)

  -- What a map holds under a key after an assignment.
  pub lookup-insert :
      (key wanted : String) (new : V) (entries : Dict V)
      → lookup wanted (insert key new entries)
        ≡ (if key == wanted then some new else lookup wanted entries)
  unfolding lookup insert
  lookup-insert key wanted new [] = refl
  lookup-insert key wanted new ((at, old) ∷ rest) =
      let later = lookup-insert key wanted new rest in
      ground (arith, later, eq_iff at key, eq_iff at wanted, eq_iff key wanted)
