-- ===== src/Base/Sort.antt =====
-- `sort.Slice` and `sort.Strings`: a stable insertion sort. The program sorts by keys that are
-- unique, where every sort gives the same list.
use Prim.Native.Nat.{Ordering}
use Prim.Native.String.{String, compare}
use mathlib.Core.Bool.{Bool, true, false}
use mathlib.Core.List.{List, [], ◌∷◌}
use stable_bank.Base.Tests.{if◌then◌else◌}

-- `a < b` on strings.
abbrev pub ltb_str : String → String → Bool
ltb_str a b = elim (compare a b) [ Ordering.lt ↦ true | _ ↦ false ]

module _ {A : Type 0} (less : A → A → Bool) where
  unfoldable pub insert_sorted : A → List A → List A
  insert_sorted x [] = x ∷ []
  insert_sorted x (y ∷ ys) = if less y x then y ∷ insert_sorted x ys else x ∷ y ∷ ys

  unfoldable pub sort_slice : List A → List A
  unfolding insert_sorted
  sort_slice [] = []
  sort_slice (x ∷ xs) = insert_sorted x (sort_slice xs)
