-- ===== src/Rules/Diff/Sides.antt =====
-- Both texts can be read off a diff of internal/rules/diff.go.
use stable_bank.Base.{
  ℕ, suc, ◌≡◌, refl, String, List, [], ◌∷◌, leb, str_eq, eq_iff, Bool-cases, inl, inr, ap, ◌∙◌,
}
use stable_bank.Rules.Diff.{
  Lines, Edit, unchanged, removed, added, all_added, backtrace, split_lines, line_edits, dp,
}

-- The lines that are not added, and the lines that are not removed.
unfoldable pub old_side : List Edit → Lines
old_side [] = []
old_side (unchanged x ∷ es) = x ∷ old_side es
old_side (removed x ∷ es) = x ∷ old_side es
old_side (added y ∷ es) = old_side es

unfoldable pub new_side : List Edit → Lines
new_side [] = []
new_side (unchanged x ∷ es) = x ∷ new_side es
new_side (removed x ∷ es) = new_side es
new_side (added y ∷ es) = y ∷ new_side es

old_side-all_added : (ys : Lines) → old_side (all_added ys) ≡ []
unfolding old_side
old_side-all_added [] = refl
old_side-all_added (y ∷ ys) = old_side-all_added ys

new_side-all_added : (ys : Lines) → new_side (all_added ys) ≡ ys
unfolding new_side
new_side-all_added [] = refl
new_side-all_added (y ∷ ys) = ap (λ l. y ∷ l) (new_side-all_added ys)

old_side-backtrace : (t : ℕ → ℕ → ℕ) (xs ys : Lines) → old_side (backtrace t xs ys) ≡ xs
unfolding old_side backtrace
old_side-backtrace t [] ys = old_side-all_added ys
old_side-backtrace t (x ∷ xs) [] = ap (λ l. x ∷ l) (old_side-backtrace (λ i j. t (suc i) j) xs [])
old_side-backtrace t (x ∷ xs) (y ∷ ys) = elim (Bool-cases (str_eq x y)) [
  | inl same ↦ rw same (ap (λ l. x ∷ l) (old_side-backtrace (λ i j. t (suc i) (suc j)) xs ys))
  | inr other ↦ elim (Bool-cases (leb (t 0 1) (t 1 0))) [
    | inl left ↦
        rw other (rw left (ap (λ l. x ∷ l) (old_side-backtrace (λ i j. t (suc i) j) xs (y ∷ ys))))
    | inr right ↦ rw other (rw right (old_side-backtrace (λ i j. t i (suc j)) (x ∷ xs) ys))
  ]
]

new_side-backtrace : (t : ℕ → ℕ → ℕ) (xs ys : Lines) → new_side (backtrace t xs ys) ≡ ys
unfolding new_side backtrace
new_side-backtrace t [] ys = new_side-all_added ys
new_side-backtrace t (x ∷ xs) [] = new_side-backtrace (λ i j. t (suc i) j) xs []
new_side-backtrace t (x ∷ xs) (y ∷ ys) = elim (Bool-cases (str_eq x y)) [
  | inl same ↦ rw same (
      ap (λ l. x ∷ l) (new_side-backtrace (λ i j. t (suc i) (suc j)) xs ys)
      ∙ ap (λ h. h ∷ ys) ((eq_iff x y).0 same))
  | inr other ↦ elim (Bool-cases (leb (t 0 1) (t 1 0))) [
    | inl left ↦ rw other (rw left (new_side-backtrace (λ i j. t (suc i) j) xs (y ∷ ys)))
    | inr right ↦
        rw other (rw right (ap (λ l. y ∷ l) (new_side-backtrace (λ i j. t i (suc j)) (x ∷ xs) ys)))
  ]
]

-- The lines of a diff that are not added are the lines of the old text, and the lines that are not
-- removed are the lines of the new text, each in order.
pub sides-line_edits :
    (a b : String)
    → (old_side (line_edits a b) ≡ split_lines a) × (new_side (line_edits a b) ≡ split_lines b)
unfolding line_edits
sides-line_edits a b =
    let xs = split_lines a in
    let ys = split_lines b in
    (old_side-backtrace (dp xs ys) xs ys, new_side-backtrace (dp xs ys) xs ys)
