-- ===== src/Rules/Diff/Longest.antt =====
-- The table of internal/rules/diff.go holds the lengths of longest common subsequences, and a diff
-- keeps one of them.
use stable_bank.Base.{
  ℕ, zero, suc, ◌+◌, ◌≤◌, ◌≡◌, refl, String, List, [], ◌∷◌, arith, leb, str_eq, eq_iff, Bool-cases,
  inl, inr, ap, sym, ◌∙◌, ◌⊎◌, length, drop, if◌then◌else◌, false, subst,
}
use stable_bank.Rules.Diff.{
  Lines, Edit, unchanged, removed, added, all_added, backtrace, split_lines, line_edits, dp, dp_row,
  dp_table, zeros, nth_row, nth_cell, first_row, first_or_zero, rest_of,
}
use stable_bank.Rules.Diff.Sides.{old_side, new_side, sides-line_edits}

-- The length of a longest common subsequence, by the recursion that fills the table.
unfoldable lcs : Lines → Lines → ℕ
lcs [] ys = 0
lcs (x ∷ xs) [] = 0
lcs (x ∷ xs) (y ∷ ys) =
    let both = lcs xs ys + 1 in
    let down = lcs xs (y ∷ ys) in
    let right = lcs (x ∷ xs) ys in
    if str_eq x y then both else if leb right down then down else right

-- The lines stand in the list, in order.
abbrev pub IsPart : Lines → Lines → Type 0
IsPart [] ys = Unit
IsPart (z ∷ zs) [] = ⊥
IsPart (z ∷ zs) (y ∷ ys) = ((z ≡ y) × IsPart zs ys) ⊎ IsPart (z ∷ zs) ys

tail-IsPart : (z : String) (zs ys : Lines) → IsPart (z ∷ zs) ys → IsPart zs ys
tail-IsPart z zs [] h = elim h [ ]
tail-IsPart z [] (y ∷ ys) h = tt
tail-IsPart z (w ∷ zs) (y ∷ ys) (inl here) = inr here.1
tail-IsPart z (w ∷ zs) (y ∷ ys) (inr later) = inr (tail-IsPart z (w ∷ zs) ys later)

under-IsPart :
    (z : String) (zs : Lines) (y : String) (ys : Lines) → IsPart (z ∷ zs) (y ∷ ys) → IsPart zs ys
under-IsPart z zs y ys (inl here) = here.1
under-IsPart z zs y ys (inr later) = tail-IsPart z zs ys later

-- No common subsequence is longer.
length-le-lcs : (xs ys zs : Lines) → IsPart zs xs → IsPart zs ys → length zs ≤ lcs xs ys
unfolding lcs
length-le-lcs xs ys [] p q = omega arith
length-le-lcs [] ys (z ∷ zs) p q = elim p [ ]
length-le-lcs (x ∷ xs) [] (z ∷ zs) p q = elim q [ ]
length-le-lcs (x ∷ xs) (y ∷ ys) (z ∷ zs) p q = elim (Bool-cases (str_eq x y)) [
  | inl same ↦
      rw same (
        omega (arith, length-le-lcs xs ys zs (under-IsPart z zs x xs p) (under-IsPart z zs y ys q)))
  | inr other ↦
      rw other
        (apart other (length-le-lcs xs (y ∷ ys) (z ∷ zs)) (length-le-lcs (x ∷ xs) ys (z ∷ zs)) p q)
]
  where
    apart :
        str_eq x y ≡ false
        → (IsPart (z ∷ zs) xs → IsPart (z ∷ zs) (y ∷ ys) → suc (length zs) ≤ lcs xs (y ∷ ys))
        → (IsPart (z ∷ zs) (x ∷ xs) → IsPart (z ∷ zs) ys → suc (length zs) ≤ lcs (x ∷ xs) ys)
        → IsPart (z ∷ zs) (x ∷ xs)
        → IsPart (z ∷ zs) (y ∷ ys)
        → suc (length zs)
          ≤ (if leb (lcs (x ∷ xs) ys) (lcs xs (y ∷ ys)) then lcs xs (y ∷ ys) else lcs (x ∷ xs) ys)
    apart other down right p (inr q) = ground (arith, right p q)
    apart other down right (inr p) (inl q) = ground (arith, down p (inl q))
    apart other down right (inl p) (inl q) = ground (arith, eq_iff x y, p.0, q.0)

nth_cell-rest_of : (ns : List ℕ) (j : ℕ) → nth_cell (rest_of ns) j ≡ nth_cell ns (suc j)
nth_cell-rest_of [] j = refl
nth_cell-rest_of (n ∷ ns) j = refl

first_cell : (ns : List ℕ) → first_or_zero ns ≡ nth_cell ns 0
first_cell [] = refl
first_cell (n ∷ ns) = refl

nth_cell-zeros : (ys : Lines) (j : ℕ) → nth_cell (zeros ys) j ≡ 0
nth_cell-zeros [] zero = refl
nth_cell-zeros [] (suc j) = refl
nth_cell-zeros (y ∷ ys) zero = refl
nth_cell-zeros (y ∷ ys) (suc j) = nth_cell-zeros ys j

nth_cell-dp_row :
    (x : String) (xs ys : Lines) (below : List ℕ)
    → ((j : ℕ) → nth_cell below j ≡ lcs xs (drop j ys))
    → (j : ℕ) → nth_cell (dp_row x ys below) j ≡ lcs (x ∷ xs) (drop j ys)
unfolding dp_row lcs
nth_cell-dp_row x xs [] below h zero = refl
nth_cell-dp_row x xs [] below h (suc j) = refl
nth_cell-dp_row x xs (y ∷ ys) below h zero =
    let row = dp_row x ys (rest_of below) in
    let down : first_or_zero below ≡ lcs xs (y ∷ ys) = first_cell below ∙ h 0 in
    let both : first_or_zero (rest_of below) ≡ lcs xs ys =
      first_cell (rest_of below) ∙ nth_cell-rest_of below 0 ∙ h 1 in
    let right : first_or_zero row ≡ lcs (x ∷ xs) ys =
      first_cell row
      ∙ nth_cell-dp_row x xs ys (rest_of below) (λ j. nth_cell-rest_of below j ∙ h (suc j)) 0 in
    rw (down, both, right) refl
nth_cell-dp_row x xs (y ∷ ys) below h (suc j) =
    nth_cell-dp_row x xs ys (rest_of below) (λ j. nth_cell-rest_of below j ∙ h (suc j)) j

first_row-nth_row : (t : List (List ℕ)) → first_row t ≡ nth_row t 0
first_row-nth_row [] = refl
first_row-nth_row (r ∷ rs) = refl

-- Each cell of the table, by what is left of both texts.
dp-eq-lcs : (xs ys : Lines) (i j : ℕ) → dp xs ys i j ≡ lcs (drop i xs) (drop j ys)
unfolding dp_table lcs
dp-eq-lcs [] ys zero j = nth_cell-zeros ys j
dp-eq-lcs [] ys (suc i) j = refl
dp-eq-lcs (x ∷ xs) ys zero j =
    nth_cell-dp_row x xs ys (first_row (dp_table xs ys))
      (λ j. ap (λ r. nth_cell r j) (first_row-nth_row (dp_table xs ys)) ∙ dp-eq-lcs xs ys 0 j) j
dp-eq-lcs (x ∷ xs) ys (suc i) j = dp-eq-lcs xs ys i j

-- The lines that a diff leaves unchanged.
unfoldable pub kept : List Edit → Lines
kept [] = []
kept (unchanged x ∷ es) = x ∷ kept es
kept (removed x ∷ es) = kept es
kept (added y ∷ es) = kept es

IsPart-cons : (zs : Lines) (y : String) (ys : Lines) → IsPart zs ys → IsPart zs (y ∷ ys)
IsPart-cons [] y ys h = tt
IsPart-cons (z ∷ zs) y ys h = inr h

kept-IsPart : (es : List Edit) → IsPart (kept es) (old_side es) × IsPart (kept es) (new_side es)
unfolding kept old_side new_side
kept-IsPart [] = (tt, tt)
kept-IsPart (unchanged x ∷ es) = let (p, q) = kept-IsPart es in (inl (refl, p), inl (refl, q))
kept-IsPart (removed x ∷ es) =
    let (p, q) = kept-IsPart es in (IsPart-cons (kept es) x (old_side es) p, q)
kept-IsPart (added y ∷ es) =
    let (p, q) = kept-IsPart es in (p, IsPart-cons (kept es) y (new_side es) q)

kept-all_added : (ys : Lines) → length (kept (all_added ys)) ≡ 0
unfolding kept
kept-all_added [] = refl
kept-all_added (y ∷ ys) = kept-all_added ys

lcs-nil : (xs : Lines) → lcs xs [] ≡ 0
unfolding lcs
lcs-nil [] = refl
lcs-nil (x ∷ xs) = refl

length-kept :
    (t : ℕ → ℕ → ℕ) (xs ys : Lines)
    → ((i j : ℕ) → t i j ≡ lcs (drop i xs) (drop j ys))
    → length (kept (backtrace t xs ys)) ≡ lcs xs ys
unfolding backtrace kept lcs
length-kept t [] ys h = kept-all_added ys
length-kept t (x ∷ xs) [] h =
    length-kept (λ i j. t (suc i) j) xs [] (λ i j. h (suc i) j) ∙ lcs-nil xs
length-kept t (x ∷ xs) (y ∷ ys) h = elim (Bool-cases (str_eq x y)) [
  | inl same ↦
      rw same
        (omega (arith, length-kept (λ i j. t (suc i) (suc j)) xs ys (λ i j. h (suc i) (suc j))))
  | inr other ↦
      let down = length-kept (λ i j. t (suc i) j) xs (y ∷ ys) (λ i j. h (suc i) j) in
      let right = length-kept (λ i j. t i (suc j)) (x ∷ xs) ys (λ i j. h i (suc j)) in
      rw other (
        rw (sym (h 0 1), sym (h 1 0))
          (elim (Bool-cases (leb (t 0 1) (t 1 0))) [
            | inl goes_down ↦ rw goes_down (down ∙ sym (h 1 0))
            | inr goes_right ↦ rw goes_right (right ∙ sym (h 0 1))
          ]))
]

-- A diff leaves a longest common subsequence of the two texts unchanged: the lines that it leaves
-- unchanged stand in both texts, in order, and no other lines that do are more.
pub kept-longest :
    (a b : String) (zs : Lines)
    → IsPart zs (split_lines a)
    → IsPart zs (split_lines b)
    → IsPart (kept (line_edits a b)) (split_lines a)
      × IsPart (kept (line_edits a b)) (split_lines b)
      × (length zs ≤ length (kept (line_edits a b)))
kept-longest a b zs r s =
    let xs = split_lines a in
    let ys = split_lines b in
    let es = line_edits a b in
    let (olds, news) = sides-line_edits a b in
    let (p, q) = kept-IsPart es in
    let count : length (kept es) ≡ lcs xs ys =
      unfold line_edits in length-kept (dp xs ys) xs ys (dp-eq-lcs xs ys) in
    (
      subst (IsPart (kept es)) olds p,
      subst (IsPart (kept es)) news q,
      subst (λ n. length zs ≤ n) (sym count) (length-le-lcs xs ys zs r s),
    )
