-- ===== src/Rules/Diff.antt =====
-- `lineDiff` of internal/rules/diff.go: a line diff of two texts by a longest common subsequence.
pub mod Sides
pub mod Longest
use Prim.Native.String.{◌++◌ as str_append}
use stable_bank.Base.{
  ℕ, zero, suc, ◌+◌, String, Bool, true, false, List, [], ◌∷◌, leb, str_eq, if◌then◌else◌, reverse,
}
use stable_bank.Ledger.Amount.{is_nil}

abbrev pub Lines : Type 0
Lines = List String

abbrev pub first_or_zero : List ℕ → ℕ
first_or_zero [] = 0
first_or_zero (n ∷ ns) = n

abbrev pub rest_of : List ℕ → List ℕ
rest_of [] = []
rest_of (n ∷ ns) = ns

-- Row i of `dp`, from column j on, by row i + 1.
unfoldable pub dp_row : String → Lines → List ℕ → List ℕ
dp_row x [] below = 0 ∷ []
dp_row x (y ∷ ys) below =
    let row = dp_row x ys (rest_of below) in
    let down = first_or_zero below in
    let right = first_or_zero row in
    let cell =
      if str_eq x y
      then first_or_zero (rest_of below) + 1
      else if leb right down
      then down
      else right in
    cell ∷ row

abbrev pub zeros : Lines → List ℕ
zeros [] = 0 ∷ []
zeros (y ∷ ys) = 0 ∷ zeros ys

abbrev pub first_row : List (List ℕ) → List ℕ
first_row [] = []
first_row (r ∷ rs) = r

unfoldable pub dp_table : Lines → Lines → List (List ℕ)
unfolding dp_row
dp_table [] ys = zeros ys ∷ []
dp_table (x ∷ xs) ys = let below = dp_table xs ys in dp_row x ys (first_row below) ∷ below

abbrev pub nth_row : List (List ℕ) → ℕ → List ℕ
nth_row [] i = []
nth_row (r ∷ rs) zero = r
nth_row (r ∷ rs) (suc i) = nth_row rs i

abbrev pub nth_cell : List ℕ → ℕ → ℕ
nth_cell [] j = 0
nth_cell (n ∷ ns) zero = n
nth_cell (n ∷ ns) (suc j) = nth_cell ns j

-- `dp[i][j]`
abbrev pub dp : Lines → Lines → ℕ → ℕ → ℕ
dp xs ys i j = nth_cell (nth_row (dp_table xs ys) i) j

-- One line of the output, by its prefix.
pub data Edit : Type 0 where
  unchanged : String → Edit
  removed : String → Edit
  added : String → Edit

abbrev pub all_added : Lines → List Edit
all_added [] = []
all_added (y ∷ ys) = added y ∷ all_added ys

-- The three loops of the backtrace; `t` is `dp`, counted from the current i and j on.
unfoldable pub backtrace : (ℕ → ℕ → ℕ) → Lines → Lines → List Edit
backtrace t [] ys = all_added ys
backtrace t (x ∷ xs) [] = removed x ∷ backtrace (λ i j. t (suc i) j) xs []
backtrace t (x ∷ xs) (y ∷ ys) =
    let both = unchanged x ∷ backtrace (λ i j. t (suc i) (suc j)) xs ys in
    let left = removed x ∷ backtrace (λ i j. t (suc i) j) xs (y ∷ ys) in
    let right = added y ∷ backtrace (λ i j. t i (suc j)) (x ∷ xs) ys in
    if str_eq x y then both else if leb (t 0 1) (t 1 0) then left else right

-- strings.Split at newlines.
abbrev pub cons_line : String → Lines → Lines
cons_line c [] = c ∷ []
cons_line c (l ∷ ls) = str_append c l ∷ ls

unfoldable pub split_newlines : String → Lines
split_newlines String.[] = "" ∷ []
split_newlines (String.◌∷◌ c s) =
    let more = split_newlines s in
    let char = String.◌∷◌ c "" in if str_eq char "\n" then "" ∷ more else cons_line char more

unfoldable pub split_lines : String → Lines
unfolding split_newlines
split_lines s = if str_eq s "" then [] else split_newlines s

unfoldable pub line_edits : String → String → List Edit
line_edits a b = let xs = split_lines a in let ys = split_lines b in backtrace (dp xs ys) xs ys

unfoldable pub edit_line : Edit → String
edit_line (unchanged x) = str_append "  " (str_append x "\n")
edit_line (removed x) = str_append "- " (str_append x "\n")
edit_line (added y) = str_append "+ " (str_append y "\n")

unfoldable pub edit_text : List Edit → String
unfolding edit_line
edit_text [] = ""
edit_text (e ∷ es) = str_append (edit_line e) (edit_text es)

-- `strings.TrimRight(s, "\n")`: a newline goes with those behind it.
unfoldable pub trim_newlines : String → String
trim_newlines String.[] = ""
trim_newlines (String.◌∷◌ c s) =
    let more = trim_newlines s in
    let char = String.◌∷◌ c "" in
    if str_eq char "\n"
    then (if str_eq more "" then "" else str_append char more)
    else str_append char more

unfoldable pub line_diff : String → String → String
unfolding split_lines split_newlines dp_row dp_table backtrace line_edits edit_line edit_text
    trim_newlines
line_diff a b = trim_newlines (edit_text (line_edits a b))
