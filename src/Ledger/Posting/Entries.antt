-- ===== src/Ledger/Posting/Entries.antt =====
-- One entry of a transaction in `validate` (internal/ledger/service.go): its tests, and what it adds
-- to the running totals.
use stable_bank.Base.{
  ◌+◌, ◌%◌, ◌≡◌, sym, ap, ◌∙◌, String, inl, inr, some, List, [], ◌∷◌, arith, ok, Option-cases,
  eq_iff,
}
use stable_bank.Base.Int.{ℤ, pos, ◌+ℤ◌, ◌≤ℤ◌, int_laws}
use stable_bank.Base.Int64.{word_mod, bits, wrap64, add64, bits-wrap64, bits-+ℤ, wrap64-of-bits}
use stable_bank.Base.Dict.{Dict, lookup}
use stable_bank.Ledger.Types.{Account, Entry, Direction, debit, credit, other}
use stable_bank.Ledger.Posting.{check_entry, tally}

-- The exact sum of one side, as an unbounded integer.
abbrev pub debit_of : Direction → ℤ → ℤ
debit_of debit m = m
debit_of _ m = pos 0

abbrev pub credit_of : Direction → ℤ → ℤ
credit_of credit m = m
credit_of _ m = pos 0

unfoldable pub debit_sum : List Entry → ℤ
debit_sum [] = pos 0
debit_sum (e ∷ es) = debit_of e.direction e.amount.minor +ℤ debit_sum es

unfoldable pub credit_sum : List Entry → ℤ
credit_sum [] = pos 0
credit_sum (e ∷ es) = credit_of e.direction e.amount.minor +ℤ credit_sum es

abbrev pub IsSide : Direction → Type 0
IsSide debit = Unit
IsSide credit = Unit
IsSide (other x) = ⊥

-- A positive amount of the transaction's currency, on one of the two sides of an account that
-- exists and holds this currency.
abbrev pub IsGood : Dict Account → String → Entry → Type 0
IsGood accounts currency e =
    (e.amount.currency ≡ currency)
    × (pos 1 ≤ℤ e.amount.minor)
    × ((acc : Account) × (lookup e.account_id accounts ≡ some acc) × (acc.currency ≡ currency))
    × IsSide e.direction

pub add64-wrap64 : (a b : ℤ) → add64 (wrap64 a) b ≡ wrap64 (a +ℤ b)
add64-wrap64 a b =
    unfold add64 in
    wrap64-of-bits _ _
      (bits-+ℤ (wrap64 a) b ∙ ap (λ n. (n + bits b) % word_mod) (bits-wrap64 a) ∙ sym (bits-+ℤ a b))

-- The running totals over the exact sums `d` and `c`.
abbrev pub wrapped : ℤ → ℤ → ℤ × ℤ
wrapped d c = (wrap64 d, wrap64 c)

pub +ℤ_zero : (a : ℤ) → a +ℤ pos 0 ≡ a
+ℤ_zero a = omega int_laws

pub +ℤ_shift : (a b c : ℤ) → a +ℤ b +ℤ c ≡ a +ℤ (b +ℤ c)
+ℤ_shift a b c = omega int_laws

pub zero_+ℤ : (a : ℤ) → pos 0 +ℤ a ≡ a
zero_+ℤ a = omega int_laws

pub tally-wrapped :
    (s : Direction) (m d c : ℤ)
    → IsSide s
    → tally s m (wrapped d c) ≡ ok (wrapped (d +ℤ debit_of s m) (c +ℤ credit_of s m))
unfolding tally
tally-wrapped debit m d c h = rw (+ℤ_zero c, add64-wrap64 d m)
tally-wrapped credit m d c h = rw (+ℤ_zero d, add64-wrap64 c m)
tally-wrapped (other x) m d c h = absurd h

abbrev pub HasAccount : Dict Account → String → Entry → Type 0
HasAccount accounts currency e =
    (acc : Account) × (lookup e.account_id accounts ≡ some acc) × (acc.currency ≡ currency)

pub check_entry_sound :
    (accounts : Dict Account) (currency : String) (e : Entry)
    → check_entry accounts currency e ≡ ok tt
    → (e.amount.currency ≡ currency) × (pos 1 ≤ℤ e.amount.minor) × HasAccount accounts currency e
unfolding check_entry
check_entry_sound accounts currency e h = elim (Option-cases (lookup e.account_id accounts)) [
  | inl missing ↦ absurd (ground arith)
  | inr (acc, found) ↦ (
    ground (arith, eq_iff e.amount.currency currency),
    ground arith,
    (acc, found, ground (arith, eq_iff acc.currency currency)),
  )
]

pub check_entry_complete :
    (accounts : Dict Account) (currency : String) (e : Entry)
    → e.amount.currency ≡ currency
    → pos 1 ≤ℤ e.amount.minor
    → HasAccount accounts currency e
    → check_entry accounts currency e ≡ ok tt
unfolding check_entry
check_entry_complete accounts currency e same positive (acc, found, holds) =
    ground (arith, eq_iff e.amount.currency currency, eq_iff acc.currency currency)
