-- ===== src/Ledger/TrialBalance.antt =====
-- The trial balance: all that was debited is all that was credited.
use stable_bank.Base.{
  ◌+◌, ◌%◌, ◌≡◌, refl, ap, String, inl, inr, List, [], ◌∷◌, arith, ok, Result-cases,
}
use stable_bank.Base.Int.{ℤ, pos, eq_of_parts}
use stable_bank.Base.Int64.{word_mod, bits, add64, bits-lt}
use stable_bank.Base.Dict.{Dict, insert}
use stable_bank.Ledger.Types.{Account, Entry, Transaction, Direction, debit, credit, other}
use stable_bank.Ledger.Projection.{Projection, apply_entry_to, apply_entries, apply_posted}
use stable_bank.Ledger.Posting.{validate, validate_entries, check_entry, tally, check_totals}
use stable_bank.Ledger.Posting.Validation.{validate-ok}
use stable_bank.Ledger.Totals.{total64, bits-add64, bits-zero, total64-bump, total64-eq}

-- The debit and the credit sides add up to the same int64.
abbrev pub IsBalanced : Projection → Type 0
IsBalanced p = total64 p.debits ≡ total64 p.credits

-- By how much the sides of a projection have grown, as bit patterns.
abbrev pub Grows : ℤ × ℤ → ℤ × ℤ → Projection → Projection → Type 0
Grows t t' p q =
    ((bits (total64 q.debits) + bits t.0) % word_mod
      ≡ (bits (total64 p.debits) + bits t'.0) % word_mod)
    × ((bits (total64 q.credits) + bits t.1) % word_mod
        ≡ (bits (total64 p.credits) + bits t'.1) % word_mod)

ruleset sums = (arith, bits-add64, bits-zero, bits-lt, total64-bump)

-- One entry adds to the totals of `validate` what it adds to the sides.
entry-Grows :
    (d : Direction) (e : Entry) (t t' : ℤ × ℤ) (p : Projection)
    → tally d e.amount.minor t ≡ ok t'
    → Grows t t' p (apply_entry_to d e p)
unfolding tally apply_entry_to
entry-Grows debit e t t' p h =
    let added : add64 t.0 e.amount.minor ≡ t'.0 = ground arith in
    let kept : t.1 ≡ t'.1 = ground arith in rw (← added, ← kept) (omega sums, refl)
entry-Grows credit e t t' p h =
    let kept : t.0 ≡ t'.0 = ground arith in
    let added : add64 t.1 e.amount.minor ≡ t'.1 = ground arith in
    rw (← added, ← kept) (refl, omega sums)
entry-Grows (other x) e t t' p h = cc

Grows-trans :
    (t t₁ t₂ : ℤ × ℤ) (p q r : Projection) → Grows t t₁ p q → Grows t₁ t₂ q r → Grows t t₂ p r
Grows-trans t t₁ t₂ p q r g h = (omega arith, omega arith)

-- The whole of the entries add to the totals what they add to the sides.
pub entries_grow :
    (accounts : Dict Account) (currency : String) (es : List Entry) (t t' : ℤ × ℤ) (p : Projection)
    → validate_entries accounts currency es t ≡ ok t'
    → Grows t t' p (apply_entries es p)
unfolding validate_entries apply_entries
entries_grow accounts currency [] t t' p h =
    let same : t ≡ t' = ground arith in rw (← same) (refl, refl)
entries_grow accounts currency (e ∷ es) t t' p h =
    elim (Result-cases (check_entry accounts currency e)) [
      | inr (x, bad) ↦ ground arith
      | inl (u, good) ↦ elim (Result-cases (tally e.direction e.amount.minor t)) [
        | inr (x, bad) ↦ ground arith
        | inl (t₁, summed) ↦
            let q = apply_entry_to e.direction e p in
            Grows-trans t t₁ t' p q (apply_entries es q) (entry-Grows e.direction e t t₁ p summed)
              (entries_grow accounts currency es t₁ t' q (ground arith))
      ]
    ]

totals-eq : (t : ℤ × ℤ) → check_totals t ≡ ok tt → t.0 ≡ t.1
unfolding check_totals
totals-eq t h = eq_of_parts t.0 t.1 (ground arith)

-- A posting that passes `validate` keeps the sides equal, whatever their sizes.
pub apply_posted-IsBalanced :
    (accounts : Dict Account) (tx : Transaction) (p : Projection)
    → validate accounts tx ≡ ok tt
    → IsBalanced p
    → IsBalanced (apply_posted tx p)
unfolding apply_posted
apply_posted-IsBalanced accounts tx p h b =
    let (t, summed, checked, _, _) = validate-ok accounts tx h in
    let q : Projection = record p { txs = insert tx.id tx p.txs } in
    let grown = entries_grow accounts tx.currency tx.entries (pos 0, pos 0) t q summed in
    total64-eq _ _ (
      omega (arith, bits-zero, bits-lt, grown.0, grown.1, ap bits (totals-eq t checked), ap bits b))
