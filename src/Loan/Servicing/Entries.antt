-- ===== src/Loan/Servicing/Entries.antt =====
-- The entries of a repayment, `Repay` of internal/loan/service.go, and the validation of the ledger.
use stable_bank.Base.{
  ℕ, ◌+◌, ◌-◌, ◌<◌, ◌≤◌, ◌≡◌, ◌⊎◌, refl, sym, ap, ◌∙◌, subst, String, Bool-cases, true, false, inl,
  inr, some, List, [], ◌∷◌, ◌++◌, All, All-append, length, ok, arith,
}
use stable_bank.Base.Int.{pos, ◌+ℤ◌, ◌-ℤ◌, ◌≤ℤ◌, ltb_ℤ, int_laws}
use stable_bank.Base.Int64.{wrap64, sub64, wrap64-eq, half_mod}
use stable_bank.Base.Dict.{Dict, lookup}
use stable_bank.Ledger.Types.{Account, Currency, Entry, Transaction, debit, currency_of}
use stable_bank.Ledger.Posting.{validate}
use stable_bank.Ledger.Posting.Entries.{IsGood, +ℤ_zero, +ℤ_shift, zero_+ℤ, debit_sum, credit_sum}
use stable_bank.Ledger.Posting.Validation.{WellFormed, validate_iff}
use stable_bank.Loan.Amortize.{Installment}
use stable_bank.Loan.Documents.{LoanRecord}
use stable_bank.Loan.Service.{usd}
use stable_bank.Loan.Servicing.{
  interest_portion, principal_portion, credit_entry, repayment_entries, repayment,
}

-- An account that the projection knows, in dollars.
abbrev pub IsOpen : Dict Account → String → Type 0
IsOpen accounts id = (acc : Account) × (lookup id accounts ≡ some acc) × (acc.currency ≡ "USD")

-- The entries of a payment of `a` cents of principal and `b` cents of interest.
abbrev parts : LoanRecord → ℕ → ℕ → List Entry
parts r a b =
    record { account_id = r.deposit_account_id; direction = debit; amount = usd (pos (a + b)) }
    ∷ (credit_entry r.receivable_account_id (pos a) ++ credit_entry "interest-income-usd" (pos b))

-- What one of the two credits is, where it is there.
none_or_some :
    (n : ℕ)
    → ((n ≡ 0) × (ltb_ℤ (pos 0) (pos n) ≡ false)) ⊎ ((1 ≤ n) × (ltb_ℤ (pos 0) (pos n) ≡ true))
none_or_some n = elim (Bool-cases (ltb_ℤ (pos 0) (pos n))) [
  | inl some_cents ↦ inr (ground arith, some_cents)
  | inr no_cents ↦ inl (ground arith, no_cents)
]

credit_sum-credit_entry : (id : String) (n : ℕ) → credit_sum (credit_entry id (pos n)) ≡ pos n
unfolding credit_sum
credit_sum-credit_entry id n = elim (none_or_some n) [
  | inl (zero_cents, test) ↦ rw (test, zero_cents) refl
  | inr (positive, test) ↦ rw test (+ℤ_zero (pos n))
]

debit_sum-credit_entry : (id : String) (n : ℕ) → debit_sum (credit_entry id (pos n)) ≡ pos 0
unfolding debit_sum
debit_sum-credit_entry id n = elim (none_or_some n) [
  | inl (zero_cents, test) ↦ rw test refl
  | inr (positive, test) ↦ rw test (+ℤ_zero (pos 0))
]

All-credit_entry :
    (accounts : Dict Account) (id : String) (n : ℕ)
    → IsOpen accounts id
    → All (IsGood accounts "USD") (credit_entry id (pos n))
All-credit_entry accounts id n known = elim (none_or_some n) [
  | inl (zero_cents, test) ↦ rw test tt
  | inr (positive, test) ↦ rw test ((refl, omega arith, known, tt), tt)
]

length-credit_entry : (id : String) (n : ℕ) → 1 ≤ n → length (credit_entry id (pos n)) ≡ 1
length-credit_entry id n h = elim (none_or_some n) [
  | inl (zero_cents, test) ↦ absurd (omega arith)
  | inr (positive, test) ↦ rw test refl
]

credit_sum-append : (es fs : List Entry) → credit_sum (es ++ fs) ≡ credit_sum es +ℤ credit_sum fs
unfolding credit_sum
credit_sum-append [] fs = sym (zero_+ℤ (credit_sum fs))
credit_sum-append (e ∷ es) fs =
    rw (credit_sum-append es fs) (sym (+ℤ_shift _ (credit_sum es) (credit_sum fs)))

debit_sum-append : (es fs : List Entry) → debit_sum (es ++ fs) ≡ debit_sum es +ℤ debit_sum fs
unfolding debit_sum
debit_sum-append [] fs = sym (zero_+ℤ (debit_sum fs))
debit_sum-append (e ∷ es) fs =
    rw (debit_sum-append es fs) (sym (+ℤ_shift _ (debit_sum es) (debit_sum fs)))

several-append : (es fs : List Entry) → (1 ≤ length es) ⊎ (1 ≤ length fs) → 1 ≤ length (es ++ fs)
several-append [] fs (inl h) = absurd (omega arith)
several-append [] fs (inr h) = h
several-append (e ∷ es) fs h = omega arith

one_of : (a b : ℕ) → 1 ≤ a + b → (1 ≤ a) ⊎ (1 ≤ b)
one_of a b h = ground arith

difference : (a b : ℕ) → a + b < half_mod → sub64 (pos (a + b)) (pos b) ≡ pos a
difference a b h =
    unfold sub64 in ap wrap64 (taken_off a b) ∙ wrap64-eq (pos a) (omega arith, omega arith)
  where
    taken_off : (a b : ℕ) → pos (a + b) -ℤ pos b ≡ pos a
    taken_off a b = omega int_laws

no_difference : (b : ℕ) → b < half_mod → sub64 (pos b) (pos b) ≡ pos 0
no_difference b h =
    let zero_more : 0 + b ≡ b = omega arith in
    subst (λ n. sub64 (pos n) (pos b) ≡ pos 0) zero_more (difference 0 b (omega arith))

-- The two portions of a payment as natural numbers.
record Portions (next : Installment) (interest cents : ℕ) : Type 0 where
  a : ℕ
  b : ℕ
  whole : a + b ≡ cents
  within : b ≤ interest
  principal_is : principal_portion next (pos cents) ≡ pos a
  interest_is : interest_portion next (pos cents) ≡ pos b

portions :
    (next : Installment) (interest cents : ℕ)
    → next.interest_cents ≡ pos interest
    → cents < half_mod
    → Portions next interest cents
portions next interest cents owed small = elim (Bool-cases (ltb_ℤ (pos cents) (pos interest))) [
  | inl under ↦
      let le : cents ≤ interest = ground arith in
      record {
        a = 0;
        b = cents;
        whole = omega arith;
        within = le;
        principal_is = rw (owed, under) (no_difference cents small);
        interest_is = rw (owed, under) refl;
      }
  | inr enough ↦
      let le : interest ≤ cents = ground arith in
      let split : cents - interest + interest ≡ cents = omega arith in
      record {
        a = cents - interest;
        b = interest;
        whole = split;
        within = omega arith;
        principal_is =
            rw (owed, enough)
              (subst (λ n. sub64 (pos n) (pos interest) ≡ pos (cents - interest)) split
                (difference (cents - interest) interest (omega arith)));
        interest_is = rw (owed, enough) refl;
      }
]

module _ (r : LoanRecord) (a b : ℕ) where
  length-parts : 1 ≤ a + b → 2 ≤ length (parts r a b)
  length-parts h =
      let credits : 1
          ≤ length (
              credit_entry r.receivable_account_id (pos a)
              ++ credit_entry "interest-income-usd" (pos b)) =
        several-append (credit_entry r.receivable_account_id (pos a))
          (credit_entry "interest-income-usd" (pos b))
          (elim (one_of a b h) [
            | inl k ↦ inl (omega (arith, length-credit_entry r.receivable_account_id a k))
            | inr k ↦ inr (omega (arith, length-credit_entry "interest-income-usd" b k))
          ]) in
      omega arith

  debit_sum-parts : debit_sum (parts r a b) ≡ pos (a + b)
  unfolding debit_sum
  debit_sum-parts =
      rw
        (
          debit_sum-append (credit_entry r.receivable_account_id (pos a))
              (credit_entry "interest-income-usd" (pos b)),
          debit_sum-credit_entry r.receivable_account_id a,
          debit_sum-credit_entry "interest-income-usd" b,
        )
        (omega int_laws)

  credit_sum-parts : credit_sum (parts r a b) ≡ pos (a + b)
  unfolding credit_sum
  credit_sum-parts =
      rw
        (
          credit_sum-append (credit_entry r.receivable_account_id (pos a))
              (credit_entry "interest-income-usd" (pos b)),
          credit_sum-credit_entry r.receivable_account_id a,
          credit_sum-credit_entry "interest-income-usd" b,
        )
        (omega int_laws)

repayment_entries-parts :
    (r : LoanRecord) (next : Installment) (interest cents : ℕ) (p : Portions next interest cents)
    → repayment_entries r next (pos cents) ≡ parts r p.a p.b
unfolding repayment_entries
repayment_entries-parts r next interest cents p = rw (p.whole, p.principal_is, p.interest_is) refl

dollar : (c : Currency) × (currency_of "USD" ≡ some c)
unfolding currency_of
dollar = (_, refl)

parts-IsGood :
    (accounts : Dict Account) (r : LoanRecord) (a b : ℕ)
    → 1 ≤ a + b
    → IsOpen accounts r.deposit_account_id
    → IsOpen accounts r.receivable_account_id
    → IsOpen accounts "interest-income-usd"
    → All (IsGood accounts "USD") (parts r a b)
parts-IsGood accounts r a b some_cents deposit receivable income = (
  (refl, omega arith, deposit, tt),
  All-append (IsGood accounts "USD") (credit_entry r.receivable_account_id (pos a))
      (credit_entry "interest-income-usd" (pos b))
      (All-credit_entry accounts r.receivable_account_id a receivable)
      (All-credit_entry accounts "interest-income-usd" b income),
)

parts-WellFormed :
    (accounts : Dict Account) (r : LoanRecord) (a b : ℕ)
    → 1 ≤ a + b
    → a + b < half_mod
    → IsOpen accounts r.deposit_account_id
    → IsOpen accounts r.receivable_account_id
    → IsOpen accounts "interest-income-usd"
    → (tx : Transaction) → tx.currency ≡ "USD"
    → tx.entries ≡ parts r a b
    → WellFormed accounts tx
parts-WellFormed accounts r a b some_cents small deposit receivable income tx currency entries =
    record {
      several = rw entries (length-parts r a b some_cents);
      known = rw currency dollar;
      good =
          subst (λ c. All (IsGood accounts c) tx.entries) (sym currency)
            (subst (All (IsGood accounts "USD")) (sym entries)
              (parts-IsGood accounts r a b some_cents deposit receivable income));
      balanced = rw (entries, debit_sum-parts r a b, credit_sum-parts r a b) refl;
      positive =
          rw (entries, debit_sum-parts r a b, wrap64-eq (pos (a + b)) (omega arith, omega arith))
            (omega arith);
    }

-- A repayment of a positive amount that an int64 can hold, on an installment whose interest is not
-- negative, is split into the interest, at most what is owed, and the principal, which add up to the
-- amount; and where the borrower's account, the loan's account and the income account are known
-- and hold dollars, the ledger's validation accepts its transaction.
pub repayment-accepted :
    (accounts : Dict Account) (id : String) (r : LoanRecord) (next : Installment)
    (interest cents : ℕ)
    → next.interest_cents ≡ pos interest
    → 1 ≤ cents
    → cents < half_mod
    → IsOpen accounts r.deposit_account_id
    → IsOpen accounts r.receivable_account_id
    → IsOpen accounts "interest-income-usd"
    → (validate accounts (repayment id r next (pos cents)) ≡ ok tt)
      × (interest_portion next (pos cents) ≤ℤ pos interest)
      × (principal_portion next (pos cents) +ℤ interest_portion next (pos cents) ≡ pos cents)
unfolding repayment
repayment-accepted accounts id r next interest cents owed some_cents small deposit receivable
      income =
    let p = portions next interest cents owed small in
    (
      (validate_iff accounts (repayment id r next (pos cents))).1 (
          parts-WellFormed accounts r p.a p.b (omega (arith, p.whole)) (omega (arith, p.whole))
            deposit receivable income (repayment id r next (pos cents)) refl
            (repayment_entries-parts r next interest cents p)),
      rw p.interest_is (omega (arith, p.within)),
      rw (p.principal_is, p.interest_is) (omega (int_laws, p.whole)),
    )
