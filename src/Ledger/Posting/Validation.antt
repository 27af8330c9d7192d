-- ===== src/Ledger/Posting/Validation.antt =====
-- What `validate` (internal/ledger/service.go) accepts, stated without its loop.
use stable_bank.Base.{
  ◌≤◌, ◌≡◌, ◌↔◌, refl, sym, ◌∙◌, subst, String, false, inl, inr, Option, none, some, List, [], ◌∷◌,
  arith, ok, Result-cases, length, ltb, All,
}
use stable_bank.Base.Int.{ℤ, pos, ◌+ℤ◌, ◌≤ℤ◌, eq_of_parts}
use stable_bank.Base.Int64.{wrap64, Fits, wrap64-eq}
use stable_bank.Base.Dict.{Dict, is_none}
use stable_bank.Ledger.Types.{
  Account, Currency, Entry, Transaction, Direction, debit, credit, other, currency_of,
}
use stable_bank.Ledger.Posting.{validate, validate_entries, check_entry, tally, check_totals}
use stable_bank.Ledger.Posting.Entries.{
  debit_of, credit_of, debit_sum, credit_sum, IsSide, IsGood, wrapped, +ℤ_zero, +ℤ_shift, zero_+ℤ,
  tally-wrapped, check_entry_sound, check_entry_complete,
}

pub record WellFormed (accounts : Dict Account) (tx : Transaction) : Type 0 where
  pub several : 2 ≤ length tx.entries
  pub known : (c : Currency) × (currency_of tx.currency ≡ some c)
  pub good : All (IsGood accounts tx.currency) tx.entries
  pub balanced : wrap64 (debit_sum tx.entries) ≡ wrap64 (credit_sum tx.entries)
  pub positive : pos 1 ≤ℤ wrap64 (debit_sum tx.entries)

-- The totals that the loop ends with, over the exact sums `d` and `c` that it began with.
abbrev end_totals : ℤ → ℤ → List Entry → ℤ × ℤ
end_totals d c es = wrapped (d +ℤ debit_sum es) (c +ℤ credit_sum es)

module _ (accounts : Dict Account) (currency : String) where
  loop_complete :
      (es : List Entry) (d c : ℤ)
      → All (IsGood accounts currency) es
      → validate_entries accounts currency es (wrapped d c) ≡ ok (end_totals d c es)
  unfolding validate_entries debit_sum credit_sum
  loop_complete [] d c h = rw (+ℤ_zero d, +ℤ_zero c)
  loop_complete (e ∷ es) d c ((same, positive, holds, side), rest) =
      let m = e.amount.minor in
      let d' = d +ℤ debit_of e.direction m in
      let c' = c +ℤ credit_of e.direction m in
      ground (
        arith,
        check_entry_complete accounts currency e same positive holds,
        tally-wrapped e.direction m d c side,
        loop_complete es d' c' rest,
        +ℤ_shift d (debit_of e.direction m) (debit_sum es),
        +ℤ_shift c (credit_of e.direction m) (credit_sum es),
      )

  tally-IsSide : (s : Direction) (m : ℤ) (t t' : ℤ × ℤ) → tally s m t ≡ ok t' → IsSide s
  unfolding tally
  tally-IsSide debit m t t' h = tt
  tally-IsSide credit m t t' h = tt
  tally-IsSide (other x) m t t' h = cc

  loop_sound :
      (es : List Entry) (t t' : ℤ × ℤ)
      → validate_entries accounts currency es t ≡ ok t'
      → All (IsGood accounts currency) es
  unfolding validate_entries
  loop_sound [] t t' h = tt
  loop_sound (e ∷ es) t t' h = elim (Result-cases (check_entry accounts currency e)) [
    | inr (x, bad) ↦ absurd (ground arith)
    | inl (u, good) ↦ elim (Result-cases (tally e.direction e.amount.minor t)) [
      | inr (x, bad) ↦ absurd (ground arith)
      | inl (t₁, summed) ↦
          let (same, positive, holds) = check_entry_sound accounts currency e good in
          (
            (same, positive, holds, tally-IsSide e.direction e.amount.minor t t₁ summed),
            loop_sound es t₁ t' (ground arith),
          )
    ]
  ]

wrapped_zero : wrapped (pos 0) (pos 0) ≡ (pos 0, pos 0)
wrapped_zero = rw (wrap64-eq (pos 0) (omega arith))

end_totals-zero :
    (es : List Entry) → end_totals (pos 0) (pos 0) es ≡ wrapped (debit_sum es) (credit_sum es)
end_totals-zero es = rw (zero_+ℤ (debit_sum es), zero_+ℤ (credit_sum es))

-- The loop of `validate`, from its zero totals.
pub totals_complete :
    (accounts : Dict Account) (tx : Transaction)
    → All (IsGood accounts tx.currency) tx.entries
    → validate_entries accounts tx.currency tx.entries (pos 0, pos 0)
      ≡ ok (wrapped (debit_sum tx.entries) (credit_sum tx.entries))
totals_complete accounts tx h =
    rw (← wrapped_zero, ← end_totals-zero tx.entries)
      (loop_complete accounts tx.currency tx.entries (pos 0) (pos 0) h)

check_totals_iff : (d c : ℤ) → (check_totals (d, c) ≡ ok tt) ↔ ((d ≡ c) × (pos 1 ≤ℤ d))
unfolding check_totals
check_totals_iff d c = (λ h. (eq_of_parts d c (ground arith), ground arith), λ h. ground arith)

-- What `validate` has checked when it accepts.
pub validate-ok :
    (accounts : Dict Account) (tx : Transaction)
    → validate accounts tx ≡ ok tt
    → (t : ℤ × ℤ) × (validate_entries accounts tx.currency tx.entries (pos 0, pos 0) ≡ ok t)
      × (check_totals t ≡ ok tt)
      × (ltb (length tx.entries) 2 ≡ false)
      × (is_none (currency_of tx.currency) ≡ false)
unfolding validate
validate-ok accounts tx h =
    elim (Result-cases (validate_entries accounts tx.currency tx.entries (pos 0, pos 0))) [
      | inl (t, summed) ↦ (t, summed, ground arith, ground arith, ground arith)
      | inr (x, bad) ↦ absurd (ground arith)
    ]

pub validate_sound :
    (accounts : Dict Account) (tx : Transaction)
    → validate accounts tx ≡ ok tt
    → WellFormed accounts tx
validate_sound accounts tx h =
    let es = tx.entries in
    let (t, summed, checked, several, known) = validate-ok accounts tx h in
    let good = loop_sound accounts tx.currency es (pos 0, pos 0) t summed in
    let total : wrapped (debit_sum es) (credit_sum es) ≡ t =
      ground (arith, totals_complete accounts tx good, summed) in
    let sums : (wrap64 (debit_sum es) ≡ wrap64 (credit_sum es)) × (pos 1 ≤ℤ wrap64 (debit_sum es)) =
      (check_totals_iff (wrap64 (debit_sum es)) (wrap64 (credit_sum es))).0
        (subst (λ t. check_totals t ≡ ok tt) (sym total) checked) in
    record {
      several = ground arith;
      known = known_currency (currency_of tx.currency) known;
      good = good;
      balanced = sums.0;
      positive = sums.1;
    }
  where
    known_currency : (o : Option Currency) → is_none o ≡ false → (c : Currency) × (o ≡ some c)
    known_currency none e = absurd (ground arith)
    known_currency (some c) e = (c, refl)

validate_complete :
    (accounts : Dict Account) (tx : Transaction)
    → WellFormed accounts tx
    → validate accounts tx ≡ ok tt
unfolding validate
validate_complete accounts tx h =
    let es = tx.entries in
    ground (
      arith,
      h.known.1,
      totals_complete accounts tx h.good,
      (check_totals_iff (wrap64 (debit_sum es)) (wrap64 (credit_sum es))).1
          (h.balanced, h.positive),
    )

-- `validate` accepts a transaction exactly when it is well formed: it has two entries or more and a
-- known currency; each entry is a positive amount in that currency on one side of a known account
-- that holds this currency; and the sums of the debits and of the credits, each taken modulo
-- 2^64 into int64, are equal and positive.
pub validate_iff :
    (accounts : Dict Account) (tx : Transaction)
    → (validate accounts tx ≡ ok tt) ↔ WellFormed accounts tx
validate_iff accounts tx = (validate_sound accounts tx, validate_complete accounts tx)

-- In an accepted transaction whose sums fit into int64 the debits equal the credits exactly.
pub validate-exact :
    (accounts : Dict Account) (tx : Transaction)
    → validate accounts tx ≡ ok tt
    → Fits (debit_sum tx.entries)
    → Fits (credit_sum tx.entries)
    → debit_sum tx.entries ≡ credit_sum tx.entries
validate-exact accounts tx h fd fc =
    let b = (validate_sound accounts tx h).balanced in
    sym (wrap64-eq (debit_sum tx.entries) fd) ∙ b ∙ wrap64-eq (credit_sum tx.entries) fc
