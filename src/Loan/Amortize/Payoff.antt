-- ===== src/Loan/Amortize/Payoff.antt =====
-- `scheduleWithExtra` and `RunWhatIf` of internal/loan/amortize.go: how long they take.
use native.Mathlib.Nat.{div-le_self}
use stable_bank.Base.{
  ℕ, zero, suc, ◌+◌, ◌-◌, ◌*◌, ◌/◌, ◌%◌, ◌<◌, ◌≤◌, ◌≡◌, refl, sym, ap, subst, ◌∙◌, true, false, [],
  ◌∷◌, length, arith, lt→not_leb, Bool-cases, inl, inr,
}
use stable_bank.Base.Int.{ℤ, pos, negsuc, ltb_ℤ, ◌<ℤ◌, ◌+ℤ◌, ◌*ℤ◌, ◌-ℤ◌, int_laws}
use stable_bank.Base.Int64.{add64, add64_zero, sub64, sub64-pos, half_mod, Fits, wrap64, wrap64-eq}
use stable_bank.Base.Round.{half_up, div_parts}
use stable_bank.Store.Events.{Time}
use stable_bank.Loan.Amortize.{
  Scenario, WhatIfRequest, extra_row, extra_loop, after_lump, schedule_with_extra, interest_on,
  round_half_up_rat, monthly_payment, run_what_if, totals_of, schedule, Plan,
}
use stable_bank.Loan.Amortize.Closing.{schedule_loop-length}

module _ (sc : Scenario) (left number : ℕ) (outstanding : ℤ) where
  pub extra_loop-owing :
      ltb_ℤ (pos 0) outstanding ≡ true
      → let r = extra_row sc number outstanding in
        extra_loop sc (suc left) number outstanding
        ≡ r ∷ extra_loop sc left (number + 1) r.remaining_principal_cents
  unfolding extra_loop
  extra_loop-owing owing = rw owing refl

  pub extra_loop-clear :
      ltb_ℤ (pos 0) outstanding ≡ false → extra_loop sc (suc left) number outstanding ≡ []
  unfolding extra_loop
  extra_loop-clear clear = rw clear refl

-- The loop's bound.
extra_loop-bound :
    (sc : Scenario) (left number : ℕ) (outstanding : ℤ)
    → length (extra_loop sc left number outstanding) ≤ left
extra_loop-bound sc zero number outstanding = unfold extra_loop in omega arith
extra_loop-bound sc (suc left) number outstanding = elim (Bool-cases (ltb_ℤ (pos 0) outstanding)) [
  | inl owing ↦
      let bound =
        extra_loop-bound sc left (number + 1)
          (extra_row sc number outstanding).remaining_principal_cents in
      subst (λ s. length s ≤ suc left) (sym (extra_loop-owing sc left number outstanding owing))
        (omega (arith, bound))
  | inr clear ↦
      subst (λ s. length s ≤ suc left) (sym (extra_loop-clear sc left number outstanding clear))
        (omega arith)
]

no_product : (m : ℕ) → pos m *ℤ pos 0 ≡ pos 0
unfolding ◌*ℤ◌
no_product m = ground arith

no_interest : (m : ℕ) → interest_on (pos 0) (pos m) ≡ pos 0
unfolding interest_on round_half_up_rat wrap64 half_up
no_interest m = rw (no_product m) refl

abbrev pub no_extra : WhatIfRequest
no_extra = record {
  extra_monthly_cents = pos 0;
  lump_sum_cents = pos 0;
  lump_sum_at_installment = pos 0;
}

no_lump : (number : ℕ) (x : ℤ) → after_lump no_extra number x ≡ x
no_lump zero x = refl
no_lump (suc number) x = ground arith

-- Equal payments without interest, and nothing extra.
abbrev level : ℕ → Time → Scenario
level pay t = record {
  annual_rate_bps = pos 0;
  base_payment = pos pay;
  request = no_extra;
  originated_at = t;
}

level_pay :
    (pay m : ℕ)
    → pay < half_mod
    → sub64 (add64 (pos pay) (pos 0)) (interest_on (pos 0) (pos m)) ≡ pos pay
level_pay pay m h =
    rw (add64_zero (pos pay) (h, omega arith), no_interest m)
      (sub64-pos pay 0 h (omega arith) ∙ ap pos (omega arith))

paid_principal :
    (pay : ℕ) (t : Time) (number m : ℕ)
    → m < half_mod
    → pay < m
    → (extra_row (level pay t) number (pos m)).principal_cents ≡ pos pay
paid_principal pay t number m h less =
    let paying = level_pay pay m (omega (arith, h, less)) in
    rw (paying, lt→not_leb (m + 0) (pay + 0) (omega (arith, less))) refl

level-remaining :
    (pay : ℕ) (t : Time) (number m : ℕ)
    → m < half_mod
    → pay < m
    → (extra_row (level pay t) number (pos m)).remaining_principal_cents ≡ pos (m - pay)
level-remaining pay t number m h less =
    no_lump number (sub64 (pos m) (extra_row (level pay t) number (pos m)).principal_cents)
    ∙ ap (sub64 (pos m)) (paid_principal pay t number m h less)
    ∙ sub64-pos m pay h (omega (arith, less))

-- While the payments do not cover the debt the loop goes on.
level-goes_on :
    (pay : ℕ) (t : Time) (n left number m : ℕ)
    → m < half_mod
    → n * pay < m
    → n < left
    → n < length (extra_loop (level pay t) left number (pos m))
level-goes_on pay t n zero number m h debt room = omega (arith, room)
level-goes_on pay t zero (suc left) number m h debt room =
    subst (λ s. 0 < length s)
      (sym (extra_loop-owing (level pay t) left number (pos m) (ground arith))) (omega arith)
level-goes_on pay t (suc n) (suc left) number m h debt room =
    subst (λ s. suc n < length s)
      (sym (extra_loop-owing (level pay t) left number (pos m) (ground arith)))
      (subst (λ x. suc n < suc (length (extra_loop (level pay t) left (number + 1) x)))
        (sym (level-remaining pay t number m h (omega (arith, debt))))
        (omega (
          arith,
          level-goes_on pay t n left (number + 1) (m - pay) (omega (arith, h)) (omega (arith, debt))
              (omega (arith, room)),
        )))

rounded_down :
    (principal n : ℕ)
    → principal < half_mod
    → principal % n * 2 < n
    → wrap64 (pos (half_up principal n)) ≡ pos (principal / n)
unfolding half_up
rounded_down principal n small down =
    rw (lt→not_leb n (principal % n * 2) down)
      (wrap64-eq (pos (principal / n)) (omega (arith, small, div-le_self principal n), omega arith))

rounded_payment :
    (principal n : ℕ)
    → 0 < principal
    → principal < half_mod
    → principal % n * 2 < n
    → monthly_payment (pos principal) (pos 0) (pos n) ≡ pos (principal / n)
unfolding monthly_payment round_half_up_rat
rounded_payment principal n some_debt small down =
    ground (arith, rounded_down principal n small down)

times_four : (n : ℕ) → pos n *ℤ pos 4 ≡ pos (n * 4)
unfolding ◌*ℤ◌
times_four n = ground arith

plus_twelve : (n : ℕ) → pos n +ℤ pos 12 ≡ pos (n + 12)
plus_twelve n = omega (int_laws)

max_bound : (n : ℕ) → n < 1000000 → wrap64 (pos n *ℤ pos 4 +ℤ pos 12) ≡ pos (n * 4 + 12)
max_bound n h =
    ap wrap64 (ap (λ x. x +ℤ pos 12) (times_four n) ∙ plus_twelve (n * 4))
    ∙ wrap64-eq (pos (n * 4 + 12)) (omega (arith, h), omega arith)

fewer : (a b : ℕ) → a < b → b < half_mod → sub64 (pos a) (pos b) <ℤ pos 0
unfolding sub64
fewer a b less small =
    let d : pos a -ℤ pos b ≡ negsuc (b - a - 1) = omega (int_laws, less) in
    let fits = wrap64-eq (negsuc (b - a - 1)) (omega arith, omega (arith, less, small)) in
    subst (λ x. x <ℤ pos 0) (sym (ap wrap64 d ∙ fits)) (omega arith)

-- Without interest, over a term that leaves a remainder which rounds the payment down, the scenario
-- with nothing extra takes longer than the baseline: the months it saves are negative.
pub run_what_if-negative :
    (principal n : ℕ) (t : Time)
    → principal < half_mod
    → 0 < principal % n
    → principal % n * 2 < n
    → n < 1000000
    → (run_what_if (pos principal) (pos 0) (pos n) t no_extra).months_saved <ℤ pos 0
unfolding run_what_if totals_of schedule schedule_with_extra
run_what_if-negative principal n t small rest down h =
    let pay = principal / n in
    let plan : Plan = record {
      annual_rate_bps = pos 0;
      payment = pos pay;
      term = n;
      originated_at = t;
    } in
    let scen = extra_loop (level pay t) (n * 4 + 12) 1 (pos principal) in
    let fits : Fits (pos pay) = (omega (arith, small, div-le_self principal n), omega arith) in
    let parts = div_parts principal n (omega (arith, down)) in
    let debt : n * pay < principal = omega (arith, parts, rest) in
    let longer : n < length scen =
      level-goes_on pay t n (n * 4 + 12) 1 principal small debt (omega arith) in
    let bound = extra_loop-bound (level pay t) (n * 4 + 12) 1 (pos principal) in
    rw (rounded_payment principal n (omega (arith, debt)) small down, max_bound n h)
      (subst (λ k. sub64 (pos k) (pos (length scen)) <ℤ pos 0)
        (sym (schedule_loop-length plan fits n 1 (pos principal)))
        (fewer n (length scen) longer (omega (arith, bound, h))))
