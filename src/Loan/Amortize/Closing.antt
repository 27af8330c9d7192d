-- ===== src/Loan/Amortize/Closing.antt =====
-- `Schedule` of internal/loan/amortize.go: a schedule has as many rows as the term has months, and
-- closes at zero.
use stable_bank.Base.{
  ℕ, zero, suc, ◌+◌, ◌≡◌, refl, ap, ◌∙◌, Bool, true, false, ◌==◌, ◌||◌, List, [], ◌∷◌, length, All,
  arith, Bool-cases, ==_iff, inl, inr, if◌then◌else◌,
}
use stable_bank.Base.Int.{ℤ, pos, negsuc, nat_abs, leb_ℤ, ◌-ℤ◌}
use stable_bank.Base.Round.{half_up}
use stable_bank.Base.Int64.{
  add64, sub64, Fits, add64-sub64, add64_comm, add64_zero, sub64_self, sub64-Fits, wrap64-Fits,
  wrap64, eq_ℤ,
}
use stable_bank.Store.Events.{Time}
use stable_bank.Loan.Amortize.{
  Installment, Plan, row, schedule_loop, schedule, monthly_payment, round_half_up_rat, interest_on,
  level_payment, is_negative,
}

-- What is outstanding after the last row.
abbrev pub final_remaining : ℤ → List Installment → ℤ
final_remaining outstanding [] = outstanding
final_remaining outstanding (i ∷ is) = final_remaining i.remaining_principal_cents is

abbrev pub sum_principal : List Installment → ℤ
sum_principal [] = pos 0
sum_principal (i ∷ is) = add64 i.principal_cents (sum_principal is)

abbrev pub Reconciles : Installment → Type 0
Reconciles i = add64 i.principal_cents i.interest_cents ≡ i.payment_cents

round_half_up_rat-Fits : (r : _) → Fits (round_half_up_rat r)
unfolding round_half_up_rat sub64
round_half_up_rat-Fits r =
    let v = wrap64 (pos (half_up (nat_abs r.num) r.den)) in
    elim (Bool-cases (is_negative r.num)) [
      | inl minus ↦ rw (round_half_up_rat, minus) (wrap64-Fits (pos 0 -ℤ v))
      | inr plus ↦ rw (round_half_up_rat, plus) (wrap64-Fits (pos (half_up (nat_abs r.num) r.den)))
    ]

Fits-if : (b : Bool) (x y : ℤ) → Fits x → Fits y → Fits (if b then x else y)
Fits-if true x y hx hy = hx
Fits-if false x y hx hy = hy

monthly_payment-Fits : (principal bps term : ℤ) → Fits (monthly_payment principal bps term)
unfolding monthly_payment
monthly_payment-Fits principal bps (negsuc n) = (omega arith, omega arith)
monthly_payment-Fits principal bps (pos n) =
    Fits-if ((n == 0) || leb_ℤ principal (pos 0)) _ _ (omega arith, omega arith)
      (Fits-if (eq_ℤ bps (pos 0)) _ _ (round_half_up_rat-Fits (record { num = principal; den = n }))
        (round_half_up_rat-Fits (level_payment principal bps n)))

module _ (plan : Plan) (fits : Fits plan.payment) where
  row-Reconciles : (number : ℕ) (outstanding : ℤ) → Reconciles (row plan number outstanding)
  row-Reconciles number outstanding = elim (Bool-cases (number == plan.term)) [
    | inl last ↦ rw last refl
    | inr before ↦
        let interest = interest_on plan.annual_rate_bps outstanding in
        rw before (
          add64_comm (sub64 plan.payment interest) interest
          ∙ add64-sub64 plan.payment interest fits)
  ]

  pub schedule_loop-length :
      (left number : ℕ) (outstanding : ℤ)
      → length (schedule_loop plan left number outstanding) ≡ left
  unfolding schedule_loop
  schedule_loop-length zero number outstanding = refl
  schedule_loop-length (suc left) number outstanding =
      ap suc (schedule_loop-length left (number + 1) _)

  schedule_loop-Reconciles :
      (left number : ℕ) (outstanding : ℤ)
      → All Reconciles (schedule_loop plan left number outstanding)
  unfolding schedule_loop
  schedule_loop-Reconciles zero number outstanding = tt
  schedule_loop-Reconciles (suc left) number outstanding =
      (row-Reconciles number outstanding, schedule_loop-Reconciles left (number + 1) _)

  -- With `left` turns to go from installment `number` on, the last turn is the term's.
  schedule_loop-closes :
      (left number : ℕ) (outstanding : ℤ)
      → number + left ≡ plan.term
      → final_remaining outstanding (schedule_loop plan (suc left) number outstanding) ≡ pos 0
  unfolding schedule_loop
  schedule_loop-closes zero number outstanding h =
      rw ((==_iff number plan.term).1 (omega (arith, h))) (sub64_self outstanding)
  schedule_loop-closes (suc left) number outstanding h =
      schedule_loop-closes left (number + 1) _ (omega (arith, h))

  schedule_loop-sum :
      (left number : ℕ) (outstanding : ℤ)
      → number + left ≡ plan.term
      → Fits outstanding
      → sum_principal (schedule_loop plan (suc left) number outstanding) ≡ outstanding
  unfolding schedule_loop
  schedule_loop-sum zero number outstanding h f =
      rw ((==_iff number plan.term).1 (omega (arith, h))) (add64_zero outstanding f)
  schedule_loop-sum (suc left) number outstanding h f =
      let r = row plan number outstanding in
      ap (add64 r.principal_cents) (
        schedule_loop-sum left (number + 1) r.remaining_principal_cents (omega (arith, h))
          (sub64-Fits outstanding r.principal_cents))
      ∙ add64-sub64 outstanding r.principal_cents f

-- A schedule over a term of n + 1 months has n + 1 rows. Its last row leaves nothing outstanding,
-- the principal parts of the rows add up (in int64) to the principal, and in every row the principal
-- and the interest add up to the payment. The principal is any int64, and the
-- rate any that is not negative.
pub schedule-closes :
    (principal : ℤ) (bps n : ℕ) (originated_at : Time)
    → Fits principal
    → let s = schedule principal (pos bps) (pos (suc n)) originated_at in
      (length s ≡ suc n)
      × (final_remaining principal s ≡ pos 0)
      × (sum_principal s ≡ principal)
      × All Reconciles s
unfolding schedule
schedule-closes principal bps n originated_at f =
    let plan : Plan = record {
      annual_rate_bps = pos bps;
      payment = monthly_payment principal (pos bps) (pos (suc n));
      term = suc n;
      originated_at = originated_at;
    } in
    let fits = monthly_payment-Fits principal (pos bps) (pos (suc n)) in
    (
      schedule_loop-length plan fits (suc n) 1 principal,
      schedule_loop-closes plan fits n 1 principal (omega arith),
      schedule_loop-sum plan fits n 1 principal (omega arith) f,
      schedule_loop-Reconciles plan fits (suc n) 1 principal,
    )
