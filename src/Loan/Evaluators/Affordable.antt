-- ===== src/Loan/Evaluators/Affordable.antt =====
-- The ratio of debt to income in `EvaluateUnderwriting` of internal/loan/evaluators.go, in float64.
use stable_bank.Base.{◌≡◌, ◌⊎◌, ◌↔◌, ◌*◌, ◌∙◌, refl, ap, subst, arith, if◌then◌else◌}
use stable_bank.Base.Int.{ℤ, pos, nat_abs, pos_part, ◌+ℤ◌, ◌-ℤ◌, ◌*ℤ◌, ◌≤ℤ◌, ◌<ℤ◌, ltb_ℤ}
use stable_bank.Base.Float.{Fraction, round_float, float_ratio}
use stable_bank.Loan.Evaluators.{Application, dti_pct, dti_signed}

-- The debt with the installment, divided by the income and times 100, is at most `most`, where each
-- step is rounded to a float64.
pub record IsAffordable (a : Application) (most : ℤ) : Type 0 where
  pub sum : Fraction
  pub quotient : Fraction
  pub percent : Fraction
  pub is_sum :
      sum ≡ round_float (record { num = nat_abs (a.existing_debt +ℤ a.installment); den = 1 })
  pub is_quotient :
      quotient ≡ round_float (record { num = sum.num; den = sum.den * pos_part a.income })
  pub is_percent : percent ≡ round_float (record { num = quotient.num * 100; den = quotient.den })
  pub within :
      ((a.existing_debt +ℤ a.installment <ℤ pos 0)
        × (pos 0 -ℤ pos percent.num ≤ℤ most *ℤ pos percent.den))
      ⊎ ((pos 0 ≤ℤ a.existing_debt +ℤ a.installment) × (pos percent.num ≤ℤ most *ℤ pos percent.den))

within_iff :
    (x most : ℤ) (p : Fraction)
    → ((if ltb_ℤ x (pos 0) then pos 0 -ℤ pos p.num else pos p.num) ≤ℤ most *ℤ pos p.den) ↔ (
        ((x <ℤ pos 0) × (pos 0 -ℤ pos p.num ≤ℤ most *ℤ pos p.den))
        ⊎ ((pos 0 ≤ℤ x) × (pos p.num ≤ℤ most *ℤ pos p.den)))
within_iff x most p = ground arith

pub dti_signed-IsAffordable :
    (a : Application) (most : ℤ)
    → (dti_signed a ≤ℤ most *ℤ pos (dti_pct a).den) ↔ IsAffordable a most
unfolding float_ratio
dti_signed-IsAffordable a most =
    let x = a.existing_debt +ℤ a.installment in
    (
      (λ h. record {
        sum = _;
        quotient = _;
        percent = dti_pct a;
        is_sum = refl;
        is_quotient = refl;
        is_percent = refl;
        within = (within_iff x most (dti_pct a)).0 h;
      }),
      (λ q.
          let same : q.percent ≡ dti_pct a =
            q.is_percent
            ∙ ap (λ y. round_float (record { num = y.num * 100; den = y.den }))
                (q.is_quotient
                  ∙ ap (λ z. round_float (record { num = z.num; den = z.den * pos_part a.income }))
                      q.is_sum) in
          subst
            (λ p. (if ltb_ℤ x (pos 0) then pos 0 -ℤ pos p.num else pos p.num) ≤ℤ most *ℤ pos p.den)
            same ((within_iff x most q.percent).1 q.within)),
    )
