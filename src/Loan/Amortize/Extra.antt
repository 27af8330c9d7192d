-- ===== src/Loan/Amortize/Extra.antt =====
-- `scheduleWithExtra` of internal/loan/amortize.go, row by row, where the payment exceeds the interest.
use native.Mathlib.Nat.{mul-le-mul_right}
use stable_bank.Base.{ℕ, suc, ◌+◌, ◌-◌, ◌*◌, ◌<◌, ◌≤◌, ◌≡◌, ◌≢◌, ◌⊎◌, List, [], ◌∷◌, length, arith}
use stable_bank.Base.Int.{pos, ◌≤ℤ◌, ◌*ℤ◌}
use stable_bank.Base.Int64.{add64, half_mod, wrap64-eq}
use stable_bank.Base.Round.{half_up, half_up_nearest}
use stable_bank.Loan.Amortize.{
  Installment, Scenario, WhatIfRequest, extra_row, interest_on, round_half_up_rat,
}

-- What is left after the lump sum: nothing below zero, and all where the installment brings none.
abbrev pub IsLeft : WhatIfRequest → ℕ → ℕ → ℕ → Type 0
IsLeft req number before after =
    ((n : ℕ) × (req.lump_sum_at_installment ≡ pos number)
      × (req.lump_sum_cents ≡ pos (suc n))
      × (after ≡ before - suc n))
    ⊎ (((req.lump_sum_at_installment ≢ pos number) ⊎ (req.lump_sum_cents ≤ℤ pos 0))
        × (after ≡ before))

-- A row that brings a payment of `pay`, or less where that clears what is outstanding.
pub record IsRow (req : WhatIfRequest) (pay number outstanding : ℕ) (r : Installment) (left : ℕ)
    : Type 0 where
  pub principal : ℕ
  pub interest : ℕ
  pub is_number : r.number ≡ number
  pub is_principal : r.principal_cents ≡ pos principal
  pub is_interest : r.interest_cents ≡ pos interest
  pub is_payment : r.payment_cents ≡ pos (principal + interest)
  pub is_left : r.remaining_principal_cents ≡ pos left
  pub some_part : (0 < principal) × (principal ≤ outstanding)
  pub full :
      (principal + interest ≡ pay) ⊎ ((principal ≡ outstanding) × (principal + interest ≤ pay))
  pub lump : IsLeft req number (outstanding - principal) left

-- Rows from a number and an outstanding principal on, to what is outstanding after them.
abbrev pub PaysDown : WhatIfRequest → ℕ → ℕ → ℕ → List Installment → ℕ → Type 0
PaysDown req pay number outstanding [] end = end ≡ outstanding
PaysDown req pay number outstanding (r ∷ rs) end =
    (left : ℕ) × IsRow req pay number outstanding r left × PaysDown req pay (number + 1) left rs end

half_up_mono : (m n : ℕ) → m ≤ n → half_up m 120000 ≤ half_up n 120000
half_up_mono m n le =
    omega
      (arith, le, half_up_nearest m 120000 (omega arith), half_up_nearest n 120000 (omega arith))

product : (m n : ℕ) → pos m *ℤ pos n ≡ pos (m * n)
unfolding ◌*ℤ◌
product m n = ground arith

interest_at :
    (rate x : ℕ)
    → half_up (x * rate) 120000 < half_mod
    → interest_on (pos rate) (pos x) ≡ pos (half_up (x * rate) 120000)
unfolding interest_on round_half_up_rat
interest_at rate x small =
    rw (product x rate) (wrap64-eq (pos (half_up (x * rate) 120000)) (small, omega arith))

-- The scenario's rate and payment, and the debt whose interest the payment exceeds.
module _ (sc : Scenario) (rate pay top : ℕ) (is_rate : sc.annual_rate_bps ≡ pos rate)
    (is_pay : add64 sc.base_payment sc.request.extra_monthly_cents ≡ pos pay)
    (fits : pay < half_mod) (debt : top < half_mod)
    (covers : half_up (top * rate) 120000 < pay) where
  covered : (x : ℕ) → x ≤ top → half_up (x * rate) 120000 < pay
  covered x le =
      omega (arith, covers, half_up_mono (x * rate) (top * rate) (mul-le-mul_right rate le))

  -- What the row with this number leaves of `x`.
  abbrev RowFrom : ℕ → ℕ → Type 0
  RowFrom number x =
      (left : ℕ) × IsRow sc.request pay number x (extra_row sc number (pos x)) left × (left < x)

  module _ (number x : ℕ) (some_debt : 0 < x) (le : x ≤ top) where
    abbrev m : ℕ
    m = half_up (x * rate) 120000

    small : m < pay
    small = covered x le

    interest : interest_on (pos rate) (pos x) ≡ pos m
    interest = interest_at rate x (omega (arith, small, fits))

  -- The rows from a number and an outstanding principal on.
  abbrev Rows : ℕ → ℕ → ℕ → List Installment → Type 0
  Rows n number x s =
      (end : ℕ) × PaysDown sc.request pay number x s end
      × (end + length s ≤ x)
      × (length s ≤ n)
      × ((end ≡ 0) ⊎ (length s ≡ n))
