-- ===== src/Loan/Amortize.antt =====
-- internal/loan/amortize.go: payments, schedules and what-if scenarios, in int64 cents.
pub mod Closing
pub mod Payoff
pub mod Extra
use stable_bank.Base.{
  ℕ, zero, suc, ◌+◌, ◌*◌, ◌<◌, ◌==◌, Bool, true, false, ◌&&◌, ◌||◌, not, List, [], ◌∷◌, length,
  if◌then◌else◌,
}
use stable_bank.Base.Int.{ℤ, pos, negsuc, ◌+ℤ◌, ◌*ℤ◌, nat_abs, ltb_ℤ, leb_ℤ, pos_part}
use stable_bank.Base.Int64.{wrap64, add64, sub64, eq_ℤ}
use stable_bank.Base.Round.{half_up}
use stable_bank.Base.Rat.{Rat, rat_of, rat_mul, rat_add, rat_sub, rat_quo}
use stable_bank.Base.Calendar.{add_months}
use stable_bank.Store.Events.{Time}

pub data InstallmentStatus : Type 0 where
  scheduled : InstallmentStatus
  paid : InstallmentStatus
  missed : InstallmentStatus

pub record Installment : Type 0 where
  pub number : ℕ
  pub due_date : Time
  pub payment_cents : ℤ
  pub principal_cents : ℤ
  pub interest_cents : ℤ
  pub remaining_principal_cents : ℤ
  pub status : InstallmentStatus

abbrev pub monthly_rate : ℤ → Rat
monthly_rate annual_rate_bps = record { num = annual_rate_bps; den = 120000 }

abbrev pub rat_pow : Rat → ℕ → Rat
rat_pow base zero = rat_of (pos 1)
rat_pow base (suc n) = rat_mul (rat_pow base n) base

abbrev pub is_negative : ℤ → Bool
is_negative (pos n) = false
is_negative (negsuc n) = true

-- `q.Int64()` keeps the low 64 bits of the quotient.
unfoldable pub round_half_up_rat : Rat → ℤ
round_half_up_rat r =
    let v = wrap64 (pos (half_up (nat_abs r.num) r.den)) in
    if is_negative r.num then sub64 (pos 0) v else v

-- `pctHundredths`, with `roundHalfUpBigInt` of a positive denominator in place.
unfoldable pub pct_hundredths : ℤ → ℤ → ℤ
pct_hundredths numerator (negsuc d) = pos 0
pct_hundredths numerator (pos d) =
    let rounded = round_half_up_rat (record { num = numerator *ℤ pos 10000; den = d }) in
    if d == 0 then pos 0 else rounded

-- The level payment of a term of `n` months, at a rate that is not zero.
abbrev pub level_payment : ℤ → ℤ → ℕ → Rat
level_payment principal annual_rate_bps n =
    let r = monthly_rate annual_rate_bps in
    let pow = rat_pow (rat_add (rat_of (pos 1)) r) n in
    rat_quo (rat_mul (rat_mul (rat_of principal) r) pow) (rat_sub pow (rat_of (pos 1)))

unfoldable pub monthly_payment : ℤ → ℤ → ℤ → ℤ
monthly_payment principal annual_rate_bps (negsuc n) = pos 0
monthly_payment principal annual_rate_bps (pos n) =
    if (n == 0) || leb_ℤ principal (pos 0)
    then pos 0
    else if eq_ℤ annual_rate_bps (pos 0)
    then round_half_up_rat (record { num = principal; den = n })
    else round_half_up_rat (level_payment principal annual_rate_bps n)

-- The interest of one month on what is outstanding.
unfoldable pub interest_on : ℤ → ℤ → ℤ
interest_on annual_rate_bps outstanding =
    round_half_up_rat (rat_mul (rat_of outstanding) (monthly_rate annual_rate_bps))

-- What the loop of `Schedule` keeps fixed.
pub record Plan : Type 0 where
  pub annual_rate_bps : ℤ
  pub payment : ℤ
  pub term : ℕ
  pub originated_at : Time

-- One turn of the loop.
abbrev pub row : Plan → ℕ → ℤ → Installment
row plan number outstanding =
    let interest = interest_on plan.annual_rate_bps outstanding in
    let is_last = number == plan.term in
    let principal = if is_last then outstanding else sub64 plan.payment interest in
    record {
      number = number;
      due_date = add_months number plan.originated_at;
      payment_cents = if is_last then add64 principal interest else plan.payment;
      principal_cents = principal;
      interest_cents = interest;
      remaining_principal_cents = sub64 outstanding principal;
      status = scheduled;
    }

-- The loop from installment `no` on, with `left` turns to go.
unfoldable pub schedule_loop : Plan → ℕ → ℕ → ℤ → List Installment
schedule_loop plan zero number outstanding = []
schedule_loop plan (suc left) number outstanding =
    let r = row plan number outstanding in
    r ∷ schedule_loop plan left (number + 1) r.remaining_principal_cents

unfoldable pub schedule : ℤ → ℤ → ℤ → Time → List Installment
schedule principal annual_rate_bps (negsuc n) originated_at = []
schedule principal annual_rate_bps (pos n) originated_at =
    schedule_loop
      (record {
        annual_rate_bps = annual_rate_bps;
        payment = monthly_payment principal annual_rate_bps (pos n);
        term = n;
        originated_at = originated_at;
      })
      n 1 principal

pub record WhatIfRequest : Type 0 where
  pub extra_monthly_cents : ℤ
  pub lump_sum_cents : ℤ
  pub lump_sum_at_installment : ℤ

pub record WhatIfTotals : Type 0 where
  pub total_interest_cents : ℤ
  pub payoff_installments : ℤ

pub record WhatIfResult : Type 0 where
  pub baseline : WhatIfTotals
  pub scenario : WhatIfTotals
  pub interest_saved_cents : ℤ
  pub months_saved : ℤ

abbrev pub interest_loop : List Installment → ℤ → ℤ
interest_loop [] sum = sum
interest_loop (i ∷ is) sum = interest_loop is (add64 sum i.interest_cents)

unfoldable pub totals_of : List Installment → WhatIfTotals
totals_of sched = record {
  total_interest_cents = interest_loop sched (pos 0);
  payoff_installments = pos (length sched);
}

-- What the loop of `scheduleWithExtra` keeps fixed.
pub record Scenario : Type 0 where
  pub annual_rate_bps : ℤ
  pub base_payment : ℤ
  pub request : WhatIfRequest
  pub originated_at : Time

-- What is left after the lump sum, where installment `no` is the one that brings it.
abbrev pub after_lump : WhatIfRequest → ℕ → ℤ → ℤ
after_lump req number outstanding =
    if eq_ℤ (pos number) req.lump_sum_at_installment && ltb_ℤ (pos 0) req.lump_sum_cents
    then if leb_ℤ outstanding req.lump_sum_cents
      then pos 0
      else sub64 outstanding req.lump_sum_cents
    else outstanding

abbrev pub extra_row : Scenario → ℕ → ℤ → Installment
extra_row sc number outstanding =
    let interest = interest_on sc.annual_rate_bps outstanding in
    let pay = add64 sc.base_payment sc.request.extra_monthly_cents in
    let is_last = leb_ℤ outstanding (sub64 pay interest) in
    let principal = if is_last then outstanding else sub64 pay interest in
    record {
      number = number;
      due_date = add_months number sc.originated_at;
      payment_cents = if is_last then add64 principal interest else pay;
      principal_cents = principal;
      interest_cents = interest;
      remaining_principal_cents = after_lump sc.request number (sub64 outstanding principal);
      status = scheduled;
    }

unfoldable pub extra_loop : Scenario → ℕ → ℕ → ℤ → List Installment
extra_loop sc zero number outstanding = []
extra_loop sc (suc left) number outstanding =
    let r = extra_row sc number outstanding in
    let rest = extra_loop sc left (number + 1) r.remaining_principal_cents in
    if ltb_ℤ (pos 0) outstanding then r ∷ rest else []

-- `maxInstallments` is a number here: of a negative one `make` panics.
unfoldable pub schedule_with_extra : ℤ → Scenario → ℕ → List Installment
schedule_with_extra principal sc max_installments = extra_loop sc max_installments 1 principal

unfoldable pub run_what_if : ℤ → ℤ → ℤ → Time → WhatIfRequest → WhatIfResult
run_what_if principal annual_rate_bps term originated_at req =
    let base = totals_of (schedule principal annual_rate_bps term originated_at) in
    let sc : Scenario = record {
      annual_rate_bps = annual_rate_bps;
      base_payment = monthly_payment principal annual_rate_bps term;
      request = req;
      originated_at = originated_at;
    } in
    let max_installments = pos_part (wrap64 (term *ℤ pos 4 +ℤ pos 12)) in
    let scen = totals_of (schedule_with_extra principal sc max_installments) in
    record {
      baseline = base;
      scenario = scen;
      interest_saved_cents = sub64 base.total_interest_cents scen.total_interest_cents;
      months_saved = sub64 base.payoff_installments scen.payoff_installments;
    }
