-- ===== src/Loan/Evaluators/Verdicts.antt =====
-- What the evaluators of internal/loan/evaluators.go decide: the score and the tier of
-- `EvaluateRiskScore`, and the verdict of `EvaluateUnderwriting`.
use stable_bank.Base.{
  ◌≡◌, ◌⊎◌, ◌↔◌, refl, subst, ap, String, Bool, true, false, not, ◌||◌, ◌&&◌, Option, none, some,
  List, [], ◌∷◌, ◌++◌, Bool-cases, inl, inr, arith, Result, ok, err, ◌>>=◌, OnOk, OnOk-bind,
}
use stable_bank.Base.Int.{ℤ, pos, eq_of_parts, ◌*ℤ◌, ◌≤ℤ◌, ◌<ℤ◌, ltb_ℤ}
use stable_bank.Base.Int64.{eq_ℤ}
use stable_bank.Loan.Evaluators.Affordable.{IsAffordable, dti_signed-IsAffordable}
use stable_bank.Base.Sort.{sort_slice}
use stable_bank.Value.{Values, none_left, item, Fields}
use stable_bank.Loan.Fields.{
  num_value, require_slice, Tier, above, read_tiers, sorted_tiers, first_matching_tier,
}
use stable_bank.Loan.Fields.Highest.{IsHighest, matching-IsHighest}
use stable_bank.Loan.Evaluators.{
  Application, Eligibility, Pricing, Verdict, read_application, read_eligibility, read_pricing,
  dti_pct, dti_signed, dti_exceeds, term_allowed, when, eligibility_reasons, principal_reasons,
  is_approved, underwriting,
}

abbrev pub IsAllowed : Values → ℤ → Type 0
IsAllowed none_left term = ⊥
IsAllowed (item v vs) term = (num_value v ≡ some term) ⊎ IsAllowed vs term

abbrev pub WithinMaximum : Application → Option Pricing → Type 0
WithinMaximum a none = Unit
WithinMaximum a (some p) = a.principal ≤ℤ p.max_principal

-- What the rule asks of an application.
pub record Qualifies (a : Application) (e : Eligibility) (terms : Values) (p : Option Pricing)
    : Type 0 where
  pub credit : e.min_credit ≤ℤ a.credit_score
  pub income : e.min_income ≤ℤ a.income
  pub earns : pos 0 <ℤ a.income
  pub debt : IsAffordable a e.max_dti
  pub age : e.min_age ≤ℤ a.account_age
  pub risk : e.min_risk ≤ℤ a.risk_score
  pub term : IsAllowed terms a.term
  pub principal : WithinMaximum a p

is_approved-append :
    (xs ys : List String) → is_approved (xs ++ ys) ≡ (is_approved xs && is_approved ys)
is_approved-append [] ys = refl
is_approved-append (x ∷ xs) ys = refl

is_approved-when : (b : Bool) (reason : String) → is_approved (when b reason) ≡ not b
is_approved-when true reason = refl
is_approved-when false reason = refl

eq_ℤ_refl : (a : ℤ) → eq_ℤ a a ≡ true
eq_ℤ_refl a = ground arith

eq_ℤ→eq : (a b : ℤ) → eq_ℤ a b ≡ true → a ≡ b
eq_ℤ→eq a b h = ground (arith, eq_of_parts a b)

some→eq_ℤ : (a b : ℤ) → some a ≡ some b → eq_ℤ a b ≡ true
some→eq_ℤ a b h =
    subst (λ o. elim o as (λ _. Bool) [ none ↦ false | some m ↦ eq_ℤ a m ] ≡ true) h (eq_ℤ_refl a)

term_allowed_iff : (vs : Values) (term : ℤ) → (term_allowed vs term ≡ true) ↔ IsAllowed vs term
unfolding term_allowed
term_allowed_iff none_left term = ground arith
term_allowed_iff (item v vs) term =
    by_value (num_value v) (term_allowed vs term) (term_allowed_iff vs term)
  where
    by_value :
        (o : Option ℤ) (later : Bool)
        → (later ≡ true) ↔ IsAllowed vs term
        → (((elim o [ none ↦ false | some n ↦ eq_ℤ n term ]) || later) ≡ true)
          ↔ ((o ≡ some term) ⊎ IsAllowed vs term)
    by_value none later iff =
        ((λ h. inr (iff.0 h)), (λ m. elim m [ inl same ↦ ground arith | inr h ↦ iff.1 h ]))
    by_value (some n) later iff = elim (Bool-cases (eq_ℤ n term)) [
      | inl same ↦ rw same ((λ _. inl (ap (λ m. some m) (eq_ℤ→eq n term same))), (λ _. refl))
      | inr other ↦ rw other (
        (λ h. inr (iff.0 h)),
        (λ m. elim m [
          | inl same ↦ let k : eq_ℤ n term ≡ true = some→eq_ℤ n term same in cc
          | inr h ↦ iff.1 h
        ]),
      )
    ]

principal_iff :
    (a : Application) (p : Option Pricing)
    → (is_approved (principal_reasons a p) ≡ true) ↔ WithinMaximum a p
principal_iff a none = ((λ _. tt), (λ _. refl))
principal_iff a (some p) = ground arith

-- The tests of the code, all of them passed.
passes_all : Application → Eligibility → Values → Option Pricing → Bool
passes_all a e terms p =
    (not (ltb_ℤ a.credit_score e.min_credit)
      && (not (ltb_ℤ a.income e.min_income)
          && (not (dti_exceeds a e.max_dti)
              && (not (ltb_ℤ a.account_age e.min_age)
                  && (not (ltb_ℤ a.risk_score e.min_risk)
                      && not (not (term_allowed terms a.term)))))))
    && is_approved (principal_reasons a p)

is_approved-reasons :
    (a : Application) (e : Eligibility) (terms : Values) (p : Option Pricing)
    → is_approved (eligibility_reasons a e (term_allowed terms a.term) ++ principal_reasons a p)
      ≡ passes_all a e terms p
unfolding eligibility_reasons passes_all
is_approved-reasons a e terms p = simp (is_approved-append, is_approved-when)

Passed : Application → Eligibility → Values → Option Pricing → Type 0
Passed a e terms p =
    (e.min_credit ≤ℤ a.credit_score)
    × (e.min_income ≤ℤ a.income)
    × (dti_exceeds a e.max_dti ≡ false)
    × (e.min_age ≤ℤ a.account_age)
    × (e.min_risk ≤ℤ a.risk_score)
    × (term_allowed terms a.term ≡ true)
    × (is_approved (principal_reasons a p) ≡ true)

passes_all_iff :
    (a : Application) (e : Eligibility) (terms : Values) (p : Option Pricing)
    → (passes_all a e terms p ≡ true) ↔ Passed a e terms p
unfolding passes_all Passed
passes_all_iff a e terms p = ground arith

dti_iff :
    (a : Application) (most : ℤ)
    → (dti_exceeds a most ≡ false)
      ↔ ((pos 0 <ℤ a.income) × (dti_signed a ≤ℤ most *ℤ pos (dti_pct a).den))
dti_iff a most = ground arith

Qualifies-iff :
    (a : Application) (e : Eligibility) (terms : Values) (p : Option Pricing)
    → Passed a e terms p ↔ Qualifies a e terms p
unfolding Passed
Qualifies-iff a e terms p = (
  (λ (credit, income, dti, age, risk, term, most).
      let (earns, debt) = (dti_iff a e.max_dti).0 dti in
      record {
        credit = credit;
        income = income;
        earns = earns;
        debt = (dti_signed-IsAffordable a e.max_dti).0 debt;
        age = age;
        risk = risk;
        term = (term_allowed_iff terms a.term).0 term;
        principal = (principal_iff a p).0 most;
      }),
  (λ q. (
    q.credit,
    q.income,
    (dti_iff a e.max_dti).1 (q.earns, (dti_signed-IsAffordable a e.max_dti).1 q.debt),
    q.age,
    q.risk,
    (term_allowed_iff terms a.term).1 q.term,
    (principal_iff a p).1 q.principal,
  )),
)

approves_iff :
    (a : Application) (e : Eligibility) (terms : Values) (p : Option Pricing)
    → (is_approved (eligibility_reasons a e (term_allowed terms a.term) ++ principal_reasons a p)
        ≡ true)
      ↔ Qualifies a e terms p
approves_iff a e terms p = rw (is_approved-reasons a e terms p) (
  (λ h. (Qualifies-iff a e terms p).0 ((passes_all_iff a e terms p).0 h)),
  (λ q. (passes_all_iff a e terms p).1 ((Qualifies-iff a e terms p).1 q)),
)

-- An input and a rule, as they are read, and the verdict on them.
pub record Decided (content input : Fields) (v : Verdict) : Type 0 where
  pub application : Application
  pub eligibility : Eligibility
  pub terms : Values
  pub raw : Values
  pub tiers : List Tier
  pub chosen : Option Tier
  pub application_read : read_application input ≡ ok application
  pub eligibility_read : read_eligibility content ≡ ok eligibility
  pub terms_read : require_slice "allowed_term_months" content ≡ ok terms
  pub raw_read : require_slice "pricing_tiers" content ≡ ok raw
  pub tiers_read : read_tiers raw "min_risk_score" ≡ ok tiers
  pub highest : IsHighest tiers application.risk_score chosen
  pub pricing_read : read_pricing chosen ≡ ok v.pricing
  pub approves : (is_approved v.reasons ≡ true) ↔ Qualifies application eligibility terms v.pricing

-- Sorting what was read.
pub OnOk-sorted_tiers :
    {B : Type 0} (Holds : B → Type 0) (raw : Values) (key : String)
    (f : List Tier → Result String B)
    → ((ts : List Tier) → read_tiers raw key ≡ ok ts → OnOk Holds (f (sort_slice above ts)))
    → OnOk Holds (sorted_tiers raw key >>= f)
unfolding sorted_tiers
OnOk-sorted_tiers Holds raw key f h = by_result (read_tiers raw key) h
  where
    by_result :
        (r : Result String (List Tier))
        → ((ts : List Tier) → r ≡ ok ts → OnOk Holds (f (sort_slice above ts)))
        → OnOk Holds ((elim r [ err e ↦ err e | ok ts ↦ ok (sort_slice above ts) ]) >>= f)
    by_result (ok ts) k = k ts refl
    by_result (err e) k = tt

OnOk-underwriting :
    (content input : Fields) → OnOk (Decided content input) (underwriting content input)
unfolding underwriting
OnOk-underwriting content input =
    OnOk-bind (Decided content input) (read_application input) _ λ a read_a.
      OnOk-bind (Decided content input) (read_eligibility content) _ λ e read_e.
        OnOk-bind (Decided content input) (require_slice "allowed_term_months" content) _
          λ terms read_terms.
            OnOk-bind (Decided content input) (require_slice "pricing_tiers" content) _
              λ raw read_raw.
                OnOk-sorted_tiers (Decided content input) raw "min_risk_score" _ λ ts read_ts.
                  let o : Option Tier = first_matching_tier (sort_slice above ts) a.risk_score in
                  OnOk-bind (Decided content input) (read_pricing o) _ λ p read_p. record {
                    application = a;
                    eligibility = e;
                    terms = terms;
                    raw = raw;
                    tiers = ts;
                    chosen = o;
                    application_read = read_a;
                    eligibility_read = read_e;
                    terms_read = read_terms;
                    raw_read = read_raw;
                    tiers_read = read_ts;
                    highest = matching-IsHighest ts a.risk_score;
                    pricing_read = read_p;
                    approves = approves_iff a e terms p;
                  }

-- Where underwriting comes to a verdict, the input and the rule can be read, with whole numbers. The
-- pricing tier is the highest one that the risk score reaches, if it reaches one; and the verdict
-- approves exactly when the credit score, the income, the account's age and the risk score are at
-- least the rule's minimum, the income is positive, the debt with the installment, in percent of the
-- income as float64 arithmetic rounds it, is at most the rule's maximum, the term is one of those
-- allowed, and the principal is within that tier's maximum, if there is a tier.
pub underwriting-Decided :
    (content input : Fields) (v : Verdict)
    → underwriting content input ≡ ok v
    → Decided content input v
underwriting-Decided content input v h =
    subst (OnOk (Decided content input)) h (OnOk-underwriting content input)
