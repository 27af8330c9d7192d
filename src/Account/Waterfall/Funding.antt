-- ===== src/Account/Waterfall/Funding.antt =====
-- What `EvaluateWaterfall` (internal/account/waterfall.go) promises of an approved purchase.
use stable_bank.Base.{
  ℕ, zero, suc, ◌<◌, ◌≡◌, refl, sym, subst, ◌∙◌, String, Bool, true, false, ◌&&◌, leb→le, Option,
  none, some, [], arith, ◌⊎◌, inl, inr, str_eq, Result, ok, err, if◌then◌else◌,
}
use stable_bank.Base.Int.{ℤ, pos, ◌+ℤ◌, ◌≤ℤ◌, leb_ℤ, int_laws}
use stable_bank.Base.Int64.{add64, add64-eq}
use stable_bank.Value.{Value, sequence, mapping, Values, none_left, item, Fields, get}
use stable_bank.Account.Waterfall.{
  Outcome, Purchase, WaterfallError, approved_single, approved_split, declined, rule_name, decide,
  is_set, conditions, try_rule, walk, num_field, evaluate_waterfall,
}
use stable_bank.Account.Waterfall.Split.{IsFunding, InRange, single-IsFunding, split-IsFunding}

abbrev pub Funded : Purchase → Outcome → Type 0
Funded p o =
    ((o.decision ≡ "declined") × (o.funding ≡ []))
    ⊎ ((o.decision ≡ "approved") × IsFunding p o.funding)

module _ (p : Purchase) (range : InRange p) where
  -- The outcome of a condition that applies.
  applied :
      (b : Bool) (o o' : Outcome)
      → let r : Result WaterfallError (Option Outcome) = ok (if b then some o else none) in
        r ≡ ok (some o') → (b ≡ true → Funded p o) → Funded p o'
  applied true o o' e f = let same : o ≡ o' = cc in subst (Funded p) same (f refl)
  applied false o o' e f = cc

  both : leb_ℤ (pos p.amount) (add64 p.usd p.usdc) ≡ true → pos p.amount ≤ℤ p.usd +ℤ p.usdc
  both h = subst (λ x. pos p.amount ≤ℤ x) (add64-eq p.usd p.usdc range.2) (leb→le _ _ h)

  by_test :
      {P : Type 0} (b : Bool) {x y r : Result WaterfallError (Option Outcome)}
      → (if b then x else y) ≡ r
      → (x ≡ r → P)
      → (y ≡ r → P)
      → P
  by_test true e f g = f e
  by_test false e f g = g e

  swap : pos p.amount ≤ℤ p.usd +ℤ p.usdc → pos p.amount ≤ℤ p.usdc +ℤ p.usd
  swap h = omega (int_laws, h)

  covered_split :
      (b : Bool)
      → b && leb_ℤ (pos p.amount) (add64 p.usd p.usdc) ≡ true
      → pos p.amount ≤ℤ p.usd +ℤ p.usdc
  covered_split true h = both h
  covered_split false h = cc

  split-Funded :
      (rule first_ccy second_ccy : String) (first_bal : ℤ)
      → IsFunding p (approved_split rule first_ccy first_bal second_ccy p.amount).funding
      → Funded p (approved_split rule first_ccy first_bal second_ccy p.amount)
  unfolding approved_split
  split-Funded rule first_ccy second_ccy first_bal f = inr (refl, f)

  try_rule-Funded : (name : String) (o : Outcome) → try_rule p name ≡ ok (some o) → Funded p o
  unfolding try_rule approved_single
  try_rule-Funded name o e =
      by_test (str_eq name "prefer_fiat_if_sufficient") e
        (λ e1. applied _ _ o e1 (λ t. inr (refl, single-IsFunding p range "USD" (leb→le _ _ t))))
        λ e.
          by_test (str_eq name "prefer_stablecoin_if_sufficient") e
            (λ e2.
              applied _ _ o e2 (λ t. inr (refl, single-IsFunding p range "USDC" (leb→le _ _ t))))
            λ e.
              by_test (str_eq name "split_fiat_then_stablecoin") e
                (λ e3. applied _ _ o e3 (λ t.
                  split-Funded _ _ _ _
                    (split-IsFunding p range name "USD" "USDC" (covered_split p.allow_split t))))
                λ e.
                  by_test (str_eq name "split_stablecoin_then_fiat") e
                    (λ e4. applied _ _ o e4 (λ t. split-Funded _ _ _ _ (
                      split-IsFunding p range name "USDC" "USD"
                        (swap (covered_split p.allow_split t)))))
                    λ e.
                      by_test (str_eq name "decline") e
                        (λ e5.
                          let same : declined ≡ o = cc in subst (Funded p) same (inl (refl, refl)))
                        (λ e6. cc)

  decide-Funded :
      (r : Result WaterfallError (Option Outcome)) (rest : Result WaterfallError Outcome)
      (o : Outcome)
      → decide r rest ≡ ok o
      → ((o' : Outcome) → r ≡ ok (some o') → Funded p o')
      → (rest ≡ ok o → Funded p o)
      → Funded p o
  decide-Funded (err x) rest o e f g = cc
  decide-Funded (ok none) rest o e f g = g e
  decide-Funded (ok (some o')) rest o e f g =
      let same : o' ≡ o = cc in subst (Funded p) same (f o' refl)

  walk-Funded : (cs : Values) (o : Outcome) → walk p cs ≡ ok o → Funded p o
  unfolding walk
  walk-Funded none_left o e = cc
  walk-Funded (item (mapping cm) cs) o e =
      decide-Funded (try_rule p (rule_name (get "rule" cm))) (walk p cs) o e
        (try_rule-Funded (rule_name (get "rule" cm))) (walk-Funded cs o)
  walk-Funded (item _ cs) o e = cc

conditions-Funded :
    (p : Purchase) → InRange p → (cs : Value) (o : Outcome) → conditions cs p ≡ ok o → Funded p o
conditions-Funded p range (sequence cs) o e = walk-Funded p range cs o e
conditions-Funded p range _ o e = cc

-- An evaluation whose three numbers are read walks through the conditions.
pub evaluate-eq :
    (content input : Fields) (amount : ℕ) (usd usdc : ℤ)
    → num_field "amount_cents" (get "amount_cents" input) ≡ ok (pos amount)
    → num_field "usd_balance_cents" (get "usd_balance_cents" input) ≡ ok usd
    → num_field "usdc_balance_usd_equivalent_cents" (get "usdc_balance_usd_equivalent_cents" input)
      ≡ ok usdc
    → 0 < amount
    → evaluate_waterfall content input
      ≡ conditions (get "conditions_evaluated_in_order" content) (record {
        amount = amount;
        usd = usd;
        usdc = usdc;
        allow_split = is_set (get "allow_split" content);
      })
unfolding evaluate_waterfall get
evaluate-eq content input zero usd usdc h_amount h_usd h_usdc some_amount = ground arith
evaluate-eq content input (suc n) usd usdc h_amount h_usd h_usdc some_amount =
    rw (evaluate_waterfall, h_amount, h_usd, h_usdc) refl

-- Whatever the conditions are: where a purchase is evaluated at an amount and balances whose sum and
-- hundredfold stay in int64, an outcome either declines it and takes nothing, or approves it; then
-- the legs add up to the amount and their shares to 100, and every leg takes a positive part of the
-- amount that its own balance covers.
pub evaluate_waterfall-Funded :
    (content input : Fields) (amount : ℕ) (usd usdc : ℤ) (o : Outcome)
    → num_field "amount_cents" (get "amount_cents" input) ≡ ok (pos amount)
    → num_field "usd_balance_cents" (get "usd_balance_cents" input) ≡ ok usd
    → num_field "usdc_balance_usd_equivalent_cents" (get "usdc_balance_usd_equivalent_cents" input)
      ≡ ok usdc
    → let p : Purchase = record {
      amount = amount;
      usd = usd;
      usdc = usdc;
      allow_split = is_set (get "allow_split" content);
    } in
      InRange p → evaluate_waterfall content input ≡ ok o → Funded p o
evaluate_waterfall-Funded content input amount usd usdc o h_amount h_usd h_usdc range e =
    conditions-Funded _ range (get "conditions_evaluated_in_order" content) o
      (sym (evaluate-eq content input amount usd usdc h_amount h_usd h_usdc range.0) ∙ e)
