-- ===== src/Ledger/Fx/Policy/Agreement.antt =====
-- The two ways to the amount of a conversion: `EvaluateFXPolicy` (internal/ledger/policy.go), and
-- `Quote` (internal/ledger/fx.go) with a RuleRateProvider over the same rule.
use stable_bank.Base.{
  ◌≡◌, refl, sym, ap, subst, ◌∙◌, true, false, Option, none, some, String, arith, str_eq, eq_iff,
  ◌⊎◌, inl, inr, Result, ok, err, Bool-cases, Option-cases, Result-cases,
}
use stable_bank.Base.Int.{ℤ}
use stable_bank.Value.{Value, text, Fields, get, has_key}
use stable_bank.Store.Events.{Time}
use stable_bank.Ledger.Types.{currency_of, LedgerError}
use stable_bank.Ledger.Fx.{RateProvider, FxQuote, quote, quote_mode, convert_minor}
use stable_bank.Ledger.Fx.Policy.{
  FxDecision, FxPair, find_fx_pair, effective, rate_from_policy, rounding_mode_from_content,
  known_mode, rule_rate, rule_provider, evaluate_fx, evaluate_pair,
}

-- The amounts that the two give, none where they fail.
abbrev pub quoted : Result LedgerError FxQuote → Option ℤ
quoted (ok q) = some q.to.minor
quoted (err e) = none

abbrev pub decided : Result LedgerError FxDecision → Option ℤ
decided (ok d) = some d.to_amount_minor
decided (err e) = none

-- A mode that is read is one of the two that are known.
one_of_two :
    (s mode : String)
    → known_mode (text s) ≡ ok mode
    → (str_eq mode "half_up" ≡ true) ⊎ (str_eq mode "down" ≡ true)
one_of_two s mode h = ground arith

not_empty : (s mode : String) → known_mode (text s) ≡ ok mode → str_eq mode "" ≡ false
not_empty s mode h = elim (one_of_two s mode h) [
  | inl up ↦ subst (λ x. str_eq x "" ≡ false) (sym ((eq_iff mode "half_up").0 up)) refl
  | inr down ↦ subst (λ x. str_eq x "" ≡ false) (sym ((eq_iff mode "down").0 down)) refl
]

value_named : (v : Value) (mode : String) → known_mode v ≡ ok mode → str_eq mode "" ≡ false
value_named (text s) mode h = not_empty s mode h
value_named _ mode h = cc

mode_named :
    (content : Fields) (mode : String)
    → rounding_mode_from_content content ≡ ok mode
    → str_eq mode "" ≡ false
unfolding rounding_mode_from_content
mode_named content mode h = elim (Bool-cases (has_key "rounding" content)) [
  | inl present ↦ value_named (get "rounding" content) mode (ground arith)
  | inr absent ↦
      let same : "half_up" ≡ mode = ground arith in subst (λ x. str_eq x "" ≡ false) same refl
]

module _ (content : Fields) (now : Time) (from to : String) (minor : ℤ) where
  abbrev provider : RateProvider
  provider = rule_provider (ok content) now

  abbrev Agree : Type 0
  Agree = quoted (quote (some provider) from to minor) ≡ decided (evaluate_fx content from to minor)

  quote_without_rate :
      (e : LedgerError)
      → rule_rate (ok content) now from to ≡ err e
      → quoted (quote (some provider) from to minor) ≡ none
  unfolding quote rule_provider
  quote_without_rate e h = elim (Option-cases (currency_of from)) [
    | inl unknown ↦ rw (quote, unknown) refl
    | inr (from_cur, known) ↦ elim (Option-cases (currency_of to)) [
      | inl unknown ↦ rw (quote, known, unknown) refl
      | inr (to_cur, known_too) ↦ rw (quote, known, known_too, h) refl
    ]
  ]

  no_mode : (e : LedgerError) → rounding_mode_from_content content ≡ err e → Agree
  unfolding rule_rate evaluate_fx
  no_mode e h = quote_without_rate e (rw (rule_rate, h) refl) ∙ rw (evaluate_fx, h) refl

  pair_missing :
      (mode : String) (e : LedgerError)
      → rounding_mode_from_content content ≡ ok mode
      → find_fx_pair content from to ≡ err e
      → Agree
  unfolding rule_rate evaluate_fx rate_from_policy
  pair_missing mode e m h =
      quote_without_rate e (rw (rule_rate, m, h) refl) ∙ rw (evaluate_fx, m, h) refl

  module _ (mode : String) (pair : FxPair) (m : rounding_mode_from_content content ≡ ok mode)
      (f : find_fx_pair content from to ≡ ok pair) where
    evaluated : evaluate_fx content from to minor ≡ evaluate_pair from to minor mode pair
    unfolding evaluate_fx
    evaluated = rw (evaluate_fx, m, f) refl

    not_effective : (e : LedgerError) → effective pair mode ≡ err e → Agree
    unfolding rule_rate rate_from_policy evaluate_pair
    not_effective e h =
        quote_without_rate e (rw (rule_rate, m, f, h) refl)
        ∙ sym (
            ap decided evaluated ∙ elim (Option-cases (currency_of from)) [
              | inl unknown ↦ rw (evaluate_pair, unknown) refl
              | inr (from_cur, known) ↦ elim (Option-cases (currency_of to)) [
                | inl unknown ↦ rw (evaluate_pair, known, unknown) refl
                | inr (to_cur, known_too) ↦ rw (evaluate_pair, known, known_too, h) refl
              ]
            ])

    mode_of_quote : quote_mode provider ≡ mode
    unfolding quote_mode rule_provider
    mode_of_quote = rw (quote_mode, m, mode_named content mode m) refl

    rate_given :
        (scaled : ℤ)
        → effective pair mode ≡ ok scaled
        → rule_rate (ok content) now from to
          ≡ ok (record { from = from; to = to; scaled = scaled; source = pair.source; as_of = now })
    unfolding rule_rate rate_from_policy
    rate_given scaled h = rw (rule_rate, m, f, h) refl

    common :
        (r : Option ℤ)
        → quoted (quote (some provider) from to minor) ≡ r
        → decided (evaluate_pair from to minor mode pair) ≡ r
        → Agree
    common r a b = a ∙ sym (ap decided evaluated ∙ b)

    converted : (scaled : ℤ) → effective pair mode ≡ ok scaled → Agree
    unfolding quote rule_provider evaluate_pair
    converted scaled h = elim (Option-cases (currency_of from)) [
      | inl unknown ↦ common none (rw (quote, unknown) refl) (rw (evaluate_pair, unknown) refl)
      | inr (from_cur, known) ↦ elim (Option-cases (currency_of to)) [
        | inl unknown ↦
            common none (rw (quote, known, unknown) refl) (rw (evaluate_pair, known, unknown) refl)
        | inr (to_cur, known_too) ↦
            elim (Result-cases
              (convert_minor minor from_cur.decimals to_cur.decimals scaled mode)) [
                | inl (v, done) ↦
                    common (some v)
                      (rw (quote, known, known_too, rate_given scaled h, mode_of_quote, done) refl)
                      (rw (evaluate_pair, known, known_too, h, done) refl)
                | inr (e, failed) ↦
                    common none
                      (rw (quote, known, known_too, rate_given scaled h, mode_of_quote, failed)
                        refl)
                      (rw (evaluate_pair, known, known_too, h, failed) refl)
              ]
      ]
    ]

-- With a rate provider over an fx_policy rule, `Quote` gives an amount exactly when the rule's
-- evaluator does, and then the same: for every content, pair of currencies and amount.
pub quote-evaluate_fx :
    (content : Fields) (now : Time) (from to : String) (minor : ℤ)
    → quoted (quote (some (rule_provider (ok content) now)) from to minor)
      ≡ decided (evaluate_fx content from to minor)
quote-evaluate_fx content now from to minor =
    elim (Result-cases (rounding_mode_from_content content)) [
      | inr (e, bad) ↦ no_mode content now from to minor e bad
      | inl (mode, m) ↦ elim (Result-cases (find_fx_pair content from to)) [
        | inr (e, missing) ↦ pair_missing content now from to minor mode e m missing
        | inl (pair, f) ↦ elim (Result-cases (effective pair mode)) [
          | inr (e, bad) ↦ not_effective content now from to minor mode pair m f e bad
          | inl (scaled, h) ↦ converted content now from to minor mode pair m f scaled h
        ]
      ]
    ]
