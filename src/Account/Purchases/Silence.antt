-- ===== src/Account/Purchases/Silence.antt =====
-- Calls of internal/account/service.go that leave the ledger alone, and calls that never decline.
use stable_bank.Base.{
  ◌≡◌, refl, sym, ap, ◌∙◌, subst, String, Bool, true, false, [], Result, ok, err, if◌then◌else◌,
  Option-cases, inl, inr,
}
use stable_bank.Base.Int.{ℤ}
use stable_bank.Base.Stateful.{pure, fail, gets, lift, fail_when, ◌>>=◌, wrap_error}
use stable_bank.Value.{Fields, get}
use stable_bank.Ledger.Types.{LedgerError}
use stable_bank.Ledger.Action.{World, Action, after-refresh}
use stable_bank.Ledger.Balances.{balance, balance_refreshed}
use stable_bank.Ledger.Sync.{InSync, refresh-InSync}
use stable_bank.Rules.Documents.{RuleError}
use stable_bank.Base.Dict.{lookup}
use stable_bank.Account.Waterfall.{WaterfallError, num_field}
use stable_bank.Bank.{Bank, BankEnv, on_ledger, on_rules}
use stable_bank.Account.Service.{
  AccountError, purchase_declined, ledger_failed, rules_failed, Call, invalid_request,
  no_funding_legs, bad_number, unknown_funding_currency,
}
use stable_bank.Account.Purchases.{int_in}

-- A decline leaves the ledger at `w`; the receipt says so and names no transaction.
abbrev pub Untouched : {A : Type 0} → World → Result AccountError A × Bank → Type 0
Untouched w (err (purchase_declined r), b) =
    (b.world ≡ w) × (r.status ≡ "declined") × (r.funded_by ≡ []) × (r.ledger_transaction_ids ≡ [])
Untouched w (_, b) = Unit

-- A call that leaves the ledger as it was.
pub record Silent {A : Type 0} (m : Call A) : Type 0 where
  pub at : (b : Bank) → InSync b.world → (m b).1.world ≡ b.world

-- A call that is never declined.
abbrev pub Undeclined : {A : Type 0} → Result AccountError A → Type 0
Undeclined (err (purchase_declined r)) = ⊥
Undeclined _ = Unit

pub record Certain {A : Type 0} (m : Call A) : Type 0 where
  pub at : (b : Bank) → Undeclined (m b).0

pub record Spares {A : Type 0} (m : Call A) : Type 0 where
  pub at : (b : Bank) → InSync b.world → Untouched b.world (m b)

Untouched-Undeclined :
    {A : Type 0} (w : World) (r : Result AccountError A) (b : Bank)
    → Undeclined r
    → Untouched w (r, b)
Untouched-Undeclined w (ok a) b h = tt
Untouched-Undeclined w (err (purchase_declined x)) b h = absurd h
Untouched-Undeclined w (err _) b h = tt

pub Spares-Certain : {A : Type 0} {m : Call A} → Certain m → Spares m
Spares-Certain {A} {m} c = record {
  at = λ b h. Untouched-Undeclined b.world (m b).0 (m b).1 (c.at b);
}

pub Spares-bind :
    {A B : Type 0} {m : Call A} {f : A → Call B}
    → Silent m
    → Certain m
    → ((a : A) → Spares (f a))
    → Spares (m >>= f)
Spares-bind {A} {B} {m} {f} s c sf = record {
  at = λ b h. by_result b (m b).0 (m b).1 (s.at b h) (c.at b) h;
}
  where
    by_result :
        (b : Bank) (r : Result AccountError A) (c : Bank)
        → c.world ≡ b.world
        → Undeclined r
        → InSync b.world
        → Untouched b.world
            (elim r as (λ _. Result AccountError B × Bank) [ ok a ↦ f a c | err e ↦ (err e, c) ])
    by_result b (ok a) c same h k =
        subst (λ w. Untouched w (f a c)) same ((sf a).at c (subst InSync (sym same) k))
    by_result b (err (purchase_declined x)) c same h k = absurd h
    by_result b (err e) c same h k = tt

pub Certain-bind :
    {A B : Type 0} {m : Call A} {f : A → Call B}
    → Certain m
    → ((a : A) → Certain (f a))
    → Certain (m >>= f)
Certain-bind {A} {B} {m} {f} cm cf = record { at = λ b. by_result (m b).0 (m b).1 (cm.at b) }
  where
    by_result :
        (r : Result AccountError A) (c : Bank)
        → Undeclined r
        → Undeclined
            (elim r as (λ _. Result AccountError B × Bank) [ ok a ↦ f a c | err e ↦ (err e, c) ]).0
    by_result (ok a) c h = (cf a).at c
    by_result (err (purchase_declined x)) c h = absurd h
    by_result (err e) c h = tt

pub Certain-pure : {A : Type 0} (a : A) → Certain (pure a)
Certain-pure a = record { at = λ b. tt }

pub Certain-gets : {A : Type 0} (f : Bank → A) → Certain (gets f)
Certain-gets f = record { at = λ b. tt }

Undeclined-ledger :
    {A : Type 0} (r : Result LedgerError A) → Undeclined (wrap_error ledger_failed r)
Undeclined-ledger (ok a) = tt
Undeclined-ledger (err e) = tt

Undeclined-rules : {A : Type 0} (r : Result RuleError A) → Undeclined (wrap_error rules_failed r)
Undeclined-rules (ok a) = tt
Undeclined-rules (err e) = tt

pub Certain-lift :
    {A : Type 0} (r : Result LedgerError A) → Certain (lift (wrap_error ledger_failed r))
Certain-lift r = record { at = λ b. Undeclined-ledger r }

pub Certain-on_ledger : {A : Type 0} (m : Action A) → Certain (on_ledger ledger_failed m)
Certain-on_ledger m = record { at = λ b. Undeclined-ledger (m b.world).0 }

pub Certain-on_rules :
    (env : BankEnv) (id kind entity : String) (input : Fields)
    → Certain (on_rules rules_failed env id kind entity input)
Certain-on_rules env id kind entity input = record { at = λ b. Undeclined-rules _ }

pub Silent-gets : {A : Type 0} (f : Bank → A) → Silent (gets f)
Silent-gets f = record { at = λ b h. refl }

pub Silent-lift : {A : Type 0} (r : Result AccountError A) → Silent (lift r)
Silent-lift r = record { at = λ b h. refl }

pub Silent-fail_when : (t : Bool) (e : AccountError) → Silent (fail_when t e)
Silent-fail_when t e = record { at = λ b h. refl }

pub Silent-on_rules :
    (env : BankEnv) (id kind entity : String) (input : Fields)
    → Silent (on_rules rules_failed env id kind entity input)
Silent-on_rules env id kind entity input = record { at = λ b h. refl }

balance_refreshed-world : (id : String) (w : World) → (balance_refreshed id w).1 ≡ w
unfolding balance_refreshed
balance_refreshed-world id w = elim (Option-cases (lookup id w.proj.accounts)) [
  | inl missing ↦ rw (balance_refreshed, missing) refl
  | inr (a, found) ↦ rw (balance_refreshed, found) refl
]

pub Silent-balance : (id : String) → Silent (on_ledger ledger_failed (balance id))
unfolding balance
Silent-balance id = record {
  at = λ b h.
      ap (λ r. r.1) (after-refresh (balance_refreshed id) b.world (refresh-InSync b.world h))
      ∙ balance_refreshed-world id b.world;
}

pub Certain-invalid : (t : Bool) (why : String) → Certain (fail_when t (invalid_request why))
Certain-invalid true why = record { at = λ b. tt }
Certain-invalid false why = record { at = λ b. tt }

pub Certain-no_legs : (t : Bool) → Certain (fail_when t no_funding_legs)
Certain-no_legs true = record { at = λ b. tt }
Certain-no_legs false = record { at = λ b. tt }

pub Certain-number : (key : String) (fs : Fields) → Certain (lift (int_in key fs))
Certain-number key fs = record { at = λ b. by_result (num_field key (get key fs)) }
  where
    by_result :
        (r : Result WaterfallError ℤ)
        → Undeclined (wrap_error (λ (e : WaterfallError). bad_number key) r)
    by_result (ok n) = tt
    by_result (err e) = tt

pub Certain-if :
    {A : Type 0} (t : Bool) {m n : Call A} → Certain m → Certain n → Certain (if t then m else n)
Certain-if true p q = p
Certain-if false p q = q

pub Certain-unknown :
    {A : Type 0} (c : String) → Certain {A = A} (fail (unknown_funding_currency c))
Certain-unknown c = record { at = λ b. tt }

pub Silent-pure : {A : Type 0} (a : A) → Silent (pure a)
Silent-pure a = record { at = λ b h. refl }

pub Silent-bind :
    {A B : Type 0} {m : Call A} {f : A → Call B}
    → Silent m
    → ((a : A) → Silent (f a))
    → Silent (m >>= f)
Silent-bind {A} {B} {m} {f} sm sf = record { at = λ b h. by_result b (m b).0 (m b).1 (sm.at b h) h }
  where
    by_result :
        (b : Bank) (r : Result AccountError A) (c : Bank)
        → c.world ≡ b.world
        → InSync b.world
        → (elim r as (λ _. Result AccountError B × Bank) [
          | ok a ↦ f a c
          | err e ↦ (err e, c)
        ]).1.world
          ≡ b.world
    by_result b (ok a) c same h = (sf a).at c (subst InSync (sym same) h) ∙ same
    by_result b (err e) c same h = same

pub ruleset certain_rules = (
  Certain-bind, Certain-pure, Certain-gets, Certain-lift, Certain-on_ledger, Certain-on_rules,
  Certain-invalid, Certain-no_legs, Certain-number, Certain-if, Certain-unknown,
)

pub ruleset silent_rules =
    (Silent-gets, Silent-lift, Silent-fail_when, Silent-on_rules, Silent-balance)
