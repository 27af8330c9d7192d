-- ===== src/Loan/State.antt =====
-- internal/loan/state.go: the projection of the loans' events. The mutex is held for the whole of
-- `refresh` and of `applyAppended`, so each is one step.
pub mod Progress
pub mod Persistence
use stable_bank.Base.{
  ℕ, String, Bool, true, false, ◌||◌, Option, none, some, List, [], ◌∷◌, ◌++◌, ltb, str_eq,
  if◌then◌else◌,
}
use stable_bank.Base.Int.{ℤ}
use stable_bank.Base.Int64.{eq_ℤ}
use stable_bank.Base.Dict.{Dict, lookup, insert}
use stable_bank.Store.Events.{Event, EventFilter, Log, list}
use stable_bank.Ledger.Types.{Payload, account, transaction, loan, foreign}
use stable_bank.Loan.Documents.{
  LoanRecord, LoanDocument, originated, payment_missed, defaulted, repaid,
}

abbrev pub event_loan_originated : String
event_loan_originated = "loan.originated"

abbrev pub event_loan_payment_missed : String
event_loan_payment_missed = "loan.payment_missed"

abbrev pub event_loan_defaulted : String
event_loan_defaulted = "loan.defaulted"

abbrev pub event_loan_repaid : String
event_loan_repaid = "loan.repaid"

abbrev pub loan_event_types : List String
loan_event_types =
    event_loan_originated ∷ event_loan_payment_missed ∷ event_loan_defaulted ∷ event_loan_repaid
    ∷ []

-- `missed` is a map from numbers to true: the numbers, each of them once.
pub record LoanState : Type 0 where
  pub details : LoanRecord
  pub missed : List ℤ
  pub defaulted : Bool
  pub default_reason : String
  pub repaid : Bool

pub record LoanProjection : Type 0 where
  pub last_seq : ℕ
  pub loans : Dict LoanState
  pub order : List String

abbrev pub new_loan_projection : LoanProjection
new_loan_projection = record { last_seq = 0; loans = []; order = [] }

unfoldable pub contains_no : ℤ → List ℤ → Bool
contains_no n [] = false
contains_no n (m ∷ ms) = eq_ℤ m n || contains_no n ms

unfoldable pub add_no : ℤ → List ℤ → List ℤ
add_no n ms = if contains_no n ms then ms else ms ++ n ∷ []

abbrev pub new_loan_state : LoanRecord → LoanState
new_loan_state r = record {
  details = r;
  missed = [];
  defaulted = false;
  default_reason = "";
  repaid = false;
}

-- `if st, ok := p.loans[id]; ok { ... }`
unfoldable pub update_loan : String → (LoanState → LoanState) → LoanProjection → LoanProjection
update_loan id f p = elim (lookup id p.loans) [
  | none ↦ p
  | some st ↦ record p { loans = insert id (f st) p.loans }
]

abbrev pub add_loan : LoanRecord → LoanProjection → LoanProjection
add_loan r p = record p {
  loans = insert r.id (new_loan_state r) p.loans;
  order = p.order ++ r.id ∷ [];
}

abbrev pub mark_missed : ℤ → LoanState → LoanState
mark_missed n st = record st { missed = add_no n st.missed }

abbrev pub mark_defaulted : String → LoanState → LoanState
mark_defaulted reason st = record st { defaulted = true; default_reason = reason }

abbrev pub mark_repaid : LoanState → LoanState
mark_repaid st = record st { repaid = true }

-- The `switch e.Type` of `apply`: a payload of another shape cannot be decoded.
unfoldable pub apply_document : String → LoanDocument → LoanProjection → Option LoanProjection
apply_document kind (originated r sched) p =
    if str_eq kind event_loan_originated then some (add_loan r p) else none
apply_document kind (payment_missed m) p =
    if str_eq kind event_loan_payment_missed
    then some (update_loan m.loan_id (mark_missed m.installment_no) p)
    else none
apply_document kind (defaulted id reason cents at) p =
    if str_eq kind event_loan_defaulted
    then some (update_loan id (mark_defaulted reason) p)
    else none
apply_document kind (repaid id at) p =
    if str_eq kind event_loan_repaid then some (update_loan id mark_repaid p) else none

abbrev pub is_loan_kind : String → Bool
is_loan_kind kind =
    str_eq kind event_loan_originated
    || str_eq kind event_loan_payment_missed
    || str_eq kind event_loan_defaulted
    || str_eq kind event_loan_repaid

unfoldable pub apply_loan_payload : String → Payload → LoanProjection → Option LoanProjection
apply_loan_payload kind (loan d) p = if is_loan_kind kind then apply_document kind d p else some p
apply_loan_payload kind (account a) p = if is_loan_kind kind then none else some p
apply_loan_payload kind (transaction tx) p = if is_loan_kind kind then none else some p
apply_loan_payload kind (foreign j) p = if is_loan_kind kind then none else some p

unfoldable pub advance_loan_seq : ℕ → LoanProjection → LoanProjection
advance_loan_seq n p = if ltb p.last_seq n then record p { last_seq = n } else p

-- `apply`; none is a decoding error.
unfoldable pub apply_loan : Event Payload → LoanProjection → Option LoanProjection
apply_loan e p = elim (apply_loan_payload e.kind e.payload p) [
  | none ↦ none
  | some q ↦ some (advance_loan_seq e.seq q)
]

-- The loop of `refresh`: whether every event was decoded, and the projection.
unfoldable pub apply_loans : List (Event Payload) → LoanProjection → Bool × LoanProjection
apply_loans [] p = (true, p)
apply_loans (e ∷ es) p = elim (apply_loan e p) [ none ↦ (false, p) | some q ↦ apply_loans es q ]

abbrev pub loan_filter : ℕ → EventFilter
loan_filter n = record { types = loan_event_types; aggregate_id = ""; after_seq = n; limit = 0 }

unfoldable pub refresh_loans : Log Payload → LoanProjection → Bool × LoanProjection
refresh_loans log p = apply_loans (list (loan_filter p.last_seq) log) p

-- `applyAppended`: what `apply` returns is dropped.
unfoldable pub apply_appended_loans : List (Event Payload) → LoanProjection → LoanProjection
apply_appended_loans [] p = p
apply_appended_loans (e ∷ es) p = elim (apply_loan e p) [
  | none ↦ apply_appended_loans es p
  | some q ↦ apply_appended_loans es q
]
