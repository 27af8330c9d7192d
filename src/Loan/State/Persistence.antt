-- ===== src/Loan/State/Persistence.antt =====
-- What the projection of internal/loan/state.go knows of one loan, over the events of a refresh.
use stable_bank.Base.{
  ℕ, ◌≡◌, refl, sym, subst, String, Bool, true, false, Option, none, some, List, [], ◌∷◌, All,
  Option-cases, inl, inr, eq_iff, str_eq, if◌then◌else◌, ltb,
}
use stable_bank.Base.Dict.{lookup, lookup-insert}
use stable_bank.Store.Events.{Event}
use stable_bank.Ledger.Types.{Payload, account, transaction, loan, foreign}
use stable_bank.Loan.Documents.{
  LoanRecord, LoanDocument, originated, payment_missed, defaulted, repaid,
}
use stable_bank.Loan.State.{
  LoanState, LoanProjection, update_loan, mark_missed, mark_defaulted, mark_repaid, add_loan,
  new_loan_state, apply_document, is_loan_kind, apply_loan_payload, advance_loan_seq, apply_loan,
  apply_loans,
}
use stable_bank.Loan.State.Progress.{
  Progress, Progress-refl, Progress-trans, mark_missed-Progress, mark_defaulted-Progress,
  mark_repaid-Progress,
}

-- The projection knows the loan, in a later state.
abbrev pub IsKnownAfter : String → LoanState → LoanProjection → Type 0
IsKnownAfter id st p = (later : LoanState) × (lookup id p.loans ≡ some later) × Progress st later

-- The payload originates a loan with this id.
abbrev pub Originates : String → Payload → Type 0
Originates id (loan (originated r s)) = r.id ≡ id
Originates id _ = ⊥

some_same : {A : Type 0} {o : Option A} (a b : A) → o ≡ some a → o ≡ some b → a ≡ b
some_same a b h k = cc

module _ (id : String) (st : LoanState) where
  update_loan-known :
      (key : String) (f : LoanState → LoanState) (p : LoanProjection)
      → ((s : LoanState) → Progress s (f s))
      → IsKnownAfter id st p
      → IsKnownAfter id st (update_loan key f p)
  unfolding update_loan
  update_loan-known key f p grows (now, found, progress) =
      elim (Option-cases (lookup key p.loans)) [
        | inl missing ↦ rw (update_loan, missing) (now, found, progress)
        | inr (other, there) ↦
            rw (update_loan, there, lookup-insert key id (f other) p.loans)
              (by_key (str_eq key id) (eq_iff key id).0 other there)
      ]
    where
      by_key :
          (same : Bool)
          → (same ≡ true → key ≡ id)
          → (other : LoanState) → lookup key p.loans ≡ some other
          → (later : LoanState) × ((if same then some (f other) else lookup id p.loans)
              ≡ some later)
            × Progress st later
      by_key true eq other there =
          let is_now : other ≡ now =
            some_same other now there
              (subst (λ k. lookup k p.loans ≡ some now) (sym (eq refl)) found) in
          (
            f other,
            refl,
            Progress-trans st other (f other) (subst (Progress st) (sym is_now) progress)
                (grows other),
          )
      by_key false eq other there = (now, found, progress)

  add_loan-known :
      (r : LoanRecord) (p : LoanProjection)
      → (r.id ≡ id → ⊥)
      → IsKnownAfter id st p
      → IsKnownAfter id st (add_loan r p)
  add_loan-known r p other (now, found, progress) =
      rw (lookup-insert r.id id (new_loan_state r) p.loans)
        (by_key (str_eq r.id id) (eq_iff r.id id).0)
    where
      by_key :
          (same : Bool)
          → (same ≡ true → r.id ≡ id)
          → (later : LoanState) × ((if same then some (new_loan_state r) else lookup id p.loans)
              ≡ some later)
            × Progress st later
      by_key true eq = absurd (other (eq refl))
      by_key false eq = (now, found, progress)

  abbrev Keeps : Option LoanProjection → Type 0
  Keeps none = Unit
  Keeps (some q) = IsKnownAfter id st q

  Keeps-if :
      (t : Bool) (q : LoanProjection) → IsKnownAfter id st q → Keeps (if t then some q else none)
  Keeps-if true q h = h
  Keeps-if false q h = tt

  apply_document-Keeps :
      (kind : String) (d : LoanDocument) (p : LoanProjection)
      → (Originates id (loan d) → ⊥)
      → IsKnownAfter id st p
      → Keeps (apply_document kind d p)
  unfolding apply_document
  apply_document-Keeps kind (originated r s) p other h = Keeps-if _ _ (add_loan-known r p other h)
  apply_document-Keeps kind (payment_missed m) p other h = Keeps-if _ _ (
      update_loan-known m.loan_id (mark_missed m.installment_no) p
        (mark_missed-Progress m.installment_no) h)
  apply_document-Keeps kind (defaulted key reason cents at) p other h =
      Keeps-if _ _
        (update_loan-known key (mark_defaulted reason) p (mark_defaulted-Progress reason) h)
  apply_document-Keeps kind (repaid key at) p other h =
      Keeps-if _ _ (update_loan-known key mark_repaid p mark_repaid-Progress h)

  unreadable :
      (p : LoanProjection) → IsKnownAfter id st p → (t : Bool) → Keeps (if t then none else some p)
  unreadable p h true = tt
  unreadable p h false = h

  apply_loan_payload-Keeps :
      (kind : String) (d : Payload) (p : LoanProjection)
      → (Originates id d → ⊥)
      → IsKnownAfter id st p
      → Keeps (apply_loan_payload kind d p)
  unfolding apply_loan_payload
  apply_loan_payload-Keeps kind (loan d) p other h =
      by_kind (is_loan_kind kind) (apply_document kind d p) (apply_document-Keeps kind d p other h)
    where
      by_kind : (t : Bool) (o : Option LoanProjection) → Keeps o → Keeps (if t then o else some p)
      by_kind true o k = k
      by_kind false o k = h
  apply_loan_payload-Keeps kind (account a) p other h = unreadable p h (is_loan_kind kind)
  apply_loan_payload-Keeps kind (transaction tx) p other h = unreadable p h (is_loan_kind kind)
  apply_loan_payload-Keeps kind (foreign j) p other h = unreadable p h (is_loan_kind kind)

  advance-Keeps :
      (n : ℕ) (p : LoanProjection)
      → IsKnownAfter id st p
      → IsKnownAfter id st (advance_loan_seq n p)
  unfolding advance_loan_seq
  advance-Keeps n p h = by_seq (ltb p.last_seq n)
    where
      by_seq : (t : Bool) → IsKnownAfter id st (if t then record p { last_seq = n } else p)
      by_seq true = h
      by_seq false = h

  apply_loan-Keeps :
      (e : Event Payload) (p : LoanProjection)
      → (Originates id e.payload → ⊥)
      → IsKnownAfter id st p
      → Keeps (apply_loan e p)
  unfolding apply_loan
  apply_loan-Keeps e p other h =
      by_payload (apply_loan_payload e.kind e.payload p)
        (apply_loan_payload-Keeps e.kind e.payload p other h)
    where
      by_payload :
          (o : Option LoanProjection)
          → Keeps o
          → Keeps (elim o [ none ↦ none | some q ↦ some (advance_loan_seq e.seq q) ])
      by_payload none k = tt
      by_payload (some q) k = advance-Keeps e.seq q k

  apply_loans-Keeps :
      (es : List (Event Payload)) (p : LoanProjection)
      → All (λ e. Originates id e.payload → ⊥) es
      → IsKnownAfter id st p
      → IsKnownAfter id st (apply_loans es p).1
  unfolding apply_loans
  apply_loans-Keeps [] p others h = h
  apply_loans-Keeps (e ∷ es) p (other, others) h =
      by_event (apply_loan e p) (apply_loan-Keeps e p other h)
        (λ q k. apply_loans-Keeps es q others k)
    where
      by_event :
          (o : Option LoanProjection)
          → Keeps o
          → ((q : LoanProjection) → IsKnownAfter id st q → IsKnownAfter id st (apply_loans es q).1)
          → IsKnownAfter id st
              (elim o as (λ _. Bool × LoanProjection) [
                | none ↦ (false, p)
                | some q ↦ apply_loans es q
              ]).1
      by_event none k rest = h
      by_event (some q) k rest = rest q k

-- A loan that the projection knows is still known after the events of a refresh, readable or not, of
-- which none originates a loan with its id. Its record is then as it was; it is still defaulted or
-- repaid if it was, and every installment that was missed still is.
pub apply_loans-Progress :
    (es : List (Event Payload)) (p : LoanProjection) (id : String) (st : LoanState)
    → lookup id p.loans ≡ some st
    → All (λ e. ¬ Originates id e.payload) es
    → IsKnownAfter id st (apply_loans es p).1
apply_loans-Progress es p id st found others =
    apply_loans-Keeps id st es p others (st, found, Progress-refl st)
