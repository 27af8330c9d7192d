-- ===== src/Loan/State/Progress.antt =====
-- How the state of a loan of internal/loan/state.go changes by its marks.
use stable_bank.Base.{
  ◌≡◌, refl, ◌∙◌, subst, String, Bool, true, false, List, [], ◌∷◌, ◌++◌, All, Bool-cases, inl, inr,
  arith,
}
use stable_bank.Base.Int.{ℤ, eq_of_parts}
use stable_bank.Base.Int64.{eq_ℤ}
use stable_bank.Loan.State.{
  LoanState, contains_no, add_no, mark_missed, mark_defaulted, mark_repaid,
}

abbrev pub IsKept : Bool → Bool → Type 0
IsKept true b = b ≡ true
IsKept false b = Unit

-- A later state of the same loan: its record is as it was, a mark once made stays, and so does every
-- missed installment.
pub record Progress (st later : LoanState) : Type 0 where
  pub details : later.details ≡ st.details
  pub missed : All (λ n. contains_no n later.missed ≡ true) st.missed
  pub defaulted_stays : IsKept st.defaulted later.defaulted
  pub repaid_stays : IsKept st.repaid later.repaid

eq_ℤ→≡ : (a b : ℤ) → eq_ℤ a b ≡ true → a ≡ b
eq_ℤ→≡ a b h = ground (arith, eq_of_parts a b)

All-contains_no :
    (Holds : ℤ → Type 0) (n : ℤ) (ms : List ℤ) → All Holds ms → contains_no n ms ≡ true → Holds n
unfolding contains_no
All-contains_no Holds n [] hs h = absurd (ground arith)
All-contains_no Holds n (m ∷ ms) (k, ks) h = elim (Bool-cases (eq_ℤ m n)) [
  | inl same ↦ subst Holds (eq_ℤ→≡ m n same) k
  | inr other ↦ All-contains_no Holds n ms ks (ground arith)
]

contains_no-cons : (n m : ℤ) (ms : List ℤ) → contains_no n ms ≡ true → contains_no n (m ∷ ms) ≡ true
unfolding contains_no
contains_no-cons n m ms h = ground arith

contains_no_here : (n : ℤ) (ms : List ℤ) → contains_no n (n ∷ ms) ≡ true
unfolding contains_no
contains_no_here n ms = ground arith

contains_no-append :
    (n : ℤ) (ms ks : List ℤ) → contains_no n ms ≡ true → contains_no n (ms ++ ks) ≡ true
unfolding contains_no
contains_no-append n [] ks h = absurd (ground arith)
contains_no-append n (m ∷ ms) ks h = elim (Bool-cases (eq_ℤ m n)) [
  | inl same ↦ rw same refl
  | inr other ↦ rw other (contains_no-append n ms ks (ground arith))
]

All-map : {P Q : ℤ → Type 0} (ms : List ℤ) → ((n : ℤ) → P n → Q n) → All P ms → All Q ms
All-map [] f h = tt
All-map (m ∷ ms) f (h, hs) = (f m h, All-map ms f hs)

contains_no-All : (ms : List ℤ) → All (λ n. contains_no n ms ≡ true) ms
contains_no-All [] = tt
contains_no-All (m ∷ ms) =
    (contains_no_here m ms, All-map ms (λ n. contains_no-cons n m ms) (contains_no-All ms))

contains_no-add_no :
    (n k : ℤ) (ms : List ℤ) → contains_no n ms ≡ true → contains_no n (add_no k ms) ≡ true
unfolding add_no
contains_no-add_no n k ms h = elim (Bool-cases (contains_no k ms)) [
  | inl there ↦ rw there h
  | inr new ↦ rw new (contains_no-append n ms (k ∷ []) h)
]

IsKept-refl : (b : Bool) → IsKept b b
IsKept-refl true = refl
IsKept-refl false = tt

IsKept-trans : (a b c : Bool) → IsKept a b → IsKept b c → IsKept a c
IsKept-trans true b c h k = subst (λ d. IsKept d c) h k
IsKept-trans false b c h k = tt

IsKept-true : (b : Bool) → IsKept b true
IsKept-true true = refl
IsKept-true false = tt

pub Progress-refl : (st : LoanState) → Progress st st
Progress-refl st = record {
  details = refl;
  missed = contains_no-All st.missed;
  defaulted_stays = IsKept-refl st.defaulted;
  repaid_stays = IsKept-refl st.repaid;
}

pub Progress-trans : (a b c : LoanState) → Progress a b → Progress b c → Progress a c
Progress-trans a b c p q = record {
  details = q.details ∙ p.details;
  missed =
      All-map a.missed
        (λ n. All-contains_no (λ m. contains_no m c.missed ≡ true) n b.missed q.missed) p.missed;
  defaulted_stays =
      IsKept-trans a.defaulted b.defaulted c.defaulted p.defaulted_stays q.defaulted_stays;
  repaid_stays = IsKept-trans a.repaid b.repaid c.repaid p.repaid_stays q.repaid_stays;
}

pub mark_missed-Progress : (n : ℤ) (st : LoanState) → Progress st (mark_missed n st)
mark_missed-Progress n st = record {
  details = refl;
  missed = All-map st.missed (λ k. contains_no-add_no k n st.missed) (contains_no-All st.missed);
  defaulted_stays = IsKept-refl st.defaulted;
  repaid_stays = IsKept-refl st.repaid;
}

pub mark_defaulted-Progress :
    (reason : String) (st : LoanState) → Progress st (mark_defaulted reason st)
mark_defaulted-Progress reason st = record {
  details = refl;
  missed = contains_no-All st.missed;
  defaulted_stays = IsKept-true st.defaulted;
  repaid_stays = IsKept-refl st.repaid;
}

pub mark_repaid-Progress : (st : LoanState) → Progress st (mark_repaid st)
mark_repaid-Progress st = record {
  details = refl;
  missed = contains_no-All st.missed;
  defaulted_stays = IsKept-refl st.defaulted;
  repaid_stays = IsKept-true st.repaid;
}
