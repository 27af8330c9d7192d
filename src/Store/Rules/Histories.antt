-- ===== src/Store/Rules/Histories.antt =====
-- The invariant of the version histories that `InsertRuleVersion` keeps
-- (internal/store/memstore/memstore.go).
use stable_bank.Base.{
  ℕ, ◌+◌, ◌≤◌, ◌≡◌, refl, sym, subst, String, false, none, some, List, [], ◌∷◌, ◌++◌, arith, str_eq,
  eq_iff, Option-cases, Bool-cases, inl, inr, All, All-append,
}
use stable_bank.Base.Int.{ℤ, ◌<ℤ◌}
use stable_bank.Base.Int64.{eq_ℤ}
use stable_bank.Base.Dict.{lookup}
use stable_bank.Base.Sort.{insert_sorted, sort_slice}
use stable_bank.Store.Events.{Time}
use stable_bank.Store.Rules.{
  RuleVersion, RuleStore, new_store, versions_of, find_version, close, older, dated, close_all,
  insert_version,
}
use stable_bank.Store.Rules.Lookup.{
  inserted, insert_version-new, insert_version-known, versions_of-stored,
}

abbrev pub Ascending : List RuleVersion → Type 0
Ascending [] = Unit
Ascending (v ∷ vs) = All (λ w. v.version <ℤ w.version) vs × Ascending vs

abbrev open_count : RuleVersion → ℕ
open_count v = elim v.effective_to [ none ↦ 1 | some t ↦ 0 ]

abbrev pub open_versions : List RuleVersion → ℕ
open_versions [] = 0
open_versions (v ∷ vs) = open_count v + open_versions vs

abbrev pub IsHistory : String → List RuleVersion → Type 0
IsHistory id vs = Ascending vs × All (λ v. v.rule_id ≡ id) vs × (open_versions vs ≤ 1)

abbrev pub Differs : ℤ → RuleVersion → Type 0
Differs n v = eq_ℤ v.version n ≡ false

abbrev pub Distinct : List RuleVersion → Type 0
Distinct [] = Unit
Distinct (v ∷ vs) = All (Differs v.version) vs × Distinct vs

All-insert_sorted :
    (P : RuleVersion → Type 0) (x : RuleVersion) (vs : List RuleVersion)
    → P x
    → All P vs
    → All P (insert_sorted older x vs)
unfolding insert_sorted
All-insert_sorted P x [] p ps = (p, tt)
All-insert_sorted P x (v ∷ vs) p ps = elim (Bool-cases (older v x)) [
  | inl before ↦ rw before (ps.0, All-insert_sorted P x vs p ps.1)
  | inr after ↦ rw after (p, ps)
]

All-sort_slice :
    (P : RuleVersion → Type 0) (vs : List RuleVersion) → All P vs → All P (sort_slice older vs)
unfolding sort_slice
All-sort_slice P [] ps = tt
All-sort_slice P (v ∷ vs) ps =
    All-insert_sorted P v (sort_slice older vs) ps.0 (All-sort_slice P vs ps.1)

All-map :
    (P Q : RuleVersion → Type 0)
    → ((v : RuleVersion) → P v → Q v)
    → (vs : List RuleVersion) → All P vs
    → All Q vs
All-map P Q f [] ps = tt
All-map P Q f (v ∷ vs) ps = (f v ps.0, All-map P Q f vs ps.1)

insert_sorted-Ascending :
    (x : RuleVersion) (vs : List RuleVersion)
    → All (Differs x.version) vs
    → Ascending vs
    → Ascending (insert_sorted older x vs)
unfolding insert_sorted
insert_sorted-Ascending x [] d a = (tt, tt)
insert_sorted-Ascending x (v ∷ vs) d a = elim (Bool-cases (older v x)) [
  | inl before ↦ rw before (
    All-insert_sorted (λ w. v.version <ℤ w.version) x vs (ground arith) a.0,
    insert_sorted-Ascending x vs d.1 a.1,
  )
  | inr after ↦
      let x_first : x.version <ℤ v.version = ground (arith, d.0) in
      rw after (
        (
          x_first,
          All-map (λ w. v.version <ℤ w.version) (λ w. x.version <ℤ w.version)
              (λ w less. omega (arith, less, x_first)) vs a.0,
        ),
        a,
      )
]

sort_slice-Ascending : (vs : List RuleVersion) → Distinct vs → Ascending (sort_slice older vs)
unfolding sort_slice
sort_slice-Ascending [] d = tt
sort_slice-Ascending (v ∷ vs) d =
    insert_sorted-Ascending v (sort_slice older vs) (All-sort_slice (Differs v.version) vs d.0)
      (sort_slice-Ascending vs d.1)

open_versions-insert_sorted :
    (x : RuleVersion) (vs : List RuleVersion)
    → open_versions (insert_sorted older x vs) ≡ open_count x + open_versions vs
unfolding insert_sorted
open_versions-insert_sorted x [] = refl
open_versions-insert_sorted x (v ∷ vs) = elim (Bool-cases (older v x)) [
  | inl before ↦ rw before (omega (arith, open_versions-insert_sorted x vs))
  | inr after ↦ rw after refl
]

open_versions-sort_slice :
    (vs : List RuleVersion) → open_versions (sort_slice older vs) ≡ open_versions vs
unfolding sort_slice
open_versions-sort_slice [] = refl
open_versions-sort_slice (v ∷ vs) =
    omega (arith, open_versions-insert_sorted v (sort_slice older vs), open_versions-sort_slice vs)

open_versions-append :
    (xs ys : List RuleVersion) → open_versions (xs ++ ys) ≡ open_versions xs + open_versions ys
open_versions-append [] ys = omega arith
open_versions-append (x ∷ xs) ys = omega (arith, open_versions-append xs ys)

open_count-le : (v : RuleVersion) → open_count v ≤ 1
open_count-le v = ground arith

open_versions-close_all : (t : Time) (vs : List RuleVersion) → open_versions (close_all t vs) ≡ 0
open_versions-close_all t [] = refl
open_versions-close_all t (v ∷ vs) = ground (arith, open_versions-close_all t vs)

All-close_all :
    (P : RuleVersion → Type 0) (t : Time)
    → ((v : RuleVersion) → P v → P (close t v))
    → (vs : List RuleVersion) → All P vs
    → All P (close_all t vs)
All-close_all P t f [] ps = tt
All-close_all P t f (v ∷ vs) ps = (f v ps.0, All-close_all P t f vs ps.1)

not_found-Differs : (n : ℤ) (vs : List RuleVersion) → find_version n vs ≡ none → All (Differs n) vs
not_found-Differs n [] h = tt
not_found-Differs n (v ∷ vs) h = ground (arith, not_found-Differs n vs)

Distinct-inserted :
    (t : Time) (v : RuleVersion) (vs : List RuleVersion)
    → Ascending vs
    → All (Differs v.version) vs
    → Distinct (close_all t vs ++ v ∷ [])
Distinct-inserted t v [] a d = (tt, tt)
Distinct-inserted t v (w ∷ vs) a d = (
  All-append (Differs w.version) (close_all t vs) (v ∷ [])
      (All-close_all (Differs w.version) t (λ u h. h) vs
        (All-map (λ u. w.version <ℤ u.version) (Differs w.version) (λ u less. ground arith) vs a.0))
      (ground (arith, d.0), tt),
  Distinct-inserted t v vs a.1 d.1,
)

module _ (wall : Time) (v : RuleVersion) (vs : List RuleVersion) where
  inserted-IsHistory :
      IsHistory v.rule_id vs
      → find_version v.version vs ≡ none
      → IsHistory v.rule_id (inserted wall v vs)
  inserted-IsHistory (a, ids, one) new =
      let added = close_all v.effective_from vs ++ dated wall v ∷ [] in
      (
        sort_slice-Ascending added (
            Distinct-inserted v.effective_from (dated wall v) vs a
              (not_found-Differs v.version vs new)),
        All-sort_slice (λ w. w.rule_id ≡ v.rule_id) added
            (All-append (λ w. w.rule_id ≡ v.rule_id) (close_all v.effective_from vs)
              (dated wall v ∷ [])
              (All-close_all (λ w. w.rule_id ≡ v.rule_id) v.effective_from (λ w h. h) vs ids)
              (refl, tt)),
        omega (
          arith,
          open_versions-sort_slice added,
          open_versions-append (close_all v.effective_from vs) (dated wall v ∷ []),
          open_versions-close_all v.effective_from vs,
          open_count-le (dated wall v),
        ),
      )

abbrev pub HasHistories : RuleStore → Type 0
HasHistories s = (id : String) → IsHistory id (versions_of id s)

insert_version-HasHistories :
    (wall : Time) (v : RuleVersion) (s : RuleStore)
    → HasHistories s
    → HasHistories (insert_version wall v s).1
insert_version-HasHistories wall v s h id =
    elim (Option-cases (find_version v.version (versions_of v.rule_id s))) [
      | inl new ↦
          subst (λ r. IsHistory id (versions_of id r.1)) (sym (insert_version-new wall v s new))
            (subst (IsHistory id) (sym (versions_of-stored wall v s id))
              (elim (Bool-cases (str_eq v.rule_id id)) [
                | inl same ↦ rw same (
                    subst (λ i. IsHistory i (inserted wall v (versions_of v.rule_id s)))
                      ((eq_iff v.rule_id id).0 same)
                      (inserted-IsHistory wall v (versions_of v.rule_id s) (h v.rule_id) new))
                | inr other ↦ rw other (h id)
              ]))
      | inr (w, old) ↦
          subst (λ r. IsHistory id (versions_of id r.1)) (sym (insert_version-known wall v s w old))
            (h id)
    ]

-- Insertions one after another, each with the time of its call.
unfoldable pub insert_versions : List (Time × RuleVersion) → RuleStore → RuleStore
insert_versions [] s = s
insert_versions ((wall, v) ∷ vs) s = insert_versions vs (insert_version wall v s).1

insert_versions-HasHistories :
    (vs : List (Time × RuleVersion)) (s : RuleStore)
    → HasHistories s
    → HasHistories (insert_versions vs s)
unfolding insert_versions
insert_versions-HasHistories [] s h = h
insert_versions-HasHistories ((wall, v) ∷ vs) s h =
    insert_versions-HasHistories vs (insert_version wall v s).1
      (insert_version-HasHistories wall v s h)

-- After any insertions into an empty store, refused ones included, the versions kept for a rule are
-- all of that rule, stand in strictly ascending order of their numbers, and at most one is open.
pub insert_versions-IsHistory :
    (vs : List (Time × RuleVersion)) (id : String)
    → IsHistory id (versions_of id (insert_versions vs new_store))
unfolding lookup
insert_versions-IsHistory vs id =
    insert_versions-HasHistories vs new_store (λ i. (tt, tt, omega arith)) id
