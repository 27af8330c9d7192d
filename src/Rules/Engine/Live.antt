-- ===== src/Rules/Engine/Live.antt =====
-- The cache of internal/rules/engine.go holds the open versions of the store: what saving,
-- reactivating, evaluating and loading keep.
pub mod Versions
pub mod Saving
pub mod Serving
pub mod Loading
pub mod Runs
use stable_bank.Base.{
  ◌≡◌, refl, sym, ap, ◌∙◌, subst, String, true, false, none, some, List, [], ◌∷◌, ◌++◌, arith,
  str_eq, eq_iff, eq_refl, Bool-cases, inl, inr, Result, ok, err, Option, if◌then◌else◌, ◌&&◌,
}
use stable_bank.Base.Dict.{lookup, insert, lookup-insert}
use stable_bank.Base.Sort.{insert_sorted, sort_slice}
use stable_bank.Store.Events.{Time}
use stable_bank.Store.Rules.{
  RuleVersion, RuleStore, versions_of, find_version, close, older, dated, close_all,
}
use stable_bank.Store.Rules.Lookup.{inserted, stored, versions_of-stored}
use stable_bank.Rules.Documents.{Rule, Library, validate}
use stable_bank.Rules.Engine.{Engine}
use stable_bank.Rules.Engine.Save.{cached}
use stable_bank.Rules.Engine.Load.{open_loop, open_version, is_open, better}

open_loop-closed :
    (c : RuleVersion) (vs : List RuleVersion) (best : Option RuleVersion)
    → is_open c ≡ false
    → open_loop (c ∷ vs) best ≡ open_loop vs best
unfolding open_loop
open_loop-closed c vs best h =
    ap (λ b. open_loop vs (if b && better c best then some c else best)) h

open_loop-insert_sorted :
    (c : RuleVersion) (vs : List RuleVersion) (best : Option RuleVersion)
    → is_open c ≡ false
    → open_loop (insert_sorted older c vs) best ≡ open_loop vs best
unfolding open_loop insert_sorted
open_loop-insert_sorted c [] best h = open_loop-closed c [] best h
open_loop-insert_sorted c (v ∷ vs) best h = elim (Bool-cases (older v c)) [
  | inl before ↦ rw before (open_loop-insert_sorted c vs _ h)
  | inr after ↦ rw after (open_loop-closed c (v ∷ vs) best h)
]

close_is_closed : (t : Time) (v : RuleVersion) → is_open (close t v) ≡ false
close_is_closed t v = ground arith

-- Among closed versions and one open one, this is the open version.
open_version-closed :
    (t : Time) (v : RuleVersion) (vs : List RuleVersion)
    → is_open v ≡ true
    → open_version (sort_slice older (close_all t vs ++ v ∷ [])) ≡ some v
unfolding open_version open_loop sort_slice insert_sorted
open_version-closed t v [] h = ap (λ b. open_loop [] (if b && true then some v else none)) h
open_version-closed t v (w ∷ vs) h =
    open_loop-insert_sorted (close t w) (sort_slice older (close_all t vs ++ v ∷ [])) none
      (close_is_closed t w)
    ∙ open_version-closed t v vs h

module _ (lib : Library) where
  -- A cached rule is what the document of the open version says, from the time it is open on.
  abbrev pub Live : List RuleVersion → Option Rule → Type 0
  Live vs none = Unit {0}
  Live vs (some r) =
      (v : RuleVersion) × (r0 : Rule) × (open_version vs ≡ some v)
      × (validate lib v.content ≡ ok r0)
      × (r ≡ record r0 { effective_from = v.effective_from })

  abbrev pub IsLiveAt : String → Engine → Type 0
  IsLiveAt id e = Live (versions_of id e.rule_store) (lookup id e.cache)

  abbrev pub IsLive : Engine → Type 0
  IsLive e = (id : String) → IsLiveAt id e

  -- A new open version of a rule together with its rule in the cache.
  pub cached-IsLiveAt :
      (wall : Time) (v : RuleVersion) (r0 : Rule) (e : Engine) (id : String)
      → IsLiveAt id e
      → v.effective_to ≡ none
      → validate lib v.content ≡ ok r0
      → IsLiveAt id (cached v.rule_id v.effective_from r0 (stored wall v e.rule_store) e)
  cached-IsLiveAt wall v r0 e id live open_now good = elim (Bool-cases (str_eq v.rule_id id)) [
    | inl same ↦
        let vs = inserted wall v (versions_of v.rule_id e.rule_store) in
        let there : versions_of id (stored wall v e.rule_store) ≡ vs =
          versions_of-stored wall v e.rule_store id ∙ rw same refl in
        let r = record r0 { effective_from = v.effective_from } in
        let found : lookup id (insert v.rule_id r e.cache) ≡ some r =
          lookup-insert v.rule_id id r e.cache ∙ rw same refl in
        let opened : open_version vs ≡ some (dated wall v) =
          open_version-closed v.effective_from (dated wall v) (versions_of v.rule_id e.rule_store)
            (rw open_now refl) in
        rw (there, found) (dated wall v, r0, opened, good, refl)
    | inr other ↦
        let there : versions_of id (stored wall v e.rule_store) ≡ versions_of id e.rule_store =
          versions_of-stored wall v e.rule_store id ∙ rw other refl in
        let found : lookup id
              (insert v.rule_id (record r0 { effective_from = v.effective_from }) e.cache)
            ≡ lookup id e.cache =
          lookup-insert v.rule_id id _ e.cache ∙ rw other refl in
        rw (there, found) live
  ]

  -- A version that is stored and not cached leaves the other rules as they are.
  pub stored-IsLiveAt :
      (wall : Time) (v : RuleVersion) (e : Engine) (id : String)
      → str_eq v.rule_id id ≡ false
      → IsLiveAt id e
      → IsLiveAt id (record e { rule_store = stored wall v e.rule_store })
  stored-IsLiveAt wall v e id other live =
      let there : versions_of id (stored wall v e.rule_store) ≡ versions_of id e.rule_store =
        versions_of-stored wall v e.rule_store id ∙ rw other refl in
      rw there live
