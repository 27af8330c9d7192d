-- ===== src/Rules/Engine/Live/Loading.antt =====
-- Loading the rules (internal/rules/loader.go) puts the open versions into the cache.
use stable_bank.Base.{
  ◌≡◌, refl, sym, ap, ◌∙◌, subst, String, false, some, List, [], ◌∷◌, arith, str_eq, eq_iff,
  Option-cases, Bool-cases, Result-cases, inl, inr, Result, ok, err, All,
}
use stable_bank.Base.Dict.{lookup, insert, lookup-insert}
use stable_bank.Store.Rules.{RuleVersion, RuleStore, versions_of, list_versions}
use stable_bank.Rules.Documents.{Rule, RuleError, load_failed, Library, validate}
use stable_bank.Rules.Engine.{RegistryEntry, Engine, new_engine, Moment}
use stable_bank.Rules.Engine.Load.{
  open_version, check_file, insert_first, read_files, warm_cache, load_from_disk,
}
use stable_bank.Rules.Engine.Live.{Live, IsLive}

abbrev pub IsNamed : RegistryEntry → Type 0
IsNamed entry = str_eq entry.rule_id "" ≡ false

abbrev pub loaded :
    Library → Moment → (String → Result String String) → List RegistryEntry → RuleStore → Engine
loaded lib m file entries s = (load_from_disk lib m file entries (new_engine s)).1

module _ (lib : Library) where
  insert_first-cache :
      (m : Moment) (entry : RegistryEntry) (raw : String) (e e' : Engine)
      → insert_first lib m entry raw e ≡ ok e'
      → e'.cache ≡ e.cache
  unfolding insert_first
  insert_first-cache m entry raw e e' h = ground arith

  read_files-cache :
      (m : Moment) (file : String → Result String String) (entries : List RegistryEntry)
      (problems : List String) (e : Engine)
      → (read_files lib m file entries problems e).1.cache ≡ e.cache
  unfolding read_files
  read_files-cache m file [] problems e = refl
  read_files-cache m file (entry ∷ entries) problems e =
      elim (Result-cases (check_file lib entry (file entry.path))) [
        | inr (x, bad) ↦ rw (read_files, bad) (read_files-cache m file entries _ e)
        | inl (raw, good) ↦ elim (Result-cases (insert_first lib m entry raw e)) [
          | inr (x, failed) ↦ rw (read_files, good) (rw failed refl)
          | inl (e', done) ↦
              rw (read_files, good)
                (rw done (
                  read_files-cache m file entries problems e'
                  ∙ insert_first-cache m entry raw e e' done))
        ]
      ]

  warmed-IsLive :
      (id : String) (v : RuleVersion) (r : Rule) (e : Engine)
      → IsLive lib e
      → open_version (versions_of id e.rule_store) ≡ some v
      → validate lib v.content ≡ ok r
      → IsLive lib
          (record e { cache = insert id (record r { effective_from = v.effective_from }) e.cache })
  warmed-IsLive id v r e live opened good at =
      let r' = record r { effective_from = v.effective_from } in
      elim (Bool-cases (str_eq id at)) [
        | inl same ↦
            let found : lookup at (insert id r' e.cache) ≡ some r' =
              lookup-insert id at r' e.cache ∙ rw same refl in
            rw found (
              v,
              r,
              subst (λ i. open_version (versions_of i e.rule_store) ≡ some v)
                  ((eq_iff id at).0 same) opened,
              good,
              refl,
            )
        | inr other ↦
            let found : lookup at (insert id r' e.cache) ≡ lookup at e.cache =
              lookup-insert id at r' e.cache ∙ rw other refl in
            rw found (live at)
      ]

  warm_cache-IsLive :
      (entries : List RegistryEntry) (e : Engine)
      → All IsNamed entries
      → IsLive lib e
      → IsLive lib (warm_cache lib entries e).1
  unfolding warm_cache
  warm_cache-IsLive [] e named live = live
  warm_cache-IsLive (entry ∷ entries) e named live =
      let own : list_versions entry.rule_id e.rule_store ≡ versions_of entry.rule_id e.rule_store =
        unfold list_versions in rw (list_versions, named.0) refl in
      elim (Option-cases (open_version (list_versions entry.rule_id e.rule_store))) [
        | inl closed ↦ rw (warm_cache, closed) live
        | inr (v, opened) ↦ elim (Result-cases (validate lib v.content)) [
          | inr (x, bad) ↦ rw (warm_cache, opened) (rw bad live)
          | inl (r, good) ↦
              rw (warm_cache, opened)
                (rw good (
                  warm_cache-IsLive entries _ named.1 (
                    warmed-IsLive entry.rule_id v r e live (sym (ap open_version own) ∙ opened)
                      good)))
        ]
      ]

  pub load_from_disk-IsLive :
      (m : Moment) (file : String → Result String String) (entries : List RegistryEntry)
      (s : RuleStore)
      → All IsNamed entries
      → IsLive lib (loaded lib m file entries s)
  unfolding load_from_disk lookup
  load_from_disk-IsLive m file [] s named = λ id. tt
  load_from_disk-IsLive m file (entry ∷ entries) s named =
      let all = entry ∷ entries in
      let start = record (new_engine s) { registry = all } in
      let after = read_files lib m file all [] start in
      let empty : after.1.cache ≡ [] = read_files-cache m file all [] start in
      let live : IsLive lib after.1 = λ id.
        subst (λ c. Live lib (versions_of id after.1.rule_store) (lookup id c)) (sym empty) tt in
      by_problems after.0 after.1 all named live
    where
      by_problems :
          (r : Result RuleError (List String)) (e : Engine) (all : List RegistryEntry)
          → All IsNamed all
          → IsLive lib e
          → IsLive lib
              (elim r as (λ _. Result RuleError (Unit {0}) × Engine) [
                | err x ↦ (err x, e)
                | ok ps ↦ elim ps as (λ _. Result RuleError (Unit {0}) × Engine) [
                  | [] ↦ warm_cache lib all e
                  | p ∷ more ↦ (err (load_failed (p ∷ more)), e)
                ]
              ]).1
      by_problems (err x) e all named live = live
      by_problems (ok []) e all named live = warm_cache-IsLive all e named live
      by_problems (ok (p ∷ more)) e all named live = live
