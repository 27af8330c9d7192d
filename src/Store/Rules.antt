-- ===== src/Store/Rules.antt =====
-- Rule versions and rule applications: store.RuleVersion, store.RuleApplication
-- (internal/store/store.go), and the methods of internal/store/memstore/memstore.go on them.
pub mod Histories
pub mod Lookup
pub mod Applications
use stable_bank.Base.{
  ℕ, zero, suc, String, Bool, true, false, ◌&&◌, ◌||◌, not, Option, none, some, List, [], ◌∷◌, ◌++◌,
  reverse, map, ltb, ◌==◌, str_eq, length, Result, ok, err, if◌then◌else◌,
}
use stable_bank.Base.Int.{ℤ, pos, negsuc, ltb_ℤ}
use stable_bank.Base.Int64.{eq_ℤ}
use stable_bank.Base.Dict.{Dict, lookup, insert}
use stable_bank.Base.Sort.{insert_sorted, sort_slice, ltb_str}
use stable_bank.Store.Events.{Time}

-- `content` is the YAML text; a nil `EffectiveTo` is `none`, and the version is open.
pub record RuleVersion : Type 0 where
  pub rule_id : String
  pub version : ℤ
  pub rule_type : String
  pub content : String
  pub content_hash : String
  pub source_commit : String
  pub author : String
  pub change_note : String
  pub effective_from : Time
  pub effective_to : Option Time
  pub created_at : Time

-- The raw JSON of inputs and outcome is a string.
pub record RuleApplication : Type 0 where
  pub id : String
  pub rule_id : String
  pub version : ℤ
  pub entity_type : String
  pub entity_id : String
  pub inputs : String
  pub outcome : String
  pub applied_at : Time
  pub recorded_at : Time

pub record RuleStore : Type 0 where
  pub versions : Dict (List RuleVersion)
  pub apps : List RuleApplication

abbrev pub new_store : RuleStore
new_store = record { versions = []; apps = [] }

pub data StoreError : Type 0 where
  conflict : StoreError
  not_found : StoreError

-- `s.versions[ruleID]`, nil for a missing key.
abbrev pub versions_of : String → RuleStore → List RuleVersion
versions_of id s = elim (lookup id s.versions) [ none ↦ [] | some vs ↦ vs ]

-- The scan of `GetRuleVersion`, which `InsertRuleVersion` makes for its conflict as well.
abbrev pub find_version : ℤ → List RuleVersion → Option RuleVersion
find_version n [] = none
find_version n (v ∷ vs) = if eq_ℤ v.version n then some v else find_version n vs

abbrev pub close : Time → RuleVersion → RuleVersion
close t v = record v { effective_to = elim v.effective_to [ none ↦ some t | some e ↦ some e ] }

abbrev pub older : RuleVersion → RuleVersion → Bool
older a b = ltb_ℤ a.version b.version

abbrev pub dated : Time → RuleVersion → RuleVersion
dated wall v = record v { created_at = if v.created_at == 0 then wall else v.created_at }

abbrev pub close_all : Time → List RuleVersion → List RuleVersion
close_all t [] = []
close_all t (v ∷ vs) = close t v ∷ close_all t vs

-- `InsertRuleVersion`; `wall` is what `time.Now()` gives during the call.
unfoldable pub insert_version :
    Time → RuleVersion → RuleStore → Result StoreError (Unit {0}) × RuleStore
insert_version wall v s =
    let vs = versions_of v.rule_id s in
    elim (find_version v.version vs) [
      | some existing ↦ (err conflict, s)
      | none ↦
          let closed = close_all v.effective_from vs ++ dated wall v ∷ [] in
          (ok tt, record s { versions = insert v.rule_id (sort_slice older closed) s.versions })
    ]

abbrev pub as_found : Option RuleVersion → Result StoreError RuleVersion
as_found none = err not_found
as_found (some v) = ok v

-- `GetRuleVersion`
unfoldable pub get_version : String → ℤ → RuleStore → Result StoreError RuleVersion
get_version id n s = as_found (find_version n (versions_of id s))

abbrev keys : {V : Type 0} → Dict V → List String
keys [] = []
keys ((k, v) ∷ m) = k ∷ keys m

abbrev gather : List String → RuleStore → List RuleVersion
gather [] s = []
gather (id ∷ ids) s = versions_of id s ++ gather ids s

-- `ListRuleVersions`
unfoldable pub list_versions : String → RuleStore → List RuleVersion
list_versions id s =
    if not (str_eq id "") then versions_of id s else gather (sort_slice ltb_str (keys s.versions)) s

-- `InsertRuleApplication`; `fresh` is what `NewID()` gives during the call.
unfoldable pub insert_application :
    String → Time → RuleApplication → RuleStore → RuleApplication × RuleStore
insert_application fresh wall a s =
    let stored = record a {
      id = if str_eq a.id "" then fresh else a.id;
      recorded_at = if a.recorded_at == 0 then wall else a.recorded_at;
    } in
    (stored, record s { apps = s.apps ++ stored ∷ [] })

-- The two `continue` tests of `ListRuleApplications`, negated.
abbrev pub app_passes : String → String → RuleApplication → Bool
app_passes rule_id entity_id a =
    (str_eq rule_id "" || str_eq a.rule_id rule_id)
    && (str_eq entity_id "" || str_eq a.entity_id entity_id)

-- Its loop, over the applications from the last one down.
unfoldable pub apps_loop :
    (RuleApplication → Bool)
    → ℕ
    → List RuleApplication
    → List RuleApplication
    → List RuleApplication
apps_loop p limit [] out = out
apps_loop p limit (a ∷ more) out =
    let found = apps_loop p limit more (out ++ a ∷ []) in
    let skipped = apps_loop p limit more out in
    if ltb (length out) limit then (if p a then found else skipped) else out

abbrev pub app_limit : ℤ → ℕ
app_limit (pos zero) = 100
app_limit (pos (suc n)) = suc n
app_limit (negsuc n) = 100

unfoldable pub list_applications : String → String → ℤ → RuleStore → List RuleApplication
list_applications rule_id entity_id limit s =
    apps_loop (app_passes rule_id entity_id) (app_limit limit) (reverse s.apps) []
