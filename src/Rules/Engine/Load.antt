-- ===== src/Rules/Engine/Load.antt =====
-- `LoadFromDisk` of internal/rules/loader.go: the rule files become first versions where a rule has
-- none, and the cache takes the open version of each rule.
use Prim.Native.String.{◌++◌ as str_append}
use stable_bank.Base.{
  String, Bool, true, false, not, ◌&&◌, Option, none, some, List, [], ◌∷◌, ◌++◌, str_eq, Result, ok,
  err, if◌then◌else◌,
}
use stable_bank.Base.Int.{pos, ltb_ℤ}
use stable_bank.Base.Dict.{insert}
use stable_bank.Store.Rules.{RuleVersion, insert_version, list_versions}
use stable_bank.Rules.Documents.{
  RuleError, store_failed, none_open, not_warmed, load_failed, Library, validate,
}
use stable_bank.Rules.Engine.{RegistryEntry, Engine, Moment}
use stable_bank.Rules.Engine.Save.{version_of}

-- The loop of `openVersion`; `best` is none until a version is found.
abbrev pub better : RuleVersion → Option RuleVersion → Bool
better v none = true
better v (some best) = ltb_ℤ best.version v.version

abbrev pub is_open : RuleVersion → Bool
is_open v = elim v.effective_to [ none ↦ true | some t ↦ false ]

unfoldable pub open_loop : List RuleVersion → Option RuleVersion → Option RuleVersion
open_loop [] best = best
open_loop (v ∷ vs) best = open_loop vs (if is_open v && better v best then some v else best)

unfoldable pub open_version : List RuleVersion → Option RuleVersion
open_version vs = open_loop vs none

-- `Author` and `ChangeNote` of a first version.
abbrev pub first_version : Library → Moment → RegistryEntry → String → RuleVersion
first_version lib m entry raw =
    version_of lib m entry entry.rule_id (pos 1) raw "system" "initial load from disk"

-- The tests of one file: its problem, or its text.
unfoldable pub check_file : Library → RegistryEntry → Result String String → Result String String
check_file lib entry (err x) = err x
check_file lib entry (ok raw) = elim (validate lib raw) [
  | err x ↦ err "invalid document"
  | ok rule ↦
      if not (str_eq rule.rule_id entry.rule_id)
      then err "rule_id in file differs from registry"
      else if not (str_eq rule.rule_type entry.rule_type)
      then err "rule_type in file differs from registry"
      else ok raw
]

abbrev pub has_none : List RuleVersion → Bool
has_none [] = true
has_none (v ∷ vs) = false

-- The insertion of a first version, where the rule has none.
unfoldable pub insert_first :
    Library → Moment → RegistryEntry → String → Engine → Result RuleError Engine
insert_first lib m entry raw e =
    let (inserted, s) = insert_version m.wall (first_version lib m entry raw) e.rule_store in
    if has_none (list_versions entry.rule_id e.rule_store)
    then (elim inserted [ err x ↦ err (store_failed x) | ok _ ↦ ok (record e { rule_store = s }) ])
    else ok e

-- The first loop: it collects problems, and stops where the store refuses.
unfoldable pub read_files :
    Library
    → Moment
    → (String → Result String String)
    → List RegistryEntry
    → List String
    → Engine
    → Result RuleError (List String) × Engine
read_files lib m file [] problems e = (ok problems, e)
read_files lib m file (entry ∷ entries) problems e = elim (check_file lib entry (file entry.path)) [
  | err x ↦
      read_files lib m file entries (problems ++ str_append entry.rule_id (str_append ": " x) ∷ [])
        e
  | ok raw ↦ elim (insert_first lib m entry raw e) [
    | err x ↦ (err x, e)
    | ok e' ↦ read_files lib m file entries problems e'
  ]
]

-- The second loop.
unfoldable pub warm_cache :
    Library → List RegistryEntry → Engine → Result RuleError (Unit {0}) × Engine
warm_cache lib [] e = (ok tt, e)
warm_cache lib (entry ∷ entries) e =
    elim (open_version (list_versions entry.rule_id e.rule_store)) [
      | none ↦ (err (none_open entry.rule_id), e)
      | some live ↦ elim (validate lib live.content) [
        | err x ↦ (err (not_warmed entry.rule_id x), e)
        | ok rule ↦ warm_cache lib entries (record e {
          cache =
              insert entry.rule_id (record rule { effective_from = live.effective_from }) e.cache;
        })
      ]
    ]

-- `LoadFromDisk` from where it has parsed the registry; `file` gives the text under a path.
unfoldable pub load_from_disk :
    Library
    → Moment
    → (String → Result String String)
    → List RegistryEntry
    → Engine
    → Result RuleError (Unit {0}) × Engine
load_from_disk lib m file [] e = (err (load_failed ("registry lists no rules" ∷ [])), e)
load_from_disk lib m file (entry ∷ entries) e =
    let all = entry ∷ entries in
    let (problems, e') = read_files lib m file all [] (record e { registry = all }) in
    elim problems [
      | err x ↦ (err x, e')
      | ok [] ↦ warm_cache lib all e'
      | ok (p ∷ ps) ↦ (err (load_failed (p ∷ ps)), e')
    ]
