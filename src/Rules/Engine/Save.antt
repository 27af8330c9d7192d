-- ===== src/Rules/Engine/Save.antt =====
-- `Save`, `Reactivate` and `latestVersion` of internal/rules/engine.go.
use stable_bank.Base.{
  String, Bool, not, ◌&&◌, none, some, List, [], ◌∷◌, str_eq, Result, ok, err, if◌then◌else◌,
}
use stable_bank.Base.Int.{ℤ, pos, ltb_ℤ}
use stable_bank.Base.Int64.{add64}
use stable_bank.Base.Dict.{insert}
use stable_bank.Store.Events.{Time}
use stable_bank.Store.Rules.{
  RuleVersion, RuleStore, StoreError, insert_version, get_version, list_versions,
}
use stable_bank.Ledger.Amount.{format_int, text_of}
use stable_bank.Rules.Diff.{line_diff}
use stable_bank.Rules.Documents.{
  Rule, ExampleResult, RuleError, not_registered, invalid, examples_failed, store_failed,
  not_revalidated, Library, validate, rewrite_version_line,
}
use Prim.Native.String.{◌++◌ as str_append}
use stable_bank.Rules.Engine.{RegistryEntry, Engine, Moment, run_examples, all_passed, find_entry}

-- The loop of `latestVersion`.
unfoldable pub latest_loop : List RuleVersion → ℤ × String → ℤ × String
latest_loop [] best = best
latest_loop (v ∷ vs) (top, raw) = latest_loop vs (
  if ltb_ℤ top v.version then v.version else top,
  elim v.effective_to [ none ↦ v.content | some t ↦ raw ],
)

unfoldable pub latest_version : String → Engine → ℤ × String
latest_version id e = latest_loop (list_versions id e.rule_store) (pos 0, "")

pub record SaveOptions : Type 0 where
  pub author : String
  pub change_note : String
  pub allow_failing_examples : Bool

pub record SaveResult : Type 0 where
  pub version : ℤ
  pub previous : ℤ
  pub examples : List ExampleResult
  pub diff : String

unfoldable pub version_of :
    Library → Moment → RegistryEntry → String → ℤ → String → String → String → RuleVersion
version_of lib m entry id version content author note = record {
  rule_id = id;
  version = version;
  rule_type = entry.rule_type;
  content = content;
  content_hash = lib.hash content;
  source_commit = lib.commit;
  author = author;
  change_note = note;
  effective_from = m.now;
  effective_to = none;
  created_at = 0;
}

abbrev pub cached : String → Time → Rule → RuleStore → Engine → Engine
cached id now rule s e = record e {
  rule_store = s;
  cache = insert id (record rule { effective_from = now }) e.cache;
}

-- `Save` after the insertion of the new version, by what the insertion gave.
unfoldable pub finish_saved :
    Library
    → Moment
    → String
    → String
    → SaveResult
    → Engine
    → Result StoreError (Unit {0}) × RuleStore
    → Result RuleError SaveResult × Engine
finish_saved lib m id new_raw result e (err x, s) = (err (store_failed x), e)
finish_saved lib m id new_raw result e (ok u, s) = elim (validate lib new_raw) [
  | err x ↦ (err (not_revalidated x), record e { rule_store = s })
  | ok rule ↦ (ok result, cached id m.now rule s e)
]

-- `Save` from `latestVersion` on.
unfoldable pub store_saved :
    Library
    → Moment
    → RegistryEntry
    → String
    → String
    → SaveOptions
    → List ExampleResult
    → Engine
    → Result RuleError SaveResult × Engine
store_saved lib m entry id raw opts results e =
    let (previous, prev_raw) = latest_version id e in
    let version = add64 previous (pos 1) in
    let new_raw = rewrite_version_line version raw in
    let v = version_of lib m entry id version new_raw opts.author opts.change_note in
    let result : SaveResult = record {
      version = version;
      previous = previous;
      examples = results;
      diff = line_diff prev_raw new_raw;
    } in
    finish_saved lib m id new_raw result e (insert_version m.wall v e.rule_store)

unfoldable pub save :
    Library → Moment → String → String → SaveOptions → Engine → Result RuleError SaveResult × Engine
save lib m id raw opts e = elim (find_entry id e.registry) [
  | none ↦ (err (not_registered id), e)
  | some entry ↦ elim (validate lib raw) [
    | err x ↦ (err x, e)
    | ok rule ↦
        let results = run_examples rule e in
        if not (str_eq rule.rule_id id)
        then (err (invalid ("rule_id in document does not match target rule_id" ∷ [])), e)
        else if not opts.allow_failing_examples && not (all_passed results)
        then (err (examples_failed results), e)
        else store_saved lib m entry id raw opts results e
  ]
]

-- `Reactivate` after its text is read, by what the insertion gave.
unfoldable pub finish_reactivated :
    Moment
    → String
    → Rule
    → SaveResult
    → Engine
    → Result StoreError (Unit {0}) × RuleStore
    → Result RuleError SaveResult × Engine
finish_reactivated m id rule result e (err x, s) = (err (store_failed x), e)
finish_reactivated m id rule result e (ok u, s) = (ok result, cached id m.now rule s e)

abbrev pub reactivation_note : ℤ → String → String
reactivation_note target note =
    str_append "reactivated version "
      (str_append (text_of (format_int target)) (str_append ": " note))

-- `Reactivate` once it has the target version.
unfoldable pub store_reactivated :
    Library
    → Moment
    → RegistryEntry
    → String
    → ℤ
    → String
    → String
    → Engine
    → Result RuleError SaveResult × Engine
store_reactivated lib m entry id target note content e =
    let (previous, prev_raw) = latest_version id e in
    let version = add64 previous (pos 1) in
    let new_raw = rewrite_version_line version content in
    let v = version_of lib m entry id version new_raw "" (reactivation_note target note) in
    elim (validate lib new_raw) [
      | err x ↦ (err x, e)
      | ok rule ↦
          finish_reactivated m id rule
            (record {
              version = version;
              previous = previous;
              examples = run_examples rule e;
              diff = line_diff prev_raw new_raw;
            })
            e (insert_version m.wall v e.rule_store)
    ]

unfoldable pub reactivate :
    Library → Moment → String → ℤ → String → Engine → Result RuleError SaveResult × Engine
reactivate lib m id target note e = elim (find_entry id e.registry) [
  | none ↦ (err (not_registered id), e)
  | some entry ↦ elim (get_version id target e.rule_store) [
    | err x ↦ (err (store_failed x), e)
    | ok v ↦ store_reactivated lib m entry id target note v.content e
  ]
]
