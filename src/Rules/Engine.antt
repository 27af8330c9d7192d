-- ===== src/Rules/Engine.antt =====
-- The rules engine, `Engine` of internal/rules/engine.go, with internal/rules/examples.go. The
-- mutexes guard single reads and writes.
pub mod Save
pub mod Load
pub mod Live
use stable_bank.Base.{
  String, Bool, true, false, not, ◌&&◌, Option, none, some, List, [], ◌∷◌, ◌++◌, str_eq, Result, ok,
  err, if◌then◌else◌,
}
use stable_bank.Base.Int.{ℤ, pos, ltb_ℤ}
use stable_bank.Base.Int64.{add64}
use stable_bank.Base.Dict.{Dict, lookup, insert}
use stable_bank.Value.{Fields}
use stable_bank.Store.Events.{Time}
use stable_bank.Store.Rules.{
  RuleVersion, RuleApplication, RuleStore, StoreError, insert_version, get_version, list_versions,
  insert_application,
}
use stable_bank.Ledger.Amount.{format_int, text_of}
use stable_bank.Rules.Diff.{line_diff}
use stable_bank.Rules.Match.{match_expected}
use stable_bank.Rules.Documents.{
  Example, Rule, ExampleResult, RuleError, not_found, not_registered, no_evaluator,
  evaluation_failed, invalid, examples_failed, store_failed, not_revalidated, none_open, not_warmed,
  load_failed, Library, validate, rewrite_version_line,
}
use Prim.Native.String.{◌++◌ as str_append}

pub record RegistryEntry : Type 0 where
  pub rule_id : String
  pub rule_type : String
  pub path : String
  pub domain : String
  pub owner : String

abbrev pub Evaluator : Type 0
Evaluator = Fields → Fields → Result String Fields

-- `registryByID` is the last entry of `registry` with an id.
pub record Engine : Type 0 where
  pub rule_store : RuleStore
  pub registry : List RegistryEntry
  pub cache : Dict Rule
  pub evaluators : Dict Evaluator

abbrev pub new_engine : RuleStore → Engine
new_engine s = record { rule_store = s; registry = []; cache = []; evaluators = [] }

unfoldable pub register_evaluator : String → Evaluator → Engine → Engine
register_evaluator rule_type ev e = record e { evaluators = insert rule_type ev e.evaluators }

unfoldable pub get_rule : String → Engine → Result RuleError Rule
get_rule id e = elim (lookup id e.cache) [ none ↦ err not_found | some r ↦ ok r ]

unfoldable pub get_content : String → Engine → Result RuleError (Fields × ℤ)
get_content id e = elim (get_rule id e) [ err x ↦ err x | ok r ↦ ok (r.content, r.version) ]

pub record Summary : Type 0 where
  pub entry : RegistryEntry
  pub description : String
  pub version : ℤ
  pub last_reviewed : String

abbrev pub summary_of : Engine → RegistryEntry → Summary
summary_of e entry = elim (lookup entry.rule_id e.cache) [
  | none ↦ record { entry = entry; description = ""; version = pos 0; last_reviewed = "" }
  | some r ↦ record {
    entry = entry;
    description = r.description;
    version = r.version;
    last_reviewed = r.last_reviewed;
  }
]

-- The loop of `List`.
unfoldable pub summaries : Engine → List RegistryEntry → List Summary
summaries e [] = []
summaries e (entry ∷ entries) = summary_of e entry ∷ summaries e entries

-- What a call reads from outside: the simulated clock, the wall clock and the store's new ids.
pub record Moment : Type 0 where
  pub now : Time
  pub wall : Time
  pub fresh : String

pub record Decision : Type 0 where
  pub rule_id : String
  pub version : ℤ
  pub input : Fields
  pub output : Fields
  pub applied_at : Time
  pub application_id : String

-- What `Evaluate` records of an evaluation.
abbrev pub application_of :
    Library → Moment → Rule → String → String → Fields → Fields → RuleApplication
application_of lib m rule entity_type entity_id input output = record {
  id = "";
  rule_id = rule.rule_id;
  version = rule.version;
  entity_type = entity_type;
  entity_id = entity_id;
  inputs = lib.marshal input;
  outcome = lib.marshal output;
  applied_at = m.now;
  recorded_at = 0;
}

-- `Evaluate` once it has the evaluator's output.
unfoldable pub recorded :
    Library
    → Moment
    → Rule
    → String
    → String
    → Fields
    → Fields
    → Engine
    → Result RuleError Decision × Engine
recorded lib m rule entity_type entity_id input output e =
    let (app, s) =
      insert_application m.fresh m.wall
        (application_of lib m rule entity_type entity_id input output) e.rule_store in
    (
      ok (record {
        rule_id = rule.rule_id;
        version = rule.version;
        input = input;
        output = output;
        applied_at = m.now;
        application_id = app.id;
      }),
      record e { rule_store = s },
    )

unfoldable pub evaluate :
    Library
    → Moment
    → String
    → String
    → String
    → Fields
    → Engine
    → Result RuleError Decision × Engine
evaluate lib m id entity_type entity_id input e = elim (get_rule id e) [
  | err x ↦ (err x, e)
  | ok rule ↦ elim (lookup rule.rule_type e.evaluators) [
    | none ↦ (err (no_evaluator rule.rule_type), e)
    | some ev ↦ elim (ev rule.content input) [
      | err x ↦ (err (evaluation_failed x), e)
      | ok output ↦ recorded lib m rule entity_type entity_id input output e
    ]
  ]
]

abbrev pub example_result : Example → Bool → Option Fields → ExampleResult
example_result ex passed actual = record {
  name = ex.name;
  passed = passed;
  expected = ex.expected;
  actual = actual;
}

-- One turn of the loop of `RunExamples`.
unfoldable pub run_example : Option Evaluator → Fields → Example → ExampleResult
run_example none content ex = example_result ex false none
run_example (some ev) content ex = elim (ev content ex.input) [
  | err x ↦ example_result ex false none
  | ok actual ↦ example_result ex (match_expected ex.expected actual) (some actual)
]

unfoldable pub run_all : Option Evaluator → Fields → List Example → List ExampleResult
run_all ev content [] = []
run_all ev content (ex ∷ exs) = run_example ev content ex ∷ run_all ev content exs

unfoldable pub run_examples : Rule → Engine → List ExampleResult
run_examples rule e = run_all (lookup rule.rule_type e.evaluators) rule.content rule.examples

abbrev pub all_passed : List ExampleResult → Bool
all_passed [] = true
all_passed (r ∷ rs) = r.passed && all_passed rs

-- `registryByID[id]`
unfoldable pub find_entry : String → List RegistryEntry → Option RegistryEntry
find_entry id [] = none
find_entry id (entry ∷ entries) = elim (find_entry id entries) [
  | some later ↦ some later
  | none ↦ if str_eq entry.rule_id id then some entry else none
]
