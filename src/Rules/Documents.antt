-- ===== src/Rules/Documents.antt =====
-- A rule document as the engine reads it: internal/rules/types.go, `Validate` and its helpers of
-- internal/rules/schema.go, and `rewriteVersionLine` of internal/rules/loader.go.
use Prim.Native.String.{◌++◌ as str_append}
use stable_bank.Base.{
  String, Bool, true, false, ◌||◌, Option, none, some, List, [], ◌∷◌, str_eq, Result, ok, err,
  if◌then◌else◌, ◌>>=◌, ◌>>◌,
}
use stable_bank.Base.Int.{ℤ, pos}
use stable_bank.Base.Dict.{Dict, lookup}
use stable_bank.Value.{
  Value, text, float, sequence, mapping, Values, none_left, item, Fields, no_fields, get,
}
use stable_bank.Store.Events.{Time}
use stable_bank.Store.Rules.{StoreError}
use stable_bank.Ledger.Amount.{format_int, text_of}
use stable_bank.Rules.Diff.{Lines, split_newlines}

pub record Example : Type 0 where
  pub name : String
  pub input : Fields
  pub expected : Fields

-- `Meta` is part of the record.
pub record Rule : Type 0 where
  pub rule_id : String
  pub rule_type : String
  pub version : ℤ
  pub domain : String
  pub description : String
  pub rationale : String
  pub owner : String
  pub last_reviewed : String
  pub content : Fields
  pub raw : String
  pub examples : List Example
  pub effective_from : Time

-- `actual` is nil where the evaluator gave nothing; the text of `Error` is left out.
pub record ExampleResult : Type 0 where
  pub name : String
  pub passed : Bool
  pub expected : Fields
  pub actual : Option Fields

pub data RuleError : Type 0 where
  not_found : RuleError
  not_registered : String → RuleError
  no_evaluator : String → RuleError
  evaluation_failed : String → RuleError
  schemas_failed : String → RuleError
  invalid : List String → RuleError
  examples_failed : List ExampleResult → RuleError
  store_failed : StoreError → RuleError
  not_revalidated : RuleError → RuleError
  none_open : String → RuleError
  not_warmed : String → RuleError → RuleError
  load_failed : List String → RuleError

-- What the engine takes from other code: yaml.v3 with the JSON round trip of `canonicalize`, the
-- compiled schemas by rule type with the problems that each finds in a document, crypto/sha256,
-- the environment variable SOURCE_COMMIT, and encoding/json.
pub record Library : Type 0 where
  pub read_yaml : String → Result String Fields
  pub schemas : Result String (Dict (Fields → List String))
  pub hash : String → String
  pub commit : String
  pub marshal : Fields → String

-- `strField` and `intField`
abbrev pub str_of : Value → String
str_of (text t) = t
str_of _ = ""

abbrev pub int_of : Value → ℤ
int_of (float n) = n
int_of _ = pos 0

abbrev pub fields_of : Value → Fields
fields_of (mapping m) = m
fields_of _ = no_fields

abbrev pub example_of : Fields → Example
example_of m = record {
  name = str_of (get "name" m);
  input = fields_of (get "input" m);
  expected = fields_of (get "expected" m);
}

abbrev pub examples_of : Values → List Example
examples_of none_left = []
examples_of (item v vs) = example_of (fields_of v) ∷ examples_of vs

abbrev pub items_of : Value → Values
items_of (sequence vs) = vs
items_of _ = none_left

-- The rule that `Validate` builds: `metaFromContent` and `examplesFromContent`.
unfoldable pub rule_of : String → Fields → Rule
rule_of raw content = record {
  rule_id = str_of (get "rule_id" content);
  rule_type = str_of (get "rule_type" content);
  version = int_of (get "version" content);
  domain = str_of (get "domain" content);
  description = str_of (get "description" content);
  rationale = str_of (get "rationale" content);
  owner = str_of (get "owner" content);
  last_reviewed = str_of (get "last_reviewed" content);
  content = content;
  raw = raw;
  examples = examples_of (items_of (get "examples" content));
  effective_from = 0;
}

abbrev as_rule_error : {A : Type 0} → (String → RuleError) → Result String A → Result RuleError A
as_rule_error wrap (ok a) = ok a
as_rule_error wrap (err e) = err (wrap e)

abbrev pub no_problem : List String → Result RuleError (Unit {0})
no_problem [] = ok tt
no_problem (p ∷ ps) = err (invalid (p ∷ ps))

-- The problems of a document, by the schema of its type.
abbrev pub problems_of : Dict (Fields → List String) → Fields → List String
problems_of schemas content = elim (lookup (str_of (get "rule_type" content)) schemas) [
  | none ↦ "unknown rule_type" ∷ []
  | some check ↦ check content
]

unfoldable pub validate : Library → String → Result RuleError Rule
validate lib raw = do
  schemas ← as_rule_error schemas_failed lib.schemas
  content ← as_rule_error (λ e. invalid (e ∷ [])) (lib.read_yaml raw)
  no_problem (problems_of schemas content)
  ok (rule_of raw content)

-- The regular expression `(?m)^version:[^\n]*$`, on one line.
unfoldable pub starts_with : String → String → Bool
starts_with String.[] s = true
starts_with (String.◌∷◌ c p) String.[] = false
starts_with (String.◌∷◌ c p) (String.◌∷◌ d s) =
    let more = starts_with p s in if str_eq (String.◌∷◌ c "") (String.◌∷◌ d "") then more else false

abbrev pub is_version_line : String → Bool
is_version_line l = starts_with "version:" l

abbrev pub any_version_line : Lines → Bool
any_version_line [] = false
any_version_line (l ∷ ls) = is_version_line l || any_version_line ls

abbrev pub replace_version_lines : String → Lines → Lines
replace_version_lines new [] = []
replace_version_lines new (l ∷ ls) =
    (if is_version_line l then new else l) ∷ replace_version_lines new ls

abbrev pub join_lines : Lines → String
join_lines [] = ""
join_lines (l ∷ []) = l
join_lines (l ∷ k ∷ ls) = str_append l (str_append "\n" (join_lines (k ∷ ls)))

unfoldable pub rewrite_version_line : ℤ → String → String
rewrite_version_line version raw =
    let ls = split_newlines raw in
    let new = str_append "version: " (text_of (format_int version)) in
    if any_version_line ls
    then join_lines (replace_version_lines new ls)
    else str_append new (str_append "\n" raw)
