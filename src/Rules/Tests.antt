-- ===== src/Rules/Tests.antt =====
-- Tests of internal/rules, and its theorems at concrete inputs.
use stable_bank.Base.{
  ◌≡◌, ◌≤◌, str_eq, if◌then◌else◌, refl, String, true, false, List, [], ◌∷◌, length, arith, inl,
  inr, Result, ok, err,
}
use stable_bank.Base.Int.{ℤ, pos, ◌+ℤ◌}
use stable_bank.Base.Int64.{add64, wrap64, bits, signed}
use stable_bank.Base.Dict.{lookup, insert}
use stable_bank.Base.Sort.{insert_sorted, sort_slice}
use stable_bank.Value.{
  float, number, text, sequence, mapping, none_left, item, Fields, no_fields, field, get, has_key,
}
use stable_bank.Ledger.Amount.{digits, format_int, text_of}
use stable_bank.Store.Rules.{
  new_store, insert_version, get_version, list_versions, insert_application,
}
use stable_bank.Rules.Match.{match_subset, match_expected, normalize}
use stable_bank.Rules.Match.Order.{match_expected_trans}
use stable_bank.Rules.Documents.{
  RuleError, Library, rule_of, validate, starts_with, rewrite_version_line,
}
use stable_bank.Rules.Engine.{
  RegistryEntry, Evaluator, Engine, Moment, Decision, register_evaluator, get_rule, recorded,
  evaluate, run_example, run_all, run_examples, find_entry,
}
use stable_bank.Rules.Engine.Save.{
  SaveOptions, SaveResult, latest_loop, latest_version, version_of, finish_saved, store_saved, save,
  finish_reactivated, store_reactivated, reactivate,
}
use stable_bank.Rules.Engine.Load.{
  open_loop, open_version, check_file, insert_first, read_files, warm_cache, load_from_disk,
}
use stable_bank.Rules.Engine.Live.{IsLive}
use stable_bank.Rules.Engine.Live.Loading.{loaded, load_from_disk-IsLive}
use stable_bank.Rules.Engine.Live.Saving.{Unchanged, Serves, save-Unchanged}
use stable_bank.Rules.Engine.Live.Serving.{save-Serves}
use stable_bank.Rules.Engine.Live.Runs.{
  EngineCall, registering, saving, serve_call, serve_calls, ByOpenVersion, evaluate-ByOpenVersion,
}
use stable_bank.Rules.Diff.{line_diff, line_edits, split_lines, split_newlines}
use stable_bank.Rules.Diff.Sides.{old_side, new_side, sides-line_edits}
use stable_bank.Rules.Diff.Longest.{kept, IsPart, kept-longest}

-- A line that changes between two that stay.
line_diff_test : line_diff "a\nb\nc" "a\nx\nc\n" ≡ "  a\n- b\n+ x\n  c\n+ "
unfolding line_diff
line_diff_test = refl

abbrev before : String
before = "a\nb\nc"

abbrev after : String
after = "a\nx\nc"

sides-line_edits_example :
    (old_side (line_edits before after) ≡ split_lines before)
    × (new_side (line_edits before after) ≡ split_lines after)
sides-line_edits_example = sides-line_edits before after

kept-longest_example :
    IsPart (kept (line_edits before after)) (split_lines before)
    × IsPart (kept (line_edits before after)) (split_lines after)
    × (2 ≤ length (kept (line_edits before after)))
unfolding split_lines split_newlines
kept-longest_example =
    kept-longest before after ("a" ∷ "c" ∷ []) (inl (refl, inr (inl (refl, tt))))
      (inl (refl, inr (inl (refl, tt))))

-- All that a run of the engine computes with.
runs : Unit {0}
unfolding lookup insert get has_key normalize match_subset match_expected insert_sorted sort_slice
    insert_version get_version list_versions insert_application digits format_int text_of
    split_newlines split_lines rule_of validate starts_with rewrite_version_line line_diff get_rule
    recorded evaluate run_example run_all run_examples find_entry latest_loop latest_version
    version_of finish_saved store_saved save finish_reactivated store_reactivated reactivate
    open_loop open_version check_file insert_first read_files warm_cache load_from_disk serve_call
    serve_calls ◌+ℤ◌ add64 wrap64 bits signed register_evaluator
runs = tt

-- A document of the rule "limit" with its version number.
abbrev numbered : ℤ → Fields → Fields
numbered version more = field "rule_id" (text "limit") (
    field "rule_type" (text "cap") (
      field "version" (float version) (
        field "examples"
          (sequence (
            item
              (mapping (
                field "name" (text "small") (
                  field "input" (mapping (field "amount" (float (pos 5)) no_fields)) (
                    field "expected" (mapping (field "amount" (number (pos 5)) no_fields))
                      no_fields))))
              none_left))
          more)))

abbrev document : Fields
document = numbered (pos 1) no_fields

abbrev at_most_3 : Fields
at_most_3 = field "max" (float (pos 3)) no_fields

-- The texts that can be read, and the documents that they are.
abbrev read_text : String → Result String Fields
read_text raw =
    if str_eq raw "version: 1"
    then ok document
    else if str_eq raw "version: 1\nmax: 3"
    then ok (numbered (pos 1) at_most_3)
    else if str_eq raw "version: 2\nmax: 3"
    then ok (numbered (pos 2) at_most_3)
    else err "no document"

abbrev library : Library
library = record {
  read_yaml = read_text;
  schemas = ok (("cap", λ content. []) ∷ []);
  hash = λ raw. "";
  commit = "local";
  marshal = λ fs. "";
}

abbrev moment : Moment
moment = record { now = 7; wall = 8; fresh = "id" }

abbrev echo : Evaluator
echo content input = ok input

abbrev limit_entry : RegistryEntry
limit_entry = record {
  rule_id = "limit";
  rule_type = "cap";
  path = "limit.yaml";
  domain = "";
  owner = "";
}

abbrev file : String → Result String String
file path = ok "version: 1"

abbrev calls : List EngineCall
calls = registering "cap" echo ∷ []

abbrev engine : Engine
engine = serve_calls library calls (loaded library moment file (limit_entry ∷ []) new_store)

abbrev options : SaveOptions
options = record { author = "ana"; change_note = ""; allow_failing_examples = false }

engine-IsLive : IsLive library engine
unfolding runs
engine-IsLive = load_from_disk-IsLive library moment file (limit_entry ∷ []) new_store (refl, tt)

saved_version : Result RuleError SaveResult → ℤ
saved_version (ok r) = r.version
saved_version (err x) = pos 0

save_test :
    saved_version (save library moment "limit" "version: 1\nmax: 3" options engine).0 ≡ pos 2
unfolding runs saved_version
save_test = refl

abbrev edited : String
edited = "version: 1\nmax: 3"

save-Unchanged_example : Unchanged engine (save library moment "cap" edited options engine)
save-Unchanged_example = save-Unchanged library moment "cap" edited options engine

save-Serves_example :
    Serves library "limit"
      (record (rule_of "version: 2\nmax: 3" (numbered (pos 2) at_most_3)) { effective_from = 7 })
      (pos 1)
      (save library moment "limit" edited options engine)
unfolding runs
save-Serves_example =
    save-Serves library moment "limit" edited options engine limit_entry
      (rule_of edited (numbered (pos 1) at_most_3))
      (rule_of "version: 2\nmax: 3" (numbered (pos 2) at_most_3)) refl refl refl refl refl
      (omega arith) refl engine-IsLive

abbrev later : List EngineCall
later = registering "cap" echo ∷ saving moment "limit" edited options ∷ []

decided_version : Result RuleError Decision → ℤ
decided_version (ok d) = d.version
decided_version (err x) = pos 0

-- After the save the second version decides.
later_test :
    let e = serve_calls library later (loaded library moment file (limit_entry ∷ []) new_store) in
    decided_version (evaluate library moment "limit" "purchase" "p1" document e).0 ≡ pos 2
unfolding runs decided_version
later_test = refl

evaluate-ByOpenVersion_example :
    let e = serve_calls library later (loaded library moment file (limit_entry ∷ []) new_store) in
    ByOpenVersion library "limit" document e
      (evaluate library moment "limit" "purchase" "p1" document e).0
unfolding runs
evaluate-ByOpenVersion_example =
    evaluate-ByOpenVersion library moment file (limit_entry ∷ []) new_store later moment "limit"
      "purchase" "p1" document (refl, tt) (tt, (inr refl, tt))

abbrev wider : Fields
wider = field "extra" (text "x") document

-- An array that is longer does not match.
longer_test :
    match_expected (field "funding" (sequence (item (number (pos 1)) none_left)) no_fields) (
      field "funding"
        (sequence (item (number (pos 1)) (item (number (pos 2)) none_left)))
        no_fields)
    ≡ false
unfolding runs
longer_test = refl

match_expected_trans_example : match_expected no_fields wider ≡ true
unfolding runs
match_expected_trans_example = match_expected_trans no_fields document wider refl refl
