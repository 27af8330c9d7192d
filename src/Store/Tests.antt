-- ===== src/Store/Tests.antt =====
-- Tests of the in-memory store (internal/store/memstore), and its theorems at concrete inputs.
use stable_bank.Base.{
  ℕ, ◌+◌, ◌≡◌, ◌⊎◌, refl, String, none, some, List, [], ◌∷◌, ok, err, keep, reverse,
}
use stable_bank.Base.Int.{ℤ, pos, negsuc}
use stable_bank.Base.Dict.{lookup, insert}
use stable_bank.Base.Selection.{Selection}
use stable_bank.Base.Sort.{insert_sorted, sort_slice}
use stable_bank.Store.Events.{
  Event, EventFilter, Oracle, Log, Time, empty_log, append, stamp, passes, list, list_loop,
  contains_string,
}
use stable_bank.Store.Events.Listing.{limited, IsWanted, list-Selection}
use stable_bank.Store.Events.Numbering.{Run, IsNumbered, append-IsNumbered, list-append}
use stable_bank.Store.Rules.{
  RuleVersion, RuleApplication, RuleStore, conflict, not_found, new_store, insert_version,
  get_version, list_versions, versions_of, list_applications, insert_application, apps_loop,
}
use stable_bank.Store.Rules.Lookup.{Looked, get_version-insert_version}
use stable_bank.Store.Rules.Histories.{IsHistory, insert_versions, insert_versions-IsHistory}
use stable_bank.Store.Rules.Applications.{IsAsked, FirstOf, list_applications-Selection}

-- All that a run of the store computes with.
runs : Unit {0}
unfolding append stamp passes list list_loop contains_string lookup insert insert_sorted sort_slice
    insert_version get_version list_versions list_applications insert_application apps_loop
    insert_versions
runs = tt

abbrev oracle : Oracle
oracle = record { new_id = λ n. "id"; wall = λ n. n + 50 }

abbrev fact : String → String → Event ℕ
fact kind id = record {
  id = "";
  seq = 0;
  kind = kind;
  aggregate_id = id;
  occurred_at = 5;
  recorded_at = 0;
  payload = 7;
}

abbrev facts : List (Event ℕ)
facts = fact "a" "x" ∷ fact "b" "y" ∷ fact "b" "x" ∷ []

abbrev stored : Log ℕ
stored = (append oracle facts (empty_log ℕ)).1

abbrev only_b : ℕ → ℕ → EventFilter
only_b after limit = record {
  types = "b" ∷ [];
  aggregate_id = "";
  after_seq = after;
  limit = limit;
}

append-IsNumbered_example :
    IsNumbered (append oracle facts stored).1
    × Run stored.seq (append oracle facts stored).0 (append oracle facts stored).1.seq
append-IsNumbered_example =
    append-IsNumbered oracle facts stored (append-IsNumbered oracle facts (empty_log ℕ) refl).0

list-append_example :
    list (only_b 3 0) (append oracle facts stored).1
    ≡ keep (passes (only_b 3 0)) (append oracle facts stored).0
unfolding runs
list-append_example =
    list-append (only_b 3 0) oracle facts stored (refl, (refl, (refl, refl))) refl refl

list-Selection_example :
    (all : List (Event ℕ)) × Selection (IsWanted (only_b 0 1)) stored.events all
    × (list (only_b 0 1) stored ≡ limited 1 all)
list-Selection_example = list-Selection (only_b 0 1) stored

abbrev draft : ℤ → Time → RuleVersion
draft version from = record {
  rule_id = "r";
  version = version;
  rule_type = "threshold";
  content = "";
  content_hash = "";
  source_commit = "";
  author = "";
  change_note = "";
  effective_from = from;
  effective_to = none;
  created_at = 0;
}

abbrev rules : RuleStore
rules = insert_versions ((1, draft (pos 1) 10) ∷ (2, draft (pos 2) 15) ∷ []) new_store

-- As in TestRuleVersionClosesPrevious of internal/store/memstore/memstore_test.go.
closes_test :
    ((insert_version 3 (draft (pos 2) 0) rules).0 ≡ err conflict)
    × (versions_of "r" rules
        ≡ record (draft (pos 1) 10) { effective_to = some 15; created_at = 1 }
          ∷ record (draft (pos 2) 15) { created_at = 2 }
          ∷ [])
    × (get_version "r" (pos 3) rules ≡ err not_found)
unfolding runs
closes_test = (refl, refl, refl)

get_version-insert_version_example :
    let v = draft (pos 3) 20 in
    let (r, s') = insert_version 9 v rules in
    let before = get_version "r" (pos 3) rules in
    ((w : RuleVersion) × (before ≡ ok w) × (r ≡ err conflict) × (s' ≡ rules))
    ⊎ ((before ≡ err not_found)
        × (r ≡ ok tt)
        × ((id : String) (n : ℤ) → Looked 9 v id n (get_version id n rules) (get_version id n s')))
get_version-insert_version_example = get_version-insert_version 9 (draft (pos 3) 20) rules

insert_versions-IsHistory_example : IsHistory "r" (versions_of "r" rules)
insert_versions-IsHistory_example =
    insert_versions-IsHistory ((1, draft (pos 1) 10) ∷ (2, draft (pos 2) 15) ∷ []) "r"

abbrev decision : String → RuleApplication
decision entity = record {
  id = "";
  rule_id = "r";
  version = pos 1;
  entity_type = "loan";
  entity_id = entity;
  inputs = "";
  outcome = "";
  applied_at = 4;
  recorded_at = 0;
}

abbrev audited : RuleStore
audited =
    (insert_application "i2" 8 (decision "l2")
      (insert_application "i1" 7 (decision "l1") new_store).1).1

newest_first_test :
    list_applications "r" "" (pos 1) audited
    ≡ record (decision "l2") { id = "i2"; recorded_at = 8 } ∷ []
unfolding runs
newest_first_test = refl

list_applications-Selection_example :
    (all : List RuleApplication) × Selection (IsAsked "r" "") (reverse audited.apps) all
    × FirstOf (negsuc 0) all (list_applications "r" "" (negsuc 0) audited)
list_applications-Selection_example = list_applications-Selection "r" "" (negsuc 0) audited
