-- ===== src/Rules/Engine/Live/Runs.antt =====
-- Loading the rules and then any calls of the engine (internal/rules/engine.go,
-- internal/rules/loader.go): every decision is by the open version of its rule.
use stable_bank.Base.{
  ◌≡◌, ◌⊎◌, false, str_eq, sym, subst, String, some, List, [], ◌∷◌, arith, inl, inr, Result, ok,
  err, All,
}
use stable_bank.Base.Int.{ℤ}
use stable_bank.Base.Dict.{lookup}
use stable_bank.Value.{Fields}
use stable_bank.Store.Rules.{RuleVersion, RuleStore, versions_of}
use stable_bank.Rules.Documents.{Rule, RuleError, Library, validate}
use stable_bank.Rules.Engine.{
  RegistryEntry, Evaluator, Engine, Moment, Decision, register_evaluator, get_rule, evaluate,
  recorded,
}
use stable_bank.Rules.Engine.Save.{SaveOptions, save, reactivate}
use stable_bank.Rules.Engine.Load.{open_version}
use stable_bank.Rules.Engine.Live.{Live, IsLiveAt}
use stable_bank.Rules.Engine.Live.Loading.{IsNamed, loaded, load_from_disk-IsLive}
use stable_bank.Rules.Engine.Live.Serving.{
  is_unread, save-IsLiveAt, reactivate-IsLiveAt, evaluate-cases, evaluate-IsLiveAt,
}

pub data EngineCall : Type 0 where
  evaluating : Moment → String → String → String → Fields → EngineCall
  saving : Moment → String → String → SaveOptions → EngineCall
  reactivating : Moment → String → ℤ → String → EngineCall
  registering : String → Evaluator → EngineCall

unfoldable pub serve_call : Library → EngineCall → Engine → Engine
serve_call lib (evaluating m id kind entity input) e = (evaluate lib m id kind entity input e).1
serve_call lib (saving m id raw opts) e = (save lib m id raw opts e).1
serve_call lib (reactivating m id target note) e = (reactivate lib m id target note e).1
serve_call lib (registering kind ev) e = register_evaluator kind ev e

unfoldable pub serve_calls : Library → List EngineCall → Engine → Engine
unfolding serve_call
serve_calls lib [] e = e
serve_calls lib (c ∷ cs) e = serve_calls lib cs (serve_call lib c e)

module _ (lib : Library) (key : String) where
  -- The call is no save of the rule that failed in re-validating the text it had stored.
  abbrev pub IsRead : EngineCall → Engine → Type 0
  IsRead (saving m id raw opts) e =
      (str_eq id key ≡ false) ⊎ (is_unread (save lib m id raw opts e).0 ≡ false)
  IsRead _ e = Unit

  abbrev pub AllRead : List EngineCall → Engine → Type 0
  AllRead [] e = Unit
  AllRead (c ∷ cs) e = IsRead c e × AllRead cs (serve_call lib c e)

  serve_call-IsLiveAt :
      (c : EngineCall) (e : Engine)
      → IsRead c e
      → IsLiveAt lib key e
      → IsLiveAt lib key (serve_call lib c e)
  unfolding serve_call register_evaluator
  serve_call-IsLiveAt (evaluating m id kind entity input) e read live =
      evaluate-IsLiveAt lib m id e kind entity input key live
  serve_call-IsLiveAt (saving m id raw opts) e read live =
      save-IsLiveAt lib m id e raw opts key read live
  serve_call-IsLiveAt (reactivating m id target note) e read live =
      reactivate-IsLiveAt lib m id e target note key live
  serve_call-IsLiveAt (registering kind ev) e read live = live

  serve_calls-IsLiveAt :
      (cs : List EngineCall) (e : Engine)
      → AllRead cs e
      → IsLiveAt lib key e
      → IsLiveAt lib key (serve_calls lib cs e)
  unfolding serve_calls
  serve_calls-IsLiveAt [] e all live = live
  serve_calls-IsLiveAt (c ∷ cs) e all live =
      serve_calls-IsLiveAt cs (serve_call lib c e) all.1 (serve_call-IsLiveAt c e all.0 live)

-- A decision is the evaluator's output on the content of the version that is open in the store.
abbrev pub ByOpenVersion : Library → String → Fields → Engine → Result RuleError Decision → Type 0
ByOpenVersion lib id input e (err x) = Unit
ByOpenVersion lib id input e (ok d) =
    (v : RuleVersion) × (r : Rule) × (ev : Evaluator) × (open_version (versions_of id e.rule_store)
      ≡ some v)
    × (validate lib v.content ≡ ok r)
    × (lookup r.rule_type e.evaluators ≡ some ev)
    × (ev r.content input ≡ ok d.output)

in_cache : (id : String) (e : Engine) (r : Rule) → get_rule id e ≡ ok r → lookup id e.cache ≡ some r
unfolding get_rule
in_cache id e r h = ground arith

from_cache :
    (lib : Library) (id : String) (input output : Fields) (e : Engine) (rule : Rule)
    (ev : Evaluator)
    → get_rule id e ≡ ok rule
    → lookup rule.rule_type e.evaluators ≡ some ev
    → ev rule.content input ≡ ok output
    → Live lib (versions_of id e.rule_store) (lookup id e.cache)
    → (v : RuleVersion) × (r : Rule) × (ev : Evaluator) × (open_version
          (versions_of id e.rule_store)
        ≡ some v)
      × (validate lib v.content ≡ ok r)
      × (lookup r.rule_type e.evaluators ≡ some ev)
      × (ev r.content input ≡ ok output)
from_cache lib id input output e rule ev found known given live =
    let (v, r, opened, good, same) =
      subst (Live lib (versions_of id e.rule_store)) (in_cache id e rule found) live in
    (
      v,
      r,
      ev,
      opened,
      good,
      subst (λ (q : Rule). lookup q.rule_type e.evaluators ≡ some ev) same known,
      subst (λ (q : Rule). ev q.content input ≡ ok output) same given,
    )

-- Let the rules, whose ids are not empty, be loaded into any store and any calls follow, among which
-- no save of the rule failed in re-validating the text that it had stored. A decision of the engine on the rule is then the
-- output that the evaluator of the rule's type gives on the content of the version that is open in
-- the store.
pub evaluate-ByOpenVersion :
    (lib : Library) (m : Moment) (file : String → Result String String)
    (entries : List RegistryEntry) (s : RuleStore) (cs : List EngineCall) (m' : Moment)
    (id kind entity : String) (input : Fields)
    → All IsNamed entries
    → AllRead lib id cs (loaded lib m file entries s)
    → let e = serve_calls lib cs (loaded lib m file entries s) in
      ByOpenVersion lib id input e (evaluate lib m' id kind entity input e).0
evaluate-ByOpenVersion lib m file entries s cs m' id kind entity input named reads =
    let e = serve_calls lib cs (loaded lib m file entries s) in
    let live : IsLiveAt lib id e =
      serve_calls-IsLiveAt lib id cs (loaded lib m file entries s) reads
        (load_from_disk-IsLive lib m file entries s named id) in
    elim (evaluate-cases lib m' id e kind entity input) [
      | inl (x, refused) ↦ subst (λ r. ByOpenVersion lib id input e r.0) (sym refused) tt
      | inr (rule, ev, output, found, known, given, done) ↦
          subst (λ r. ByOpenVersion lib id input e r.0) (sym done)
            (unfold recorded in from_cache lib id input output e rule ev found known given live)
    ]
