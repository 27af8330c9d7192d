-- ===== src/Rules/Engine/Live/Serving.antt =====
-- What `Save`, `Reactivate` and `Evaluate` of internal/rules/engine.go serve afterwards.
use stable_bank.Base.{
  ◌≡◌, refl, sym, ap, ◌∙◌, subst, String, Bool, true, false, not, ◌&&◌, ◌⊎◌, some, str_eq, eq_refl,
  Option-cases, Result-cases, inl, inr, Result, ok, err,
}
use stable_bank.Base.Int.{ℤ, pos, ◌+ℤ◌}
use stable_bank.Base.Int64.{Fits, add64-eq}
use stable_bank.Base.Dict.{lookup}
use stable_bank.Value.{Fields}
use stable_bank.Store.Rules.{RuleVersion, conflict, get_version, insert_version, insert_application}
use stable_bank.Rules.Diff.{line_diff}
use stable_bank.Rules.Documents.{
  Rule, RuleError, not_registered, not_revalidated, no_evaluator, evaluation_failed, store_failed,
  Library, validate,
}
use stable_bank.Rules.Engine.{
  RegistryEntry, Engine, Moment, find_entry, get_rule, run_examples, all_passed, recorded, evaluate,
  Evaluator,
}
use stable_bank.Rules.Engine.Save.{
  SaveOptions, SaveResult, latest_version, finish_saved, store_saved, save, finish_reactivated,
  store_reactivated, reactivate, reactivation_note,
}
use stable_bank.Rules.Engine.Live.{IsLive, IsLiveAt}
use stable_bank.Rules.Engine.Live.Versions.{
  next, new_raw, version, renewed, renewed-IsLiveAt, uncached-IsLiveAt, insert-cases, insert-free,
}
use stable_bank.Rules.Engine.Live.Saving.{
  Serves, written, saved, save-cases, store_saved-cases, get_rule-renewed,
}

-- Whether a save ended in re-validating the text with its new version line.
abbrev pub is_unread : Result RuleError SaveResult → Bool
is_unread (err (not_revalidated x)) = true
is_unread _ = false

module _ (lib : Library) (m : Moment) (id : String) (e : Engine) where
  pub save-IsLiveAt :
      (raw : String) (opts : SaveOptions) (key : String)
      → (str_eq id key ≡ false) ⊎ (is_unread (save lib m id raw opts e).0 ≡ false)
      → IsLiveAt lib key e
      → IsLiveAt lib key (save lib m id raw opts e).1
  save-IsLiveAt raw opts key reads live = elim (save-cases lib m id e raw opts) [
    | inl (x, refused) ↦ subst (λ r. IsLiveAt lib key r.1) (sym refused) live
    | inr (entry, rule, good, stores) ↦
        subst (λ r. IsLiveAt lib key r.1) (sym stores)
          (elim (store_saved-cases lib m id e entry raw opts (run_examples rule e)) [
            | inl clash ↦ subst (λ r. IsLiveAt lib key r.1) (sym clash) live
            | inr (inl (x, bad, failed)) ↦
                subst (λ r. IsLiveAt lib key r.1) (sym failed)
                  (elim reads [
                    | inl other ↦
                        uncached-IsLiveAt lib m id entry raw opts.author opts.change_note e key
                          other live
                    | inr fine ↦
                        let stuck : is_unread (save lib m id raw opts e).0 ≡ true =
                          ap (λ r. is_unread r.0) (stores ∙ failed) in
                        cc
                  ])
            | inr (inr (r, fine, done)) ↦
                subst (λ r. IsLiveAt lib key r.1) (sym done)
                  (renewed-IsLiveAt lib m id entry raw opts.author opts.change_note e r key live
                    fine)
          ])
  ]

  -- A reactivation is refused with the engine as it was, or it serves the rule again.
  reactivate-cases :
      (target : ℤ) (note : String)
      → ((x : RuleError) × (reactivate lib m id target note e ≡ (err x, e)))
        ⊎ ((entry : RegistryEntry) × (v : RuleVersion) × (r : Rule) × (result : SaveResult)
            × (validate lib (new_raw lib m id entry v.content "" (reactivation_note target note) e)
                ≡ ok r)
            × (reactivate lib m id target note e ≡ (
              ok result,
              renewed lib m id entry v.content "" (reactivation_note target note) e r,
            )))
  unfolding reactivate store_reactivated finish_reactivated
  reactivate-cases target note = elim (Option-cases (find_entry id e.registry)) [
    | inl missing ↦ inl (not_registered id, rw (reactivate, missing) refl)
    | inr (entry, found) ↦ elim (Result-cases (get_version id target e.rule_store)) [
      | inr (x, absent) ↦ inl (store_failed x, rw (reactivate, found) (rw absent refl))
      | inl (v, there) ↦
          let why = reactivation_note target note in
          let text = new_raw lib m id entry v.content "" why e in
          let goes : reactivate lib m id target note e
              ≡ store_reactivated lib m entry id target note v.content e =
            rw (reactivate, found) (rw there refl) in
          elim (Result-cases (validate lib text)) [
            | inr (x, bad) ↦ inl (x, goes ∙ rw (store_reactivated, bad) refl)
            | inl (r, good) ↦
                let result : SaveResult = record {
                  version = next lib m id entry v.content "" why e;
                  previous = (latest_version id e).0;
                  examples = run_examples r e;
                  diff = line_diff (latest_version id e).1 text;
                } in
                let step : store_reactivated lib m entry id target note v.content e
                    ≡ finish_reactivated m id r result e (
                        insert_version m.wall (version lib m id entry v.content "" why e)
                          e.rule_store) =
                  rw (store_reactivated, good) refl in
                elim (insert-cases lib m id entry v.content "" why e) [
                  | inl clash ↦ inl (
                    store_failed conflict,
                    goes ∙ step ∙ ap (finish_reactivated m id r result e) clash,
                  )
                  | inr added ↦ inr (
                    entry,
                    v,
                    r,
                    result,
                    good,
                    goes ∙ step ∙ ap (finish_reactivated m id r result e) added,
                  )
                ]
          ]
    ]
  ]

  pub reactivate-IsLiveAt :
      (target : ℤ) (note key : String)
      → IsLiveAt lib key e
      → IsLiveAt lib key (reactivate lib m id target note e).1
  reactivate-IsLiveAt target note key live = elim (reactivate-cases target note) [
    | inl (x, refused) ↦ subst (λ r. IsLiveAt lib key r.1) (sym refused) live
    | inr (entry, v, r, result, good, done) ↦
        subst (λ r. IsLiveAt lib key r.1) (sym done)
          (renewed-IsLiveAt lib m id entry v.content "" (reactivation_note target note) e r key live
            good)
  ]

  -- An evaluation is refused with the engine as it was, or it records the evaluator's output.
  pub evaluate-cases :
      (kind entity : String) (input : Fields)
      → ((x : RuleError) × (evaluate lib m id kind entity input e ≡ (err x, e)))
        ⊎ ((rule : Rule) × (ev : Evaluator) × (output : Fields) × (get_rule id e ≡ ok rule)
            × (lookup rule.rule_type e.evaluators ≡ some ev)
            × (ev rule.content input ≡ ok output)
            × (evaluate lib m id kind entity input e
                ≡ recorded lib m rule kind entity input output e))
  unfolding evaluate
  evaluate-cases kind entity input = elim (Result-cases (get_rule id e)) [
    | inr (x, missing) ↦ inl (x, rw (evaluate, missing) refl)
    | inl (rule, found) ↦ elim (Option-cases (lookup rule.rule_type e.evaluators)) [
      | inl without ↦ inl (no_evaluator rule.rule_type, rw (evaluate, found) (rw without refl))
      | inr (ev, known) ↦ elim (Result-cases (ev rule.content input)) [
        | inr (x, failed) ↦
            inl (evaluation_failed x, rw (evaluate, found) (rw known (rw failed refl)))
        | inl (output, given) ↦
            inr (
              rule,
              ev,
              output,
              found,
              known,
              given,
              rw (evaluate, found) (rw known (rw given refl)),
            )
      ]
    ]
  ]

  pub evaluate-IsLiveAt :
      (kind entity : String) (input : Fields) (key : String)
      → IsLiveAt lib key e
      → IsLiveAt lib key (evaluate lib m id kind entity input e).1
  evaluate-IsLiveAt kind entity input key live = elim (evaluate-cases kind entity input) [
    | inl (x, refused) ↦ subst (λ r. IsLiveAt lib key r.1) (sym refused) live
    | inr (rule, ev, output, found, known, given, done) ↦
        subst (λ r. IsLiveAt lib key r.1) (sym done) (unfold recorded insert_application in live)
  ]

-- Let the id be no empty text and have a registry entry, let the engine's cache be on the open
-- versions, and let a document be valid and that of the rule, its examples pass or be allowed to
-- fail, and the document be valid with its next version number, which an int64 holds. Then saving it
-- succeeds with the number after the latest one, the engine serves the rule as it was saved, and its
-- cache is on the open versions again.
pub save-Serves :
    (lib : Library) (m : Moment) (id raw : String) (opts : SaveOptions) (e : Engine)
    (entry : RegistryEntry) (rule new : Rule)
    → str_eq id "" ≡ false
    → find_entry id e.registry ≡ some entry
    → validate lib raw ≡ ok rule
    → rule.rule_id ≡ id
    → (not opts.allow_failing_examples && not (all_passed (run_examples rule e))) ≡ false
    → Fits ((latest_version id e).0 +ℤ pos 1)
    → validate lib (new_raw lib m id entry raw opts.author opts.change_note e) ≡ ok new
    → IsLive lib e
    → Serves lib id
        (record new { effective_from = m.now })
        (latest_version id e).0
        (save lib m id raw opts e)
unfolding save store_saved finish_saved
save-Serves lib m id raw opts e entry rule new named found good same passes fits fine live =
    let results = run_examples rule e in
    let result = saved lib m id e entry raw opts results in
    let text = written lib m id e entry raw opts in
    let match : str_eq rule.rule_id id ≡ true = rw same (eq_refl id) in
    let goes : save lib m id raw opts e ≡ store_saved lib m entry id raw opts results e =
      rw (save, found) (rw good (rw match (rw passes refl))) in
    let done : store_saved lib m entry id raw opts results e
        ≡ (ok result, renewed lib m id entry raw opts.author opts.change_note e new) =
      ap (finish_saved lib m id text result e)
        (insert-free lib m id entry raw opts.author opts.change_note e named fits)
      ∙ rw (finish_saved, fine) refl in
    subst (Serves lib id (record new { effective_from = m.now }) (latest_version id e).0)
      (sym (goes ∙ done))
      (
        result,
        refl,
        add64-eq (latest_version id e).0 (pos 1) fits,
        refl,
        get_rule-renewed lib m id e entry raw opts.author opts.change_note new,
        λ key.
            renewed-IsLiveAt lib m id entry raw opts.author opts.change_note e new key (live key)
              fine,
      )
