-- ===== src/Rules/Engine/Live/Saving.antt =====
-- `Save` and `Reactivate` of internal/rules/engine.go: what they serve afterwards, and what they
-- leave when they refuse.
use stable_bank.Base.{
  ◌≡◌, refl, sym, ap, ◌∙◌, subst, String, not, ◌&&◌, ◌⊎◌, some, List, [], ◌∷◌, str_eq, eq_refl,
  Option-cases, Bool-cases, Result-cases, inl, inr, Result, ok, err,
}
use stable_bank.Base.Int.{ℤ, pos, ◌+ℤ◌}
use stable_bank.Base.Dict.{lookup, insert, lookup-insert}
use stable_bank.Store.Rules.{RuleVersion, conflict}
use stable_bank.Store.Rules.Lookup.{stored}
use stable_bank.Rules.Diff.{line_diff}
use stable_bank.Rules.Documents.{
  Rule, RuleError, not_registered, invalid, examples_failed, store_failed, not_revalidated,
  ExampleResult, Library, validate,
}
use stable_bank.Rules.Engine.{
  RegistryEntry, Engine, Moment, find_entry, get_rule, run_examples, all_passed,
}
use stable_bank.Rules.Engine.Save.{
  SaveOptions, SaveResult, latest_version, finish_saved, store_saved, save,
}
use stable_bank.Rules.Engine.Live.{IsLive}
use stable_bank.Rules.Engine.Live.Versions.{next, new_raw, version, renewed, insert-cases}

abbrev pub Unreadable : RuleError → Type 0
Unreadable x = (y : RuleError) × (x ≡ not_revalidated y)

-- A call that fails leaves the engine as it was, except where the new text cannot be read again.
abbrev pub Unchanged : {A : Type 0} → Engine → Result RuleError A × Engine → Type 0
Unchanged e (ok a, e') = Unit
Unchanged e (err x, e') = (e' ≡ e) ⊎ Unreadable x

-- A call that succeeds serves its rule, and the cache is again on the open versions.
abbrev pub Serves : Library → String → Rule → ℤ → Result RuleError SaveResult × Engine → Type 0
Serves lib id rule latest (r, e') =
    (result : SaveResult) × (r ≡ ok result)
    × (result.version ≡ latest +ℤ pos 1)
    × (result.previous ≡ latest)
    × (get_rule id e' ≡ ok rule)
    × IsLive lib e'

module _ (lib : Library) (m : Moment) (id : String) (e : Engine) where
  pub get_rule-renewed :
      (entry : RegistryEntry) (raw author note : String) (r : Rule)
      → get_rule id (renewed lib m id entry raw author note e r)
        ≡ ok (record r { effective_from = m.now })
  unfolding get_rule
  get_rule-renewed entry raw author note r =
      let found : lookup id (insert id (record r { effective_from = m.now }) e.cache)
          ≡ some (record r { effective_from = m.now }) =
        lookup-insert id id (record r { effective_from = m.now }) e.cache ∙ rw (eq_refl id) refl in
      rw (get_rule, found) refl

  module _ (entry : RegistryEntry) (raw : String) (opts : SaveOptions) where
    abbrev pub written : String
    written = new_raw lib m id entry raw opts.author opts.change_note e

    abbrev pub made : RuleVersion
    made = version lib m id entry raw opts.author opts.change_note e

    abbrev pub saved : List ExampleResult → SaveResult
    saved results = record {
      version = next lib m id entry raw opts.author opts.change_note e;
      previous = (latest_version id e).0;
      examples = results;
      diff = line_diff (latest_version id e).1 written;
    }

    -- How storing ends: the number is taken, the new text cannot be read, or the rule is served.
    pub store_saved-cases :
        (results : List ExampleResult)
        → let out = store_saved lib m entry id raw opts results e in
          (out ≡ (err (store_failed conflict), e))
          ⊎ ((x : RuleError) × (validate lib written ≡ err x)
              × (out ≡ (
                err (not_revalidated x),
                record e { rule_store = stored m.wall made e.rule_store },
              )))
          ⊎ ((r : Rule) × (validate lib written ≡ ok r)
              × (out ≡ (
                ok (saved results),
                renewed lib m id entry raw opts.author opts.change_note e r,
              )))
    unfolding store_saved finish_saved
    store_saved-cases results =
        let finish = finish_saved lib m id written (saved results) e in
        elim (insert-cases lib m id entry raw opts.author opts.change_note e) [
          | inl clash ↦ inl (ap finish clash)
          | inr added ↦ elim (Result-cases (validate lib written)) [
            | inl (r, good) ↦ inr (inr (r, good, ap finish added ∙ rw (finish_saved, good) refl))
            | inr (x, bad) ↦ inr (inl (x, bad, ap finish added ∙ rw (finish_saved, bad) refl))
          ]
        ]

  -- A save is refused with the engine as it was, or it goes on to store a document that is valid.
  pub save-cases :
      (raw : String) (opts : SaveOptions)
      → ((x : RuleError) × (save lib m id raw opts e ≡ (err x, e)))
        ⊎ ((entry : RegistryEntry) × (rule : Rule) × (validate lib raw ≡ ok rule)
            × (save lib m id raw opts e
                ≡ store_saved lib m entry id raw opts (run_examples rule e) e))
  unfolding save
  save-cases raw opts = elim (Option-cases (find_entry id e.registry)) [
    | inl missing ↦ inl (not_registered id, rw (save, missing) refl)
    | inr (entry, found) ↦ elim (Result-cases (validate lib raw)) [
      | inr (x, bad) ↦ inl (x, rw (save, found) (rw bad refl))
      | inl (rule, good) ↦ elim (Bool-cases (not (str_eq rule.rule_id id))) [
        | inl other ↦ inl (
          invalid ("rule_id in document does not match target rule_id" ∷ []),
          rw (save, found) (rw good (rw other refl)),
        )
        | inr same ↦
            elim (Bool-cases
              (not opts.allow_failing_examples && not (all_passed (run_examples rule e)))) [
                | inl fails ↦ inl (
                  examples_failed (run_examples rule e),
                  rw (save, found) (rw good (rw same (rw fails refl))),
                )
                | inr passes ↦
                    inr (entry, rule, good, rw (save, found) (rw good (rw same (rw passes refl))))
              ]
      ]
    ]
  ]

-- A save that fails leaves the store and the cache as they were, except where the text with its
-- new version line cannot be read, which the engine finds out after it has stored it.
pub save-Unchanged :
    (lib : Library) (m : Moment) (id raw : String) (opts : SaveOptions) (e : Engine)
    → Unchanged e (save lib m id raw opts e)
save-Unchanged lib m id raw opts e = elim (save-cases lib m id e raw opts) [
  | inl (x, refused) ↦ subst (Unchanged e) (sym refused) (inl refl)
  | inr (entry, rule, good, stores) ↦
      subst (Unchanged e) (sym stores) (elim (store_saved-cases lib m id e entry raw opts _) [
        | inl clash ↦ subst (Unchanged e) (sym clash) (inl refl)
        | inr (inl (x, bad, failed)) ↦ subst (Unchanged e) (sym failed) (inr (x, refl))
        | inr (inr (r, fine, done)) ↦ subst (Unchanged e) (sym done) tt
      ])
]
