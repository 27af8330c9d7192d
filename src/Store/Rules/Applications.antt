-- ===== src/Store/Rules/Applications.antt =====
-- The audit log of rule applications: `ListRuleApplications` of internal/store/memstore/memstore.go.
use stable_bank.Base.{
  ℕ, zero, suc, ◌+◌, ◌≡◌, refl, sym, ap, ◌∙◌, String, Bool, true, false, List, [], ◌∷◌, ◌++◌,
  reverse, arith, ltb, length, take, keep, length-append, Bool-cases, inl, inr, ◌⊎◌, subst,
}
use stable_bank.Base.Int.{ℤ, pos, negsuc, ◌≤ℤ◌}
use stable_bank.Base.Selection.{Selection, keep-Selection, Tells, tells_and, tells_or, tells_same}
use stable_bank.Store.Rules.{
  RuleApplication, RuleStore, app_passes, apps_loop, app_limit, list_applications,
}

append_assoc_one :
    (xs ys : List RuleApplication) (a : RuleApplication) → (xs ++ a ∷ []) ++ ys ≡ xs ++ a ∷ ys
append_assoc_one [] ys a = refl
append_assoc_one (x ∷ xs) ys a = ap (λ zs. x ∷ zs) (append_assoc_one xs ys a)

append_nil : (xs : List RuleApplication) → xs ++ [] ≡ xs
append_nil [] = refl
append_nil (x ∷ xs) = ap (λ zs. x ∷ zs) (append_nil xs)

take-[] : (n : ℕ) → let none_left : List RuleApplication = [] in take n none_left ≡ none_left
take-[] zero = refl
take-[] (suc n) = refl

-- With room for `room` more applications the loop takes so many of those that pass.
apps_loop-take :
    (p : RuleApplication → Bool) (limit room : ℕ) (xs out : List RuleApplication)
    → length out + room ≡ limit
    → apps_loop p limit xs out ≡ out ++ take room (keep p xs)
unfolding apps_loop
apps_loop-take p limit room [] out h =
    sym (append_nil out) ∙ ap (λ ys. out ++ ys) (sym (take-[] room))
apps_loop-take p limit zero (x ∷ xs) out h =
    let full : ltb (length out) limit ≡ false = ground arith in rw full (sym (append_nil out))
apps_loop-take p limit (suc room) (x ∷ xs) out h =
    let space : ltb (length out) limit ≡ true = ground arith in
    elim (Bool-cases (p x)) [
      | inl passing ↦
          rw (space, passing)
            (apps_loop-take p limit room xs (out ++ x ∷ [])
                (omega (arith, length-append out (x ∷ [])))
              ∙ append_assoc_one out (take room (keep p xs)) x)
      | inr failing ↦ rw (space, failing) (apps_loop-take p limit (suc room) xs out h)
    ]

list_applications-keep :
    (rule_id entity_id : String) (limit : ℤ) (s : RuleStore)
    → list_applications rule_id entity_id limit s
      ≡ take (app_limit limit) (keep (app_passes rule_id entity_id) (reverse s.apps))
unfolding list_applications
list_applications-keep rule_id entity_id limit s =
    apps_loop-take (app_passes rule_id entity_id) (app_limit limit) (app_limit limit)
      (reverse s.apps) [] (omega arith)

-- What both filters ask of an application; an empty id asks nothing.
abbrev pub IsAsked : String → String → RuleApplication → Type 0
IsAsked rule_id entity_id a =
    ((rule_id ≡ "") ⊎ (a.rule_id ≡ rule_id)) × ((entity_id ≡ "") ⊎ (a.entity_id ≡ entity_id))

app_passes-IsAsked :
    (rule_id entity_id : String) (a : RuleApplication)
    → Tells (app_passes rule_id entity_id a) (IsAsked rule_id entity_id a)
app_passes-IsAsked rule_id entity_id a =
    tells_and _ _ (tells_or _ _ (tells_same rule_id "") (tells_same a.rule_id rule_id))
      (tells_or _ _ (tells_same entity_id "") (tells_same a.entity_id entity_id))

-- The applications that are listed, of all that both filters let through.
abbrev pub FirstOf : ℤ → List RuleApplication → List RuleApplication → Type 0
FirstOf limit all listed =
    ((n : ℕ) × (limit ≡ pos (suc n)) × (listed ≡ take (suc n) all))
    ⊎ ((limit ≤ℤ pos 0) × (listed ≡ take 100 all))

app_limit-FirstOf :
    (limit : ℤ) (all : List RuleApplication) → FirstOf limit all (take (app_limit limit) all)
app_limit-FirstOf (pos zero) all = inr (omega arith, refl)
app_limit-FirstOf (pos (suc n)) all = inl (n, refl, refl)
app_limit-FirstOf (negsuc n) all = inr (omega arith, refl)

-- Listing applications goes from the newest to the oldest, through those of the given rule, if one
-- is given, and of the given entity, if one is given; and it gives the first `limit` of these, or the
-- first 100 where the limit is zero or negative.
pub list_applications-Selection :
    (rule_id entity_id : String) (limit : ℤ) (s : RuleStore)
    → (all : List RuleApplication) × Selection (IsAsked rule_id entity_id) (reverse s.apps) all
      × FirstOf limit all (list_applications rule_id entity_id limit s)
list_applications-Selection rule_id entity_id limit s =
    let all = keep (app_passes rule_id entity_id) (reverse s.apps) in
    (
      all,
      keep-Selection (app_passes rule_id entity_id) (app_passes-IsAsked rule_id entity_id)
          (reverse s.apps),
      subst (FirstOf limit all) (sym (list_applications-keep rule_id entity_id limit s))
          (app_limit-FirstOf limit all),
    )
