-- ===== src/Rules/Engine/Live/Versions.antt =====
-- The version that `Save` and `Reactivate` of internal/rules/engine.go insert: its number is free,
-- and it becomes the open version.
use stable_bank.Base.{
  ◌≡◌, refl, sym, ap, ◌∙◌, subst, String, false, ◌⊎◌, none, List, [], ◌∷◌, arith, str_eq,
  Option-cases, inl, inr, ok, err, All, if◌then◌else◌,
}
use stable_bank.Base.Int.{ℤ, pos, ◌+ℤ◌, ◌≤ℤ◌, ltb_ℤ, +ℤ_parts}
use stable_bank.Base.Int64.{add64, Fits, add64-eq}
use stable_bank.Store.Rules.{
  RuleVersion, conflict, versions_of, find_version, insert_version, list_versions,
}
use stable_bank.Store.Rules.Lookup.{stored, insert_version-new, insert_version-known}
use stable_bank.Rules.Documents.{Rule, Library, validate, rewrite_version_line}
use stable_bank.Rules.Engine.{RegistryEntry, Engine, Moment}
use stable_bank.Rules.Engine.Save.{latest_loop, latest_version, version_of, cached}
use stable_bank.Rules.Engine.Live.{IsLiveAt, cached-IsLiveAt, stored-IsLiveAt}

abbrev higher : ℤ → RuleVersion → ℤ
higher top v = if ltb_ℤ top v.version then v.version else top

higher_bounds : (top : ℤ) (v : RuleVersion) → (top ≤ℤ higher top v) × (v.version ≤ℤ higher top v)
higher_bounds top v = ground arith

-- The number that `latestVersion` gives bounds every version.
le-latest_loop :
    (vs : List RuleVersion) (top : ℤ) (raw : String) → top ≤ℤ (latest_loop vs (top, raw)).0
unfolding latest_loop
le-latest_loop [] top raw = omega arith
le-latest_loop (v ∷ vs) top raw =
    omega (arith, (higher_bounds top v).0, le-latest_loop vs (higher top v) _)

versions-le-latest_loop :
    (vs : List RuleVersion) (top : ℤ) (raw : String)
    → All (λ v. v.version ≤ℤ (latest_loop vs (top, raw)).0) vs
unfolding latest_loop
versions-le-latest_loop [] top raw = tt
versions-le-latest_loop (v ∷ vs) top raw = (
  omega (arith, (higher_bounds top v).1, le-latest_loop vs (higher top v) _),
  versions-le-latest_loop vs (higher top v) _,
)

none_above :
    (vs : List RuleVersion) (n : ℤ)
    → All (λ v. v.version ≤ℤ n) vs
    → find_version (n +ℤ pos 1) vs ≡ none
none_above [] n h = refl
none_above (v ∷ vs) n h = ground (arith, none_above vs n h.1, h.0, +ℤ_parts n (pos 1))

latest-eq :
    (id : String) (e : Engine)
    → str_eq id "" ≡ false
    → latest_version id e ≡ latest_loop (versions_of id e.rule_store) (pos 0, "")
unfolding latest_version list_versions
latest-eq id e named = ap (λ vs. latest_loop vs (pos 0, "")) (rw (list_versions, named) refl)

-- The number of the next version is free.
next_free :
    (id : String) (e : Engine)
    → str_eq id "" ≡ false
    → Fits ((latest_version id e).0 +ℤ pos 1)
    → find_version (add64 (latest_version id e).0 (pos 1)) (versions_of id e.rule_store) ≡ none
next_free id e named fits =
    let vs = versions_of id e.rule_store in
    let top = (latest_loop vs (pos 0, "")).0 in
    let free : find_version (top +ℤ pos 1) vs ≡ none =
      none_above vs top (versions-le-latest_loop vs (pos 0) "") in
    let same : add64 (latest_version id e).0 (pos 1) ≡ top +ℤ pos 1 =
      add64-eq _ (pos 1) fits ∙ ap (λ t. t.0 +ℤ pos 1) (latest-eq id e named) in
    subst (λ n. find_version n vs ≡ none) (sym same) free

module _ (lib : Library) (m : Moment) (id : String) where
  module _ (entry : RegistryEntry) (raw author note : String) (e : Engine) where
    abbrev pub next : ℤ
    next = add64 (latest_version id e).0 (pos 1)

    abbrev pub new_raw : String
    new_raw = rewrite_version_line next raw

    abbrev pub version : RuleVersion
    version = version_of lib m entry id next new_raw author note

    -- The engine that serves the new version.
    abbrev pub renewed : Rule → Engine
    renewed r = cached id m.now r (stored m.wall version e.rule_store) e

    pub renewed-IsLiveAt :
        (r : Rule) (key : String)
        → IsLiveAt lib key e
        → validate lib new_raw ≡ ok r
        → IsLiveAt lib key (renewed r)
    renewed-IsLiveAt r key live good =
        unfold version_of in cached-IsLiveAt lib m.wall version r e key live refl good

    -- Without its rule in the cache.
    pub uncached-IsLiveAt :
        (key : String)
        → str_eq id key ≡ false
        → IsLiveAt lib key e
        → IsLiveAt lib key (record e { rule_store = stored m.wall version e.rule_store })
    uncached-IsLiveAt key other live =
        unfold version_of in stored-IsLiveAt lib m.wall version e key other live

    -- An insertion conflicts, or it adds the version.
    pub insert-cases :
        (insert_version m.wall version e.rule_store ≡ (err conflict, e.rule_store))
        ⊎ (insert_version m.wall version e.rule_store ≡ (ok tt, stored m.wall version e.rule_store))
    insert-cases =
        elim (Option-cases
          (find_version version.version (versions_of version.rule_id e.rule_store))) [
            | inl new ↦ inr (insert_version-new m.wall version e.rule_store new)
            | inr (w, old) ↦ inl (insert_version-known m.wall version e.rule_store w old)
          ]

    pub insert-free :
        str_eq id "" ≡ false
        → Fits ((latest_version id e).0 +ℤ pos 1)
        → insert_version m.wall version e.rule_store ≡ (ok tt, stored m.wall version e.rule_store)
    insert-free named fits =
        insert_version-new m.wall version e.rule_store
          (unfold version_of in next_free id e named fits)
