-- ===== src/Store/Rules/Lookup.antt =====
-- Looking a rule version up after an insertion: `InsertRuleVersion` and `GetRuleVersion` of
-- internal/store/memstore/memstore.go.
use stable_bank.Base.{
  ◌≡◌, refl, ap, subst, ◌∙◌, String, true, false, Option, none, some, List, [], ◌∷◌, ◌++◌, arith,
  str_eq, Result, ok, err, eq_iff, ◌≢◌, ◌==◌, sym, eq_refl, Option-cases, Bool-cases, inl, inr, ◌⊎◌,
  if◌then◌else◌,
}
use stable_bank.Base.Int.{ℤ, eq_of_parts}
use stable_bank.Base.Int64.{eq_ℤ}
use stable_bank.Base.Dict.{insert, lookup-insert}
use stable_bank.Base.Sort.{insert_sorted, sort_slice}
use stable_bank.Store.Events.{Time}
use stable_bank.Store.Rules.{
  RuleVersion, RuleStore, StoreError, conflict, not_found, versions_of, find_version, close, older,
  dated, close_all, insert_version, get_version, as_found,
}

abbrev pub or_else : Option RuleVersion → Option RuleVersion → Option RuleVersion
or_else none b = b
or_else (some v) b = some v

find_version-insert_sorted :
    (n : ℤ) (x : RuleVersion) (vs : List RuleVersion)
    → find_version n (insert_sorted older x vs)
      ≡ (if eq_ℤ x.version n then some x else find_version n vs)
unfolding insert_sorted
find_version-insert_sorted n x [] = refl
find_version-insert_sorted n x (v ∷ vs) = ground (arith, find_version-insert_sorted n x vs)

find_version-sort_slice :
    (n : ℤ) (vs : List RuleVersion) → find_version n (sort_slice older vs) ≡ find_version n vs
unfolding sort_slice
find_version-sort_slice n [] = refl
find_version-sort_slice n (v ∷ vs) =
    rw (find_version-insert_sorted n v (sort_slice older vs), find_version-sort_slice n vs)

find_version-append :
    (n : ℤ) (xs ys : List RuleVersion)
    → find_version n (xs ++ ys) ≡ or_else (find_version n xs) (find_version n ys)
find_version-append n [] ys = refl
find_version-append n (x ∷ xs) ys = ground (arith, find_version-append n xs ys)

abbrev pub map_close : Time → Option RuleVersion → Option RuleVersion
map_close t none = none
map_close t (some v) = some (close t v)

find_version-close_all :
    (n : ℤ) (t : Time) (vs : List RuleVersion)
    → find_version n (close_all t vs) ≡ map_close t (find_version n vs)
find_version-close_all n t [] = refl
find_version-close_all n t (v ∷ vs) = ground (arith, find_version-close_all n t vs)

-- The history that an insertion stores.
abbrev pub inserted : Time → RuleVersion → List RuleVersion → List RuleVersion
inserted wall v vs = sort_slice older (close_all v.effective_from vs ++ dated wall v ∷ [])

-- The scan of the history that an insertion stores.
pub find_version-inserted :
    (n : ℤ) (wall : Time) (v : RuleVersion) (vs : List RuleVersion)
    → find_version n (inserted wall v vs)
      ≡ or_else
          (map_close v.effective_from (find_version n vs))
          (if eq_ℤ v.version n then some (dated wall v) else none)
find_version-inserted n wall v vs =
    find_version-sort_slice n (close_all v.effective_from vs ++ dated wall v ∷ [])
    ∙ find_version-append n (close_all v.effective_from vs) (dated wall v ∷ [])
    ∙ rw (find_version-close_all n v.effective_from vs)

-- What a lookup finds after an insertion, from what it found before.
abbrev pub replaced :
    Time → RuleVersion → String → ℤ → Result StoreError RuleVersion → Result StoreError RuleVersion
replaced wall v id n before =
    if str_eq v.rule_id id
    then if eq_ℤ v.version n
      then ok (dated wall v)
      else elim before [ ok w ↦ ok (close v.effective_from w) | err e ↦ err e ]
    else before

module _ (wall : Time) (v : RuleVersion) (s : RuleStore) where
  -- The store with the new history of the rule.
  abbrev pub stored : RuleStore
  stored = record s {
    versions = insert v.rule_id (inserted wall v (versions_of v.rule_id s)) s.versions;
  }

  pub insert_version-new :
      find_version v.version (versions_of v.rule_id s) ≡ none
      → insert_version wall v s ≡ (ok tt, stored)
  unfolding insert_version
  insert_version-new new = rw (insert_version, new) refl

  pub insert_version-known :
      (w : RuleVersion)
      → find_version v.version (versions_of v.rule_id s) ≡ some w
      → insert_version wall v s ≡ (err conflict, s)
  unfolding insert_version
  insert_version-known w old = rw (insert_version, old) refl

  pub versions_of-stored :
      (id : String)
      → versions_of id stored ≡ (
          if str_eq v.rule_id id
          then inserted wall v (versions_of v.rule_id s)
          else versions_of id s)
  versions_of-stored id =
      ground
        (arith, lookup-insert v.rule_id id (inserted wall v (versions_of v.rule_id s)) s.versions)

  found_stored :
      (id : String) (n : ℤ)
      → str_eq v.rule_id id ≡ true
      → find_version n (versions_of id stored)
        ≡ or_else
            (map_close v.effective_from (find_version n (versions_of v.rule_id s)))
            (if eq_ℤ v.version n then some (dated wall v) else none)
  found_stored id n same =
      ap (find_version n) (
        versions_of-stored id
        ∙ ap (λ b. if b then inserted wall v (versions_of v.rule_id s) else versions_of id s) same)
      ∙ find_version-inserted n wall v (versions_of v.rule_id s)

  same_rule :
      (n : ℤ) (vs : List RuleVersion)
      → find_version v.version vs ≡ none
      → as_found (
          or_else
            (map_close v.effective_from (find_version n vs))
            (if eq_ℤ v.version n then some (dated wall v) else none))
        ≡ replaced wall v v.rule_id n (as_found (find_version n vs))
  same_rule n vs new = elim (Bool-cases (eq_ℤ v.version n)) [
    | inl same ↦
        let version_eq : v.version ≡ n = eq_of_parts v.version n (ground arith) in
        let missing : find_version n vs ≡ none =
          subst (λ m. find_version m vs ≡ none) version_eq new in
        rw (eq_refl v.rule_id, same, missing) refl
    | inr other ↦
        rw (eq_refl v.rule_id, other)
          (elim (Option-cases (find_version n vs)) [
            | inl missing ↦ rw missing refl
            | inr (w, found) ↦ rw found refl
          ])
  ]

  get_version-stored :
      find_version v.version (versions_of v.rule_id s) ≡ none
      → (id : String) (n : ℤ) → get_version id n stored ≡ replaced wall v id n (get_version id n s)
  unfolding get_version
  get_version-stored new id n = elim (Bool-cases (str_eq v.rule_id id)) [
    | inl same ↦
        ap as_found (found_stored id n same)
        ∙ same_rule n (versions_of v.rule_id s) new
        ∙ ap (λ i. replaced wall v i n (get_version i n s)) ((eq_iff v.rule_id id).0 same)
    | inr other ↦ ground (arith, versions_of-stored id)
  ]

-- The version that is stored: as it is given, with the wall clock's time if it has none.
abbrev pub Dated : Time → RuleVersion → RuleVersion → Type 0
Dated wall v w =
    ((v.created_at ≡ 0) × (w ≡ record v { created_at = wall })) ⊎ ((v.created_at ≢ 0) × (w ≡ v))

dated-Dated : (wall : Time) (v : RuleVersion) → Dated wall v (dated wall v)
dated-Dated wall v = elim (Bool-cases (v.created_at == 0)) [
  | inl zero_time ↦ inl (ground arith, rw zero_time refl)
  | inr given ↦ inr (ground arith, rw given refl)
]

-- What a lookup gives before and after the insertion of a version.
pub data Looked (wall : Time) (v : RuleVersion) (id : String) (n : ℤ)
    : Result StoreError RuleVersion → Result StoreError RuleVersion → Type 0 where
  new_one :
      {r : Result StoreError RuleVersion} {w : RuleVersion}
      → v.rule_id ≡ id
      → v.version ≡ n
      → Dated wall v w
      → Looked wall v id n r (ok w)
  was_open :
      {w : RuleVersion}
      → v.rule_id ≡ id
      → v.version ≢ n
      → w.effective_to ≡ none
      → Looked wall v id n (ok w) (ok (record w { effective_to = some v.effective_from }))
  was_closed :
      {w : RuleVersion} (t : Time)
      → v.rule_id ≡ id
      → v.version ≢ n
      → w.effective_to ≡ some t
      → Looked wall v id n (ok w) (ok w)
  unknown : {e : StoreError} → v.rule_id ≡ id → v.version ≢ n → Looked wall v id n (err e) (err e)
  elsewhere : {r : Result StoreError RuleVersion} → v.rule_id ≢ id → Looked wall v id n r r

eq_ℤ-refl : (a b : ℤ) → a ≡ b → eq_ℤ a b ≡ false → ⊥
eq_ℤ-refl a b h k = ground arith

closed-Looked :
    (wall : Time) (v : RuleVersion) (id : String) (n : ℤ)
    → v.rule_id ≡ id
    → v.version ≢ n
    → (w : RuleVersion) → Looked wall v id n (ok w) (ok (close v.effective_from w))
closed-Looked wall v id n same other w = by_end w.effective_to refl
  where
    by_end :
        (o : Option Time)
        → w.effective_to ≡ o
        → Looked wall v id n (ok w) (
            ok (record w {
              effective_to = elim o [ none ↦ some v.effective_from | some e ↦ some e ];
            }))
    by_end none still_open = was_open same other still_open
    by_end (some t) ended =
        subst (λ x. Looked wall v id n (ok w) (ok (record w { effective_to = x }))) ended
          (was_closed t same other ended)

replaced-Looked :
    (wall : Time) (v : RuleVersion) (id : String) (n : ℤ) (r : Result StoreError RuleVersion)
    → Looked wall v id n r (replaced wall v id n r)
replaced-Looked wall v id n r = elim (Bool-cases (str_eq v.rule_id id)) [
  | inr other ↦
      rw other
        (elsewhere (λ h. let bad : str_eq v.rule_id id ≡ true = (eq_iff v.rule_id id).1 h in cc))
  | inl same ↦
      let rule_eq : v.rule_id ≡ id = (eq_iff v.rule_id id).0 same in
      elim (Bool-cases (eq_ℤ v.version n)) [
        | inl equal ↦
            rw (same, equal)
              (new_one rule_eq (eq_of_parts v.version n (ground arith)) (dated-Dated wall v))
        | inr unequal ↦
            let apart : v.version ≢ n = λ h. eq_ℤ-refl v.version n h unequal in
            rw (same, unequal) (by_result r rule_eq apart)
      ]
]
  where
    by_result :
        (r : Result StoreError RuleVersion)
        → v.rule_id ≡ id
        → v.version ≢ n
        → Looked wall v id n r (elim r [ ok w ↦ ok (close v.effective_from w) | err e ↦ err e ])
    by_result (ok w) same other = closed-Looked wall v id n same other w
    by_result (err e) same other = unknown same other

-- Inserting a version fails with a conflict, and changes nothing, when the rule already has that
-- number. Otherwise it succeeds, and from then on looking that number up gives the new version, with
-- the wall clock's time if it had none; an open version of the rule ends where the new one starts,
-- one that had an end keeps it, and the other rules are as before.
pub get_version-insert_version :
    (wall : Time) (v : RuleVersion) (s : RuleStore)
    → let (r, s') = insert_version wall v s in
      let before = get_version v.rule_id v.version s in
      ((w : RuleVersion) × (before ≡ ok w) × (r ≡ err conflict) × (s' ≡ s))
      ⊎ ((before ≡ err not_found)
          × (r ≡ ok tt)
          × ((id : String) (n : ℤ) → Looked wall v id n (get_version id n s) (get_version id n s')))
unfolding get_version
get_version-insert_version wall v s =
    elim (Option-cases (find_version v.version (versions_of v.rule_id s))) [
      | inl new ↦ inr (
        ap as_found new,
        ap (λ x. x.0) (insert_version-new wall v s new),
        λ id n.
            subst (Looked wall v id n (get_version id n s))
              (sym (
                ap (λ x. get_version id n x.1) (insert_version-new wall v s new)
                ∙ get_version-stored wall v s new id n))
              (replaced-Looked wall v id n (get_version id n s)),
      )
      | inr (w, old) ↦ inl (
        w,
        ap as_found old,
        ap (λ x. x.0) (insert_version-known wall v s w old),
        ap (λ x. x.1) (insert_version-known wall v s w old),
      )
    ]
