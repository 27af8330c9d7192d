-- ===== src/Rules/Match/Parts.antt =====
-- What it means for a document to be a part of another one, and `MatchExpected` of
-- internal/rules/match.go, which tests it.
use stable_bank.Base.{
  ◌≡◌, ◌⊎◌, refl, sym, ap, subst, String, Bool, true, false, ◌&&◌, Option, none, some, str_eq, inl,
  inr, arith, Bool-cases, if◌then◌else◌,
}
use stable_bank.Base.Int.{ℤ, eq_of_parts}
use stable_bank.Base.Int64.{eq_ℤ}
use stable_bank.Base.Selection.{Tells, tells_and, tells_iff, tells_by, tells_same}
use stable_bank.Value.{
  Value, null, flag, number, float, text, sequence, mapping, Values, none_left, item, Fields,
  no_fields, field, get, has_key,
}
use stable_bank.Rules.Match.{
  same_flag, match_subset, match_items, match_fields, normalize, normalize_items, normalize_fields,
}

-- The value that an object has under a key, if it has the key.
unfoldable pub value_at : String → Fields → Option Value
value_at k no_fields = none
value_at k (field at v fs) = if str_eq at k then some v else value_at k fs

-- A document is a part of another one: the same null, boolean, number or text; an array as long, item
-- by item; or an object whose keys the other has as well, with values of which its own are parts.
unfoldable mutual
  pub IsMatched : Value → Value → Type 0
  IsMatched null w = w ≡ null
  IsMatched (flag b) w = w ≡ flag b
  IsMatched (number n) w = (w ≡ number n) ⊎ (w ≡ float n)
  IsMatched (float n) w = (w ≡ number n) ⊎ (w ≡ float n)
  IsMatched (text t) w = w ≡ text t
  IsMatched (sequence vs) w = (ws : Values) × (w ≡ sequence ws) × AreMatched vs ws
  IsMatched (mapping fs) w = (gs : Fields) × (w ≡ mapping gs) × AreWithin fs gs

  pub AreMatched : Values → Values → Type 0
  AreMatched none_left ws = ws ≡ none_left
  AreMatched (item v vs) ws =
      (x : Value) × (xs : Values) × (ws ≡ item x xs) × IsMatched v x × AreMatched vs xs

  pub AreWithin : Fields → Fields → Type 0
  AreWithin no_fields gs = Unit
  AreWithin (field k v fs) gs =
      ((x : Value) × (value_at k gs ≡ some x) × IsMatched v x) × AreWithin fs gs

-- The test of one entry, where the test of its value is known.
tells_entry :
    (k : String) (v v' : Value) (gs : Fields)
    → ((x : Value) → Tells (match_subset v' (normalize x)) (IsMatched v x))
    → Tells
        (has_key k (normalize_fields gs) && match_subset v' (get k (normalize_fields gs)))
        ((x : Value) × (value_at k gs ≡ some x) × IsMatched v x)
unfolding value_at has_key get normalize_fields
tells_entry k v v' no_fields tells = inr (refl, λ (x, found, part). cc)
tells_entry k v v' (field at w gs) tells = elim (Bool-cases (str_eq at k)) [
  | inl same ↦ rw same (
      tells_iff _
        (
          (λ part. (w, refl, part)),
          (λ (x, found, part).
              subst (IsMatched v) (sym (ap (λ o. elim o [ none ↦ w | some y ↦ y ]) found)) part),
        )
        (tells w))
  | inr other ↦ rw other (tells_entry k v v' gs tells)
]

tells_number : (m n : ℤ) → Tells (eq_ℤ m n) (m ≡ n)
tells_number m n = tells_by (eq_ℤ m n) ((λ h. eq_of_parts m n (ground arith)), (λ h. ground arith))

tells_flag : (a b : Bool) → Tells (same_flag a b) (flag b ≡ flag a)
tells_flag true true = inl (refl, refl)
tells_flag true false = inr (refl, λ h. cc)
tells_flag false true = inr (refl, λ h. cc)
tells_flag false false = inl (refl, refl)

mutual
  unfolding match_subset match_items match_fields normalize normalize_items normalize_fields
      IsMatched

  tells_part : (v w : Value) → Tells (match_subset (normalize v) (normalize w)) (IsMatched v w)
  tells_part null null = inl (refl, refl)
  tells_part (flag a) (flag b) = tells_flag a b
  tells_part (number m) (number n) =
      tells_iff (eq_ℤ m n)
        ((λ h. inl (ap number (sym h))), (λ h. elim h [ inl e ↦ cc | inr e ↦ cc ]))
        (tells_number m n)
  tells_part (number m) (float n) =
      tells_iff (eq_ℤ m n)
        ((λ h. inr (ap float (sym h))), (λ h. elim h [ inl e ↦ cc | inr e ↦ cc ]))
        (tells_number m n)
  tells_part (float m) (number n) =
      tells_iff (eq_ℤ m n)
        ((λ h. inl (ap number (sym h))), (λ h. elim h [ inl e ↦ cc | inr e ↦ cc ]))
        (tells_number m n)
  tells_part (float m) (float n) =
      tells_iff (eq_ℤ m n)
        ((λ h. inr (ap float (sym h))), (λ h. elim h [ inl e ↦ cc | inr e ↦ cc ]))
        (tells_number m n)
  tells_part (text s) (text t) =
      tells_iff (str_eq s t) ((λ h. ap text (sym h)), (λ h. cc)) (tells_same s t)
  tells_part (sequence vs) (sequence ws) =
      tells_iff _
        (
          (λ h. (ws, refl, h)),
          (λ (xs, same, h). let e : ws ≡ xs = cc in subst (AreMatched vs) (sym e) h),
        )
        (tells_items vs ws)
  tells_part (sequence vs) _ = inr (refl, λ (ws, same, h). cc)
  tells_part (mapping fs) (mapping gs) =
      tells_iff _
        (
          (λ h. (gs, refl, h)),
          (λ (hs, same, h). let e : gs ≡ hs = cc in subst (AreWithin fs) (sym e) h),
        )
        (tells_fields fs gs)
  tells_part (mapping fs) _ = inr (refl, λ (gs, same, h). cc)
  tells_part (number m) _ = inr (refl, λ h. elim h [ inl e ↦ cc | inr e ↦ cc ])
  tells_part (float m) _ = inr (refl, λ h. elim h [ inl e ↦ cc | inr e ↦ cc ])
  tells_part _ _ = inr (refl, λ h. cc)

  tells_items :
      (vs ws : Values)
      → Tells (match_items (normalize_items vs) (normalize_items ws)) (AreMatched vs ws)
  tells_items none_left none_left = inl (refl, refl)
  tells_items none_left (item w ws) = inr (refl, λ h. cc)
  tells_items (item v vs) none_left = inr (refl, λ (x, xs, same, part, parts). cc)
  tells_items (item v vs) (item w ws) =
      tells_iff _
        (
          (λ h. (w, ws, refl, h.0, h.1)),
          (λ (x, xs, same, part, parts).
              let e : w ≡ x = cc in
              let es : ws ≡ xs = cc in
              (subst (IsMatched v) (sym e) part, subst (AreMatched vs) (sym es) parts)),
        )
        (tells_and _ _ (tells_part v w) (tells_items vs ws))

  tells_fields :
      (fs gs : Fields)
      → Tells (match_fields (normalize_fields fs) (normalize_fields gs)) (AreWithin fs gs)
  tells_fields no_fields gs = inl (refl, tt)
  tells_fields (field k v fs) gs =
      tells_and _ _ (tells_entry k v (normalize v) gs (λ x. tells_part v x)) (tells_fields fs gs)
