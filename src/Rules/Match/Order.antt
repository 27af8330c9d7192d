-- ===== src/Rules/Match/Order.antt =====
-- Outputs that match one another, one after the other (internal/rules/match.go).
use stable_bank.Base.{
  ◌≡◌, refl, String, Bool, true, ◌&&◌, str_eq, eq_iff, Bool-cases, inl, inr, arith, subst,
}
use stable_bank.Base.Int.{ℤ}
use stable_bank.Base.Int64.{eq_ℤ}
use stable_bank.Value.{
  Value, null, flag, number, float, text, sequence, mapping, Values, none_left, item, Fields,
  no_fields, field, get, has_key,
}
use stable_bank.Rules.Match.{
  same_flag, match_subset, match_items, match_fields, match_expected, normalize_fields,
}

both-true : (a b : Bool) → a ≡ true → b ≡ true → (a && b) ≡ true
both-true a b p q = ground arith

parts : (a b : Bool) → (a && b) ≡ true → (a ≡ true) × (b ≡ true)
parts a b h = ground arith

-- An entry of an object that is matched.
entry :
    (k : String) (gs hs : Fields)
    → match_fields gs hs ≡ true
    → has_key k gs ≡ true
    → (has_key k hs ≡ true) × (match_subset (get k gs) (get k hs) ≡ true)
unfolding match_fields has_key get
entry k no_fields hs m h = cc
entry k (field at v gs) hs m h = elim (Bool-cases (str_eq at k)) [
  | inl same ↦
      let e = (eq_iff at k).0 same in
      let (front, rest) = parts _ _ m in
      let (has, value) = parts _ _ front in
      rw same (
        subst (λ i. has_key i hs ≡ true) e has,
        subst (λ i. match_subset v (get i hs) ≡ true) e value,
      )
  | inr other ↦
      let rest = (parts (has_key at hs && match_subset v (get at hs)) _ m).1 in
      rw other (entry k gs hs rest (rw other at h))
]

same_flag_trans :
    (a b c : Bool) → same_flag a b ≡ true → same_flag b c ≡ true → same_flag a c ≡ true
same_flag_trans a b c p q = ground arith

eq_ℤ_trans : (a b c : ℤ) → eq_ℤ a b ≡ true → eq_ℤ b c ≡ true → eq_ℤ a c ≡ true
eq_ℤ_trans a b c p q = ground arith

str_eq_trans : (a b c : String) → str_eq a b ≡ true → str_eq b c ≡ true → str_eq a c ≡ true
str_eq_trans a b c p q = ground (arith, eq_iff a b, eq_iff b c, eq_iff a c)

mutual
  unfolding match_subset match_items match_fields

  subset_trans :
      (a b c : Value) → match_subset a b ≡ true → match_subset b c ≡ true → match_subset a c ≡ true
  subset_trans (mapping fs) (mapping gs) (mapping hs) p q = fields_trans fs gs hs p q
  subset_trans (sequence vs) (sequence ws) (sequence xs) p q = items_trans vs ws xs p q
  subset_trans null null c p q = q
  subset_trans (flag a) (flag b) (flag c) p q = same_flag_trans a b c p q
  subset_trans (number a) (number b) (number c) p q = eq_ℤ_trans a b c p q
  subset_trans (float a) (float b) (float c) p q = eq_ℤ_trans a b c p q
  subset_trans (text a) (text b) (text c) p q = str_eq_trans a b c p q
  subset_trans _ _ _ p q = cc

  items_trans :
      (vs ws xs : Values)
      → match_items vs ws ≡ true
      → match_items ws xs ≡ true
      → match_items vs xs ≡ true
  items_trans none_left none_left xs p q = q
  items_trans none_left (item w ws) xs p q = cc
  items_trans (item v vs) none_left xs p q = cc
  items_trans (item v vs) (item w ws) none_left p q = cc
  items_trans (item v vs) (item w ws) (item x xs) p q =
      let (head, tail) = parts _ _ p in
      let (head', tail') = parts _ _ q in
      both-true _ _ (subset_trans v w x head head') (items_trans vs ws xs tail tail')

  fields_trans :
      (fs gs hs : Fields)
      → match_fields fs gs ≡ true
      → match_fields gs hs ≡ true
      → match_fields fs hs ≡ true
  fields_trans no_fields gs hs p q = refl
  fields_trans (field k v fs) gs hs p q =
      let (front, rest) = parts _ _ p in
      let (has, value) = parts _ _ front in
      let (has', value') = entry k gs hs q has in
      both-true _ _ (both-true _ _ has' (subset_trans v (get k gs) (get k hs) value value'))
        (fields_trans fs gs hs rest q)

-- What an output matches in part, it matches as well in every output that matches it: expectations
-- that hold of a document hold of all that extend it.
pub match_expected_trans :
    (fs gs hs : Fields)
    → match_expected fs gs ≡ true
    → match_expected gs hs ≡ true
    → match_expected fs hs ≡ true
unfolding match_expected match_subset
match_expected_trans fs gs hs p q =
    fields_trans (normalize_fields fs) (normalize_fields gs) (normalize_fields hs) p q
