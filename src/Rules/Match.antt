-- ===== src/Rules/Match.antt =====
-- `MatchExpected` of internal/rules/match.go: whether an example's expected output is a part of the
-- output that the evaluator gave. The description of the first difference is left out.
pub mod Order
pub mod Parts
use stable_bank.Base.{String, Bool, true, false, ◌&&◌, str_eq}
use stable_bank.Base.Int.{ℤ}
use stable_bank.Base.Int64.{eq_ℤ}
use stable_bank.Value.{
  Value, null, flag, number, float, text, sequence, mapping, Values, none_left, item, Fields,
  no_fields, field, get, has_key,
}

-- `normalizeJSON`: an integer comes back as a float64, which keeps whole numbers up to 2^53.
unfoldable mutual
  pub normalize : Value → Value
  normalize null = null
  normalize (flag b) = flag b
  normalize (number n) = float n
  normalize (float n) = float n
  normalize (text t) = text t
  normalize (sequence vs) = sequence (normalize_items vs)
  normalize (mapping fs) = mapping (normalize_fields fs)

  pub normalize_items : Values → Values
  normalize_items none_left = none_left
  normalize_items (item v vs) = item (normalize v) (normalize_items vs)

  pub normalize_fields : Fields → Fields
  normalize_fields no_fields = no_fields
  normalize_fields (field k v fs) = field k (normalize v) (normalize_fields fs)

abbrev pub same_flag : Bool → Bool → Bool
same_flag true b = b
same_flag false true = false
same_flag false false = true

-- `matchSubset`; the keys of an object are all tried, in some order, and lists of other lengths do
-- not match.
unfoldable mutual
  pub match_subset : Value → Value → Bool
  match_subset (mapping fs) (mapping gs) = match_fields fs gs
  match_subset (sequence vs) (sequence ws) = match_items vs ws
  match_subset null null = true
  match_subset (flag a) (flag b) = same_flag a b
  match_subset (number m) (number n) = eq_ℤ m n
  match_subset (float m) (float n) = eq_ℤ m n
  match_subset (text s) (text t) = str_eq s t
  match_subset _ _ = false

  pub match_items : Values → Values → Bool
  match_items none_left none_left = true
  match_items none_left (item w ws) = false
  match_items (item v vs) none_left = false
  match_items (item v vs) (item w ws) = match_subset v w && match_items vs ws

  pub match_fields : Fields → Fields → Bool
  match_fields no_fields gs = true
  match_fields (field k v fs) gs = has_key k gs && match_subset v (get k gs) && match_fields fs gs

unfoldable pub match_expected : Fields → Fields → Bool
match_expected expected actual =
    match_subset (mapping (normalize_fields expected)) (mapping (normalize_fields actual))
