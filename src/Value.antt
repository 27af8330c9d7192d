-- ===== src/Value.antt =====
-- A decoded YAML or JSON document, Go's `any`: rule contents, and the inputs of rule evaluators.
use stable_bank.Base.{String, Bool, true, false, str_eq, if◌then◌else◌}
use stable_bank.Base.Int.{ℤ}

-- `number` is an int or an int64; `float` is a float64, by its integer part.
mutual
  pub data Value : Type 0 where
    null : Value
    flag : Bool → Value
    number : ℤ → Value
    float : ℤ → Value
    text : String → Value
    sequence : Values → Value
    mapping : Fields → Value

  pub data Values : Type 0 where
    none_left : Values
    item : Value → Values → Values

  pub data Fields : Type 0 where
    no_fields : Fields
    field : String → Value → Fields → Fields

-- `m[key]`, nil for a missing key.
unfoldable pub get : String → Fields → Value
get key no_fields = null
get key (field k v fs) = if str_eq k key then v else get key fs

-- `_, ok := m[key]`
unfoldable pub has_key : String → Fields → Bool
has_key key no_fields = false
has_key key (field k v fs) = if str_eq k key then true else has_key key fs
