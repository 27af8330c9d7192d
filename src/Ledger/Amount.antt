-- ===== src/Ledger/Amount.antt =====
-- Decimal amounts, internal/ledger/amount.go: formatMinor and parseDecimalToMinor, on the bytes of
-- their strings, with the parts of strconv and strings that they use.
use Prim.Native.Char.{code}
use Prim.Native.String.{◌++◌ as str_append}
use stable_bank.Base.{
  ℕ, zero, suc, ◌+◌, ◌-◌, ◌*◌, ◌/◌, ◌%◌, String, Bool, true, false, not, ◌&&◌, ◌||◌, Option, none,
  some, List, [], ◌∷◌, ◌++◌, ltb, leb, ◌==◌, length, take, drop, replicate, if◌then◌else◌, Result,
  ok, err, reverse,
}
use stable_bank.Base.Int.{ℤ, pos, negsuc}
use stable_bank.Base.Int64.{wrap64, sub64, half_mod}
use stable_bank.Ledger.Types.{
  Amount, currency_of, LedgerError, invalid_amount, amount_overflow, unknown_currency,
}

abbrev pub Bytes : Type 0
Bytes = List ℕ

-- The bytes of an ASCII text.
abbrev pub codes : String → Bytes
codes String.[] = []
codes (String.◌∷◌ c s) = code c ∷ codes s

-- strconv.FormatInt of a number with at most `fuel` digits.
unfoldable pub digits : ℕ → ℕ → Bytes
digits zero n = []
digits (suc fuel) n =
    let more = digits fuel (n / 10) in
    if ltb n 10 then (b'0' + n) ∷ [] else more ++ (b'0' + n % 10) ∷ []

-- An int64 has at most nineteen digits.
abbrev pub max_digits : ℕ
max_digits = 20

unfoldable pub format_int : ℤ → Bytes
format_int (pos n) = digits max_digits n
format_int (negsuc n) = b'-' ∷ digits max_digits (suc n)

-- `for len(s) <= decimals { s = "0" + s }`, on fuel for its rounds.
unfoldable pub pad_left : ℕ → ℕ → Bytes → Bytes
pad_left zero decimals s = s
pad_left (suc fuel) decimals s =
    let longer = pad_left fuel decimals (b'0' ∷ s) in if leb (length s) decimals then longer else s

abbrev pub is_negative : ℤ → Bool
is_negative (pos n) = false
is_negative (negsuc n) = true

abbrev pub sign : Bool → Bytes → Bytes
sign neg s = if neg then b'-' ∷ s else s

unfoldable pub format_minor : ℤ → ℕ → Bytes
format_minor minor decimals =
    let neg = is_negative minor in
    let s = format_int (if neg then sub64 (pos 0) minor else minor) in
    if decimals == 0
    then sign neg s
    else (let padded = pad_left (decimals + 1) decimals s in
        let cut = length padded - decimals in sign neg (take cut padded ++ b'.' ∷ drop cut padded))

abbrev pub is_digit : ℕ → Bool
is_digit c = leb b'0' c && leb c b'9'

unfoldable pub all_digits : Bytes → Bool
all_digits [] = true
all_digits (c ∷ s) = is_digit c && all_digits s

abbrev pub is_nil : Bytes → Bool
is_nil [] = true
is_nil (c ∷ s) = false

-- `isDigits`
unfoldable pub is_digits : Bytes → Bool
is_digits s = not (is_nil s) && all_digits s

-- The ASCII characters that strings.TrimSpace cuts.
abbrev pub is_space : ℕ → Bool
is_space c = c == 32 || (leb 9 c && leb c 13)

unfoldable pub trim_left : Bytes → Bytes
trim_left [] = []
trim_left (c ∷ s) = if is_space c then trim_left s else c ∷ s

unfoldable pub trim_space : Bytes → Bytes
trim_space s = reverse (trim_left (reverse (trim_left s)))

-- The parts before and after the first '.'; all and nothing if there is none.
unfoldable pub split_point : Bytes → Bytes × Bytes
split_point [] = ([], [])
split_point (c ∷ s) =
    let (before, behind) = split_point s in if c == b'.' then ([], s) else (c ∷ before, behind)

-- strings.TrimLeft(s, "0")
unfoldable pub trim_zeros : Bytes → Bytes
trim_zeros [] = []
trim_zeros (c ∷ s) = if c == b'0' then trim_zeros s else c ∷ s

unfoldable pub value_from : ℕ → Bytes → ℕ
value_from acc [] = acc
value_from acc (c ∷ s) = value_from (acc * 10 + (c - b'0')) s

-- strconv.ParseInt of digits without a sign.
unfoldable pub parse_int : Bytes → Result LedgerError ℤ
parse_int s =
    let v = value_from 0 s in
    if not (is_digits s)
    then err invalid_amount
    else if ltb v half_mod
    then ok (pos v)
    else err amount_overflow

-- strconv.ParseInt(t, 10, 64)
abbrev signed_int : Bool → Bytes → Option ℤ
signed_int neg s =
    let v = value_from 0 s in
    if not (is_digits s)
    then none
    else if neg
    then (if leb v half_mod then some (sub64 (pos 0) (wrap64 (pos v))) else none)
    else (if ltb v half_mod then some (pos v) else none)

unfoldable pub parse_int64 : Bytes → Option ℤ
parse_int64 [] = none
parse_int64 (c ∷ s) =
    if c == b'-'
    then signed_int true s
    else if c == b'+'
    then signed_int false s
    else signed_int false (c ∷ s)

-- `for len(fracPart) < decimals { fracPart += "0" }`
abbrev pub pad_right : ℕ → Bytes → Bytes
pad_right decimals s = s ++ replicate (decimals - length s) b'0'

abbrev pub or_zero : Bytes → Bytes
or_zero s = if is_nil s then b'0' ∷ [] else s

-- What follows the sign.
unfoldable pub parse_unsigned : Bool → Bytes → ℕ → Result LedgerError ℤ
parse_unsigned neg s decimals =
    let (before, behind) = split_point s in
    let whole = or_zero before in
    if is_nil s || (is_nil before && is_nil behind)
    then err invalid_amount
    else if not (is_digits whole) || (not (is_nil behind) && not (is_digits behind))
    then err invalid_amount
    else if ltb decimals (length behind)
    then err invalid_amount
    else elim (parse_int (or_zero (trim_zeros (whole ++ pad_right decimals behind)))) [
      | err e ↦ err e
      | ok v ↦ ok (if neg then sub64 (pos 0) v else v)
    ]

-- The sign in front, if there is one.
unfoldable pub parse_signed : Bytes → ℕ → Result LedgerError ℤ
parse_signed [] decimals = err invalid_amount
parse_signed (c ∷ s) decimals =
    if c == b'+' || c == b'-'
    then parse_unsigned (c == b'-') s decimals
    else parse_unsigned false (c ∷ s) decimals

unfoldable pub parse_decimal : Bytes → ℕ → Result LedgerError ℤ
parse_decimal text decimals = parse_signed (trim_space text) decimals

-- A text of digits, point and sign as a string.
unfoldable pub text_of : Bytes → String
text_of [] = ""
text_of (c ∷ s) =
    str_append
      (if c == b'0'
        then "0"
        else if c == b'1'
        then "1"
        else if c == b'2'
        then "2"
        else if c == b'3'
        then "3"
        else if c == b'4'
        then "4"
        else if c == b'5'
        then "5"
        else if c == b'6'
        then "6"
        else if c == b'7'
        then "7"
        else if c == b'8'
        then "8"
        else if c == b'9'
        then "9"
        else if c == b'.'
        then "."
        else "-")
      (text_of s)

-- `Amount.Display`
unfoldable pub display : Amount → String
display a = elim (currency_of a.currency) [
  | none ↦ str_append (text_of (format_int a.minor)) (str_append " " a.currency)
  | some cur ↦ str_append (text_of (format_minor a.minor cur.decimals)) (str_append " " a.currency)
]

-- `ParseAmount`
unfoldable pub parse_amount : String → String → Result LedgerError Amount
parse_amount currency decimal = elim (currency_of currency) [
  | none ↦ err (unknown_currency currency)
  | some cur ↦ elim (parse_decimal (codes decimal) cur.decimals) [
    | err e ↦ err e
    | ok minor ↦ ok (record { currency = currency; minor = minor })
  ]
]
