-- ===== src/Base/Calendar.antt =====
-- `time.Time.AddDate(0, n, 0)` in UTC, for n ≥ 0, on nanoseconds since 1 January of the year 1.
use Prim.Native.Nat.{ℕ, zero, suc, ◌+◌, ◌-◌, ◌*◌, ◌/◌, ◌%◌, min}
use mathlib.Core.Bool.{Bool, ◌&&◌, ◌||◌, not}
use mathlib.Core.List.{List, [], ◌∷◌}
use stable_bank.Base.Tests.{ltb, ◌==◌, if◌then◌else◌}

abbrev pub day_length : ℕ
day_length = 86400000000000

abbrev days_before_year : ℕ → ℕ
days_before_year y = let p = y - 1 in 365 * p + p / 4 - p / 100 + p / 400

abbrev is_leap : ℕ → Bool
is_leap y = (y % 4 == 0) && not (y % 100 == 0) || (y % 400 == 0)

abbrev month_lengths : ℕ → List ℕ
month_lengths y =
    31 ∷ (if is_leap y then 29 else 28) ∷ 31 ∷ 30 ∷ 31 ∷ 30 ∷ 31 ∷ 31 ∷ 30 ∷ 31 ∷ 30 ∷ 31 ∷ []

abbrev days_before_month : List ℕ → ℕ → ℕ
days_before_month ms zero = 0
days_before_month [] (suc m) = 0
days_before_month (d ∷ ms) (suc m) = d + days_before_month ms m

-- The month, from 0, and the day in it, from 0, of a day of the year.
abbrev month_and_day : List ℕ → ℕ → ℕ × ℕ
month_and_day [] n = (0, n)
month_and_day (d ∷ ms) n =
    let (m, rest) = month_and_day ms (n - d) in if ltb n d then (0, n) else (suc m, rest)

-- The year, and the day in it, from 0.
abbrev year_and_day : ℕ → ℕ × ℕ
year_and_day n =
    let r400 = n % 146097 in
    let n100 = min 3 (r400 / 36524) in
    let r100 = r400 - n100 * 36524 in
    let r4 = r100 % 1461 in
    let n1 = min 3 (r4 / 365) in
    (400 * (n / 146097) + 100 * n100 + 4 * (r100 / 1461) + n1 + 1, r4 - n1 * 365)

-- A day past the end of the month runs over into the next one, as Go normalizes it.
unfoldable pub add_months : ℕ → ℕ → ℕ
add_months n t =
    let (y, day) = year_and_day (t / day_length) in
    let (m, d) = month_and_day (month_lengths y) day in
    let y' = y + (m + n) / 12 in
    let days = days_before_year y' + days_before_month (month_lengths y') ((m + n) % 12) + d in
    days * day_length + t % day_length
