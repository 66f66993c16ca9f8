-- ===== src/Validation/Calendar.antt =====
-- The calendar part of server/src/services/validation/normalise.ts, with the days of ECMAScript's
-- `Date.UTC` and `getUTC…`, counted here from 0000-01-01.
pub mod Digits
pub mod Format
use cargo_execution_assistan.Prelude.{
  ℕ, zero, suc, ◌+◌, ◌-◌, ◌*◌, ◌/◌, ◌%◌, Bool, true, false, ◌&&◌, ◌||◌, not, Option, none, some,
  List, [], ◌∷◌, ◌++◌, Result, ok, err, ◌>>=◌, or_throw, length, take, drop, get_or, leb, ltb, ◌==◌,
  if◌then◌else◌, ℤ, shift,
}
use cargo_execution_assistan.Text.{Text, codes, is_digit, decimal, digits_value, Platform}
use cargo_execution_assistan.Text.Regex.{Regex, one, seq, char, times, matches}

-- `DAYS_IN_MONTH`
abbrev pub days_in_months : List ℕ
days_in_months = 31 ∷ 28 ∷ 31 ∷ 30 ∷ 31 ∷ 30 ∷ 31 ∷ 31 ∷ 30 ∷ 31 ∷ 30 ∷ 31 ∷ []

abbrev pub is_leap_year : ℕ → Bool
is_leap_year y = (y % 4 == 0 && not (y % 100 == 0)) || y % 400 == 0

-- `DAYS_IN_MONTH[m - 1] ?? 0`; the index -1 of the month 0 is out of range too.
unfoldable pub days_in_month : ℕ → ℕ → ℕ
days_in_month y m =
    if m == 2 && is_leap_year y then 29 else if m == 0 then 0 else get_or days_in_months (m - 1) 0

-- `^(\d{4})-(\d{2})-(\d{2})$`
abbrev pub date_form : Regex
date_form =
    seq (times 4 (one is_digit))
      (seq (char b'-') (seq (times 2 (one is_digit)) (seq (char b'-') (times 2 (one is_digit)))))

-- The three groups of the match as numbers.
unfoldable pub date_parts : Text → Option (ℕ × ℕ × ℕ)
unfolding matches digits_value
date_parts s =
    if matches date_form s
    then some (
      digits_value (take 4 s),
      digits_value (take 2 (drop 5 s)),
      digits_value (take 2 (drop 8 s)),
    )
    else none

-- The range checks of `isCalendarDate`.
unfoldable pub is_real_date : ℕ → ℕ → ℕ → Bool
unfolding days_in_month
is_real_date year month day =
    if ltb month 1 || ltb 12 month
    then false
    else if ltb day 1
    then false
    else leb day (days_in_month year month)

unfoldable pub is_calendar_date : Option Text → Bool
is_calendar_date none = false
is_calendar_date (some v) = elim (date_parts v) [
  | none ↦ false
  | some (year, month, day) ↦ is_real_date year month day
]

pub pad2 : ℕ → Text
unfolding decimal
pad2 n = if ltb n 10 then b'0' ∷ decimal n else decimal n

-- `s.padStart(k, '0')`, with the number of places still missing.
zeros : ℕ → Text → Text
zeros zero s = s
zeros (suc k) s = b'0' ∷ zeros k s

pub pad4 : ℕ → Text
unfolding decimal zeros
pad4 n = zeros (4 - length (decimal n)) (decimal n)

unfoldable pub format_date : ℕ → ℕ → ℕ → Text
unfolding pad2 pad4
format_date y m d = pad4 y ++ b'-' ∷ (pad2 m ++ b'-' ∷ pad2 d)

-- The days before the first of January.
abbrev pub days_before_year : ℕ → ℕ
days_before_year y = 365 * y + (y + 3) / 4 - (y + 99) / 100 + (y + 399) / 400

-- The days of the first `m` months.
days_before_month : ℕ → ℕ → ℕ
unfolding days_in_month
days_before_month y zero = 0
days_before_month y (suc m) = days_before_month y m + days_in_month y (suc m)

-- `Date.UTC(year, month - 1, day)` in days; a year below 100 counts from 1900, and a month outside
-- 1 … 12 carries into the year.
pub utc_day : ℕ → ℕ → ℕ → ℕ
unfolding days_before_month
utc_day year month day =
    let full = (if leb year 99 then 1900 + year else year) in
    let months = 12 * full + month - 1 in
    days_before_year (months / 12) + days_before_month (months / 12) (months % 12) + day - 1

-- The year that holds a day: from a year not after it, forward.
year_from : ℕ → ℕ → ℕ → ℕ
year_from zero y d = y
year_from (suc f) y d =
    let later = year_from f (suc y) d in if leb (days_before_year (suc y)) d then later else y

pub utc_year : ℕ → ℕ
unfolding year_from
utc_year d = year_from (suc d) (d / 366) d

-- The month and the day of the month of a day of the year.
month_from : ℕ → ℕ → ℕ → ℕ → ℕ × ℕ
month_from zero y m k = (m, k + 1)
month_from (suc f) y m k =
    let later = month_from f y (suc m) (k - days_in_month y m) in
    if ltb k (days_in_month y m) then (m, k + 1) else later

unfoldable pub format_day : ℕ → Text
unfolding utc_year month_from format_date days_in_month
format_day d =
    let y = utc_year d in
    let (m, k) = month_from 11 y 1 (d - days_before_year y) in format_date y m k

-- `addDaysUtc`. The shifted day lies in the range of `Date`: its year is at least 99.
unfoldable pub add_days_utc : Text → ℤ → Result Text Text
add_days_utc date n = elim (date_parts date) [
  | none ↦ err (codes "addDaysUtc: not a YYYY-MM-DD date: " ++ date)
  | some (year, month, day) ↦ ok (format_day (shift (utc_day year month day) n))
]

module _ (p : Platform) where
  unfoldable pub date_only_utc : Text → Result Text Text
  date_only_utc iso_timestamp = elim (p.utc_date iso_timestamp) [
    | none ↦ err (codes "dateOnlyUtc: not a valid RFC-3339 timestamp: " ++ iso_timestamp)
    | some (y, mo, da) ↦ ok (format_date y mo da)
  ]
