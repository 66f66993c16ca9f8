-- ===== src/Validation/Calendar/Format.antt =====
-- server/src/services/validation/normalise.ts: the texts that `isCalendarDate` accepts are the dates
-- that the server writes.
use cargo_execution_assistan.Prelude.{
  ℕ, zero, suc, ◌-◌, ◌≤◌, ◌<◌, ◌≡◌, refl, sym, ◌∙◌, ◌≢◌, ◌%◌, ◌⊎◌, ◌==◌, ==_iff, leb, leb→le, ◌↔◌,
  inl, inr, true, List, [], ◌∷◌, some, arith, Bool-cases, Option-cases, All, get_or,
}
use cargo_execution_assistan.Text.{Text}
use cargo_execution_assistan.Text.Regex.{matches}
use cargo_execution_assistan.Validation.Calendar.{
  date_form, date_parts, is_real_date, is_calendar_date, format_date, days_in_month, days_in_months,
  is_leap_year,
}
use cargo_execution_assistan.Validation.Calendar.Digits.{
  format_date_lem, date_form_sound, date_form_complete, format_date-IsDateForm, value4_lem,
  value2_lem, digits4, digits2, is_digit-IsDigit,
}

-- The server reads back the dates that it writes.
pub date_parts-format_date :
    (y m d : ℕ) → y < 10000 → m < 100 → d < 100 → date_parts (format_date y m d) ≡ some (y, m, d)
unfolding date_parts
date_parts-format_date y m d hy hm hd =
    rw (date_form_complete (format_date y m d) (format_date-IsDateForm y m d hy hm hd)) (
      rw (format_date_lem y m d hy hm hd)
        (ground (arith, value4_lem y hy, value2_lem m hm, value2_lem d hd)))

-- A text that is read as a date is the one that the server writes for it.
pub format_date_of_date_parts :
    (s : Text) (y m d : ℕ)
    → date_parts s ≡ some (y, m, d)
    → (s ≡ format_date y m d) × (y < 10000) × (m < 100) × (d < 100)
unfolding date_parts
format_date_of_date_parts s y m d h = elim (Bool-cases (matches date_form s)) [
  | inl formed ↦
      let w = date_form_sound s formed in
      let h' = rw (formed, w.whole) at h in
      let (ha, (hb, (hc, (hd, (he, (hf, (hg, (hh, _)))))))) = w.digits in
      let (by, ya, yb, yc, yd) =
        digits4 w.a w.b w.c w.d y (is_digit-IsDigit _ ha) (is_digit-IsDigit _ hb)
          (is_digit-IsDigit _ hc) (is_digit-IsDigit _ hd) (ground arith) in
      let (bm, me, mf) =
        digits2 w.e w.f m (is_digit-IsDigit _ he) (is_digit-IsDigit _ hf) (ground arith) in
      let (bd, dg, dh) =
        digits2 w.g w.h d (is_digit-IsDigit _ hg) (is_digit-IsDigit _ hh) (ground arith) in
      (
        w.whole ∙ (rw (ya, yb, yc, yd, me, mf, dg, dh) refl ∙ sym (format_date_lem y m d by bm bd)),
        by,
        bm,
        bd,
      )
  | inr other ↦ ground arith
]

-- A date by the lengths of the months.
abbrev pub IsRealDate : ℕ → ℕ → ℕ → Type 0
IsRealDate y m d = (1 ≤ m) × (m ≤ 12) × (1 ≤ d) × (d ≤ days_in_month y m)

get_or-le : (n i : ℕ) (xs : List ℕ) → All (λ x. x ≤ n) xs → get_or xs i 0 ≤ n
get_or-le n i [] h = omega arith
get_or-le n zero (x ∷ xs) h = h.0
get_or-le n (suc i) (x ∷ xs) h = get_or-le n i xs h.1

pub days_in_month-le : (y m : ℕ) → days_in_month y m ≤ 31
unfolding days_in_month
days_in_month-le y m = ground (arith, get_or-le 31 (m - 1) days_in_months (omega arith))

is_real_date_iff : (y m d : ℕ) → (is_real_date y m d ≡ true) ↔ IsRealDate y m d
unfolding is_real_date
is_real_date_iff y m d =
    (λ h. (ground arith, ground arith, ground arith, ground arith), λ h. ground arith)

-- The leap years of the Gregorian calendar.
abbrev pub IsLeapYear : ℕ → Type 0
IsLeapYear y = (y % 4 ≡ 0) × ((y % 100 ≢ 0) ⊎ (y % 400 ≡ 0))

-- April, June, September and November.
abbrev pub IsShortMonth : ℕ → Type 0
IsShortMonth m = (m ≡ 4) ⊎ ((m ≡ 6) ⊎ ((m ≡ 9) ⊎ (m ≡ 11)))

-- A day of the Gregorian calendar: of the first 28 of its month, the 29th or 30th of a month that is
-- not February, the 31st of a long month, or 29 February of a leap year.
abbrev pub IsDayOf : ℕ → ℕ → ℕ → Type 0
IsDayOf y m d =
    (d ≤ 28)
    ⊎ (((d ≤ 30) × (m ≢ 2))
        ⊎ (((d ≡ 31) × (m ≢ 2) × ¬ IsShortMonth m) ⊎ ((d ≡ 29) × (m ≡ 2) × IsLeapYear y)))

abbrev pub IsGregorian : ℕ → ℕ → ℕ → Type 0
IsGregorian y m d = (1 ≤ m) × (m ≤ 12) × (1 ≤ d) × IsDayOf y m d

is_leap_year_iff : (y : ℕ) → (is_leap_year y ≡ true) ↔ IsLeapYear y
is_leap_year_iff y = elim (Bool-cases (y % 100 == 0)) [
  | inl e ↦ (
    λ h. (ground arith, inr (ground arith)),
    λ h. elim h.1 [ inl n ↦ absurd (n ((==_iff (y % 100) 0).0 e)) | inr q ↦ ground arith ],
  )
  | inr e ↦ (λ h. (ground arith, inl (λ q. ground arith)), λ h. ground arith)
]

-- What February has, and what the other months have.
data MonthKind (y m : ℕ) : Type 0 where
  long : m ≢ 2 → ¬ IsShortMonth m → days_in_month y m ≡ 31 → MonthKind y m
  short : m ≢ 2 → IsShortMonth m → days_in_month y m ≡ 30 → MonthKind y m
  leap : m ≡ 2 → IsLeapYear y → days_in_month y m ≡ 29 → MonthKind y m
  common : m ≡ 2 → ¬ IsLeapYear y → days_in_month y m ≡ 28 → MonthKind y m

february : (y : ℕ) → MonthKind y 2
unfolding days_in_month
february y = elim (Bool-cases (is_leap_year y)) [
  | inl e ↦ leap refl ((is_leap_year_iff y).0 e) (rw e refl)
  | inr e ↦ common refl (λ l. let e' = (is_leap_year_iff y).1 l in cc) (rw e refl)
]

kind_of : (y m : ℕ) → 1 ≤ m → m ≤ 12 → MonthKind y m
unfolding days_in_month
kind_of y zero a b = absurd (omega arith)
kind_of y (suc zero) a b = long (λ e. absurd (omega arith)) (λ s. ground arith) refl
kind_of y (suc (suc zero)) a b = february y
kind_of y (suc (suc (suc zero))) a b = long (λ e. absurd (omega arith)) (λ s. ground arith) refl
kind_of y (suc (suc (suc (suc zero)))) a b = short (λ e. absurd (omega arith)) (inl refl) refl
kind_of y (suc (suc (suc (suc (suc zero))))) a b =
    long (λ e. absurd (omega arith)) (λ s. ground arith) refl
kind_of y (suc (suc (suc (suc (suc (suc zero)))))) a b =
    short (λ e. absurd (omega arith)) (inr (inl refl)) refl
kind_of y (suc (suc (suc (suc (suc (suc (suc zero))))))) a b =
    long (λ e. absurd (omega arith)) (λ s. ground arith) refl
kind_of y (suc (suc (suc (suc (suc (suc (suc (suc zero)))))))) a b =
    long (λ e. absurd (omega arith)) (λ s. ground arith) refl
kind_of y (suc (suc (suc (suc (suc (suc (suc (suc (suc zero))))))))) a b =
    short (λ e. absurd (omega arith)) (inr (inr (inl refl))) refl
kind_of y (suc (suc (suc (suc (suc (suc (suc (suc (suc (suc zero)))))))))) a b =
    long (λ e. absurd (omega arith)) (λ s. ground arith) refl
kind_of y (suc (suc (suc (suc (suc (suc (suc (suc (suc (suc (suc zero))))))))))) a b =
    short (λ e. absurd (omega arith)) (inr (inr (inr refl))) refl
kind_of y (suc (suc (suc (suc (suc (suc (suc (suc (suc (suc (suc (suc zero)))))))))))) a b =
    long (λ e. absurd (omega arith)) (λ s. ground arith) refl
kind_of y (suc (suc (suc (suc (suc (suc (suc (suc (suc (suc (suc (suc (suc m))))))))))))) a b =
    absurd (omega arith)

MonthKind-IsDayOf : (y m d : ℕ) → MonthKind y m → d ≤ days_in_month y m → IsDayOf y m d
MonthKind-IsDayOf y m d (long a b same) e =
    let le : d ≤ 31 = rw same at e in
    elim (Bool-cases (leb d 30)) [
      | inl below ↦ inr (inl (leb→le d 30 below, a))
      | inr above ↦ inr (inr (inl (ground arith, a, b)))
    ]
MonthKind-IsDayOf y m d (short a b same) e = inr (inl (rw same at e, a))
MonthKind-IsDayOf y m d (leap a l same) e =
    let le : d ≤ 29 = rw same at e in
    elim (Bool-cases (leb d 28)) [
      | inl below ↦ inl (leb→le d 28 below)
      | inr above ↦ inr (inr (inr (ground arith, a, l)))
    ]
MonthKind-IsDayOf y m d (common a l same) e = inl (rw same at e)

IsDayOf-MonthKind : (y m d : ℕ) → MonthKind y m → IsDayOf y m d → d ≤ days_in_month y m
IsDayOf-MonthKind y m d (long a b same) e = rw same (ground arith)
IsDayOf-MonthKind y m d (short a b same) e = rw same (elim e [
  | inl h ↦ omega arith
  | inr (inl h) ↦ h.0
  | inr (inr (inl h)) ↦ absurd (h.2 b)
  | inr (inr (inr h)) ↦ omega (arith, h.0)
])
IsDayOf-MonthKind y m d (leap a l same) e = rw same (elim e [
  | inl h ↦ omega arith
  | inr (inl h) ↦ absurd (h.1 a)
  | inr (inr (inl h)) ↦ absurd (h.1 a)
  | inr (inr (inr h)) ↦ omega (arith, h.0)
])
IsDayOf-MonthKind y m d (common a l same) e = rw same (elim e [
  | inl h ↦ h
  | inr (inl h) ↦ absurd (h.1 a)
  | inr (inr (inl h)) ↦ absurd (h.1 a)
  | inr (inr (inr h)) ↦ absurd (l h.2)
])

IsRealDate-IsGregorian : (y m d : ℕ) → IsRealDate y m d ↔ IsGregorian y m d
IsRealDate-IsGregorian y m d = (
  λ (a, b, c, e). (a, b, c, MonthKind-IsDayOf y m d (kind_of y m a b) e),
  λ (a, b, c, e). (a, b, c, IsDayOf-MonthKind y m d (kind_of y m a b) e),
)

-- `isCalendarDate` accepts exactly the texts that the server writes for a day of the Gregorian
-- calendar in the years 0 to 9999.
pub is_calendar_date_iff :
    (v : Text)
    → (is_calendar_date (some v) ≡ true)
      ↔ ((y : ℕ) × (m : ℕ) × (d : ℕ) × (v ≡ format_date y m d) × (y < 10000) × IsGregorian y m d)
unfolding is_calendar_date
is_calendar_date_iff v = (
  λ h. elim (Option-cases (date_parts v)) [
    | inl missing ↦ let h' = rw (missing, is_calendar_date) at h in cc
    | inr ((y, m, d), found) ↦
        let (same, bound, _, _) = format_date_of_date_parts v y m d found in
        (
          y,
          m,
          d,
          same,
          bound,
          (IsRealDate-IsGregorian y m d).0
              ((is_real_date_iff y m d).0 (rw (found, is_calendar_date) at h)),
        )
  ],
  λ (y, m, d, same, bound, gregorian).
      let real = (IsRealDate-IsGregorian y m d).1 gregorian in
      rw
        (
          same,
          date_parts-format_date y m d bound (omega arith) (omega (arith, days_in_month-le y m)),
          is_calendar_date,
        )
        ((is_real_date_iff y m d).1 real),
)
