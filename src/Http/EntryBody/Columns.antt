-- ===== src/Http/EntryBody/Columns.antt =====
-- server/src/http/routes/entries.ts: the numbers that are accepted fit the columns of
-- 0002_entries.sql.
use cargo_execution_assistan.Prelude.{
  ℕ, ◌+◌, ◌-◌, ◌*◌, ◌^◌, ◌≤◌, ◌<◌, ◌≡◌, refl, sym, ap, ◌∙◌, subst, inl, inr, Bool, true, false,
  ◌||◌, Option, none, some, String, List, [], ◌∷◌, Result, ok, err, All, length, ltb, arith,
  Bool-cases, >>=-eq-ok, ok_inj, ◌==◌, ==_iff, Option-cases,
}
use cargo_execution_assistan.Text.{Text, is_digit, is_space, trim}
use cargo_execution_assistan.Text.Laws.{trim-clean}
use cargo_execution_assistan.Validation.Entry.{CanonicalEntryRecord}
use cargo_execution_assistan.Http.EntryBody.{
  Numericish, ErrorDetail, split_digits, without_sign, whole_digits, fraction, ParsedBody,
  coerce_numerics, both, collapse, canonicalise, submission, groups, decimal_shape, strip_zeros,
  max_decimals, numeric_text, check_digits, check_numeric, coerce_numeric,
}
use native.Mathlib.Nat.{pow-succ', pow-le-pow_right}

-- The number that digits denote.
abbrev pub int_value : Text → ℕ
int_value [] = 0
int_value (c ∷ s) = let rest = int_value s in (c - b'0') * 10 ^ length s + rest

-- A text of digits, with a point or not, whose value has less than 14 - d digits before the point and
-- at most d behind it: numeric(14, d) holds it without overflow and without rounding.
abbrev pub IsColumnValue : ℕ → Text → Type 0
IsColumnValue d s =
    (int : Text) × (frac : Text) × (decimal_shape s ≡ some (int, frac))
    × (int_value int < 10 ^ (14 - d))
    × (length frac ≤ d)

no_digits : (p x : ℕ) → x ≡ (b'0' - b'0') * p + x
no_digits p x = omega arith

strip_zeros-value : (s : Text) → int_value (strip_zeros s) ≡ int_value s
strip_zeros-value [] = refl
strip_zeros-value (c ∷ []) = refl
strip_zeros-value (c ∷ d ∷ s) = elim (Bool-cases (c == b'0')) [
  | inl is_zero ↦
      let same : c ≡ b'0' = (==_iff c b'0').0 is_zero in
      rw (is_zero, strip_zeros)
        (strip_zeros-value (d ∷ s) ∙ rw same (no_digits (10 ^ length (d ∷ s)) (int_value (d ∷ s))))
  | inr other ↦ rw (other, strip_zeros) refl
]

abbrev Digits : Text → Type 0
Digits s = All (λ c. is_digit c ≡ true) s

digit_bound : (k p v : ℕ) → k ≤ 9 → v < p → k * p + v < 10 * p
digit_bound k p v h l = grind arith

int_value-lt : (s : Text) → Digits s → int_value s < 10 ^ length s
int_value-lt [] h = omega arith
int_value-lt (c ∷ s) (first, rest) =
    let below : c - b'0' ≤ 9 = ground (arith, first) in
    let later = int_value-lt s rest in
    rw (pow-succ' 10 (length s)) (digit_bound (c - b'0') (10 ^ length s) (int_value s) below later)

split_digits-Digits : (s : Text) → Digits (split_digits s).0
split_digits-Digits [] = tt
split_digits-Digits (c ∷ s) = elim (Bool-cases (is_digit c)) [
  | inl digit ↦ rw (digit, split_digits) (digit, split_digits-Digits s)
  | inr other ↦ rw (other, split_digits) tt
]

strip_zeros-Digits : (s : Text) → Digits s → Digits (strip_zeros s)
strip_zeros-Digits [] h = tt
strip_zeros-Digits (c ∷ []) h = h
strip_zeros-Digits (c ∷ d ∷ s) (first, rest) = elim (Bool-cases (c == b'0')) [
  | inl is_zero ↦ rw (is_zero, strip_zeros) (strip_zeros-Digits (d ∷ s) rest)
  | inr other ↦ rw (other, strip_zeros) (first, rest)
]

power_mono : (n m : ℕ) → n ≤ m → 10 ^ n ≤ 10 ^ m
power_mono n m h = pow-le-pow_right (omega arith) h

groups-Digits :
    (front rest int frac : Text)
    → Digits front
    → groups (front, rest) ≡ some (int, frac)
    → Digits int
groups-Digits [] rest int frac digits h = cc
groups-Digits (d ∷ front) rest int frac digits h = elim (Option-cases (fraction rest)) [
  | inl missing ↦ let h' = rw (missing, groups) at h in cc
  | inr (f, found) ↦
      let h' = rw (found, groups) at h in
      let same : d ∷ front ≡ int = cc in subst Digits same digits
]

check_digits-bound :
    (field : Bool) (s int frac : Text) (v : Option Text)
    → Digits int
    → check_digits field s (int, frac) ≡ ok v
    → (v ≡ some s)
      × (int_value int < 10 ^ (14 - max_decimals field))
      × (length frac ≤ max_decimals field)
unfolding check_digits
check_digits-bound field s int frac v digits h =
    let wide =
      ltb (14 - max_decimals field) (length (strip_zeros int))
      || ltb 14 (length (strip_zeros int) + length frac) in
    elim (Bool-cases wide) [
      | inl e ↦ let h' = rw (e, check_digits) at h in cc
      | inr e ↦ elim (Bool-cases (ltb (max_decimals field) (length frac))) [
        | inl long ↦ let h' = rw (e, check_digits) at h in let h'' = rw long at h' in cc
        | inr fits ↦
            let h' = rw (e, check_digits) at h in
            let h'' = rw fits at h' in
            let narrow : length (strip_zeros int) ≤ 14 - max_decimals field = ground (arith, e) in
            let value = int_value-lt (strip_zeros int) (strip_zeros-Digits int digits) in
            let bound = power_mono (length (strip_zeros int)) (14 - max_decimals field) narrow in
            (
              sym (ok_inj h''),
              subst (λ n. n < 10 ^ (14 - max_decimals field)) (strip_zeros-value int)
                  (omega (arith, value, bound)),
              ground (arith, fits),
            )
      ]
    ]

check_numeric-IsColumnValue :
    (field : Bool) (t s : Text)
    → check_numeric field t ≡ ok (some s)
    → IsColumnValue (max_decimals field) s
unfolding check_numeric
check_numeric-IsColumnValue field [] s h = cc
check_numeric-IsColumnValue field (c ∷ t) s h = elim (Option-cases (decimal_shape (c ∷ t))) [
  | inl missing ↦ let h' = rw (missing, check_numeric) at h in cc
  | inr ((int, frac), found) ↦
      let h' = rw (found, check_numeric) at h in
      let split = split_digits (without_sign (c ∷ t)) in
      let digits =
        groups-Digits split.0 split.1 int frac (split_digits-Digits (without_sign (c ∷ t))) found in
      let (same, bound, places) = check_digits-bound field (c ∷ t) int frac (some s) digits h' in
      let equal : c ∷ t ≡ s = cc in
      subst (IsColumnValue (max_decimals field)) equal (int, frac, found, bound, places)
]

coerce_numeric-IsColumnValue :
    (field : Bool) (raw : Option Numericish) (s : Text)
    → coerce_numeric field raw ≡ ok (some s)
    → IsColumnValue (max_decimals field) s
unfolding coerce_numeric
coerce_numeric-IsColumnValue field none s h = cc
coerce_numeric-IsColumnValue field (some raw) s h =
    let (t, shown, checked) = >>=-eq-ok (numeric_text field raw) _ h in
    check_numeric-IsColumnValue field t s checked

abbrev NoSpace : Text → Type 0
NoSpace s = All (λ c. is_space c ≡ false) s

digit-space : (c : ℕ) → is_digit c ≡ true → is_space c ≡ false
digit-space c h = ground arith

split_digits-NoSpace : (s : Text) → NoSpace (split_digits s).1 → NoSpace s
split_digits-NoSpace [] h = tt
split_digits-NoSpace (c ∷ s) h = elim (Bool-cases (is_digit c)) [
  | inl digit ↦ (digit-space c digit, split_digits-NoSpace s (rw (digit, split_digits) at h))
  | inr other ↦ rw (other, split_digits) at h
]

whole_digits-NoSpace : (front rest f : Text) → whole_digits (front, rest) ≡ some f → NoSpace rest
whole_digits-NoSpace [] rest f h = cc
whole_digits-NoSpace (d ∷ front) [] f h = tt
whole_digits-NoSpace (d ∷ front) (c ∷ rest) f h = cc

fraction-NoSpace : (s f : Text) → fraction s ≡ some f → NoSpace s
fraction-NoSpace [] f h = tt
fraction-NoSpace (c ∷ s) f h = elim (Bool-cases (c == b'.')) [
  | inl point ↦
      let same : c ≡ b'.' = (==_iff c b'.').0 point in
      let split = split_digits s in
      (
        rw same refl,
        split_digits-NoSpace s (whole_digits-NoSpace split.0 split.1 f (rw (point, fraction) at h)),
      )
  | inr other ↦ let h' = rw (other, fraction) at h in cc
]

groups-NoSpace :
    (front rest : Text) (g : Text × Text) → groups (front, rest) ≡ some g → NoSpace rest
groups-NoSpace [] rest g h = cc
groups-NoSpace (d ∷ front) rest g h = elim (Option-cases (fraction rest)) [
  | inl missing ↦ let h' = rw (missing, groups) at h in cc
  | inr (f, found) ↦ fraction-NoSpace rest f found
]

without_sign-NoSpace : (s : Text) → NoSpace (without_sign s) → NoSpace s
without_sign-NoSpace [] h = tt
without_sign-NoSpace (c ∷ s) h = elim (Bool-cases (c == b'-')) [
  | inl minus ↦
      let same : c ≡ b'-' = (==_iff c b'-').0 minus in (rw same refl, rw (minus, without_sign) at h)
  | inr other ↦ rw (other, without_sign) at h
]

decimal_shape-trim : (s : Text) (g : Text × Text) → decimal_shape s ≡ some g → trim s ≡ s
decimal_shape-trim s g h =
    let split = split_digits (without_sign s) in
    trim-clean s (
      without_sign-NoSpace s
        (split_digits-NoSpace (without_sign s) (groups-NoSpace split.0 split.1 g h)))

collapse-IsColumnValue :
    (d : ℕ) (v : Option Text) (s : Text)
    → ((t : Text) → v ≡ some t → IsColumnValue d t)
    → collapse v ≡ some s
    → IsColumnValue d s
unfolding collapse
collapse-IsColumnValue d none s fits h = cc
collapse-IsColumnValue d (some []) s fits h = let (int, frac, shape, _, _) = fits [] refl in cc
collapse-IsColumnValue d (some (c ∷ t)) s fits h =
    let value = fits (c ∷ t) refl in
    let (int, frac, shape, _, _) = value in
    let h' = rw (decimal_shape-trim (c ∷ t) (int, frac) shape, collapse) at h in
    let same : c ∷ t ≡ s = cc in subst (IsColumnValue d) same value

both-ok :
    {A : Type 0} (r q : Result ErrorDetail A) (a b : A)
    → both r q ≡ ok (a, b)
    → (r ≡ ok a) × (q ≡ ok b)
both-ok (ok x) (ok y) a b h = (ap ok (ap (λ p. p.0) (ok_inj h)), ap ok (ap (λ p. p.1) (ok_inj h)))
both-ok (ok x) (err e) a b h = cc
both-ok (err d) (ok y) a b h = cc
both-ok (err d) (err e) a b h = cc

-- Every quantity and every declared value of a submission that the route hands to the receipt fits its
-- column, numeric(14,3) and numeric(14,2), without overflow and without rounding.
pub submission-IsColumnValue :
    (parsed : ParsedBody) (submitted : CanonicalEntryRecord) (provided : List String)
    → submission parsed ≡ ok (submitted, provided)
    → ((s : Text) → submitted.quantity ≡ some s → IsColumnValue 3 s)
      × ((s : Text) → submitted.declared_value_usd ≡ some s → IsColumnValue 2 s)
unfolding submission coerce_numerics canonicalise
submission-IsColumnValue parsed submitted provided h =
    let ((q, v), coerced, done) = >>=-eq-ok (coerce_numerics parsed) _ h in
    let (quantity, value) =
      both-ok (coerce_numeric true parsed.quantity) (coerce_numeric false parsed.declared_value_usd)
        q v coerced in
    let same : canonicalise parsed q v ≡ submitted = ap (λ p. p.0) (ok_inj done) in
    (
      λ s e.
          collapse-IsColumnValue 3 q s
            (λ t f. coerce_numeric-IsColumnValue true parsed.quantity t (quantity ∙ ap ok f))
            (ap (λ r. r.quantity) same ∙ e),
      λ s e.
          collapse-IsColumnValue 2 v s
            (λ t f.
              coerce_numeric-IsColumnValue false parsed.declared_value_usd t (value ∙ ap ok f))
            (ap (λ r. r.declared_value_usd) same ∙ e),
    )
