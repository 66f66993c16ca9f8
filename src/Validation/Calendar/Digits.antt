-- ===== src/Validation/Calendar/Digits.antt =====
-- server/src/services/validation/normalise.ts: the digits of a date.
use cargo_execution_assistan.Prelude.{
  ℕ, ◌+◌, ◌*◌, ◌-◌, ◌/◌, ◌%◌, ◌≤◌, ◌<◌, ◌≡◌, refl, inl, inr, true, [], ◌∷◌, arith, Bool-cases, leb,
  length, All,
}
use cargo_execution_assistan.Text.{Text, is_digit}
use cargo_execution_assistan.Text.Decimal.{
  digit, units, tens, hundreds, thousands, decimal_one, decimal_two, decimal_three, decimal_four,
}
use cargo_execution_assistan.Text.Regex.{matches}
use cargo_execution_assistan.Text.Regex.Meaning.{matches_iff, times_sound, times_complete}
use cargo_execution_assistan.Validation.Calendar.{date_form, pad2, pad4, format_date}

pad2_lem : (n : ℕ) → n < 100 → pad2 n ≡ tens n ∷ units n ∷ []
unfolding pad2
pad2_lem n h = elim (Bool-cases (leb 10 n)) [
  | inl big ↦ ground (arith, decimal_two n)
  | inr small ↦ ground (arith, decimal_one n)
]

pad4_lem : (n : ℕ) → n < 10000 → pad4 n ≡ thousands n ∷ hundreds n ∷ tens n ∷ units n ∷ []
unfolding pad4
pad4_lem n h = elim (Bool-cases (leb 1000 n)) [
  | inl four ↦ rw (decimal_four n (ground arith) h) refl
  | inr less ↦ elim (Bool-cases (leb 100 n)) [
    | inl three ↦ rw (decimal_three n (ground arith) (ground arith)) (ground arith)
    | inr lesser ↦ elim (Bool-cases (leb 10 n)) [
      | inl two ↦ rw (decimal_two n (ground arith) (ground arith)) (ground arith)
      | inr one ↦ rw (decimal_one n (ground arith)) (ground arith)
    ]
  ]
]

pub format_date_lem :
    (y m d : ℕ)
    → y < 10000
    → m < 100
    → d < 100
    → format_date y m d
      ≡ thousands y
        ∷ hundreds y
        ∷ tens y
        ∷ units y
        ∷ b'-'
        ∷ tens m
        ∷ units m
        ∷ b'-'
        ∷ tens d
        ∷ units d
        ∷ []
unfolding format_date
format_date_lem y m d hy hm hd = rw (pad4_lem y hy, pad2_lem m hm, pad2_lem d hd)

-- What the ten code units of a date are.
pub record IsDateForm (s : Text) : Type 0 where
  pub a : ℕ
  pub b : ℕ
  pub c : ℕ
  pub d : ℕ
  pub e : ℕ
  pub f : ℕ
  pub g : ℕ
  pub h : ℕ
  pub whole : s ≡ a ∷ b ∷ c ∷ d ∷ b'-' ∷ e ∷ f ∷ b'-' ∷ g ∷ h ∷ []
  pub digits : All (λ k. is_digit k ≡ true) (a ∷ b ∷ c ∷ d ∷ e ∷ f ∷ g ∷ h ∷ [])

two_units : (s : Text) → length s ≡ 2 → (a : ℕ) × (b : ℕ) × (s ≡ a ∷ b ∷ [])
two_units (a ∷ b ∷ []) h = (a, b, refl)
two_units [] h = absurd (omega arith)
two_units (a ∷ []) h = absurd (omega arith)
two_units (a ∷ b ∷ c ∷ s) h = absurd (omega arith)

four_units :
    (s : Text) → length s ≡ 4 → (a : ℕ) × (b : ℕ) × (c : ℕ) × (d : ℕ) × (s ≡ a ∷ b ∷ c ∷ d ∷ [])
four_units (a ∷ b ∷ c ∷ d ∷ []) h = (a, b, c, d, refl)
four_units [] h = absurd (omega arith)
four_units (a ∷ []) h = absurd (omega arith)
four_units (a ∷ b ∷ []) h = absurd (omega arith)
four_units (a ∷ b ∷ c ∷ []) h = absurd (omega arith)
four_units (a ∷ b ∷ c ∷ d ∷ e ∷ s) h = absurd (omega arith)

pub date_form_sound : (s : Text) → matches date_form s ≡ true → IsDateForm s
date_form_sound s h =
    let (year, r1, e1, my, m1) = (matches_iff date_form s).0 h in
    let (dash1, r2, e2, (c1, ec1, d1), m2) = m1 in
    let (month, r3, e3, mm, m3) = m2 in
    let (dash2, day, e4, (c2, ec2, d2), md) = m3 in
    let (ly, ay) = times_sound 4 is_digit year my in
    let (lm, am) = times_sound 2 is_digit month mm in
    let (ld, ad) = times_sound 2 is_digit day md in
    let (a, b, c, d, ey) = four_units year ly in
    let (e, f, em) = two_units month lm in
    let (g, h', ed) = two_units day ld in
    let ay' = rw ey at ay in
    let am' = rw em at am in
    let ad' = rw ed at ad in
    record {
      a = a;
      b = b;
      c = c;
      d = d;
      e = e;
      f = f;
      g = g;
      h = h';
      whole = rw (e1, ey, e2, ec1, e3, em, e4, ec2, ed) (ground arith);
      digits = (
        ay'.0,
        (ay'.1.0, (ay'.1.1.0, (ay'.1.1.1.0, (am'.0, (am'.1.0, (ad'.0, (ad'.1.0, tt))))))),
      );
    }

pub date_form_complete : (s : Text) → IsDateForm s → matches date_form s ≡ true
date_form_complete s w =
    let (ha, (hb, (hc, (hd, (he, (hf, (hg, (hh, _)))))))) = w.digits in
    (matches_iff date_form s).1 (
      w.a ∷ w.b ∷ w.c ∷ w.d ∷ [],
      b'-' ∷ w.e ∷ w.f ∷ b'-' ∷ w.g ∷ w.h ∷ [],
      w.whole,
      times_complete is_digit (w.a ∷ w.b ∷ w.c ∷ w.d ∷ []) (ha, (hb, (hc, (hd, tt)))),
      (
        b'-' ∷ [],
        w.e ∷ w.f ∷ b'-' ∷ w.g ∷ w.h ∷ [],
        refl,
        (b'-', refl, refl),
        (
          w.e ∷ w.f ∷ [],
          b'-' ∷ w.g ∷ w.h ∷ [],
          refl,
          times_complete is_digit (w.e ∷ w.f ∷ []) (he, (hf, tt)),
          (
            b'-' ∷ [],
            w.g ∷ w.h ∷ [],
            refl,
            (b'-', refl, refl),
            times_complete is_digit (w.g ∷ w.h ∷ []) (hg, (hh, tt)),
          ),
        ),
      ),
    )

pub format_date-IsDateForm :
    (y m d : ℕ) → y < 10000 → m < 100 → d < 100 → IsDateForm (format_date y m d)
format_date-IsDateForm y m d hy hm hd = record {
  a = thousands y;
  b = hundreds y;
  c = tens y;
  d = units y;
  e = tens m;
  f = units m;
  g = tens d;
  h = units d;
  whole = format_date_lem y m d hy hm hd;
  digits = (
    is (y / 10 / 10 / 10),
    (is (y / 10 / 10), (is (y / 10), (is y, (is (m / 10), (is m, (is (d / 10), (is d, tt))))))),
  );
}
  where
    is : (k : ℕ) → is_digit (digit (k % 10)) ≡ true
    is k = ground arith

-- The number of four digits and of two, as the server adds it up.
abbrev pub value4 : ℕ → ℕ → ℕ → ℕ → ℕ
value4 a b c d = (((0 * 10 + (a - b'0')) * 10 + (b - b'0')) * 10 + (c - b'0')) * 10 + (d - b'0')

abbrev pub value2 : ℕ → ℕ → ℕ
value2 a b = (0 * 10 + (a - b'0')) * 10 + (b - b'0')

pub value4_lem : (n : ℕ) → n < 10000 → value4 (thousands n) (hundreds n) (tens n) (units n) ≡ n
value4_lem n h = omega arith

pub value2_lem : (n : ℕ) → n < 100 → value2 (tens n) (units n) ≡ n
value2_lem n h = omega arith

abbrev pub IsDigit : ℕ → Type 0
IsDigit c = (b'0' ≤ c) × (c ≤ b'9')

pub digits4 :
    (a b c d n : ℕ)
    → IsDigit a
    → IsDigit b
    → IsDigit c
    → IsDigit d
    → n ≡ value4 a b c d
    → (n < 10000) × (a ≡ thousands n) × (b ≡ hundreds n) × (c ≡ tens n) × (d ≡ units n)
digits4 a b c d n ha hb hc hd e = omega arith

pub digits2 :
    (a b n : ℕ) → IsDigit a → IsDigit b → n ≡ value2 a b → (n < 100) × (a ≡ tens n) × (b ≡ units n)
digits2 a b n ha hb e = omega arith

pub is_digit-IsDigit : (c : ℕ) → is_digit c ≡ true → IsDigit c
is_digit-IsDigit c h = ground arith
