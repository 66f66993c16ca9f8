-- ===== src/Text.antt =====
-- JavaScript strings as lists of UTF-16 code units, with the operations that the server calls on
-- them: `===`, `<`, `trim`, `slice`, `padStart`, `String(n)`, `Number(digits)` and the classes of
-- its regular expressions. Case conversion is a parameter, see `Platform`.
pub mod Regex
pub mod Laws
pub mod Decimal
pub mod Encoding
pub mod Map
use Prim.Native.Char.{code}
use cargo_execution_assistan.Prelude.{
  ℕ, zero, suc, ◌+◌, ◌-◌, ◌*◌, ◌/◌, ◌%◌, ◌<◌, ◌≡◌, String, Bool, true, false, ◌&&◌, ◌||◌, not,
  Option, none, some, List, [], ◌∷◌, ◌++◌, map, leb, ltb, ◌==◌, if◌then◌else◌, keep_if,
}

abbrev pub Text : Type 0
Text = List ℕ

-- The code units of a literal whose characters lie in the basic plane.
abbrev pub codes : String → Text
codes String.[] = []
codes (String.◌∷◌ c s) = code c ∷ codes s

-- `a === b`
abbrev pub text_eq : Text → Text → Bool
text_eq [] [] = true
text_eq [] (_ ∷ _) = false
text_eq (_ ∷ _) [] = false
text_eq (a ∷ s) (b ∷ t) = a == b && text_eq s t

-- `a < b`, by code units.
abbrev pub text_lt : Text → Text → Bool
text_lt [] [] = false
text_lt [] (_ ∷ _) = true
text_lt (_ ∷ _) [] = false
text_lt (a ∷ s) (b ∷ t) = ltb a b || (a == b && text_lt s t)

-- `a <= b`
abbrev pub text_le : Text → Text → Bool
text_le a b = not (text_lt b a)

-- `set.has(v)` for a set of strings given as literals.
abbrev pub among : Text → List String → Bool
among v [] = false
among v (s ∷ ss) = text_eq v (codes s) || among v ss

abbrev pub in_range : ℕ → ℕ → ℕ → Bool
in_range lo hi c = leb lo c && leb c hi

-- `\d`, `[A-Z]` and `[a-z]`.
abbrev pub is_digit : ℕ → Bool
is_digit c = in_range b'0' b'9' c

abbrev pub is_upper : ℕ → Bool
is_upper c = in_range b'A' b'Z' c

abbrev pub is_lower : ℕ → Bool
is_lower c = in_range b'a' b'z' c

-- `\s`, which is also what `trim` removes: white space and line terminators of ECMAScript.
abbrev pub is_space : ℕ → Bool
is_space c =
    in_range 9 13 c
    || c == 32
    || c == 160
    || c == 0x1680
    || in_range 0x2000 0x200a c
    || c == 0x2028
    || c == 0x2029
    || c == 0x202f
    || c == 0x205f
    || c == 0x3000
    || c == 0xfeff

pub trim_start : Text → Text
trim_start [] = []
trim_start (c ∷ s) = let rest = trim_start s in elim (is_space c) [ true ↦ rest | false ↦ c ∷ s ]

-- Removes the longest suffix of members of a class.
unfoldable pub drop_trailing : (ℕ → Bool) → Text → Text
drop_trailing p [] = []
drop_trailing p (c ∷ s) = elim (drop_trailing p s) [
  | [] ↦ if p c then [] else c ∷ []
  | d ∷ t ↦ c ∷ d ∷ t
]

-- `v.trim()`
unfoldable pub trim : Text → Text
unfolding trim_start drop_trailing
trim s = drop_trailing is_space (trim_start s)

-- `String(n)`: the decimal digits, the fuel being a number above the value.
digits_from : ℕ → ℕ → Text → Text
digits_from zero n acc = acc
digits_from (suc f) n acc =
    let rest = digits_from f (n / 10) ((b'0' + n % 10) ∷ acc) in
    if n / 10 == 0 then (b'0' + n % 10) ∷ acc else rest

unfoldable pub decimal : ℕ → Text
unfolding digits_from
decimal n = digits_from (suc n) n []

-- `Number(s)` for a string of digits.
value_from : ℕ → Text → ℕ
value_from acc [] = acc
value_from acc (c ∷ s) = value_from (acc * 10 + (c - b'0')) s

unfoldable pub digits_value : Text → ℕ
unfolding value_from
digits_value s = value_from 0 s

-- The JavaScript runtime's operations that rest on Unicode tables or on the parser of dates.
pub record Platform : Type 0 where
  -- `v.toUpperCase()` and `v.toLowerCase()`
  pub to_upper : Text → Text
  pub to_lower : Text → Text
  -- The UTC year, month (from 1) and day of `new Date(v)`; `none` for an invalid date.
  pub utc_date : Text → Option (ℕ × ℕ × ℕ)
