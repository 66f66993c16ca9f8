-- ===== src/Validation/Normalise.antt =====
-- server/src/services/validation/normalise.ts: the comparison values of the rules. The calendar
-- functions are in Calendar.antt.
use cargo_execution_assistan.Prelude.{
  ℕ, ◌-◌, ◌*◌, ◌^◌, Bool, false, ◌&&◌, ◌||◌, not, Option, none, some, [], ◌∷◌, ◌++◌, length, take,
  leb, ltb, ◌==◌, if◌then◌else◌, keep_if,
}
use cargo_execution_assistan.Text.{
  Text, codes, is_digit, is_space, trim, drop_trailing, digits_value, Platform,
}
use cargo_execution_assistan.Text.Regex.{Regex, one, seq, char, at_least, optional, matches}

-- `trimOnly`
unfoldable pub trim_only : Option Text → Option Text
trim_only none = none
trim_only (some v) = some (trim v)

abbrev pub is_present : Option Text → Bool
is_present none = false
is_present (some v) = ltb 0 (length v)

unfoldable pub digits_only : Option Text → Text
digits_only none = []
digits_only (some v) = keep_if is_digit v

-- `v.replace(/\s+/g, ' ')`: a run of white space becomes one space.
collapse : Bool → Text → Text
collapse in_run [] = []
collapse in_run (c ∷ s) =
    let rest = collapse (is_space c) s in
    if is_space c then (if in_run then rest else b' ' ∷ rest) else c ∷ rest

-- `[.,;:!?]`
abbrev pub is_punctuation : ℕ → Bool
is_punctuation c = c == b'.' || c == b',' || c == b';' || c == b':' || c == b'!' || c == b'?'

module _ (p : Platform) where
  unfoldable pub upper_alnum : Option Text → Text
  upper_alnum none = []
  upper_alnum (some v) = keep_if (λ c. not (c == b'-' || is_space c)) (p.to_upper v)

  unfoldable pub upper_no_space : Option Text → Text
  upper_no_space none = []
  upper_no_space (some v) = keep_if (λ c. not (is_space c)) (p.to_upper v)

  unfoldable pub upper_keep_hyphen : Option Text → Text
  upper_keep_hyphen none = []
  upper_keep_hyphen (some v) = p.to_upper v

  unfoldable pub collapse_lower : Option Text → Text
  unfolding collapse trim drop_trailing
  collapse_lower none = []
  collapse_lower (some v) =
      trim (drop_trailing is_punctuation (collapse false (trim (p.to_lower v))))

-- A decimal literal: its sign, its digits without the point, and the number of them behind it.
pub record Number : Type 0 where
  pub negative : Bool
  pub mantissa : ℕ
  pub places : ℕ

-- `Number.isFinite(Number(s))`: below the largest double and half a unit of its last place.
unfoldable pub is_finite : Number → Bool
is_finite n = ltb n.mantissa ((2 ^ 1024 - 2 ^ 970) * 10 ^ n.places)

-- `Number(s) > 0`: the double is zero up to half of the smallest one, 2 ^ -1074.
unfoldable pub is_positive : Number → Bool
is_positive n = not n.negative && ltb (10 ^ n.places) (n.mantissa * 2 ^ 1075)

-- `^-?\d+(\.\d+)?$`
abbrev pub decimal_form : Regex
decimal_form =
    seq (optional (char b'-'))
      (seq (at_least 1 (one is_digit)) (optional (seq (char b'.') (at_least 1 (one is_digit)))))

-- `s.length - s.indexOf('.') - 1`, or 0 with no point.
abbrev pub places_after_point : Text → ℕ
places_after_point [] = 0
places_after_point (c ∷ s) = if c == b'.' then length s else places_after_point s

-- Whether the text begins with a minus sign.
abbrev pub is_negated : Text → Bool
is_negated [] = false
is_negated (c ∷ s) = c == b'-'

unfoldable pub parse_decimal : Option Text → Option Number
unfolding matches trim digits_value is_finite
parse_decimal none = none
parse_decimal (some v) =
    let s = trim v in
    let value : Number = record {
      negative = is_negated s;
      mantissa = digits_value (keep_if is_digit s);
      places = places_after_point s;
    } in
    if matches decimal_form s then (if is_finite value then some value else none) else none

-- `…` is one code unit.
unfoldable pub truncate60 : Option Text → Text
truncate60 none = []
truncate60 (some v) = if leb (length v) 60 then v else take 60 v ++ codes "…"
