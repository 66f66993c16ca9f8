-- ===== src/Text/Encoding.antt =====
-- The encodings that the JavaScript runtime gives: UTF-8, `JSON.stringify` of a string, and
-- `Date.toISOString`.
use cargo_execution_assistan.Prelude.{
  ℕ, zero, suc, ◌+◌, ◌-◌, ◌*◌, ◌/◌, ◌%◌, Bool, ◌&&◌, ◌||◌, List, [], ◌∷◌, ◌++◌, length, ltb, ◌==◌,
  if◌then◌else◌,
}
use cargo_execution_assistan.Text.{Text, codes, decimal, in_range}
use cargo_execution_assistan.Validation.Calendar.{format_day}

-- The bytes of one code point.
abbrev pub utf8_point : ℕ → List ℕ
utf8_point c =
    if ltb c 0x80
    then c ∷ []
    else if ltb c 0x800
    then (0xc0 + c / 64) ∷ (0x80 + c % 64) ∷ []
    else if ltb c 0x10000
    then (0xe0 + c / 4096) ∷ (0x80 + c / 64 % 64) ∷ (0x80 + c % 64) ∷ []
    else (0xf0 + c / 262144) ∷ (0x80 + c / 4096 % 64) ∷ (0x80 + c / 64 % 64) ∷ (0x80 + c % 64) ∷ []

abbrev pub is_high : ℕ → Bool
is_high c = in_range 0xd800 0xdbff c

abbrev pub is_low : ℕ → Bool
is_low c = in_range 0xdc00 0xdfff c

-- The code points of a text; a surrogate without its partner stands for itself.
unfoldable pub code_points : Text → List ℕ
code_points [] = []
code_points (c ∷ []) = c ∷ []
code_points (c ∷ d ∷ s) =
    let paired = code_points s in
    let single = code_points (d ∷ s) in
    if is_high c && is_low d
    then (0x10000 + (c - 0xd800) * 1024 + (d - 0xdc00)) ∷ paired
    else c ∷ single

utf8_all : List ℕ → List ℕ
utf8_all [] = []
utf8_all (c ∷ cs) = utf8_point (if is_high c || is_low c then 0xfffd else c) ++ utf8_all cs

-- `Buffer.from(s, 'utf8')`: a lone surrogate becomes U+FFFD.
unfoldable pub utf8 : Text → List ℕ
unfolding utf8_all code_points
utf8 s = utf8_all (code_points s)

abbrev pub hex_digit : ℕ → ℕ
hex_digit n = if ltb n 10 then b'0' + n else b'a' + (n - 10)

-- `\uXXXX`
abbrev pub unicode_escape : ℕ → Text
unicode_escape c =
    b'\\'
    ∷ b'u'
    ∷ hex_digit (c / 4096 % 16)
    ∷ hex_digit (c / 256 % 16)
    ∷ hex_digit (c / 16 % 16)
    ∷ hex_digit (c % 16)
    ∷ []

-- What stands for a code unit that is not part of a surrogate pair.
abbrev pub escaped : ℕ → Text
escaped c =
    if c == 0x22
    then b'\\' ∷ 0x22 ∷ []
    else if c == 0x5c
    then b'\\' ∷ b'\\' ∷ []
    else if c == 8
    then codes "\\b"
    else if c == 9
    then codes "\\t"
    else if c == 10
    then codes "\\n"
    else if c == 12
    then codes "\\f"
    else if c == 13
    then codes "\\r"
    else if ltb c 32 || is_high c || is_low c
    then unicode_escape c
    else c ∷ []

escape_all : Text → Text
escape_all [] = []
escape_all (c ∷ []) = escaped c
escape_all (c ∷ d ∷ s) =
    let paired = escape_all s in
    let single = escape_all (d ∷ s) in
    if is_high c && is_low d then c ∷ d ∷ paired else escaped c ++ single

-- `JSON.stringify(s)`
unfoldable pub json_string : Text → Text
unfolding escape_all
json_string s = 0x22 ∷ (escape_all s ++ 0x22 ∷ [])

pad : ℕ → ℕ → Text
pad width n = zeros (width - length (decimal n)) (decimal n)
  where
    zeros : ℕ → Text → Text
    zeros zero s = s
    zeros (suc k) s = b'0' ∷ zeros k s

-- `toISOString` of a time in milliseconds since 1970, up to the year 9999.
unfoldable pub iso_string : ℕ → Text
unfolding pad format_day
iso_string ms =
    let s = ms / 1000 in
    format_day (719528 + s / 86400)
    ++ b'T'
      ∷ (pad 2 (s / 3600 % 24)
          ++ b':'
            ∷ (pad 2 (s / 60 % 60)
                ++ b':' ∷ (pad 2 (s % 60) ++ b'.' ∷ (pad 3 (ms % 1000) ++ b'Z' ∷ []))))
