-- ===== src/Http/Cookies.antt =====
-- server/src/http/cookies.ts: parsing the `Cookie` header and writing the session cookie.
use cargo_execution_assistan.Prelude.{
  ℕ, Bool, true, false, Option, none, some, List, [], ◌∷◌, ◌++◌, ◌==◌,
}
use cargo_execution_assistan.Text.{Text, codes, trim}
use cargo_execution_assistan.Text.Map.{set}
use cargo_execution_assistan.Http.{WebRuntime, AppConfig, governed, demo_iframe}

abbrev pub session_cookie_name : Text
session_cookie_name = codes "cargoexec_sid"

-- Puts a code unit before the first part.
abbrev pub cons_first : ℕ → List Text → List Text
cons_first c [] = (c ∷ []) ∷ []
cons_first c (part ∷ parts) = (c ∷ part) ∷ parts

-- `s.split(separator)`, for a separator of one code unit.
abbrev pub split_on : ℕ → Text → List Text
split_on separator [] = [] ∷ []
split_on separator (c ∷ s) =
    let rest = split_on separator s in
    elim (c == separator) [ true ↦ [] ∷ rest | false ↦ cons_first c rest ]

-- What is before and after the first `=`; `none` where `indexOf` gives -1.
abbrev pub cut_equals : Text → Option (Text × Text)
cut_equals [] = none
cut_equals (c ∷ s) =
    let rest = cut_equals s in
    elim (c == b'=') [
      | true ↦ some ([], s)
      | false ↦ elim rest [ none ↦ none | some (before, after) ↦ some (c ∷ before, after) ]
    ]

-- `decodeURIComponent(raw)`, or `raw` where that throws.
abbrev pub decoded : WebRuntime → Text → Text
decoded runtime raw = elim (runtime.decode_uri_component raw) [ none ↦ raw | some value ↦ value ]

-- The name and value of one pair, where it has them.
unfoldable pub cookie_pair : WebRuntime → Text → Option (Text × Text)
cookie_pair runtime pair = elim (cut_equals pair) [
  | none ↦ none
  | some (before, after) ↦ elim (trim before) [
    | [] ↦ none
    | c ∷ name ↦ some (c ∷ name, decoded runtime (trim after))
  ]
]

abbrev pub with_pair : Option (Text × Text) → List (Text × Text) → List (Text × Text)
with_pair none out = out
with_pair (some (name, value)) out = set name value out

abbrev pub add_pairs : WebRuntime → List Text → List (Text × Text) → List (Text × Text)
add_pairs runtime [] out = out
add_pairs runtime (pair ∷ pairs) out =
    add_pairs runtime pairs (with_pair (cookie_pair runtime pair) out)

-- The result is read by the name of the session cookie alone.
unfoldable pub parse_cookies : WebRuntime → Option Text → List (Text × Text)
parse_cookies runtime none = []
parse_cookies runtime (some header) = elim (trim header) [
  | [] ↦ []
  | c ∷ s ↦ add_pairs runtime (split_on b';' header) []
]

abbrev pub same_site_and_secure : AppConfig → Text × Bool
same_site_and_secure config = elim config.session_cookie_profile [
  | demo_iframe ↦ (codes "None", true)
  | governed ↦ (codes "Lax", config.origin_is_https)
]

-- `parts.join('; ')`
abbrev pub join_parts : List Text → Text
join_parts [] = []
join_parts (part ∷ []) = part
join_parts (part ∷ next ∷ parts) = part ++ codes "; " ++ join_parts (next ∷ parts)

abbrev pub secure_part : Bool → List Text
secure_part true = codes "Secure" ∷ []
secure_part false = []

-- The attributes of the two cookies, with what is after `Path` and `SameSite`.
abbrev pub cookie_attributes : AppConfig → List Text → List Text
cookie_attributes config middle =
    codes "HttpOnly"
    ∷ codes "Path=/"
    ∷ (codes "SameSite=" ++ (same_site_and_secure config).0)
    ∷ (middle ++ secure_part (same_site_and_secure config).1)

unfoldable pub build_session_cookie : WebRuntime → Text → AppConfig → Text
build_session_cookie runtime token config = join_parts (
    (session_cookie_name ++ b'=' ∷ runtime.encode_uri_component token)
    ∷ cookie_attributes config [])

unfoldable pub build_cleared_session_cookie : AppConfig → Text
build_cleared_session_cookie config =
    join_parts
      ((session_cookie_name ++ b'=' ∷ []) ∷ cookie_attributes config (codes "Max-Age=0" ∷ []))
