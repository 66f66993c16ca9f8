-- ===== src/Http/RoundTrip.antt =====
-- server/src/http/cookies.ts: what the browser sends back of a session cookie is read as its token.
use cargo_execution_assistan.Prelude.{
  ℕ, ◌≡◌, refl, ap, ◌∙◌, true, false, not, ◌&&◌, Option, some, List, [], ◌∷◌, ◌++◌, All, arith,
  append_assoc, ◌==◌,
}
use cargo_execution_assistan.Text.{Text, codes, trim, is_space}
use cargo_execution_assistan.Text.Laws.{trim-clean}
use cargo_execution_assistan.Text.Map.{get}
use cargo_execution_assistan.Http.{WebRuntime, AppConfig}
use cargo_execution_assistan.Http.Cookies.{
  session_cookie_name, cons_first, split_on, decoded, cookie_pair, parse_cookies, join_parts,
  cookie_attributes, build_session_cookie, add_pairs, with_pair,
}

-- No separator and no space: what `encodeURIComponent` writes.
abbrev pub IsPlain : Text → Type 0
IsPlain s = All (λ c. (not (c == b';') && not (is_space c)) ≡ true) s

trim-IsPlain : (s : Text) → IsPlain s → trim s ≡ s
trim-IsPlain s h = trim-clean s (clean s h)
  where
    clean : (t : Text) → IsPlain t → All (λ c. is_space c ≡ false) t
    clean [] h = tt
    clean (c ∷ t) h = (ground (arith, h.0), clean t h.1)

-- The first part of a text, up to the separator.
abbrev pub first_part : List Text → Text
first_part [] = []
first_part (part ∷ parts) = part

split-IsPlain : (s : Text) → IsPlain s → split_on b';' s ≡ s ∷ []
split-IsPlain [] h = refl
split-IsPlain (c ∷ s) h =
    let other : (c == b';') ≡ false = ground (arith, h.0) in
    rw (other, split_on) (ap (cons_first c) (split-IsPlain s h.1))

first_part-cons_first :
    (c : ℕ) (parts : List Text) → first_part (cons_first c parts) ≡ c ∷ first_part parts
first_part-cons_first c [] = refl
first_part-cons_first c (part ∷ parts) = refl

first_part-split : (s rest : Text) → IsPlain s → first_part (split_on b';' (s ++ b';' ∷ rest)) ≡ s
first_part-split [] rest h = refl
first_part-split (c ∷ s) rest h =
    let other : (c == b';') ≡ false = ground (arith, h.0) in
    rw (other, split_on)
      (first_part-cons_first c (split_on b';' (s ++ b';' ∷ rest))
        ∙ ap (λ t. c ∷ t) (first_part-split s rest h.1))

-- The header that the browser sends while it has one cookie: the name and the value alone.
abbrev pub sent_back : Text → Option Text
sent_back set_cookie = some (first_part (split_on b';' set_cookie))

module _ (runtime : WebRuntime) (config : AppConfig) (token : Text) where
  abbrev pair : Text
  pair = session_cookie_name ++ b'=' ∷ runtime.encode_uri_component token

  pair-IsPlain : IsPlain (runtime.encode_uri_component token) → IsPlain pair
  pair-IsPlain h = ground arith

  cookie_pair-pair :
      IsPlain (runtime.encode_uri_component token)
      → runtime.decode_uri_component (runtime.encode_uri_component token) ≡ some token
      → cookie_pair runtime pair ≡ some (session_cookie_name, token)
  unfolding cookie_pair
  cookie_pair-pair plain back =
      rw (trim-IsPlain session_cookie_name (ground arith), cookie_pair)
        (rw (trim-IsPlain (runtime.encode_uri_component token) plain, cookie_pair)
          (rw (back, decoded) refl))

  sent_pair :
      IsPlain (runtime.encode_uri_component token)
      → sent_back (build_session_cookie runtime token config) ≡ some pair
  unfolding build_session_cookie
  sent_pair plain =
      let rest = join_parts (cookie_attributes config []) in
      ap (λ t. some (first_part (split_on b';' t))) (append_assoc pair (codes "; ") rest)
      ∙ ap some (first_part-split pair (b' ' ∷ rest) (pair-IsPlain plain))

  parsed_pair :
      IsPlain (runtime.encode_uri_component token)
      → parse_cookies runtime (some pair) ≡ add_pairs runtime (split_on b';' pair) []
  unfolding parse_cookies
  parsed_pair plain = rw (trim-IsPlain pair (pair-IsPlain plain), parse_cookies) refl

  -- What the browser returns of the cookie of a token reads as that token under the session's name,
  -- in every profile, where the runtime decodes what it encodes and encodes without spaces and
  -- semicolons.
  pub parse_cookies-build_session_cookie :
      IsPlain (runtime.encode_uri_component token)
      → runtime.decode_uri_component (runtime.encode_uri_component token) ≡ some token
      → get session_cookie_name
          (parse_cookies runtime (sent_back (build_session_cookie runtime token config)))
        ≡ some token
  parse_cookies-build_session_cookie plain back =
      ap (λ h. get session_cookie_name (parse_cookies runtime h)) (sent_pair plain)
      ∙ (ap (get session_cookie_name) (parsed_pair plain)
          ∙ (ap (λ parts. get session_cookie_name (add_pairs runtime parts []))
                (split-IsPlain pair (pair-IsPlain plain))
              ∙ ap (λ p. get session_cookie_name (with_pair p [])) (cookie_pair-pair plain back)))
