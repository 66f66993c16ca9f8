-- ===== src/Http/Slashes.antt =====
-- server/src/http/csrf.middleware.ts: paths that end in a slash, which the router of Express takes for
-- the same route.
use cargo_execution_assistan.Prelude.{
  ℕ, ◌≡◌, refl, sym, ap, ◌∙◌, inl, inr, Bool, true, false, not, ◌&&◌, List, [], ◌∷◌, ◌++◌, map, ok,
  all, any, keep_if, either_way, append_assoc, arith, Bool-cases, ◌==◌, ==_iff, if◌then◌else◌,
}
use cargo_execution_assistan.Text.{Text, text_eq}
use cargo_execution_assistan.Text.Regex.{Regex, one, seq, char, literal, at_least, matches}
use cargo_execution_assistan.Text.Regex.Meaning.{Matches, Star, done, more, matches_iff}
use cargo_execution_assistan.Sessions.{Crypto}
use cargo_execution_assistan.Http.{WebRuntime, HttpRequest, RequestContext}
use cargo_execution_assistan.Http.Cookies.{split_on}
use cargo_execution_assistan.Http.Paths.{
  RouteRow, api_route_table, is_state_changing, segment_regexp, join_regexps, pattern_to_regexp,
  is_implemented_state_changing,
}
use cargo_execution_assistan.Http.Guards.{is_exempt, csrf_check}

-- The last code unit is there and is no slash.
abbrev EndsOpen : Text → Type 0
EndsOpen t = (u : Text) × (c : ℕ) × (t ≡ u ++ c ∷ []) × ((c == b'/') ≡ false)

-- Every match ends so.
abbrev Avoids : Regex → Type 0
Avoids r = (t : Text) → Matches r t → EndsOpen t

snoc-inj : (u v : Text) (c d : ℕ) → u ++ c ∷ [] ≡ v ++ d ∷ [] → c ≡ d
snoc-inj [] [] c d h = cc
snoc-inj [] (x ∷ []) c d h = cc
snoc-inj [] (x ∷ y ∷ v) c d h = cc
snoc-inj (x ∷ []) [] c d h = cc
snoc-inj (x ∷ y ∷ u) [] c d h = cc
snoc-inj (x ∷ u) (y ∷ v) c d h = snoc-inj u v c d cc

seq-Avoids : (r q : Regex) → Avoids q → Avoids (seq r q)
seq-Avoids r q avoids t (a, b, e, m, n) =
    let (u, c, e', h) = avoids b n in
    (a ++ u, c, e ∙ (ap (λ x. a ++ x) e' ∙ sym (append_assoc a u (c ∷ []))), h)

literal-Avoids : (c : ℕ) (s : Text) → Avoids (literal s) → Avoids (literal (c ∷ s))
literal-Avoids c s avoids = seq-Avoids (char c) (literal s) avoids

one_char-Avoids : (c : ℕ) → (c == b'/') ≡ false → Avoids (literal (c ∷ []))
one_char-Avoids c h t (a, b, e, (d, ea, hd), eb) = (
  [],
  c,
  e ∙ (ap (λ x. x ++ b) ea ∙ (ap (λ x. d ∷ x) eb ∙ ap (λ x. x ∷ []) ((==_iff d c).0 hd))),
  h,
)

abbrev not_slash : Regex
not_slash = one (λ d. not (d == b'/'))

Star-Avoids :
    (x : ℕ) (t : Text) → (x == b'/') ≡ false → Star (Matches not_slash) t → EndsOpen (x ∷ t)
Star-Avoids x t h (done e) = ([], x, ap (λ s. x ∷ s) e, h)
Star-Avoids x t h (more a u e (d, ea, hd) rest) =
    let (v, c, e', h') = Star-Avoids d u (ground arith) rest in
    (x ∷ v, c, ap (λ s. x ∷ s) (e ∙ (ap (λ s. s ++ u) ea ∙ e')), h')

param-Avoids : Avoids (at_least 1 not_slash)
param-Avoids t (a, b, e, (a1, a2, ea, (d, e1, hd), e2), rest) =
    let (v, c, e', h') = Star-Avoids d b (ground arith) rest in
    (v, c, (e ∙ ap (λ x. x ++ b) (ea ∙ (ap (λ x. x ++ a2) e1 ∙ ap (λ x. d ∷ x) e2))) ∙ e', h')

-- A literal that ends so.
abbrev ends_open : Text → Bool
ends_open [] = false
ends_open (c ∷ []) = not (c == b'/')
ends_open (c ∷ d ∷ s) = ends_open (d ∷ s)

ends_open-Avoids : (s : Text) → ends_open s ≡ true → Avoids (literal s)
ends_open-Avoids [] h = cc
ends_open-Avoids (c ∷ []) h = one_char-Avoids c (ground arith)
ends_open-Avoids (c ∷ d ∷ s) h = literal-Avoids c (d ∷ s) (ends_open-Avoids (d ∷ s) h)

abbrev segment_open : Text → Bool
segment_open [] = false
segment_open (c ∷ s) = if c == b':' then true else ends_open (c ∷ s)

segment-Avoids : (s : Text) → segment_open s ≡ true → Avoids (segment_regexp s)
segment-Avoids [] h = cc
segment-Avoids (c ∷ s) h = elim (Bool-cases (c == b':')) [
  | inl e ↦ rw (e, segment_regexp) param-Avoids
  | inr e ↦ rw (e, segment_regexp) (ends_open-Avoids (c ∷ s) (rw e at h))
]

-- The last segment of a pattern ends so.
abbrev last_open : List Text → Bool
last_open [] = false
last_open (s ∷ []) = segment_open s
last_open (s ∷ next ∷ rest) = last_open (next ∷ rest)

pattern-Avoids :
    (segments : List Text)
    → last_open segments ≡ true
    → Avoids (join_regexps (map segment_regexp segments))
pattern-Avoids [] h = cc
pattern-Avoids (s ∷ []) h = segment-Avoids s h
pattern-Avoids (s ∷ next ∷ rest) h =
    let later = join_regexps (map segment_regexp (next ∷ rest)) in
    seq-Avoids (segment_regexp s) (seq (char b'/') later)
      (seq-Avoids (char b'/') later (pattern-Avoids (next ∷ rest) h))

module _ (s : Text) where
  not_matched :
      (pattern : Text)
      → last_open (split_on b'/' pattern) ≡ true
      → matches (pattern_to_regexp pattern) (s ++ b'/' ∷ []) ≡ false
  unfolding pattern_to_regexp
  not_matched pattern h = elim (Bool-cases (matches (pattern_to_regexp pattern) (s ++ b'/' ∷ []))) [
    | inr e ↦ e
    | inl e ↦
        let (u, c, e', open_end) =
          pattern-Avoids (split_on b'/' pattern) h (s ++ b'/' ∷ [])
            ((matches_iff (pattern_to_regexp pattern) (s ++ b'/' ∷ [])).0 e) in
        let slash = snoc-inj s u b'/' c e' in ground arith
  ]

  none_matches :
      (p : RouteRow → Bool) (method : RouteRow → Bool) (rows : List RouteRow)
      → all (λ r. last_open (split_on b'/' r.path)) rows ≡ true
      → any (λ r. method r && matches (pattern_to_regexp r.path) (s ++ b'/' ∷ [])) (keep_if p rows)
        ≡ false
  none_matches p method [] h = refl
  none_matches p method (r ∷ rows) h =
      ground (arith, none_matches p method rows, not_matched r.path)

-- The CSRF check lets every request pass whose path ends in a slash, whatever its method, its header
-- and its session.
pub csrf_check-trailing_slash :
    (crypto : Crypto) (runtime : WebRuntime) (request : HttpRequest) (context : RequestContext)
    (s : Text)
    → request.path ≡ s ++ b'/' ∷ []
    → csrf_check crypto runtime request context ≡ ok tt
unfolding csrf_check is_implemented_state_changing
csrf_check-trailing_slash crypto runtime request context s path =
    let method = runtime.to_upper request.method in
    let unknown : is_implemented_state_changing runtime method request.path ≡ false = rw path (
      none_matches s (λ r. r.implemented && is_state_changing (runtime.to_upper r.method))
        (λ r. text_eq (runtime.to_upper r.method) method) api_route_table refl) in
    either_way (not (is_state_changing method)) (ok tt) _
      (either_way (is_exempt method request.path) (ok tt) _ (rw (unknown, csrf_check) refl))
