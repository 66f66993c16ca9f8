-- ===== src/Http/Paths.antt =====
-- server/src/http/routes/index.ts and csrf.middleware.ts: the table of routes, and the match of a
-- concrete path with a pattern.
use cargo_execution_assistan.Prelude.{
  Bool, true, false, not, ◌&&◌, List, [], ◌∷◌, any, ◌==◌, keep_if, map,
}
use cargo_execution_assistan.Text.{Text, codes, text_eq, among}
use cargo_execution_assistan.Text.Regex.{Regex, eps, one, seq, char, literal, matches, at_least}
use cargo_execution_assistan.Http.{WebRuntime}
use cargo_execution_assistan.Http.Cookies.{split_on}

pub record RouteRow : Type 0 where
  pub method : Text
  pub path : Text
  pub implemented : Bool

abbrev route : Text → Text → RouteRow
route method path = record { method = method; path = path; implemented = true }

abbrev pub api_route_table : List RouteRow
api_route_table =
    route (codes "POST") (codes "/api/session")
    ∷ route (codes "GET") (codes "/api/session")
    ∷ route (codes "DELETE") (codes "/api/session")
    ∷ route (codes "POST") (codes "/api/entries")
    ∷ route (codes "GET") (codes "/api/entries/:entryId")
    ∷ route (codes "GET") (codes "/api/exceptions")
    ∷ route (codes "GET") (codes "/api/exceptions/:idOrReference")
    ∷ route (codes "GET") (codes "/api/exceptions/:exceptionId/recommendation")
    ∷ route (codes "POST") (codes "/api/exceptions/:exceptionId/decision")
    ∷ route (codes "GET") (codes "/api/exceptions/:exceptionId/audit")
    ∷ []

abbrev pub is_state_changing : Text → Bool
is_state_changing method = among method ("POST" ∷ "PUT" ∷ "PATCH" ∷ "DELETE" ∷ [])

-- The pattern of one segment: a parameter, or the text itself.
abbrev pub segment_regexp : Text → Regex
segment_regexp [] = eps
segment_regexp (c ∷ s) = elim (c == b':') [
  | true ↦ at_least 1 (one (λ d. not (d == b'/')))
  | false ↦ literal (c ∷ s)
]

-- `segments.join('/')`
abbrev pub join_regexps : List Regex → Regex
join_regexps [] = eps
join_regexps (r ∷ []) = r
join_regexps (r ∷ q ∷ rs) = seq r (seq (char b'/') (join_regexps (q ∷ rs)))

unfoldable pub pattern_to_regexp : Text → Regex
pattern_to_regexp pattern = join_regexps (map segment_regexp (split_on b'/' pattern))

abbrev pub implemented_state_changing : WebRuntime → List RouteRow
implemented_state_changing runtime =
    keep_if (λ r. r.implemented && is_state_changing (runtime.to_upper r.method)) api_route_table

unfoldable pub is_implemented_state_changing : WebRuntime → Text → Text → Bool
unfolding pattern_to_regexp
is_implemented_state_changing runtime method path =
    any (λ r. text_eq (runtime.to_upper r.method) method && matches (pattern_to_regexp r.path) path)
      (implemented_state_changing runtime)
