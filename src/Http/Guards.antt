-- ===== src/Http/Guards.antt =====
-- server/src/http/session.middleware.ts, requireApiAuth.ts and csrf.middleware.ts: the three stages
-- that a request passes before its route.
use cargo_execution_assistan.Prelude.{
  ℕ, ◌-◌, Bool, true, false, not, ◌&&◌, ◌||◌, Option, none, some, List, [], ◌∷◌, Result, ok, err,
  ◌>>◌, length, leb, ◌==◌, if◌then◌else◌, is_some,
}
use cargo_execution_assistan.Text.{Text, codes, text_eq}
use cargo_execution_assistan.Text.Encoding.{utf8}
use cargo_execution_assistan.Text.Map.{get}
use cargo_execution_assistan.Database.{Database}
use cargo_execution_assistan.Sessions.{Crypto, last_seen_throttle_ms}
use cargo_execution_assistan.Sessions.Load.{
  LoadedSession, LoadOutcome, valid, absent, expired_session, revoked, inactive,
  load_session_by_token, expire_session_by_token, touch_session,
}
use cargo_execution_assistan.Http.{WebRuntime, HttpRequest, RequestContext, ApiError}
use cargo_execution_assistan.Http.Cookies.{parse_cookies, session_cookie_name}
use cargo_execution_assistan.Http.Paths.{is_state_changing, is_implemented_state_changing}

-- The readings of the clock while a session is resolved.
pub record Readings : Type 0 where
  pub loaded_at : ℕ
  pub checked_at : ℕ
  pub written_at : ℕ

abbrev pub anonymous : RequestContext
anonymous = record { principal = none; session_id = none; csrf_token_hash = none }

abbrev pub context_of : LoadedSession → RequestContext
context_of s = record {
  principal = some s.specialist;
  session_id = some s.session_id;
  csrf_token_hash = some s.csrf_token_hash;
}

-- A session is touched at most once a minute.
abbrev pub touched_session : Readings → LoadedSession → Database → Database
touched_session at s db =
    if leb last_seen_throttle_ms (at.checked_at - s.last_seen_at)
    then touch_session s.session_id at.written_at db
    else db

abbrev pub resolve_outcome :
    Crypto → Text → Readings → Database → LoadOutcome → RequestContext × Database
resolve_outcome crypto token at db (valid s) = (context_of s, touched_session at s db)
resolve_outcome crypto token at db expired_session =
    (anonymous, expire_session_by_token crypto token at.written_at db)
resolve_outcome crypto token at db absent = (anonymous, db)
resolve_outcome crypto token at db revoked = (anonymous, db)
resolve_outcome crypto token at db inactive = (anonymous, db)

-- `resolve`: what is attached to the request, and the database after it.
unfoldable pub resolve :
    Crypto → WebRuntime → Readings → HttpRequest → Database → RequestContext × Database
resolve crypto runtime at request db =
    elim (get session_cookie_name (parse_cookies runtime request.cookie)) [
      | none ↦ (anonymous, db)
      | some raw_token ↦ elim raw_token [
        | [] ↦ (anonymous, db)
        | c ∷ token ↦
            resolve_outcome crypto (c ∷ token) at db
              (load_session_by_token crypto (c ∷ token) at.loaded_at db)
      ]
    ]

abbrev pub starts_with : Text → Text → Bool
starts_with [] s = true
starts_with (c ∷ prefix) [] = false
starts_with (c ∷ prefix) (d ∷ s) = c == d && starts_with prefix s

-- `/api` and what is below it.
abbrev pub is_api_path : Text → Bool
is_api_path path = starts_with (codes "/api/") path || text_eq path (codes "/api")

-- `POST /api/session`, which creates the session.
abbrev pub is_exempt : Text → Text → Bool
is_exempt method path = text_eq method (codes "POST") && text_eq path (codes "/api/session")

unfoldable pub require_api_auth :
    WebRuntime → HttpRequest → RequestContext → Result ApiError (Unit {0})
require_api_auth runtime request context =
    if not (is_api_path request.path)
    then ok tt
    else if is_exempt (runtime.to_upper request.method) request.path
    then ok tt
    else if is_some context.principal
    then ok tt
    else err (record { status = 401; code = "UNAUTHENTICATED" })

abbrev pub csrf_invalid : Result ApiError (Unit {0})
csrf_invalid = err (record { status = 403; code = "CSRF_INVALID" })

-- The comparison with the stored digest.
abbrev pub compare_digests : List ℕ → List ℕ → Result ApiError (Unit {0})
compare_digests presented stored =
    if not (length presented == length stored)
    then csrf_invalid
    else if not (text_eq presented stored)
    then csrf_invalid
    else ok tt

abbrev pub check_token : Crypto → Option (List ℕ) → Option Text → Result ApiError (Unit {0})
check_token crypto none header = csrf_invalid
check_token crypto (some stored) none = csrf_invalid
check_token crypto (some stored) (some []) = csrf_invalid
check_token crypto (some stored) (some (c ∷ header)) =
    compare_digests (crypto.sha256 (utf8 (c ∷ header))) stored

unfoldable pub csrf_check :
    Crypto → WebRuntime → HttpRequest → RequestContext → Result ApiError (Unit {0})
csrf_check crypto runtime request context =
    let method = runtime.to_upper request.method in
    if not (is_state_changing method)
    then ok tt
    else if is_exempt method request.path
    then ok tt
    else if not (is_implemented_state_changing runtime method request.path)
    then ok tt
    else check_token crypto context.csrf_token_hash request.csrf_header

-- The stages of `createApp` before the routes: what reaches the route or is thrown, and the database,
-- which keeps what the first stage wrote.
unfoldable pub admit :
    Crypto
    → WebRuntime
    → Readings
    → HttpRequest
    → Database
    → Result ApiError RequestContext × Database
admit crypto runtime at request db =
    let (context, db') = resolve crypto runtime at request db in
    (
      do
        require_api_auth runtime request context
        csrf_check crypto runtime request context
        ok context,
      db',
    )
