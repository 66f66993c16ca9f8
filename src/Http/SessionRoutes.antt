-- ===== src/Http/SessionRoutes.antt =====
-- server/src/http/routes/session.ts: signing in, reading the session and signing out. The shape of the
-- body is checked by zod; what is modelled of it is the email's own check and the handlers, on a body of
-- the right shape.
use cargo_execution_assistan.Prelude.{
  ℕ, suc, ◌+◌, Bool, true, false, not, ◌&&◌, ◌||◌, Option, none, some, [], ◌∷◌, ok, err, length,
  any, drop, ltb, leb, ◌==◌, if◌then◌else◌, String,
}
use cargo_execution_assistan.Text.{Text, trim, is_space, decimal}
use cargo_execution_assistan.Text.Encoding.{iso_string}
use cargo_execution_assistan.Database.{Database, Thrown}
use cargo_execution_assistan.Sessions.{Crypto, SpecialistDto}
use cargo_execution_assistan.Sessions.Throttle.{ThrottleStore}
use cargo_execution_assistan.Sessions.SignIn.{
  SignInSupply, SignInResult, signed_in, auth_failed, account_inactive, too_many_attempts,
  SignInOutcome, sign_in,
}
use cargo_execution_assistan.Sessions.Load.{rotate_csrf_token, sign_out}
use cargo_execution_assistan.Http.{WebRuntime, AppConfig, RequestContext, ApiError}
use cargo_execution_assistan.Http.Cookies.{build_session_cookie, build_cleared_session_cookie}

-- `raw.indexOf(c)` and `raw.lastIndexOf(c)`, with `none` for -1.
abbrev pub index_of : ℕ → Text → Option ℕ
index_of c [] = none
index_of c (d ∷ s) =
    let rest = index_of c s in
    elim (d == c) [ true ↦ some 0 | false ↦ elim rest [ none ↦ none | some i ↦ some (suc i) ] ]

abbrev pub last_index_of : ℕ → Text → Option ℕ
last_index_of c [] = none
last_index_of c (d ∷ s) = elim (last_index_of c s) [
  | some i ↦ some (suc i)
  | none ↦ if d == c then some 0 else none
]

-- The one `@` of a text that has a single one, not at its start.
abbrev pub lone_at : Option ℕ → Option ℕ → Option ℕ
lone_at none last = none
lone_at (some i) none = none
lone_at (some i) (some j) = if leb i 0 then none else if i == j then some i else none

unfoldable pub is_structurally_valid_email : Text → Bool
is_structurally_valid_email raw =
    if length raw == 0 || ltb 254 (length raw)
    then false
    else elim (lone_at (index_of b'@' raw) (last_index_of b'@' raw)) [
      | none ↦ false
      | some at ↦
          let domain = drop (at + 1) raw in
          if length domain == 0 || not (any (λ c. c == b'.') domain)
          then false
          else not (any is_space raw)
    ]

-- The `email` of `SignInBody`: trimmed, at most 254 code units, and of the shape of an address.
unfoldable pub parse_email : Text → Option Text
parse_email raw =
    if leb (length (trim raw)) 254 && is_structurally_valid_email (trim raw)
    then some (trim raw)
    else none

pub record SignInBody : Type 0 where
  pub email : Text
  pub password : Text

pub record SessionDto : Type 0 where
  pub specialist : SpecialistDto
  pub csrf_token : Text
  pub absolute_expires_at : Text

abbrev pub session_dto : SpecialistDto → Text → ℕ → SessionDto
session_dto specialist csrf_token absolute_expires_at = record {
  specialist = specialist;
  csrf_token = csrf_token;
  absolute_expires_at = iso_string absolute_expires_at;
}

-- A response with its `Set-Cookie`, an `ApiError` with the `Retry-After` that is set before it is
-- thrown, or another error.
pub data Reply : Type 0 where
  replied : (status : ℕ) (set_cookie : Option Text) (body : Option SessionDto) → Reply
  refused : (retry_after : Option Text) (error : ApiError) → Reply
  failed : Thrown → Reply

abbrev pub api_error : ℕ → String → ApiError
api_error status code = record { status = status; code = code }

abbrev pub reply_to : WebRuntime → AppConfig → SignInResult → Reply
reply_to runtime config (signed_in s) =
    replied 201 (some (build_session_cookie runtime s.token config))
      (some (session_dto s.specialist s.csrf_token s.absolute_expires_at))
reply_to runtime config auth_failed = refused none (api_error 401 "AUTH_FAILED")
reply_to runtime config account_inactive = refused none (api_error 403 "ACCOUNT_INACTIVE")
reply_to runtime config (too_many_attempts seconds) =
    refused (some (decimal seconds)) (api_error 429 "TOO_MANY_ATTEMPTS")

-- The state after a sign-in: its throttle store, with the database of before where it throws.
abbrev pub finish_sign_in :
    WebRuntime → AppConfig → Database → SignInOutcome → Reply × (ThrottleStore × Database)
finish_sign_in runtime config db (store, ok (result, db')) =
    (reply_to runtime config result, (store, db'))
finish_sign_in runtime config db (store, err thrown) = (failed thrown, (store, db))

unfoldable pub post_session :
    Crypto
    → WebRuntime
    → AppConfig
    → SignInBody
    → Option Text
    → SignInSupply
    → ThrottleStore
    → Database
    → Reply × (ThrottleStore × Database)
post_session crypto runtime config body user_agent supply store db =
    if ltb (length body.password) 12 || ltb 256 (length body.password)
    then (refused none (api_error 401 "AUTH_FAILED"), (store, db))
    else finish_sign_in runtime config db (
        sign_in crypto
          (record { email = body.email; password = body.password; user_agent = user_agent }) supply
          store db)

unfoldable pub get_session : Crypto → Text → RequestContext → Database → Reply × Database
get_session crypto fresh context db = elim context.principal [
  | none ↦ (refused none (api_error 401 "UNAUTHENTICATED"), db)
  | some specialist ↦ elim context.session_id [
    | none ↦ (refused none (api_error 401 "UNAUTHENTICATED"), db)
    | some id ↦ elim (rotate_csrf_token crypto fresh id db) [
      | err thrown ↦ (failed thrown, db)
      | ok ((csrf_token, expires), db') ↦
          (replied 200 none (some (session_dto specialist csrf_token expires)), db')
    ]
  ]
]

unfoldable pub delete_session : AppConfig → ℕ → RequestContext → Database → Reply × Database
delete_session config now context db = elim context.session_id [
  | none ↦ (refused none (api_error 401 "UNAUTHENTICATED"), db)
  | some id ↦ (replied 204 (some (build_cleared_session_cookie config)) none, sign_out id now db)
]
