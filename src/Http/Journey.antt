-- ===== src/Http/Journey.antt =====
-- server/src/http: a sign-in and the request after it, through cookie, session, authentication gate and
-- CSRF check.
use cargo_execution_assistan.Prelude.{
  ℕ, ◌+◌, ◌≤◌, ◌≡◌, refl, sym, ap, ◌∙◌, not, ◌||◌, Option, some, List, ◌∷◌, ok, err, length, ltb,
  arith, Bool-cases, inl, inr, if◌then◌else◌, either_way,
}
use cargo_execution_assistan.Text.{Text}
use cargo_execution_assistan.Text.Laws.{text_eq_refl}
use cargo_execution_assistan.Text.Encoding.{utf8}
use cargo_execution_assistan.Text.Map.{get, IsKeyed}
use cargo_execution_assistan.Database.{Database, SpecialistRow}
use cargo_execution_assistan.Sessions.{Crypto, session_idle_ms}
use cargo_execution_assistan.Sessions.Throttle.{ThrottleStore}
use cargo_execution_assistan.Sessions.SignIn.{
  SignInInput, SignInSupply, SignInOutcome, SignedIn, specialist_dto, signed_in, auth_failed,
  account_inactive, too_many_attempts, sign_in,
}
use cargo_execution_assistan.Sessions.Load.{
  LoadedSession, valid, expired_session, load_session_by_token,
}
use cargo_execution_assistan.Sessions.Lifetime.{sign_in-load}
use cargo_execution_assistan.Http.{WebRuntime, AppConfig, HttpRequest, RequestContext}
use cargo_execution_assistan.Http.Cookies.{parse_cookies, session_cookie_name, build_session_cookie}
use cargo_execution_assistan.Http.Paths.{is_state_changing, is_implemented_state_changing}
use cargo_execution_assistan.Http.Guards.{
  Readings, context_of, resolve, is_api_path, is_exempt, require_api_auth, check_token, csrf_check,
  admit,
}
use cargo_execution_assistan.Http.RoundTrip.{IsPlain, sent_back, parse_cookies-build_session_cookie}
use cargo_execution_assistan.Http.SessionRoutes.{
  SignInBody, SessionDto, session_dto, replied, post_session, finish_sign_in,
}

module _ (crypto : Crypto) (runtime : WebRuntime) (at : Readings) (request : HttpRequest)
    (db : Database) where
  -- A request with the token of a valid session is resolved to it.
  resolve-valid :
      (c : ℕ) (token : Text) (s : LoadedSession)
      → get session_cookie_name (parse_cookies runtime request.cookie) ≡ some (c ∷ token)
      → load_session_by_token crypto (c ∷ token) at.loaded_at db ≡ valid s
      → (resolve crypto runtime at request db).0 ≡ context_of s
  unfolding resolve
  resolve-valid c token s cookie loaded = rw (cookie, resolve) (rw loaded refl)

  auth-context : (s : LoadedSession) → require_api_auth runtime request (context_of s) ≡ ok tt
  unfolding require_api_auth
  auth-context s = elim (Bool-cases (is_api_path request.path)) [
    | inr e ↦ rw (e, require_api_auth) refl
    | inl e ↦ elim (Bool-cases (is_exempt (runtime.to_upper request.method) request.path)) [
      | inl f ↦ rw (e, require_api_auth) (rw (f, require_api_auth) refl)
      | inr f ↦ rw (e, require_api_auth) (rw (f, require_api_auth) refl)
    ]
  ]

  token-matches :
      (stored : List ℕ) (c : ℕ) (header : Text)
      → crypto.sha256 (utf8 (c ∷ header)) ≡ stored
      → check_token crypto (some stored) (some (c ∷ header)) ≡ ok tt
  token-matches stored c header same = rw same (ground (arith, text_eq_refl stored))

  csrf-context :
      (s : LoadedSession) (c : ℕ) (header : Text)
      → request.csrf_header ≡ some (c ∷ header)
      → crypto.sha256 (utf8 (c ∷ header)) ≡ s.csrf_token_hash
      → csrf_check crypto runtime request (context_of s) ≡ ok tt
  unfolding csrf_check
  csrf-context s c header sent same =
      let method = runtime.to_upper request.method in
      either_way (not (is_state_changing method)) (ok tt) _ (
        either_way (is_exempt method request.path) (ok tt) _ (
          either_way (not (is_implemented_state_changing runtime method request.path)) (ok tt) _
            (rw sent (token-matches s.csrf_token_hash c header same))))

  admit-valid :
      (c : ℕ) (token : Text) (s : LoadedSession) (d : ℕ) (header : Text)
      → get session_cookie_name (parse_cookies runtime request.cookie) ≡ some (c ∷ token)
      → load_session_by_token crypto (c ∷ token) at.loaded_at db ≡ valid s
      → request.csrf_header ≡ some (d ∷ header)
      → crypto.sha256 (utf8 (d ∷ header)) ≡ s.csrf_token_hash
      → (admit crypto runtime at request db).0 ≡ ok (context_of s)
  unfolding admit
  admit-valid c token s d header cookie loaded sent same =
      rw (resolve-valid c token s cookie loaded)
        (rw (auth-context s) (rw (csrf-context s d header sent same) refl))

module _ (crypto : Crypto) (runtime : WebRuntime) (config : AppConfig) (body : SignInBody)
    (user_agent : Option Text) (supply : SignInSupply) (store : ThrottleStore) (db : Database) where
  input : SignInInput
  input = record { email = body.email; password = body.password; user_agent = user_agent }

  -- A sign-in that is answered with 201 has succeeded in the service.
  post_session-signed_in :
      (store' : ThrottleStore) (db' : Database) (set_cookie : Text) (dto : SessionDto)
      → post_session crypto runtime config body user_agent supply store db
        ≡ (replied 201 (some set_cookie) (some dto), (store', db'))
      → (s : SignedIn) × (sign_in crypto input supply store db ≡ (store', ok (signed_in s, db')))
        × (set_cookie ≡ build_session_cookie runtime s.token config)
        × (dto ≡ session_dto s.specialist s.csrf_token s.absolute_expires_at)
  unfolding post_session input
  post_session-signed_in store' db' set_cookie dto h =
      elim (Bool-cases (ltb (length body.password) 12 || ltb 256 (length body.password))) [
        | inl short ↦ let h' = rw (short, post_session) at h in cc
        | inr long ↦ finished (sign_in crypto input supply store db) (rw (long, post_session) at h)
      ]
    where
      finished :
          (o : SignInOutcome)
          → finish_sign_in runtime config db o
            ≡ (replied 201 (some set_cookie) (some dto), (store', db'))
          → (s : SignedIn) × (o ≡ (store', ok (signed_in s, db')))
            × (set_cookie ≡ build_session_cookie runtime s.token config)
            × (dto ≡ session_dto s.specialist s.csrf_token s.absolute_expires_at)
      finished (t, err thrown) h = cc
      finished (t, ok (auth_failed, e)) h = cc
      finished (t, ok (account_inactive, e)) h = cc
      finished (t, ok (too_many_attempts n, e)) h = cc
      finished (t, ok (signed_in s, e)) h = (s, cc, cc, cc)

  -- After a sign-in that is answered with 201, every request on every path with the cookie as the
  -- browser returns it and the CSRF token of the answer passes all stages and acts as the specialist
  -- of the answer, for thirty minutes: where the ids of the specialists differ, the random tokens are
  -- not empty, and the runtime decodes what it encodes of the token, without spaces and semicolons.
  pub post_session-admit :
      (store' : ThrottleStore) (db' : Database) (set_cookie : Text) (dto : SessionDto)
      (at : Readings) (request : HttpRequest) (c d : ℕ) (token header : Text)
      → IsKeyed (λ s. s.id) db.specialists
      → supply.token ≡ c ∷ token
      → supply.csrf_token ≡ d ∷ header
      → IsPlain (runtime.encode_uri_component supply.token)
      → runtime.decode_uri_component (runtime.encode_uri_component supply.token) ≡ some supply.token
      → post_session crypto runtime config body user_agent supply store db
        ≡ (replied 201 (some set_cookie) (some dto), (store', db'))
      → at.loaded_at ≤ supply.created_at + session_idle_ms
      → request.cookie ≡ sent_back set_cookie
      → request.csrf_header ≡ some dto.csrf_token
      → (context : RequestContext) × ((admit crypto runtime at request db').0 ≡ ok context)
        × (context.principal ≡ some dto.specialist)
  post_session-admit store' db' set_cookie dto at request c d token header keyed full full' plain
        back h early cookie sent =
      let (s, done, cookie_eq, dto_eq) = post_session-signed_in store' db' set_cookie dto h in
      let (row, found, token_eq, csrf_eq, owner, cleared, loads) =
        sign_in-load crypto input supply store db store' s db' at.loaded_at keyed done in
      let live = loads ∙ fresh s row early in
      let sent_eq : request.csrf_header ≡ some (d ∷ header) =
        sent ∙ ap some (ap (λ x. x.csrf_token) dto_eq ∙ (csrf_eq ∙ full')) in
      let named : some dto.specialist ≡ some (specialist_dto row) =
        ap some (ap (λ x. x.specialist) dto_eq ∙ owner) in
      let whole = token_eq ∙ full in
      (
        context_of (session_of s row),
        admit-valid crypto runtime at request db' c token (session_of s row) d header
            (ap (λ k. get session_cookie_name (parse_cookies runtime k))
                (cookie
                  ∙ ap sent_back
                      (cookie_eq ∙ ap (λ t. build_session_cookie runtime t config) token_eq))
              ∙ (parse_cookies-build_session_cookie runtime config supply.token plain back
                  ∙ ap some full))
            (ap (λ t. load_session_by_token crypto t at.loaded_at db') (sym whole) ∙ live) sent_eq
            (ap (λ t. crypto.sha256 (utf8 t)) (sym (csrf_eq ∙ full'))),
        sym named,
      )
    where
      session_of : SignedIn → SpecialistRow → LoadedSession
      session_of s row = record {
        session_id = s.session_id;
        specialist = specialist_dto row;
        last_seen_at = supply.created_at;
        absolute_expires_at = s.absolute_expires_at;
        csrf_token_hash = crypto.sha256 (utf8 s.csrf_token);
      }

      fresh :
          (s : SignedIn) (row : SpecialistRow)
          → at.loaded_at ≤ supply.created_at + session_idle_ms
          → (if ltb (supply.created_at + session_idle_ms) at.loaded_at
              then expired_session
              else valid (session_of s row))
            ≡ valid (session_of s row)
      fresh s row early = ground arith
