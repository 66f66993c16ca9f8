-- ===== src/Http/Tests.antt =====
-- The theorems on the stages before a route, applied to a sign-in and the requests after it.
use cargo_execution_assistan.Prelude.{◌≡◌, ◌⊎◌, refl, true, false, none, some, [], ok, arith}
use cargo_execution_assistan.Text.{Text, codes, trim}
use cargo_execution_assistan.Text.Encoding.{utf8, code_points, iso_string}
use cargo_execution_assistan.Text.Map.{get, IsKeyed}
use cargo_execution_assistan.Text.Regex.{matches}
use cargo_execution_assistan.Database.{Database}
use cargo_execution_assistan.Sessions.Repository.{insert_session, find_session_by_token_hash}
use cargo_execution_assistan.Sessions.Throttle.{ThrottleStore, record_failure}
use cargo_execution_assistan.Sessions.SignIn.{sign_in, attempt, mint}
use cargo_execution_assistan.Sessions.Load.{
  LoadOutcome, LoadedSession, valid, load_session_by_token, expire_session_by_token,
  rotate_csrf_token,
}
use cargo_execution_assistan.Http.{AppConfig, governed, HttpRequest, RequestContext}
use cargo_execution_assistan.Http.Cookies.{
  session_cookie_name, cookie_pair, parse_cookies, build_session_cookie,
  build_cleared_session_cookie,
}
use cargo_execution_assistan.Http.Paths.{
  is_state_changing, pattern_to_regexp, is_implemented_state_changing,
}
use cargo_execution_assistan.Http.Guards.{
  Readings, context_of, resolve, require_api_auth, csrf_check, csrf_invalid, admit,
}
use cargo_execution_assistan.Http.SessionRoutes.{
  SignInBody, SessionDto, session_dto, Reply, replied, post_session, get_session,
}
use cargo_execution_assistan.Http.RoundTrip.{sent_back, parse_cookies-build_session_cookie}
use cargo_execution_assistan.Http.Admission.{IsFrom, HasToken, admit-IsFrom}
use cargo_execution_assistan.Http.Journey.{post_session-admit}
use cargo_execution_assistan.Http.Rotation.{get_session-rotates}
use cargo_execution_assistan.Http.Slashes.{csrf_check-trailing_slash}
use cargo_execution_assistan.Sample.{database, crypto, runtime, sign_in_supply}

-- Opens the functions for a test.
request_cycle : Unit {0}
unfolding sign_in attempt mint insert_session record_failure trim utf8 code_points matches
    iso_string find_session_by_token_hash load_session_by_token expire_session_by_token
    rotate_csrf_token cookie_pair parse_cookies build_session_cookie build_cleared_session_cookie
    pattern_to_regexp is_implemented_state_changing resolve require_api_auth csrf_check admit
    post_session get_session
request_cycle = tt

abbrev config : AppConfig
config = record { session_cookie_profile = governed; origin_is_https = true }

abbrev body : SignInBody
body = record { email = codes "ada@port.gov"; password = codes "correct horse" }

-- `HttpOnly`, `Path`, `SameSite` and, on an HTTPS origin, `Secure`.
cookie-governed :
    build_session_cookie (record runtime { encode_uri_component = λ s. s }) (codes "t1") config
    ≡ codes "cargoexec_sid=t1; HttpOnly; Path=/; SameSite=Lax; Secure"
unfolding build_session_cookie
cookie-governed = refl

parse_cookies-build_session_cookie_example :
    get session_cookie_name
      (parse_cookies runtime (sent_back (build_session_cookie runtime (codes "t1") config)))
    ≡ some (codes "t1")
parse_cookies-build_session_cookie_example =
    parse_cookies-build_session_cookie runtime config (codes "t1") (ground arith) refl

abbrev outcome : Reply × (ThrottleStore × Database)
outcome = post_session crypto runtime config body none sign_in_supply [] database

abbrev cookie : Text
cookie = build_session_cookie runtime sign_in_supply.token config

abbrev dto : SessionDto
dto =
    session_dto
      (record { id = codes "s1"; email = codes "ada@port.gov"; display_name = codes "Ada" })
      sign_in_supply.csrf_token 28_801_500

post_session-ada : outcome ≡ (replied 201 (some cookie) (some dto), (outcome.1.0, outcome.1.1))
unfolding request_cycle
post_session-ada = refl

abbrev decide : HttpRequest
decide = record {
  method = codes "POST";
  path = codes "/api/exceptions/x1/decision";
  cookie = sent_back cookie;
  csrf_header = some dto.csrf_token;
}

abbrev readings : Readings
readings = record { loaded_at = 2_000; checked_at = 2_001; written_at = 2_002 }

post_session-admit_example :
    (context : RequestContext) × ((admit crypto runtime readings decide outcome.1.1).0 ≡ ok context)
    × (context.principal ≡ some dto.specialist)
post_session-admit_example =
    post_session-admit crypto runtime config body none sign_in_supply [] database outcome.1.0
      outcome.1.1 cookie dto readings decide b't' b'c' (codes "1") (codes "srf1") (tt, tt) refl refl
      (ground arith) refl post_session-ada (omega arith) refl refl

abbrev the_session : LoadOutcome → LoadedSession
the_session (valid s) = s
the_session _ = record {
  session_id = [];
  specialist = dto.specialist;
  last_seen_at = 0;
  absolute_expires_at = 0;
  csrf_token_hash = [];
}

abbrev ada_session : LoadedSession
ada_session = the_session (load_session_by_token crypto sign_in_supply.token 2_000 outcome.1.1)

admit-decide :
    admit crypto runtime readings decide outcome.1.1 ≡ (ok (context_of ada_session), outcome.1.1)
unfolding request_cycle
admit-decide = refl

admit-IsFrom_example :
    (s : LoadedSession) × IsFrom crypto runtime readings decide outcome.1.1
      (context_of ada_session)
      s
    × ((is_state_changing (codes "POST") ≡ false)
        ⊎ (is_implemented_state_changing runtime (codes "POST") decide.path ≡ false)
        ⊎ HasToken crypto runtime readings decide outcome.1.1 s)
admit-IsFrom_example =
    admit-IsFrom crypto runtime readings decide outcome.1.1 (context_of ada_session) outcome.1.1
      refl refl admit-decide

ada-loads : load_session_by_token crypto sign_in_supply.token 2_000 outcome.1.1 ≡ valid ada_session
unfolding request_cycle
ada-loads = refl

sessions-IsKeyed : IsKeyed (λ r. r.id) outcome.1.1.sessions
unfolding request_cycle
sessions-IsKeyed = (tt, tt)

get_session-rotates_example :
    let (reply, db') = get_session crypto (codes "fresh") (context_of ada_session) outcome.1.1 in
    (reply
      ≡ replied 200 none (
          some
            (session_dto ada_session.specialist (codes "fresh") ada_session.absolute_expires_at)))
    × (load_session_by_token crypto sign_in_supply.token 2_000 db'
        ≡ valid (record ada_session { csrf_token_hash = crypto.sha256 (utf8 (codes "fresh")) }))
get_session-rotates_example =
    get_session-rotates crypto sign_in_supply.token (codes "fresh") 2_000 outcome.1.1 ada_session
      sessions-IsKeyed ada-loads

-- Without a header the decision is refused, and with a slash behind its path it is not.
csrf-refused :
    csrf_check crypto runtime (record decide { csrf_header = none }) (context_of ada_session)
    ≡ csrf_invalid
unfolding request_cycle
csrf-refused = refl

abbrev slash : HttpRequest
slash = record decide { path = codes "/api/exceptions/x1/decision/"; csrf_header = none }

csrf_check-trailing_slash_example : csrf_check crypto runtime slash (context_of ada_session) ≡ ok tt
csrf_check-trailing_slash_example =
    csrf_check-trailing_slash crypto runtime slash (context_of ada_session)
      (codes "/api/exceptions/x1/decision") refl
