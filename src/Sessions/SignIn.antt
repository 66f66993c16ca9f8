-- ===== src/Sessions/SignIn.antt =====
-- server/src/services/session.service.ts: `signIn`. The throttle store is memory of the process: what
-- was done to it stays where a statement of the database throws.
use cargo_execution_assistan.Prelude.{
  ℕ, ◌+◌, Bool, true, false, Option, none, some, Result, ok, err, length, take, leb,
}
use cargo_execution_assistan.Text.{Text}
use cargo_execution_assistan.Text.Encoding.{utf8}
use cargo_execution_assistan.Text.Map.{get, set}
use cargo_execution_assistan.Database.{Database, SpecialistRow, SessionRow, Thrown}
use cargo_execution_assistan.Sessions.{
  Crypto, SpecialistDto, session_absolute_ms, throttle_max_failures,
}
use cargo_execution_assistan.Sessions.Throttle.{
  ThrottleStore, normalised, throttle_key, prune_failures, retry_after_ms, seconds_up,
  record_failure, clear_throttle,
}
use cargo_execution_assistan.Sessions.Repository.{
  find_specialist_by_email, insert_session, touch_last_sign_in,
}

pub record SignInInput : Type 0 where
  pub email : Text
  pub password : Text
  pub user_agent : Option Text

-- The two readings of the clock, the generated id and the two random tokens.
pub record SignInSupply : Type 0 where
  pub now : ℕ
  pub created_at : ℕ
  pub session_id : Text
  pub token : Text
  pub csrf_token : Text

pub record SignedIn : Type 0 where
  pub specialist : SpecialistDto
  pub session_id : Text
  pub token : Text
  pub csrf_token : Text
  pub absolute_expires_at : ℕ

pub data SignInResult : Type 0 where
  signed_in : SignedIn → SignInResult
  auth_failed account_inactive : SignInResult
  too_many_attempts : (retry_after_seconds : ℕ) → SignInResult

-- The throttle store after the call, and the result with the database after it, or what is thrown.
abbrev pub SignInOutcome : Type 0
SignInOutcome = ThrottleStore × Result Thrown (SignInResult × Database)

abbrev pub specialist_dto : SpecialistRow → SpecialistDto
specialist_dto s = record { id = s.id; email = s.email; display_name = s.display_name }

-- `input.userAgent.slice(0, 512)`
abbrev pub clipped : Option Text → Option Text
clipped none = none
clipped (some agent) = some (take 512 agent)

abbrev pub minted : Crypto → SignInInput → SignInSupply → SpecialistRow → SessionRow
minted crypto input supply specialist = record {
  id = supply.session_id;
  specialist_id = specialist.id;
  token_hash = crypto.sha256 (utf8 supply.token);
  csrf_token_hash = crypto.sha256 (utf8 supply.csrf_token);
  created_at = supply.created_at;
  absolute_expires_at = supply.created_at + session_absolute_ms;
  last_seen_at = supply.created_at;
  revoked_at = none;
  revocation_reason = none;
  user_agent = clipped input.user_agent;
}

abbrev pub sign_in_response : SignInSupply → SpecialistRow → SignInResult
sign_in_response supply specialist = signed_in (record {
  specialist = specialist_dto specialist;
  session_id = supply.session_id;
  token = supply.token;
  csrf_token = supply.csrf_token;
  absolute_expires_at = supply.created_at + session_absolute_ms;
})

-- A verification that throws is a failed one, and nothing verifies for an unknown email: there the
-- server verifies against a dummy hash and drops the result.
abbrev pub password_ok : Crypto → Option SpecialistRow → Text → Bool
password_ok crypto none password = false
password_ok crypto (some specialist) password =
    elim (crypto.verify specialist.password_hash password) [ none ↦ false | some matches ↦ matches ]

-- Steps 7 to 9.
unfoldable pub mint :
    Crypto
    → Text
    → SignInInput
    → SignInSupply
    → ThrottleStore
    → SpecialistRow
    → Database
    → SignInOutcome
mint crypto key input supply store specialist db =
    elim (insert_session (minted crypto input supply specialist) db) [
      | err thrown ↦ (store, err thrown)
      | ok inserted ↦ (
        clear_throttle key store,
        ok (
          sign_in_response supply specialist,
          touch_last_sign_in specialist.id supply.created_at inserted,
        ),
      )
    ]

-- Steps 3 to 9.
unfoldable pub attempt :
    Crypto → Text → Text → SignInInput → SignInSupply → ThrottleStore → Database → SignInOutcome
attempt crypto email key input supply store db =
    let specialist = find_specialist_by_email email db in
    elim (password_ok crypto specialist input.password) [
      | false ↦ (record_failure key supply.now store, ok (auth_failed, db))
      | true ↦ elim specialist [
        | none ↦ (store, ok (account_inactive, db))
        | some row ↦ elim row.is_active [
          | false ↦ (store, ok (account_inactive, db))
          | true ↦ mint crypto key input supply store row db
        ]
      ]
    ]

unfoldable pub sign_in :
    Crypto → SignInInput → SignInSupply → ThrottleStore → Database → SignInOutcome
unfolding attempt
sign_in crypto input supply store db =
    let email = normalised crypto input.email in
    let key = throttle_key crypto email in
    elim (get key store) [
      | none ↦ attempt crypto email key input supply store db
      | some failures ↦
          let surviving = prune_failures failures supply.now in
          let pruned = set key surviving store in
          elim (leb throttle_max_failures (length surviving)) [
            | true ↦ (
              pruned,
              ok (too_many_attempts (seconds_up (retry_after_ms surviving supply.now)), db),
            )
            | false ↦ attempt crypto email key input supply pruned db
          ]
    ]
