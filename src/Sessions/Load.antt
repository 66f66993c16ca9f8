-- ===== src/Sessions/Load.antt =====
-- server/src/services/session.service.ts: resolving a session by its token, revoking it, and the
-- rotation of its CSRF token.
use cargo_execution_assistan.Prelude.{
  ℕ, ◌+◌, Bool, ◌||◌, none, some, List, Result, ok, err, is_some, ltb, if◌then◌else◌,
}
use cargo_execution_assistan.Text.{Text}
use cargo_execution_assistan.Text.Encoding.{utf8}
use cargo_execution_assistan.Database.{
  Database, SpecialistRow, SessionRow, expired, signed_out, Thrown, session_not_found,
}
use cargo_execution_assistan.Sessions.{Crypto, SpecialistDto, session_idle_ms}
use cargo_execution_assistan.Sessions.Repository.{
  find_session_by_token_hash, find_session_by_id, revoke_session, update_last_seen,
  update_csrf_token_hash,
}
use cargo_execution_assistan.Sessions.SignIn.{specialist_dto}

pub record LoadedSession : Type 0 where
  pub session_id : Text
  pub specialist : SpecialistDto
  pub last_seen_at : ℕ
  pub absolute_expires_at : ℕ
  pub csrf_token_hash : List ℕ

pub data LoadOutcome : Type 0 where
  valid : LoadedSession → LoadOutcome
  absent expired_session revoked inactive : LoadOutcome

abbrev pub loaded : SessionRow → SpecialistRow → LoadedSession
loaded row specialist = record {
  session_id = row.id;
  specialist = specialist_dto specialist;
  last_seen_at = row.last_seen_at;
  absolute_expires_at = row.absolute_expires_at;
  csrf_token_hash = row.csrf_token_hash;
}

-- Past the absolute limit or idle for too long.
abbrev pub is_expired : SessionRow → ℕ → Bool
is_expired row now = ltb row.absolute_expires_at now || ltb (row.last_seen_at + session_idle_ms) now

-- The outcome for a row that was found.
abbrev pub session_outcome : SessionRow → SpecialistRow → ℕ → LoadOutcome
session_outcome row specialist now =
    if is_some row.revoked_at
    then revoked
    else if is_expired row now
    then expired_session
    else if specialist.is_active
    then valid (loaded row specialist)
    else inactive

unfoldable pub load_session_by_token : Crypto → Text → ℕ → Database → LoadOutcome
load_session_by_token crypto raw_token now db =
    elim (find_session_by_token_hash (crypto.sha256 (utf8 raw_token)) db) [
      | none ↦ absent
      | some (row, specialist) ↦ session_outcome row specialist now
    ]

abbrev pub expire_session : Text → ℕ → Database → Database
expire_session id at db = revoke_session id expired at db

unfoldable pub expire_session_by_token : Crypto → Text → ℕ → Database → Database
expire_session_by_token crypto raw_token at db =
    elim (find_session_by_token_hash (crypto.sha256 (utf8 raw_token)) db) [
      | none ↦ db
      | some (row, specialist) ↦
          if is_some row.revoked_at then db else revoke_session row.id expired at db
    ]

abbrev pub sign_out : Text → ℕ → Database → Database
sign_out id at db = revoke_session id signed_out at db

abbrev pub touch_session : Text → ℕ → Database → Database
touch_session id last_seen_at db = update_last_seen id last_seen_at db

-- The fresh token with the expiry of the session; `fresh` is the random text.
unfoldable pub rotate_csrf_token :
    Crypto → Text → Text → Database → Result Thrown ((Text × ℕ) × Database)
rotate_csrf_token crypto fresh id db = elim (find_session_by_id id db) [
  | none ↦ err session_not_found
  | some row ↦
      ok (
        (fresh, row.absolute_expires_at),
        update_csrf_token_hash id (crypto.sha256 (utf8 fresh)) db,
      )
]
