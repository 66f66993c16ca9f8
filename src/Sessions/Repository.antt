-- ===== src/Sessions/Repository.antt =====
-- server/src/db/repositories/sessions.ts and specialists.ts: the statements on the tables `sessions`
-- and `specialists`, with the constraints of server/migrations/0001 in the order in which PostgreSQL
-- checks them.
use cargo_execution_assistan.Prelude.{
  ℕ, Bool, not, Option, none, some, List, [], ◌∷◌, ◌++◌, Result, ok, ◌>>◌, check_all, length, any,
  find, map, is_some, ltb, ◌==◌, if◌then◌else◌,
}
use cargo_execution_assistan.Text.{Text, text_eq}
use cargo_execution_assistan.Database.{
  Database, SpecialistRow, SessionRow, RevocationReason, Thrown, unique_violation, check_violation,
  foreign_key_violation,
}

abbrev pub find_specialist_by_email : Text → Database → Option SpecialistRow
find_specialist_by_email email db = find (λ s. text_eq s.email email) db.specialists

abbrev pub find_specialist_by_id : Text → Database → Option SpecialistRow
find_specialist_by_id id db = find (λ s. text_eq s.id id) db.specialists

-- A specialist who has signed in.
abbrev pub touched : Text → ℕ → SpecialistRow → SpecialistRow
touched id at s = if text_eq s.id id then record s { last_sign_in_at = some at } else s

abbrev pub touch_last_sign_in : Text → ℕ → Database → Database
touch_last_sign_in id at db = record db { specialists = map (touched id at) db.specialists }

-- The constraints of `sessions`, each with what is thrown where it does not hold.
abbrev pub session_constraints : SessionRow → Database → List (Bool × Thrown)
session_constraints row db =
    (length row.csrf_token_hash == 32, check_violation "sessions_csrf_hash_len_chk")
    ∷ (
      ltb row.created_at row.absolute_expires_at,
      check_violation "sessions_expiry_after_creation_chk",
    )
    ∷ (length row.token_hash == 32, check_violation "sessions_token_hash_len_chk")
    ∷ (not (any (λ s. text_eq s.id row.id) db.sessions), unique_violation "sessions_pkey")
    ∷ (
      not (any (λ s. text_eq s.token_hash row.token_hash) db.sessions),
      unique_violation "uq_sessions_token_hash",
    )
    ∷ (
      any (λ s. text_eq s.id row.specialist_id) db.specialists,
      foreign_key_violation "sessions_specialist_id_fkey",
    )
    ∷ []

unfoldable pub insert_session : SessionRow → Database → Result Thrown Database
insert_session row db = do
  check_all (session_constraints row db)
  ok (record db { sessions = db.sessions ++ row ∷ [] })

-- The session under a token hash with its specialist, the two tables joined.
unfoldable pub find_session_by_token_hash : List ℕ → Database → Option (SessionRow × SpecialistRow)
find_session_by_token_hash hash db = elim (find (λ s. text_eq s.token_hash hash) db.sessions) [
  | none ↦ none
  | some row ↦ elim (find_specialist_by_id row.specialist_id db) [
    | none ↦ none
    | some specialist ↦ some (row, specialist)
  ]
]

abbrev pub find_session_by_id : Text → Database → Option SessionRow
find_session_by_id id db = find (λ s. text_eq s.id id) db.sessions

-- `UPDATE sessions SET ... WHERE id = ...`
abbrev pub updated : (SessionRow → SessionRow) → Text → SessionRow → SessionRow
updated change id s = if text_eq s.id id then change s else s

abbrev pub update_session : (SessionRow → SessionRow) → Text → Database → Database
update_session change id db = record db { sessions = map (updated change id) db.sessions }

abbrev pub update_csrf_token_hash : Text → List ℕ → Database → Database
update_csrf_token_hash id hash db = update_session (λ s. record s { csrf_token_hash = hash }) id db

-- A session that is revoked keeps the first reason.
abbrev pub revoked_once : RevocationReason → ℕ → SessionRow → SessionRow
revoked_once reason at s =
    if is_some s.revoked_at
    then s
    else record s { revoked_at = some at; revocation_reason = some reason }

abbrev pub revoke_session : Text → RevocationReason → ℕ → Database → Database
revoke_session id reason at db = update_session (revoked_once reason at) id db

abbrev pub update_last_seen : Text → ℕ → Database → Database
update_last_seen id at db = update_session (λ s. record s { last_seen_at = at }) id db
