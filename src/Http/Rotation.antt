-- ===== src/Http/Rotation.antt =====
-- server/src/http/routes/session.ts: `GET /api/session` and its rotation of the CSRF token.
use mathlib.Core.Option
use cargo_execution_assistan.Prelude.{
  ℕ, ◌≡◌, refl, ap, ◌∙◌, true, false, none, some, List, find, Bool-cases, Option-cases, inl, inr,
  is_some,
}
use cargo_execution_assistan.Text.{Text, text_eq}
use cargo_execution_assistan.Text.Laws.{text_eq_refl}
use cargo_execution_assistan.Text.Encoding.{utf8}
use cargo_execution_assistan.Text.Map.{IsKeyed, find-IsKeyed}
use cargo_execution_assistan.Database.{Database, SpecialistRow, SessionRow}
use cargo_execution_assistan.Sessions.{Crypto}
use cargo_execution_assistan.Sessions.Repository.{
  find_session_by_token_hash, find_specialist_by_id, find_session_by_id, updated,
  update_csrf_token_hash,
}
use cargo_execution_assistan.Sessions.Load.{
  LoadedSession, valid, loaded, is_expired, session_outcome, load_session_by_token,
  rotate_csrf_token,
}
use cargo_execution_assistan.Sessions.SignIn.{specialist_dto}
use cargo_execution_assistan.Sessions.Frames.{on_row, find_session-update}
use cargo_execution_assistan.Http.Guards.{context_of}
use cargo_execution_assistan.Http.SessionRoutes.{replied, session_dto, get_session}

outcome-valid :
    (row : SessionRow) (specialist : SpecialistRow) (now : ℕ) (s : LoadedSession)
    → session_outcome row specialist now ≡ valid s
    → (is_some row.revoked_at ≡ false)
      × (is_expired row now ≡ false)
      × (specialist.is_active ≡ true)
      × (s ≡ loaded row specialist)
outcome-valid row specialist now s h = elim (Bool-cases (is_some row.revoked_at)) [
  | inl e ↦ let h' = rw e at h in cc
  | inr e ↦ elim (Bool-cases (is_expired row now)) [
    | inl f ↦ let h' = rw f at (rw e at h) in cc
    | inr f ↦ elim (Bool-cases specialist.is_active) [
      | inr g ↦ let h' = rw g at (rw f at (rw e at h)) in cc
      | inl g ↦ let h' = rw g at (rw f at (rw e at h)) in (e, f, g, cc)
    ]
  ]
]

outcome-rotated :
    (row : SessionRow) (specialist : SpecialistRow) (now : ℕ) (hash : List ℕ)
    → is_some row.revoked_at ≡ false
    → is_expired row now ≡ false
    → specialist.is_active ≡ true
    → session_outcome (record row { csrf_token_hash = hash }) specialist now
      ≡ valid (loaded (record row { csrf_token_hash = hash }) specialist)
outcome-rotated row specialist now hash e f g = rw e (rw f (rw g refl))

-- The row that a valid outcome comes from.
load-valid :
    (crypto : Crypto) (token : Text) (now : ℕ) (db : Database) (s : LoadedSession)
    → load_session_by_token crypto token now db ≡ valid s
    → (row : SessionRow) × (specialist : SpecialistRow) × (find_session_by_token_hash
          (crypto.sha256 (utf8 token))
          db
        ≡ some (row, specialist))
      × (session_outcome row specialist now ≡ valid s)
unfolding load_session_by_token
load-valid crypto token now db s h =
    elim (Option-cases (find_session_by_token_hash (crypto.sha256 (utf8 token)) db)) [
      | inl e ↦ let h' = rw (e, load_session_by_token) at h in cc
      | inr ((row, specialist), e) ↦ (row, specialist, e, rw (e, load_session_by_token) at h)
    ]

find-row :
    (hash : List ℕ) (db : Database) (row : SessionRow) (specialist : SpecialistRow)
    → find_session_by_token_hash hash db ≡ some (row, specialist)
    → find (λ s. text_eq s.token_hash hash) db.sessions ≡ some row
unfolding find_session_by_token_hash
find-row hash db row specialist h =
    elim (Option-cases (find (λ s. text_eq s.token_hash hash) db.sessions)) [
      | inl e ↦ let h' = rw (e, find_session_by_token_hash) at h in cc
      | inr (r, e) ↦ elim (Option-cases (find_specialist_by_id r.specialist_id db)) [
        | inl f ↦
            let h' =
              rw (f, find_session_by_token_hash) at (rw (e, find_session_by_token_hash) at h) in
            cc
        | inr (o, f) ↦
            let h' =
              rw (f, find_session_by_token_hash) at (rw (e, find_session_by_token_hash) at h) in
            e ∙ cc
      ]
    ]

module _ (crypto : Crypto) (fresh : Text) (db : Database) (row : SessionRow)
    (specialist : SpecialistRow) where
  digest : List ℕ
  digest = crypto.sha256 (utf8 fresh)

  get_session-found :
      find_session_by_id row.id db ≡ some row
      → get_session crypto fresh (context_of (loaded row specialist)) db ≡ (
        replied 200 none
            (some (session_dto (specialist_dto specialist) fresh row.absolute_expires_at)),
        update_csrf_token_hash row.id digest db,
      )
  unfolding get_session rotate_csrf_token digest
  get_session-found e = rw (e, get_session) refl

  load-rotated :
      (token : Text) (now : ℕ)
      → find_session_by_token_hash (crypto.sha256 (utf8 token)) db ≡ some (row, specialist)
      → session_outcome row specialist now ≡ valid (loaded row specialist)
      → load_session_by_token crypto token now (update_csrf_token_hash row.id digest db)
        ≡ valid (record (loaded row specialist) { csrf_token_hash = digest })
  unfolding load_session_by_token
  load-rotated token now joined outcome =
      let change : SessionRow → SessionRow = λ s. record s { csrf_token_hash = digest } in
      let moved =
        find_session-update change row.id (crypto.sha256 (utf8 token)) db (λ s. (refl, refl)) in
      let (live, early, active, same) =
        outcome-valid row specialist now (loaded row specialist) outcome in
      rw (moved ∙ ap (Option.map (on_row (updated change row.id))) joined, load_session_by_token)
        (rw (text_eq_refl row.id) (outcome-rotated row specialist now digest live early active))

-- Where the ids of the sessions differ, a read of a valid session is answered with its specialist, a
-- fresh CSRF token and its expiry, and afterwards the token of the session resolves to the same
-- session with the digest of the fresh CSRF token in place of the old one.
pub get_session-rotates :
    (crypto : Crypto) (token fresh : Text) (now : ℕ) (db : Database) (s : LoadedSession)
    → IsKeyed (λ r. r.id) db.sessions
    → load_session_by_token crypto token now db ≡ valid s
    → let (reply, db') = get_session crypto fresh (context_of s) db in
      (reply ≡ replied 200 none (some (session_dto s.specialist fresh s.absolute_expires_at)))
      × (load_session_by_token crypto token now db'
          ≡ valid (record s { csrf_token_hash = crypto.sha256 (utf8 fresh) }))
unfolding digest
get_session-rotates crypto token fresh now db s keyed h =
    let (row, specialist, joined, outcome) = load-valid crypto token now db s h in
    let (live, early, active, same) = outcome-valid row specialist now s outcome in
    let by_id =
      find-IsKeyed (λ r. r.id) (λ r. text_eq r.token_hash (crypto.sha256 (utf8 token))) db.sessions
        row keyed (find-row (crypto.sha256 (utf8 token)) db row specialist joined) in
    let answered = get_session-found crypto fresh db row specialist by_id in
    rw (same, answered)
      (refl, load-rotated crypto fresh db row specialist token now joined (outcome ∙ ap valid same))
