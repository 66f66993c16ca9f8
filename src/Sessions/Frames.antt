-- ===== src/Sessions/Frames.antt =====
-- server/src/services/session.service.ts: which sessions a sign-out, a touch and a rotation concern.
use mathlib.Core.Option
use cargo_execution_assistan.Prelude.{
  ℕ, ◌≡◌, refl, sym, ap, ◌∙◌, Bool, none, some, List, find, map, find-map, arith, Bool-cases,
  Option-cases, inl, inr, if◌then◌else◌,
}
use cargo_execution_assistan.Text.{Text, text_eq}
use cargo_execution_assistan.Text.Encoding.{utf8}
use cargo_execution_assistan.Database.{Database, SpecialistRow, SessionRow, signed_out}
use cargo_execution_assistan.Sessions.{Crypto}
use cargo_execution_assistan.Sessions.Repository.{
  find_specialist_by_id, find_session_by_token_hash, updated, update_session, revoked_once,
}
use cargo_execution_assistan.Sessions.Load.{
  absent, revoked, load_session_by_token, sign_out, session_outcome,
}

abbrev pub on_row :
    (SessionRow → SessionRow) → SessionRow × SpecialistRow → SessionRow × SpecialistRow
on_row f (row, specialist) = (f row, specialist)

-- A statement that keeps token hashes and owners changes a row in its place.
pub find_session-update :
    (change : SessionRow → SessionRow) (id : Text) (hash : List ℕ) (db : Database)
    → ((s : SessionRow)
        → ((change s).token_hash ≡ s.token_hash) × ((change s).specialist_id ≡ s.specialist_id))
    → find_session_by_token_hash hash (update_session change id db)
      ≡ Option.map (on_row (updated change id)) (find_session_by_token_hash hash db)
unfolding find_session_by_token_hash
find_session-update change id hash db same = elim (Option-cases (find has_hash db.sessions)) [
  | inl e ↦
      rw (moved ∙ ap (Option.map (updated change id)) e, find_session_by_token_hash)
        (rw (e, find_session_by_token_hash) refl)
  | inr (row, e) ↦ elim (Option-cases (find_specialist_by_id row.specialist_id db)) [
    | inl e' ↦
        rw (moved ∙ ap (Option.map (updated change id)) e, find_session_by_token_hash)
          (rw (owner row ∙ e', find_session_by_token_hash)
            (rw (e, find_session_by_token_hash) (rw (e', find_session_by_token_hash) refl)))
    | inr (specialist, e') ↦
        rw (moved ∙ ap (Option.map (updated change id)) e, find_session_by_token_hash)
          (rw (owner row ∙ e', find_session_by_token_hash)
            (rw (e, find_session_by_token_hash) (rw (e', find_session_by_token_hash) refl)))
  ]
]
  where
    has_hash : SessionRow → Bool
    has_hash s = text_eq s.token_hash hash

    same_hash : (s : SessionRow) → has_hash (updated change id s) ≡ has_hash s
    same_hash s = ground (arith, same s)

    moved :
        find has_hash (map (updated change id) db.sessions)
        ≡ Option.map (updated change id) (find has_hash db.sessions)
    moved = find-map has_hash (updated change id) db.sessions same_hash

    owner :
        (s : SessionRow)
        → find_specialist_by_id (updated change id s).specialist_id db
          ≡ find_specialist_by_id s.specialist_id db
    owner s = ap (λ i. find_specialist_by_id i db) (ground (arith, same s))

signed_out_outcome :
    (id : Text) (at later : ℕ) (row : SessionRow) (specialist : SpecialistRow)
    → session_outcome (updated (revoked_once signed_out at) id row) specialist later
      ≡ (if text_eq row.id id then revoked else session_outcome row specialist later)
signed_out_outcome id at later row specialist = elim (Bool-cases (text_eq row.id id)) [
  | inr other ↦ rw other refl
  | inl own ↦ elim (Option-cases row.revoked_at) [
    | inl e ↦ rw own (rw e refl)
    | inr (t, e) ↦ rw own (rw e refl)
  ]
]

-- The outcome under a token after a sign-out: the session that signs out is revoked at once and at
-- every later time, and every other token resolves as it did before.
pub sign_out-load :
    (crypto : Crypto) (id token : Text) (at later : ℕ) (db : Database)
    → load_session_by_token crypto token later (sign_out id at db)
      ≡ elim (find_session_by_token_hash (crypto.sha256 (utf8 token)) db) [
        | none ↦ absent
        | some (row, specialist) ↦
            if text_eq row.id id then revoked else load_session_by_token crypto token later db
      ]
unfolding load_session_by_token
sign_out-load crypto id token at later db =
    let hash = crypto.sha256 (utf8 token) in
    let change = revoked_once signed_out at in
    let moved = find_session-update change id hash db (λ s. (ground arith, ground arith)) in
    elim (Option-cases (find_session_by_token_hash hash db)) [
      | inl e ↦
          rw (moved ∙ ap (Option.map (on_row (updated change id))) e, load_session_by_token)
            (rw e refl)
      | inr ((row, specialist), e) ↦
          rw (moved ∙ ap (Option.map (on_row (updated change id))) e, load_session_by_token)
            (rw e (
              signed_out_outcome id at later row specialist
              ∙ ap (λ o. if text_eq row.id id then revoked else o)
                  (sym (resolved row specialist e))))
    ]
  where
    resolved :
        (row : SessionRow) (specialist : SpecialistRow)
        → find_session_by_token_hash (crypto.sha256 (utf8 token)) db ≡ some (row, specialist)
        → load_session_by_token crypto token later db ≡ session_outcome row specialist later
    resolved row specialist e = rw (e, load_session_by_token) refl
