-- ===== src/Sessions/Revoked.antt =====
-- server/src/services/session.service.ts: the calls that change sessions as steps of the database, and
-- what no sequence of them undoes.
use mathlib.Core.Option
use cargo_execution_assistan.Prelude.{
  ℕ, ◌≡◌, refl, ap, ◌∙◌, subst, Option, some, List, [], ◌∷◌, ok, find, find-append-some, find-map,
  arith, Bool-cases, Option-cases, inl, inr, is_some,
}
use cargo_execution_assistan.Text.{Text, text_eq}
use cargo_execution_assistan.Text.Encoding.{utf8}
use cargo_execution_assistan.Database.{
  Database, SpecialistRow, SessionRow, RevocationReason, expired, signed_out,
}
use cargo_execution_assistan.Sessions.{Crypto}
use cargo_execution_assistan.Sessions.Throttle.{ThrottleStore, normalised, throttle_key}
use cargo_execution_assistan.Sessions.Repository.{
  find_specialist_by_id, insert_session, touched, touch_last_sign_in, find_session_by_token_hash,
  find_session_by_id, updated, update_session, revoked_once, revoke_session, update_csrf_token_hash,
}
use cargo_execution_assistan.Sessions.SignIn.{
  SignInInput, SignInSupply, SignInOutcome, SignInResult, minted, sign_in, attempt,
}
use cargo_execution_assistan.Sessions.Load.{
  revoked, load_session_by_token, expire_session, expire_session_by_token, sign_out, touch_session,
  rotate_csrf_token,
}
use cargo_execution_assistan.Sessions.Attempts.{mint-cases, attempt-cases, sign_in-cases, pruned}
use cargo_execution_assistan.Sessions.Lifetime.{insert_session-ok}

-- One call that returns, or a statement on other tables.
pub data Step (crypto : Crypto) : Database → Database → Type 0 where
  signs_in :
      (input : SignInInput) (supply : SignInSupply) (store store' : ThrottleStore)
      (result : SignInResult) (db db' : Database)
      → sign_in crypto input supply store db ≡ (store', ok (result, db'))
      → Step crypto db db'
  signs_out : (id : Text) (at : ℕ) (db : Database) → Step crypto db (sign_out id at db)
  expires : (id : Text) (at : ℕ) (db : Database) → Step crypto db (expire_session id at db)
  expires_by_token :
      (token : Text) (at : ℕ) (db : Database)
      → Step crypto db (expire_session_by_token crypto token at db)
  touches : (id : Text) (at : ℕ) (db : Database) → Step crypto db (touch_session id at db)
  rotates :
      (fresh id : Text) (answer : Text × ℕ) (db db' : Database)
      → rotate_csrf_token crypto fresh id db ≡ ok (answer, db')
      → Step crypto db db'
  elsewhere :
      (db db' : Database)
      → db'.sessions ≡ db.sessions
      → db'.specialists ≡ db.specialists
      → Step crypto db db'

pub data Reaches (crypto : Crypto) : Database → Database → Type 0 where
  here : (db : Database) → Reaches crypto db db
  then_step :
      (db db' db'' : Database)
      → Step crypto db db'
      → Reaches crypto db' db''
      → Reaches crypto db db''

module _ (hash : List ℕ) (at : ℕ) (reason : Option RevocationReason) where
  -- The session under the hash was revoked at this time for this reason.
  abbrev pub WasRevoked : Database → Type 0
  WasRevoked db =
      (row : SessionRow) × (specialist : SpecialistRow) × (find_session_by_token_hash hash db
        ≡ some (row, specialist))
      × (row.revoked_at ≡ some at)
      × (row.revocation_reason ≡ reason)

  -- The row of the session with its owner, before they are joined.
  Parts : Database → Type 0
  Parts db =
      (row : SessionRow) × (specialist : SpecialistRow) × (find (λ s. text_eq s.token_hash hash)
          db.sessions
        ≡ some row)
      × (find_specialist_by_id row.specialist_id db ≡ some specialist)
      × (row.revoked_at ≡ some at)
      × (row.revocation_reason ≡ reason)

  split-Parts : (db : Database) → WasRevoked db → Parts db
  unfolding Parts find_session_by_token_hash
  split-Parts db (row, specialist, found, was, why) =
      elim (Option-cases (find (λ s. text_eq s.token_hash hash) db.sessions)) [
        | inl e ↦ let h = rw (e, find_session_by_token_hash) at found in cc
        | inr (r, e) ↦ elim (Option-cases (find_specialist_by_id r.specialist_id db)) [
          | inl e' ↦
              let h =
                rw (e', find_session_by_token_hash) at
                  (rw (e, find_session_by_token_hash) at found) in
              cc
          | inr (o, e') ↦
              let h =
                rw (e', find_session_by_token_hash) at
                  (rw (e, find_session_by_token_hash) at found) in
              let same : r ≡ row = cc in (r, o, e, e', rw same was, rw same why)
        ]
      ]

  join-WasRevoked : (db : Database) → Parts db → WasRevoked db
  unfolding Parts find_session_by_token_hash
  join-WasRevoked db (row, specialist, found, owner, was, why) = (
    row,
    specialist,
    rw (found, find_session_by_token_hash) (rw (owner, find_session_by_token_hash) refl),
    was,
    why,
  )

  -- A change of a row that keeps its hash, its owner and a revocation.
  update-Parts :
      (change : SessionRow → SessionRow) (id : Text) (db : Database)
      → ((s : SessionRow)
          → ((change s).token_hash ≡ s.token_hash) × ((change s).specialist_id ≡ s.specialist_id))
      → ((s : SessionRow)
          → s.revoked_at ≡ some at
          → ((change s).revoked_at ≡ some at)
            × ((change s).revocation_reason ≡ s.revocation_reason))
      → Parts db
      → Parts (update_session change id db)
  unfolding Parts
  update-Parts change id db same keeps (row, specialist, found, owner, was, why) = (
    updated change id row,
    specialist,
    find-map (λ s. text_eq s.token_hash hash) (updated change id) db.sessions same_hash
        ∙ ap (Option.map (updated change id)) found,
    rw (same_owner row) owner,
    kept.0,
    kept.1,
  )
    where
      same_hash :
          (s : SessionRow)
          → text_eq (updated change id s).token_hash hash ≡ text_eq s.token_hash hash
      same_hash s = ground (arith, same s)

      same_owner : (s : SessionRow) → (updated change id s).specialist_id ≡ s.specialist_id
      same_owner s = ground (arith, same s)

      kept :
          ((updated change id row).revoked_at ≡ some at)
          × ((updated change id row).revocation_reason ≡ reason)
      kept = ground (arith, keeps row was)

  touch-Parts :
      (id : Text) (when : ℕ) (db : Database) → Parts db → Parts (touch_last_sign_in id when db)
  unfolding Parts
  touch-Parts id when db (row, specialist, found, owner, was, why) = (
    row,
    touched id when specialist,
    found,
    find-map (λ s. text_eq s.id row.specialist_id) (touched id when) db.specialists
          (λ s. ground arith)
        ∙ ap (Option.map (touched id when)) owner,
    was,
    why,
  )

  insert-Parts :
      (id : Text) (when : ℕ) (new : SessionRow) (db inserted : Database)
      → Parts db
      → insert_session new db ≡ ok inserted
      → Parts (touch_last_sign_in id when inserted)
  unfolding Parts
  insert-Parts id when new db inserted (row, specialist, found, owner, was, why) h =
      touch-Parts id when inserted (
        rw (insert_session-ok new db inserted h).0 (
          row,
          specialist,
          find-append-some (λ s. text_eq s.token_hash hash) db.sessions (new ∷ []) row found,
          owner,
          was,
          why,
        ))

  sign_in-Parts :
      (crypto : Crypto) (input : SignInInput) (supply : SignInSupply) (store store' : ThrottleStore)
      (result : SignInResult) (db db' : Database)
      → Parts db
      → sign_in crypto input supply store db ≡ (store', ok (result, db'))
      → Parts db'
  sign_in-Parts crypto input supply store store' result db db' parts =
      sign_in-cases crypto input supply store db From (λ e. from_attempt store)
        (λ fs e full h. unchanged cc)
        (λ fs e room. from_attempt (pruned crypto input supply store db fs))
    where
      From : SignInOutcome → Type 0
      From o = o ≡ (store', ok (result, db')) → Parts db'

      unchanged : db ≡ db' → Parts db'
      unchanged e = subst Parts e parts

      from_attempt :
          (t : ThrottleStore)
          → From (
              attempt crypto
                (normalised crypto input.email)
                (throttle_key crypto (normalised crypto input.email))
                input
                supply
                t
                db)
      from_attempt t =
          attempt-cases From crypto (normalised crypto input.email)
            (throttle_key crypto (normalised crypto input.email)) input supply t db
            (λ h. unchanged cc) (λ h. unchanged cc)
            λ row found on.
              mint-cases From crypto (throttle_key crypto (normalised crypto input.email)) input
                supply t row db
                (λ inserted e h.
                  let same : touch_last_sign_in row.id supply.created_at inserted ≡ db' = cc in
                  subst Parts same (
                    insert-Parts row.id supply.created_at (minted crypto input supply row) db
                      inserted parts e))
                (λ thrown h. cc)

  revoke-Parts :
      (id : Text) (why : RevocationReason) (when : ℕ) (db : Database)
      → Parts db
      → Parts (revoke_session id why when db)
  revoke-Parts id why when db parts =
      update-Parts (revoked_once why when) id db (λ s. (ground arith, ground arith))
        (λ s w. (rw w refl, rw w refl)) parts

  expire-Parts :
      (crypto : Crypto) (token : Text) (when : ℕ) (db : Database)
      → Parts db
      → Parts (expire_session_by_token crypto token when db)
  unfolding expire_session_by_token
  expire-Parts crypto token when db parts =
      elim (Option-cases (find_session_by_token_hash (crypto.sha256 (utf8 token)) db)) [
        | inl e ↦ rw (e, expire_session_by_token) parts
        | inr ((row, specialist), e) ↦ elim (Bool-cases (is_some row.revoked_at)) [
          | inl was ↦ rw (e, expire_session_by_token) (rw was parts)
          | inr live ↦
              rw (e, expire_session_by_token) (rw live (revoke-Parts row.id expired when db parts))
        ]
      ]

  rotate-Parts :
      (crypto : Crypto) (fresh id : Text) (answer : Text × ℕ) (db db' : Database)
      → Parts db
      → rotate_csrf_token crypto fresh id db ≡ ok (answer, db')
      → Parts db'
  unfolding rotate_csrf_token
  rotate-Parts crypto fresh id answer db db' parts h =
      elim (Option-cases (find_session_by_id id db)) [
        | inl e ↦ let h' = rw (e, rotate_csrf_token) at h in cc
        | inr (row, e) ↦
            let h' = rw (e, rotate_csrf_token) at h in
            let same : update_csrf_token_hash id (crypto.sha256 (utf8 fresh)) db ≡ db' = cc in
            subst Parts same (
              update-Parts (λ s. record s { csrf_token_hash = crypto.sha256 (utf8 fresh) }) id db
                (λ s. (refl, refl)) (λ s w. (w, refl)) parts)
      ]

  Step-Parts : (crypto : Crypto) (db db' : Database) → Step crypto db db' → Parts db → Parts db'
  unfolding Parts
  Step-Parts crypto db db' (signs_in input supply store store' result _ _ e) parts =
      sign_in-Parts crypto input supply store store' result db db' parts e
  Step-Parts crypto db db' (signs_out id when _) parts = revoke-Parts id signed_out when db parts
  Step-Parts crypto db db' (expires id when _) parts = revoke-Parts id expired when db parts
  Step-Parts crypto db db' (expires_by_token token when _) parts =
      expire-Parts crypto token when db parts
  Step-Parts crypto db db' (touches id when _) parts =
      update-Parts (λ s. record s { last_seen_at = when }) id db (λ s. (refl, refl))
        (λ s w. (w, refl)) parts
  Step-Parts crypto db db' (rotates fresh id answer _ _ e) parts =
      rotate-Parts crypto fresh id answer db db' parts e
  Step-Parts crypto db db' (elsewhere _ _ e e') (row, specialist, found, owner, was, why) =
      (row, specialist, rw e found, rw e' owner, was, why)

  Reaches-Parts :
      (crypto : Crypto) (db db' : Database) → Reaches crypto db db' → Parts db → Parts db'
  Reaches-Parts crypto db db' (here _) parts = parts
  Reaches-Parts crypto db db' (then_step _ mid _ step rest) parts =
      Reaches-Parts crypto mid db' rest (Step-Parts crypto db mid step parts)

-- A revoked session stays revoked, with the time and the reason of its first revocation, through every
-- sequence of calls and of statements on other tables, and its token never resolves to anything else.
pub revoked_for_ever :
    (crypto : Crypto) (token : Text) (at : ℕ) (reason : Option RevocationReason) (db db' : Database)
    (later : ℕ)
    → WasRevoked (crypto.sha256 (utf8 token)) at reason db
    → Reaches crypto db db'
    → WasRevoked (crypto.sha256 (utf8 token)) at reason db'
      × (load_session_by_token crypto token later db' ≡ revoked)
unfolding load_session_by_token
revoked_for_ever crypto token at reason db db' later was reached =
    let hash = crypto.sha256 (utf8 token) in
    let (row, specialist, found, w, why) =
      join-WasRevoked hash at reason db'
        (Reaches-Parts hash at reason crypto db db' reached (split-Parts hash at reason db was)) in
    ((row, specialist, found, w, why), rw (found, load_session_by_token) (rw w refl))
