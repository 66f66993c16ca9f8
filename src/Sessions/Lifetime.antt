-- ===== src/Sessions/Lifetime.antt =====
-- server/src/services/session.service.ts: what a successful sign-in leaves, and how long its session
-- lasts.
use cargo_execution_assistan.Prelude.{
  ℕ, ◌+◌, ◌≡◌, refl, sym, ap, ◌∙◌, true, false, none, some, [], ◌∷◌, ◌++◌, ok, check_all,
  check_all_iff, >>=-eq-ok, ok_inj, any, find-append-none, find-map, ltb, arith, if◌then◌else◌,
}
use mathlib.Core.Option
use cargo_execution_assistan.Text.{Text, text_eq}
use cargo_execution_assistan.Text.Laws.{text_eq_refl}
use cargo_execution_assistan.Text.Encoding.{utf8}
use cargo_execution_assistan.Text.Map.{get, delete, get-delete, IsKeyed, find-IsKeyed}
use cargo_execution_assistan.Database.{Database, SpecialistRow, SessionRow}
use cargo_execution_assistan.Sessions.{Crypto, session_absolute_ms, session_idle_ms}
use cargo_execution_assistan.Sessions.Throttle.{ThrottleStore, normalised, throttle_key}
use cargo_execution_assistan.Sessions.Repository.{
  find_specialist_by_email, find_specialist_by_id, insert_session, session_constraints, touched,
  touch_last_sign_in, find_session_by_token_hash,
}
use cargo_execution_assistan.Sessions.SignIn.{
  SignInInput, SignInSupply, SignInOutcome, SignedIn, signed_in, minted, sign_in, sign_in_response,
  specialist_dto, attempt,
}
use cargo_execution_assistan.Sessions.Load.{
  valid, expired_session, session_outcome, load_session_by_token,
}
use cargo_execution_assistan.Sessions.Attempts.{mint-cases, attempt-cases, sign_in-cases, pruned}

-- Who has signed in is found with the same id, name and activity.
pub find_specialist-touch :
    (id : Text) (at : ℕ) (db : Database) (row : SpecialistRow)
    → find_specialist_by_id id db ≡ some row
    → find_specialist_by_id id (touch_last_sign_in id at db) ≡ some (touched id at row)
find_specialist-touch id at db row found =
    find-map (λ s. text_eq s.id id) (touched id at) db.specialists (λ s. ground arith)
    ∙ ap (Option.map (touched id at)) found

pub insert_session-ok :
    (row : SessionRow) (db inserted : Database)
    → insert_session row db ≡ ok inserted
    → (inserted ≡ record db { sessions = db.sessions ++ row ∷ [] })
      × (any (λ s. text_eq s.token_hash row.token_hash) db.sessions ≡ false)
unfolding insert_session
insert_session-ok row db inserted h =
    let (u, checked, h') = >>=-eq-ok (check_all (session_constraints row db)) _ h in
    let holds = (check_all_iff (session_constraints row db) u).0 checked in
    (sym (ok_inj h'), ground (arith, holds.1.1.1.1.0))

module _ (crypto : Crypto) (input : SignInInput) (supply : SignInSupply) (store : ThrottleStore)
    (db : Database) where
  abbrev email : Text
  email = normalised crypto input.email

  abbrev key : Text
  key = throttle_key crypto email

  -- The active specialist of the email, with the session inserted for them.
  record Succeeded (store' : ThrottleStore) (s : SignedIn) (db' : Database) : Type 0 where
    row : SpecialistRow
    inserted : Database
    found : find_specialist_by_email email db ≡ some row
    active : row.is_active ≡ true
    insertion : insert_session (minted crypto input supply row) db ≡ ok inserted
    answer : signed_in s ≡ sign_in_response supply row
    touching : db' ≡ touch_last_sign_in row.id supply.created_at inserted
    cleared : get key store' ≡ none

  sign_in-Succeeded :
      (store' : ThrottleStore) (s : SignedIn) (db' : Database)
      → sign_in crypto input supply store db ≡ (store', ok (signed_in s, db'))
      → Succeeded store' s db'
  sign_in-Succeeded store' s db' =
      sign_in-cases crypto input supply store db From (λ e. from_attempt store) (λ fs e full h. cc)
        (λ fs e room. from_attempt (pruned crypto input supply store db fs))
    where
      From : SignInOutcome → Type 0
      From o = o ≡ (store', ok (signed_in s, db')) → Succeeded store' s db'

      from_attempt : (t : ThrottleStore) → From (attempt crypto email key input supply t db)
      from_attempt t =
          attempt-cases From crypto email key input supply t db (λ h. cc) (λ h. cc)
            λ row found on.
              mint-cases From crypto key input supply t row db
                (λ inserted e h. record {
                  row = row;
                  inserted = inserted;
                  found = found;
                  active = on;
                  insertion = e;
                  answer = cc;
                  touching = cc;
                  cleared = let kept : delete key t ≡ store' = cc in rw (← kept) (get-delete key t);
                })
                (λ thrown h. cc)

  signed_in_by : SpecialistRow → SignedIn
  signed_in_by row = record {
    specialist = specialist_dto row;
    session_id = supply.session_id;
    token = supply.token;
    csrf_token = supply.csrf_token;
    absolute_expires_at = supply.created_at + session_absolute_ms;
  }

  response_inj :
      (s : SignedIn) (row : SpecialistRow)
      → signed_in s ≡ sign_in_response supply row
      → s ≡ signed_in_by row
  unfolding signed_in_by
  response_inj s row h = cc

  joined_after :
      (row : SpecialistRow) (inserted : Database)
      → IsKeyed (λ s. s.id) db.specialists
      → find_specialist_by_email email db ≡ some row
      → insert_session (minted crypto input supply row) db ≡ ok inserted
      → find_session_by_token_hash
          (crypto.sha256 (utf8 supply.token))
          (touch_last_sign_in row.id supply.created_at inserted)
        ≡ some (minted crypto input supply row, touched row.id supply.created_at row)
  unfolding find_session_by_token_hash
  joined_after row inserted keyed found h =
      let (added, new) = insert_session-ok (minted crypto input supply row) db inserted h in
      let there =
        find-append-none (λ s. text_eq s.token_hash (crypto.sha256 (utf8 supply.token))) db.sessions
          (minted crypto input supply row) new (text_eq_refl (crypto.sha256 (utf8 supply.token))) in
      let owner =
        find_specialist-touch row.id supply.created_at db row
          (find-IsKeyed (λ s. s.id) (λ s. text_eq s.email email) db.specialists row keyed found) in
      rw added
        (rw (there, find_session_by_token_hash) (rw (owner, find_session_by_token_hash) refl))

  fresh_outcome :
      (row : SpecialistRow) (later : ℕ)
      → row.is_active ≡ true
      → session_outcome
          (minted crypto input supply row)
          (touched row.id supply.created_at row)
          later
        ≡ (if ltb (supply.created_at + session_idle_ms) later
            then expired_session
            else valid (record {
              session_id = supply.session_id;
              specialist = specialist_dto row;
              last_seen_at = supply.created_at;
              absolute_expires_at = supply.created_at + session_absolute_ms;
              csrf_token_hash = crypto.sha256 (utf8 supply.csrf_token);
            }))
  fresh_outcome row later active = ground arith

  -- Where the ids of the specialists differ, the session of a sign-in that succeeds is valid for
  -- thirty minutes from its creation if it is not used, with the specialist whose email was given,
  -- and expired after them; it has the two random tokens, and the failures of the email are
  -- forgotten.
  pub sign_in-load :
      (store' : ThrottleStore) (s : SignedIn) (db' : Database) (later : ℕ)
      → IsKeyed (λ s. s.id) db.specialists
      → sign_in crypto input supply store db ≡ (store', ok (signed_in s, db'))
      → (row : SpecialistRow) × (find_specialist_by_email email db ≡ some row)
        × (s.token ≡ supply.token)
        × (s.csrf_token ≡ supply.csrf_token)
        × (s.specialist ≡ specialist_dto row)
        × (get key store' ≡ none)
        × (load_session_by_token crypto s.token later db' ≡ (
            if ltb (supply.created_at + session_idle_ms) later
            then expired_session
            else valid (record {
              session_id = s.session_id;
              specialist = specialist_dto row;
              last_seen_at = supply.created_at;
              absolute_expires_at = s.absolute_expires_at;
              csrf_token_hash = crypto.sha256 (utf8 s.csrf_token);
            })))
  unfolding load_session_by_token signed_in_by
  sign_in-load store' s db' later keyed h =
      let done = sign_in-Succeeded store' s db' h in
      let same : s ≡ signed_in_by done.row = response_inj s done.row done.answer in
      (
        done.row,
        done.found,
        ap (λ x. x.token) same,
        ap (λ x. x.csrf_token) same,
        ap (λ x. x.specialist) same,
        done.cleared,
        rw (same, done.touching)
            (rw
              (
                joined_after done.row done.inserted keyed done.found done.insertion,
                load_session_by_token,
              )
              (fresh_outcome done.row later done.active)),
      )
