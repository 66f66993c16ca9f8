-- ===== src/Sessions/Attempts.antt =====
-- server/src/services/session.service.ts: what `signIn` does to the throttle store and what the
-- throttle refuses.
use cargo_execution_assistan.Prelude.{
  ℕ, ◌+◌, ◌*◌, ◌≤◌, ◌<◌, ◌≡◌, ◌≢◌, refl, ap, ◌∙◌, true, false, none, some, List, [], ◌∷◌, ok, err,
  length, leb, ltb, arith, Bool-cases, Option-cases, Result-cases, inl, inr,
}
use cargo_execution_assistan.Text.{Text}
use cargo_execution_assistan.Text.Map.{get, set, get-set, All-get, All-set, All-delete}
use cargo_execution_assistan.Database.{Database, Thrown, SpecialistRow}
use cargo_execution_assistan.Sessions.{Crypto, throttle_max_failures}
use cargo_execution_assistan.Sessions.Throttle.{
  ThrottleStore, normalised, throttle_key, prune_failures, retry_after_ms, seconds_up, failures_of,
  record_failure, clear_throttle, is_throttled,
}
use cargo_execution_assistan.Sessions.Repository.{
  find_specialist_by_email, insert_session, touch_last_sign_in,
}
use cargo_execution_assistan.Sessions.SignIn.{
  SignInInput, SignInSupply, SignInOutcome, SignInResult, account_inactive, sign_in_response,
  too_many_attempts, auth_failed, password_ok, minted, mint, attempt, sign_in,
}
use cargo_execution_assistan.Sessions.Windows.{
  IsRecorded, IsSound, All-weaken, length-prune, prune-IsRecorded, append-IsRecorded,
  throttled-survivors, seconds_up_lem,
}

record_failure-IsSound :
    (key : Text) (now : ℕ) (store : ThrottleStore)
    → IsSound now store
    → length (failures_of (get key store)) < throttle_max_failures
    → IsSound now (record_failure key now store)
unfolding record_failure
record_failure-IsSound key now store sound room =
    let old = failures_of (get key store) in
    All-set (IsRecorded now) key _ store
      (append-IsRecorded now (prune_failures old now)
        (prune-IsRecorded now now old (omega arith) recorded)
        (omega (arith, length-prune old now, room)))
      sound
  where
    recorded : IsRecorded now (failures_of (get key store))
    recorded = elim (Option-cases (get key store)) [
      | inl e ↦ rw e (record { few = omega arith; past = tt; ordered = tt })
      | inr (fs, e) ↦ rw e (All-get (IsRecorded now) key store fs sound e)
    ]

module _ (P : SignInOutcome → Type 0) (crypto : Crypto) where
  pub mint-cases :
      (key : Text) (input : SignInInput) (supply : SignInSupply) (store : ThrottleStore)
      (row : SpecialistRow) (db : Database)
      → ((inserted : Database)
          → insert_session (minted crypto input supply row) db ≡ ok inserted
          → P (
            clear_throttle key store,
            ok (sign_in_response supply row, touch_last_sign_in row.id supply.created_at inserted),
          ))
      → ((thrown : Thrown) → P (store, err thrown))
      → P (mint crypto key input supply store row db)
  unfolding mint
  mint-cases key input supply store row db done refused =
      elim (Result-cases (insert_session (minted crypto input supply row) db)) [
        | inl (inserted, e) ↦ rw (e, mint) (done inserted e)
        | inr (thrown, e) ↦ rw (e, mint) (refused thrown)
      ]

  -- The three ways of an attempt that the throttle lets through.
  pub attempt-cases :
      (email key : Text) (input : SignInInput) (supply : SignInSupply) (store : ThrottleStore)
      (db : Database)
      → P (record_failure key supply.now store, ok (auth_failed, db))
      → P (store, ok (account_inactive, db))
      → ((row : SpecialistRow)
          → find_specialist_by_email email db ≡ some row
          → row.is_active ≡ true
          → P (mint crypto key input supply store row db))
      → P (attempt crypto email key input supply store db)
  unfolding attempt
  attempt-cases email key input supply store db failed idle minting =
      let found = find_specialist_by_email email db in
      elim (Bool-cases (password_ok crypto found input.password)) [
        | inl right ↦ elim (Option-cases found) [
          | inl e ↦ rw (right, attempt) (rw (e, attempt) idle)
          | inr (row, e) ↦ elim (Bool-cases row.is_active) [
            | inr off ↦ rw (right, attempt) (rw (e, attempt) (rw (off, attempt) idle))
            | inl on ↦ rw (right, attempt) (rw (e, attempt) (rw (on, attempt) (minting row e on)))
          ]
        ]
        | inr wrong ↦ rw (wrong, attempt) failed
      ]

attempt-wrong :
    (crypto : Crypto) (email key : Text) (input : SignInInput) (supply : SignInSupply)
    (store : ThrottleStore) (db : Database)
    → password_ok crypto (find_specialist_by_email email db) input.password ≡ false
    → attempt crypto email key input supply store db
      ≡ (record_failure key supply.now store, ok (auth_failed, db))
unfolding attempt
attempt-wrong crypto email key input supply store db wrong = rw (wrong, attempt) refl

-- Whatever the database does, the store after the password check is one of three.
pub attempt-store :
    (P : ThrottleStore → Type 0) (crypto : Crypto) (email key : Text) (input : SignInInput)
    (supply : SignInSupply) (store : ThrottleStore) (db : Database)
    → P (record_failure key supply.now store)
    → P store
    → P (clear_throttle key store)
    → P (attempt crypto email key input supply store db).0
attempt-store P crypto email key input supply store db failed same cleared =
    attempt-cases (λ o. P o.0) crypto email key input supply store db failed same
      λ row found on.
        mint-cases (λ o. P o.0) crypto key input supply store row db (λ db' e. cleared)
          (λ thrown. same)

attempt-ne-too_many :
    (crypto : Crypto) (email key : Text) (input : SignInInput) (supply : SignInSupply)
    (store store' : ThrottleStore) (n : ℕ) (db db' : Database)
    → attempt crypto email key input supply store db ≢ (store', ok (too_many_attempts n, db'))
attempt-ne-too_many crypto email key input supply store store' n db db' =
    let target : SignInOutcome = (store', ok (too_many_attempts n, db')) in
    attempt-cases (λ o. o ≢ target) crypto email key input supply store db (λ h. cc) (λ h. cc)
      λ row found on.
        mint-cases (λ o. o ≢ target) crypto key input supply store row db (λ db' e h. cc)
          (λ thrown h. cc)

IsSound-later :
    (then now : ℕ) (store : ThrottleStore) → then ≤ now → IsSound then store → IsSound now store
IsSound-later then now [] later h = tt
IsSound-later then now ((k, ts) ∷ rest) later h = (
  record {
    few = h.0.few;
    past = All-weaken (λ t p. omega arith) ts h.0.past;
    ordered = h.0.ordered;
  },
  IsSound-later then now rest later h.1,
)

module _ (crypto : Crypto) (input : SignInInput) (supply : SignInSupply) (store : ThrottleStore)
    (db : Database) where
  abbrev email : Text
  email = normalised crypto input.email

  abbrev key : Text
  key = throttle_key crypto email

  abbrev pub pruned : List ℕ → ThrottleStore
  pruned fs = set key (prune_failures fs supply.now) store

  -- The three ways of a sign-in: an email without failures, one that is throttled, one that is not.
  pub sign_in-cases :
      (P : SignInOutcome → Type 0)
      → (get key store ≡ none → P (attempt crypto email key input supply store db))
      → ((fs : List ℕ)
          → get key store ≡ some fs
          → leb throttle_max_failures (length (prune_failures fs supply.now)) ≡ true
          → P (
            pruned fs,
            ok (
              too_many_attempts
                  (seconds_up (retry_after_ms (prune_failures fs supply.now) supply.now)),
              db,
            ),
          ))
      → ((fs : List ℕ)
          → get key store ≡ some fs
          → leb throttle_max_failures (length (prune_failures fs supply.now)) ≡ false
          → P (attempt crypto email key input supply (pruned fs) db))
      → P (sign_in crypto input supply store db)
  unfolding sign_in
  sign_in-cases P fresh refused admitted = elim (Option-cases (get key store)) [
    | inl e ↦ rw (e, sign_in) (fresh e)
    | inr (fs, e) ↦
        elim (Bool-cases (leb throttle_max_failures (length (prune_failures fs supply.now)))) [
          | inl full ↦ rw (e, sign_in) (rw (full, sign_in) (refused fs e full))
          | inr room ↦ rw (e, sign_in) (rw (room, sign_in) (admitted fs e room))
        ]
  ]

  -- Sign-ins at times that do not run backwards keep at most five failures under every key, in
  -- order, none of them in the future.
  pub sign_in-IsSound :
      (then : ℕ)
      → IsSound then store
      → then ≤ supply.now
      → IsSound supply.now (sign_in crypto input supply store db).0
  sign_in-IsSound then sound later =
      sign_in-cases (λ o. IsSound supply.now o.0) (λ e. after store sound' (rw e (omega arith)))
        (λ fs e full. kept fs e)
        (λ fs e room.
          after (pruned fs) (kept fs e)
            (rw (get-set key (prune_failures fs supply.now) store) (ground arith)))
    where
      sound' : IsSound supply.now store
      sound' = IsSound-later then supply.now store later sound

      kept : (fs : List ℕ) → get key store ≡ some fs → IsSound supply.now (pruned fs)
      kept fs e =
          All-set (IsRecorded supply.now) key (prune_failures fs supply.now) store
            (prune-IsRecorded supply.now supply.now fs (omega arith)
              (All-get (IsRecorded supply.now) key store fs sound' e))
            sound'

      after :
          (s : ThrottleStore)
          → IsSound supply.now s
          → length (failures_of (get key s)) < throttle_max_failures
          → IsSound supply.now (attempt crypto email key input supply s db).0
      after s ok_s room =
          attempt-store (IsSound supply.now) crypto email key input supply s db
            (record_failure-IsSound key supply.now s ok_s room) ok_s
            (All-delete (IsRecorded supply.now) key s ok_s)

  sign_in_refused :
      (store' : ThrottleStore) (n : ℕ) (db' : Database)
      → sign_in crypto input supply store db ≡ (store', ok (too_many_attempts n, db'))
      → (fs : List ℕ) × (get key store ≡ some fs)
        × (leb throttle_max_failures (length (prune_failures fs supply.now)) ≡ true)
        × (store' ≡ set key (prune_failures fs supply.now) store)
        × (n ≡ seconds_up (retry_after_ms (prune_failures fs supply.now) supply.now))
        × (db' ≡ db)
  sign_in_refused store' n db' =
      sign_in-cases Refused
        (λ e h. absurd (attempt-ne-too_many crypto email key input supply store store' n db db' h))
        (λ fs e full h. (fs, e, full, cc, cc, cc))
        (λ fs e room h.
          absurd (attempt-ne-too_many crypto email key input supply (pruned fs) store' n db db' h))
    where
      Refused : SignInOutcome → Type 0
      Refused o =
          o ≡ (store', ok (too_many_attempts n, db'))
          → (fs : List ℕ) × (get key store ≡ some fs)
            × (leb throttle_max_failures (length (prune_failures fs supply.now)) ≡ true)
            × (store' ≡ set key (prune_failures fs supply.now) store)
            × (n ≡ seconds_up (retry_after_ms (prune_failures fs supply.now) supply.now))
            × (db' ≡ db)

  -- A sign-in that is refused for too many attempts changes no row and names a time of 1 to 900
  -- seconds, the least whole number of seconds to a deadline: before the deadline the email stays
  -- throttled, from the deadline on it is not.
  pub sign_in-throttled :
      (then : ℕ) (store' : ThrottleStore) (n : ℕ) (db' : Database)
      → IsSound then store
      → then ≤ supply.now
      → sign_in crypto input supply store db ≡ (store', ok (too_many_attempts n, db'))
      → (deadline : ℕ) × (db' ≡ db)
        × (1 ≤ n)
        × (n ≤ 900)
        × (supply.now + 1000 * n < deadline + 1000)
        × (deadline ≤ supply.now + 1000 * n)
        × ((later : ℕ)
            → (is_throttled crypto input.email later store').throttled ≡ ltb later deadline)
  unfolding is_throttled
  sign_in-throttled then store' n db' sound later h =
      let (fs, found, full, stored, waits, same) = sign_in_refused store' n db' h in
      let recorded =
        All-get (IsRecorded supply.now) key store fs
          (IsSound-later then supply.now store later sound) found in
      let (deadline, ahead, near, wait, until) = throttled-survivors supply.now fs recorded full in
      let bounds = seconds_up_lem supply.now deadline n ahead near (waits ∙ ap seconds_up wait) in
      (
        deadline,
        same,
        bounds.0,
        bounds.1,
        bounds.2,
        bounds.3,
        λ t.
            rw stored
              (rw (get-set key (prune_failures fs supply.now) store, is_throttled) (until t)),
      )

  -- An email without an account and a wrong password get the same answer and leave the same throttle
  -- store, throttled or not, whatever the two databases hold, and change no row.
  pub sign_in-uniform :
      (other : Database)
      → password_ok crypto (find_specialist_by_email email db) input.password ≡ false
      → password_ok crypto (find_specialist_by_email email other) input.password ≡ false
      → (store' : ThrottleStore) × (result : SignInResult) × (sign_in crypto input supply store db
          ≡ (store', ok (result, db)))
        × (sign_in crypto input supply store other ≡ (store', ok (result, other)))
  unfolding sign_in
  sign_in-uniform other wrong wrong' = elim (Option-cases (get key store)) [
    | inl e ↦ (
      record_failure key supply.now store,
      auth_failed,
      rw (e, sign_in) (attempt-wrong crypto email key input supply store db wrong),
      rw (e, sign_in) (attempt-wrong crypto email key input supply store other wrong'),
    )
    | inr (fs, e) ↦
        elim (Bool-cases (leb throttle_max_failures (length (prune_failures fs supply.now)))) [
          | inl full ↦ (
            pruned fs,
            too_many_attempts
                (seconds_up (retry_after_ms (prune_failures fs supply.now) supply.now)),
            rw (e, sign_in) (rw (full, sign_in) refl),
            rw (e, sign_in) (rw (full, sign_in) refl),
          )
          | inr room ↦ (
            record_failure key supply.now (pruned fs),
            auth_failed,
            rw (e, sign_in)
                (rw (room, sign_in)
                  (attempt-wrong crypto email key input supply (pruned fs) db wrong)),
            rw (e, sign_in)
                (rw (room, sign_in)
                  (attempt-wrong crypto email key input supply (pruned fs) other wrong')),
          )
        ]
  ]
