-- ===== src/Sessions/Tests.antt =====
-- The theorems on sessions, applied to a sign-in on the sample database.
use cargo_execution_assistan.Prelude.{
  ℕ, ◌+◌, ◌*◌, ◌≤◌, ◌<◌, ◌≡◌, refl, Option, none, some, List, [], ◌∷◌, ok, ltb, arith,
  if◌then◌else◌,
}
use cargo_execution_assistan.Text.{Text, codes, text_eq, trim}
use cargo_execution_assistan.Text.Encoding.{utf8, code_points}
use cargo_execution_assistan.Text.Map.{get}
use cargo_execution_assistan.Database.{Database, SpecialistRow, signed_out}
use cargo_execution_assistan.Sessions.{throttle_max_failures, session_idle_ms}
use cargo_execution_assistan.Sessions.Throttle.{
  ThrottleStore, normalised, throttle_key, record_failure, is_throttled,
}
use cargo_execution_assistan.Sessions.Repository.{
  find_specialist_by_email, insert_session, find_session_by_token_hash,
}
use cargo_execution_assistan.Sessions.SignIn.{
  SignInInput, SignInSupply, SignedIn, SignInResult, signed_in, too_many_attempts, specialist_dto,
  mint, attempt, sign_in,
}
use cargo_execution_assistan.Sessions.Load.{
  absent, expired_session, valid, revoked, load_session_by_token, sign_out,
}
use cargo_execution_assistan.Sessions.Windows.{IsSound}
use cargo_execution_assistan.Sessions.Attempts.{sign_in-IsSound, sign_in-throttled, sign_in-uniform}
use cargo_execution_assistan.Sessions.Guessing.{SignInCall, guesses, guesses-le}
use cargo_execution_assistan.Sessions.Lifetime.{sign_in-load}
use cargo_execution_assistan.Sessions.Revoked.{
  here, then_step, signs_out, WasRevoked, revoked_for_ever,
}
use cargo_execution_assistan.Sessions.Frames.{sign_out-load}
use cargo_execution_assistan.Sample.{database, crypto, ada_signs_in, sign_in_supply, from_ok}

-- Opens the functions for a test.
calls : Unit {0}
unfolding sign_in attempt mint insert_session record_failure is_throttled trim utf8 code_points
    find_session_by_token_hash load_session_by_token guesses
calls = tt

abbrev wrong : SignInInput
wrong = record ada_signs_in { password = codes "guess" }

abbrev unknown : SignInInput
unknown = record wrong { email = codes "robert@port.gov" }

abbrev ada_key : Text
ada_key = throttle_key crypto (normalised crypto ada_signs_in.email)

-- Five failures, a second apart.
abbrev five : ThrottleStore
five = (ada_key, 1_000 ∷ 2_000 ∷ 3_000 ∷ 4_000 ∷ 5_000 ∷ []) ∷ []

abbrev at_time : ℕ → SignInSupply
at_time now = record sign_in_supply { now = now }

five-IsSound : IsSound 5_000 five
five-IsSound = (record { few = omega arith; past = ground arith; ordered = ground arith }, tt)

sign_in-IsSound_example : IsSound 901_000 (sign_in crypto wrong (at_time 901_000) five database).0
sign_in-IsSound_example =
    sign_in-IsSound crypto wrong (at_time 901_000) five database 5_000 five-IsSound (omega arith)

-- The right password does not help.
throttled-five :
    sign_in crypto ada_signs_in (at_time 6_500) five database
    ≡ (five, ok (too_many_attempts 895, database))
unfolding calls
throttled-five = refl

sign_in-throttled_example :
    (deadline : ℕ) × (database ≡ database)
    × (1 ≤ 895)
    × (895 ≤ 900)
    × (6_500 + 1000 * 895 < deadline + 1000)
    × (deadline ≤ 6_500 + 1000 * 895)
    × ((later : ℕ)
        → (is_throttled crypto ada_signs_in.email later five).throttled ≡ ltb later deadline)
sign_in-throttled_example =
    sign_in-throttled crypto ada_signs_in (at_time 6_500) five database 5_000 five 895 database
      five-IsSound (omega arith) throttled-five

abbrev nobody : Database
nobody = record database { specialists = [] }

sign_in-uniform_example :
    (store' : ThrottleStore) × (result : SignInResult) × (sign_in crypto wrong
        (at_time 901_000)
        five
        database
      ≡ (store', ok (result, database)))
    × (sign_in crypto wrong (at_time 901_000) five nobody ≡ (store', ok (result, nobody)))
unfolding calls
sign_in-uniform_example =
    sign_in-uniform crypto wrong (at_time 901_000) five database nobody refl refl

abbrev guess : ℕ → SignInCall
guess now = record { input = wrong; supply = at_time now; db = database }

abbrev guess_elsewhere : ℕ → SignInCall
guess_elsewhere now = record { input = unknown; supply = at_time now; db = database }

-- Six guesses and one for another email; the sixth is not verified.
abbrev many : List SignInCall
many =
    guess 1_000
    ∷ guess 1_001
    ∷ guess_elsewhere 1_001
    ∷ guess 1_002
    ∷ guess 1_003
    ∷ guess 1_004
    ∷ guess 1_005
    ∷ []

guesses-many : guesses crypto ada_key [] many ≡ 5
unfolding calls
guesses-many = refl

guesses-le_example : guesses crypto ada_key [] many ≤ throttle_max_failures
guesses-le_example = guesses-le crypto ada_key 1_000 [] many tt (ground arith)

abbrev no_one : SignedIn
no_one = record {
  specialist = record { id = []; email = []; display_name = [] };
  session_id = [];
  token = [];
  csrf_token = [];
  absolute_expires_at = 0;
}

abbrev the_session : SignInResult → SignedIn
the_session (signed_in s) = s
the_session _ = no_one

abbrev after : SignInResult × Database
after =
    from_ok (signed_in no_one, database) (sign_in crypto ada_signs_in sign_in_supply [] database).1

ada-signed_in :
    sign_in crypto ada_signs_in sign_in_supply [] database
    ≡ ([], ok (signed_in (the_session after.0), after.1))
unfolding calls
ada-signed_in = refl

sign_in-load_example :
    (row : SpecialistRow) × (find_specialist_by_email
        (normalised crypto ada_signs_in.email)
        database
      ≡ some row)
    × ((the_session after.0).token ≡ sign_in_supply.token)
    × ((the_session after.0).csrf_token ≡ sign_in_supply.csrf_token)
    × ((the_session after.0).specialist ≡ specialist_dto row)
    × (◌≡◌ {A = Option (List ℕ)} (get ada_key []) none)
    × (load_session_by_token crypto (the_session after.0).token 1_900_000 after.1 ≡ (
        if ltb (sign_in_supply.created_at + session_idle_ms) 1_900_000
        then expired_session
        else valid (record {
          session_id = (the_session after.0).session_id;
          specialist = specialist_dto row;
          last_seen_at = sign_in_supply.created_at;
          absolute_expires_at = (the_session after.0).absolute_expires_at;
          csrf_token_hash = crypto.sha256 (utf8 (the_session after.0).csrf_token);
        })))
sign_in-load_example =
    sign_in-load crypto ada_signs_in sign_in_supply [] database [] (the_session after.0) after.1
      1_900_000 (tt, tt) ada-signed_in

abbrev left : Database
left = sign_out sign_in_supply.session_id 3_000 after.1

left-WasRevoked :
    WasRevoked (crypto.sha256 (utf8 sign_in_supply.token)) 3_000 (some signed_out) left
unfolding calls
left-WasRevoked = (_, _, refl, refl, refl)

-- A second sign-out and a touch change neither the time nor the reason.
abbrev much_later : Database
much_later = sign_out sign_in_supply.session_id 9_000 left

revoked_for_ever_example :
    WasRevoked (crypto.sha256 (utf8 sign_in_supply.token)) 3_000 (some signed_out) much_later
    × (load_session_by_token crypto sign_in_supply.token 10_000 much_later ≡ revoked)
revoked_for_ever_example =
    revoked_for_ever crypto sign_in_supply.token 3_000 (some signed_out) left much_later 10_000
      left-WasRevoked
      (then_step left much_later much_later (signs_out sign_in_supply.session_id 9_000 left)
        (here much_later))

sign_out-load_example :
    load_session_by_token crypto sign_in_supply.token 4_000 left
    ≡ elim (find_session_by_token_hash (crypto.sha256 (utf8 sign_in_supply.token)) after.1) [
      | none ↦ absent
      | some (row, specialist) ↦
          if text_eq row.id sign_in_supply.session_id
          then revoked
          else load_session_by_token crypto sign_in_supply.token 4_000 after.1
    ]
sign_out-load_example =
    sign_out-load crypto sign_in_supply.session_id sign_in_supply.token 3_000 4_000 after.1
