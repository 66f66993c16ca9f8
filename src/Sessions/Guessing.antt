-- ===== src/Sessions/Guessing.antt =====
-- server/src/services/session.service.ts: how many passwords the throttle lets someone try.
use cargo_execution_assistan.Prelude.{
  ℕ, ◌+◌, ◌≤◌, ◌<◌, ◌≡◌, refl, ap, ◌∙◌, subst, true, false, some, List, [], ◌∷◌, ◌++◌, Result, ok,
  err, length, keep_if, leb, arith, Bool-cases, Option-cases, inl, inr, suc,
}
use cargo_execution_assistan.Text.{Text, text_eq}
use cargo_execution_assistan.Text.Laws.{text_eq_iff}
use cargo_execution_assistan.Text.Map.{get, get-set, get-set_other, get-delete_other, All-get}
use cargo_execution_assistan.Database.{Database, Thrown}
use cargo_execution_assistan.Sessions.{Crypto, throttle_max_failures, throttle_window_ms}
use cargo_execution_assistan.Sessions.Throttle.{
  ThrottleStore, normalised, throttle_key, prune_failures, failures_of, record_failure,
}
use cargo_execution_assistan.Sessions.SignIn.{
  SignInInput, SignInSupply, SignInOutcome, SignInResult, signed_in, too_many_attempts, auth_failed,
  account_inactive, attempt, sign_in,
}
use cargo_execution_assistan.Sessions.Windows.{IsRecorded, IsSound}
use cargo_execution_assistan.Sessions.Attempts.{
  attempt-store, mint-cases, attempt-cases, sign_in-cases, sign_in-IsSound, pruned,
}

-- A call of `signIn`, with the database that it finds.
pub record SignInCall : Type 0 where
  pub input : SignInInput
  pub supply : SignInSupply
  pub db : Database

abbrev pub key_of : Crypto → SignInCall → Text
key_of crypto call = throttle_key crypto (normalised crypto call.input.email)

abbrev pub outcome_of_call : Crypto → ThrottleStore → SignInCall → SignInOutcome
outcome_of_call crypto store call = sign_in crypto call.input call.supply store call.db

-- What a call adds to the wrong passwords: one, or none, or the end of the count.
abbrev pub count_result : Result Thrown (SignInResult × Database) → ℕ → ℕ
count_result (ok (auth_failed, db)) rest = suc rest
count_result (ok (signed_in s, db)) rest = 0
count_result (ok (account_inactive, db)) rest = rest
count_result (ok (too_many_attempts n, db)) rest = rest
count_result (err thrown) rest = rest

-- The wrong passwords of one key that are verified before its first sign-in that succeeds; calls for
-- other emails may come between.
unfoldable pub guesses : Crypto → Text → ThrottleStore → List SignInCall → ℕ
guesses crypto key store [] = 0
guesses crypto key store (call ∷ calls) =
    let outcome = outcome_of_call crypto store call in
    let rest = guesses crypto key outcome.0 calls in
    elim (text_eq (key_of crypto call) key) [ true ↦ count_result outcome.1 rest | false ↦ rest ]

-- Calls one after another, at times that do not run backwards, all in one window after `start`.
abbrev pub InWindow : (start from : ℕ) → List SignInCall → Type 0
InWindow start from [] = Unit
InWindow start from (call ∷ calls) =
    (from ≤ call.supply.now)
    × (call.supply.now < start + throttle_window_ms)
    × InWindow start call.supply.now calls

-- The failures of a key since `start`.
abbrev since : ℕ → List ℕ → ℕ
since start fs = length (keep_if (λ t. leb start t) fs)

module _ (start now : ℕ) where
  since-prune :
      (fs : List ℕ)
      → now < start + throttle_window_ms
      → since start (prune_failures fs now) ≡ since start fs
  since-prune [] near = refl
  since-prune (t ∷ fs) near = ground (arith, since-prune fs near)

  since-append : (fs : List ℕ) → start ≤ now → since start (fs ++ now ∷ []) ≡ since start fs + 1
  since-append [] h = ground arith
  since-append (t ∷ fs) h = ground (arith, since-append fs h)

since-length : (start : ℕ) (fs : List ℕ) → since start fs ≤ length fs
since-length start [] = omega arith
since-length start (t ∷ fs) = ground (arith, since-length start fs)

module _ (crypto : Crypto) (start : ℕ) (store : ThrottleStore) (call : SignInCall) where
  open call use {input, supply, db}

  abbrev failures_at : Text → ThrottleStore → ℕ
  failures_at key s = since start (failures_of (get key s))

  -- One call keeps what the failures since the start and the further wrong passwords add up to.
  abbrev AddsUp : Text → SignInOutcome → Type 0
  AddsUp key o =
      (rest : ℕ)
      → failures_at key o.0 + rest ≤ throttle_max_failures
      → failures_at key store + count_result o.1 rest ≤ throttle_max_failures

  attempt-AddsUp :
      (email key : Text) (s : ThrottleStore)
      → failures_at key store ≤ throttle_max_failures
      → failures_at key s ≡ failures_at key store
      → start ≤ supply.now
      → supply.now < start + throttle_window_ms
      → AddsUp key (attempt crypto email key input supply s db)
  unfolding record_failure
  attempt-AddsUp email key s few same early late =
      attempt-cases (AddsUp key) crypto email key input supply s db
        (λ rest h. omega (arith, one_more, h, same)) (λ rest h. omega (arith, h, same))
        (λ row found on.
          mint-cases (AddsUp key) crypto key input supply s row db
            (λ inserted e rest h. omega (arith, few)) (λ thrown rest h. omega (arith, h, same)))
    where
      one_more : failures_at key (record_failure key supply.now s) ≡ failures_at key s + 1
      one_more =
          rw
            (get-set key (prune_failures (failures_of (get key s)) supply.now ++ supply.now ∷ []) s)
            (since-append start supply.now (prune_failures (failures_of (get key s)) supply.now)
                early
              ∙ ap (λ n. n + 1) (since-prune start supply.now (failures_of (get key s)) late))

  own-AddsUp :
      failures_at (key_of crypto call) store ≤ throttle_max_failures
      → start ≤ supply.now
      → supply.now < start + throttle_window_ms
      → AddsUp (key_of crypto call) (outcome_of_call crypto store call)
  own-AddsUp few early late =
      sign_in-cases crypto input supply store db (AddsUp key)
        (λ e. attempt-AddsUp email key store few refl early late)
        (λ fs e full rest h. omega (arith, h, same fs e))
        (λ fs e room.
          attempt-AddsUp email key (pruned crypto input supply store db fs) few (same fs e) early
            late)
    where
      email : Text
      email = normalised crypto input.email

      key : Text
      key = key_of crypto call

      same :
          (fs : List ℕ)
          → get key store ≡ some fs
          → failures_at key (pruned crypto input supply store db fs) ≡ failures_at key store
      same fs e =
          rw (get-set key (prune_failures fs supply.now) store)
            (rw e (since-prune start supply.now fs late))

  other-same :
      (key : Text)
      → text_eq (key_of crypto call) key ≡ false
      → get key (outcome_of_call crypto store call).0 ≡ get key store
  unfolding record_failure
  other-same key other =
      sign_in-cases crypto input supply store db (λ o. get key o.0 ≡ get key store)
        (λ e. after store refl) (λ fs e full. get-set_other key (key_of crypto call) _ store other)
        (λ fs e room.
          after (pruned crypto input supply store db fs)
            (get-set_other key (key_of crypto call) _ store other))
    where
      after :
          (s : ThrottleStore)
          → get key s ≡ get key store
          → get key
              (attempt crypto
                (normalised crypto input.email)
                (key_of crypto call)
                input
                supply
                s
                db).0
            ≡ get key store
      after s same =
          attempt-store (λ t. get key t ≡ get key store) crypto (normalised crypto input.email)
            (key_of crypto call) input supply s db
            (get-set_other key (key_of crypto call) _ s other ∙ same) same
            (get-delete_other key (key_of crypto call) s other ∙ same)

-- The failures of a sound store are few.
few_failures :
    (start now : ℕ) (key : Text) (store : ThrottleStore)
    → IsSound now store
    → since start (failures_of (get key store)) ≤ throttle_max_failures
few_failures start now key store sound = elim (Option-cases (get key store)) [
  | inl e ↦ rw e (omega arith)
  | inr (fs, e) ↦
      rw e
        (omega (arith, since-length start fs, (All-get (IsRecorded now) key store fs sound e).few))
]

guesses-since :
    (crypto : Crypto) (key : Text) (start from : ℕ) (store : ThrottleStore)
    (calls : List SignInCall)
    → IsSound from store
    → start ≤ from
    → InWindow start from calls
    → since start (failures_of (get key store)) + guesses crypto key store calls
      ≤ throttle_max_failures
unfolding guesses
guesses-since crypto key start from store [] sound h within =
    omega (arith, few_failures start from key store sound)
guesses-since crypto key start from store (call ∷ calls) sound h (later, late, within) =
    let outcome = outcome_of_call crypto store call in
    let ih =
      guesses-since crypto key start call.supply.now outcome.0 calls
        (sign_in-IsSound crypto call.input call.supply store call.db from sound later) (omega arith)
        within in
    elim (Bool-cases (text_eq (key_of crypto call) key)) [
      | inl own ↦
          let same = (text_eq_iff (key_of crypto call) key).0 own in
          rw (own, guesses)
            (subst
              (λ k.
                since start (failures_of (get k outcome.0)) + guesses crypto key outcome.0 calls
                  ≤ throttle_max_failures
                → since start (failures_of (get k store))
                    + count_result outcome.1 (guesses crypto key outcome.0 calls)
                  ≤ throttle_max_failures)
              same
              (own-AddsUp crypto start store call
                (few_failures start from (key_of crypto call) store sound) (omega arith) late
                (guesses crypto key outcome.0 calls))
              ih)
      | inr other ↦ rw (other, guesses) (rw (← other-same crypto start store call key other) ih)
    ]

-- From a sound store, in no window of fifteen minutes are more than five wrong passwords verified for
-- one email before a sign-in for it succeeds, whatever calls for other emails come between and
-- whatever the database holds at each call.
pub guesses-le :
    (crypto : Crypto) (key : Text) (start : ℕ) (store : ThrottleStore) (calls : List SignInCall)
    → IsSound start store
    → InWindow start start calls
    → guesses crypto key store calls ≤ throttle_max_failures
guesses-le crypto key start store calls sound within =
    omega (arith, guesses-since crypto key start start store calls sound (omega arith) within)
