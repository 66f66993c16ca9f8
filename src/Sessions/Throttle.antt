-- ===== src/Sessions/Throttle.antt =====
-- server/src/services/session.service.ts: the throttle store, a map from the hash of an email to the
-- times of its failed attempts, the oldest first.
use cargo_execution_assistan.Prelude.{
  ℕ, ◌+◌, ◌-◌, ◌/◌, ◌%◌, Bool, false, Option, none, some, List, [], ◌∷◌, ◌++◌, length, keep_if, ltb,
  leb, if◌then◌else◌,
}
use cargo_execution_assistan.Text.{Text, trim}
use cargo_execution_assistan.Text.Encoding.{utf8, hex_digit}
use cargo_execution_assistan.Text.Map.{get, set, delete}
use cargo_execution_assistan.Sessions.{Crypto, throttle_max_failures, throttle_window_ms}

abbrev pub ThrottleStore : Type 0
ThrottleStore = List (Text × List ℕ)

-- `buffer.toString('hex')`
abbrev pub hex : List ℕ → Text
hex [] = []
hex (b ∷ bs) = hex_digit (b / 16) ∷ hex_digit (b % 16) ∷ hex bs

-- `email.trim().toLowerCase()`
abbrev pub normalised : Crypto → Text → Text
normalised crypto email = crypto.to_lower (trim email)

abbrev pub throttle_key : Crypto → Text → Text
throttle_key crypto email = hex (crypto.sha256 (utf8 email))

-- `pruneFailures` without its assignment: on the server a time of the future gives a negative
-- difference, which is inside the window as well.
abbrev pub prune_failures : List ℕ → ℕ → List ℕ
prune_failures failures now = keep_if (λ t. ltb (now - t) throttle_window_ms) failures

-- `Math.max(0, window - (now - oldest))`
abbrev pub retry_after_ms : List ℕ → ℕ → ℕ
retry_after_ms [] now = 0
retry_after_ms (oldest ∷ rest) now = throttle_window_ms + oldest - now

-- `Math.ceil(ms / 1000)`
abbrev pub seconds_up : ℕ → ℕ
seconds_up ms = (ms + 999) / 1000

-- The failures under a key, none where the map has no entry.
abbrev pub failures_of : Option (List ℕ) → List ℕ
failures_of none = []
failures_of (some failures) = failures

unfoldable pub record_failure : Text → ℕ → ThrottleStore → ThrottleStore
record_failure key now store =
    set key (prune_failures (failures_of (get key store)) now ++ now ∷ []) store

abbrev pub clear_throttle : Text → ThrottleStore → ThrottleStore
clear_throttle key store = delete key store

-- What `__isThrottled` returns, without its pruning of the store.
pub record ThrottleReading : Type 0 where
  pub throttled : Bool
  pub retry_after_seconds : ℕ
  pub failures : ℕ

-- The reading of the surviving failures.
abbrev pub reading : List ℕ → ℕ → ThrottleReading
reading surviving now =
    let throttled = leb throttle_max_failures (length surviving) in
    record {
      throttled = throttled;
      retry_after_seconds = if throttled then seconds_up (retry_after_ms surviving now) else 0;
      failures = length surviving;
    }

unfoldable pub is_throttled : Crypto → Text → ℕ → ThrottleStore → ThrottleReading
is_throttled crypto email now store =
    elim (get (throttle_key crypto (normalised crypto email)) store) [
      | none ↦ record { throttled = false; retry_after_seconds = 0; failures = 0 }
      | some failures ↦ reading (prune_failures failures now) now
    ]
