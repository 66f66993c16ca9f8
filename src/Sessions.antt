-- ===== src/Sessions.antt =====
-- server/src/services/session.service.ts: the sign-in throttle, signing in, and the life of a
-- session, on the tables `specialists` and `sessions`. SHA-256, Argon2's verification and the
-- conversion to lower case are parameters; random tokens, generated ids and the readings of the clock
-- are arguments. Times are milliseconds since 1970.
pub mod Throttle
pub mod Repository
pub mod SignIn
pub mod Load
pub mod Windows
pub mod Attempts
pub mod Guessing
pub mod Lifetime
pub mod Revoked
pub mod Frames
mod Tests
use cargo_execution_assistan.Prelude.{ℕ, Bool, Option, List}
use cargo_execution_assistan.Text.{Text}

-- What the service takes from other packages.
pub record Crypto : Type 0 where
  pub sha256 : List ℕ → List ℕ
  -- `argon2.verify(hash, password)`; `none` where it throws.
  pub verify : (hash password : Text) → Option Bool
  -- `s.toLowerCase()`
  pub to_lower : Text → Text

pub record SpecialistDto : Type 0 where
  pub id : Text
  pub email : Text
  pub display_name : Text

abbrev pub session_absolute_ms : ℕ
session_absolute_ms = 28_800_000

abbrev pub session_idle_ms : ℕ
session_idle_ms = 1_800_000

abbrev pub last_seen_throttle_ms : ℕ
last_seen_throttle_ms = 60_000

abbrev pub throttle_max_failures : ℕ
throttle_max_failures = 5

abbrev pub throttle_window_ms : ℕ
throttle_window_ms = 900_000
