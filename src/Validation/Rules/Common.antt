-- ===== src/Validation/Rules/Common.antt =====
-- server/src/services/validation/rules.ts: the helpers that several rules share.
use cargo_execution_assistan.Prelude.{ℕ, Bool, true, ◌||◌, Option, none, some, [], Result, ok}
use cargo_execution_assistan.Text.{Text, is_digit, is_upper, Platform}
use cargo_execution_assistan.Validation.Entry.{CanonicalEntryRecord}
use cargo_execution_assistan.Validation.Normalise.{upper_keep_hyphen}

-- `ALWAYS`
abbrev pub always : CanonicalEntryRecord → Result Text Bool
always r = ok true

-- `[A-Z0-9]`
abbrev pub is_upper_digit : ℕ → Bool
is_upper_digit c = is_upper c || is_digit c

-- `v ?? ''`
abbrev pub or_empty : Option Text → Text
or_empty none = []
or_empty (some v) = v

module _ (p : Platform) where
  -- The normalised mode of transport, or the empty text when it is missing.
  abbrev pub mode : CanonicalEntryRecord → Text
  mode r = upper_keep_hyphen p r.mode_of_transport
