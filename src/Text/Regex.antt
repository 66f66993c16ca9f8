-- ===== src/Text/Regex.antt =====
-- The regular expressions that the server tests strings with, as syntax with a matcher by
-- derivatives: `matches r s` is `/^r$/.test(s)`.
pub mod Meaning
use cargo_execution_assistan.Prelude.{
  ℕ, zero, suc, Bool, true, false, ◌&&◌, ◌||◌, List, [], ◌∷◌, ◌==◌, if◌then◌else◌,
}
use cargo_execution_assistan.Text.{Text}

pub data Regex : Type 0 where
  nothing eps : Regex
  one : (ℕ → Bool) → Regex
  seq alt : Regex → Regex → Regex
  star : Regex → Regex

abbrev pub nullable : Regex → Bool
nullable nothing = false
nullable eps = true
nullable (one p) = false
nullable (seq r q) = nullable r && nullable q
nullable (alt r q) = nullable r || nullable q
nullable (star r) = true

-- What is left to match after the code unit `c`.
pub derivative : ℕ → Regex → Regex
derivative c nothing = nothing
derivative c eps = nothing
derivative c (one p) = if p c then eps else nothing
derivative c (seq r q) =
    let left = seq (derivative c r) q in
    let right = derivative c q in if nullable r then alt left right else left
derivative c (alt r q) = alt (derivative c r) (derivative c q)
derivative c (star r) = seq (derivative c r) (star r)

unfoldable pub matches : Regex → Text → Bool
unfolding derivative
matches r [] = nullable r
matches r (c ∷ s) = matches (derivative c r) s

-- `r{n}`
abbrev pub times : ℕ → Regex → Regex
times zero r = eps
times (suc n) r = seq r (times n r)

-- `r?`
abbrev pub optional : Regex → Regex
optional r = alt r eps

-- At most `n` times `r`.
abbrev pub up_to : ℕ → Regex → Regex
up_to zero r = eps
up_to (suc n) r = optional (seq r (up_to n r))

-- `r{n,n+m}`
abbrev pub between : ℕ → ℕ → Regex → Regex
between n m r = seq (times n r) (up_to m r)

-- `r{n,}`
abbrev pub at_least : ℕ → Regex → Regex
at_least n r = seq (times n r) (star r)

abbrev pub any_char : Regex
any_char = one (λ c. true)

abbrev pub char : ℕ → Regex
char k = one (λ c. c == k)

-- A literal text.
abbrev pub literal : Text → Regex
literal [] = eps
literal (c ∷ s) = seq (char c) (literal s)

-- `/r/.test(s)`, without anchors.
abbrev pub contains : Regex → Text → Bool
contains r s = matches (seq (star any_char) (seq r (star any_char))) s
