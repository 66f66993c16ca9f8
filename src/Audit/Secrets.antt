-- ===== src/Audit/Secrets.antt =====
-- The secrets denylist of server/src/services/audit/writer.ts. The patterns with the flag `i` are
-- ASCII, so case is ignored for ASCII letters only.
use cargo_execution_assistan.Prelude.{ℕ, ◌+◌, Bool, ◌||◌, not, [], ◌∷◌, ◌==◌, if◌then◌else◌}
use cargo_execution_assistan.Text.{Text, codes, is_digit, is_upper, is_lower, is_space}
use cargo_execution_assistan.Text.Regex.{
  Regex, eps, one, seq, alt, star, optional, at_least, any_char, char, literal, contains, matches,
}

abbrev lower : ℕ → ℕ
lower c = if is_upper c then c + 32 else c

-- A literal in lower case, whatever the case of the text.
abbrev any_case : Text → Regex
any_case [] = eps
any_case (c ∷ s) = seq (one (λ d. lower d == c)) (any_case s)

-- `SECRET_FIELD_NAME_RE`
abbrev secret_field_name_re : Regex
secret_field_name_re = alt (any_case (codes "password")) (
    alt (any_case (codes "passwd")) (
      alt (any_case (codes "token")) (
        alt (any_case (codes "secret")) (
          alt
            (seq (any_case (codes "api"))
              (seq (optional (one (λ c. c == b'_' || c == b'-'))) (any_case (codes "key"))))
            (alt (any_case (codes "authorization")) (
              alt (any_case (codes "cookie"))
                (alt (any_case (codes "csrf")) (any_case (codes "credential")))))))))

-- `\w`
abbrev is_word : ℕ → Bool
is_word c = is_digit c || is_upper c || is_lower c || c == b'_'

-- `[A-Za-z0-9_-]`
abbrev is_key_char : ℕ → Bool
is_key_char c = is_word c || c == b'-'

-- A bearer header: `^Bearer\s+\S+`
abbrev bearer_re : Regex
bearer_re =
    seq (any_case (codes "bearer"))
      (seq (at_least 1 (one is_space)) (seq (one (λ c. not (is_space c))) (star any_char)))

-- The text from a word boundary on, behind a word character and behind a dash.
abbrev after_word : Regex
after_word = alt eps (seq (one (λ c. not (is_word c))) (star any_char))

abbrev after_dash : Regex
after_dash = seq (one is_word) (star any_char)

-- An OpenAI-style key anywhere: `\bsk-[A-Za-z0-9_-]{16}\b`, as the pattern of the whole text.
abbrev api_key_re : Regex
api_key_re = seq (alt eps (seq (star any_char) (one (λ c. not (is_word c))))) (
    seq (literal (codes "sk-")) (
      seq (at_least 15 (one is_key_char))
        (alt (seq (one is_word) after_word) (seq (char b'-') after_dash))))

-- A JWT: three runs of eight or more, joined by points.
abbrev jwt_re : Regex
jwt_re = seq (at_least 8 (one is_key_char)) (
    seq (char b'.')
      (seq (at_least 8 (one is_key_char)) (seq (char b'.') (at_least 8 (one is_key_char)))))

-- `SECRET_FIELD_NAME_RE.test(name)`
unfoldable pub is_secret_field_name : Text → Bool
unfolding matches
is_secret_field_name name = contains secret_field_name_re name

-- `SECRET_VALUE_RES.some((re) => re.test(v))`, for a side that is a string.
unfoldable pub is_secret_value : Text → Bool
unfolding matches
is_secret_value v = matches bearer_re v || (matches api_key_re v || matches jwt_re v)
