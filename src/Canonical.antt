-- ===== src/Canonical.antt =====
-- server/src/db/canonical.ts: canonical JSON, and the hash of an audit entry. SHA-256 of Node's
-- crypto module is the parameter `sha256`, from bytes to bytes. Times are milliseconds since 1970.
pub mod Total
pub mod Order
pub mod Keep
mod Tests
use cargo_execution_assistan.Prelude.{
  ℕ, zero, suc, ◌-◌, Bool, true, false, Option, none, some, List, [], ◌∷◌, ◌++◌, map, Result, ok,
  err, ◌>>=◌, ◌>>◌, guard, length, take, ◌==◌, if◌then◌else◌,
}
use cargo_execution_assistan.Text.{Text, codes, text_lt, decimal}
use cargo_execution_assistan.Text.Encoding.{utf8, json_string, iso_string}

-- What the functions throw.
pub data CanonicalError : Type 0 where
  undefined_value bad_prev_hash : CanonicalError

-- The values that `canonicalJson` is defined on, and `undefined`, on which it throws. A number is a
-- whole one; `decimal_token` is a `CanonicalDecimal`.
mutual
  pub data Json : Type 0 where
    undefined null : Json
    boolean : Bool → Json
    number : ℕ → Json
    string decimal_token : Text → Json
    date : ℕ → Json
    array : Elements → Json
    object : Members → Json

  pub data Elements : Type 0 where
    no_element : Elements
    element : Json → Elements → Elements

  pub data Members : Type 0 where
    no_member : Members
    member : Text → Json → Members → Members

-- Text before and after the last point, if there is one.
split_last_point : Text → Option (Text × Text)
split_last_point [] = none
split_last_point (c ∷ s) =
    let later = split_last_point s in
    elim later [
      | some (head, frac) ↦ some (c ∷ head, frac)
      | none ↦ if c == b'.' then some ([], s) else none
    ]

-- `s.padEnd(k + length, '0')`
zeros_after : ℕ → Text → Text
zeros_after zero s = s
zeros_after (suc k) s = zeros_after k (s ++ b'0' ∷ [])

-- `toMicrosecondRfc3339`, the date being valid.
unfoldable pub to_microsecond_rfc3339 : ℕ → Text
unfolding split_last_point zeros_after
to_microsecond_rfc3339 ms =
    let iso = iso_string ms in
    let body = take (length iso - 1) iso in
    elim (split_last_point body) [
      | none ↦ body ++ codes ".000000Z"
      | some (head, frac) ↦
          head ++ b'.' ∷ (take 6 (zeros_after (6 - length frac) frac) ++ b'Z' ∷ [])
    ]

-- A stable sort by a key, in the order of code units.
module _ {ℓ} {A : Type ℓ} (key : A → Text) where
  abbrev pub insert_by : A → List A → List A
  insert_by x [] = x ∷ []
  insert_by x (y ∷ ys) =
      let later = insert_by x ys in
      elim (text_lt (key y) (key x)) [ true ↦ y ∷ later | false ↦ x ∷ y ∷ ys ]

  abbrev pub sort_by : List A → List A
  sort_by [] = []
  sort_by (x ∷ xs) = insert_by x (sort_by xs)

-- `parts.join(',')`
abbrev pub join : List Text → Text
join [] = []
join (s ∷ []) = s
join (s ∷ t ∷ ts) = s ++ b',' ∷ join (t ∷ ts)

-- `"key":value`
abbrev pub member_text : Text × Text → Text
member_text (key, value) = json_string key ++ b':' ∷ value

-- `canonicalJson`. The members of an object are serialised in the order of insertion and then
-- sorted by their keys, of which no two are the same.
unfoldable mutual
  pub canonical_json : Json → Result CanonicalError Text
  canonical_json undefined = err undefined_value
  canonical_json null = ok (codes "null")
  canonical_json (boolean b) = ok (if b then codes "true" else codes "false")
  canonical_json (number n) = ok (decimal n)
  canonical_json (string s) = ok (json_string s)
  canonical_json (decimal_token s) = ok s
  canonical_json (date ms) = ok (json_string (to_microsecond_rfc3339 ms))
  canonical_json (array es) = do
    parts ← canonical_elements es
    ok (b'[' ∷ (join parts ++ b']' ∷ []))
  canonical_json (object ms) = do
    parts ← canonical_members ms
    ok (b'{' ∷ (join (map member_text (sort_by (λ (m : Text × Text). m.0) parts)) ++ b'}' ∷ []))

  pub canonical_elements : Elements → Result CanonicalError (List Text)
  canonical_elements no_element = ok []
  canonical_elements (element j es) = do
    first ← canonical_json j
    rest ← canonical_elements es
    ok (first ∷ rest)

  pub canonical_members : Members → Result CanonicalError (List (Text × Text))
  canonical_members no_member = ok []
  canonical_members (member key j ms) = do
    value ← canonical_json j
    rest ← canonical_members ms
    ok ((key, value) ∷ rest)

-- `ZERO_HASH`
abbrev pub zero_hash : List ℕ
zero_hash =
    0 ∷ 0 ∷ 0 ∷ 0 ∷ 0 ∷ 0 ∷ 0 ∷ 0 ∷ 0 ∷ 0 ∷ 0 ∷ 0 ∷ 0 ∷ 0 ∷ 0 ∷ 0 ∷ 0 ∷ 0 ∷ 0 ∷ 0 ∷ 0 ∷ 0 ∷ 0 ∷ 0
    ∷ 0 ∷ 0 ∷ 0 ∷ 0 ∷ 0 ∷ 0 ∷ 0 ∷ 0 ∷ []

pub data Origin : Type 0 where
  ai human : Origin

-- `CanonicalAuditValue`
pub record AuditValue : Type 0 where
  pub field_name : Text
  pub before_value : Option Text
  pub before_origin : Option Origin
  pub after_value : Option Text
  pub after_origin : Option Origin
  pub changed : Bool

-- `CanonicalAuditEntry`
pub record AuditEntry : Type 0 where
  pub case_id : Text
  pub case_sequence : ℕ
  pub action_type : Text
  pub actor_type : Text
  pub actor_specialist_id : Option Text
  pub occurred_at : ℕ
  pub exception_id : Option Text
  pub recommendation_id : Option Text
  pub decision_id : Option Text
  pub before_state : Option Text
  pub after_state : Text
  pub reason : Option Text
  pub request_id : Option Text
  pub values : List AuditValue

-- A string or `null`.
abbrev pub nullable_string : Option Text → Json
nullable_string none = null
nullable_string (some s) = string s

abbrev pub origin_text : Origin → Text
origin_text ai = codes "AI"
origin_text human = codes "HUMAN"

abbrev pub nullable_origin : Option Origin → Json
nullable_origin none = null
nullable_origin (some o) = string (origin_text o)

abbrev pub value_json : AuditValue → Json
value_json v = object (
    member (codes "field_name") (string v.field_name) (
      member (codes "before_value") (nullable_string v.before_value) (
        member (codes "before_origin") (nullable_origin v.before_origin) (
          member (codes "after_value") (nullable_string v.after_value) (
            member (codes "after_origin") (nullable_origin v.after_origin)
              (member (codes "changed") (boolean v.changed) no_member))))))

abbrev pub values_json : List AuditValue → Elements
values_json [] = no_element
values_json (v ∷ vs) = element (value_json v) (values_json vs)

-- The hashed payload.
unfoldable pub payload : AuditEntry → Json
payload e = object (
    member (codes "case_id") (string e.case_id) (
      member (codes "case_sequence") (number e.case_sequence) (
        member (codes "action_type") (string e.action_type) (
          member (codes "actor_type") (string e.actor_type) (
            member (codes "actor_specialist_id") (nullable_string e.actor_specialist_id) (
              member (codes "occurred_at") (date e.occurred_at) (
                member (codes "exception_id") (nullable_string e.exception_id) (
                  member (codes "recommendation_id") (nullable_string e.recommendation_id) (
                    member (codes "decision_id") (nullable_string e.decision_id) (
                      member (codes "before_state") (nullable_string e.before_state) (
                        member (codes "after_state") (string e.after_state) (
                          member (codes "reason") (nullable_string e.reason) (
                            member (codes "request_id") (nullable_string e.request_id) (
                              member (codes "values")
                                (array (values_json (sort_by (λ v. v.field_name) e.values)))
                                no_member))))))))))))))

-- `computeEntryHash`
module _ (sha256 : List ℕ → List ℕ) where
  unfoldable pub compute_entry_hash : AuditEntry → List ℕ → Result CanonicalError (List ℕ)
  compute_entry_hash e prev_entry_hash = do
    guard (length prev_entry_hash == 32) bad_prev_hash
    json ← canonical_json (payload e)
    ok (sha256 (utf8 json ++ prev_entry_hash))
