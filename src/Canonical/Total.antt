-- ===== src/Canonical/Total.antt =====
-- server/src/db/canonical.ts: canonical JSON is defined on every value without `undefined`, and the
-- hash of an audit entry on every entry.
use cargo_execution_assistan.Prelude.{
  ℕ, ◌≡◌, refl, Bool, true, false, ◌&&◌, Option, none, some, List, [], ◌∷◌, ◌++◌, ok, length, map,
  arith,
}
use cargo_execution_assistan.Text.{Text}
use cargo_execution_assistan.Text.Encoding.{utf8}
use cargo_execution_assistan.Canonical.{
  Json, undefined, null, boolean, number, string, decimal_token, date, array, object, Elements,
  no_element, element, Members, no_member, member, canonical_json, canonical_elements,
  canonical_members, AuditValue, AuditEntry, Origin, nullable_string, nullable_origin, values_json,
  sort_by, join, member_text, payload, compute_entry_hash,
}

-- No `undefined` inside.
abbrev mutual
  pub is_defined : Json → Bool
  is_defined undefined = false
  is_defined null = true
  is_defined (boolean b) = true
  is_defined (number n) = true
  is_defined (string s) = true
  is_defined (decimal_token s) = true
  is_defined (date ms) = true
  is_defined (array es) = all_defined es
  is_defined (object ms) = members_defined ms

  pub all_defined : Elements → Bool
  all_defined no_element = true
  all_defined (element j es) = is_defined j && all_defined es

  pub members_defined : Members → Bool
  members_defined no_member = true
  members_defined (member k j ms) = is_defined j && members_defined ms

mutual
  unfolding canonical_json

  canonical_json_total : (j : Json) → is_defined j ≡ true → (s : Text) × (canonical_json j ≡ ok s)
  canonical_json_total undefined h = cc
  canonical_json_total null h = (_, refl)
  canonical_json_total (boolean b) h = (_, refl)
  canonical_json_total (number n) h = (_, refl)
  canonical_json_total (string s) h = (_, refl)
  canonical_json_total (decimal_token s) h = (_, refl)
  canonical_json_total (date ms) h = (_, refl)
  canonical_json_total (array es) h =
      let (parts, e) = canonical_elements_total es h in
      (b'[' ∷ (join parts ++ b']' ∷ []), rw (e, canonical_json) refl)
  canonical_json_total (object ms) h =
      let (parts, e) = canonical_members_total ms h in
      (
        b'{' ∷ (join (map member_text (sort_by (λ (m : Text × Text). m.0) parts)) ++ b'}' ∷ []),
        rw (e, canonical_json) refl,
      )

  canonical_elements_total :
      (es : Elements)
      → all_defined es ≡ true
      → (parts : List Text) × (canonical_elements es ≡ ok parts)
  canonical_elements_total no_element h = ([], refl)
  canonical_elements_total (element j es) h =
      let (s, e) = canonical_json_total j (ground arith) in
      let (parts, f) = canonical_elements_total es (ground arith) in
      (s ∷ parts, rw (e, canonical_elements) (rw (f, canonical_elements) refl))

  canonical_members_total :
      (ms : Members)
      → members_defined ms ≡ true
      → (parts : List (Text × Text)) × (canonical_members ms ≡ ok parts)
  canonical_members_total no_member h = ([], refl)
  canonical_members_total (member k j ms) h =
      let (s, e) = canonical_json_total j (ground arith) in
      let (parts, f) = canonical_members_total ms (ground arith) in
      ((k, s) ∷ parts, rw (e, canonical_members) (rw (f, canonical_members) refl))

nullable_string_defined : (o : Option Text) → is_defined (nullable_string o) ≡ true
nullable_string_defined none = refl
nullable_string_defined (some s) = refl

nullable_origin_defined : (o : Option Origin) → is_defined (nullable_origin o) ≡ true
nullable_origin_defined none = refl
nullable_origin_defined (some o) = refl

values_json_defined : (vs : List AuditValue) → all_defined (values_json vs) ≡ true
values_json_defined [] = refl
values_json_defined (v ∷ vs) =
    rw
      (
        nullable_string_defined v.before_value,
        nullable_origin_defined v.before_origin,
        nullable_string_defined v.after_value,
        nullable_origin_defined v.after_origin,
      )
      (values_json_defined vs)

payload_defined : (e : AuditEntry) → is_defined (payload e) ≡ true
unfolding payload
payload_defined e =
    rw
      (
        nullable_string_defined e.actor_specialist_id,
        nullable_string_defined e.exception_id,
        nullable_string_defined e.recommendation_id,
        nullable_string_defined e.decision_id,
        nullable_string_defined e.before_state,
        nullable_string_defined e.reason,
        nullable_string_defined e.request_id,
        values_json_defined (sort_by (λ v. v.field_name) e.values),
      )
      refl

-- Every entry has a hash, after a previous hash of 32 bytes.
pub compute_entry_hash_total :
    (sha256 : List ℕ → List ℕ) (e : AuditEntry) (prev : List ℕ)
    → length prev ≡ 32
    → (m : List ℕ) × (compute_entry_hash sha256 e prev ≡ ok (sha256 m))
unfolding compute_entry_hash
compute_entry_hash_total sha256 e prev h =
    let (json, done) = canonical_json_total (payload e) (payload_defined e) in
    (utf8 json ++ prev, rw (h, compute_entry_hash) (rw (done, compute_entry_hash) refl))
