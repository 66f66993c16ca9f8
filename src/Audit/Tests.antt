-- ===== src/Audit/Tests.antt =====
-- The theorems on the audit store, applied to the first entry of a case.
use cargo_execution_assistan.Prelude.{◌≡◌, refl, true, false, none, some, [], ◌∷◌, ok}
use cargo_execution_assistan.Text.{Text, codes, trim}
use cargo_execution_assistan.Text.Encoding.{utf8, json_string, iso_string}
use cargo_execution_assistan.Text.Regex.{matches}
use cargo_execution_assistan.Canonical.{
  human, canonical_json, payload, compute_entry_hash, to_microsecond_rfc3339,
}
use cargo_execution_assistan.Database.{Session}
use cargo_execution_assistan.Audit.{
  AuditAppendInput, specialist, append, validate, validate_actor, check_reason, normalise_values,
  normalise_value, link_at, insert_audit_entry, audit_constraints, reason_allowed,
}
use cargo_execution_assistan.Audit.Secrets.{is_secret_field_name, is_secret_value}
use cargo_execution_assistan.Audit.Chain.{IsChained, append-IsChained}
use cargo_execution_assistan.Sample.{checksum, database, supply, from_ok}
use cargo_execution_assistan.Prelude.{length, ◌⊎◌, Fails, List, err, ℕ}
use cargo_execution_assistan.Canonical.{AuditValue}
use cargo_execution_assistan.Database.{AuditRow, Thrown}
use cargo_execution_assistan.Audit.{canonical_entry, next_sequence, with_audit_row}
use cargo_execution_assistan.Audit.Total.{append_total}
use cargo_execution_assistan.Audit.Sound.{IsAdmissible, append-IsAdmissible}

iso_string-supply : iso_string 1789137127512 ≡ codes "2026-09-11T14:32:07.512Z"
unfolding iso_string
iso_string-supply = refl

to_microsecond_rfc3339-supply :
    to_microsecond_rfc3339 1789137127512 ≡ codes "2026-09-11T14:32:07.512000Z"
unfolding to_microsecond_rfc3339 iso_string
to_microsecond_rfc3339-supply = refl

is_secret_field_name-api_key : is_secret_field_name (codes "my_API-Key") ≡ true
unfolding is_secret_field_name matches
is_secret_field_name-api_key = refl

is_secret_value-key : is_secret_value (codes "use sk-abcdefghij0123456-.") ≡ true
unfolding is_secret_value matches
is_secret_value-key = refl

is_secret_value-short : is_secret_value (codes "use sk-abcdefghij") ≡ false
unfolding is_secret_value matches
is_secret_value-short = refl

abbrev start : Session
start = record { db = database; pending = [] }

abbrev received : AuditAppendInput
received = record {
  case_id = codes "e1";
  exception_id = none;
  recommendation_id = none;
  decision_id = none;
  action_type = codes "ENTRY_RECEIVED";
  actor = specialist (codes "s1");
  before_state = none;
  after_state = codes "RECEIVED";
  reason = none;
  values =
      record {
        field_name = codes "quantity";
        before_value = none;
        before_origin = none;
        after_value = some (codes "12");
        after_origin = some human;
      }
      ∷ [];
  request_id = none;
}

abbrev after : Text × Session
after = from_ok (codes "none", start) (append checksum supply received start)

append-received : append checksum supply received start ≡ ok (codes "a1", after.1)
unfolding append validate validate_actor check_reason normalise_values normalise_value
    is_secret_field_name is_secret_value matches link_at insert_audit_entry audit_constraints
    reason_allowed compute_entry_hash canonical_json payload json_string utf8 to_microsecond_rfc3339
    iso_string trim
append-received = refl

database-IsChained : IsChained checksum database
database-IsChained case_id = tt

append-IsChained_example : IsChained checksum after.1.db
append-IsChained_example =
    append-IsChained checksum supply received start (codes "a1") after.1 database-IsChained
      append-received

checksum-digest : (m : List ℕ) → length (checksum m) ≡ 32
checksum-digest m = refl

abbrev received_values : List AuditValue
received_values =
    record {
      field_name = codes "quantity";
      before_value = none;
      before_origin = none;
      after_value = some (codes "12");
      after_origin = some human;
      changed = true;
    }
    ∷ []

validate-received :
    validate received ≡ ok ((codes "SPECIALIST", some (codes "s1")), received_values)
unfolding validate validate_actor check_reason normalise_values normalise_value is_secret_field_name
    is_secret_value matches
validate-received = refl

append_total_example :
    (row : AuditRow) × (row.entry
      ≡ canonical_entry supply received
          (next_sequence (codes "e1") database)
          (codes "SPECIALIST", some (codes "s1"))
          received_values)
    × ((append checksum supply received start
          ≡ ok (supply.audit_entry_id, with_audit_row row start))
        ⊎ ((thrown : Thrown) × (append checksum supply received start ≡ err thrown)
            × Fails thrown (audit_constraints row database)))
append_total_example =
    append_total checksum checksum-digest supply received start
      (codes "SPECIALIST", some (codes "s1")) received_values database-IsChained validate-received
      refl

append-IsAdmissible_example :
    (row : AuditRow) × (after.1 ≡ with_audit_row row start)
    × (row.entry.action_type ≡ received.action_type)
    × (row.entry.reason ≡ received.reason)
    × IsAdmissible received row.entry.values
append-IsAdmissible_example =
    append-IsAdmissible checksum supply received start (codes "a1") after.1 append-received
