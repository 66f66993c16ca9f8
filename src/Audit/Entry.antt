-- ===== src/Audit/Entry.antt =====
-- The input of the audit writer, server/src/services/audit/writer.ts, and its validation, which
-- throws before any SQL is issued.
use cargo_execution_assistan.Prelude.{
  Bool, true, false, ◌&&◌, ◌||◌, not, Option, none, some, String, List, [], ◌∷◌, Result, ok, ◌>>=◌,
  ◌>>◌, guard, throw_if, length, ltb, is_some, if◌then◌else◌,
}
use cargo_execution_assistan.Text.{Text, codes, among, trim}
use cargo_execution_assistan.Canonical.{Origin, AuditValue}
use cargo_execution_assistan.Database.{Thrown, audit_write, option_eq}
use cargo_execution_assistan.Validation.Entry.{entry_fields}
use cargo_execution_assistan.Audit.Secrets.{is_secret_field_name, is_secret_value}

-- `AUDIT_ACTION_TYPES`
abbrev pub audit_action_types : List String
audit_action_types =
    "ENTRY_RECEIVED" ∷ "VALIDATION_COMPLETED" ∷ "EXCEPTION_OPENED" ∷ "RECOMMENDATION_GENERATED"
    ∷ "RECOMMENDATION_UNAVAILABLE" ∷ "RECOMMENDATION_APPROVED"
    ∷ "RECOMMENDATION_EDITED_AND_APPROVED" ∷ "RECOMMENDATION_REJECTED" ∷ []

-- `CREATION_ACTIONS`
abbrev pub creation_actions : List String
creation_actions = "ENTRY_RECEIVED" ∷ "EXCEPTION_OPENED" ∷ []

-- `REASON_REQUIRED`
abbrev pub reason_required_actions : List String
reason_required_actions = "RECOMMENDATION_EDITED_AND_APPROVED" ∷ "RECOMMENDATION_REJECTED" ∷ []

-- `REASON_FORBIDDEN`
abbrev pub reason_forbidden_actions : List String
reason_forbidden_actions =
    "ENTRY_RECEIVED" ∷ "VALIDATION_COMPLETED" ∷ "EXCEPTION_OPENED" ∷ "RECOMMENDATION_GENERATED"
    ∷ "RECOMMENDATION_UNAVAILABLE" ∷ []

-- `AuditActor`
pub data AuditActor : Type 0 where
  specialist : (specialist_id : Text) → AuditActor
  ai_actor : AuditActor
  system : (on_behalf_of_specialist_id : Text) → AuditActor

-- `AuditAppendValue`
pub record AuditAppendValue : Type 0 where
  pub field_name : Text
  pub before_value : Option Text
  pub before_origin : Option Origin
  pub after_value : Option Text
  pub after_origin : Option Origin

-- `AuditAppendInput`, a missing optional being `none`, and missing values `[]`.
pub record AuditAppendInput : Type 0 where
  pub case_id : Text
  pub exception_id : Option Text
  pub recommendation_id : Option Text
  pub decision_id : Option Text
  pub action_type : Text
  pub actor : AuditActor
  pub before_state : Option Text
  pub after_state : Text
  pub reason : Option Text
  pub values : List AuditAppendValue
  pub request_id : Option Text

abbrev pub invalid : Thrown
invalid = audit_write "AUDIT_WRITE_INVALID"

abbrev pub forbidden : Thrown
forbidden = audit_write "AUDIT_WRITE_FORBIDDEN_CONTENT"

abbrev pub is_empty : Text → Bool
is_empty [] = true
is_empty (_ ∷ _) = false

-- `validateActor`: the actor's type and its specialist.
unfoldable pub validate_actor : AuditActor → Result Thrown (Text × Option Text)
validate_actor (specialist id) = do throw_if (is_empty id) invalid; ok (codes "SPECIALIST", some id)
validate_actor ai_actor = ok (codes "AI", none)
validate_actor (system id) = do throw_if (is_empty id) invalid; ok (codes "SYSTEM", some id)

abbrev pub is_secret : Option Text → Bool
is_secret none = false
is_secret (some v) = is_secret_value v

-- One row of `normaliseValues`. That an origin is `AI` or `HUMAN` is in its type.
unfoldable pub normalise_value : AuditAppendValue → Result Thrown AuditValue
normalise_value v = do
  throw_if (is_secret_field_name v.field_name) forbidden
  guard (among v.field_name entry_fields) invalid
  throw_if (is_secret v.before_value || is_secret v.after_value) forbidden
  guard (is_some v.before_value || is_some v.after_value) invalid
  throw_if (is_some v.before_value && not (is_some v.before_origin)) invalid
  throw_if (is_some v.after_value && not (is_some v.after_origin)) invalid
  ok (record {
    field_name = v.field_name;
    before_value = v.before_value;
    before_origin = v.before_origin;
    after_value = v.after_value;
    after_origin = v.after_origin;
    changed = not (option_eq v.before_value v.after_value);
  })

-- `normaliseValues`
unfoldable pub normalise_values : List AuditAppendValue → Result Thrown (List AuditValue)
normalise_values [] = ok []
normalise_values (v ∷ vs) = do
  first ← normalise_value v
  rest ← normalise_values vs
  ok (first ∷ rest)

-- The reason rules, step 4 of `validate`.
unfoldable pub check_reason : Text → Option Text → Result Thrown (Unit {0})
check_reason action none = throw_if (among action reason_required_actions) invalid
check_reason action (some reason) =
    if among action reason_required_actions
    then throw_if (ltb (length (trim reason)) 10) invalid
    else throw_if (among action reason_forbidden_actions) invalid

-- `validate`: the actor's type, its specialist, and the values.
unfoldable pub validate : AuditAppendInput → Result Thrown ((Text × Option Text) × List AuditValue)
validate entry = do
  guard (among entry.action_type audit_action_types) invalid
  actor ← validate_actor entry.actor
  throw_if (is_empty entry.after_state) invalid
  throw_if (not (is_some entry.before_state) && not (among entry.action_type creation_actions))
      invalid
  check_reason entry.action_type entry.reason
  values ← normalise_values entry.values
  ok (actor, values)
