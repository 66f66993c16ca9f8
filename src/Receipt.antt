-- ===== src/Receipt.antt =====
-- server/src/services/receipt.service.ts: `receiveEntry`, which stores an entry, validates it, opens
-- an exception where it fails, and audits all of it, in one transaction.
pub mod Write
pub mod Received
pub mod Written
pub mod Stored
pub mod Assessed
pub mod Twice
pub mod Chained
pub mod Duplicate
mod Tests
use cargo_execution_assistan.Prelude.{
  ℕ, ◌+◌, Bool, true, false, ◌&&◌, not, String, Option, none, some, List, [], ◌∷◌, ◌++◌, map,
  Result, ok, err, ◌>>=◌, ◌>>◌, guard, length, find, str_eq, if◌then◌else◌,
}
use cargo_execution_assistan.Text.{Text, Platform, codes, text_eq}
use cargo_execution_assistan.Text.Encoding.{iso_string}
use cargo_execution_assistan.Canonical.{human}
use cargo_execution_assistan.Validation.Entry.{CanonicalEntryRecord, get}
use cargo_execution_assistan.Validation.Rule.{Finding, Outcome, pass, fail, ValidationEvaluation}
use cargo_execution_assistan.Validation.Calendar.{is_calendar_date}
use cargo_execution_assistan.Validation.Engine.{ValidationEngineError, evaluate}
use cargo_execution_assistan.Validation.Rules.{rules}
use cargo_execution_assistan.Database.{
  Database, Session, Supply, EntryRow, ExceptionRow, ValidationRow, ReceiptOutcome, CaseState,
  validated_clean, exception_opened, open_state, Thrown, unique_violation, engine_failure,
  exception_without_basis, entry_number_duplicate, option_eq, with_transaction,
}
use cargo_execution_assistan.Audit.{
  AuditActor, specialist, system, AuditAppendInput, AuditAppendValue, append,
}
unfoldable pub use cargo_execution_assistan.Receipt.Write.*

pub record ReceiptPrincipal : Type 0 where
  pub id : Text
  pub display_name : Text

pub record EntryDto : Type 0 where
  pub id : Text
  pub case_reference : Text
  pub received_at : Text
  pub created_by : ReceiptPrincipal
  pub values : CanonicalEntryRecord
  pub field_origins : List String

pub record ValidationDto : Type 0 where
  pub outcome : Outcome
  pub rule_set_version : String
  pub evaluated_at : Text
  pub findings : List Finding

pub record ExceptionRef : Type 0 where
  pub id : Text
  pub state : CaseState
  pub receipt_position : ℕ

pub record ReceiptResponse : Type 0 where
  pub entry : EntryDto
  pub case_reference : Text
  pub receipt_outcome : ReceiptOutcome
  pub validation : ValidationDto
  pub exception : Option ExceptionRef
  pub case_url : Option Text
  pub queue_url : Text

abbrev pub is_fail : Outcome → Bool
is_fail pass = false
is_fail fail = true

abbrev pub receipt_outcome_of : Outcome → ReceiptOutcome
receipt_outcome_of fail = exception_opened
receipt_outcome_of pass = validated_clean

abbrev pub outcome_text : ReceiptOutcome → Text
outcome_text exception_opened = codes "EXCEPTION_OPENED"
outcome_text validated_clean = codes "VALIDATED_CLEAN"

-- A date that is no calendar date is stored as NULL.
abbrev pub stored_values : CanonicalEntryRecord → CanonicalEntryRecord
stored_values submitted = elim submitted.arrival_date [
  | none ↦ submitted
  | some date ↦
      if is_calendar_date (some date) then submitted else record submitted { arrival_date = none }
]

-- `submittedValueRow`
abbrev pub submitted_value_row : CanonicalEntryRecord → String → AuditAppendValue
submitted_value_row submitted field = record {
  field_name = codes field;
  before_value = none;
  before_origin = none;
  after_value = get submitted field;
  after_origin = some human;
}

-- `findingValueRow`
abbrev pub finding_value_row : Finding → AuditAppendValue
finding_value_row f = record {
  field_name = codes f.field_name;
  before_value = none;
  before_origin = none;
  after_value = some (codes f.failure_code ++ codes ": " ++ f.message);
  after_origin = some human;
}

abbrev pub lift_engine : {A : Type 0} → Result ValidationEngineError A → Result Thrown A
lift_engine (ok a) = ok a
lift_engine (err e) = err (engine_failure e.rule_id e.detail)

-- The input of an `append` of the receipt.
abbrev pub receipt_audit :
    Text
    → Option Text
    → String
    → AuditActor
    → Option Text
    → Text
    → Option Text
    → List AuditAppendValue
    → AuditAppendInput
receipt_audit case_id exception_id action actor before_state after_state request_id values =
    record {
      case_id = case_id;
      exception_id = exception_id;
      recommendation_id = none;
      decision_id = none;
      action_type = codes action;
      actor = actor;
      before_state = before_state;
      after_state = after_state;
      reason = none;
      values = values;
      request_id = request_id;
    }

-- The time and the id of one `append`.
abbrev pub audit_supply : ReceiptSupply → Text → Supply
audit_supply supply audit_entry_id = record {
  now = supply.now;
  decision_id = [];
  audit_entry_id = audit_entry_id;
}

abbrev pub entry_row :
    ReceiptSupply → ReceiptPrincipal → CanonicalEntryRecord → ReceiptOutcome → EntryRow
entry_row supply principal values outcome = record {
  id = supply.entry_id;
  case_reference = case_reference supply.now supply.case_number;
  created_by = principal.id;
  received_at = supply.now;
  receipt_outcome = outcome;
  values = values;
}

abbrev pub validation_row : ReceiptSupply → ValidationEvaluation → ValidationRow
validation_row supply evaluation = record {
  id = supply.validation_id;
  entry_id = supply.entry_id;
  outcome = evaluation.outcome;
  rule_set_version = evaluation.rule_set_version;
  evaluated_at = supply.now;
  rules_evaluated_count = evaluation.rules_evaluated_count;
  findings_count = length evaluation.findings;
}

abbrev pub exception_row : ReceiptSupply → ExceptionRow
exception_row supply = record {
  id = supply.exception_id;
  entry_id = supply.entry_id;
  validation_result_id = supply.validation_id;
  receipt_position = supply.receipt_position;
  state = open_state;
  closed_at = none;
  decision_id = none;
}

abbrev pub receipt_response :
    ReceiptSupply
    → ReceiptPrincipal
    → CanonicalEntryRecord
    → List String
    → ValidationEvaluation
    → Option ExceptionRef
    → ReceiptResponse
receipt_response supply principal submitted provided evaluation exception = record {
  entry = record {
    id = supply.entry_id;
    case_reference = case_reference supply.now supply.case_number;
    received_at = iso_string supply.now;
    created_by = principal;
    values = stored_values submitted;
    field_origins = provided;
  };
  case_reference = case_reference supply.now supply.case_number;
  receipt_outcome = receipt_outcome_of evaluation.outcome;
  validation = record {
    outcome = evaluation.outcome;
    rule_set_version = evaluation.rule_set_version;
    evaluated_at = iso_string supply.now;
    findings = evaluation.findings;
  };
  exception = exception;
  case_url =
      if is_fail evaluation.outcome
      then some (codes "/cases/" ++ case_reference supply.now supply.case_number)
      else none;
  queue_url = codes "/queue";
}

module _ (sha256 : List ℕ → List ℕ) (platform : Platform) where
  -- Step 15: the exception, its pending recommendation and the third audit entry.
  unfoldable pub open_case :
      ReceiptSupply
      → ReceiptPrincipal
      → Option Text
      → List Finding
      → Session
      → Result Thrown (Option ExceptionRef × Session)
  open_case supply principal request_id [] s = err exception_without_basis
  open_case supply principal request_id (f ∷ findings) s = do
    s1 ← insert_exception (exception_row supply) s
    s2 ← insert_pending_recommendation supply.recommendation_id supply.exception_id s1
    (audit_id, s3) ←
        append sha256 (audit_supply supply supply.third_audit_id)
          (receipt_audit supply.entry_id (some supply.exception_id) "EXCEPTION_OPENED"
            (system principal.id) none (codes "OPEN") request_id
            (map finding_value_row (f ∷ findings)))
          s2
    ok (
      some (record {
        id = supply.exception_id;
        state = open_state;
        receipt_position = supply.receipt_position;
      }),
      s3,
    )

  unfoldable pub derive_exception :
      ReceiptSupply
      → ReceiptPrincipal
      → Option Text
      → ValidationEvaluation
      → Session
      → Result Thrown (Option ExceptionRef × Session)
  derive_exception supply principal request_id evaluation s =
      if is_fail evaluation.outcome
      then open_case supply principal request_id evaluation.findings s
      else ok (none, s)

  -- `runReceipt`. The violation of `uq_cargo_entries_entry_number` is recognised in `receive_entry`;
  -- no other statement of the transaction can throw it.
  unfoldable pub run_receipt :
      ReceiptSupply
      → ReceiptPrincipal
      → Option Text
      → CanonicalEntryRecord
      → List String
      → Session
      → Result Thrown (ReceiptResponse × Session)
  run_receipt supply principal request_id submitted provided s = do
    evaluation ← lift_engine (evaluate submitted (iso_string supply.now) (rules platform))
    s1 ←
        insert_entry supply.casts
          (entry_row supply principal (stored_values submitted)
            (receipt_outcome_of evaluation.outcome))
          s
    s2 ← insert_field_origins supply.entry_id provided s1
    (received_id, s3) ←
        append sha256 (audit_supply supply supply.first_audit_id)
          (receipt_audit supply.entry_id none "ENTRY_RECEIVED" (specialist principal.id) none
            (codes "RECEIVED") request_id (map (submitted_value_row submitted) provided))
          s2
    s4 ← insert_validation_result (validation_row supply evaluation) s3
    s5 ← insert_findings supply.validation_id evaluation.findings s4
    (completed_id, s6) ←
        append sha256 (audit_supply supply supply.second_audit_id)
          (receipt_audit supply.entry_id none "VALIDATION_COMPLETED" (system principal.id)
            (some (codes "RECEIVED")) (outcome_text (receipt_outcome_of evaluation.outcome))
            request_id (map finding_value_row evaluation.findings))
          s5
    (exception, s7) ← derive_exception supply principal request_id evaluation s6
    ok (receipt_response supply principal submitted provided evaluation exception, s7)

  -- The 409 of `receiveEntry`: the existing case is looked up on the database as it was.
  abbrev pub duplicate_resolved :
      CanonicalEntryRecord
      → Database
      → Result Thrown (ReceiptResponse × Database)
      → Result Thrown (ReceiptResponse × Database)
  duplicate_resolved submitted db (ok done) = ok done
  duplicate_resolved submitted db (err (unique_violation name)) =
      if str_eq name "uq_cargo_entries_entry_number"
      then err (
          entry_number_duplicate (text_or_empty submitted.entry_number)
            (find_case_reference_by_entry_number (text_or_empty submitted.entry_number) db))
      else err (unique_violation name)
  duplicate_resolved submitted db (err thrown) = err thrown

  -- `receiveEntry`, up to the dispatch of the recommendation, which cannot change the result.
  unfoldable pub receive_entry :
      ReceiptSupply
      → ReceiptPrincipal
      → Option Text
      → CanonicalEntryRecord
      → List String
      → Database
      → Result Thrown (ReceiptResponse × Database)
  receive_entry supply principal request_id submitted provided db =
      duplicate_resolved submitted db
        (with_transaction db (run_receipt supply principal request_id submitted provided))
