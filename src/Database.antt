-- ===== src/Database.antt =====
-- The tables of server/migrations that the sessions, the audit writer and the decision transaction
-- touch, the deferred triggers of 0009_invariant_triggers.sql that their statements queue, and the transaction
-- of server/src/db/tx.ts. Ids are texts; times are milliseconds since 1970.
use cargo_execution_assistan.Prelude.{
  ◌≡◌, refl, ℕ, ◌-◌, Bool, true, false, ◌&&◌, ◌||◌, Option, none, some, String, List, [], ◌∷◌,
  Result, ok, ◌>>=◌, ◌>>◌, guard, length, any, keep_if, find, ◌==◌,
}
use cargo_execution_assistan.Text.{Text, codes, text_eq}
use cargo_execution_assistan.Canonical.{Origin, AuditEntry, CanonicalError, zero_hash}
use cargo_execution_assistan.Validation.Entry.{CanonicalEntryRecord}
use cargo_execution_assistan.Validation.Rule.{Outcome, Finding}

pub data CaseState : Type 0 where
  open_state resolved rejected : CaseState

pub data DecisionType : Type 0 where
  approve edit_approve reject : DecisionType

pub data RecommendationStatus : Type 0 where
  pending available unavailable : RecommendationStatus

pub data ReceiptOutcome : Type 0 where
  validated_clean exception_opened : ReceiptOutcome

pub record EntryRow : Type 0 where
  pub id : Text
  pub case_reference : Text
  pub created_by : Text
  pub received_at : ℕ
  pub receipt_outcome : ReceiptOutcome
  pub values : CanonicalEntryRecord

-- A row of `cargo_entry_field_origins`; the origin is HUMAN.
pub record FieldOriginRow : Type 0 where
  pub entry_id : Text
  pub field_name : String

pub record ValidationRow : Type 0 where
  pub id : Text
  pub entry_id : Text
  pub outcome : Outcome
  pub rule_set_version : String
  pub evaluated_at : ℕ
  pub rules_evaluated_count : ℕ
  pub findings_count : ℕ

-- A row of `validation_findings`.
pub record FindingRow : Type 0 where
  pub validation_result_id : Text
  pub content : Finding

pub record ExceptionRow : Type 0 where
  pub id : Text
  pub entry_id : Text
  pub validation_result_id : Text
  pub receipt_position : ℕ
  pub state : CaseState
  pub closed_at : Option ℕ
  pub decision_id : Option Text

pub record RecommendationRow : Type 0 where
  pub id : Text
  pub exception_id : Text
  pub status : RecommendationStatus

-- The columns that the decision reads.
pub record ProposedValue : Type 0 where
  pub recommendation_id : Text
  pub field_name : Text
  pub proposed_value : Text

pub record SpecialistRow : Type 0 where
  pub id : Text
  pub email : Text
  pub display_name : Text
  pub password_hash : Text
  pub is_active : Bool
  pub last_sign_in_at : Option ℕ

pub data RevocationReason : Type 0 where
  signed_out expired : RevocationReason

pub record SessionRow : Type 0 where
  pub id : Text
  pub specialist_id : Text
  pub token_hash : List ℕ
  pub csrf_token_hash : List ℕ
  pub created_at : ℕ
  pub absolute_expires_at : ℕ
  pub last_seen_at : ℕ
  pub revoked_at : Option ℕ
  pub revocation_reason : Option RevocationReason
  pub user_agent : Option Text

pub record DecisionRow : Type 0 where
  pub id : Text
  pub exception_id : Text
  pub decision_type : DecisionType
  pub decided_by : Text
  pub decided_at : ℕ
  pub reason : Option Text
  pub recommendation_id : Text
  pub resulting_state : CaseState
  pub idempotency_key : Option Text

pub record ResolutionValue : Type 0 where
  pub field_name : Text
  pub value : Text
  pub origin : Origin
  pub prior_value : Option Text
  pub prior_origin : Option Origin
  pub changed_from_proposal : Bool

-- A row of `decision_values` with the decision that it belongs to.
pub record DecisionValueRow : Type 0 where
  pub decision_id : Text
  pub content : ResolutionValue

-- A row of `audit_entries` with its rows of `audit_entry_values` in `entry.values`.
pub record AuditRow : Type 0 where
  pub id : Text
  pub entry : AuditEntry
  pub prev_entry_hash : List ℕ
  pub entry_hash : List ℕ

pub record Database : Type 0 where
  pub specialists : List SpecialistRow
  pub sessions : List SessionRow
  pub cargo_entries : List EntryRow
  pub field_origins : List FieldOriginRow
  pub validation_results : List ValidationRow
  pub validation_findings : List FindingRow
  pub exceptions : List ExceptionRow
  pub recommendations : List RecommendationRow
  pub recommendation_values : List ProposedValue
  pub decisions : List DecisionRow
  pub decision_values : List DecisionValueRow
  pub audit_entries : List AuditRow

-- What is thrown: an `AuditWriteError`, an error of `computeEntryHash`, the database's refusals with
-- the constraint or trigger that they name, a failed cast, a broken invariant, and the errors of the decision.
pub data Thrown : Type 0 where
  audit_write : (code : String) → Thrown
  hashing : CanonicalError → Thrown
  unique_violation check_violation foreign_key_violation raised : (name : String) → Thrown
  data_exception : Thrown
  read_invariant : Thrown
  already_decided :
      (decision_type : DecisionType) (decided_by_display_name : Text) (decided_at : Text) → Thrown
  recommendation_not_available recommendation_mismatch : Thrown
  reason_required : (too_short : Bool) → Thrown
  resolution_values_not_allowed : Thrown
  resolution_values_incomplete : (missing unexpected : List Text) → Thrown
  request_malformed : Thrown
  idempotency_key_reused : Thrown
  session_not_found : Thrown
  engine_failure : (rule_id : String) (detail : Text) → Thrown
  exception_without_basis : Thrown
  entry_number_duplicate : (entry_number : Text) (case_reference : Option Text) → Thrown

-- What a statement leaves to be checked at COMMIT, with the row as the statement wrote it.
pub data Event : Type 0 where
  audit_inserted : AuditRow → Event
  exception_updated : ExceptionRow → Event
  decision_inserted : DecisionRow → Event
  entry_inserted : EntryRow → Event
  validation_inserted : ValidationRow → Event
  exception_inserted : ExceptionRow → Event

-- An open transaction.
pub record Session : Type 0 where
  pub db : Database
  pub pending : List Event

-- What the database supplies: the time of the transaction and the generated ids.
pub record Supply : Type 0 where
  pub now : ℕ
  pub decision_id : Text
  pub audit_entry_id : Text

-- Equality of optional texts.
abbrev pub option_eq : Option Text → Option Text → Bool
option_eq none none = true
option_eq none (some b) = false
option_eq (some a) none = false
option_eq (some a) (some b) = text_eq a b

abbrev pub state_eq : CaseState → CaseState → Bool
state_eq open_state open_state = true
state_eq resolved resolved = true
state_eq rejected rejected = true
state_eq _ _ = false

pub state_eq-open : (s : CaseState) → state_eq s open_state ≡ true → s ≡ open_state
state_eq-open open_state h = refl
state_eq-open resolved h = cc
state_eq-open rejected h = cc

-- The entries of a case, in the order of insertion.
abbrev pub of_case : Text → List AuditRow → List AuditRow
of_case case_id rows = keep_if (λ row. text_eq row.entry.case_id case_id) rows

abbrev pub at_sequence : ℕ → List AuditRow → Option AuditRow
at_sequence n rows = find (λ row. row.entry.case_sequence == n) rows

-- `audit_check_chain`
unfoldable pub audit_check_chain : AuditRow → Database → Bool
audit_check_chain row db = elim (row.entry.case_sequence == 1) [
  | true ↦ text_eq zero_hash row.prev_entry_hash
  | false ↦
      elim (at_sequence (row.entry.case_sequence - 1)
        (of_case row.entry.case_id db.audit_entries)) [
          | none ↦ false
          | some previous ↦ text_eq previous.entry_hash row.prev_entry_hash
        ]
]

-- `exceptions_require_human_decision`
unfoldable pub has_human_decision : ExceptionRow → Database → Bool
has_human_decision row db =
    state_eq row.state open_state
    || any
        (λ d.
          text_eq d.exception_id row.id
          && (option_eq (some d.id) row.decision_id
              && (state_eq d.resulting_state row.state
                  && any (λ s. text_eq s.id d.decided_by) db.specialists)))
        db.decisions

-- `decisions_require_audit`
unfoldable pub has_one_audit_entry : DecisionRow → Database → Bool
has_one_audit_entry row db =
    length (keep_if (λ a. option_eq a.entry.decision_id (some row.id)) db.audit_entries) == 1

-- `require_audit_entry`, for one action and the count 1.
unfoldable pub has_action_entry : Text → String → Database → Bool
has_action_entry case_id action db =
    length (
      keep_if (λ a. text_eq a.entry.case_id case_id && text_eq a.entry.action_type (codes action))
        db.audit_entries)
    == 1

abbrev pub check_event : Database → Event → Result Thrown (Unit {0})
check_event db (audit_inserted row) = guard (audit_check_chain row db) (raised "AUDIT_CHAIN_BROKEN")
check_event db (exception_updated row) = guard (has_human_decision row db) (raised "HITL_VIOLATION")
check_event db (decision_inserted row) =
    guard (has_one_audit_entry row db) (raised "AUDIT_COUPLING_VIOLATION")
check_event db (entry_inserted row) =
    guard (has_action_entry row.id "ENTRY_RECEIVED" db) (raised "AUDIT_COUPLING_VIOLATION")
check_event db (validation_inserted row) =
    guard (has_action_entry row.entry_id "VALIDATION_COMPLETED" db)
      (raised "AUDIT_COUPLING_VIOLATION")
check_event db (exception_inserted row) = do
  guard (has_action_entry row.entry_id "EXCEPTION_OPENED" db) (raised "AUDIT_COUPLING_VIOLATION")
  guard (has_human_decision row db) (raised "HITL_VIOLATION")

abbrev pub check_events : Database → List Event → Result Thrown (Unit {0})
check_events db [] = ok tt
check_events db (event ∷ events) = do check_event db event; check_events db events

-- COMMIT: the queued triggers run on the final state.
unfoldable pub commit : Session → Result Thrown Database
commit s = do check_events s.db s.pending; ok s.db

-- `withTransaction`: the result of the callback with the committed database, or what is thrown. A
-- throw rolls back: the caller goes on with the database of before.
unfoldable pub with_transaction :
    {A : Type 0} → Database → (Session → Result Thrown (A × Session)) → Result Thrown (A × Database)
with_transaction db fn = do
  (result, s) ← fn (record { db = db; pending = [] })
  committed ← commit s
  ok (result, committed)
