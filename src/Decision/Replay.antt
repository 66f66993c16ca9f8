-- ===== src/Decision/Replay.antt =====
-- The reads of server/src/db/repositories/decisions.ts, and the idempotent replay of
-- server/src/services/decision.service.ts.
use cargo_execution_assistan.Prelude.{
  Bool, true, false, ◌&&◌, Option, none, some, List, [], ◌∷◌, map, Result, ok, ◌>>=◌, or_throw,
  length, find, keep_if, all, ◌==◌, if◌then◌else◌,
}
use cargo_execution_assistan.Text.{Text, text_eq, trim}
use cargo_execution_assistan.Text.Encoding.{iso_string}
use cargo_execution_assistan.Canonical.{sort_by}
use cargo_execution_assistan.Audit.{is_empty}
use cargo_execution_assistan.Database.{
  Database, CaseState, DecisionType, approve, edit_approve, reject, DecisionRow, ResolutionValue,
  Thrown, read_invariant, option_eq,
}
use cargo_execution_assistan.Decision.Planning.{DecisionCreateRequest, Submitted}

pub record DecisionPrincipal : Type 0 where
  pub id : Text
  pub display_name : Text

-- A decision joined with the name of the specialist who made it: `DecisionRow` of the repository.
pub record Decided : Type 0 where
  pub row : DecisionRow
  pub decided_by_display_name : Text

-- `DecisionRecordResponse`
pub record DecisionRecordResponse : Type 0 where
  pub decision_id : Text
  pub decision_type : DecisionType
  pub decided_at : Text
  pub decided_by : DecisionPrincipal
  pub reason : Option Text
  pub resolution_values : List ResolutionValue
  pub exception_id : Text
  pub exception_state : CaseState
  pub closed_at : Option Text
  pub audit_entry_id : Text
  pub idempotent_replay : Bool

-- The join with `specialists`.
abbrev pub joined : Option DecisionRow → Database → Option Decided
joined none db = none
joined (some d) db = elim (find (λ s. text_eq s.id d.decided_by) db.specialists) [
  | none ↦ none
  | some s ↦ some (record { row = d; decided_by_display_name = s.display_name })
]

-- `loadDecisionByException`
unfoldable pub load_decision_by_exception : Text → Database → Option Decided
load_decision_by_exception exception_id db =
    joined (find (λ d. text_eq d.exception_id exception_id) db.decisions) db

-- `loadDecisionByIdempotencyKey`, which is called only with a key.
unfoldable pub load_decision_by_idempotency_key : Text → Option Text → Database → Option Decided
load_decision_by_idempotency_key exception_id none db = none
load_decision_by_idempotency_key exception_id (some key) db =
    joined
      (find (λ d. text_eq d.exception_id exception_id && option_eq d.idempotency_key (some key))
        db.decisions)
      db

-- `loadDecisionValues`
abbrev pub load_decision_values : Text → Database → List ResolutionValue
load_decision_values id db =
    sort_by (λ v. v.field_name)
      (map (λ r. r.content) (keep_if (λ r. text_eq r.decision_id id) db.decision_values))

abbrev pub type_eq : DecisionType → DecisionType → Bool
type_eq approve approve = true
type_eq edit_approve edit_approve = true
type_eq reject reject = true
type_eq _ _ = false

-- `reason.trim()`, or null if it is absent or blank.
abbrev pub trimmed_reason : Option Text → Option Text
trimmed_reason none = none
trimmed_reason (some reason) = if is_empty (trim reason) then none else some (trim reason)

-- The value stored for a field, the last one if there were several.
abbrev pub stored_value : Text → List ResolutionValue → Option Text
stored_value f [] = none
stored_value f (v ∷ vs) =
    let later = stored_value f vs in
    elim later [ some w ↦ some w | none ↦ if text_eq v.field_name f then some v.value else none ]

abbrev pub same_values : List ResolutionValue → Option (List Submitted) → Bool
same_values stored none = true
same_values stored (some submitted) =
    length submitted == length stored
    && all (λ s. option_eq (stored_value s.field_name stored) (some s.value)) submitted

-- `decisionMatchesReplay`
unfoldable pub decision_matches_replay :
    Decided → List ResolutionValue → DecisionCreateRequest → Bool
decision_matches_replay existing stored body =
    type_eq existing.row.decision_type body.decision_type
    && (option_eq existing.row.reason (trimmed_reason body.reason)
        && same_values stored body.resolution_values)

-- `assembleReplayResponse`
unfoldable pub assemble_replay_response :
    Decided → List ResolutionValue → Database → Result Thrown DecisionRecordResponse
assemble_replay_response existing stored db = do
  d ← or_throw (find (λ d. text_eq d.id existing.row.id) db.decisions) read_invariant
  ex ← or_throw (find (λ e. text_eq e.id d.exception_id) db.exceptions) read_invariant
  a ←
      or_throw (find (λ a. option_eq a.entry.decision_id (some existing.row.id)) db.audit_entries)
        read_invariant
  ok (record {
    decision_id = existing.row.id;
    decision_type = existing.row.decision_type;
    decided_at = iso_string existing.row.decided_at;
    decided_by = record {
      id = existing.row.decided_by;
      display_name = existing.decided_by_display_name;
    };
    reason = existing.row.reason;
    resolution_values = stored;
    exception_id = ex.id;
    exception_state = ex.state;
    closed_at = elim ex.closed_at [ none ↦ none | some t ↦ some (iso_string t) ];
    audit_entry_id = a.id;
    idempotent_replay = true;
  })
