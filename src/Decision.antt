-- ===== src/Decision.antt =====
-- server/src/services/decision.service.ts with server/src/db/repositories/decisions.ts: the
-- transaction that records the one human decision on a case.
pub mod Planning
pub mod Write
pub mod Replay
pub mod Lawful
pub mod CarriedOut
pub mod Committed
pub mod Reads
pub mod Recorded
pub mod Commits
pub mod Accepted
pub mod Once
pub mod Origins
pub mod Idempotent
mod Tests
use cargo_execution_assistan.Prelude.{
  ℕ, ◌+◌, Bool, true, false, ◌&&◌, ◌||◌, not, Option, none, some, List, [], ◌∷◌, ◌++◌, map, Result,
  ok, err, ◌>>=◌, ◌>>◌, guard, throw_if, or_throw, find, length,
}
use cargo_execution_assistan.Text.{Text, codes, text_eq}
use cargo_execution_assistan.Text.Encoding.{iso_string}
use cargo_execution_assistan.Database.{
  Database, Session, Supply, CaseState, open_state, resolved, rejected, DecisionType, approve,
  edit_approve, reject, ExceptionRow, RecommendationRow, DecisionRow, ResolutionValue, Thrown,
  read_invariant, already_decided, recommendation_mismatch, idempotency_key_reused, state_eq,
  with_transaction,
}
use cargo_execution_assistan.Audit.{AuditAppendInput, specialist, append}
use cargo_execution_assistan.Decision.Planning.{DecisionCreateRequest, Plan, make_plan}
use cargo_execution_assistan.Decision.Write.{insert_decision, insert_decision_values, close_case}
use cargo_execution_assistan.Decision.Replay.{
  DecisionPrincipal, Decided, load_decision_by_exception, load_decision_by_idempotency_key,
  load_decision_values, decision_matches_replay, DecisionRecordResponse, assemble_replay_response,
}

abbrev pub state_text : CaseState → Text
state_text open_state = codes "OPEN"
state_text resolved = codes "RESOLVED"
state_text rejected = codes "REJECTED"

-- The row of `decisions` that the transaction inserts.
abbrev pub decision_row :
    Supply
    → DecisionPrincipal
    → Text
    → Text
    → DecisionCreateRequest
    → Option Text
    → Plan
    → DecisionRow
decision_row supply principal exception_id recommendation_id body idempotency_key plan = record {
  id = supply.decision_id;
  exception_id = exception_id;
  decision_type = body.decision_type;
  decided_by = principal.id;
  decided_at = supply.now;
  reason = plan.reason;
  recommendation_id = recommendation_id;
  resulting_state = plan.resulting_state;
  idempotency_key = idempotency_key;
}

-- The audit entry of the decision.
abbrev pub decision_audit :
    Supply → DecisionPrincipal → Option Text → ExceptionRow → Text → Plan → AuditAppendInput
decision_audit supply principal request_id ex recommendation_id plan = record {
  case_id = ex.entry_id;
  exception_id = some ex.id;
  recommendation_id = some recommendation_id;
  decision_id = some supply.decision_id;
  action_type = codes plan.action_type;
  actor = specialist principal.id;
  before_state = some (codes "OPEN");
  after_state = state_text plan.resulting_state;
  reason = plan.reason;
  values = plan.audit_values;
  request_id = request_id;
}

-- Step 2 of `runDecision`: one decision per case, ever.
unfoldable pub must_be_open : Text → Database → ExceptionRow → Result Thrown ExceptionRow
must_be_open exception_id db ex = elim (state_eq ex.state open_state) [
  | true ↦ ok ex
  | false ↦ elim (load_decision_by_exception exception_id db) [
    | none ↦ err read_invariant
    | some d ↦ err (
        already_decided d.row.decision_type d.decided_by_display_name (iso_string d.row.decided_at))
  ]
]

-- Steps 1 and 2: the exception, if it is open.
unfoldable pub open_exception : Text → Database → Result Thrown ExceptionRow
open_exception exception_id db =
    or_throw (find (λ e. text_eq e.id exception_id) db.exceptions) read_invariant
    >>= must_be_open exception_id db

abbrev pub names_another : Option Text → Text → Bool
names_another none id = false
names_another (some other) id = not (text_eq other id)

-- Steps 3 and 4: the recommendation, if the request does not name another one.
unfoldable pub current_recommendation :
    Text → DecisionCreateRequest → Database → Result Thrown RecommendationRow
current_recommendation exception_id body db = do
  recommendation ←
      or_throw (find (λ r. text_eq r.exception_id exception_id) db.recommendations) read_invariant
  throw_if (names_another body.recommendation_id recommendation.id) recommendation_mismatch
  ok recommendation

-- The answer to a key that the case's decision was recorded with.
unfoldable pub replay :
    Decided → DecisionCreateRequest → Database → Result Thrown (DecisionRecordResponse × Database)
replay existing body db = do
  guard (decision_matches_replay existing (load_decision_values existing.row.id db) body)
      idempotency_key_reused
  response ← assemble_replay_response existing (load_decision_values existing.row.id db) db
  ok (response, db)

module _ (sha256 : List ℕ → List ℕ) where
  -- Steps 6 to 11: the writes and the response.
  unfoldable pub carry_out :
      Supply
      → DecisionPrincipal
      → Option Text
      → ExceptionRow
      → Text
      → DecisionCreateRequest
      → Option Text
      → Plan
      → Session
      → Result Thrown (DecisionRecordResponse × Session)
  carry_out supply principal request_id ex recommendation_id body idempotency_key plan s = do
    s1 ←
        insert_decision
          (decision_row supply principal ex.id recommendation_id body idempotency_key plan) s
    s2 ← insert_decision_values supply.decision_id plan.resolution_values s1
    s3 ← close_case ex.id plan.resulting_state supply s2
    (audit_entry_id, s4) ←
        append sha256 supply (decision_audit supply principal request_id ex recommendation_id plan)
          s3
    ok (
      record {
        decision_id = supply.decision_id;
        decision_type = body.decision_type;
        decided_at = iso_string supply.now;
        decided_by = principal;
        reason = plan.reason;
        resolution_values = plan.resolution_values;
        exception_id = ex.id;
        exception_state = plan.resulting_state;
        closed_at = some (iso_string supply.now);
        audit_entry_id = audit_entry_id;
        idempotent_replay = false;
      },
      s4,
    )

  -- `runDecision`
  unfoldable pub run_decision :
      Supply
      → DecisionPrincipal
      → Option Text
      → Text
      → DecisionCreateRequest
      → Option Text
      → Session
      → Result Thrown (DecisionRecordResponse × Session)
  run_decision supply principal request_id exception_id body idempotency_key s = do
    ex ← open_exception exception_id s.db
    recommendation ← current_recommendation exception_id body s.db
    plan ← make_plan s.db recommendation ex.entry_id body
    carry_out supply principal request_id ex recommendation.id body idempotency_key plan s

  -- `recordDecision`: the response and the committed database.
  unfoldable pub record_decision :
      Supply
      → DecisionPrincipal
      → Option Text
      → Text
      → DecisionCreateRequest
      → Option Text
      → Database
      → Result Thrown (DecisionRecordResponse × Database)
  record_decision supply principal request_id exception_id body idempotency_key db =
      elim (load_decision_by_idempotency_key exception_id idempotency_key db) [
        | some existing ↦ replay existing body db
        | none ↦
            with_transaction db
              (run_decision supply principal request_id exception_id body idempotency_key)
      ]
