-- ===== src/Decision/Write.antt =====
-- The writes of server/src/services/decision.service.ts: `insertDecision` and `insertDecisionValues`
-- of server/src/db/repositories/decisions.ts, and the UPDATE that closes the case, under the
-- constraints of 0006_decisions.sql.
use cargo_execution_assistan.Prelude.{
  ℕ, Bool, true, false, ◌&&◌, ◌||◌, not, Option, none, some, List, [], ◌∷◌, ◌++◌, map, Result, ok,
  ◌>>◌, guard, check_all, length, any, all, leb, if◌then◌else◌,
}
use cargo_execution_assistan.Text.{Text, text_eq}
use cargo_execution_assistan.Text.Encoding.{code_points}
use cargo_execution_assistan.Database.{
  Database, Session, Supply, CaseState, DecisionType, approve, edit_approve, reject, ExceptionRow,
  DecisionRow, DecisionValueRow, ResolutionValue, Event, exception_updated, decision_inserted,
  Thrown, unique_violation, check_violation, foreign_key_violation, read_invariant, option_eq,
}
use cargo_execution_assistan.Audit.{btrim_length}

abbrev pub is_approve : DecisionType → Bool
is_approve approve = true
is_approve edit_approve = false
is_approve reject = false

-- `decisions_reason_required_chk`
abbrev pub reason_given : DecisionType → Option Text → Bool
reason_given t none = is_approve t
reason_given t (some reason) = is_approve t || leb 10 (btrim_length reason)

-- `char_length(s) <= n`, or NULL.
abbrev pub at_most : ℕ → Option Text → Bool
at_most n none = true
at_most n (some s) = leb (length (code_points s)) n

-- Two rows with the same idempotency key of the same case.
abbrev pub same_key : DecisionRow → DecisionRow → Bool
same_key a b = elim a.idempotency_key [
  | none ↦ false
  | some key ↦ text_eq a.exception_id b.exception_id && option_eq (some key) b.idempotency_key
]

-- The constraints on `decisions` that the code does not ensure by construction.
unfoldable pub decision_constraints : DecisionRow → Database → List (Bool × Thrown)
decision_constraints row db =
    (reason_given row.decision_type row.reason, check_violation "decisions_reason_required_chk")
    ∷ (at_most 2000 row.reason, check_violation "decisions_reason_len_chk")
    ∷ (at_most 128 row.idempotency_key, check_violation "decisions_idempotency_key_len_chk")
    ∷ (not (any (λ d. text_eq d.id row.id) db.decisions), unique_violation "decisions_pkey")
    ∷ (
      not (any (λ d. text_eq d.exception_id row.exception_id) db.decisions),
      unique_violation "uq_decisions_exception",
    )
    ∷ (not (any (same_key row) db.decisions), unique_violation "uq_decisions_idempotency")
    ∷ (
      any (λ e. text_eq e.id row.exception_id) db.exceptions,
      foreign_key_violation "decisions_exception_id_fkey",
    )
    ∷ (
      any (λ s. text_eq s.id row.decided_by) db.specialists,
      foreign_key_violation "decisions_decided_by_fkey",
    )
    ∷ (
      any (λ r. text_eq r.id row.recommendation_id) db.recommendations,
      foreign_key_violation "decisions_recommendation_id_fkey",
    )
    ∷ []

abbrev pub with_decision : DecisionRow → Session → Session
with_decision row s = record s {
  db = record s.db { decisions = s.db.decisions ++ row ∷ [] };
  pending = s.pending ++ decision_inserted row ∷ [];
}

-- `insertDecision`
unfoldable pub insert_decision : DecisionRow → Session → Result Thrown Session
insert_decision row s = do check_all (decision_constraints row s.db); ok (with_decision row s)

abbrev pub value_twice : List ResolutionValue → Bool
value_twice [] = false
value_twice (v ∷ vs) = any (λ w. text_eq w.field_name v.field_name) vs || value_twice vs

-- The constraints on `decision_values`; the decision is a new one.
unfoldable pub value_constraints : List ResolutionValue → List (Bool × Thrown)
value_constraints values =
    (
      all (λ v. leb 1 (length (code_points v.value)) && leb (length (code_points v.value)) 2000)
          values,
      check_violation "dv_value_len_chk",
    )
    ∷ (not (value_twice values), unique_violation "uq_decision_values_field")
    ∷ []

abbrev pub value_row : Text → ResolutionValue → DecisionValueRow
value_row decision_id v = record { decision_id = decision_id; content = v }

abbrev pub with_values : Text → List ResolutionValue → Session → Session
with_values decision_id values s = record s {
  db = record s.db { decision_values = s.db.decision_values ++ map (value_row decision_id) values };
}

-- `insertDecisionValues`; without values it is no statement at all.
unfoldable pub insert_decision_values :
    Text → List ResolutionValue → Session → Result Thrown Session
insert_decision_values decision_id values s = do
  check_all (value_constraints values)
  ok (with_values decision_id values s)

-- The exception as the UPDATE writes it.
abbrev pub closed : CaseState → Supply → ExceptionRow → ExceptionRow
closed state supply ex = record ex {
  state = state;
  closed_at = some supply.now;
  decision_id = some supply.decision_id;
}

abbrev pub close_matching : Text → CaseState → Supply → List ExceptionRow → List ExceptionRow
close_matching id state supply [] = []
close_matching id state supply (ex ∷ rest) =
    (if text_eq ex.id id then closed state supply ex else ex) ∷ close_matching id state supply rest

-- One event for each row that the UPDATE changes.
abbrev pub closings : Text → CaseState → Supply → List ExceptionRow → List Event
closings id state supply [] = []
closings id state supply (ex ∷ rest) =
    let later = closings id state supply rest in
    if text_eq ex.id id then exception_updated (closed state supply ex) ∷ later else later

abbrev pub with_closed : Text → CaseState → Supply → Session → Session
with_closed id state supply s = record s {
  db = record s.db { exceptions = close_matching id state supply s.db.exceptions };
  pending = s.pending ++ closings id state supply s.db.exceptions;
}

-- The UPDATE of step 9.
unfoldable pub close_case : Text → CaseState → Supply → Session → Result Thrown Session
close_case id state supply s = do
  guard (any (λ e. text_eq e.id id) s.db.exceptions) read_invariant
  ok (with_closed id state supply s)
