-- ===== src/Decision/Committed.antt =====
-- server/src/services/decision.service.ts: what the steps of a decision that is recorded have done.
use cargo_execution_assistan.Prelude.{
  ℕ, ◌≡◌, sym, ap, ◌∙◌, subst, false, Option, none, List, [], ◌∷◌, ◌++◌, map, ok, >>=-eq-ok, ok_inj,
  AllHold,
}
use cargo_execution_assistan.Text.{Text}
use cargo_execution_assistan.Canonical.{AuditValue}
use cargo_execution_assistan.Database.{
  Database, Session, Supply, ExceptionRow, RecommendationRow, AuditRow, commit, check_events,
  with_transaction,
}
use cargo_execution_assistan.Audit.{with_audit_row, validate, canonical_entry, next_sequence}
use cargo_execution_assistan.Audit.Step.{append_lem}
use cargo_execution_assistan.Decision.{
  decision_row, decision_audit, open_exception, current_recommendation, run_decision,
  record_decision,
}
use cargo_execution_assistan.Decision.Planning.{DecisionCreateRequest, Plan, make_plan}
use cargo_execution_assistan.Decision.Write.{decision_constraints, value_row, close_matching}
use cargo_execution_assistan.Decision.Replay.{
  DecisionPrincipal, DecisionRecordResponse, load_decision_by_idempotency_key,
}
use cargo_execution_assistan.Decision.CarriedOut.{carry_out_lem}

commit_lem : (s : Session) (db : Database) → commit s ≡ ok db → db ≡ s.db
unfolding commit
commit_lem s db h =
    let (u, checked, h1) = >>=-eq-ok (check_events s.db s.pending) _ h in sym (ok_inj h1)

module _ (sha256 : List ℕ → List ℕ) (supply : Supply) (principal : DecisionPrincipal)
    (request_id : Option Text) (body : DecisionCreateRequest) (key : Option Text) where
  -- The database after the writes of a plan.
  abbrev pub decided_database :
      ExceptionRow → RecommendationRow → Plan → AuditRow → Database → Database
  decided_database ex recommendation plan audit db = record db {
    exceptions = close_matching ex.id plan.resulting_state supply db.exceptions;
    decisions =
        db.decisions ++ decision_row supply principal ex.id recommendation.id body key plan ∷ [];
    decision_values =
        db.decision_values ++ map (value_row supply.decision_id) plan.resolution_values;
    audit_entries = db.audit_entries ++ audit ∷ [];
  }

  -- The decision was made on an open case by a known specialist, the first one on the case; the
  -- database has the decision, its values, the closed case and one audit entry, for the next number
  -- of the case, and is otherwise as before.
  pub record IsCommitted (exception_id : Text) (response : DecisionRecordResponse)
      (db db1 : Database) : Type 0 where
    pub ex : ExceptionRow
    pub recommendation : RecommendationRow
    pub plan : Plan
    pub audit : AuditRow
    pub actor : Text × Option Text
    pub values : List AuditValue
    pub was_open : open_exception exception_id db ≡ ok ex
    pub current : current_recommendation exception_id body db ≡ ok recommendation
    pub planned : make_plan db recommendation ex.entry_id body ≡ ok plan
    pub constraints : AllHold (
        decision_constraints
          (decision_row supply principal ex.id recommendation.id body key plan)
          db)
    pub audit_valid :
        validate (decision_audit supply principal request_id ex recommendation.id plan)
        ≡ ok (actor, values)
    pub audited :
        audit.entry
        ≡ canonical_entry supply
            (decision_audit supply principal request_id ex recommendation.id plan)
            (next_sequence ex.entry_id db)
            actor
            values
    pub committed : db1 ≡ decided_database ex recommendation plan audit db
    pub answered :
        (response.decision_id ≡ supply.decision_id)
        × (response.audit_entry_id ≡ audit.id)
        × (response.exception_state ≡ plan.resulting_state)
        × (response.idempotent_replay ≡ false)

  run_decision-IsCommitted :
      (exception_id : Text) (response : DecisionRecordResponse) (db : Database) (s4 : Session)
      → run_decision sha256 supply principal request_id exception_id body key
          (record { db = db; pending = [] })
        ≡ ok (response, s4)
      → IsCommitted exception_id response db s4.db
  unfolding run_decision
  run_decision-IsCommitted exception_id response db s4 h =
      let (ex, was_open, h1) = >>=-eq-ok (open_exception exception_id db) _ h in
      let (recommendation, current, h2) =
        >>=-eq-ok (current_recommendation exception_id body db) _ h1 in
      let (plan, planned, h3) = >>=-eq-ok (make_plan db recommendation ex.entry_id body) _ h2 in
      let c =
        carry_out_lem sha256 supply principal request_id body key ex recommendation plan
          (record { db = db; pending = [] }) response s4 h3 in
      let entry = decision_audit supply principal request_id ex recommendation.id plan in
      let a = append_lem sha256 supply entry c.s3 c.id s4 c.appending in
      record {
        ex = ex;
        recommendation = recommendation;
        plan = plan;
        audit = a.row;
        actor = a.actor;
        values = a.values;
        was_open = was_open;
        current = current;
        planned = planned;
        constraints = c.constraints;
        audit_valid = a.valid;
        audited =
            a.content
            ∙ ap
                (λ (t : Session).
                  canonical_entry supply entry (next_sequence ex.entry_id t.db) a.actor a.values)
                c.writes;
        committed =
            ap (λ (t : Session). t.db) (a.inserted.stored ∙ ap (with_audit_row a.row) c.writes);
        answered = (c.answered.0, c.answered.1 ∙ sym a.named.1, c.answered.2, c.answered.3);
      }

  -- The run behind a decision that is recorded afresh.
  pub fresh_run :
      (exception_id : Text) (response : DecisionRecordResponse) (db db1 : Database)
      → load_decision_by_idempotency_key exception_id key db ≡ none
      → record_decision sha256 supply principal request_id exception_id body key db
        ≡ ok (response, db1)
      → (s : Session) × (run_decision sha256 supply principal request_id exception_id body key
            (record { db = db; pending = [] })
          ≡ ok (response, s))
        × (s.db ≡ db1)
  unfolding record_decision with_transaction
  fresh_run exception_id response db db1 fresh h =
      let start : Session = record { db = db; pending = [] } in
      let h' : with_transaction db
            (run_decision sha256 supply principal request_id exception_id body key)
          ≡ ok (response, db1) =
        rw (fresh, record_decision) at h in
      let ((r, s), ran, h1) =
        >>=-eq-ok (run_decision sha256 supply principal request_id exception_id body key start) _
          h' in
      let (committed, done, h2) = >>=-eq-ok (commit s) _ h1 in
      let same = ok_inj h2 in
      (
        s,
        ran ∙ ap (λ q. ok (q, s)) (ap (λ p. p.0) same),
        sym (commit_lem s committed done) ∙ ap (λ p. p.1) same,
      )

  pub record_decision-IsCommitted :
      (exception_id : Text) (response : DecisionRecordResponse) (db db1 : Database)
      → load_decision_by_idempotency_key exception_id key db ≡ none
      → record_decision sha256 supply principal request_id exception_id body key db
        ≡ ok (response, db1)
      → IsCommitted exception_id response db db1
  record_decision-IsCommitted exception_id response db db1 fresh h =
      let (s, ran, same) = fresh_run exception_id response db db1 fresh h in
      subst (λ d. IsCommitted exception_id response db d) same
        (run_decision-IsCommitted exception_id response db s ran)
