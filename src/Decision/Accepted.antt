-- ===== src/Decision/Accepted.antt =====
-- server/src/services/decision.service.ts: COMMIT accepts what the decision transaction has written.
use cargo_execution_assistan.Prelude.{
  ℕ, ◌≡◌, refl, sym, ap, ◌∙◌, subst, true, false, Option, some, List, [], ◌∷◌, ok, >>=-eq-ok, any,
}
use cargo_execution_assistan.Text.{Text}
use cargo_execution_assistan.Database.{
  Database, Session, Supply, ExceptionRow, RecommendationRow, AuditRow, audit_inserted,
  decision_inserted, audit_check_chain, has_one_audit_entry, check_events, commit, of_case,
  option_eq,
}
use cargo_execution_assistan.Audit.{link_at, with_audit_row}
use cargo_execution_assistan.Audit.Step.{append_lem}
use cargo_execution_assistan.Decision.{
  decision_row, decision_audit, open_exception, current_recommendation, carry_out, run_decision,
}
use cargo_execution_assistan.Decision.Planning.{DecisionCreateRequest, Plan, make_plan}
use cargo_execution_assistan.Decision.Write.{
  decision_constraints, with_decision, with_values, with_closed, closings,
}
use cargo_execution_assistan.Decision.Replay.{DecisionPrincipal, DecisionRecordResponse}
use cargo_execution_assistan.Decision.CarriedOut.{carry_out_lem}
use cargo_execution_assistan.Decision.Commits.{
  check_events-append, linked_for_trigger, one_entry, closings_decided,
}

commit-ok : (s : Session) → check_events s.db s.pending ≡ ok tt → commit s ≡ ok s.db
unfolding commit
commit-ok s h = rw (h, commit) refl

module _ (sha256 : List ℕ → List ℕ) (supply : Supply) (principal : DecisionPrincipal)
    (request_id : Option Text) (body : DecisionCreateRequest) (key : Option Text)
    (db : Database) where
  abbrev start : Session
  start = record { db = db; pending = [] }

  carry_out-commit :
      (ex : ExceptionRow) (recommendation : RecommendationRow) (plan : Plan)
      (response : DecisionRecordResponse) (s : Session)
      → any (λ a. option_eq a.entry.decision_id (some supply.decision_id)) db.audit_entries ≡ false
      → carry_out sha256 supply principal request_id ex recommendation.id body key plan start
        ≡ ok (response, s)
      → commit s ≡ ok s.db
  unfolding decision_constraints
  carry_out-commit ex recommendation plan response s fresh h =
      let c =
        carry_out_lem sha256 supply principal request_id body key ex recommendation plan start
          response s h in
      let entry = decision_audit supply principal request_id ex recommendation.id plan in
      let a = append_lem sha256 supply entry c.s3 c.id s c.appending in
      let row = decision_row supply principal ex.id recommendation.id body key plan in
      let written : Session =
        with_closed ex.id plan.resulting_state supply
          (with_values supply.decision_id plan.resolution_values (with_decision row start)) in
      let final : Session = with_audit_row a.row written in
      let (_, (_, (_, (_, (_, (_, (_, (known, _)))))))) = c.constraints in
      let untouched : c.s3.db.audit_entries ≡ db.audit_entries =
        ap (λ (t : Session). t.db.audit_entries) c.writes in
      let link : link_at a.row.entry.case_sequence (of_case a.row.entry.case_id db.audit_entries)
          ≡ ok a.row.prev_entry_hash =
        subst
          (λ (l : List AuditRow).
            link_at a.row.entry.case_sequence (of_case a.row.entry.case_id l)
            ≡ ok a.row.prev_entry_hash)
          untouched
          (rw (ap (λ e. e.case_sequence) a.content, ap (λ e. e.case_id) a.content) a.linked) in
      let chain : audit_check_chain a.row final.db ≡ true =
        linked_for_trigger a.row final.db db.audit_entries refl link in
      let once : has_one_audit_entry row final.db ≡ true =
        one_entry row final.db db.audit_entries a.row refl fresh
          (ap (λ e. e.decision_id) a.content) in
      let human =
        closings_decided ex.id plan.resulting_state supply row db.decisions final.db db.exceptions
          refl refl refl refl known in
      let first : check_events final.db
            (decision_inserted row ∷ closings ex.id plan.resulting_state supply db.exceptions)
          ≡ ok tt =
        rw once human in
      let last : check_events final.db (audit_inserted a.row ∷ []) ≡ ok tt = rw chain refl in
      subst (λ (t : Session). commit t ≡ ok t.db)
        (sym (a.inserted.stored ∙ ap (with_audit_row a.row) c.writes))
        (commit-ok final (
          check_events-append final.db
            (decision_inserted row ∷ closings ex.id plan.resulting_state supply db.exceptions)
            (audit_inserted a.row ∷ []) first last))

  -- Where no audit entry refers to the new decision's id yet, COMMIT accepts every run of the
  -- decision that returns: the trigger of the hash chain, the trigger that asks for a human decision
  -- behind each closed case, and the trigger that asks for exactly one audit entry of the decision
  -- find nothing to refuse.
  pub run_decision-commit :
      (exception_id : Text) (response : DecisionRecordResponse) (s : Session)
      → any (λ a. option_eq a.entry.decision_id (some supply.decision_id)) db.audit_entries ≡ false
      → run_decision sha256 supply principal request_id exception_id body key
          (record { db = db; pending = [] })
        ≡ ok (response, s)
      → commit s ≡ ok s.db
  unfolding run_decision
  run_decision-commit exception_id response s fresh h =
      let (ex, was_open, h1) = >>=-eq-ok (open_exception exception_id db) _ h in
      let (recommendation, current, h2) =
        >>=-eq-ok (current_recommendation exception_id body db) _ h1 in
      let (plan, planned, h3) = >>=-eq-ok (make_plan db recommendation ex.entry_id body) _ h2 in
      carry_out-commit ex recommendation plan response s fresh h3
