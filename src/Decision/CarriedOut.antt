-- ===== src/Decision/CarriedOut.antt =====
-- server/src/services/decision.service.ts: what the writes of a plan leave in the open transaction.
use cargo_execution_assistan.Prelude.{
  ℕ, ◌≡◌, sym, ap, ◌∙◌, false, Option, List, ok, guard, >>=-eq-ok, ok_inj, check_all, check_all_iff,
  AllHold, any,
}
use cargo_execution_assistan.Text.{Text, text_eq}
use cargo_execution_assistan.Database.{
  Session, Supply, CaseState, ExceptionRow, RecommendationRow, DecisionRow, ResolutionValue,
  read_invariant,
}
use cargo_execution_assistan.Audit.{append}
use cargo_execution_assistan.Decision.{decision_row, decision_audit, carry_out}
use cargo_execution_assistan.Decision.Planning.{DecisionCreateRequest, Plan}
use cargo_execution_assistan.Decision.Write.{
  decision_constraints, insert_decision, with_decision, value_constraints, insert_decision_values,
  with_values, close_case, with_closed,
}
use cargo_execution_assistan.Decision.Replay.{DecisionPrincipal, DecisionRecordResponse}

insert_decision_lem :
    (row : DecisionRow) (s s1 : Session)
    → insert_decision row s ≡ ok s1
    → (s1 ≡ with_decision row s) × AllHold (decision_constraints row s.db)
unfolding insert_decision
insert_decision_lem row s s1 h =
    let (u, checked, h1) = >>=-eq-ok (check_all (decision_constraints row s.db)) _ h in
    (sym (ok_inj h1), (check_all_iff (decision_constraints row s.db) u).0 checked)

insert_decision_values_lem :
    (id : Text) (values : List ResolutionValue) (s s1 : Session)
    → insert_decision_values id values s ≡ ok s1
    → s1 ≡ with_values id values s
unfolding insert_decision_values
insert_decision_values_lem id values s s1 h =
    let (u, checked, h1) = >>=-eq-ok (check_all (value_constraints values)) _ h in sym (ok_inj h1)

close_case_lem :
    (id : Text) (state : CaseState) (supply : Supply) (s s1 : Session)
    → close_case id state supply s ≡ ok s1
    → s1 ≡ with_closed id state supply s
unfolding close_case
close_case_lem id state supply s s1 h =
    let (u, found, h1) =
      >>=-eq-ok (guard (any (λ e. text_eq e.id id) s.db.exceptions) read_invariant) _ h in
    sym (ok_inj h1)

module _ (sha256 : List ℕ → List ℕ) (supply : Supply) (principal : DecisionPrincipal)
    (request_id : Option Text) (body : DecisionCreateRequest) (key : Option Text) where
  -- What the writes of a plan leave in the open transaction.
  pub record IsCarriedOut (ex : ExceptionRow) (recommendation : RecommendationRow) (plan : Plan)
      (s : Session) (response : DecisionRecordResponse) (s4 : Session) : Type 0 where
    pub s3 : Session
    pub writes :
        s3
        ≡ with_closed ex.id plan.resulting_state supply (
            with_values supply.decision_id plan.resolution_values (
              with_decision
                (decision_row supply principal ex.id recommendation.id body key plan)
                s))
    pub constraints : AllHold (
        decision_constraints
          (decision_row supply principal ex.id recommendation.id body key plan)
          s.db)
    pub id : Text
    pub appending :
        append sha256 supply
          (decision_audit supply principal request_id ex recommendation.id plan)
          s3
        ≡ ok (id, s4)
    pub answered :
        (response.decision_id ≡ supply.decision_id)
        × (response.audit_entry_id ≡ id)
        × (response.exception_state ≡ plan.resulting_state)
        × (response.idempotent_replay ≡ false)

  pub carry_out_lem :
      (ex : ExceptionRow) (recommendation : RecommendationRow) (plan : Plan) (s : Session)
      (response : DecisionRecordResponse) (s4 : Session)
      → carry_out sha256 supply principal request_id ex recommendation.id body key plan s
        ≡ ok (response, s4)
      → IsCarriedOut ex recommendation plan s response s4
  unfolding carry_out
  carry_out_lem ex recommendation plan s response s4 h =
      let row = decision_row supply principal ex.id recommendation.id body key plan in
      let (s1, inserted, h1) = >>=-eq-ok (insert_decision row s) _ h in
      let (s2, valued, h2) =
        >>=-eq-ok (insert_decision_values supply.decision_id plan.resolution_values s1) _ h1 in
      let (s3, closing, h3) = >>=-eq-ok (close_case ex.id plan.resulting_state supply s2) _ h2 in
      let ((id, s5), appending, h4) =
        >>=-eq-ok
          (append sha256 supply
            (decision_audit supply principal request_id ex recommendation.id plan) s3)
          _ h3 in
      let (e1, constraints) = insert_decision_lem row s s1 inserted in
      let e2 = insert_decision_values_lem supply.decision_id plan.resolution_values s1 s2 valued in
      let e3 = close_case_lem ex.id plan.resulting_state supply s2 s3 closing in
      let same = ok_inj h4 in
      record {
        s3 = s3;
        writes =
            e3
            ∙ ap (with_closed ex.id plan.resulting_state supply)
                (e2 ∙ ap (with_values supply.decision_id plan.resolution_values) e1);
        constraints = constraints;
        id = id;
        appending = appending ∙ ap (λ t. ok (id, t)) (ap (λ r. r.1) same);
        answered = (
          sym (ap (λ r. r.0.decision_id) same),
          sym (ap (λ r. r.0.audit_entry_id) same),
          sym (ap (λ r. r.0.exception_state) same),
          sym (ap (λ r. r.0.idempotent_replay) same),
        );
      }
