-- ===== src/Decision/Recorded.antt =====
-- server/src/services/decision.service.ts: what a decision that is recorded leaves in the database.
use cargo_execution_assistan.Prelude.{
  ℕ, ◌≡◌, ◌≢◌, refl, sym, ap, ◌∙◌, ◌⊎◌, inl, inr, subst, Bool, true, false, not, Option, none, some,
  List, [], ◌∷◌, ◌++◌, map, ok, any, find, find-holds, >>=-eq-ok, Paired, arith, Bool-cases,
}
use cargo_execution_assistan.Text.{Text, codes, text_eq}
use cargo_execution_assistan.Text.Laws.{text_eq_iff}
use cargo_execution_assistan.Database.{
  Database, Session, Supply, CaseState, open_state, resolved, rejected, ExceptionRow,
  RecommendationRow, AuditRow,
}
use cargo_execution_assistan.Canonical.{AuditValue}
use cargo_execution_assistan.Audit.{validate, next_sequence, canonical_entry}
use cargo_execution_assistan.Audit.Chain.{IsChained, append-IsChained}
use cargo_execution_assistan.Audit.Sound.{AllAdmitted, validate-IsAdmissible}
use cargo_execution_assistan.Decision.{
  decision_row, decision_audit, state_text, open_exception, current_recommendation, run_decision,
  record_decision,
}
use cargo_execution_assistan.Decision.Planning.{DecisionCreateRequest, Plan, make_plan}
use cargo_execution_assistan.Decision.Write.{decision_constraints, close_matching}
use cargo_execution_assistan.Decision.Replay.{
  DecisionPrincipal, DecisionRecordResponse, load_decision_by_idempotency_key,
}
use cargo_execution_assistan.Decision.Lawful.{IsLawful, make_plan-IsLawful}
use cargo_execution_assistan.Decision.CarriedOut.{carry_out_lem}
use cargo_execution_assistan.Decision.Committed.{record_decision-IsCommitted, fresh_run}
use cargo_execution_assistan.Decision.Reads.{
  validate-author, open_exception-open, current_recommendation-current,
}

-- What the response and the audit entry call a state.
abbrev pub state_name : CaseState → Text
state_name open_state = codes "OPEN"
state_name resolved = codes "RESOLVED"
state_name rejected = codes "REJECTED"

not-true : (b : Bool) → not b ≡ true → b ≡ false
not-true b h = ground arith

module _ (sha256 : List ℕ → List ℕ) (supply : Supply) (principal : DecisionPrincipal)
    (request_id : Option Text) (body : DecisionCreateRequest) (key : Option Text) where
  -- The row of the case is closed by the decision; every other row is as it was.
  abbrev pub IsClosing : Text → CaseState → ExceptionRow → ExceptionRow → Type 0
  IsClosing exception_id state old new =
      ((old.id ≡ exception_id)
        × (new ≡ record old {
          state = state;
          closed_at = some supply.now;
          decision_id = some supply.decision_id;
        }))
      ⊎ ((old.id ≢ exception_id) × (new ≡ old))

  -- The audit entry of the decision: who decided what, when, on which case and why, with the values
  -- of the plan.
  pub record IsAuditEntry (ex : ExceptionRow) (recommendation : RecommendationRow) (plan : Plan)
      (audit : AuditRow) : Type 0 where
    pub on_case : audit.entry.case_id ≡ ex.entry_id
    pub on_exception : audit.entry.exception_id ≡ some ex.id
    pub on_recommendation : audit.entry.recommendation_id ≡ some recommendation.id
    pub on_decision : audit.entry.decision_id ≡ some supply.decision_id
    pub action : audit.entry.action_type ≡ codes plan.action_type
    pub at_time : audit.entry.occurred_at ≡ supply.now
    pub from_state : audit.entry.before_state ≡ some (codes "OPEN")
    pub to_state : audit.entry.after_state ≡ state_name plan.resulting_state
    pub reason : audit.entry.reason ≡ plan.reason
    pub values : AllAdmitted plan.audit_values audit.entry.values
    pub author : audit.entry.actor_specialist_id ≡ some principal.id

  -- What a decision that is recorded leaves in the database.
  pub record IsRecorded (exception_id : Text) (response : DecisionRecordResponse)
      (db db1 : Database) : Type 0 where
    pub ex : ExceptionRow
    pub recommendation : RecommendationRow
    pub plan : Plan
    pub audit : AuditRow
    pub found : find (λ e. text_eq e.id exception_id) db.exceptions ≡ some ex
    pub was_open : ex.state ≡ open_state
    pub first : any (λ d. text_eq d.exception_id exception_id) db.decisions ≡ false
    pub known : any (λ s. text_eq s.id principal.id) db.specialists ≡ true
    pub current :
        find (λ r. text_eq r.exception_id exception_id) db.recommendations ≡ some recommendation
    pub not_another :
        (body.recommendation_id ≡ none) ⊎ (body.recommendation_id ≡ some recommendation.id)
    pub lawful : IsLawful db recommendation ex.entry_id body plan
    pub decisions :
        db1.decisions
        ≡ db.decisions
          ++ record {
            id = supply.decision_id;
            exception_id = exception_id;
            decision_type = body.decision_type;
            decided_by = principal.id;
            decided_at = supply.now;
            reason = plan.reason;
            recommendation_id = recommendation.id;
            resulting_state = plan.resulting_state;
            idempotency_key = key;
          }
            ∷ []
    pub values :
        db1.decision_values
        ≡ db.decision_values
          ++ map
              (λ v. record { decision_id = supply.decision_id; content = v })
              plan.resolution_values
    pub closed_case :
        Paired (IsClosing exception_id plan.resulting_state) db.exceptions db1.exceptions
    pub audited : db1.audit_entries ≡ db.audit_entries ++ audit ∷ []
    pub entry : IsAuditEntry ex recommendation plan audit
    pub untouched :
        (db1.cargo_entries ≡ db.cargo_entries)
        × (db1.validation_results ≡ db.validation_results)
        × (db1.validation_findings ≡ db.validation_findings)
        × (db1.field_origins ≡ db.field_origins)
        × (db1.recommendations ≡ db.recommendations)
        × (db1.recommendation_values ≡ db.recommendation_values)
        × (db1.specialists ≡ db.specialists)
        × (db1.sessions ≡ db.sessions)
    pub answered :
        (response.decision_id ≡ supply.decision_id)
        × (response.audit_entry_id ≡ audit.id)
        × (response.exception_state ≡ plan.resulting_state)
        × (response.idempotent_replay ≡ false)

  close_matching-IsClosing :
      (id : Text) (state : CaseState) (xs : List ExceptionRow)
      → Paired (IsClosing id state) xs (close_matching id state supply xs)
  close_matching-IsClosing id state [] = tt
  close_matching-IsClosing id state (x ∷ xs) = elim (Bool-cases (text_eq x.id id)) [
    | inl hit ↦
        rw (hit, close_matching)
          (inl ((text_eq_iff x.id id).0 hit, refl), close_matching-IsClosing id state xs)
    | inr miss ↦
        rw (miss, close_matching)
          (
            inr (λ e. let hit = (text_eq_iff x.id id).1 e in cc, refl),
            close_matching-IsClosing id state xs,
          )
  ]

  audited_entry :
      (db : Database) (ex : ExceptionRow) (recommendation : RecommendationRow) (plan : Plan)
      (audit : AuditRow) (actor : Text × Option Text) (values : List AuditValue)
      → validate (decision_audit supply principal request_id ex recommendation.id plan)
        ≡ ok (actor, values)
      → audit.entry
        ≡ canonical_entry supply
            (decision_audit supply principal request_id ex recommendation.id plan)
            (next_sequence ex.entry_id db)
            actor
            values
      → IsAuditEntry ex recommendation plan audit
  audited_entry db ex recommendation plan audit actor values valid content = record {
    on_case = ap (λ e. e.case_id) content;
    on_exception = ap (λ e. e.exception_id) content;
    on_recommendation = ap (λ e. e.recommendation_id) content;
    on_decision = ap (λ e. e.decision_id) content;
    action = ap (λ e. e.action_type) content;
    at_time = ap (λ e. e.occurred_at) content;
    from_state = ap (λ e. e.before_state) content;
    to_state = ap (λ e. e.after_state) content ∙ named_state plan.resulting_state;
    reason = ap (λ e. e.reason) content;
    values =
        rw (ap (λ e. e.values) content)
          (validate-IsAdmissible
            (decision_audit supply principal request_id ex recommendation.id plan) actor values
            valid).content;
    author =
        ap (λ e. e.actor_specialist_id) content
        ∙ validate-author (decision_audit supply principal request_id ex recommendation.id plan)
            principal.id actor values refl valid;
  }
    where
      named_state : (t : CaseState) → state_text t ≡ state_name t
      named_state open_state = refl
      named_state resolved = refl
      named_state rejected = refl

  -- A decision that is recorded afresh, that is, not as the replay of a key, was made on an open
  -- case, by a specialist of the database, on the case's own recommendation, and is the first one on
  -- the case. What is committed is the database of before with the decision, the values of a lawful
  -- plan, the case closed by the decision at its time, and one more audit entry of the case, which
  -- says who decided what; every other case and every other table is as it was.
  pub record_decision-IsRecorded :
      (exception_id : Text) (response : DecisionRecordResponse) (db db1 : Database)
      → load_decision_by_idempotency_key exception_id key db ≡ none
      → record_decision sha256 supply principal request_id exception_id body key db
        ≡ ok (response, db1)
      → IsRecorded exception_id response db db1
  unfolding decision_constraints
  record_decision-IsRecorded exception_id response db db1 fresh h =
      let c =
        record_decision-IsCommitted sha256 supply principal request_id body key exception_id
          response db db1 fresh h in
      let (found, is_open) = open_exception-open exception_id db c.ex c.was_open in
      let named : c.ex.id ≡ exception_id =
        (text_eq_iff c.ex.id exception_id).0
          (find-holds (λ e. text_eq e.id exception_id) db.exceptions c.ex found) in
      let (current, not_another) =
        current_recommendation-current exception_id body db c.recommendation c.current in
      let (_, (_, (_, (_, (first, (_, (_, (known, _)))))))) = c.constraints in
      record {
        ex = c.ex;
        recommendation = c.recommendation;
        plan = c.plan;
        audit = c.audit;
        found = found;
        was_open = is_open;
        first =
            subst (λ k. any (λ d. text_eq d.exception_id k) db.decisions ≡ false) named
              (not-true (any (λ d. text_eq d.exception_id c.ex.id) db.decisions) first);
        known = known;
        current = current;
        not_another = not_another;
        lawful = make_plan-IsLawful db c.recommendation c.ex.entry_id body c.plan c.planned;
        decisions =
            ap (λ d. d.decisions) c.committed
            ∙ ap
                (λ k.
                  db.decisions
                  ++ decision_row supply principal k c.recommendation.id body key c.plan ∷ [])
                named;
        values = ap (λ d. d.decision_values) c.committed;
        closed_case =
            rw c.committed (
              rw named
                (close_matching-IsClosing exception_id c.plan.resulting_state db.exceptions));
        audited = ap (λ d. d.audit_entries) c.committed;
        entry =
            audited_entry db c.ex c.recommendation c.plan c.audit c.actor c.values c.audit_valid
              c.audited;
        untouched = (
          ap (λ d. d.cargo_entries) c.committed,
          ap (λ d. d.validation_results) c.committed,
          ap (λ d. d.validation_findings) c.committed,
          ap (λ d. d.field_origins) c.committed,
          ap (λ d. d.recommendations) c.committed,
          ap (λ d. d.recommendation_values) c.committed,
          ap (λ d. d.specialists) c.committed,
          ap (λ d. d.sessions) c.committed,
        );
        answered = c.answered;
      }

  run_decision-IsChained :
      (exception_id : Text) (response : DecisionRecordResponse) (db : Database) (s4 : Session)
      → IsChained sha256 db
      → run_decision sha256 supply principal request_id exception_id body key
          (record { db = db; pending = [] })
        ≡ ok (response, s4)
      → IsChained sha256 s4.db
  unfolding run_decision
  run_decision-IsChained exception_id response db s4 chained h =
      let (ex, was_open, h1) = >>=-eq-ok (open_exception exception_id db) _ h in
      let (recommendation, current, h2) =
        >>=-eq-ok (current_recommendation exception_id body db) _ h1 in
      let (plan, planned, h3) = >>=-eq-ok (make_plan db recommendation ex.entry_id body) _ h2 in
      let c =
        carry_out_lem sha256 supply principal request_id body key ex recommendation plan
          (record { db = db; pending = [] }) response s4 h3 in
      append-IsChained sha256 supply
        (decision_audit supply principal request_id ex recommendation.id plan) c.s3 c.id s4
        (subst (λ (t : Session). IsChained sha256 t.db) (sym c.writes) chained) c.appending

  -- A decision that is recorded afresh keeps the audit entries of every case an unbroken hash chain.
  pub record_decision-IsChained :
      (exception_id : Text) (response : DecisionRecordResponse) (db db1 : Database)
      → IsChained sha256 db
      → load_decision_by_idempotency_key exception_id key db ≡ none
      → record_decision sha256 supply principal request_id exception_id body key db
        ≡ ok (response, db1)
      → IsChained sha256 db1
  record_decision-IsChained exception_id response db db1 chained fresh h =
      let (s, ran, same) =
        fresh_run sha256 supply principal request_id body key exception_id response db db1 fresh
          h in
      subst (λ d. IsChained sha256 d) same
        (run_decision-IsChained exception_id response db s chained ran)
