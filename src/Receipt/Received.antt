-- ===== src/Receipt/Received.antt =====
-- server/src/services/receipt.service.ts: what a receipt that returns has written.
use cargo_execution_assistan.Prelude.{
  ℕ, ◌≡◌, refl, sym, ap, ◌∙◌, ◌⊎◌, inl, inr, String, Option, none, some, List, [], ◌∷◌, map, Result,
  ok, err, >>=-eq-ok, ok_inj, check_all-then, subst,
}
use cargo_execution_assistan.Text.{Text, Platform, codes}
use cargo_execution_assistan.Text.Encoding.{iso_string}
use cargo_execution_assistan.Validation.Entry.{CanonicalEntryRecord}
use cargo_execution_assistan.Validation.Rule.{Finding, Outcome, pass, fail, ValidationEvaluation}
use cargo_execution_assistan.Validation.Engine.{ValidationEngineError, evaluate}
use cargo_execution_assistan.Validation.Rules.{rules}
use cargo_execution_assistan.Database.{open_state, Session, RecommendationRow, AuditRow}
use cargo_execution_assistan.Audit.{AuditAppendInput, specialist, system, append, with_audit_row}
use cargo_execution_assistan.Audit.Step.{IsAppended, append_lem}
use cargo_execution_assistan.Receipt.Write.{
  ReceiptSupply, cast_values, entry_constraints, insert_entry, with_entry, origin_constraints,
  insert_field_origins, with_origins, validation_constraints, insert_validation_result,
  with_validation, finding_constraints, insert_findings, with_findings, exception_constraints,
  recommendation_constraints, insert_exception, with_exception, insert_pending_recommendation,
  pending_recommendation, with_recommendation,
}
use cargo_execution_assistan.Receipt.{
  ReceiptPrincipal, ReceiptResponse, ExceptionRef, receipt_outcome_of, outcome_text, stored_values,
  submitted_value_row, finding_value_row, receipt_audit, audit_supply, entry_row, validation_row,
  exception_row, receipt_response, lift_engine, open_case, derive_exception, run_receipt,
}

lift_engine-ok :
    {A : Type 0} (r : Result ValidationEngineError A) (a : A) → lift_engine r ≡ ok a → r ≡ ok a
lift_engine-ok (ok b) a h = ap ok (ok_inj h)
lift_engine-ok (err e) a h = cc

Outcome-cases : (o : Outcome) → (o ≡ pass) ⊎ (o ≡ fail)
Outcome-cases pass = inl refl
Outcome-cases fail = inr refl

module _ (sha256 : List ℕ → List ℕ) (platform : Platform) (supply : ReceiptSupply)
    (principal : ReceiptPrincipal) (request_id : Option Text) (submitted : CanonicalEntryRecord)
    (provided : List String) where
  -- The inputs of the three appends.
  abbrev pub received_audit : AuditAppendInput
  received_audit =
      receipt_audit supply.entry_id none "ENTRY_RECEIVED" (specialist principal.id) none
        (codes "RECEIVED") request_id (map (submitted_value_row submitted) provided)

  abbrev pub completed_audit : ValidationEvaluation → AuditAppendInput
  completed_audit evaluation =
      receipt_audit supply.entry_id none "VALIDATION_COMPLETED" (system principal.id)
        (some (codes "RECEIVED")) (outcome_text (receipt_outcome_of evaluation.outcome)) request_id
        (map finding_value_row evaluation.findings)

  abbrev pub opened_audit : List Finding → AuditAppendInput
  opened_audit findings =
      receipt_audit supply.entry_id (some supply.exception_id) "EXCEPTION_OPENED"
        (system principal.id) none (codes "OPEN") request_id (map finding_value_row findings)

  -- The entry and its validation, each followed by its audit entry.
  abbrev pub with_received :
      ValidationEvaluation → CanonicalEntryRecord → AuditRow → Session → Session
  with_received evaluation values a s = with_audit_row a (
      with_origins supply.entry_id provided
        (with_entry (entry_row supply principal values (receipt_outcome_of evaluation.outcome)) s))

  abbrev pub with_assessed : ValidationEvaluation → AuditRow → Session → Session
  with_assessed evaluation a s = with_audit_row a (
      with_findings supply.validation_id evaluation.findings
        (with_validation (validation_row supply evaluation) s))

  abbrev pub with_case : AuditRow → Session → Session
  with_case a s = with_audit_row a (
      with_recommendation (pending_recommendation supply.recommendation_id supply.exception_id)
        (with_exception (exception_row supply) s))

  abbrev pub opened_ref : ExceptionRef
  opened_ref = record {
    id = supply.exception_id;
    state = open_state;
    receipt_position = supply.receipt_position;
  }

  -- Nothing for a clean entry; the exception with its audit entry for a failing one.
  abbrev pub IsDerived : ValidationEvaluation → Session → Option ExceptionRef → Session → Type 0
  IsDerived evaluation s exception s' =
      ((evaluation.outcome ≡ pass) × (exception ≡ none) × (s' ≡ s))
      ⊎ ((evaluation.outcome ≡ fail)
          × (exception ≡ some opened_ref)
          × (id : Text) × (t : Session) × (appended : IsAppended sha256
              (audit_supply supply supply.third_audit_id) (opened_audit evaluation.findings) t id
              s')
          × (s' ≡ with_case appended.row s))

  abbrev recommendation : RecommendationRow
  recommendation = pending_recommendation supply.recommendation_id supply.exception_id

  open_case_lem :
      (findings : List Finding) (s : Session) (exception : Option ExceptionRef) (s' : Session)
      → open_case sha256 platform supply principal request_id findings s ≡ ok (exception, s')
      → (exception ≡ some opened_ref)
        × (id : Text) × (t : Session) × (appended : IsAppended sha256
            (audit_supply supply supply.third_audit_id)
            (opened_audit findings)
            t
            id
            s')
        × (s' ≡ with_case appended.row s)
  unfolding open_case insert_exception insert_pending_recommendation
  open_case_lem [] s exception s' h = cc
  open_case_lem (f ∷ findings) s exception s' h =
      let (s1, h1, r1) = >>=-eq-ok (insert_exception (exception_row supply) s) _ h in
      let (s2, h2, r2) =
        >>=-eq-ok (insert_pending_recommendation supply.recommendation_id supply.exception_id s1) _
          r1 in
      let ((id, s3), h3, r3) =
        >>=-eq-ok
          (append sha256 (audit_supply supply supply.third_audit_id) (opened_audit (f ∷ findings))
            s2)
          _ r2 in
      let done = ok_inj r3 in
      let e1 = check_all-then (exception_constraints (exception_row supply) s.db) _ s1 h1 in
      let e2 = check_all-then (recommendation_constraints recommendation s1.db) _ s2 h2 in
      let appended =
        append_lem sha256 (audit_supply supply supply.third_audit_id) (opened_audit (f ∷ findings))
          s2 id s3 h3 in
      let written : s3 ≡ with_case appended.row s =
        appended.inserted.stored
        ∙ ap (with_audit_row appended.row) (e2 ∙ ap (with_recommendation recommendation) e1) in
      let final : (x : IsAppended sha256 (audit_supply supply supply.third_audit_id)
            (opened_audit (f ∷ findings)) s2 id s')
          × (s' ≡ with_case x.row s) =
        subst
          (λ t.
            (x : IsAppended sha256 (audit_supply supply supply.third_audit_id)
              (opened_audit (f ∷ findings)) s2 id t)
            × (t ≡ with_case x.row s))
          (ap (λ p. p.1) done) (appended, written) in
      (sym (ap (λ p. p.0) done), id, s2, final.0, final.1)

  derive_exception_lem :
      (evaluation : ValidationEvaluation) (s : Session) (exception : Option ExceptionRef)
      (s' : Session)
      → derive_exception sha256 platform supply principal request_id evaluation s
        ≡ ok (exception, s')
      → IsDerived evaluation s exception s'
  unfolding derive_exception
  derive_exception_lem evaluation s exception s' h = elim (Outcome-cases evaluation.outcome) [
    | inl e ↦ let h' = rw (e, derive_exception) at h in inl (e, cc, cc)
    | inr e ↦
        let (ref, id, t, appended, written) =
          open_case_lem evaluation.findings s exception s' (rw (e, derive_exception) at h) in
        inr (e, ref, id, t, appended, written)
  ]

  -- The parts of a receipt that returns.
  pub record IsReceived (s : Session) (response : ReceiptResponse) (s' : Session) : Type 0 where
    pub evaluation : ValidationEvaluation
    pub values : CanonicalEntryRecord
    pub cast : cast_values supply.casts (stored_values submitted) ≡ ok values
    pub exception : Option ExceptionRef
    pub first_id : Text
    pub second_id : Text
    pub before_first : Session
    pub after_first : Session
    pub before_second : Session
    pub after_second : Session
    pub evaluated : evaluate submitted (iso_string supply.now) (rules platform) ≡ ok evaluation
    pub first :
        IsAppended sha256
          (audit_supply supply supply.first_audit_id)
          received_audit
          before_first
          first_id
          after_first
    pub received : after_first ≡ with_received evaluation values first.row s
    pub second :
        IsAppended sha256
          (audit_supply supply supply.second_audit_id)
          (completed_audit evaluation)
          before_second
          second_id
          after_second
    pub assessed : after_second ≡ with_assessed evaluation second.row after_first
    pub derived : IsDerived evaluation after_second exception s'
    pub answer :
        response ≡ receipt_response supply principal submitted provided evaluation exception

  pub run_receipt_lem :
      (s : Session) (response : ReceiptResponse) (s' : Session)
      → run_receipt sha256 platform supply principal request_id submitted provided s
        ≡ ok (response, s')
      → IsReceived s response s'
  unfolding run_receipt insert_entry insert_field_origins insert_validation_result insert_findings
  run_receipt_lem s response s' h =
      let (evaluation, h0, r0) =
        >>=-eq-ok (lift_engine (evaluate submitted (iso_string supply.now) (rules platform))) _ h in
      let entry =
        entry_row supply principal (stored_values submitted)
          (receipt_outcome_of evaluation.outcome) in
      let (s1, h1, r1) = >>=-eq-ok (insert_entry supply.casts entry s) _ r0 in
      let (values, cast_ok, h1') =
        >>=-eq-ok (cast_values supply.casts (stored_values submitted)) _ h1 in
      let row = entry_row supply principal values (receipt_outcome_of evaluation.outcome) in
      let (s2, h2, r2) = >>=-eq-ok (insert_field_origins supply.entry_id provided s1) _ r1 in
      let ((first_id, s3), h3, r3) =
        >>=-eq-ok (append sha256 (audit_supply supply supply.first_audit_id) received_audit s2) _
          r2 in
      let (s4, h4, r4) =
        >>=-eq-ok (insert_validation_result (validation_row supply evaluation) s3) _ r3 in
      let (s5, h5, r5) =
        >>=-eq-ok (insert_findings supply.validation_id evaluation.findings s4) _ r4 in
      let ((second_id, s6), h6, r6) =
        >>=-eq-ok
          (append sha256 (audit_supply supply supply.second_audit_id) (completed_audit evaluation)
            s5)
          _ r5 in
      let ((exception, s7), h7, r7) =
        >>=-eq-ok (derive_exception sha256 platform supply principal request_id evaluation s6) _
          r6 in
      let first =
        append_lem sha256 (audit_supply supply supply.first_audit_id) received_audit s2 first_id s3
          h3 in
      let second =
        append_lem sha256 (audit_supply supply supply.second_audit_id) (completed_audit evaluation)
          s5 second_id s6 h6 in
      let e1 = check_all-then (entry_constraints row s.db) (with_entry row s) s1 h1' in
      let e2 =
        check_all-then (origin_constraints provided) (with_origins supply.entry_id provided s1) s2
          h2 in
      let e4 =
        check_all-then (validation_constraints (validation_row supply evaluation) s3.db)
          (with_validation (validation_row supply evaluation) s3) s4 h4 in
      let e5 =
        check_all-then (finding_constraints evaluation.findings)
          (with_findings supply.validation_id evaluation.findings s4) s5 h5 in
      let done = ok_inj r7 in
      record {
        evaluation = evaluation;
        values = values;
        cast = cast_ok;
        exception = exception;
        first_id = first_id;
        second_id = second_id;
        before_first = s2;
        after_first = s3;
        before_second = s5;
        after_second = s6;
        evaluated = lift_engine-ok _ evaluation h0;
        first = first;
        received =
            first.inserted.stored
            ∙ ap (with_audit_row first.row) (e2 ∙ ap (with_origins supply.entry_id provided) e1);
        second = second;
        assessed =
            second.inserted.stored
            ∙ ap (with_audit_row second.row)
                (e5 ∙ ap (with_findings supply.validation_id evaluation.findings) e4);
        derived =
            subst (IsDerived evaluation s6 exception) (ap (λ p. p.1) done)
              (derive_exception_lem evaluation s6 exception s7 h7);
        answer = sym (ap (λ p. p.0) done);
      }
