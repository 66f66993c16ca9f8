-- ===== src/Receipt/Written.antt =====
-- server/src/services/receipt.service.ts: what a receipt that returns has committed, by its steps.
use cargo_execution_assistan.Prelude.{
  ℕ, ◌≡◌, refl, sym, ap, ◌∙◌, subst, ◌⊎◌, inl, inr, String, Option, none, some, List, [], ◌∷◌, ◌++◌,
  map, Result, ok, err, >>=-eq-ok, ok_inj, append_assoc, Bool-cases, str_eq,
}
use cargo_execution_assistan.Text.{Text, Platform, codes}
use cargo_execution_assistan.Text.Encoding.{iso_string}
use cargo_execution_assistan.Validation.Entry.{CanonicalEntryRecord}
use cargo_execution_assistan.Validation.Rule.{pass, fail, ValidationEvaluation}
use cargo_execution_assistan.Validation.Engine.{evaluate}
use cargo_execution_assistan.Validation.Rules.{rules}
use cargo_execution_assistan.Database.{
  open_state, Database, Session, AuditRow, Thrown, unique_violation, commit, check_events,
  with_transaction,
}
use cargo_execution_assistan.Receipt.Write.{ReceiptSupply, cast_values, pending_recommendation}
use cargo_execution_assistan.Receipt.{
  ReceiptPrincipal, ReceiptResponse, ExceptionRef, receipt_outcome_of, outcome_text, stored_values,
  entry_row, validation_row, exception_row, receipt_response, duplicate_resolved, run_receipt,
  receive_entry,
}
use cargo_execution_assistan.Receipt.Received.{
  with_received, with_assessed, with_case, IsDerived, IsReceived, run_receipt_lem,
}

-- The transaction has committed what its callback left.
pub with_transaction-ok :
    {A : Type 0} (db : Database) (fn : Session → Result Thrown (A × Session)) (result : A)
    (db' : Database)
    → with_transaction db fn ≡ ok (result, db')
    → (s : Session) × (fn (record { db = db; pending = [] }) ≡ ok (result, s)) × (db' ≡ s.db)
unfolding with_transaction commit
with_transaction-ok db fn result db' h =
    let ((r, s), called, h1) = >>=-eq-ok (fn (record { db = db; pending = [] })) _ h in
    let (committed, done, h2) = >>=-eq-ok (commit s) _ h1 in
    let (u, checked, h3) = >>=-eq-ok (check_events s.db s.pending) _ done in
    let same = ok_inj h2 in
    (
      s,
      called ∙ ap (λ x. ok (x, s)) (ap (λ p. p.0) same),
      sym (ap (λ p. p.1) same) ∙ sym (ok_inj h3),
    )

module _ (sha256 : List ℕ → List ℕ) (platform : Platform) (supply : ReceiptSupply)
    (principal : ReceiptPrincipal) (request_id : Option Text) (submitted : CanonicalEntryRecord)
    (provided : List String) (db : Database) where
  duplicate-ok :
      (r : Result Thrown (ReceiptResponse × Database)) (done : ReceiptResponse × Database)
      → duplicate_resolved sha256 platform submitted db r ≡ ok done
      → r ≡ ok done
  duplicate-ok (ok x) done h = h
  duplicate-ok (err (unique_violation name)) done h =
      elim (Bool-cases (str_eq name "uq_cargo_entries_entry_number")) [
        | inl e ↦ let h' = rw e at h in cc
        | inr e ↦ let h' = rw e at h in cc
      ]
  duplicate-ok (err _) done h = cc

  pub receive_entry-ok :
      (response : ReceiptResponse) (db' : Database)
      → receive_entry sha256 platform supply principal request_id submitted provided db
        ≡ ok (response, db')
      → (s : Session) × IsReceived sha256 platform supply principal request_id submitted provided
          (record { db = db; pending = [] })
          response
          s
        × (db' ≡ s.db)
  unfolding receive_entry
  receive_entry-ok response db' h =
      let (s, ran, same) =
        with_transaction-ok db
          (run_receipt sha256 platform supply principal request_id submitted provided) response db'
          (duplicate-ok _ (response, db') h) in
      (
        s,
        run_receipt_lem sha256 platform supply principal request_id submitted provided _ response s
            ran,
        same,
      )

  -- The tables after an entry without findings, and after one with some.
  abbrev pub IsClosing :
      ValidationEvaluation → AuditRow → AuditRow → Option ExceptionRef → Database → Type 0
  IsClosing evaluation a b exception db' =
      ((evaluation.outcome ≡ pass)
        × (exception ≡ none)
        × (db'.exceptions ≡ db.exceptions)
        × (db'.recommendations ≡ db.recommendations)
        × (db'.audit_entries ≡ db.audit_entries ++ a ∷ b ∷ []))
      ⊎ ((evaluation.outcome ≡ fail)
          × (exception
              ≡ some (record {
                id = supply.exception_id;
                state = open_state;
                receipt_position = supply.receipt_position;
              }))
          × (db'.exceptions ≡ db.exceptions ++ exception_row supply ∷ [])
          × (db'.recommendations
              ≡ db.recommendations
                ++ pending_recommendation supply.recommendation_id supply.exception_id ∷ [])
          × (c : AuditRow) × (c.entry.action_type ≡ codes "EXCEPTION_OPENED")
          × (c.entry.case_id ≡ supply.entry_id)
          × (db'.audit_entries ≡ db.audit_entries ++ a ∷ b ∷ c ∷ []))

  -- What is in the database after a receipt.
  pub record IsWritten (response : ReceiptResponse) (db' : Database) : Type 0 where
    pub evaluation : ValidationEvaluation
    pub values : CanonicalEntryRecord
    pub cast : cast_values supply.casts (stored_values submitted) ≡ ok values
    pub first : AuditRow
    pub second : AuditRow
    pub evaluated : evaluate submitted (iso_string supply.now) (rules platform) ≡ ok evaluation
    pub entries :
        db'.cargo_entries
        ≡ db.cargo_entries
          ++ entry_row supply principal values (receipt_outcome_of evaluation.outcome) ∷ []
    pub validations :
        db'.validation_results ≡ db.validation_results ++ validation_row supply evaluation ∷ []
    pub findings :
        db'.validation_findings
        ≡ db.validation_findings
          ++ map
              (λ f. record { validation_result_id = supply.validation_id; content = f })
              evaluation.findings
    pub received :
        (first.entry.action_type ≡ codes "ENTRY_RECEIVED") × (first.entry.case_id ≡ supply.entry_id)
    pub completed :
        (second.entry.action_type ≡ codes "VALIDATION_COMPLETED")
        × (second.entry.case_id ≡ supply.entry_id)
        × (second.entry.after_state ≡ outcome_text (receipt_outcome_of evaluation.outcome))
    pub closing : IsClosing evaluation first second response.exception db'
    pub answer :
        response
        ≡ receipt_response supply principal submitted provided evaluation response.exception

  abbrev start : Session
  start = record { db = db; pending = [] }

  assessed : ValidationEvaluation → CanonicalEntryRecord → AuditRow → AuditRow → Session
  assessed evaluation values a b =
      with_assessed sha256 platform supply principal request_id submitted provided evaluation b (
        with_received sha256 platform supply principal request_id submitted provided evaluation
          values a start)

  abbrev Tables :
      ValidationEvaluation
      → CanonicalEntryRecord
      → AuditRow
      → AuditRow
      → Option ExceptionRef
      → Database
      → Type 0
  Tables evaluation values a b exception db' =
      (db'.cargo_entries
        ≡ db.cargo_entries
          ++ entry_row supply principal values (receipt_outcome_of evaluation.outcome) ∷ [])
      × (db'.validation_results ≡ db.validation_results ++ validation_row supply evaluation ∷ [])
      × (db'.validation_findings
          ≡ db.validation_findings
            ++ map (λ f. record { validation_result_id = supply.validation_id; content = f })
                evaluation.findings)
      × IsClosing evaluation a b exception db'

  tables :
      (evaluation : ValidationEvaluation) (values : CanonicalEntryRecord) (a b : AuditRow)
      (exception : Option ExceptionRef) (mid s : Session)
      → mid ≡ assessed evaluation values a b
      → IsDerived sha256 platform supply principal request_id submitted provided evaluation mid
          exception s
      → Tables evaluation values a b exception s.db
  unfolding assessed
  tables evaluation values a b exception mid s two (inl (passed, none_opened, same)) =
      subst (λ (t : Session). Tables evaluation values a b exception t.db) (sym (same ∙ two))
        (
          refl,
          refl,
          refl,
          inl (passed, none_opened, refl, refl, append_assoc db.audit_entries (a ∷ []) (b ∷ [])),
        )
  tables evaluation values a b exception mid s two (inr (failed, opened, id, t, appended, same)) =
      let c = appended.row in
      subst (λ (t : Session). Tables evaluation values a b exception t.db)
        (sym (
          same
          ∙ ap (with_case sha256 platform supply principal request_id submitted provided c) two))
        (
          refl,
          refl,
          refl,
          inr (
            failed,
            opened,
            refl,
            refl,
            c,
            ap (λ e. e.action_type) appended.content,
            ap (λ e. e.case_id) appended.content,
            append_assoc (db.audit_entries ++ a ∷ []) (b ∷ []) (c ∷ [])
                ∙ append_assoc db.audit_entries (a ∷ []) (b ∷ c ∷ []),
          ),
        )

  pub receive_entry-IsWritten :
      (response : ReceiptResponse) (db' : Database)
      → receive_entry sha256 platform supply principal request_id submitted provided db
        ≡ ok (response, db')
      → IsWritten response db'
  unfolding assessed
  receive_entry-IsWritten response db' h =
      let (s, r, same) = receive_entry-ok response db' h in
      let a = r.first.row in
      let b = r.second.row in
      let two : r.after_second ≡ assessed r.evaluation r.values a b =
        r.assessed
        ∙ ap
            (with_assessed sha256 platform supply principal request_id submitted provided
              r.evaluation b)
            r.received in
      let (entries, validations, findings, closing) =
        tables r.evaluation r.values a b r.exception r.after_second s two r.derived in
      let named : r.exception ≡ response.exception = sym (ap (λ x. x.exception) r.answer) in
      record {
        evaluation = r.evaluation;
        values = r.values;
        cast = r.cast;
        first = a;
        second = b;
        evaluated = r.evaluated;
        entries = rw same entries;
        validations = rw same validations;
        findings = rw same findings;
        received = (ap (λ e. e.action_type) r.first.content, ap (λ e. e.case_id) r.first.content);
        completed = (
          ap (λ e. e.action_type) r.second.content,
          ap (λ e. e.case_id) r.second.content,
          ap (λ e. e.after_state) r.second.content,
        );
        closing = subst (λ x. IsClosing r.evaluation a b x db') named (rw same closing);
        answer =
            subst
              (λ x. response ≡ receipt_response supply principal submitted provided r.evaluation x)
              named r.answer;
      }
