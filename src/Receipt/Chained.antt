-- ===== src/Receipt/Chained.antt =====
-- server/src/services/receipt.service.ts: a receipt and the hash chains of the cases.
use cargo_execution_assistan.Prelude.{ℕ, ◌≡◌, sym, ap, inl, inr, String, Option, List, subst, ok}
use cargo_execution_assistan.Text.{Text, Platform}
use cargo_execution_assistan.Validation.Entry.{CanonicalEntryRecord}
use cargo_execution_assistan.Validation.Rule.{ValidationEvaluation}
use cargo_execution_assistan.Database.{Database, Session}
use cargo_execution_assistan.Audit.Chain.{IsChained, IsAppended-IsChained_after}
use cargo_execution_assistan.Receipt.Write.{ReceiptSupply}
use cargo_execution_assistan.Receipt.{
  ReceiptPrincipal, ReceiptResponse, ExceptionRef, audit_supply, receive_entry,
}
use cargo_execution_assistan.Receipt.Received.{
  IsDerived, received_audit, completed_audit, opened_audit,
}
use cargo_execution_assistan.Receipt.Written.{receive_entry-ok}

module _ (sha256 : List ℕ → List ℕ) (platform : Platform) (supply : ReceiptSupply)
    (principal : ReceiptPrincipal) (request_id : Option Text) (submitted : CanonicalEntryRecord)
    (provided : List String) where
  derived-IsChained :
      (evaluation : ValidationEvaluation) (s : Session) (exception : Option ExceptionRef)
      (s' : Session)
      → IsChained sha256 s.db
      → IsDerived sha256 platform supply principal request_id submitted provided evaluation s
          exception s'
      → IsChained sha256 s'.db
  derived-IsChained evaluation s exception s' chained (inl (_, _, same)) =
      subst (λ (t : Session). IsChained sha256 t.db) (sym same) chained
  derived-IsChained evaluation s exception s' chained (inr (_, _, id, t, appended, same)) =
      IsAppended-IsChained_after sha256 (audit_supply supply supply.third_audit_id)
        (opened_audit sha256 platform supply principal request_id submitted provided
          evaluation.findings)
        t id s' s.db appended (ap (λ (x : Session). x.db.audit_entries) same) chained

  -- A receipt that returns keeps the hash chain of every case whole, that of the new case included.
  pub receive_entry-IsChained :
      (db : Database) (response : ReceiptResponse) (db' : Database)
      → IsChained sha256 db
      → receive_entry sha256 platform supply principal request_id submitted provided db
        ≡ ok (response, db')
      → IsChained sha256 db'
  receive_entry-IsChained db response db' chained h =
      let (s, r, same) =
        receive_entry-ok sha256 platform supply principal request_id submitted provided db response
          db' h in
      let first =
        IsAppended-IsChained_after sha256 (audit_supply supply supply.first_audit_id)
          (received_audit sha256 platform supply principal request_id submitted provided)
          r.before_first r.first_id r.after_first db r.first
          (ap (λ (t : Session). t.db.audit_entries) r.received) chained in
      let second =
        IsAppended-IsChained_after sha256 (audit_supply supply supply.second_audit_id)
          (completed_audit sha256 platform supply principal request_id submitted provided
            r.evaluation)
          r.before_second r.second_id r.after_second r.after_first.db r.second
          (ap (λ (t : Session). t.db.audit_entries) r.assessed) first in
      subst (λ d. IsChained sha256 d) (sym same)
        (derived-IsChained r.evaluation r.after_second r.exception s second r.derived)
