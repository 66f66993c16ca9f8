-- ===== src/Receipt/Duplicate.antt =====
-- server/src/services/receipt.service.ts: a receipt with the entry number of an earlier one.
use cargo_execution_assistan.Prelude.{
  ℕ, ◌≡◌, refl, ◌∙◌, true, false, String, Option, some, List, [], any, find, ok, err, find-any,
}
use cargo_execution_assistan.Text.{Text, Platform, text_eq}
use cargo_execution_assistan.Text.Encoding.{iso_string}
use cargo_execution_assistan.Validation.Entry.{CanonicalEntryRecord}
use cargo_execution_assistan.Validation.Rule.{ValidationEvaluation}
use cargo_execution_assistan.Validation.Engine.{evaluate}
use cargo_execution_assistan.Validation.Rules.{rules}
use cargo_execution_assistan.Database.{
  Database, Session, unique_violation, EntryRow, entry_number_duplicate, option_eq,
  with_transaction,
}
use cargo_execution_assistan.Receipt.Write.{
  ReceiptSupply, Casts, cast_values, values_fit, case_reference, entry_constraints, insert_entry,
  find_case_reference_by_entry_number,
}
use cargo_execution_assistan.Receipt.{
  ReceiptPrincipal, entry_row, receipt_outcome_of, stored_values, run_receipt, receive_entry,
}
use cargo_execution_assistan.Receipt.Stored.{stored_values-IsStored}

insert_entry-taken :
    (casts : Casts) (row : EntryRow) (values : CanonicalEntryRecord) (s : Session) (number : Text)
    → cast_values casts row.values ≡ ok values
    → values_fit values ≡ true
    → any (λ e. text_eq e.id row.id) s.db.cargo_entries ≡ false
    → any (λ e. text_eq e.case_reference row.case_reference) s.db.cargo_entries ≡ false
    → values.entry_number ≡ some number
    → any (λ e. option_eq (some number) e.values.entry_number) s.db.cargo_entries ≡ true
    → insert_entry casts row s ≡ err (unique_violation "uq_cargo_entries_entry_number")
unfolding insert_entry entry_constraints
insert_entry-taken casts row values s number cast fits id reference named taken =
    rw (cast, fits, id, reference, named, taken) refl

-- Where an entry with the submitted number is stored, the rules return, the casts of the quantity,
-- the value and the date succeed, the values have the lengths of their columns and the new id and
-- reference are fresh, the receipt throws that the number is taken, with the reference of an entry
-- that has it.
pub receive_entry-duplicate :
    (sha256 : List ℕ → List ℕ) (platform : Platform) (supply : ReceiptSupply)
    (principal : ReceiptPrincipal) (request_id : Option Text) (submitted : CanonicalEntryRecord)
    (provided : List String) (db : Database) (evaluation : ValidationEvaluation)
    (values : CanonicalEntryRecord) (number : Text)
    → evaluate submitted (iso_string supply.now) (rules platform) ≡ ok evaluation
    → cast_values supply.casts (stored_values submitted) ≡ ok values
    → values_fit values ≡ true
    → any (λ e. text_eq e.id supply.entry_id) db.cargo_entries ≡ false
    → any
        (λ e. text_eq e.case_reference (case_reference supply.now supply.case_number))
        db.cargo_entries
      ≡ false
    → submitted.entry_number ≡ some number
    → any (λ e. option_eq (some number) e.values.entry_number) db.cargo_entries ≡ true
    → (row : EntryRow) × (find (λ e. option_eq (some number) e.values.entry_number) db.cargo_entries
        ≡ some row)
      × (receive_entry sha256 platform supply principal request_id submitted provided db
          ≡ err (entry_number_duplicate number (some row.case_reference)))
unfolding receive_entry run_receipt with_transaction
receive_entry-duplicate sha256 platform supply principal request_id submitted provided db evaluation
      values number evaluated cast fits id reference named taken =
    let (row, found) =
      find-any (λ (e : EntryRow). option_eq (some number) e.values.entry_number) db.cargo_entries
        taken in
    let same = (stored_values-IsStored supply.casts submitted values cast).entry_number ∙ named in
    let entry =
      entry_row supply principal (stored_values submitted)
        (receipt_outcome_of evaluation.outcome) in
    let start : Session = record { db = db; pending = [] } in
    let inserted =
      insert_entry-taken supply.casts entry values start number cast fits id reference same taken in
    (
      row,
      found,
      rw (evaluated, inserted) (rw named (rw (found, find_case_reference_by_entry_number) refl)),
    )
