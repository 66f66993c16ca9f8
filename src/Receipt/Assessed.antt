-- ===== src/Receipt/Assessed.antt =====
-- server/src/services/receipt.service.ts: no entry is received that is not assessed.
use cargo_execution_assistan.Prelude.{
  ℕ, ◌≡◌, ◌⊎◌, String, Option, none, some, List, [], ◌∷◌, ◌++◌, map, ok, length, take,
}
use cargo_execution_assistan.Text.{Text, Platform, codes, decimal}
use cargo_execution_assistan.Text.Encoding.{iso_string}
use cargo_execution_assistan.Validation.Entry.{CanonicalEntryRecord}
use cargo_execution_assistan.Validation.Rule.{Outcome, pass, fail, ValidationEvaluation}
use cargo_execution_assistan.Validation.Engine.{evaluate}
use cargo_execution_assistan.Validation.Rules.{rules}
use cargo_execution_assistan.Database.{
  Database, AuditRow, ReceiptOutcome, validated_clean, exception_opened, open_state, pending,
}
use cargo_execution_assistan.Receipt.Write.{ReceiptSupply, case_reference, lpad_6}
use cargo_execution_assistan.Receipt.{ReceiptPrincipal, ReceiptResponse}
use cargo_execution_assistan.Receipt.Stored.{IsKept, IsStored}

module _ (sha256 : List ℕ → List ℕ) (platform : Platform) (supply : ReceiptSupply)
    (principal : ReceiptPrincipal) (request_id : Option Text) (submitted : CanonicalEntryRecord)
    (provided : List String) (db : Database) where
  -- An entry without findings is clean, and opens no case.
  abbrev IsClean :
      Outcome → ReceiptOutcome → AuditRow → AuditRow → ReceiptResponse → Database → Type 0
  IsClean found outcome a b response db' =
      (found ≡ pass)
      × (outcome ≡ validated_clean)
      × (b.entry.after_state ≡ codes "VALIDATED_CLEAN")
      × (response.exception ≡ none)
      × (response.case_url ≡ none)
      × (db'.exceptions ≡ db.exceptions)
      × (db'.recommendations ≡ db.recommendations)
      × (db'.audit_entries ≡ db.audit_entries ++ a ∷ b ∷ [])

  -- An entry with findings opens a case, with a pending recommendation and a third audit entry.
  abbrev IsOpened :
      Outcome → ReceiptOutcome → Text → AuditRow → AuditRow → ReceiptResponse → Database → Type 0
  IsOpened found outcome reference a b response db' =
      (found ≡ fail)
      × (outcome ≡ exception_opened)
      × (b.entry.after_state ≡ codes "EXCEPTION_OPENED")
      × (response.exception
          ≡ some (record {
            id = supply.exception_id;
            state = open_state;
            receipt_position = supply.receipt_position;
          }))
      × (response.case_url ≡ some (codes "/cases/" ++ reference))
      × (db'.exceptions
          ≡ db.exceptions
            ++ record {
              id = supply.exception_id;
              entry_id = supply.entry_id;
              validation_result_id = supply.validation_id;
              receipt_position = supply.receipt_position;
              state = open_state;
              closed_at = none;
              decision_id = none;
            }
              ∷ [])
      × (db'.recommendations
          ≡ db.recommendations
            ++ record {
              id = supply.recommendation_id;
              exception_id = supply.exception_id;
              status = pending;
            }
              ∷ [])
      × (c : AuditRow) × (c.entry.action_type ≡ codes "EXCEPTION_OPENED")
      × (c.entry.case_id ≡ supply.entry_id)
      × (db'.audit_entries ≡ db.audit_entries ++ a ∷ b ∷ c ∷ [])

  -- The entry with its outcome, its one assessment, and what follows from it.
  pub record IsAssessed (response : ReceiptResponse) (db' : Database) : Type 0 where
    pub evaluation : ValidationEvaluation
    pub evaluated : evaluate submitted (iso_string supply.now) (rules platform) ≡ ok evaluation
    pub stored : CanonicalEntryRecord
    pub cast : IsStored supply.casts submitted stored
    pub outcome : ReceiptOutcome
    pub reference : Text
    pub named :
        reference
        ≡ codes "CE-"
          ++ (take 4 (iso_string supply.now) ++ (codes "-" ++ lpad_6 (decimal supply.case_number)))
    pub entries :
        db'.cargo_entries
        ≡ db.cargo_entries
          ++ record {
            id = supply.entry_id;
            case_reference = reference;
            created_by = principal.id;
            received_at = supply.now;
            receipt_outcome = outcome;
            values = stored;
          }
            ∷ []
    pub validations :
        db'.validation_results
        ≡ db.validation_results
          ++ record {
            id = supply.validation_id;
            entry_id = supply.entry_id;
            outcome = evaluation.outcome;
            rule_set_version = evaluation.rule_set_version;
            evaluated_at = supply.now;
            rules_evaluated_count = evaluation.rules_evaluated_count;
            findings_count = length evaluation.findings;
          }
            ∷ []
    pub findings :
        db'.validation_findings
        ≡ db.validation_findings
          ++ map
              (λ f. record { validation_result_id = supply.validation_id; content = f })
              evaluation.findings
    pub first : AuditRow
    pub second : AuditRow
    pub received :
        (first.entry.action_type ≡ codes "ENTRY_RECEIVED") × (first.entry.case_id ≡ supply.entry_id)
    pub completed :
        (second.entry.action_type ≡ codes "VALIDATION_COMPLETED")
        × (second.entry.case_id ≡ supply.entry_id)
    pub closing :
        IsClean evaluation.outcome outcome first second response db'
        ⊎ IsOpened evaluation.outcome outcome reference first second response db'
    pub answer_entry :
        (response.entry.id ≡ supply.entry_id)
        × (response.entry.created_by ≡ principal)
        × IsKept submitted response.entry.values
    pub answer_outcome :
        (response.case_reference ≡ reference)
        × (response.receipt_outcome ≡ outcome)
        × (response.validation.outcome ≡ evaluation.outcome)
        × (response.validation.findings ≡ evaluation.findings)
