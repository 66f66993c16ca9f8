-- ===== src/Queue/Tests.antt =====
-- The theorem on the queue, applied to a database with a closed case, an open one and three findings.
use cargo_execution_assistan.Prelude.{◌≡◌, refl, String, false, some, [], ◌∷◌, ok}
use cargo_execution_assistan.Text.{codes, decimal}
use cargo_execution_assistan.Text.Encoding.{iso_string}
use cargo_execution_assistan.Validation.Rule.{fail}
use cargo_execution_assistan.Database.{Database, FindingRow, resolved}
use cargo_execution_assistan.Queue.{
  QueueResponse, list_open_exceptions, load_findings_by_validation_result_ids,
  derive_failure_summary, list_queue,
}
use cargo_execution_assistan.Queue.Listed.{IsListed, list_queue-IsListed}
use cargo_execution_assistan.Sample.{database}

abbrev finding : String → String → FindingRow
finding rule message = record {
  validation_result_id = codes "v1";
  content = record {
    rule_id = rule;
    field_name = "carrier_code";
    failure_code = "CODE";
    message = codes message;
  };
}

abbrev queued : Database
queued = record database {
  exceptions =
      record {
        id = codes "x0";
        entry_id = codes "e1";
        validation_result_id = codes "v1";
        receipt_position = 0;
        state = resolved;
        closed_at = some 1789137127001;
        decision_id = some (codes "d0");
      }
      ∷ database.exceptions;
  validation_results =
      record {
        id = codes "v1";
        entry_id = codes "e1";
        outcome = fail;
        rule_set_version = "RIV-2026.09";
        evaluated_at = 1789137127000;
        rules_evaluated_count = 28;
        findings_count = 3;
      }
      ∷ [];
  validation_findings = finding "RIV-030" "c" ∷ finding "RIV-010" "a" ∷ finding "RIV-020" "b" ∷ [];
}

list_queue-queued :
    list_queue queued
    ≡ ok (record {
      exceptions =
          record {
            id = codes "x1";
            case_reference = codes "CE-2026-000001";
            receipt_position = 1;
            received_at = iso_string 1789137127000;
            entry_number = some (codes "ENT-1");
            finding_count = 3;
            failure_summary = codes "a; b and 1 more";
          }
          ∷ [];
      returned_count = 1;
      truncated = false;
    })
unfolding list_queue list_open_exceptions load_findings_by_validation_result_ids
    derive_failure_summary decimal
list_queue-queued = refl

list_queue-IsListed_example : (q : QueueResponse) × (list_queue queued ≡ ok q) × IsListed queued q
list_queue-IsListed_example = list_queue-IsListed queued refl
