-- ===== src/Receipt/Tests.antt =====
-- The theorems on the receipt, applied to receipts into the sample database.
use cargo_execution_assistan.Prelude.{
  ◌+◌, ◌-◌, ◌≡◌, refl, ◌≢◌, ◌||◌, true, false, any, find, String, none, some, List, [], ◌∷◌, map,
  ok, err, take, length, if◌then◌else◌,
}
use cargo_execution_assistan.Text.{
  codes, text_eq, Platform, is_upper, is_lower, trim, drop_trailing, decimal, digits_value,
}
use cargo_execution_assistan.Text.Encoding.{utf8, json_string, iso_string, code_points}
use cargo_execution_assistan.Text.Regex.{matches}
use cargo_execution_assistan.Canonical.{
  compute_entry_hash, payload, canonical_json, to_microsecond_rfc3339,
}
use cargo_execution_assistan.Database.{
  Database, EntryRow, unique_violation, data_exception, entry_number_duplicate, option_eq,
  validated_clean, with_transaction, commit, audit_check_chain, has_human_decision,
  has_one_audit_entry, has_action_entry,
}
use cargo_execution_assistan.Validation.Entry.{CanonicalEntryRecord, get, is_entry_field}
use cargo_execution_assistan.Validation.Calendar.{
  date_parts, is_calendar_date, is_real_date, add_days_utc, date_only_utc, days_in_month,
  format_date, format_day,
}
use cargo_execution_assistan.Validation.Normalise.{
  trim_only, digits_only, upper_alnum, upper_no_space, upper_keep_hyphen, collapse_lower, is_finite,
  is_positive, parse_decimal, truncate60,
}
use cargo_execution_assistan.Validation.Rule.{ValidationEvaluation, pass}
use cargo_execution_assistan.Validation.Rules.{rules}
use cargo_execution_assistan.Validation.Engine.{
  evaluate, evaluate_from, step, assess, report, resolve_field, resolve_message,
}
use cargo_execution_assistan.Audit.{
  append, validate, validate_actor, check_reason, normalise_values, normalise_value, link_at,
  insert_audit_entry, audit_constraints, reason_allowed,
}
use cargo_execution_assistan.Audit.Secrets.{is_secret_field_name, is_secret_value}
use cargo_execution_assistan.Receipt.Write.{
  ReceiptSupply, Casts, cast_values, case_reference, values_fit, entry_constraints, insert_entry,
  insert_field_origins, validation_constraints, insert_validation_result, insert_findings,
  exception_constraints, insert_exception, insert_pending_recommendation,
}
use cargo_execution_assistan.Receipt.{
  ReceiptPrincipal, ReceiptResponse, stored_values, open_case, derive_exception, run_receipt,
  receive_entry,
}
use cargo_execution_assistan.Receipt.Chained.{receive_entry-IsChained}
use cargo_execution_assistan.Audit.Chain.{IsChained}
use cargo_execution_assistan.Receipt.Duplicate.{receive_entry-duplicate}
use cargo_execution_assistan.Receipt.Twice.{finding_twice, receive_entry-two_findings}
use cargo_execution_assistan.Sample.{checksum, database, from_ok}
use cargo_execution_assistan.Validation.Rules.{rules}
use cargo_execution_assistan.Validation.Rules.Arrival.{
  in_window, arrival_present, arrival_real, arrival_window,
}
use cargo_execution_assistan.Validation.Rules.Goods.{
  country_present, country_format, country_known, goods_present, goods_length, goods_specific,
  quantity_present, quantity_positive, uom_present, uom_known, value_present, value_valid,
}
use cargo_execution_assistan.Validation.Rules.Identity.{
  entry_number_present, entry_number_format, importer_present, importer_format, port_present,
  port_format, port_known,
}
use cargo_execution_assistan.Validation.Rules.Transport.{
  mode_present, mode_known, carrier_present, carrier_format, conveyance_present, document_present,
  air_waybill_format, bill_of_lading_format, document_conflict,
}

-- Case conversion of ASCII, and dates by their first ten units.
abbrev ascii : Platform
ascii = record {
  to_upper = map (λ c. if is_lower c then c - 32 else c);
  to_lower = map (λ c. if is_upper c then c + 32 else c);
  utc_date = λ v. date_parts (take 10 v);
}

-- Casts that refuse letters, and the year 0000.
abbrev sample_casts : Casts
sample_casts = record {
  numeric_14_3 = λ t. if any is_upper t || any is_lower t then none else some t;
  numeric_14_2 = λ t. if any is_upper t || any is_lower t then none else some t;
  date = λ t. if text_eq (take 4 t) (codes "0000") then none else some t;
}

abbrev receipt_supply : ReceiptSupply
receipt_supply = record {
  casts = sample_casts;
  now = 1789137127512;
  case_number = 2;
  receipt_position = 2;
  entry_id = codes "e2";
  validation_id = codes "v2";
  exception_id = codes "x2";
  recommendation_id = codes "r2";
  first_audit_id = codes "a1";
  second_audit_id = codes "a2";
  third_audit_id = codes "a3";
}

abbrev officer : ReceiptPrincipal
officer = record { id = codes "s1"; display_name = codes "Ada" }

-- An entry without an arrival date; and one whose description is short and too general.
abbrev incomplete : CanonicalEntryRecord
incomplete = record {
  entry_number = some (codes "ABC12345678");
  importer_of_record_id = some (codes "12-3456789");
  port_of_entry_code = some (codes "2704");
  mode_of_transport = some (codes "OCEAN");
  carrier_code = some (codes "MAEU");
  conveyance_name = some (codes "Ever Given");
  bill_of_lading_number = some (codes "MAEU123456789");
  air_waybill_number = none;
  country_of_origin_code = some (codes "CN");
  goods_description = some (codes "cotton shirts");
  quantity = some (codes "5");
  quantity_uom = some (codes "KG");
  declared_value_usd = some (codes "1500");
  arrival_date = none;
}

abbrev general : CanonicalEntryRecord
general = record incomplete { goods_description = some (codes "goods") }

-- Opens the rules for a test.
opened_rules : Unit {0}
unfolding evaluate evaluate_from step assess report resolve_field resolve_message get is_entry_field
    rules in_window arrival_present arrival_real arrival_window country_present country_format
    country_known goods_present goods_length goods_specific quantity_present quantity_positive
    uom_present uom_known value_present value_valid entry_number_present entry_number_format
    importer_present importer_format port_present port_format port_known mode_present mode_known
    carrier_present carrier_format conveyance_present document_present air_waybill_format
    bill_of_lading_format document_conflict trim_only digits_only upper_alnum upper_no_space
    upper_keep_hyphen collapse_lower is_finite is_positive parse_decimal truncate60 days_in_month
    date_parts is_real_date is_calendar_date format_date format_day add_days_utc date_only_utc
    matches trim drop_trailing decimal digits_value iso_string
opened_rules = tt

abbrev provided : List String
provided = "entry_number" ∷ "goods_description" ∷ []

-- Opens the transaction for a test.
opened_receipt : Unit {0}
unfolding opened_rules receive_entry run_receipt derive_exception open_case with_transaction commit
    case_reference values_fit entry_constraints cast_values insert_entry insert_field_origins
    validation_constraints insert_validation_result insert_findings exception_constraints
    insert_exception insert_pending_recommendation append validate validate_actor check_reason
    normalise_values normalise_value is_secret_field_name is_secret_value link_at insert_audit_entry
    audit_constraints reason_allowed compute_entry_hash canonical_json payload json_string utf8
    to_microsecond_rfc3339 code_points audit_check_chain has_human_decision has_one_audit_entry
    has_action_entry
opened_receipt = tt

abbrev evaluated : CanonicalEntryRecord → ValidationEvaluation
evaluated r =
    from_ok
      (record { outcome = pass; rule_set_version = ""; rules_evaluated_count = 0; findings = [] })
      (evaluate r (iso_string 1789137127512) (rules ascii))

abbrev nothing : ReceiptResponse
nothing = record {
  entry = record {
    id = [];
    case_reference = [];
    received_at = [];
    created_by = officer;
    values = incomplete;
    field_origins = [];
  };
  case_reference = [];
  receipt_outcome = validated_clean;
  validation = record { outcome = pass; rule_set_version = ""; evaluated_at = []; findings = [] };
  exception = none;
  case_url = none;
  queue_url = [];
}

abbrev receipt : ReceiptResponse × Database
receipt =
    from_ok (nothing, database)
      (receive_entry checksum ascii receipt_supply officer none incomplete provided database)

receive_entry-incomplete :
    receive_entry checksum ascii receipt_supply officer none incomplete provided database
    ≡ ok (receipt.0, receipt.1)
unfolding opened_receipt
receive_entry-incomplete = refl

-- The missing date opens the second case, with three audit entries.
incomplete-case : receipt.0.case_url ≡ some (codes "/cases/CE-2026-000002")
unfolding opened_receipt
incomplete-case = refl

incomplete-audit : length receipt.1.audit_entries ≡ 3
unfolding opened_receipt
incomplete-audit = refl

database-IsChained : IsChained checksum database
database-IsChained case_id = tt

receive_entry-IsChained_example : IsChained checksum receipt.1
receive_entry-IsChained_example =
    receive_entry-IsChained checksum ascii receipt_supply officer none incomplete provided database
      receipt.0 receipt.1 database-IsChained receive_entry-incomplete

evaluate-general :
    evaluate general (iso_string receipt_supply.now) (rules ascii) ≡ ok (evaluated general)
unfolding opened_rules
evaluate-general = refl

general-twice : finding_twice (evaluated general).findings ≡ true
unfolding opened_rules
general-twice = refl

receive_entry-two_findings_example :
    receive_entry checksum ascii receipt_supply officer none general provided database
    ≢ ok (receipt.0, receipt.1)
receive_entry-two_findings_example =
    receive_entry-two_findings checksum ascii receipt_supply officer none general provided database
      (evaluated general) evaluate-general general-twice receipt.0 receipt.1

-- What is thrown for it.
receive_entry-general :
    receive_entry checksum ascii receipt_supply officer none general provided database
    ≡ err (unique_violation "audit_entry_values_pkey")
unfolding opened_receipt
receive_entry-general = refl

-- A quantity that is no number fails at its cast.
receive_entry-no_number :
    receive_entry checksum ascii receipt_supply officer none
      (record incomplete { quantity = some (codes "abc") })
      provided
      database
    ≡ err data_exception
unfolding opened_receipt
receive_entry-no_number = refl

-- The same entry once more, as the third case.
abbrev again : ReceiptSupply
again = record receipt_supply { case_number = 3; receipt_position = 3; entry_id = codes "e3" }

incomplete-cast : cast_values again.casts (stored_values incomplete) ≡ ok (stored_values incomplete)
unfolding opened_receipt
incomplete-cast = refl

incomplete-fits : values_fit (stored_values incomplete) ≡ true
unfolding opened_receipt
incomplete-fits = refl

evaluate-incomplete :
    evaluate incomplete (iso_string again.now) (rules ascii) ≡ ok (evaluated incomplete)
unfolding opened_rules
evaluate-incomplete = refl

third-fresh :
    any
      (λ e. text_eq e.case_reference (case_reference again.now again.case_number))
      receipt.1.cargo_entries
    ≡ false
unfolding opened_receipt
third-fresh = refl

id-fresh : any (λ e. text_eq e.id again.entry_id) receipt.1.cargo_entries ≡ false
unfolding opened_receipt
id-fresh = refl

number-taken :
    any (λ e. option_eq (some (codes "ABC12345678")) e.values.entry_number) receipt.1.cargo_entries
    ≡ true
unfolding opened_receipt
number-taken = refl

receive_entry-duplicate_example :
    (row : EntryRow) × (find
        (λ e. option_eq (some (codes "ABC12345678")) e.values.entry_number)
        receipt.1.cargo_entries
      ≡ some row)
    × (receive_entry checksum ascii again officer none incomplete provided receipt.1
        ≡ err (entry_number_duplicate (codes "ABC12345678") (some row.case_reference)))
receive_entry-duplicate_example =
    receive_entry-duplicate checksum ascii again officer none incomplete provided receipt.1
      (evaluated incomplete) (stored_values incomplete) (codes "ABC12345678") evaluate-incomplete
      incomplete-cast incomplete-fits id-fresh third-fresh refl number-taken
