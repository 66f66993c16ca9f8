-- ===== src/Validation/Rules/Identity.antt =====
-- server/src/services/validation/rules.ts: the entry number, the importer, the port of entry.
use cargo_execution_assistan.Prelude.{◌||◌, [], ◌∷◌, ◌++◌, ok}
use cargo_execution_assistan.Text.{codes, among, is_digit, is_upper, Platform}
use cargo_execution_assistan.Text.Regex.{Regex, one, seq, char, times, optional, matches}
use cargo_execution_assistan.Validation.Normalise.{
  is_present, upper_alnum, upper_keep_hyphen, truncate60,
}
use cargo_execution_assistan.Validation.Domain.{port_of_entry}
use cargo_execution_assistan.Validation.Rule.{fixed, computed, RuleDefinition}
use cargo_execution_assistan.Validation.Rules.Common.{always, is_upper_digit}

-- `^[A-Z0-9]{3}[0-9]{8}$`
abbrev entry_number_form : Regex
entry_number_form = seq (times 3 (one is_upper_digit)) (times 8 (one is_digit))

-- `^[0-9]{2}-?[0-9]{7}(-?[0-9]{2})?$`
abbrev irs_form : Regex
irs_form = seq (times 2 (one is_digit)) (
    seq (optional (char b'-')) (
      seq (times 7 (one is_digit))
        (optional (seq (optional (char b'-')) (times 2 (one is_digit))))))

-- `^[A-Z]{2}[0-9]{7}$`
abbrev cbp_form : Regex
cbp_form = seq (times 2 (one is_upper)) (times 7 (one is_digit))

module _ (p : Platform) where
  -- RIV-010
  unfoldable pub entry_number_present : RuleDefinition
  entry_number_present = record {
    rule_id = "RIV-010";
    fields = "entry_number" ∷ [];
    primary_field = fixed "entry_number";
    failure_code = "ENTRY_NUMBER_MISSING";
    message = fixed (codes "Enter the entry number.");
    requires_passed = [];
    applicable = always;
    satisfied = λ r at. ok (is_present r.entry_number);
  }

  -- RIV-011
  unfoldable pub entry_number_format : RuleDefinition
  entry_number_format = record {
    rule_id = "RIV-011";
    fields = "entry_number" ∷ [];
    primary_field = fixed "entry_number";
    failure_code = "ENTRY_NUMBER_FORMAT";
    message = fixed (
        codes
          "Entry number must be a 3-character filer code followed by 8 digits, for example ABC12345678.");
    requires_passed = "RIV-010" ∷ [];
    applicable = always;
    satisfied = λ r at. ok (matches entry_number_form (upper_alnum p r.entry_number));
  }

  -- RIV-020
  unfoldable pub importer_present : RuleDefinition
  importer_present = record {
    rule_id = "RIV-020";
    fields = "importer_of_record_id" ∷ [];
    primary_field = fixed "importer_of_record_id";
    failure_code = "IMPORTER_ID_MISSING";
    message = fixed (codes "Enter the importer of record identifier.");
    requires_passed = [];
    applicable = always;
    satisfied = λ r at. ok (is_present r.importer_of_record_id);
  }

  -- RIV-021
  unfoldable pub importer_format : RuleDefinition
  importer_format = record {
    rule_id = "RIV-021";
    fields = "importer_of_record_id" ∷ [];
    primary_field = fixed "importer_of_record_id";
    failure_code = "IMPORTER_ID_FORMAT";
    message = fixed (
        codes
          "Importer of record identifier must be an IRS number like 12-3456789 or a CBP-assigned number like AB1234567.");
    requires_passed = "RIV-020" ∷ [];
    applicable = always;
    satisfied = λ r at.
        let v = upper_keep_hyphen p r.importer_of_record_id in
        ok (matches irs_form v || matches cbp_form v);
  }

  -- RIV-030
  unfoldable pub port_present : RuleDefinition
  port_present = record {
    rule_id = "RIV-030";
    fields = "port_of_entry_code" ∷ [];
    primary_field = fixed "port_of_entry_code";
    failure_code = "PORT_OF_ENTRY_MISSING";
    message = fixed (codes "Enter the port of entry code.");
    requires_passed = [];
    applicable = always;
    satisfied = λ r at. ok (is_present r.port_of_entry_code);
  }

  -- RIV-031
  unfoldable pub port_format : RuleDefinition
  port_format = record {
    rule_id = "RIV-031";
    fields = "port_of_entry_code" ∷ [];
    primary_field = fixed "port_of_entry_code";
    failure_code = "PORT_OF_ENTRY_FORMAT";
    message = fixed (codes "Port of entry code must be 4 digits, for example 2704.");
    requires_passed = "RIV-030" ∷ [];
    applicable = always;
    satisfied = λ r at. ok (matches (times 4 (one is_digit)) (upper_alnum p r.port_of_entry_code));
  }

  -- RIV-032
  unfoldable pub port_known : RuleDefinition
  port_known = record {
    rule_id = "RIV-032";
    fields = "port_of_entry_code" ∷ [];
    primary_field = fixed "port_of_entry_code";
    failure_code = "PORT_OF_ENTRY_UNKNOWN";
    message = computed (λ r. ok (
        codes "Port of entry code "
        ++ (truncate60 r.port_of_entry_code ++ codes " is not a recognised port code.")));
    requires_passed = "RIV-030" ∷ "RIV-031" ∷ [];
    applicable = always;
    satisfied = λ r at. ok (among (upper_alnum p r.port_of_entry_code) port_of_entry);
  }
