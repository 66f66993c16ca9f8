-- ===== src/Validation/Rules/Transport.antt =====
-- server/src/services/validation/rules.ts: the mode, the carrier, the conveyance, the transport document.
use cargo_execution_assistan.Prelude.{Bool, ◌&&◌, ◌||◌, not, [], ◌∷◌, ok, if◌then◌else◌}
use cargo_execution_assistan.Text.{Text, codes, text_eq, among, is_digit, is_upper, Platform}
use cargo_execution_assistan.Text.Regex.{one, times, between, matches}
use cargo_execution_assistan.Validation.Normalise.{
  is_present, upper_no_space, upper_keep_hyphen, digits_only,
}
use cargo_execution_assistan.Validation.Domain.{modes_of_transport}
use cargo_execution_assistan.Validation.Rule.{fixed, computed, RuleDefinition}
use cargo_execution_assistan.Validation.Rules.Common.{always, is_upper_digit, mode}

-- The predicate of RIV-070; the last case is a mode that is missing or unknown.
abbrev has_transport_document : Text → Bool → Bool → Bool
has_transport_document m has_awb has_bol =
    if text_eq m (codes "AIR")
    then has_awb
    else if text_eq m (codes "OCEAN") || text_eq m (codes "TRUCK") || text_eq m (codes "RAIL")
    then has_bol
    else has_awb || has_bol

module _ (p : Platform) where
  -- RIV-040
  unfoldable pub mode_present : RuleDefinition
  mode_present = record {
    rule_id = "RIV-040";
    fields = "mode_of_transport" ∷ [];
    primary_field = fixed "mode_of_transport";
    failure_code = "MODE_OF_TRANSPORT_MISSING";
    message = fixed (codes "Select the mode of transport.");
    requires_passed = [];
    applicable = always;
    satisfied = λ r at. ok (is_present r.mode_of_transport);
  }

  -- RIV-041
  unfoldable pub mode_known : RuleDefinition
  mode_known = record {
    rule_id = "RIV-041";
    fields = "mode_of_transport" ∷ [];
    primary_field = fixed "mode_of_transport";
    failure_code = "MODE_OF_TRANSPORT_UNKNOWN";
    message = fixed (codes "Mode of transport must be ocean, air, truck, or rail.");
    requires_passed = "RIV-040" ∷ [];
    applicable = always;
    satisfied = λ r at. ok (among (upper_keep_hyphen p r.mode_of_transport) modes_of_transport);
  }

  -- RIV-050
  unfoldable pub carrier_present : RuleDefinition
  carrier_present = record {
    rule_id = "RIV-050";
    fields = "carrier_code" ∷ [];
    primary_field = fixed "carrier_code";
    failure_code = "CARRIER_CODE_MISSING";
    message = fixed (codes "Enter the carrier code.");
    requires_passed = [];
    applicable = always;
    satisfied = λ r at. ok (is_present r.carrier_code);
  }

  -- RIV-051
  unfoldable pub carrier_format : RuleDefinition
  carrier_format = record {
    rule_id = "RIV-051";
    fields = "carrier_code" ∷ [];
    primary_field = fixed "carrier_code";
    failure_code = "CARRIER_CODE_FORMAT";
    message = fixed (
        codes
          "Carrier code must be a 2–4 letter SCAC, or a 2–3 character airline code for air shipments.");
    requires_passed = "RIV-050" ∷ [];
    applicable = always;
    satisfied = λ r at.
        let v = upper_keep_hyphen p r.carrier_code in
        ok (
          if text_eq (mode p r) (codes "AIR")
          then matches (between 2 1 (one is_upper_digit)) v
          else matches (between 2 2 (one is_upper)) v);
  }

  -- RIV-060
  unfoldable pub conveyance_present : RuleDefinition
  conveyance_present = record {
    rule_id = "RIV-060";
    fields = "conveyance_name" ∷ [];
    primary_field = fixed "conveyance_name";
    failure_code = "CONVEYANCE_MISSING";
    message =
        fixed
          (codes "Enter the conveyance — vessel and voyage, flight number, or vehicle identifier.");
    requires_passed = [];
    applicable = always;
    satisfied = λ r at. ok (is_present r.conveyance_name);
  }

  -- RIV-070
  unfoldable pub document_present : RuleDefinition
  document_present = record {
    rule_id = "RIV-070";
    fields = "bill_of_lading_number" ∷ "air_waybill_number" ∷ [];
    primary_field = computed (λ r. ok (
        if text_eq (mode p r) (codes "AIR")
        then "air_waybill_number"
        else "bill_of_lading_number"));
    failure_code = "TRANSPORT_DOCUMENT_MISSING";
    message = fixed (
        codes
          "Enter the transport document number — an air waybill for air shipments, or a bill of lading otherwise.");
    requires_passed = [];
    applicable = always;
    satisfied = λ r at. ok (
        has_transport_document (mode p r) (is_present r.air_waybill_number)
          (is_present r.bill_of_lading_number));
  }

  -- RIV-071
  unfoldable pub air_waybill_format : RuleDefinition
  air_waybill_format = record {
    rule_id = "RIV-071";
    fields = "air_waybill_number" ∷ [];
    primary_field = fixed "air_waybill_number";
    failure_code = "AIR_WAYBILL_FORMAT";
    message = fixed (
        codes
          "Air waybill number must be 11 digits — a 3-digit airline prefix and an 8-digit serial.");
    requires_passed = [];
    applicable = λ r. ok (is_present r.air_waybill_number);
    satisfied = λ r at. ok (matches (times 11 (one is_digit)) (digits_only r.air_waybill_number));
  }

  -- RIV-072
  unfoldable pub bill_of_lading_format : RuleDefinition
  bill_of_lading_format = record {
    rule_id = "RIV-072";
    fields = "bill_of_lading_number" ∷ [];
    primary_field = fixed "bill_of_lading_number";
    failure_code = "BILL_OF_LADING_FORMAT";
    message = fixed (codes "Bill of lading number must be 6 to 30 letters and digits.");
    requires_passed = [];
    applicable = λ r. ok (is_present r.bill_of_lading_number);
    satisfied = λ r at.
        ok (matches (between 6 24 (one is_upper_digit)) (upper_no_space p r.bill_of_lading_number));
  }

  -- RIV-073
  unfoldable pub document_conflict : RuleDefinition
  document_conflict = record {
    rule_id = "RIV-073";
    fields = "bill_of_lading_number" ∷ "air_waybill_number" ∷ [];
    primary_field = fixed "air_waybill_number";
    failure_code = "TRANSPORT_DOCUMENT_CONFLICT";
    message =
        fixed (codes "Enter either an air waybill number or a bill of lading number, not both.");
    requires_passed = [];
    applicable = λ r. ok (is_present r.bill_of_lading_number && is_present r.air_waybill_number);
    satisfied =
        λ r at. ok (not (is_present r.bill_of_lading_number && is_present r.air_waybill_number));
  }
