-- ===== src/Validation/Tests.antt =====
-- The theorems on the validation, applied to small registries and to an entry.
use cargo_execution_assistan.Prelude.{
  ℕ, ◌+◌, ◌-◌, ◌≤◌, ◌<◌, ◌≡◌, refl, ◌↔◌, String, true, false, none, some, List, [], ◌∷◌, map, ok,
  take, All, if◌then◌else◌, arith,
}
use cargo_execution_assistan.Text.{Text, codes, is_upper, is_lower, Platform}
use cargo_execution_assistan.Validation.Entry.{CanonicalEntryRecord, get, is_entry_field}
use cargo_execution_assistan.Validation.Calendar.{
  date_parts, format_date, is_calendar_date, is_real_date, days_in_month,
}
use cargo_execution_assistan.Validation.Calendar.Format.{
  IsRealDate, IsGregorian, is_calendar_date_iff, date_parts-format_date,
}
use cargo_execution_assistan.Validation.Normalise.{is_present}
use cargo_execution_assistan.Validation.Rule.{
  fixed, RuleDefinition, ValidationEvaluation, pass, fail,
}
use cargo_execution_assistan.Validation.Rules.{rules}
use cargo_execution_assistan.Validation.Engine.{
  evaluate, evaluate_from, step, assess, report, resolve_field, resolve_message,
}
use cargo_execution_assistan.Validation.Engine.Exact.{
  finding_ids, IsOrdered, IsExact, evaluate-IsExact,
}
use cargo_execution_assistan.Validation.Engine.Shape.{IsWellFormed, evaluate-IsWellFormed}
use cargo_execution_assistan.Validation.Engine.Clean.{IsClean, evaluate-pass_iff}
use cargo_execution_assistan.Validation.SelfCheck.Sound.{
  IsRegistry, rules-valid, assert_rule_registry_valid-IsRegistry,
}
use cargo_execution_assistan.Validation.Assessment.{evaluate-rules}

-- Case conversion of ASCII, and dates by their first ten units.
abbrev ascii : Platform
ascii = record {
  to_upper = map (λ c. if is_lower c then c - 32 else c);
  to_lower = map (λ c. if is_upper c then c + 32 else c);
  utc_date = λ v. date_parts (take 10 v);
}

-- An entry with a number and nothing else.
abbrev bare : CanonicalEntryRecord
bare = record {
  entry_number = some (codes "ENT-1");
  importer_of_record_id = none;
  port_of_entry_code = none;
  mode_of_transport = none;
  carrier_code = none;
  conveyance_name = none;
  bill_of_lading_number = none;
  air_waybill_number = none;
  country_of_origin_code = none;
  goods_description = none;
  quantity = none;
  quantity_uom = none;
  declared_value_usd = none;
  arrival_date = none;
}

abbrev present : String → String → String → List String → RuleDefinition
present id field code gates = record {
  rule_id = id;
  fields = field ∷ [];
  primary_field = fixed field;
  failure_code = code;
  message = fixed (codes "missing");
  requires_passed = gates;
  applicable = λ r. ok true;
  satisfied = λ r received_at. ok (is_present (get r field));
}

-- The second rule fails and shuts the third.
abbrev registry : List RuleDefinition
registry =
    present "RIV-001" "entry_number" "A" []
    ∷ present "RIV-002" "carrier_code" "B" ("RIV-001" ∷ [])
    ∷ present "RIV-003" "quantity" "C" ("RIV-002" ∷ [])
    ∷ []

abbrev missing_carrier : ValidationEvaluation
missing_carrier = record {
  outcome = fail;
  rule_set_version = "RIV-2026.09";
  rules_evaluated_count = 2;
  findings =
      record {
        rule_id = "RIV-002";
        field_name = "carrier_code";
        failure_code = "B";
        message = codes "missing";
      }
      ∷ [];
}

abbrev noon : Text
noon = codes "2026-09-11T12:00:00Z"

evaluate-registry : evaluate bare noon registry ≡ ok missing_carrier
unfolding evaluate evaluate_from step assess report resolve_field resolve_message get is_entry_field
evaluate-registry = refl

registry-IsOrdered : IsOrdered registry
registry-IsOrdered = (refl, refl, (refl, refl, (refl, refl, tt)))

evaluate-IsExact_example : All (IsExact bare noon ("RIV-002" ∷ [])) registry
evaluate-IsExact_example =
    evaluate-IsExact bare noon registry missing_carrier registry-IsOrdered evaluate-registry

evaluate-IsWellFormed_example : IsWellFormed registry missing_carrier
evaluate-IsWellFormed_example =
    evaluate-IsWellFormed bare noon registry missing_carrier evaluate-registry

evaluate-pass_iff_example : (missing_carrier.outcome ≡ pass) ↔ IsClean bare noon registry
evaluate-pass_iff_example =
    evaluate-pass_iff bare noon registry missing_carrier registry-IsOrdered evaluate-registry

assert_rule_registry_valid-IsRegistry_example : IsRegistry (rules ascii)
assert_rule_registry_valid-IsRegistry_example =
    assert_rule_registry_valid-IsRegistry (rules ascii) (rules-valid ascii)

utc_date-noon : ascii.utc_date noon ≡ some (2026, 9, 11)
unfolding date_parts
utc_date-noon = refl

eleventh_le : 11 ≤ days_in_month 2026 9
unfolding days_in_month
eleventh_le = omega arith

noon-IsRealDate : IsRealDate 2026 9 11
noon-IsRealDate = (omega arith, omega arith, omega arith, eleventh_le)

evaluate-rules_example :
    (e : ValidationEvaluation) × (evaluate bare noon (rules ascii) ≡ ok e)
    × All (IsExact bare noon (finding_ids e.findings)) (rules ascii)
    × ((e.outcome ≡ pass) ↔ IsClean bare noon (rules ascii))
evaluate-rules_example =
    evaluate-rules ascii bare noon 2026 9 11 utc_date-noon (omega arith) noon-IsRealDate

is_calendar_date_iff_example : (is_calendar_date (some (codes "2028-02-29")) ≡ true) ↔ (
    (y : ℕ) × (m : ℕ) × (d : ℕ) × (codes "2028-02-29" ≡ format_date y m d)
    × (y < 10000)
    × IsGregorian y m d)
is_calendar_date_iff_example = is_calendar_date_iff (codes "2028-02-29")

date_parts-format_date_example : date_parts (format_date 26 2 3) ≡ some (26, 2, 3)
date_parts-format_date_example =
    date_parts-format_date 26 2 3 (omega arith) (omega arith) (omega arith)

-- The year 1900 has no 29 February, the year 2000 has one.
leap_day-1900 : is_calendar_date (some (codes "1900-02-29")) ≡ false
unfolding is_calendar_date date_parts is_real_date days_in_month
leap_day-1900 = refl
