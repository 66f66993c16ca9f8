-- ===== src/Validation/Rules/Goods.antt =====
-- server/src/services/validation/rules.ts: the country of origin, the goods, the quantity, the declared value.
use cargo_execution_assistan.Prelude.{
  Bool, false, ◌&&◌, not, Option, none, some, [], ◌∷◌, ◌++◌, ok, length, leb,
}
use cargo_execution_assistan.Text.{codes, among, is_upper, trim, Platform}
use cargo_execution_assistan.Text.Regex.{one, times, matches}
use cargo_execution_assistan.Validation.Normalise.{
  is_present, upper_keep_hyphen, collapse_lower, Number, is_positive, parse_decimal, truncate60,
}
use cargo_execution_assistan.Validation.Domain.{country, unit_of_measure, generic_description}
use cargo_execution_assistan.Validation.Rule.{fixed, computed, RuleDefinition}
use cargo_execution_assistan.Validation.Rules.Common.{always, or_empty}

-- `p.ok && p.value > 0`
abbrev is_positive_decimal : Option Number → Bool
is_positive_decimal none = false
is_positive_decimal (some n) = is_positive n

-- `p.ok && p.decimals <= 2`
abbrev has_cents : Option Number → Bool
has_cents none = false
has_cents (some n) = leb n.places 2

module _ (p : Platform) where
  -- RIV-080
  unfoldable pub country_present : RuleDefinition
  country_present = record {
    rule_id = "RIV-080";
    fields = "country_of_origin_code" ∷ [];
    primary_field = fixed "country_of_origin_code";
    failure_code = "COUNTRY_OF_ORIGIN_MISSING";
    message = fixed (codes "Enter the country of origin.");
    requires_passed = [];
    applicable = always;
    satisfied = λ r at. ok (is_present r.country_of_origin_code);
  }

  -- RIV-081
  unfoldable pub country_format : RuleDefinition
  country_format = record {
    rule_id = "RIV-081";
    fields = "country_of_origin_code" ∷ [];
    primary_field = fixed "country_of_origin_code";
    failure_code = "COUNTRY_OF_ORIGIN_FORMAT";
    message = fixed (codes "Country of origin must be a 2-letter country code, for example CN.");
    requires_passed = "RIV-080" ∷ [];
    applicable = always;
    satisfied = λ r at.
        ok (matches (times 2 (one is_upper)) (upper_keep_hyphen p r.country_of_origin_code));
  }

  -- RIV-082
  unfoldable pub country_known : RuleDefinition
  country_known = record {
    rule_id = "RIV-082";
    fields = "country_of_origin_code" ∷ [];
    primary_field = fixed "country_of_origin_code";
    failure_code = "COUNTRY_OF_ORIGIN_UNKNOWN";
    message = computed (λ r. ok (
        codes "Country of origin "
        ++ (truncate60 r.country_of_origin_code ++ codes " is not a recognised country code.")));
    requires_passed = "RIV-080" ∷ "RIV-081" ∷ [];
    applicable = always;
    satisfied = λ r at. ok (among (upper_keep_hyphen p r.country_of_origin_code) country);
  }

  -- RIV-090
  unfoldable pub goods_present : RuleDefinition
  goods_present = record {
    rule_id = "RIV-090";
    fields = "goods_description" ∷ [];
    primary_field = fixed "goods_description";
    failure_code = "GOODS_DESCRIPTION_MISSING";
    message = fixed (codes "Describe the goods.");
    requires_passed = [];
    applicable = always;
    satisfied = λ r at. ok (is_present r.goods_description);
  }

  -- RIV-091
  unfoldable pub goods_length : RuleDefinition
  goods_length = record {
    rule_id = "RIV-091";
    fields = "goods_description" ∷ [];
    primary_field = fixed "goods_description";
    failure_code = "GOODS_DESCRIPTION_TOO_SHORT";
    message = fixed (codes "Describe the goods in at least 10 characters.");
    requires_passed = "RIV-090" ∷ [];
    applicable = always;
    satisfied = λ r at. ok (leb 10 (length (trim (or_empty r.goods_description))));
  }

  -- RIV-092
  unfoldable pub goods_specific : RuleDefinition
  goods_specific = record {
    rule_id = "RIV-092";
    fields = "goods_description" ∷ [];
    primary_field = fixed "goods_description";
    failure_code = "GOODS_DESCRIPTION_NOT_SPECIFIC";
    message = computed (λ r. ok (
        codes "\""
        ++ (truncate60 r.goods_description
            ++ codes "\" is too general. Describe what the goods actually are.")));
    requires_passed = "RIV-090" ∷ [];
    applicable = always;
    satisfied = λ r at. ok (not (among (collapse_lower p r.goods_description) generic_description));
  }

  -- RIV-100
  unfoldable pub quantity_present : RuleDefinition
  quantity_present = record {
    rule_id = "RIV-100";
    fields = "quantity" ∷ [];
    primary_field = fixed "quantity";
    failure_code = "QUANTITY_MISSING";
    message = fixed (codes "Enter the quantity.");
    requires_passed = [];
    applicable = always;
    satisfied = λ r at. ok (is_present r.quantity);
  }

  -- RIV-101
  unfoldable pub quantity_positive : RuleDefinition
  quantity_positive = record {
    rule_id = "RIV-101";
    fields = "quantity" ∷ [];
    primary_field = fixed "quantity";
    failure_code = "QUANTITY_NOT_POSITIVE";
    message = fixed (codes "Quantity must be greater than zero.");
    requires_passed = "RIV-100" ∷ [];
    applicable = always;
    satisfied = λ r at. ok (is_positive_decimal (parse_decimal r.quantity));
  }

  -- RIV-110
  unfoldable pub uom_present : RuleDefinition
  uom_present = record {
    rule_id = "RIV-110";
    fields = "quantity_uom" ∷ [];
    primary_field = fixed "quantity_uom";
    failure_code = "QUANTITY_UOM_MISSING";
    message = fixed (codes "Enter the unit of measure for the quantity.");
    requires_passed = [];
    applicable = always;
    satisfied = λ r at. ok (is_present r.quantity_uom);
  }

  -- RIV-111
  unfoldable pub uom_known : RuleDefinition
  uom_known = record {
    rule_id = "RIV-111";
    fields = "quantity_uom" ∷ [];
    primary_field = fixed "quantity_uom";
    failure_code = "QUANTITY_UOM_UNKNOWN";
    message = computed (λ r. ok (
        codes "Unit of measure "
        ++ (truncate60 r.quantity_uom ++ codes " is not a recognised unit.")));
    requires_passed = "RIV-110" ∷ [];
    applicable = always;
    satisfied = λ r at. ok (among (upper_keep_hyphen p r.quantity_uom) unit_of_measure);
  }

  -- RIV-120
  unfoldable pub value_present : RuleDefinition
  value_present = record {
    rule_id = "RIV-120";
    fields = "declared_value_usd" ∷ [];
    primary_field = fixed "declared_value_usd";
    failure_code = "DECLARED_VALUE_MISSING";
    message = fixed (codes "Enter the declared value in US dollars.");
    requires_passed = [];
    applicable = always;
    satisfied = λ r at. ok (is_present r.declared_value_usd);
  }

  -- RIV-121
  unfoldable pub value_valid : RuleDefinition
  value_valid = record {
    rule_id = "RIV-121";
    fields = "declared_value_usd" ∷ [];
    primary_field = fixed "declared_value_usd";
    failure_code = "DECLARED_VALUE_INVALID";
    message =
        fixed (codes "Declared value must be greater than zero, with at most 2 decimal places.");
    requires_passed = "RIV-120" ∷ [];
    applicable = always;
    satisfied = λ r at. ok (
        is_positive_decimal (parse_decimal r.declared_value_usd)
        && has_cents (parse_decimal r.declared_value_usd));
  }
