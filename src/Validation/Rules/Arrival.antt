-- ===== src/Validation/Rules/Arrival.antt =====
-- server/src/services/validation/rules.ts: the arrival date.
use cargo_execution_assistan.Prelude.{
  Bool, false, ◌&&◌, Option, none, some, [], ◌∷◌, Result, ok, ◌>>=◌, pos, negsuc,
}
use cargo_execution_assistan.Text.{Text, codes, text_le, Platform}
use cargo_execution_assistan.Validation.Calendar.{is_calendar_date, date_only_utc, add_days_utc}
use cargo_execution_assistan.Validation.Normalise.{is_present}
use cargo_execution_assistan.Validation.Rule.{fixed, RuleDefinition}
use cargo_execution_assistan.Validation.Rules.Common.{always}

module _ (p : Platform) where
  -- The predicate of RIV-132, 60 days before to 180 days after, both inclusive.
  unfoldable pub in_window : Option Text → Text → Result Text Bool
  in_window none received_at = ok false
  in_window (some arrival) received_at = do
    receipt_day ← date_only_utc p received_at
    lower ← add_days_utc receipt_day (negsuc 59)
    upper ← add_days_utc receipt_day (pos 180)
    ok (text_le lower arrival && text_le arrival upper)

  -- RIV-130
  unfoldable pub arrival_present : RuleDefinition
  arrival_present = record {
    rule_id = "RIV-130";
    fields = "arrival_date" ∷ [];
    primary_field = fixed "arrival_date";
    failure_code = "ARRIVAL_DATE_MISSING";
    message = fixed (codes "Enter the arrival date.");
    requires_passed = [];
    applicable = always;
    satisfied = λ r at. ok (is_present r.arrival_date);
  }

  -- RIV-131
  unfoldable pub arrival_real : RuleDefinition
  arrival_real = record {
    rule_id = "RIV-131";
    fields = "arrival_date" ∷ [];
    primary_field = fixed "arrival_date";
    failure_code = "ARRIVAL_DATE_INVALID";
    message = fixed (codes "Arrival date must be a real date in YYYY-MM-DD form.");
    requires_passed = "RIV-130" ∷ [];
    applicable = always;
    satisfied = λ r at. ok (is_calendar_date r.arrival_date);
  }

  -- RIV-132
  unfoldable pub arrival_window : RuleDefinition
  arrival_window = record {
    rule_id = "RIV-132";
    fields = "arrival_date" ∷ [];
    primary_field = fixed "arrival_date";
    failure_code = "ARRIVAL_DATE_OUT_OF_WINDOW";
    message = fixed (
        codes
          "Arrival date must be within 60 days before or 180 days after the date this entry was received.");
    requires_passed = "RIV-130" ∷ "RIV-131" ∷ [];
    applicable = always;
    satisfied = λ r at. in_window r.arrival_date at;
  }
