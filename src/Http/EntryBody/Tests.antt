-- ===== src/Http/EntryBody/Tests.antt =====
-- The theorem on the parsed body, applied to an entry with two numbers.
use cargo_execution_assistan.Prelude.{◌≡◌, refl, String, true, none, some, List, [], ◌∷◌, ok, err}
use cargo_execution_assistan.Text.{Text, codes, trim, decimal}
use cargo_execution_assistan.Validation.Entry.{CanonicalEntryRecord, get}
use cargo_execution_assistan.Http.EntryBody.{
  ParsedBody, text, number, check_digits, check_numeric, coerce_numeric, coerce_numerics, collapse,
  canonicalise, submission,
}
use cargo_execution_assistan.Http.EntryBody.Columns.{IsColumnValue, submission-IsColumnValue}
use cargo_execution_assistan.Sample.{entry_values, from_ok}

abbrev parsed : ParsedBody
parsed = record {
  entry_number = some (codes "ENT-1 ");
  importer_of_record_id = none;
  port_of_entry_code = none;
  mode_of_transport = some (codes "  ");
  carrier_code = none;
  conveyance_name = none;
  bill_of_lading_number = none;
  air_waybill_number = none;
  country_of_origin_code = none;
  goods_description = none;
  quantity = some (text (codes " 00012.500 "));
  quantity_uom = none;
  declared_value_usd = some (number true (codes "1500"));
  arrival_date = none;
}

abbrev submitted : CanonicalEntryRecord × List String
submitted = from_ok (entry_values, []) (submission parsed)

opened_submission : Unit {0}
unfolding submission coerce_numerics coerce_numeric check_numeric check_digits canonicalise collapse
    trim get decimal
opened_submission = tt

submission-parsed : submission parsed ≡ ok (submitted.0, submitted.1)
unfolding opened_submission
submission-parsed = refl

-- Three fields are provided, without the white space around them.
submitted-provided : submitted.1 ≡ "entry_number" ∷ "quantity" ∷ "declared_value_usd" ∷ []
unfolding opened_submission
submitted-provided = refl

-- A number of twelve digits is refused for the quantity.
submission-too_wide :
    coerce_numeric true (some (text (codes "123456789012")))
    ≡ err (record {
      field = "quantity";
      code = "too_many_decimals";
      message = codes "Quantity has too many digits.";
    })
unfolding opened_submission
submission-too_wide = refl

submission-IsColumnValue_example :
    ((s : Text) → submitted.0.quantity ≡ some s → IsColumnValue 3 s)
    × ((s : Text) → submitted.0.declared_value_usd ≡ some s → IsColumnValue 2 s)
submission-IsColumnValue_example =
    submission-IsColumnValue parsed submitted.0 submitted.1 submission-parsed
