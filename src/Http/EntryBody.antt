-- ===== src/Http/EntryBody.antt =====
-- server/src/http/routes/entries.ts: what becomes of a parsed body before the receipt.
pub mod Columns
mod Tests
use cargo_execution_assistan.Prelude.{
  ℕ, zero, suc, ◌+◌, ◌-◌, Bool, true, false, ◌&&◌, ◌||◌, not, String, Option, none, some, List, [],
  ◌∷◌, ◌++◌, Result, ok, err, ◌>>=◌, length, any, keep_if, ltb, ◌==◌, is_some, if◌then◌else◌,
}
use cargo_execution_assistan.Text.{Text, codes, is_digit, trim, decimal}
use cargo_execution_assistan.Validation.Entry.{CanonicalEntryRecord, get, entry_fields}

-- A JSON number, by whether it is finite and by `String(n)`, or a string.
pub data Numericish : Type 0 where
  number : (finite : Bool) (shown : Text) → Numericish
  text : Text → Numericish

-- `ParsedBody`; `undefined` and `null` are both `none`.
pub record ParsedBody : Type 0 where
  pub entry_number : Option Text
  pub importer_of_record_id : Option Text
  pub port_of_entry_code : Option Text
  pub mode_of_transport : Option Text
  pub carrier_code : Option Text
  pub conveyance_name : Option Text
  pub bill_of_lading_number : Option Text
  pub air_waybill_number : Option Text
  pub country_of_origin_code : Option Text
  pub goods_description : Option Text
  pub quantity : Option Numericish
  pub quantity_uom : Option Text
  pub declared_value_usd : Option Numericish
  pub arrival_date : Option Text

pub record ErrorDetail : Type 0 where
  pub field : String
  pub code : String
  pub message : Text

abbrev pub max_total_digits : ℕ
max_total_digits = 14

-- The digits in front, and the rest.
abbrev pub split_digits : Text → Text × Text
split_digits [] = ([], [])
split_digits (c ∷ s) =
    let (front, rest) = split_digits s in if is_digit c then (c ∷ front, rest) else ([], c ∷ s)

abbrev pub without_sign : Text → Text
without_sign [] = []
without_sign (c ∷ s) = if c == b'-' then s else c ∷ s

abbrev pub whole_digits : Text × Text → Option Text
whole_digits ([], rest) = none
whole_digits (d ∷ front, []) = some (d ∷ front)
whole_digits (d ∷ front, c ∷ rest) = none

-- The fraction after the integer part, if that is what is left.
abbrev pub fraction : Text → Option Text
fraction [] = some []
fraction (c ∷ s) = if c == b'.' then whole_digits (split_digits s) else none

abbrev pub groups : Text × Text → Option (Text × Text)
groups ([], rest) = none
groups (d ∷ front, rest) = elim (fraction rest) [ none ↦ none | some frac ↦ some (d ∷ front, frac) ]

-- `/^-?(\d+)(?:\.(\d+))?$/` with its two groups.
abbrev pub decimal_shape : Text → Option (Text × Text)
decimal_shape s = groups (split_digits (without_sign s))

-- `digits.replace(/^0+(?=\d)/, '')`
abbrev pub strip_zeros : Text → Text
strip_zeros [] = []
strip_zeros (c ∷ []) = c ∷ []
strip_zeros (c ∷ d ∷ s) = let rest = strip_zeros (d ∷ s) in if c == b'0' then rest else c ∷ d ∷ s

abbrev pub label_of : Bool → Text
label_of true = codes "Quantity"
label_of false = codes "Declared value"

abbrev pub numeric_field : Bool → String
numeric_field true = "quantity"
numeric_field false = "declared_value_usd"

-- `MAX_DECIMALS`; the first argument says whether the field is the quantity.
abbrev pub max_decimals : Bool → ℕ
max_decimals true = 3
max_decimals false = 2

abbrev pub not_numeric : Bool → ErrorDetail
not_numeric field = record {
  field = numeric_field field;
  code = "not_numeric";
  message = label_of field ++ codes " must be a number.";
}

abbrev pub too_many_decimals : Bool → Text → ErrorDetail
too_many_decimals field message = record {
  field = numeric_field field;
  code = "too_many_decimals";
  message = label_of field ++ message;
}

-- The submitted string of a numeric field.
abbrev pub numeric_text : Bool → Numericish → Result ErrorDetail Text
numeric_text field (number finite shown) =
    if not finite || any (λ c. c == b'e' || c == b'E') shown
    then err (not_numeric field)
    else ok shown
numeric_text field (text s) = ok (trim s)

-- The checks on the digits of the two groups.
unfoldable pub check_digits : Bool → Text → Text × Text → Result ErrorDetail (Option Text)
check_digits field s (int, frac) =
    let int_digits = strip_zeros int in
    if ltb (max_total_digits - max_decimals field) (length int_digits)
      || ltb max_total_digits (length int_digits + length frac)
    then err (too_many_decimals field (codes " has too many digits."))
    else if ltb (max_decimals field) (length frac)
    then err (
        too_many_decimals field (
          codes " may have at most " ++ (decimal (max_decimals field) ++ codes " decimal places.")))
    else ok (some s)

unfoldable pub check_numeric : Bool → Text → Result ErrorDetail (Option Text)
check_numeric field [] = ok none
check_numeric field (c ∷ s) = elim (decimal_shape (c ∷ s)) [
  | none ↦ err (not_numeric field)
  | some groups ↦ check_digits field (c ∷ s) groups
]

-- A round of the loop of `coerceNumerics`.
unfoldable pub coerce_numeric : Bool → Option Numericish → Result ErrorDetail (Option Text)
coerce_numeric field none = ok none
coerce_numeric field (some raw) = numeric_text field raw >>= λ s. check_numeric field s

abbrev pub both :
    {A : Type 0} → Result ErrorDetail A → Result ErrorDetail A → Result (List ErrorDetail) (A × A)
both (ok a) (ok b) = ok (a, b)
both (ok a) (err e) = err (e ∷ [])
both (err d) (ok b) = err (d ∷ [])
both (err d) (err e) = err (d ∷ e ∷ [])

-- `coerceNumerics`
unfoldable pub coerce_numerics : ParsedBody → Result (List ErrorDetail) (Option Text × Option Text)
coerce_numerics parsed =
    both (coerce_numeric true parsed.quantity) (coerce_numeric false parsed.declared_value_usd)

-- `collapse`
unfoldable pub collapse : Option Text → Option Text
collapse none = none
collapse (some value) = elim (trim value) [ [] ↦ none | c ∷ s ↦ some (c ∷ s) ]

-- `canonicalise`
unfoldable pub canonicalise : ParsedBody → Option Text → Option Text → CanonicalEntryRecord
canonicalise parsed quantity declared_value_usd = record {
  entry_number = collapse parsed.entry_number;
  importer_of_record_id = collapse parsed.importer_of_record_id;
  port_of_entry_code = collapse parsed.port_of_entry_code;
  mode_of_transport = collapse parsed.mode_of_transport;
  carrier_code = collapse parsed.carrier_code;
  conveyance_name = collapse parsed.conveyance_name;
  bill_of_lading_number = collapse parsed.bill_of_lading_number;
  air_waybill_number = collapse parsed.air_waybill_number;
  country_of_origin_code = collapse parsed.country_of_origin_code;
  goods_description = collapse parsed.goods_description;
  quantity = collapse quantity;
  quantity_uom = collapse parsed.quantity_uom;
  declared_value_usd = collapse declared_value_usd;
  arrival_date = collapse parsed.arrival_date;
}

-- Steps 5 and 6 of `postEntry`: the submitted record and the fields that were provided.
unfoldable pub submission :
    ParsedBody → Result (List ErrorDetail) (CanonicalEntryRecord × List String)
submission parsed = coerce_numerics parsed >>= λ numeric. ok (
  canonicalise parsed numeric.0 numeric.1,
  keep_if (λ f. is_some (get (canonicalise parsed numeric.0 numeric.1) f)) entry_fields,
)
