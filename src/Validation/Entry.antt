-- ===== src/Validation/Entry.antt =====
-- contract/src/fields.ts and the canonical entry record of server/src/db/repositories/entries.ts.
use cargo_execution_assistan.Prelude.{
  String, Option, none, List, [], ◌∷◌, str_eq, if◌then◌else◌, Bool, has,
}
use cargo_execution_assistan.Text.{Text}

-- `ENTRY_FIELDS`
abbrev pub entry_fields : List String
entry_fields =
    "entry_number" ∷ "importer_of_record_id" ∷ "port_of_entry_code" ∷ "mode_of_transport"
    ∷ "carrier_code" ∷ "conveyance_name" ∷ "bill_of_lading_number" ∷ "air_waybill_number"
    ∷ "country_of_origin_code" ∷ "goods_description" ∷ "quantity" ∷ "quantity_uom"
    ∷ "declared_value_usd" ∷ "arrival_date" ∷ []

-- `ENTRY_FIELD_SET.has(name)`
unfoldable pub is_entry_field : String → Bool
is_entry_field name = has name entry_fields

-- A `null` is `none`.
pub record CanonicalEntryRecord : Type 0 where
  pub entry_number : Option Text
  pub importer_of_record_id : Option Text
  pub port_of_entry_code : Option Text
  pub mode_of_transport : Option Text
  pub carrier_code : Option Text
  pub conveyance_name : Option Text
  pub bill_of_lading_number : Option Text
  pub air_waybill_number : Option Text
  pub country_of_origin_code : Option Text
  pub goods_description : Option Text
  pub quantity : Option Text
  pub quantity_uom : Option Text
  pub declared_value_usd : Option Text
  pub arrival_date : Option Text

-- `record[name]`, where a name outside the record gives no value either.
unfoldable pub get : CanonicalEntryRecord → String → Option Text
get r name =
    if str_eq name "entry_number"
    then r.entry_number
    else if str_eq name "importer_of_record_id"
    then r.importer_of_record_id
    else if str_eq name "port_of_entry_code"
    then r.port_of_entry_code
    else if str_eq name "mode_of_transport"
    then r.mode_of_transport
    else if str_eq name "carrier_code"
    then r.carrier_code
    else if str_eq name "conveyance_name"
    then r.conveyance_name
    else if str_eq name "bill_of_lading_number"
    then r.bill_of_lading_number
    else if str_eq name "air_waybill_number"
    then r.air_waybill_number
    else if str_eq name "country_of_origin_code"
    then r.country_of_origin_code
    else if str_eq name "goods_description"
    then r.goods_description
    else if str_eq name "quantity"
    then r.quantity
    else if str_eq name "quantity_uom"
    then r.quantity_uom
    else if str_eq name "declared_value_usd"
    then r.declared_value_usd
    else if str_eq name "arrival_date"
    then r.arrival_date
    else none
