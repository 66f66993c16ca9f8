-- ===== src/Receipt/Stored.antt =====
-- server/src/services/receipt.service.ts: how the columns of a submitted entry are stored.
use cargo_execution_assistan.Prelude.{
  ◌≡◌, refl, sym, ap, ◌∙◌, ◌⊎◌, inl, inr, false, Option, none, some, ok, >>=-eq-ok, ok_inj,
  Bool-cases, Option-cases, subst, if◌then◌else◌,
}
use cargo_execution_assistan.Text.{Text}
use cargo_execution_assistan.Validation.Entry.{CanonicalEntryRecord}
use cargo_execution_assistan.Validation.Calendar.{is_calendar_date}
use cargo_execution_assistan.Receipt.Write.{Casts, cast, cast_values}
use cargo_execution_assistan.Receipt.{stored_values}

-- A value as the cast of its column reads it; the column of no value is NULL.
abbrev pub IsCast : (Text → Option Text) → Option Text → Option Text → Type 0
IsCast f none stored = stored ≡ none
IsCast f (some given) stored = (value : Text) × (f given ≡ some value) × (stored ≡ some value)

-- A date that is no calendar date is stored as NULL, any other one by its cast.
abbrev pub IsStoredDate : (Text → Option Text) → Option Text → Option Text → Type 0
IsStoredDate f given stored =
    ((date : Text) × (given ≡ some date) × (is_calendar_date (some date) ≡ false) × (stored ≡ none))
    ⊎ IsCast f given stored

-- The stored entry: eleven fields as submitted, and three as their columns read them.
pub record IsStored (casts : Casts) (submitted stored : CanonicalEntryRecord) : Type 0 where
  pub entry_number : stored.entry_number ≡ submitted.entry_number
  pub importer : stored.importer_of_record_id ≡ submitted.importer_of_record_id
  pub port : stored.port_of_entry_code ≡ submitted.port_of_entry_code
  pub mode : stored.mode_of_transport ≡ submitted.mode_of_transport
  pub carrier : stored.carrier_code ≡ submitted.carrier_code
  pub conveyance : stored.conveyance_name ≡ submitted.conveyance_name
  pub bill : stored.bill_of_lading_number ≡ submitted.bill_of_lading_number
  pub waybill : stored.air_waybill_number ≡ submitted.air_waybill_number
  pub country : stored.country_of_origin_code ≡ submitted.country_of_origin_code
  pub goods : stored.goods_description ≡ submitted.goods_description
  pub unit : stored.quantity_uom ≡ submitted.quantity_uom
  pub quantity : IsCast casts.numeric_14_3 submitted.quantity stored.quantity
  pub value : IsCast casts.numeric_14_2 submitted.declared_value_usd stored.declared_value_usd
  pub date : IsStoredDate casts.date submitted.arrival_date stored.arrival_date

cast-IsCast :
    (f : Text → Option Text) (given stored : Option Text)
    → cast f given ≡ ok stored
    → IsCast f given stored
cast-IsCast f none stored h = sym (ok_inj h)
cast-IsCast f (some given) stored h = elim (Option-cases (f given)) [
  | inl refused ↦ let h' = rw (refused, cast) at h in cc
  | inr (value, read) ↦ (value, read, sym (ok_inj (rw (read, cast) at h)))
]

-- `stored_values`, by the date.
abbrev stored_by : CanonicalEntryRecord → Option Text → CanonicalEntryRecord
stored_by r given = elim given [
  | none ↦ r
  | some date ↦ if is_calendar_date (some date) then r else record r { arrival_date = none }
]

-- The entry as it is stored before the casts: as submitted, but without a date that is none.
abbrev pub IsKept : CanonicalEntryRecord → CanonicalEntryRecord → Type 0
IsKept r kept =
    (kept ≡ r)
    ⊎ ((date : Text) × (r.arrival_date ≡ some date)
        × (is_calendar_date (some date) ≡ false)
        × (kept ≡ record r { arrival_date = none }))

pub stored_values-cases : (r : CanonicalEntryRecord) → IsKept r (stored_values r)
stored_values-cases r = elim (Option-cases r.arrival_date) [
  | inl missing ↦ inl (ap (stored_by r) missing)
  | inr (date, given) ↦ elim (Bool-cases (is_calendar_date (some date))) [
    | inl real ↦
        let nulled = record r { arrival_date = none } in
        let same : (if is_calendar_date (some date) then r else nulled) ≡ r = rw real refl in
        inl (ap (stored_by r) given ∙ same)
    | inr unreal ↦
        let nulled = record r { arrival_date = none } in
        let same : (if is_calendar_date (some date) then r else nulled) ≡ nulled = rw unreal refl in
        inr (date, given, unreal, ap (stored_by r) given ∙ same)
  ]
]

cast_values-IsStored :
    (casts : Casts) (r stored : CanonicalEntryRecord)
    → cast_values casts r ≡ ok stored
    → IsStored casts r stored
unfolding cast_values
cast_values-IsStored casts r stored h =
    let (q, quantity, h1) = >>=-eq-ok (cast casts.numeric_14_3 r.quantity) _ h in
    let (v, value, h2) = >>=-eq-ok (cast casts.numeric_14_2 r.declared_value_usd) _ h1 in
    let (d, date, h3) = >>=-eq-ok (cast casts.date r.arrival_date) _ h2 in
    subst (λ (s : CanonicalEntryRecord). IsStored casts r s) (ok_inj h3)
      (record {
        entry_number = refl;
        importer = refl;
        port = refl;
        mode = refl;
        carrier = refl;
        conveyance = refl;
        bill = refl;
        waybill = refl;
        country = refl;
        goods = refl;
        unit = refl;
        quantity = cast-IsCast casts.numeric_14_3 r.quantity q quantity;
        value = cast-IsCast casts.numeric_14_2 r.declared_value_usd v value;
        date = inr (cast-IsCast casts.date r.arrival_date d date);
      })

pub stored_values-IsStored :
    (casts : Casts) (r stored : CanonicalEntryRecord)
    → cast_values casts (stored_values r) ≡ ok stored
    → IsStored casts r stored
stored_values-IsStored casts r stored h = elim (stored_values-cases r) [
  | inl same ↦ cast_values-IsStored casts r stored (rw same at h)
  | inr (given_date, given, unreal, same) ↦
      let s = cast_values-IsStored casts (record r { arrival_date = none }) stored (rw same at h) in
      record {
        entry_number = s.entry_number;
        importer = s.importer;
        port = s.port;
        mode = s.mode;
        carrier = s.carrier;
        conveyance = s.conveyance;
        bill = s.bill;
        waybill = s.waybill;
        country = s.country;
        goods = s.goods;
        unit = s.unit;
        quantity = s.quantity;
        value = s.value;
        date = inl (given_date, given, unreal, cast_date casts.date stored.arrival_date s.date);
      }
]
  where
    cast_date : (f : Text → Option Text) (d : Option Text) → IsStoredDate f none d → d ≡ none
    cast_date f d (inl (date, given, unreal, gone)) = gone
    cast_date f d (inr c) = c
