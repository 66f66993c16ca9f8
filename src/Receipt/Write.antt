-- ===== src/Receipt/Write.antt =====
-- server/src/db/repositories/entries.ts, validation.ts and exceptions.ts: the statements of a receipt,
-- with the constraints of 0002_entries.sql to 0005_recommendations.sql that the code does not ensure by
-- construction.
use cargo_execution_assistan.Prelude.{
  ◌>>=◌, err, ℕ, zero, suc, ◌-◌, Bool, true, false, ◌&&◌, ◌||◌, not, String, Option, none, some,
  List, [], ◌∷◌, ◌++◌, map, Result, ok, ◌>>◌, check_all, length, any, all, take, find, leb, ltb,
  has, ◌==◌,
}
use cargo_execution_assistan.Text.{Text, codes, text_eq, decimal}
use cargo_execution_assistan.Text.Encoding.{code_points, iso_string}
use cargo_execution_assistan.Validation.Entry.{CanonicalEntryRecord}
use cargo_execution_assistan.Validation.Rule.{Finding, pass, fail}
use cargo_execution_assistan.Database.{
  Database, Session, EntryRow, ValidationRow, ExceptionRow, RecommendationRow, pending,
  entry_inserted, validation_inserted, exception_inserted, Thrown, unique_violation,
  check_violation, data_exception, foreign_key_violation, read_invariant, option_eq,
}

-- The casts of the database to numeric(14,3), numeric(14,2) and date: the text that the column then
-- reads as, or `none` where the cast throws.
pub record Casts : Type 0 where
  pub numeric_14_3 : Text → Option Text
  pub numeric_14_2 : Text → Option Text
  pub date : Text → Option Text

-- What the database supplies to a receipt: its casts, the time of the transaction, the numbers of its
-- two sequences, and the generated ids.
pub record ReceiptSupply : Type 0 where
  pub casts : Casts
  pub now : ℕ
  pub case_number : ℕ
  pub receipt_position : ℕ
  pub entry_id : Text
  pub validation_id : Text
  pub exception_id : Text
  pub recommendation_id : Text
  pub first_audit_id : Text
  pub second_audit_id : Text
  pub third_audit_id : Text

-- `lpad(s, 6, '0')`, which also cuts a longer text.
abbrev pub lpad_6 : Text → Text
lpad_6 s = pad (6 - length s) (take 6 s)
  where
    pad : ℕ → Text → Text
    pad zero t = t
    pad (suc n) t = b'0' ∷ pad n t

-- `CE-` with the UTC year and the number of the sequence.
unfoldable pub case_reference : ℕ → ℕ → Text
case_reference now number =
    codes "CE-" ++ (take 4 (iso_string now) ++ (codes "-" ++ lpad_6 (decimal number)))

abbrev pub fits : Option Text → ℕ → Bool
fits none n = true
fits (some s) n = leb (length (code_points s)) n

-- `cargo_entries_len_chk`
unfoldable pub values_fit : CanonicalEntryRecord → Bool
values_fit v =
    fits v.entry_number 20
    && fits v.importer_of_record_id 20
    && fits v.port_of_entry_code 8
    && fits v.mode_of_transport 16
    && fits v.carrier_code 8
    && fits v.conveyance_name 100
    && fits v.bill_of_lading_number 40
    && fits v.air_waybill_number 20
    && fits v.country_of_origin_code 4
    && fits v.goods_description 2000
    && fits v.quantity_uom 8

-- Two rows with the same entry number; NULL is not in the index.
abbrev pub same_entry_number : Option Text → EntryRow → Bool
same_entry_number none row = false
same_entry_number (some number) row = option_eq (some number) row.values.entry_number

unfoldable pub entry_constraints : EntryRow → Database → List (Bool × Thrown)
entry_constraints row db =
    (values_fit row.values, check_violation "cargo_entries_len_chk")
    ∷ (not (any (λ e. text_eq e.id row.id) db.cargo_entries), unique_violation "cargo_entries_pkey")
    ∷ (
      not (any (λ e. text_eq e.case_reference row.case_reference) db.cargo_entries),
      unique_violation "uq_cargo_entries_case_reference",
    )
    ∷ (
      not (any (same_entry_number row.values.entry_number) db.cargo_entries),
      unique_violation "uq_cargo_entries_entry_number",
    )
    ∷ (
      any (λ s. text_eq s.id row.created_by) db.specialists,
      foreign_key_violation "cargo_entries_created_by_fkey",
    )
    ∷ []

abbrev pub with_entry : EntryRow → Session → Session
with_entry row s = record s {
  db = record s.db { cargo_entries = s.db.cargo_entries ++ row ∷ [] };
  pending = s.pending ++ entry_inserted row ∷ [];
}

abbrev pub cast : (Text → Option Text) → Option Text → Result Thrown (Option Text)
cast f none = ok none
cast f (some text) = elim (f text) [ none ↦ err data_exception | some value ↦ ok (some value) ]

-- `$15::numeric`, `$17::numeric` and `$18::date`, into their columns.
unfoldable pub cast_values : Casts → CanonicalEntryRecord → Result Thrown CanonicalEntryRecord
cast_values casts v = do
  quantity ← cast casts.numeric_14_3 v.quantity
  declared_value_usd ← cast casts.numeric_14_2 v.declared_value_usd
  arrival_date ← cast casts.date v.arrival_date
  ok (record v {
    quantity = quantity;
    declared_value_usd = declared_value_usd;
    arrival_date = arrival_date;
  })

-- The casts come before the constraints.
unfoldable pub insert_entry : Casts → EntryRow → Session → Result Thrown Session
insert_entry casts row s = do
  values ← cast_values casts row.values
  check_all (entry_constraints (record row { values = values }) s.db)
  ok (with_entry (record row { values = values }) s)

abbrev pub string_twice : List String → Bool
string_twice [] = false
string_twice (k ∷ ks) = has k ks || string_twice ks

abbrev pub with_origins : Text → List String → Session → Session
with_origins entry_id fields s = record s {
  db = record s.db {
    field_origins =
        s.db.field_origins ++ map (λ f. record { entry_id = entry_id; field_name = f }) fields;
  };
}

-- The entry is new, so its key can only collide within the statement.
abbrev pub origin_constraints : List String → List (Bool × Thrown)
origin_constraints fields =
    (not (string_twice fields), unique_violation "cargo_entry_field_origins_pkey") ∷ []

unfoldable pub insert_field_origins : Text → List String → Session → Result Thrown Session
insert_field_origins entry_id fields s = do
  check_all (origin_constraints fields)
  ok (with_origins entry_id fields s)

-- `validation_results_counts_chk`
abbrev pub counts_agree : ValidationRow → Bool
counts_agree row =
    leb row.findings_count row.rules_evaluated_count
    && (elim row.outcome [ pass ↦ row.findings_count == 0 | fail ↦ not (row.findings_count == 0) ])

unfoldable pub validation_constraints : ValidationRow → Database → List (Bool × Thrown)
validation_constraints row db =
    (counts_agree row, check_violation "validation_results_counts_chk")
    ∷ (
      not (any (λ v. text_eq v.id row.id) db.validation_results),
      unique_violation "validation_results_pkey",
    )
    ∷ (
      not (any (λ v. text_eq v.entry_id row.entry_id) db.validation_results),
      unique_violation "uq_validation_results_entry",
    )
    ∷ (
      any (λ e. text_eq e.id row.entry_id) db.cargo_entries,
      foreign_key_violation "validation_results_entry_id_fkey",
    )
    ∷ []

abbrev pub with_validation : ValidationRow → Session → Session
with_validation row s = record s {
  db = record s.db { validation_results = s.db.validation_results ++ row ∷ [] };
  pending = s.pending ++ validation_inserted row ∷ [];
}

unfoldable pub insert_validation_result : ValidationRow → Session → Result Thrown Session
insert_validation_result row s = do
  check_all (validation_constraints row s.db)
  ok (with_validation row s)

abbrev pub with_findings : Text → List Finding → Session → Session
with_findings validation_id findings s = record s {
  db = record s.db {
    validation_findings =
        s.db.validation_findings
        ++ map (λ f. record { validation_result_id = validation_id; content = f }) findings;
  };
}

abbrev pub message_fits : Finding → Bool
message_fits f = let n = length (code_points f.message) in leb 1 n && leb n 500

-- The validation result is a new one.
abbrev pub finding_constraints : List Finding → List (Bool × Thrown)
finding_constraints findings =
    (all message_fits findings, check_violation "vf_message_len_chk")
    ∷ (
      not (string_twice (map (λ f. f.rule_id) findings)),
      unique_violation "uq_validation_findings_rule",
    )
    ∷ []

unfoldable pub insert_findings : Text → List Finding → Session → Result Thrown Session
insert_findings validation_id findings s = do
  check_all (finding_constraints findings)
  ok (with_findings validation_id findings s)

-- `Number.isSafeInteger`, as `toReceiptPosition` demands.
abbrev pub is_safe_position : ℕ → Bool
is_safe_position n = ltb n 9007199254740992

-- The constraints of the table, and the throw of `toReceiptPosition` on the row that is returned.
unfoldable pub exception_constraints : ExceptionRow → Database → List (Bool × Thrown)
exception_constraints row db =
    (not (any (λ e. text_eq e.id row.id) db.exceptions), unique_violation "exceptions_pkey")
    ∷ (
      not (any (λ e. text_eq e.entry_id row.entry_id) db.exceptions),
      unique_violation "uq_exceptions_entry",
    )
    ∷ (
      not (any (λ e. e.receipt_position == row.receipt_position) db.exceptions),
      unique_violation "uq_exceptions_receipt_position",
    )
    ∷ (
      any (λ e. text_eq e.id row.entry_id) db.cargo_entries,
      foreign_key_violation "exceptions_entry_id_fkey",
    )
    ∷ (
      any
          (λ v.
            text_eq v.id row.validation_result_id
            && (elim v.outcome [ pass ↦ false | fail ↦ true ]))
          db.validation_results,
      foreign_key_violation "exceptions_basis_fk",
    )
    ∷ (is_safe_position row.receipt_position, read_invariant)
    ∷ []

abbrev pub with_exception : ExceptionRow → Session → Session
with_exception row s = record s {
  db = record s.db { exceptions = s.db.exceptions ++ row ∷ [] };
  pending = s.pending ++ exception_inserted row ∷ [];
}

unfoldable pub insert_exception : ExceptionRow → Session → Result Thrown Session
insert_exception row s = do check_all (exception_constraints row s.db); ok (with_exception row s)

abbrev pub pending_recommendation : Text → Text → RecommendationRow
pending_recommendation id exception_id = record {
  id = id;
  exception_id = exception_id;
  status = pending;
}

abbrev pub with_recommendation : RecommendationRow → Session → Session
with_recommendation row s = record s {
  db = record s.db { recommendations = s.db.recommendations ++ row ∷ [] };
}

abbrev pub recommendation_constraints : RecommendationRow → Database → List (Bool × Thrown)
recommendation_constraints row db =
    (
      not (any (λ r. text_eq r.id row.id) db.recommendations),
      unique_violation "recommendations_pkey",
    )
    ∷ (
      not (any (λ r. text_eq r.exception_id row.exception_id) db.recommendations),
      unique_violation "uq_recommendations_exception",
    )
    ∷ (
      any (λ e. text_eq e.id row.exception_id) db.exceptions,
      foreign_key_violation "recommendations_exception_id_fkey",
    )
    ∷ []

-- The trigger on `recommendations` passes every row that is PENDING.
unfoldable pub insert_pending_recommendation : Text → Text → Session → Result Thrown Session
insert_pending_recommendation id exception_id s = do
  check_all (recommendation_constraints (pending_recommendation id exception_id) s.db)
  ok (with_recommendation (pending_recommendation id exception_id) s)

abbrev pub text_or_empty : Option Text → Text
text_or_empty none = []
text_or_empty (some s) = s

abbrev pub find_case_reference_by_entry_number : Text → Database → Option Text
find_case_reference_by_entry_number number db =
    elim (find (λ e. option_eq (some number) e.values.entry_number) db.cargo_entries) [
      | none ↦ none
      | some row ↦ some row.case_reference
    ]
