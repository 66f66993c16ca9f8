-- ===== src/Queue.antt =====
-- server/src/services/queue.service.ts, with the two reads of server/src/db/repositories/exceptions.ts
-- and validation.ts that it composes.
pub mod Order
pub mod Grouped
pub mod Shown
pub mod Listed
mod Tests
use cargo_execution_assistan.Prelude.{
  ℕ, zero, suc, ◌+◌, ◌-◌, Bool, true, false, Option, none, some, List, [], ◌∷◌, ◌++◌, map, Result,
  ok, err, ◌>>=◌, ◌>>◌, guard, length, take, any, all, keep_if, find, ltb, if◌then◌else◌,
}
use cargo_execution_assistan.Text.{Text, codes, text_eq, decimal}
use cargo_execution_assistan.Text.Map.{get, set}
use cargo_execution_assistan.Text.Encoding.{iso_string}
use cargo_execution_assistan.Canonical.{sort_by}
use cargo_execution_assistan.Validation.Rule.{Finding}
use cargo_execution_assistan.Database.{
  Database, ExceptionRow, FindingRow, Thrown, read_invariant, state_eq, open_state,
}
use cargo_execution_assistan.Receipt.Write.{is_safe_position}

pub record QueueRow : Type 0 where
  pub id : Text
  pub case_reference : Text
  pub receipt_position : ℕ
  pub received_at : Text
  pub entry_number : Option Text
  pub validation_result_id : Text
  pub findings_count : ℕ

pub record RowSummaryDto : Type 0 where
  pub id : Text
  pub case_reference : Text
  pub receipt_position : ℕ
  pub received_at : Text
  pub entry_number : Option Text
  pub finding_count : ℕ
  pub failure_summary : Text

pub record QueueResponse : Type 0 where
  pub exceptions : List RowSummaryDto
  pub returned_count : ℕ
  pub truncated : Bool

-- The row of an exception joined with its entry and its validation.
abbrev pub joined : Database → ExceptionRow → Option QueueRow
joined db e = elim (find (λ c. text_eq c.id e.entry_id) db.cargo_entries) [
  | none ↦ none
  | some c ↦ elim (find (λ v. text_eq v.id e.validation_result_id) db.validation_results) [
    | none ↦ none
    | some v ↦ some (record {
      id = e.id;
      case_reference = c.case_reference;
      receipt_position = e.receipt_position;
      received_at = iso_string c.received_at;
      entry_number = c.values.entry_number;
      validation_result_id = e.validation_result_id;
      findings_count = v.findings_count;
    })
  ]
]

abbrev pub with_row : Option QueueRow → List QueueRow → List QueueRow
with_row none rows = rows
with_row (some r) rows = r ∷ rows

-- `WHERE e.state = 'OPEN'` on the joined rows.
abbrev pub open_rows : Database → List ExceptionRow → List QueueRow
open_rows db [] = []
open_rows db (e ∷ es) =
    let rest = open_rows db es in
    if state_eq e.state open_state then with_row (joined db e) rest else rest

-- `ORDER BY e.receipt_position ASC`
abbrev pub insert_row : QueueRow → List QueueRow → List QueueRow
insert_row r [] = r ∷ []
insert_row r (q ∷ qs) =
    let later = insert_row r qs in
    elim (ltb q.receipt_position r.receipt_position) [ true ↦ q ∷ later | false ↦ r ∷ q ∷ qs ]

abbrev pub in_receipt_order : List QueueRow → List QueueRow
in_receipt_order [] = []
in_receipt_order (r ∷ rs) = insert_row r (in_receipt_order rs)

-- `listOpenExceptions`; a position that is no safe integer throws.
unfoldable pub list_open_exceptions : Database → Result Thrown (List QueueRow)
list_open_exceptions db =
    let rows = take 501 (in_receipt_order (open_rows db db.exceptions)) in
    (do guard (all (λ r. is_safe_position r.receipt_position) rows) read_invariant; ok rows)

abbrev pub bucket : Text → List (Text × List Finding) → List Finding
bucket id grouped = elim (get id grouped) [ none ↦ [] | some findings ↦ findings ]

abbrev pub group : List FindingRow → List (Text × List Finding) → List (Text × List Finding)
group [] grouped = grouped
group (f ∷ fs) grouped =
    group fs
      (set f.validation_result_id (bucket f.validation_result_id grouped ++ f.content ∷ []) grouped)

-- `WHERE validation_result_id = ANY($1) ORDER BY validation_result_id, rule_id`
abbrev pub ordered_findings : List Text → Database → List FindingRow
ordered_findings ids db =
    sort_by (λ f. f.validation_result_id)
      (sort_by (λ f. codes f.content.rule_id)
        (keep_if (λ f. any (text_eq f.validation_result_id) ids) db.validation_findings))

-- `loadFindingsByValidationResultIds`; without ids there is no statement, and there are no rows.
unfoldable pub load_findings_by_validation_result_ids :
    List Text → Database → List (Text × List Finding)
load_findings_by_validation_result_ids ids db = group (ordered_findings ids db) []

-- `findings.slice(0, 2).map((f) => f.message).join('; ')`
abbrev pub first_messages : List Finding → Text
first_messages [] = []
first_messages (f ∷ []) = f.message
first_messages (f ∷ g ∷ fs) = f.message ++ (codes "; " ++ g.message)

-- `deriveFailureSummary`
unfoldable pub derive_failure_summary : List Finding → ℕ → Text
derive_failure_summary findings count =
    if ltb 2 count
    then first_messages findings ++ (codes " and " ++ (decimal (count - 2) ++ codes " more"))
    else first_messages findings

abbrev pub row_summary : (Text → List Finding) → QueueRow → RowSummaryDto
row_summary findings_of r = record {
  id = r.id;
  case_reference = r.case_reference;
  receipt_position = r.receipt_position;
  received_at = r.received_at;
  entry_number = r.entry_number;
  finding_count = r.findings_count;
  failure_summary = derive_failure_summary (findings_of r.validation_result_id) r.findings_count;
}

-- The 501st row only says that there are more.
abbrev pub page_of : List QueueRow → List QueueRow
page_of rows = if ltb 500 (length rows) then take 500 rows else rows

abbrev pub queue_response : Database → List QueueRow → QueueResponse
queue_response db rows =
    let page = page_of rows in
    let grouped =
      load_findings_by_validation_result_ids (map (λ r. r.validation_result_id) page) db in
    record {
      exceptions = map (row_summary (λ id. bucket id grouped)) page;
      returned_count = length page;
      truncated = ltb 500 (length rows);
    }

-- `listQueue`
unfoldable pub list_queue : Database → Result Thrown QueueResponse
list_queue db = do rows ← list_open_exceptions db; ok (queue_response db rows)
