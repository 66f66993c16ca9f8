-- ===== src/Queue/Shown.antt =====
-- server/src/services/queue.service.ts: which cases are open, and what a row of the queue says of one.
use cargo_execution_assistan.Prelude.{
  ℕ, ◌-◌, ◌≡◌, ◌≢◌, refl, ap, ◌<◌, ◌≤◌, ◌⊎◌, inl, inr, false, none, some, List, [], ◌∷◌, ◌++◌, map,
  take, find, ltb, ltb→lt, arith, Bool-cases, Option-cases,
}
use cargo_execution_assistan.Text.{Text, codes, text_eq, decimal}
use cargo_execution_assistan.Text.Encoding.{iso_string}
use cargo_execution_assistan.Canonical.Keep.{IsSelection, sort_by-IsSelection}
use cargo_execution_assistan.Database.{
  Database, EntryRow, ValidationRow, ExceptionRow, FindingRow, CaseState, open_state, state_eq,
  state_eq-open,
}
use cargo_execution_assistan.Queue.{
  QueueRow, RowSummaryDto, joined, open_rows, first_messages, derive_failure_summary, row_summary,
}
use cargo_execution_assistan.Queue.Grouped.{findings_of}

-- The row has the columns of the exception, of its entry and of its validation.
abbrev pub IsJoined : Database → ExceptionRow → QueueRow → Type 0
IsJoined db e r =
    (c : EntryRow) × (v : ValidationRow) × (find (λ x. text_eq x.id e.entry_id) db.cargo_entries
      ≡ some c)
    × (find (λ x. text_eq x.id e.validation_result_id) db.validation_results ≡ some v)
    × (r.id ≡ e.id)
    × (r.case_reference ≡ c.case_reference)
    × (r.receipt_position ≡ e.receipt_position)
    × (r.received_at ≡ iso_string c.received_at)
    × (r.entry_number ≡ c.values.entry_number)
    × (r.validation_result_id ≡ e.validation_result_id)
    × (r.findings_count ≡ v.findings_count)

-- An exception without an entry or a validation, which the foreign keys exclude.
abbrev pub IsUnmatched : Database → ExceptionRow → Type 0
IsUnmatched db e =
    (find (λ x. text_eq x.id e.entry_id) db.cargo_entries ≡ none)
    ⊎ (find (λ x. text_eq x.id e.validation_result_id) db.validation_results ≡ none)

-- The rows of the exceptions whose state is OPEN, one for each, and none of another state.
pub data Open (db : Database) : List ExceptionRow → List QueueRow → Type 0 where
  no_more : Open db [] []
  listed :
      {e : ExceptionRow} {es : List ExceptionRow} {r : QueueRow} {rs : List QueueRow}
      → e.state ≡ open_state
      → IsJoined db e r
      → Open db es rs
      → Open db (e ∷ es) (r ∷ rs)
  unmatched :
      {e : ExceptionRow} {es : List ExceptionRow} {rs : List QueueRow}
      → IsUnmatched db e
      → Open db es rs
      → Open db (e ∷ es) rs
  not_open :
      {e : ExceptionRow} {es : List ExceptionRow} {rs : List QueueRow}
      → e.state ≢ open_state
      → Open db es rs
      → Open db (e ∷ es) rs

not_state_eq-open : (s : CaseState) → state_eq s open_state ≡ false → s ≢ open_state
not_state_eq-open s h e = let h' = rw e at h in cc

pub open_rows-Open : (db : Database) (es : List ExceptionRow) → Open db es (open_rows db es)
open_rows-Open db [] = Open.no_more
open_rows-Open db (e ∷ es) = elim (Bool-cases (state_eq e.state open_state)) [
  | inr other ↦
      rw (other, open_rows) (Open.not_open (not_state_eq-open e.state other) (open_rows-Open db es))
  | inl hit ↦ elim (Option-cases (find (λ x. text_eq x.id e.entry_id) db.cargo_entries)) [
    | inl gone ↦
        rw (hit, open_rows) (rw (gone, joined) (Open.unmatched (inl gone) (open_rows-Open db es)))
    | inr (c, entry) ↦
        elim (Option-cases
          (find (λ x. text_eq x.id e.validation_result_id) db.validation_results)) [
            | inl gone ↦
                rw (hit, open_rows)
                  (rw (entry, gone, joined) (Open.unmatched (inr gone) (open_rows-Open db es)))
            | inr (v, validation) ↦
                rw (hit, open_rows)
                  (rw (entry, validation, joined)
                    (Open.listed (state_eq-open e.state hit)
                      (c, v, entry, validation, refl, refl, refl, refl, refl, refl, refl)
                      (open_rows-Open db es)))
          ]
  ]
]

-- The texts, with a separator between them.
abbrev pub separated : Text → List Text → Text
separated separator [] = []
separated separator (t ∷ []) = t
separated separator (t ∷ u ∷ ts) = t ++ (separator ++ separated separator (u ∷ ts))

-- The messages of the first two findings, and how many more there are.
abbrev pub IsSummary : List FindingRow → ℕ → Text → Type 0
IsSummary findings count summary =
    ((count ≤ 2)
      × (summary ≡ separated (codes "; ") (map (λ f. f.content.message) (take 2 findings))))
    ⊎ ((2 < count)
        × (summary
            ≡ separated (codes "; ") (map (λ f. f.content.message) (take 2 findings))
              ++ (codes " and " ++ (decimal (count - 2) ++ codes " more"))))

-- A row of the queue as it is shown, with the findings of its validation in the order of the rules.
abbrev pub IsShown : Database → QueueRow → RowSummaryDto → Type 0
IsShown db r d =
    (d.id ≡ r.id)
    × (d.case_reference ≡ r.case_reference)
    × (d.receipt_position ≡ r.receipt_position)
    × (d.received_at ≡ r.received_at)
    × (d.entry_number ≡ r.entry_number)
    × (d.finding_count ≡ r.findings_count)
    × (findings : List FindingRow) × IsSelection (λ f. f.validation_result_id)
        (λ f. codes f.content.rule_id) r.validation_result_id db.validation_findings findings
    × IsSummary findings r.findings_count d.failure_summary

derive_failure_summary-IsSummary :
    (findings : List FindingRow) (count : ℕ)
    → IsSummary findings count (derive_failure_summary (map (λ f. f.content) findings) count)
unfolding derive_failure_summary
derive_failure_summary-IsSummary findings count = elim (Bool-cases (ltb 2 count)) [
  | inl more ↦ inr (
    ltb→lt 2 count more,
    rw more (
        ap (λ t. t ++ (codes " and " ++ (decimal (count - 2) ++ codes " more")))
          (messages findings)),
  )
  | inr all_of_them ↦ inl (ground (arith, all_of_them), rw all_of_them (messages findings))
]
  where
    messages :
        (fs : List FindingRow)
        → first_messages (map (λ f. f.content) fs)
          ≡ separated (codes "; ") (map (λ f. f.content.message) (take 2 fs))
    messages [] = refl
    messages (f ∷ []) = refl
    messages (f ∷ g ∷ fs) = refl

pub row_summary-IsShown :
    (db : Database) (r : QueueRow) → IsShown db r (row_summary (λ id. findings_of id db) r)
row_summary-IsShown db r = (
  refl,
  refl,
  refl,
  refl,
  refl,
  refl,
  _,
  sort_by-IsSelection (λ (f : FindingRow). f.validation_result_id) (λ f. codes f.content.rule_id)
      r.validation_result_id db.validation_findings,
  derive_failure_summary-IsSummary _ r.findings_count,
)
