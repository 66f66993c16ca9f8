-- ===== src/Decision/Planning/Values.antt =====
-- server/src/services/decision.service.ts: the request, its reason, and the values that an edit
-- records.
use cargo_execution_assistan.Prelude.{
  Bool, true, false, ◌&&◌, not, Option, none, some, String, List, [], ◌∷◌, map, Result, ok, err,
  ◌>>=◌, ◌>>◌, guard, throw_if, or_throw, length, any, all, keep_if, find, ltb, is_some,
  if◌then◌else◌,
}
use cargo_execution_assistan.Text.{Text, codes, text_eq, trim, among}
use cargo_execution_assistan.Canonical.{ai, human}
use cargo_execution_assistan.Validation.Entry.{CanonicalEntryRecord, entry_fields, get}
use cargo_execution_assistan.Database.{
  Database, DecisionType, ProposedValue, ResolutionValue, Thrown, read_invariant, reason_required,
  resolution_values_incomplete, request_malformed,
}
use cargo_execution_assistan.Audit.{is_empty}

-- A value that the specialist submits.
pub record Submitted : Type 0 where
  pub field_name : Text
  pub value : Text

-- `DecisionCreateRequest`; an absent property is `none`.
pub record DecisionCreateRequest : Type 0 where
  pub decision_type : DecisionType
  pub reason : Option Text
  pub recommendation_id : Option Text
  pub resolution_values : Option (List Submitted)

-- `validateReason`
unfoldable pub validate_reason : Option Text → Bool → Result Thrown (Option Text)
validate_reason none true = err (reason_required false)
validate_reason none false = ok none
validate_reason (some reason) true = do
  throw_if (ltb (length (trim reason)) 10) (reason_required true)
  throw_if (ltb 2000 (length (trim reason))) request_malformed
  ok (some (trim reason))
validate_reason (some reason) false =
    if is_empty (trim reason)
    then ok none
    else (do throw_if (ltb 2000 (length (trim reason))) request_malformed; ok (some (trim reason)))

abbrev pub names : Text → List Text → Bool
names f seen = any (λ g. text_eq g f) seen

-- `assertNoDuplicateFields`
unfoldable pub assert_no_duplicate_fields : List Text → List Submitted → Result Thrown (Unit {0})
assert_no_duplicate_fields seen [] = ok tt
assert_no_duplicate_fields seen (s ∷ rest) = do
  throw_if (names s.field_name seen) request_malformed
  assert_no_duplicate_fields (s.field_name ∷ seen) rest

-- `map.get(field)` of a map that is filled in order: the last proposal for the field.
abbrev pub last_proposal : Text → List ProposedValue → Option ProposedValue
last_proposal f [] = none
last_proposal f (p ∷ ps) =
    let later = last_proposal f ps in
    elim later [ some q ↦ some q | none ↦ if text_eq p.field_name f then some p else none ]

-- A submitted value beside its proposal.
abbrev pub against_proposal : Submitted → ProposedValue → ResolutionValue
against_proposal s p =
    let changed = not (text_eq (trim s.value) (trim p.proposed_value)) in
    record {
      field_name = s.field_name;
      value = s.value;
      origin = (if changed then human else ai);
      prior_value = some p.proposed_value;
      prior_origin = some ai;
      changed_from_proposal = changed;
    }

unfoldable pub values_against :
    List ProposedValue → List Submitted → Result Thrown (List ResolutionValue)
values_against proposed [] = ok []
values_against proposed (s ∷ rest) = do
  p ← or_throw (last_proposal s.field_name proposed) read_invariant
  later ← values_against proposed rest
  ok (against_proposal s p ∷ later)

abbrev pub missing_fields : List Submitted → List ProposedValue → List Text
missing_fields submitted proposed =
    keep_if (λ f. not (names f (map (λ s. s.field_name) submitted)))
      (map (λ p. p.field_name) proposed)

abbrev pub unexpected_fields : List Submitted → List ProposedValue → List Text
unexpected_fields submitted proposed =
    keep_if (λ f. not (names f (map (λ p. p.field_name) proposed)))
      (map (λ s. s.field_name) submitted)

abbrev pub is_nil : List Text → Bool
is_nil [] = true
is_nil (_ ∷ _) = false

-- `editApproveAgainstProposal`
unfoldable pub edit_approve_against_proposal :
    List Submitted → List ProposedValue → Result Thrown (List ResolutionValue)
edit_approve_against_proposal submitted proposed = do
  guard
      (is_nil (missing_fields submitted proposed) && is_nil (unexpected_fields submitted proposed))
      (resolution_values_incomplete (missing_fields submitted proposed)
        (unexpected_fields submitted proposed))
  values_against proposed submitted

-- `entry.values[field]`
abbrev value_in : CanonicalEntryRecord → Text → List String → Option Text
value_in r f [] = none
value_in r f (name ∷ rest) =
    let later = value_in r f rest in if text_eq f (codes name) then get r name else later

abbrev pub entry_value : CanonicalEntryRecord → Text → Option Text
entry_value r f = value_in r f entry_fields

abbrev pub direct_value : CanonicalEntryRecord → Submitted → ResolutionValue
direct_value r s = record {
  field_name = s.field_name;
  value = s.value;
  origin = human;
  prior_value = entry_value r s.field_name;
  prior_origin = (if is_some (entry_value r s.field_name) then some human else none);
  changed_from_proposal = true;
}

-- `editApproveDirect`
unfoldable pub edit_approve_direct :
    Database → List Submitted → Text → Result Thrown (List ResolutionValue)
edit_approve_direct db submitted entry_id = do
  guard (all (λ s. among s.field_name entry_fields) submitted) request_malformed
  entry ← or_throw (find (λ e. text_eq e.id entry_id) db.cargo_entries) read_invariant
  ok (map (direct_value entry.values) submitted)
