-- ===== src/Decision/Planning.antt =====
-- server/src/services/decision.service.ts: what a request asks for, its values, the state that the
-- case gets, the reason and the audit rows, before anything is written.
pub mod Values
use cargo_execution_assistan.Prelude.{
  Bool, true, false, ◌&&◌, not, Option, none, some, String, List, [], ◌∷◌, map, Result, ok, err,
  ◌>>=◌, ◌>>◌, guard, throw_if, or_throw, length, any, all, keep_if, find, ltb, is_some,
  if◌then◌else◌,
}
use cargo_execution_assistan.Text.{Text, codes, text_eq, trim, among}
use cargo_execution_assistan.Canonical.{ai, human, sort_by}
use cargo_execution_assistan.Validation.Entry.{CanonicalEntryRecord, entry_fields, get}
use cargo_execution_assistan.Database.{
  Database, CaseState, resolved, rejected, DecisionType, approve, edit_approve, reject,
  RecommendationStatus, pending, available, unavailable, RecommendationRow, ProposedValue,
  ResolutionValue, Thrown, read_invariant, recommendation_not_available, reason_required,
  resolution_values_not_allowed, resolution_values_incomplete, request_malformed,
}
use cargo_execution_assistan.Audit.{AuditAppendValue, is_empty}
unfoldable pub use cargo_execution_assistan.Decision.Planning.Values.*

-- The variables that step 5 of `runDecision` sets.
pub record Plan : Type 0 where
  pub resolution_values : List ResolutionValue
  pub audit_values : List AuditAppendValue
  pub resulting_state : CaseState
  pub reason : Option Text
  pub action_type : String

-- `loadRecommendationValues`. The order of field names is that of code units, which no collation
-- changes for the fields of an entry.
abbrev pub load_recommendation_values : Text → Database → List ProposedValue
load_recommendation_values id db =
    sort_by (λ p. p.field_name)
      (keep_if (λ p. text_eq p.recommendation_id id) db.recommendation_values)

-- `auditRowFor`
abbrev pub audit_row_for : ResolutionValue → AuditAppendValue
audit_row_for v = record {
  field_name = v.field_name;
  before_value = v.prior_value;
  before_origin = v.prior_origin;
  after_value = some v.value;
  after_origin = some v.origin;
}

-- The proposal adopted as it is.
abbrev pub adopted : ProposedValue → ResolutionValue
adopted p = record {
  field_name = p.field_name;
  value = p.proposed_value;
  origin = ai;
  prior_value = some p.proposed_value;
  prior_origin = some ai;
  changed_from_proposal = false;
}

-- The audit row of a proposal that is declined.
abbrev pub declined : ProposedValue → AuditAppendValue
declined p = record {
  field_name = p.field_name;
  before_value = some p.proposed_value;
  before_origin = some ai;
  after_value = none;
  after_origin = none;
}

abbrev pub is_available : RecommendationStatus → Bool
is_available pending = false
is_available available = true
is_available unavailable = false

abbrev pub plan_approve : Database → RecommendationRow → DecisionCreateRequest → Result Thrown Plan
plan_approve db recommendation body = do
  guard (is_available recommendation.status) recommendation_not_available
  throw_if (is_some body.resolution_values) resolution_values_not_allowed
  reason ← validate_reason body.reason false
  ok (record {
    resolution_values = map adopted (load_recommendation_values recommendation.id db);
    audit_values =
        map audit_row_for (map adopted (load_recommendation_values recommendation.id db));
    resulting_state = resolved;
    reason = reason;
    action_type = "RECOMMENDATION_APPROVED";
  })

-- An edit with at least one value.
abbrev pub plan_edit :
    Database → RecommendationRow → Text → List Submitted → Option Text → Result Thrown Plan
plan_edit db recommendation entry_id submitted reason = do
  assert_no_duplicate_fields [] submitted
  values ←
      (if is_available recommendation.status
        then edit_approve_against_proposal submitted
            (load_recommendation_values recommendation.id db)
        else edit_approve_direct db submitted entry_id)
  ok (record {
    resolution_values = values;
    audit_values = map audit_row_for values;
    resulting_state = resolved;
    reason = reason;
    action_type = "RECOMMENDATION_EDITED_AND_APPROVED";
  })

abbrev pub plan_edit_approve :
    Database → RecommendationRow → Text → DecisionCreateRequest → Result Thrown Plan
plan_edit_approve db recommendation entry_id body = do
  reason ← validate_reason body.reason true
  elim body.resolution_values [
    | none ↦ err (resolution_values_incomplete (codes "(at least one field)" ∷ []) [])
    | some [] ↦ err (resolution_values_incomplete (codes "(at least one field)" ∷ []) [])
    | some (s ∷ rest) ↦ plan_edit db recommendation entry_id (s ∷ rest) reason
  ]

abbrev pub plan_reject : Database → RecommendationRow → DecisionCreateRequest → Result Thrown Plan
plan_reject db recommendation body = do
  reason ← validate_reason body.reason true
  throw_if (is_some body.resolution_values) resolution_values_not_allowed
  ok (record {
    resolution_values = [];
    audit_values =
        (if is_available recommendation.status
          then map declined (load_recommendation_values recommendation.id db)
          else []);
    resulting_state = rejected;
    reason = reason;
    action_type = "RECOMMENDATION_REJECTED";
  })

-- Step 5 of `runDecision`.
unfoldable pub make_plan :
    Database → RecommendationRow → Text → DecisionCreateRequest → Result Thrown Plan
make_plan db recommendation entry_id body = elim body.decision_type [
  | approve ↦ plan_approve db recommendation body
  | edit_approve ↦ plan_edit_approve db recommendation entry_id body
  | reject ↦ plan_reject db recommendation body
]
