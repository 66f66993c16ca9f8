-- ===== src/Decision/Tests.antt =====
-- The theorems on the decision, applied to an edit of the sample database.
use cargo_execution_assistan.Prelude.{
  ◌≡◌, refl, ◌⊎◌, false, Option, none, some, List, [], ◌∷◌, ok, err, find, map, Kept,
}
use cargo_execution_assistan.Text.{Text, codes, text_eq, trim}
use cargo_execution_assistan.Text.Encoding.{utf8, json_string, iso_string, code_points}
use cargo_execution_assistan.Text.Regex.{matches}
use cargo_execution_assistan.Canonical.{
  ai, canonical_json, payload, compute_entry_hash, to_microsecond_rfc3339,
}
use cargo_execution_assistan.Database.{
  Database, Session, SpecialistRow, approve, edit_approve, reject, open_state, available,
  RecommendationRow, already_decided, resolution_values_incomplete, commit, with_transaction,
  audit_check_chain, has_human_decision, has_one_audit_entry, ProposedValue, ResolutionValue,
  resolved,
}
use cargo_execution_assistan.Audit.{
  append, validate, validate_actor, check_reason, normalise_values, normalise_value, link_at,
  insert_audit_entry, audit_constraints, reason_allowed,
}
use cargo_execution_assistan.Audit.Secrets.{is_secret_field_name, is_secret_value}
use cargo_execution_assistan.Audit.Chain.{IsChained}
use cargo_execution_assistan.Decision.{
  must_be_open, open_exception, current_recommendation, carry_out, run_decision, replay,
  record_decision,
}
use cargo_execution_assistan.Decision.Planning.{
  DecisionCreateRequest, Submitted, Plan, validate_reason, assert_no_duplicate_fields,
  values_against, edit_approve_against_proposal, make_plan,
}
use cargo_execution_assistan.Decision.Write.{
  insert_decision, decision_constraints, insert_decision_values, value_constraints, close_case,
}
use cargo_execution_assistan.Decision.Replay.{
  Decided, DecisionRecordResponse, load_decision_by_exception, load_decision_by_idempotency_key,
  decision_matches_replay, assemble_replay_response,
}
use cargo_execution_assistan.Decision.Lawful.{IsLawful, make_plan-IsLawful}
use cargo_execution_assistan.Decision.Recorded.{
  IsRecorded, record_decision-IsRecorded, record_decision-IsChained,
}
use cargo_execution_assistan.Decision.Once.{record_decision-once}
use cargo_execution_assistan.Decision.Accepted.{run_decision-commit}
use cargo_execution_assistan.Decision.Origins.{
  AllAttributed, SameFields, IsSubmitted, IsOffered, edit_approve_against_proposal_lem,
}
use cargo_execution_assistan.Decision.Idempotent.{IsReplayed, record_decision-replay}
use cargo_execution_assistan.Sample.{checksum, database, ada, supply, edit, rejection, from_ok}

-- Opens the transaction for a test.
transaction : Unit {0}
unfolding record_decision with_transaction run_decision commit open_exception must_be_open
    current_recommendation make_plan validate_reason assert_no_duplicate_fields values_against
    edit_approve_against_proposal carry_out insert_decision decision_constraints
    insert_decision_values value_constraints close_case append validate validate_actor check_reason
    normalise_values normalise_value is_secret_field_name is_secret_value matches link_at
    insert_audit_entry audit_constraints reason_allowed compute_entry_hash canonical_json payload
    json_string utf8 to_microsecond_rfc3339 iso_string trim code_points audit_check_chain
    has_human_decision has_one_audit_entry load_decision_by_idempotency_key replay
    decision_matches_replay assemble_replay_response load_decision_by_exception
transaction = tt

abbrev key : Option Text
key = some (codes "k1")

abbrev nothing : DecisionRecordResponse
nothing = record {
  decision_id = [];
  decision_type = reject;
  decided_at = [];
  decided_by = ada;
  reason = none;
  resolution_values = [];
  exception_id = [];
  exception_state = open_state;
  closed_at = none;
  audit_entry_id = [];
  idempotent_replay = false;
}

abbrev outcome : DecisionRecordResponse × Database
outcome =
    from_ok (nothing, database)
      (record_decision checksum supply ada none (codes "x1") edit key database)

key-fresh : load_decision_by_idempotency_key (codes "x1") key database ≡ none
unfolding load_decision_by_idempotency_key
key-fresh = refl

record_decision-edit :
    record_decision checksum supply ada none (codes "x1") edit key database
    ≡ ok (outcome.0, outcome.1)
unfolding transaction
record_decision-edit = refl

-- The edit is closed as resolved, and its value counts as the AI's.
edit-resolved : outcome.0.exception_state ≡ resolved
unfolding transaction
edit-resolved = refl

record_decision-IsRecorded_example :
    IsRecorded checksum supply ada none edit key (codes "x1") outcome.0 database outcome.1
record_decision-IsRecorded_example =
    record_decision-IsRecorded checksum supply ada none edit key (codes "x1") outcome.0 database
      outcome.1 key-fresh record_decision-edit

database-IsChained : IsChained checksum database
database-IsChained case_id = tt

record_decision-IsChained_example : IsChained checksum outcome.1
record_decision-IsChained_example =
    record_decision-IsChained checksum supply ada none edit key (codes "x1") outcome.0 database
      outcome.1 database-IsChained key-fresh record_decision-edit

no_key-fresh : load_decision_by_idempotency_key (codes "x1") none outcome.1 ≡ none
unfolding load_decision_by_idempotency_key
no_key-fresh = refl

-- A rejection without a key comes too late.
record_decision-once_example :
    (author : SpecialistRow) × (find (λ s. text_eq s.id (codes "s1")) database.specialists
      ≡ some author)
    × (record_decision checksum supply ada none (codes "x1") rejection none outcome.1
        ≡ err (already_decided edit_approve author.display_name (iso_string 1789137127512)))
record_decision-once_example =
    record_decision-once checksum supply ada none edit key (codes "x1") outcome.0 database outcome.1
      supply ada none rejection none key-fresh record_decision-edit no_key-fresh

abbrev carrier_proposal : List ProposedValue
carrier_proposal = database.recommendation_values

abbrev carrier : List Submitted
carrier = record { field_name = codes "carrier_code"; value = codes "MAEU " } ∷ []

edit_approve_against_proposal_example :
    ((vs : List ResolutionValue) × (edit_approve_against_proposal carrier carrier_proposal ≡ ok vs)
      × SameFields carrier carrier_proposal
      × AllAttributed carrier_proposal carrier vs)
    ⊎ ((missing : List Text) × (unexpected : List Text) × (edit_approve_against_proposal carrier
            carrier_proposal
          ≡ err (resolution_values_incomplete missing unexpected))
        × (¬ SameFields carrier carrier_proposal)
        × Kept (λ f. ¬ IsSubmitted carrier f) (map (λ p. p.field_name) carrier_proposal) missing
        × Kept (λ f. ¬ IsOffered carrier_proposal f) (map (λ s. s.field_name) carrier) unexpected)
edit_approve_against_proposal_example = edit_approve_against_proposal_lem carrier carrier_proposal

abbrev recommended : RecommendationRow
recommended = record { id = codes "r1"; exception_id = codes "x1"; status = available }

abbrev approval : DecisionCreateRequest
approval = record {
  decision_type = approve;
  reason = none;
  recommendation_id = none;
  resolution_values = none;
}

abbrev approving : Plan
approving = record {
  resolution_values =
      record {
        field_name = codes "carrier_code";
        value = codes "MAEU";
        origin = ai;
        prior_value = some (codes "MAEU");
        prior_origin = some ai;
        changed_from_proposal = false;
      }
      ∷ [];
  audit_values =
      record {
        field_name = codes "carrier_code";
        before_value = some (codes "MAEU");
        before_origin = some ai;
        after_value = some (codes "MAEU");
        after_origin = some ai;
      }
      ∷ [];
  resulting_state = resolved;
  reason = none;
  action_type = "RECOMMENDATION_APPROVED";
}

make_plan-approval : make_plan database recommended (codes "e1") approval ≡ ok approving
unfolding make_plan validate_reason
make_plan-approval = refl

make_plan-IsLawful_example : IsLawful database recommended (codes "e1") approval approving
make_plan-IsLawful_example =
    make_plan-IsLawful database recommended (codes "e1") approval approving make_plan-approval

-- The same request again, with the same key.
abbrev again : DecisionRecordResponse × Database
again =
    from_ok (nothing, database)
      (record_decision checksum supply ada none (codes "x1") edit key outcome.1)

abbrev recorded : Decided
recorded = record {
  row = record {
    id = codes "d1";
    exception_id = codes "x1";
    decision_type = edit_approve;
    decided_by = codes "s1";
    decided_at = 1789137127512;
    reason = some (codes "checked with the carrier");
    recommendation_id = codes "r1";
    resulting_state = resolved;
    idempotency_key = key;
  };
  decided_by_display_name = codes "Ada";
}

key-recorded : load_decision_by_idempotency_key (codes "x1") key outcome.1 ≡ some recorded
unfolding transaction
key-recorded = refl

record_decision-again :
    record_decision checksum supply ada none (codes "x1") edit key outcome.1 ≡ ok (again.0, again.1)
unfolding transaction
record_decision-again = refl

record_decision-replay_example :
    (recorded.row.exception_id ≡ codes "x1")
    × (recorded.row.idempotency_key ≡ key)
    × IsReplayed recorded outcome.1 edit again.0 again.1
record_decision-replay_example =
    record_decision-replay checksum supply ada none (codes "x1") edit key outcome.1 recorded again.0
      again.1 key-recorded record_decision-again

abbrev run : DecisionRecordResponse × Session
run =
    from_ok (nothing, record { db = database; pending = [] })
      (run_decision checksum supply ada none (codes "x1") edit key
        (record { db = database; pending = [] }))

run_decision-edit :
    run_decision checksum supply ada none
      (codes "x1")
      edit
      key
      (record { db = database; pending = [] })
    ≡ ok (run.0, run.1)
unfolding transaction
run_decision-edit = refl

run_decision-commit_example : commit run.1 ≡ ok run.1.db
run_decision-commit_example =
    run_decision-commit checksum supply ada none edit key database (codes "x1") run.0 run.1 refl
      run_decision-edit
