-- ===== src/Validation/Engine.antt =====
-- server/src/services/validation/engine.ts: every rule that is applicable and not gated is evaluated
-- and reported if it is not satisfied. A thrown error ends the evaluation.
pub mod Loop
pub mod Exact
pub mod Shape
pub mod Clean
use cargo_execution_assistan.Prelude.{
  ℕ, ◌+◌, String, Bool, true, false, ◌||◌, not, List, [], ◌∷◌, ◌++◌, Result, ok, err, ◌>>=◌, ◌>>◌,
  guard, has, if◌then◌else◌,
}
use cargo_execution_assistan.Text.{Text, codes}
use cargo_execution_assistan.Validation.Entry.{CanonicalEntryRecord, is_entry_field}
use cargo_execution_assistan.Validation.Rule.{
  rule_set_version, Declared, fixed, computed, RuleDefinition, Finding, Outcome, pass, fail,
  ValidationEvaluation,
}

-- Its `code` is VALIDATION_ENGINE_FAILURE; `detail` is the message behind the rule's id.
pub record ValidationEngineError : Type 0 where
  pub rule_id : String
  pub detail : Text

-- `isGated`
abbrev pub is_gated : List String → List String → Bool
is_gated [] failed = false
is_gated (dep ∷ deps) failed = has dep failed || is_gated deps failed

-- `callGuarded`, for the result of the call.
abbrev pub call_guarded :
    {A : Type 0} → RuleDefinition → Result Text A → Result ValidationEngineError A
call_guarded rule (ok a) = ok a
call_guarded rule (err message) =
    err (record { rule_id = rule.rule_id; detail = codes "predicate threw: " ++ message })

abbrev pub declared : {A : Type 0} → Declared A → CanonicalEntryRecord → Result Text A
declared (fixed a) r = ok a
declared (computed f) r = f r

unfoldable pub resolve_field :
    RuleDefinition → CanonicalEntryRecord → Result ValidationEngineError String
resolve_field rule r = do
  resolved ← call_guarded rule (declared rule.primary_field r)
  guard (is_entry_field resolved) (record {
    rule_id = rule.rule_id;
    detail =
        codes "resolved field_name \""
        ++ (codes resolved ++ codes "\" is not a member of ENTRY_FIELDS");
  })
  ok resolved

unfoldable pub resolve_message :
    RuleDefinition → CanonicalEntryRecord → Result ValidationEngineError Text
resolve_message rule r = call_guarded rule (declared rule.message r)

-- The variables of the loop of `evaluate`: the set `failed`, kept as a list, the findings in the
-- order in which they are pushed, and the count.
pub record Progress : Type 0 where
  pub failed : List String
  pub findings : List Finding
  pub rules_evaluated_count : ℕ

-- What the loop does with an unsatisfied rule.
unfoldable pub report :
    CanonicalEntryRecord → RuleDefinition → Progress → Result ValidationEngineError Progress
unfolding resolve_field resolve_message
report r rule p = do
  field_name ← resolve_field rule r
  message ← resolve_message rule r
  ok (record {
    failed = p.failed ++ rule.rule_id ∷ [];
    findings =
        p.findings
        ++ record {
          rule_id = rule.rule_id;
          field_name = field_name;
          failure_code = rule.failure_code;
          message = message;
        }
          ∷ [];
    rules_evaluated_count = p.rules_evaluated_count + 1;
  })

-- The part of a round that evaluates its rule.
unfoldable pub assess :
    CanonicalEntryRecord → Text → RuleDefinition → Progress → Result ValidationEngineError Progress
assess r received_at rule p = do
  satisfied ← call_guarded rule (rule.satisfied r received_at)
  if satisfied
      then ok (record p { rules_evaluated_count = p.rules_evaluated_count + 1 })
      else report r rule p

-- A round of the loop: a gated rule and one that is not applicable are passed over.
unfoldable pub step :
    CanonicalEntryRecord → Text → RuleDefinition → Progress → Result ValidationEngineError Progress
step r received_at rule p = if is_gated rule.requires_passed p.failed then ok p else (do
  applicable ← call_guarded rule (rule.applicable r)
  if not applicable then ok p else assess r received_at rule p)

unfoldable pub evaluate_from :
    CanonicalEntryRecord
    → Text
    → List RuleDefinition
    → Progress
    → Result ValidationEngineError Progress
evaluate_from r received_at [] p = ok p
evaluate_from r received_at (rule ∷ rules) p =
    step r received_at rule p >>= λ q. evaluate_from r received_at rules q

abbrev pub started : Progress
started = record { failed = []; findings = []; rules_evaluated_count = 0 }

abbrev pub outcome_of : List Finding → Outcome
outcome_of [] = pass
outcome_of (_ ∷ _) = fail

unfoldable pub evaluate :
    CanonicalEntryRecord
    → Text
    → List RuleDefinition
    → Result ValidationEngineError ValidationEvaluation
evaluate r received_at rules = do
  p ← evaluate_from r received_at rules started
  ok (record {
    outcome = outcome_of p.findings;
    rule_set_version = rule_set_version;
    rules_evaluated_count = p.rules_evaluated_count;
    findings = p.findings;
  })
