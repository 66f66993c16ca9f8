-- ===== src/Validation/Engine/Shape.antt =====
-- server/src/services/validation/engine.ts: the shape of every evaluation that returns.
use cargo_execution_assistan.Prelude.{
  ◌≤◌, ◌≡◌, refl, ◌↔◌, true, List, [], ◌∷◌, ap, ok, >>=-eq-ok, length, All, arith,
}
use cargo_execution_assistan.Text.{Text}
use cargo_execution_assistan.Validation.Entry.{CanonicalEntryRecord, is_entry_field}
use cargo_execution_assistan.Validation.Rule.{RuleDefinition, Finding, pass, ValidationEvaluation}
use cargo_execution_assistan.Validation.Engine.{started, evaluate_from, outcome_of, evaluate}
use cargo_execution_assistan.Validation.Engine.Loop.{ids, evaluate_from-Grows, InOrder}
use cargo_execution_assistan.Validation.Engine.Exact.{finding_ids}

-- What every evaluation that returns has, whatever the rules: the outcome is PASS exactly without
-- findings, the findings stand in the order of the registry, no rule is reported twice, each names
-- an entry field, and the count lies between the number of findings and the number of rules.
pub record IsWellFormed (rules : List RuleDefinition) (e : ValidationEvaluation) : Type 0 where
  pub passes : (e.outcome ≡ pass) ↔ (e.findings ≡ [])
  pub in_order : InOrder (finding_ids e.findings) (ids rules)
  pub fields : All (λ f. is_entry_field f.field_name ≡ true) e.findings
  pub at_least : length e.findings ≤ e.rules_evaluated_count
  pub at_most : e.rules_evaluated_count ≤ length rules

outcome_iff : (fs : List Finding) → (outcome_of fs ≡ pass) ↔ (fs ≡ [])
outcome_iff [] = (λ _. refl, λ _. refl)
outcome_iff (f ∷ fs) = (λ h. cc, λ h. cc)

-- An evaluation that returns has an outcome of PASS exactly without findings; its findings stand in
-- the order of the registry and name entry fields; and the count of evaluated rules lies between
-- the number of findings and the number of rules.
pub evaluate-IsWellFormed :
    (r : CanonicalEntryRecord) (received_at : Text) (rules : List RuleDefinition)
    (e : ValidationEvaluation)
    → evaluate r received_at rules ≡ ok e
    → IsWellFormed rules e
unfolding evaluate
evaluate-IsWellFormed r received_at rules e h =
    let (q, eq, h1) = >>=-eq-ok (evaluate_from r received_at rules started) _ h in
    let g = evaluate_from-Grows r received_at rules started q eq in
    let same : e.findings ≡ g.added = ground (arith, g.findings) in
    let counted : e.rules_evaluated_count ≡ q.rules_evaluated_count = ground arith in
    let outcome : e.outcome ≡ outcome_of e.findings = ground arith in
    record {
      passes = rw outcome (outcome_iff e.findings);
      in_order = rw same g.in_order;
      fields = rw same g.fields;
      at_least = omega (arith, g.at_least, counted, ap length same);
      at_most = omega (arith, g.at_most, counted);
    }
