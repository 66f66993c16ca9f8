-- ===== src/Validation/Assessment.antt =====
-- server/src/services/validation: the engine over the program's own rules.
use cargo_execution_assistan.Prelude.{ℕ, ◌≡◌, ◌<◌, refl, ◌↔◌, some, ok, All}
use cargo_execution_assistan.Text.{Text, Platform}
use cargo_execution_assistan.Validation.Entry.{CanonicalEntryRecord}
use cargo_execution_assistan.Validation.Calendar.Format.{IsRealDate}
use cargo_execution_assistan.Validation.Rule.{ValidationEvaluation, pass, rule_set_version}
use cargo_execution_assistan.Validation.Rules.{rules}
use cargo_execution_assistan.Validation.Engine.{started, evaluate_from, evaluate, outcome_of}
use cargo_execution_assistan.Validation.Engine.Exact.{IsExact, finding_ids, evaluate-IsExact}
use cargo_execution_assistan.Validation.Engine.Clean.{IsClean, evaluate-pass_iff}
use cargo_execution_assistan.Validation.Totality.{
  returned, evaluate_from-total, rules-IsOrdered, rules-IsTotal,
}

-- At a receipt time with a real UTC date the program's rules never throw: the evaluation of any
-- entry returns. It reports a rule exactly when it concerns the entry, is not satisfied and
-- requires no reported rule; and its outcome is PASS exactly when every rule that concerns the entry
-- is satisfied.
pub evaluate-rules :
    (p : Platform) (r : CanonicalEntryRecord) (received_at : Text) (y m d : ℕ)
    → p.utc_date received_at ≡ some (y, m, d)
    → y < 10000
    → IsRealDate y m d
    → (e : ValidationEvaluation) × (evaluate r received_at (rules p) ≡ ok e)
      × All (IsExact r received_at (finding_ids e.findings)) (rules p)
      × ((e.outcome ≡ pass) ↔ IsClean r received_at (rules p))
unfolding evaluate
evaluate-rules p r received_at y m d h b real =
    let (q, found) = returned (evaluate_from r received_at (rules p) started) (
      evaluate_from-total r received_at (rules p) started
        (rules-IsTotal p received_at y m d r h b real)) in
    let e : ValidationEvaluation = record {
      outcome = outcome_of q.findings;
      rule_set_version = rule_set_version;
      rules_evaluated_count = q.rules_evaluated_count;
      findings = q.findings;
    } in
    let done : evaluate r received_at (rules p) ≡ ok e = rw (found, evaluate) refl in
    (
      e,
      done,
      evaluate-IsExact r received_at (rules p) e (rules-IsOrdered p) done,
      evaluate-pass_iff r received_at (rules p) e (rules-IsOrdered p) done,
    )
