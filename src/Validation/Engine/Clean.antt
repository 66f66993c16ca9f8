-- ===== src/Validation/Engine/Clean.antt =====
-- server/src/services/validation/engine.ts: the entries that pass.
use cargo_execution_assistan.Prelude.{
  ◌≡◌, refl, ◌↔◌, inl, inr, String, true, false, List, [], ◌∷◌, subst, ok, >>=-eq-ok, has, All,
  arith, Bool-cases, eq_iff,
}
use cargo_execution_assistan.Text.{Text}
use cargo_execution_assistan.Validation.Entry.{CanonicalEntryRecord}
use cargo_execution_assistan.Validation.Rule.{RuleDefinition, Finding, pass, ValidationEvaluation}
use cargo_execution_assistan.Validation.Engine.{is_gated, started, evaluate_from, evaluate}
use cargo_execution_assistan.Validation.Engine.Loop.{ids, IsUnsatisfied, evaluate_from-Grows}
use cargo_execution_assistan.Validation.Engine.Exact.{
  finding_ids, IsOrdered, IsExact, evaluate-IsExact,
}
use cargo_execution_assistan.Validation.Engine.Shape.{evaluate-IsWellFormed}

-- Every rule that concerns the record is satisfied.
abbrev pub IsClean : CanonicalEntryRecord → Text → List RuleDefinition → Type 0
IsClean r received_at rules = All (λ rule. ¬ IsUnsatisfied r received_at rule) rules

no_gates : (deps : List String) → is_gated deps [] ≡ false
no_gates [] = refl
no_gates (d ∷ deps) = no_gates deps

IsClean-of_no_findings :
    (r : CanonicalEntryRecord) (received_at : Text) (rules : List RuleDefinition)
    → All (IsExact r received_at []) rules
    → IsClean r received_at rules
IsClean-of_no_findings r received_at [] h = tt
IsClean-of_no_findings r received_at (rule ∷ rules) h = (
  λ u. let hit = h.0.1 (no_gates rule.requires_passed, u) in cc,
  IsClean-of_no_findings r received_at rules h.1,
)

no_findings_of_clean :
    (r : CanonicalEntryRecord) (received_at : Text) (rules : List RuleDefinition)
    (fs : List Finding)
    → All (IsExact r received_at (finding_ids fs)) rules
    → IsClean r received_at rules
    → All (λ rule. has rule.rule_id (finding_ids fs) ≡ false) rules
no_findings_of_clean r received_at [] fs h c = tt
no_findings_of_clean r received_at (rule ∷ rules) fs h c = (
  elim (Bool-cases (has rule.rule_id (finding_ids fs))) [
    | inl hit ↦ absurd (c.0 (h.0.0 hit).1)
    | inr miss ↦ miss
  ],
  no_findings_of_clean r received_at rules fs h.1 c.1,
)

unreported :
    (k : String) (rules : List RuleDefinition) (failed : List String)
    → has k (ids rules) ≡ true
    → All (λ rule. has rule.rule_id failed ≡ false) rules
    → has k failed ≡ false
unreported k [] failed h c = cc
unreported k (rule ∷ rules) failed h c =
    ground (arith, eq_iff k rule.rule_id, unreported k rules failed)

none_reported :
    (fs : List Finding) (rules : List RuleDefinition)
    → All (λ f. has f.rule_id (ids rules) ≡ true) fs
    → All (λ rule. has rule.rule_id (finding_ids fs) ≡ false) rules
    → fs ≡ []
none_reported [] rules listed c = refl
none_reported (f ∷ fs) rules listed c =
    let miss = unreported f.rule_id rules (finding_ids (f ∷ fs)) listed.0 c in
    ground (arith, eq_iff f.rule_id f.rule_id)

-- In an ordered registry an evaluation that returns has the outcome PASS exactly when every rule
-- that concerns the record is satisfied.
pub evaluate-pass_iff :
    (r : CanonicalEntryRecord) (received_at : Text) (rules : List RuleDefinition)
    (e : ValidationEvaluation)
    → IsOrdered rules
    → evaluate r received_at rules ≡ ok e
    → (e.outcome ≡ pass) ↔ IsClean r received_at rules
unfolding evaluate
evaluate-pass_iff r received_at rules e o h =
    let exact = evaluate-IsExact r received_at rules e o h in
    let w = evaluate-IsWellFormed r received_at rules e h in
    let (q, eq, h1) = >>=-eq-ok (evaluate_from r received_at rules started) _ h in
    let g = evaluate_from-Grows r received_at rules started q eq in
    let same : e.findings ≡ g.added = ground (arith, g.findings) in
    let listed : All (λ f. has f.rule_id (ids rules) ≡ true) e.findings = rw same g.listed in
    (
      λ passed. IsClean-of_no_findings r received_at rules (
          subst (λ (fs : List Finding). All (IsExact r received_at (finding_ids fs)) rules)
            (w.passes.0 passed) exact),
      λ clean. w.passes.1 (
          none_reported e.findings rules listed
            (no_findings_of_clean r received_at rules e.findings exact clean)),
    )
