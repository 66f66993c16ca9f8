-- ===== src/Validation/Engine/Loop.antt =====
-- server/src/services/validation/engine.ts: what one round of the loop does, and what a run of
-- the loop leaves as it was.
use cargo_execution_assistan.Prelude.{
  ◌+◌, ◌≤◌, ◌≡◌, refl, ◌⊎◌, inl, inr, String, true, false, List, [], ◌∷◌, ◌++◌, map, Result, ok,
  err, >>=-eq-ok, has, length, All, arith, Bool-cases, append-nil, append_assoc, ◌∙◌, ap, eq_iff,
}
use cargo_execution_assistan.Text.{Text}
use cargo_execution_assistan.Validation.Entry.{CanonicalEntryRecord, is_entry_field}
use cargo_execution_assistan.Validation.Rule.{RuleDefinition, Finding}
use cargo_execution_assistan.Validation.Engine.{
  is_gated, call_guarded, declared, Progress, resolve_field, resolve_message, report, assess, step,
  evaluate_from,
}

abbrev pub ids : List RuleDefinition → List String
ids rules = map (λ rule. rule.rule_id) rules

-- The rule concerns the record, and the record does not satisfy it.
abbrev pub IsUnsatisfied : CanonicalEntryRecord → Text → RuleDefinition → Type 0
IsUnsatisfied r received_at rule =
    (rule.applicable r ≡ ok true) × (rule.satisfied r received_at ≡ ok false)

module _ (r : CanonicalEntryRecord) (received_at : Text) where
  -- A round that reports its rule.
  pub record IsReported (rule : RuleDefinition) (p q : Progress) : Type 0 where
    pub ungated : is_gated rule.requires_passed p.failed ≡ false
    pub unsatisfied : IsUnsatisfied r received_at rule
    pub finding : Finding
    pub finding_id : finding.rule_id ≡ rule.rule_id
    pub finding_field : resolve_field rule r ≡ ok finding.field_name
    pub failed : q.failed ≡ p.failed ++ rule.rule_id ∷ []
    pub findings : q.findings ≡ p.findings ++ finding ∷ []
    pub counted : q.rules_evaluated_count ≡ p.rules_evaluated_count + 1

  -- A round that does not.
  pub record IsQuiet (rule : RuleDefinition) (p q : Progress) : Type 0 where
    pub reason :
        (is_gated rule.requires_passed p.failed ≡ true) ⊎ (¬ IsUnsatisfied r received_at rule)
    pub failed : q.failed ≡ p.failed
    pub findings : q.findings ≡ p.findings
    pub counted_from : p.rules_evaluated_count ≤ q.rules_evaluated_count
    pub counted_to : q.rules_evaluated_count ≤ p.rules_evaluated_count + 1

  report_lem :
      (rule : RuleDefinition) (p q : Progress)
      → report r rule p ≡ ok q
      → is_gated rule.requires_passed p.failed ≡ false
      → IsUnsatisfied r received_at rule
      → IsReported rule p q
  unfolding report
  report_lem rule p q h g u =
      let (field, ef, h') = >>=-eq-ok (resolve_field rule r) _ h in
      let (message, em, e) = >>=-eq-ok (resolve_message rule r) _ h' in
      record {
        ungated = g;
        unsatisfied = u;
        finding = record {
          rule_id = rule.rule_id;
          field_name = field;
          failure_code = rule.failure_code;
          message = message;
        };
        finding_id = refl;
        finding_field = ef;
        failed = ground arith;
        findings = ground arith;
        counted = ground arith;
      }

  call_guarded-eq-ok :
      {A : Type 0} (rule : RuleDefinition) (m : Result Text A) {a : A}
      → call_guarded rule m ≡ ok a
      → m ≡ ok a
  call_guarded-eq-ok rule (ok b) h = cc
  call_guarded-eq-ok rule (err e) h = cc

  quiet :
      (rule : RuleDefinition) (p q : Progress)
      → (is_gated rule.requires_passed p.failed ≡ true) ⊎ (¬ IsUnsatisfied r received_at rule)
      → (q ≡ p) ⊎ (q ≡ record p { rules_evaluated_count = p.rules_evaluated_count + 1 })
      → IsQuiet rule p q
  quiet rule p q reason e = record {
    reason = reason;
    failed = ground arith;
    findings = ground arith;
    counted_from = ground arith;
    counted_to = ground arith;
  }

  assess_lem :
      (rule : RuleDefinition) (p q : Progress)
      → assess r received_at rule p ≡ ok q
      → is_gated rule.requires_passed p.failed ≡ false
      → rule.applicable r ≡ ok true
      → IsQuiet rule p q ⊎ IsReported rule p q
  unfolding assess
  assess_lem rule p q h g ea =
      let (satisfied, es, h1) = >>=-eq-ok (call_guarded rule (rule.satisfied r received_at)) _ h in
      let es' = call_guarded-eq-ok rule (rule.satisfied r received_at) es in
      elim (Bool-cases satisfied) [
        | inl holds ↦ inl (quiet rule p q (inr (λ u. ground arith)) (inr (ground arith)))
        | inr fails ↦ inr (report_lem rule p q (rw fails at h1) g (ea, rw fails at es'))
      ]

  pub step_lem :
      (rule : RuleDefinition) (p q : Progress)
      → step r received_at rule p ≡ ok q
      → IsQuiet rule p q ⊎ IsReported rule p q
  unfolding step
  step_lem rule p q h = elim (Bool-cases (is_gated rule.requires_passed p.failed)) [
    | inl gated ↦ inl (quiet rule p q (inl gated) (inl (ground arith)))
    | inr open_gate ↦
        let (applicable, ea, h1) =
          >>=-eq-ok (call_guarded rule (rule.applicable r)) _ (rw open_gate at h) in
        let ea' = call_guarded-eq-ok rule (rule.applicable r) ea in
        elim (Bool-cases applicable) [
          | inl applies ↦ assess_lem rule p q (rw applies at h1) open_gate (rw applies at ea')
          | inr other ↦ inl (quiet rule p q (inr (λ u. ground arith)) (inl (ground arith)))
        ]
  ]

-- The first list is the second one with some members left out.
pub data InOrder : List String → List String → Type 0 where
  done : InOrder [] []
  skip : {xs ys : List String} (y : String) → InOrder xs ys → InOrder xs (y ∷ ys)
  keep : {xs ys : List String} {x y : String} → x ≡ y → InOrder xs ys → InOrder (x ∷ xs) (y ∷ ys)

resolve_field-is_entry_field :
    (rule : RuleDefinition) (r : CanonicalEntryRecord) {name : String}
    → resolve_field rule r ≡ ok name
    → is_entry_field name ≡ true
unfolding resolve_field
resolve_field-is_entry_field rule r {name} h =
    let (resolved, e, h1) = >>=-eq-ok (call_guarded rule (declared rule.primary_field r)) _ h in
    elim (Bool-cases (is_entry_field resolved)) [
      | inl member ↦
          let same : resolved ≡ name = (let h2 = rw member at h1 in cc) in rw same at member
      | inr stranger ↦ let h2 = rw stranger at h1 in cc
    ]

-- What is added to the findings on the way is from the rules that are left.
module _ (r : CanonicalEntryRecord) (received_at : Text) where
  pub record Grows (rules : List RuleDefinition) (p q : Progress) : Type 0 where
    pub added : List Finding
    pub failed : q.failed ≡ p.failed ++ map (λ f. f.rule_id) added
    pub findings : q.findings ≡ p.findings ++ added
    pub listed : All (λ f. has f.rule_id (ids rules) ≡ true) added
    pub in_order : InOrder (map (λ f. f.rule_id) added) (ids rules)
    pub fields : All (λ f. is_entry_field f.field_name ≡ true) added
    pub at_least : p.rules_evaluated_count + length added ≤ q.rules_evaluated_count
    pub at_most : q.rules_evaluated_count ≤ p.rules_evaluated_count + length rules

  listed-cons :
      (k : String) (ks : List String) (fs : List Finding)
      → All (λ f. has f.rule_id ks ≡ true) fs
      → All (λ f. has f.rule_id (k ∷ ks) ≡ true) fs
  listed-cons k ks [] h = tt
  listed-cons k ks (f ∷ fs) h = (ground arith, listed-cons k ks fs h.1)

  pub evaluate_from-Grows :
      (rules : List RuleDefinition) (p q : Progress)
      → evaluate_from r received_at rules p ≡ ok q
      → Grows rules p q
  unfolding evaluate_from
  evaluate_from-Grows [] p q h = record {
    added = [];
    failed = ground (arith, append-nil p.failed);
    findings = ground (arith, append-nil p.findings);
    listed = tt;
    in_order = done;
    fields = tt;
    at_least = ground arith;
    at_most = ground arith;
  }
  evaluate_from-Grows (rule ∷ rules) p q h =
      let (m, e, h1) = >>=-eq-ok (step r received_at rule p) _ h in
      let g = evaluate_from-Grows rules m q h1 in
      let later = listed-cons rule.rule_id (ids rules) g.added g.listed in
      elim (step_lem r received_at rule p m e) [
        | inl s ↦ record {
          added = g.added;
          failed = g.failed ∙ ap (λ x. x ++ map (λ f. f.rule_id) g.added) s.failed;
          findings = g.findings ∙ ap (λ x. x ++ g.added) s.findings;
          listed = later;
          in_order = skip rule.rule_id g.in_order;
          fields = g.fields;
          at_least = omega (arith, g.at_least, s.counted_from);
          at_most = omega (arith, g.at_most, s.counted_to);
        }
        | inr s ↦ record {
          added = s.finding ∷ g.added;
          failed =
              g.failed
              ∙ ground (
                arith,
                s.failed,
                s.finding_id,
                append_assoc p.failed (rule.rule_id ∷ []) (map (λ f. f.rule_id) g.added),
              );
          findings =
              g.findings
              ∙ ground (arith, s.findings, append_assoc p.findings (s.finding ∷ []) g.added);
          listed = (ground (arith, s.finding_id, eq_iff s.finding.rule_id rule.rule_id), later);
          in_order = keep s.finding_id g.in_order;
          fields = (resolve_field-is_entry_field rule r s.finding_field, g.fields);
          at_least = omega (arith, g.at_least, s.counted);
          at_most = omega (arith, g.at_most, s.counted);
        }
      ]
