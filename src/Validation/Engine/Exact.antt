-- ===== src/Validation/Engine/Exact.antt =====
-- server/src/services/validation/engine.ts: the findings of a whole evaluation, stated without the
-- loop.
use cargo_execution_assistan.Prelude.{
  ◌≡◌, refl, ◌↔◌, ◌⊎◌, inl, inr, String, true, false, ◌||◌, List, [], ◌∷◌, ◌++◌, map, sym, ◌∙◌, ap,
  ok, >>=-eq-ok, has, All, arith, eq_iff,
}
use cargo_execution_assistan.Text.{Text}
use cargo_execution_assistan.Validation.Entry.{CanonicalEntryRecord}
use cargo_execution_assistan.Validation.Rule.{RuleDefinition, Finding, ValidationEvaluation}
use cargo_execution_assistan.Validation.Engine.{
  is_gated, Progress, started, step, evaluate_from, evaluate,
}
use cargo_execution_assistan.Validation.Engine.Loop.{
  ids, IsUnsatisfied, IsReported, IsQuiet, step_lem, Grows, evaluate_from-Grows,
}

abbrev pub finding_ids : List Finding → List String
finding_ids fs = map (λ f. f.rule_id) fs

-- A rule's id is not that of a later rule, and its gates are neither itself nor later rules.
abbrev pub IsOrdered : List RuleDefinition → Type 0
IsOrdered [] = Unit
IsOrdered (rule ∷ rules) =
    (has rule.rule_id (ids rules) ≡ false)
    × (is_gated rule.requires_passed (rule.rule_id ∷ ids rules) ≡ false)
    × IsOrdered rules

has-append : (k : String) (xs ys : List String) → has k (xs ++ ys) ≡ (has k xs || has k ys)
has-append k [] ys = refl
has-append k (x ∷ xs) ys = ground (arith, has-append k xs ys)

is_gated-append :
    (deps xs ys : List String) → is_gated deps (xs ++ ys) ≡ (is_gated deps xs || is_gated deps ys)
is_gated-append [] xs ys = refl
is_gated-append (d ∷ deps) xs ys = ground (arith, has-append d xs ys, is_gated-append deps xs ys)

-- An id outside the rules is not among findings that are theirs.
has-listed :
    (k : String) (ks : List String) (fs : List Finding)
    → has k ks ≡ false
    → All (λ f. has f.rule_id ks ≡ true) fs
    → has k (finding_ids fs) ≡ false
has-listed k ks [] h a = refl
has-listed k ks (f ∷ fs) h a = ground (arith, eq_iff k f.rule_id, has-listed k ks fs h a.1)

is_gated-listed :
    (deps ks : List String) (fs : List Finding)
    → is_gated deps ks ≡ false
    → All (λ f. has f.rule_id ks ≡ true) fs
    → is_gated deps (finding_ids fs) ≡ false
is_gated-listed [] ks fs h a = refl
is_gated-listed (d ∷ deps) ks fs h a =
    ground (arith, has-listed d ks fs, is_gated-listed deps ks fs)

-- No id of the rules has failed yet.
abbrev IsFresh : List String → List RuleDefinition → Type 0
IsFresh failed rules = All (λ rule. has rule.rule_id failed ≡ false) rules

IsFresh-append :
    (failed : List String) (k : String) (rules : List RuleDefinition)
    → has k (ids rules) ≡ false
    → IsFresh failed rules
    → IsFresh (failed ++ k ∷ []) rules
IsFresh-append failed k [] h a = tt
IsFresh-append failed k (rule ∷ rules) h a = (
  ground (
    arith,
    has-append rule.rule_id failed (k ∷ []),
    eq_iff k rule.rule_id,
    eq_iff rule.rule_id k,
  ),
  IsFresh-append failed k rules (ground arith) a.1,
)

module _ (r : CanonicalEntryRecord) (received_at : Text) where
  -- The rule is in the set of the failed ones exactly when it is due.
  abbrev pub IsExact : List String → RuleDefinition → Type 0
  IsExact failed rule =
      (has rule.rule_id failed ≡ true)
      ↔ ((is_gated rule.requires_passed failed ≡ false) × IsUnsatisfied r received_at rule)

  -- What the later rules add changes neither the rule's mark nor its gate.
  later_unseen :
      (rule : RuleDefinition) (rules : List RuleDefinition) (m q : Progress)
      → IsOrdered (rule ∷ rules)
      → Grows r received_at rules m q
      → (has rule.rule_id q.failed ≡ has rule.rule_id m.failed)
        × (is_gated rule.requires_passed q.failed ≡ is_gated rule.requires_passed m.failed)
  later_unseen rule rules m q o g =
      let deps = rule.requires_passed in
      let apart : is_gated deps (ids rules) ≡ false =
        ground (arith, is_gated-append deps (rule.rule_id ∷ []) (ids rules)) in
      (
        rw (g.failed, has-append, has-listed rule.rule_id (ids rules) g.added o.0 g.listed)
            (ground arith),
        rw (g.failed, is_gated-append, is_gated-listed deps (ids rules) g.added apart g.listed)
            (ground arith),
      )

  first-IsExact :
      (rule : RuleDefinition) (rules : List RuleDefinition) (p m q : Progress)
      → IsOrdered (rule ∷ rules)
      → has rule.rule_id p.failed ≡ false
      → IsQuiet r received_at rule p m ⊎ IsReported r received_at rule p m
      → Grows r received_at rules m q
      → IsExact q.failed rule
  first-IsExact rule rules p m q o fresh s g =
      let (same_mark, same_gate) = later_unseen rule rules m q o g in
      rw (same_mark, same_gate)
        (elim s [
          | inl quiet ↦ rw quiet.failed (
            λ e. cc,
            λ due. elim quiet.reason [ inl gated ↦ cc | inr held ↦ absurd (held due.1) ],
          )
          | inr reported ↦ (λ e. (open_gate reported, reported.unsatisfied), λ due. marked reported)
        ])
    where
      deps : List String
      deps = rule.requires_passed

      open_gate : IsReported r received_at rule p m → is_gated deps m.failed ≡ false
      open_gate s = ground (
        arith,
        s.failed,
        s.ungated,
        is_gated-append deps p.failed (rule.rule_id ∷ []),
        is_gated-append deps (rule.rule_id ∷ []) (ids rules),
      )

      marked : IsReported r received_at rule p m → has rule.rule_id m.failed ≡ true
      marked s = ground (
        arith,
        s.failed,
        has-append rule.rule_id p.failed (rule.rule_id ∷ []),
        eq_iff rule.rule_id rule.rule_id,
      )

  evaluate_from-IsExact :
      (rules : List RuleDefinition) (p q : Progress)
      → IsOrdered rules
      → IsFresh p.failed rules
      → evaluate_from r received_at rules p ≡ ok q
      → All (IsExact q.failed) rules
  unfolding evaluate_from
  evaluate_from-IsExact [] p q o fresh h = tt
  evaluate_from-IsExact (rule ∷ rules) p q o fresh h =
      let (m, e, h1) = >>=-eq-ok (step r received_at rule p) _ h in
      let s = step_lem r received_at rule p m e in
      let still : IsFresh m.failed rules = elim s [
        | inl quiet ↦ rw quiet.failed fresh.1
        | inr reported ↦ rw reported.failed (IsFresh-append p.failed rule.rule_id rules o.0 fresh.1)
      ] in
      (
        first-IsExact rule rules p m q o fresh.0 s (evaluate_from-Grows r received_at rules m q h1),
        evaluate_from-IsExact rules m q o.2 still h1,
      )

-- The set `failed` holds the ids of the findings.
failed-eq-ids :
    (r : CanonicalEntryRecord) (received_at : Text) (rules : List RuleDefinition) (q : Progress)
    → evaluate_from r received_at rules started ≡ ok q
    → q.failed ≡ finding_ids q.findings
failed-eq-ids r received_at rules q h =
    let g = evaluate_from-Grows r received_at rules started q h in
    g.failed ∙ ap finding_ids (sym g.findings)

-- In an ordered registry an evaluation that returns reports a rule exactly when it is applicable
-- and not satisfied and none of the rules that it requires is reported.
pub evaluate-IsExact :
    (r : CanonicalEntryRecord) (received_at : Text) (rules : List RuleDefinition)
    (e : ValidationEvaluation)
    → IsOrdered rules
    → evaluate r received_at rules ≡ ok e
    → All (IsExact r received_at (finding_ids e.findings)) rules
unfolding evaluate
evaluate-IsExact r received_at rules e o h =
    let (q, eq, h1) = >>=-eq-ok (evaluate_from r received_at rules started) _ h in
    let same : q.findings ≡ e.findings = ground arith in
    let exact = evaluate_from-IsExact r received_at rules started q o (none_failed rules) eq in
    rw (← same, ← failed-eq-ids r received_at rules q eq) exact
  where
    none_failed : (rules : List RuleDefinition) → IsFresh [] rules
    none_failed [] = tt
    none_failed (rule ∷ rules) = (refl, none_failed rules)
