-- ===== src/Validation/SelfCheck/Sound.antt =====
-- server/src/services/validation/selfCheck.ts: what a registry that passes the check has.
use cargo_execution_assistan.Prelude.{
  ◌≡◌, ◌≢◌, ◌⊎◌, inl, inr, Bool-cases, refl, String, true, false, List, [], ◌∷◌, ok, map, has, All,
  arith, eq_iff, str_eq,
}
use cargo_execution_assistan.Text.{codes, text_lt, Platform}
use cargo_execution_assistan.Text.Regex.{matches}
use cargo_execution_assistan.Validation.Entry.{is_entry_field}
use cargo_execution_assistan.Validation.Rule.{RuleDefinition}
use cargo_execution_assistan.Validation.Rules.{rules}
use cargo_execution_assistan.Validation.Engine.Loop.{ids}
use cargo_execution_assistan.Validation.SelfCheck.Nodes.{
  IsDistinct, requirements, graph_of-requirements,
}
use cargo_execution_assistan.Validation.SelfCheck.Cycles.{IsDeadlocked, assert_acyclic_sound}
use cargo_execution_assistan.Validation.SelfCheck.{
  rule_id_form, check_ids, check_codes, check_members, check_primary, check_fields, check_deps,
  check_gates, assert_acyclic, check_message, check_messages, graph_of, round, resolve_all,
  assert_rule_registry_valid,
}

-- Opens the check for a test.
registry_check : Unit {0}
unfolding assert_rule_registry_valid check_ids matches check_codes check_fields check_members
    check_primary check_gates check_deps assert_acyclic resolve_all graph_of round check_messages
    check_message is_entry_field
registry_check = tt

-- The registry of the program passes, on every platform.
pub rules-valid : (p : Platform) → assert_rule_registry_valid (rules p) ≡ ok tt
unfolding registry_check rules
rules-valid p = refl

-- Each id is of the form RIV-ddd and greater than the one before it, if there is one.
abbrev pub IsAscending : String → List RuleDefinition → Type 0
IsAscending previous [] = Unit
IsAscending previous (rule ∷ rest) =
    (matches rule_id_form (codes rule.rule_id) ≡ true)
    × ((previous ≡ "") ⊎ (text_lt (codes previous) (codes rule.rule_id) ≡ true))
    × IsAscending rule.rule_id rest

check_ids-cons :
    (seen : List String) (previous : String) (rule : RuleDefinition) (rest : List RuleDefinition)
    → check_ids seen previous (rule ∷ rest) ≡ ok tt
    → (matches rule_id_form (codes rule.rule_id) ≡ true)
      × (has rule.rule_id seen ≡ false)
      × ((previous ≡ "") ⊎ (text_lt (codes previous) (codes rule.rule_id) ≡ true))
      × (check_ids (rule.rule_id ∷ seen) rule.rule_id rest ≡ ok tt)
unfolding check_ids
check_ids-cons seen previous rule rest h = (
  ground arith,
  ground arith,
  elim (Bool-cases (str_eq previous "")) [
    | inl first ↦ inl ((eq_iff previous "").0 first)
    | inr other ↦ inr (ground arith)
  ],
  ground arith,
)

-- Ids that differ from `k` and from those seen.
apart :
    (k : String) (seen : List String) (rest : List RuleDefinition)
    → All (λ rule. has rule.rule_id (k ∷ seen) ≡ false) rest
    → (has k (ids rest) ≡ false) × All (λ rule. has rule.rule_id seen ≡ false) rest
apart k seen [] h = (refl, tt)
apart k seen (rule ∷ rest) h =
    let (later, unseen) = apart k seen rest h.1 in
    (
      ground (arith, eq_iff k rule.rule_id, eq_iff rule.rule_id k),
      (ground (arith, eq_iff rule.rule_id k), unseen),
    )

check_ids_lem :
    (seen : List String) (previous : String) (rules : List RuleDefinition)
    → check_ids seen previous rules ≡ ok tt
    → IsAscending previous rules
      × IsDistinct (ids rules)
      × All (λ rule. has rule.rule_id seen ≡ false) rules
check_ids_lem seen previous [] h = (tt, tt, tt)
check_ids_lem seen previous (rule ∷ rest) h =
    let (formed, unseen, ordered, h1) = check_ids-cons seen previous rule rest h in
    let (ascending, distinct, fresh) = check_ids_lem (rule.rule_id ∷ seen) rule.rule_id rest h1 in
    let (later, older) = apart rule.rule_id seen rest fresh in
    ((formed, ordered, ascending), (later, distinct), (unseen, older))

abbrev pub failure_codes : List RuleDefinition → List String
failure_codes rules = map (λ rule. rule.failure_code) rules

code_apart :
    (k : String) (seen : List String) (rest : List RuleDefinition)
    → All (λ rule. has rule.failure_code (k ∷ seen) ≡ false) rest
    → (has k (failure_codes rest) ≡ false) × All (λ rule. has rule.failure_code seen ≡ false) rest
code_apart k seen [] h = (refl, tt)
code_apart k seen (rule ∷ rest) h =
    let (later, unseen) = code_apart k seen rest h.1 in
    (
      ground (arith, eq_iff k rule.failure_code, eq_iff rule.failure_code k),
      (ground (arith, eq_iff rule.failure_code k), unseen),
    )

check_codes_lem :
    (seen : List String) (rules : List RuleDefinition)
    → check_codes seen rules ≡ ok tt
    → IsDistinct (failure_codes rules) × All (λ rule. has rule.failure_code seen ≡ false) rules
unfolding check_codes
check_codes_lem seen [] h = (tt, tt)
check_codes_lem seen (rule ∷ rest) h =
    let unseen : has rule.failure_code seen ≡ false = ground arith in
    let (distinct, fresh) = check_codes_lem (rule.failure_code ∷ seen) rest (ground arith) in
    let (later, older) = code_apart rule.failure_code seen rest fresh in
    ((later, distinct), (unseen, older))

check_members_lem :
    (id : String) (fields : List String)
    → check_members id fields ≡ ok tt
    → All (λ field. is_entry_field field ≡ true) fields
unfolding check_members
check_members_lem id [] h = tt
check_members_lem id (field ∷ fields) h = (ground arith, check_members_lem id fields (ground arith))

check_fields_lem :
    (rules : List RuleDefinition)
    → check_fields rules ≡ ok tt
    → All (λ rule. All (λ field. is_entry_field field ≡ true) rule.fields) rules
unfolding check_fields
check_fields_lem [] h = tt
check_fields_lem (rule ∷ rest) h = (
  check_members_lem rule.rule_id rule.fields (ground arith),
  check_fields_lem rest (ground arith),
)

-- A gate of the rule `id`: a rule of the registry, and another one.
abbrev pub IsGate : List String → String → String → Type 0
IsGate known id dep = (has dep known ≡ true) × (dep ≢ id)

check_deps_lem :
    (seen : List String) (id : String) (deps : List String)
    → check_deps seen id deps ≡ ok tt
    → All (IsGate seen id) deps
unfolding check_deps
check_deps_lem seen id [] h = tt
check_deps_lem seen id (dep ∷ deps) h =
    ((ground arith, λ e. ground (arith, eq_iff dep id)), check_deps_lem seen id deps (ground arith))

check_gates_lem :
    (seen : List String) (rules : List RuleDefinition)
    → check_gates seen rules ≡ ok tt
    → All (λ rule. All (IsGate seen rule.rule_id) rule.requires_passed) rules
unfolding check_gates
check_gates_lem seen [] h = tt
check_gates_lem seen (rule ∷ rest) h = (
  check_deps_lem seen rule.rule_id rule.requires_passed (ground arith),
  check_gates_lem seen rest (ground arith),
)

pub record IsRegistry (rules : List RuleDefinition) : Type 0 where
  pub ascending : IsAscending "" rules
  pub distinct_ids : IsDistinct (ids rules)
  pub distinct_codes : IsDistinct (failure_codes rules)
  pub fields : All (λ rule. All (λ field. is_entry_field field ≡ true) rule.fields) rules
  pub gates : All (λ rule. All (IsGate (ids rules) rule.rule_id) rule.requires_passed) rules
  pub acyclic : (k : String) (s : List String) → ¬ IsDeadlocked (k ∷ s) (requirements rules)

-- The parts of a check that passes.
parts :
    (rules : List RuleDefinition)
    → assert_rule_registry_valid rules ≡ ok tt
    → (check_ids [] "" rules ≡ ok tt)
      × (check_codes [] rules ≡ ok tt)
      × (check_fields rules ≡ ok tt)
      × (check_gates (ids rules) rules ≡ ok tt)
      × (assert_acyclic rules ≡ ok tt)
unfolding assert_rule_registry_valid
parts rules h = (ground arith, ground arith, ground arith, ground arith, ground arith)

-- A registry that passes the check has rule ids of the form RIV-ddd in ascending order, none twice;
-- no failure code twice; only entry fields in the rules' lists of fields; gates that are other rules
-- of the registry; and no set of rules each of which requires a rule of the set.
pub assert_rule_registry_valid-IsRegistry :
    (rules : List RuleDefinition) → assert_rule_registry_valid rules ≡ ok tt → IsRegistry rules
assert_rule_registry_valid-IsRegistry rules h =
    let (h1, h2, h3, h4, h5) = parts rules h in
    let (ascending, distinct_ids, _) = check_ids_lem [] "" rules h1 in
    record {
      ascending = ascending;
      distinct_ids = distinct_ids;
      distinct_codes = (check_codes_lem [] rules h2).0;
      fields = check_fields_lem rules h3;
      gates = check_gates_lem (ids rules) rules h4;
      acyclic = λ k s d.
          let none : k ∷ s ≡ [] =
            assert_acyclic_sound rules (k ∷ s) h5
              (rw (graph_of-requirements rules distinct_ids) d) in
          cc;
    }
