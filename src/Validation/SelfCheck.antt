-- ===== src/Validation/SelfCheck.antt =====
-- server/src/services/validation/selfCheck.ts: the check of the rule registry at startup, over any
-- registry.
pub mod Sound
pub mod Nodes
pub mod Cycles
use cargo_execution_assistan.Prelude.{
  ℕ, zero, suc, ◌≡◌, String, Bool, true, false, ◌&&◌, ◌||◌, not, List, [], ◌∷◌, ◌++◌, map, Result,
  ok, err, ◌>>=◌, ◌>>◌, guard, throw_if, has, length, keep_if, str_eq, ltb, ◌==◌, if◌then◌else◌,
}
use cargo_execution_assistan.Text.{Text, codes, is_digit, text_le}
use cargo_execution_assistan.Text.Regex.{Regex, one, seq, times, literal, matches}
use cargo_execution_assistan.Validation.Entry.{is_entry_field}
use cargo_execution_assistan.Validation.Rule.{Declared, fixed, computed, RuleDefinition}

-- What the thrown `RULE_SET_INVALID` names.
pub data Defect : Type 0 where
  malformed_id duplicate_id self_gate empty_message : (rule_id : String) → Defect
  out_of_order : (rule_id previous_id : String) → Defect
  duplicate_code foreign_field foreign_primary unknown_gate : (rule_id name : String) → Defect
  cycle : (rule_ids : List String) → Defect
  long_message : (rule_id : String) (chars : ℕ) → Defect

-- `^RIV-[0-9]{3}$`
abbrev pub rule_id_form : Regex
rule_id_form = seq (literal (codes "RIV-")) (times 3 (one is_digit))

-- The loop of step 1: the ids are well formed, unique and ascending.
pub check_ids : List String → String → List RuleDefinition → Result Defect (Unit {0})
check_ids seen previous [] = ok tt
check_ids seen previous (rule ∷ rules) = do
  guard (matches rule_id_form (codes rule.rule_id)) (malformed_id rule.rule_id)
  throw_if (has rule.rule_id seen) (duplicate_id rule.rule_id)
  throw_if (not (str_eq previous "") && text_le (codes rule.rule_id) (codes previous))
      (out_of_order rule.rule_id previous)
  check_ids (rule.rule_id ∷ seen) rule.rule_id rules

-- The loop of step 2.
pub check_codes : List String → List RuleDefinition → Result Defect (Unit {0})
check_codes seen [] = ok tt
check_codes seen (rule ∷ rules) = do
  throw_if (has rule.failure_code seen) (duplicate_code rule.rule_id rule.failure_code)
  check_codes (rule.failure_code ∷ seen) rules

check_members : String → List String → Result Defect (Unit {0})
check_members id [] = ok tt
check_members id (field ∷ fields) = do
  guard (is_entry_field field) (foreign_field id field)
  check_members id fields

check_primary : String → Declared String → Result Defect (Unit {0})
check_primary id (fixed field) = guard (is_entry_field field) (foreign_primary id field)
check_primary id (computed f) = ok tt

-- The loop of step 3.
pub check_fields : List RuleDefinition → Result Defect (Unit {0})
check_fields [] = ok tt
check_fields (rule ∷ rules) = do
  check_members rule.rule_id rule.fields
  check_primary rule.rule_id rule.primary_field
  check_fields rules

check_deps : List String → String → List String → Result Defect (Unit {0})
check_deps seen id [] = ok tt
check_deps seen id (dep ∷ deps) = do
  guard (has dep seen) (unknown_gate id dep)
  throw_if (str_eq dep id) (self_gate id)
  check_deps seen id deps

-- The loop of step 4.
pub check_gates : List String → List RuleDefinition → Result Defect (Unit {0})
check_gates seen [] = ok tt
check_gates seen (rule ∷ rules) = do
  check_deps seen rule.rule_id rule.requires_passed
  check_gates seen rules

-- The map `remaining` of `assertAcyclic`, in the order of insertion.
abbrev pub Graph : Type 0
Graph = List (String × List String)

abbrev pub keys : Graph → List String
keys g = map (λ (node : String × List String). node.0) g

-- The `for` loop: a node without an unresolved dependency is removed at once. `kept` holds the nodes
-- already passed over; the flag is `progressed`.
pub round : Graph → Graph → Bool → Graph × Bool
round kept [] progressed = (kept, progressed)
round kept ((id, deps) ∷ rest) progressed =
    let unresolved = keep_if (λ d. has d (keys (kept ++ (id, deps) ∷ rest))) deps in
    elim unresolved [
      | [] ↦ round kept rest true
      | d ∷ ds ↦ round (kept ++ (id, d ∷ ds) ∷ []) rest progressed
    ]

-- The `while` loop, on fuel.
unfoldable pub resolve_all : ℕ → Graph → Graph
resolve_all zero g = g
resolve_all (suc fuel) [] = []
resolve_all (suc fuel) (node ∷ g) =
    let (left, progressed) = round [] (node ∷ g) false in
    elim progressed [ true ↦ resolve_all fuel left | false ↦ left ]

-- `remaining.set(id, deps)`: a key that is there keeps its place.
abbrev pub set_node : String → List String → Graph → Graph
set_node id deps [] = (id, deps) ∷ []
set_node id deps ((k, ds) ∷ rest) =
    let later = set_node id deps rest in if str_eq k id then (k, deps) ∷ rest else (k, ds) ∷ later

abbrev pub set_nodes : List RuleDefinition → Graph → Graph
set_nodes [] g = g
set_nodes (rule ∷ rules) g = set_nodes rules (set_node rule.rule_id rule.requires_passed g)

unfoldable pub graph_of : List RuleDefinition → Graph
graph_of rules = set_nodes rules []

-- `assertAcyclic`; each round of the `while` loop but the last one removes a node.
unfoldable pub assert_acyclic : List RuleDefinition → Result Defect (Unit {0})
assert_acyclic rules = elim (resolve_all (suc (length rules)) (graph_of rules)) [
  | [] ↦ ok tt
  | node ∷ left ↦ err (cycle (keys (node ∷ left)))
]

check_message : String → Declared Text → Result Defect (Unit {0})
check_message id (fixed text) = do
  throw_if (ltb (length text) 1) (empty_message id)
  throw_if (ltb 500 (length text)) (long_message id (length text))
check_message id (computed f) = ok tt

-- The loop of step 5.
pub check_messages : List RuleDefinition → Result Defect (Unit {0})
check_messages [] = ok tt
check_messages (rule ∷ rules) = do check_message rule.rule_id rule.message; check_messages rules

-- `assertRuleRegistryValid`
unfoldable pub assert_rule_registry_valid : List RuleDefinition → Result Defect (Unit {0})
assert_rule_registry_valid rules = do
  check_ids [] "" rules
  check_codes [] rules
  check_fields rules
  check_gates (map (λ rule. rule.rule_id) rules) rules
  assert_acyclic rules
  check_messages rules
