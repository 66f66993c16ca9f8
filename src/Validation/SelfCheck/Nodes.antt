-- ===== src/Validation/SelfCheck/Nodes.antt =====
-- `assertAcyclic` of server/src/services/validation/selfCheck.ts: the map that it starts from.
use cargo_execution_assistan.Prelude.{
  ◌≡◌, refl, sym, ap, ◌∙◌, inl, inr, String, true, false, List, [], ◌∷◌, ◌++◌, map, has, str_eq,
  arith, Bool-cases, eq_iff, append_assoc, append-nil,
}
use cargo_execution_assistan.Validation.Rule.{RuleDefinition}
use cargo_execution_assistan.Validation.Engine.Loop.{ids}
use cargo_execution_assistan.Validation.SelfCheck.{Graph, keys, set_node, set_nodes, graph_of}

-- Each rule with those that it requires.
abbrev pub requirements : List RuleDefinition → Graph
requirements rules = map (λ rule. (rule.rule_id, rule.requires_passed)) rules

abbrev pub IsDistinct : List String → Type 0
IsDistinct [] = Unit
IsDistinct (x ∷ xs) = (has x xs ≡ false) × IsDistinct xs

set_node-new :
    (id : String) (deps : List String) (g : Graph)
    → has id (keys g) ≡ false
    → set_node id deps g ≡ g ++ (id, deps) ∷ []
set_node-new id deps [] h = refl
set_node-new id deps ((k, ds) ∷ g) h =
    let other : str_eq k id ≡ false = ground (arith, eq_iff k id, eq_iff id k) in
    rw (other, set_node) (ap (λ l. (k, ds) ∷ l) (set_node-new id deps g (ground arith)))

has-last :
    (id k : String) (deps : List String) (g : Graph)
    → has id (keys g) ≡ false
    → str_eq id k ≡ false
    → has id (keys (g ++ (k, deps) ∷ [])) ≡ false
has-last id k deps [] h e = ground (arith, eq_iff k id, eq_iff id k)
has-last id k deps (node ∷ g) h e = ground (arith, has-last id k deps g)

set_nodes-new :
    (rules : List RuleDefinition) (g : Graph)
    → ((id : String) → has id (ids rules) ≡ true → has id (keys g) ≡ false)
    → IsDistinct (ids rules)
    → set_nodes rules g ≡ g ++ requirements rules
set_nodes-new [] g fresh distinct = sym (append-nil g)
set_nodes-new (rule ∷ rules) g fresh (once, distinct) =
    let id = rule.rule_id in
    let unseen : has id (keys g) ≡ false = fresh id (ground (arith, eq_iff id id)) in
    let node : String × List String = (id, rule.requires_passed) in
    ap (set_nodes rules) (set_node-new id rule.requires_passed g unseen)
    ∙ set_nodes-new rules (g ++ node ∷ [])
        (λ k m. has-last k id rule.requires_passed g (fresh k (ground arith)) (other k m)) distinct
    ∙ append_assoc g (node ∷ []) (requirements rules)
  where
    other : (k : String) → has k (ids rules) ≡ true → str_eq k rule.rule_id ≡ false
    other k m = elim (Bool-cases (str_eq k rule.rule_id)) [
      | inl e ↦
          let same = (eq_iff k rule.rule_id).0 e in
          let seen : has rule.rule_id (ids rules) ≡ true = rw same at m in cc
      | inr e ↦ e
    ]

-- Where no id occurs twice the map has every rule with those that it requires.
pub graph_of-requirements :
    (rules : List RuleDefinition) → IsDistinct (ids rules) → graph_of rules ≡ requirements rules
unfolding graph_of
graph_of-requirements rules distinct = set_nodes-new rules [] (λ id m. refl) distinct
