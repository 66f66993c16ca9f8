-- ===== src/Validation/SelfCheck/Cycles.antt =====
-- `assertAcyclic` of server/src/services/validation/selfCheck.ts: it passes no registry in which some
-- rules wait for one another.
use cargo_execution_assistan.Prelude.{
  ℕ, zero, suc, ◌≡◌, refl, inl, inr, String, Bool, true, false, List, [], ◌∷◌, ◌++◌, ok, err,
  Result, has, keep_if, length, Any, Any-left, Any-right, Any-split, arith, Bool-cases, eq_iff,
  append-nil, append_assoc,
}
use cargo_execution_assistan.Validation.Rule.{RuleDefinition}
use cargo_execution_assistan.Validation.SelfCheck.{
  Graph, keys, round, resolve_all, graph_of, Defect, cycle, assert_acyclic,
}

-- The node of the rule `k` waits for a member of `s`.
abbrev pub Waits : List String → String → String × List String → Type 0
Waits s k node = (node.0 ≡ k) × Any (λ d. has d s ≡ true) node.1

-- Each of the rules in `s` waits for one of the rules in `s`.
abbrev pub IsDeadlocked : List String → Graph → Type 0
IsDeadlocked s g = (k : String) → has k s ≡ true → Any (Waits s k) g

has-keys : (s : List String) (k : String) (g : Graph) → Any (Waits s k) g → has k (keys g) ≡ true
has-keys s k [] h = absurd h
has-keys s k (node ∷ g) (inl w) = ground (arith, eq_iff k node.0)
has-keys s k (node ∷ g) (inr h) = ground (arith, has-keys s k g h)

-- A filter that lets the members of `s` through keeps the waiting.
waits-keep_if :
    (s deps : List String) (q : String → Bool)
    → ((d : String) → has d s ≡ true → q d ≡ true)
    → Any (λ d. has d s ≡ true) deps
    → Any (λ d. has d s ≡ true) (keep_if q deps)
waits-keep_if s [] q h a = absurd a
waits-keep_if s (d ∷ deps) q h (inl m) = rw (h d m, keep_if) (inl m)
waits-keep_if s (d ∷ deps) q h (inr a) = elim (Bool-cases (q d)) [
  | inl kept ↦ rw (kept, keep_if) (inr (waits-keep_if s deps q h a))
  | inr dropped ↦ rw (dropped, keep_if) (waits-keep_if s deps q h a)
]

module _ (s : List String) where
  -- A node that is replaced by one that waits as well, or that does not wait, does no harm.
  replaced :
      (k : String) (kept rest left : Graph) (node : String × List String)
      → (Waits s k node → Any (Waits s k) left)
      → Any (Waits s k) (kept ++ node ∷ rest)
      → Any (Waits s k) (kept ++ (left ++ rest))
  replaced k kept rest left node f h = elim (Any-split (Waits s k) kept (node ∷ rest) h) [
    | inl a ↦ Any-left (Waits s k) kept (left ++ rest) a
    | inr (inl w) ↦ Any-right (Waits s k) kept (left ++ rest) (Any-left (Waits s k) left rest (f w))
    | inr (inr b) ↦ Any-right (Waits s k) kept (left ++ rest) (Any-right (Waits s k) left rest b)
  ]

  unresolved-Waits :
      (k id : String) (deps : List String) (g : Graph)
      → IsDeadlocked s g
      → Waits s k (id, deps)
      → Waits s k (id, keep_if (λ d. has d (keys g)) deps)
  unresolved-Waits k id deps g h (e, a) =
      (e, waits-keep_if s deps (λ d. has d (keys g)) (λ d m. has-keys s d g (h d m)) a)

  -- One node's turn in the `for` loop, by what is left of its dependencies.
  turn :
      (kept rest : Graph) (id : String) (deps us : List String) (progressed : Bool)
      → keep_if (λ d. has d (keys (kept ++ (id, deps) ∷ rest))) deps ≡ us
      → IsDeadlocked s (kept ++ (id, deps) ∷ rest)
      → (us ≡ [] → IsDeadlocked s (kept ++ rest) → IsDeadlocked s (round kept rest true).0)
      → ((d : String) (ds : List String)
          → us ≡ d ∷ ds
          → IsDeadlocked s ((kept ++ (id, d ∷ ds) ∷ []) ++ rest)
          → IsDeadlocked s (round (kept ++ (id, d ∷ ds) ∷ []) rest progressed).0)
      → IsDeadlocked s
          (elim us as (λ _. Graph × Bool) [
            | [] ↦ round kept rest true
            | d ∷ ds ↦ round (kept ++ (id, d ∷ ds) ∷ []) rest progressed
          ]).0
  turn kept rest id deps [] progressed e h removed stays = removed refl (λ k m.
      replaced k kept rest [] (id, deps)
        (λ w. absurd (rw e at (unresolved-Waits k id deps (kept ++ (id, deps) ∷ rest) h w).1))
        (h k m))
  turn kept rest id deps (d ∷ ds) progressed e h removed stays = stays d ds refl (λ k m.
      rw (append_assoc kept ((id, d ∷ ds) ∷ []) rest) (
        replaced k kept rest ((id, d ∷ ds) ∷ []) (id, deps)
          (λ w.
            let (same, a) = unresolved-Waits k id deps (kept ++ (id, deps) ∷ rest) h w in
            inl (same, rw e at a))
          (h k m)))

  round-IsDeadlocked :
      (kept g : Graph) (progressed : Bool)
      → IsDeadlocked s (kept ++ g)
      → IsDeadlocked s (round kept g progressed).0
  unfolding round
  round-IsDeadlocked kept [] progressed h = λ k m. rw (append-nil kept) at (h k m)
  round-IsDeadlocked kept ((id, deps) ∷ rest) progressed h =
      turn kept rest id deps (keep_if (λ d. has d (keys (kept ++ (id, deps) ∷ rest))) deps)
        progressed refl h (λ _ h'. round-IsDeadlocked kept rest true h')
        (λ d ds _ h'. round-IsDeadlocked (kept ++ (id, d ∷ ds) ∷ []) rest progressed h')

  resolve_all-IsDeadlocked :
      (fuel : ℕ) (g : Graph) → IsDeadlocked s g → IsDeadlocked s (resolve_all fuel g)
  unfolding resolve_all
  resolve_all-IsDeadlocked zero g h = h
  resolve_all-IsDeadlocked (suc fuel) [] h = h
  resolve_all-IsDeadlocked (suc fuel) (node ∷ g) h =
      let left = round-IsDeadlocked [] (node ∷ g) false h in
      elim (Bool-cases (round [] (node ∷ g) false).1) [
        | inl progressed ↦
            rw (progressed, resolve_all)
              (resolve_all-IsDeadlocked fuel (round [] (node ∷ g) false).0 left)
        | inr stuck ↦ rw (stuck, resolve_all) left
      ]

-- A registry that passes holds no set of rules each of which requires a rule of the set.
pub assert_acyclic_sound :
    (rules : List RuleDefinition) (s : List String)
    → assert_acyclic rules ≡ ok tt
    → IsDeadlocked s (graph_of rules)
    → s ≡ []
unfolding assert_acyclic
assert_acyclic_sound rules [] h d = refl
assert_acyclic_sound rules (k ∷ s) h d =
    let left = resolve_all-IsDeadlocked (k ∷ s) (suc (length rules)) (graph_of rules) d in
    let member : has k (k ∷ s) ≡ true = ground (arith, eq_iff k k) in
    absurd (rw (none_left (resolve_all (suc (length rules)) (graph_of rules)) h) at (left k member))
  where
    none_left :
        (g : Graph)
        → (elim g as (λ _. Result Defect (Unit {0})) [
          | [] ↦ ok tt
          | node ∷ rest ↦ err (cycle (keys (node ∷ rest)))
        ])
          ≡ ok tt
        → g ≡ []
    none_left [] e = refl
    none_left (node ∷ rest) e = cc
