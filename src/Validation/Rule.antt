-- ===== src/Validation/Rule.antt =====
-- server/src/services/validation/types.ts: rules, findings and evaluations.
use cargo_execution_assistan.Prelude.{ℕ, String, Bool, List, Result}
use cargo_execution_assistan.Text.{Text}
use cargo_execution_assistan.Validation.Entry.{CanonicalEntryRecord}

-- `RULE_SET_VERSION`
abbrev pub rule_set_version : String
rule_set_version = "RIV-2026.09"

-- A value that a rule states, or a function of the record; a function may throw.
pub data Declared (A : Type 0) : Type 0 where
  fixed : A → Declared A
  computed : (CanonicalEntryRecord → Result Text A) → Declared A

-- The predicates may throw; what they throw is the message of the error.
pub record RuleDefinition : Type 0 where
  pub rule_id : String
  pub fields : List String
  pub primary_field : Declared String
  pub failure_code : String
  pub message : Declared Text
  pub requires_passed : List String
  pub applicable : CanonicalEntryRecord → Result Text Bool
  pub satisfied : CanonicalEntryRecord → Text → Result Text Bool

pub record Finding : Type 0 where
  pub rule_id : String
  pub field_name : String
  pub failure_code : String
  pub message : Text

pub data Outcome : Type 0 where
  pass fail : Outcome

pub record ValidationEvaluation : Type 0 where
  pub outcome : Outcome
  pub rule_set_version : String
  pub rules_evaluated_count : ℕ
  pub findings : List Finding
