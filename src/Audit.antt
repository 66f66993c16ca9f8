-- ===== src/Audit.antt =====
-- server/src/services/audit/writer.ts: `append`, the only operation that writes the audit store.
pub mod Entry
pub mod Secrets
pub mod Step
pub mod Chain
pub mod Total
pub mod Sound
mod Tests
use cargo_execution_assistan.Prelude.{
  ℕ, zero, suc, ◌+◌, ◌-◌, Bool, true, false, ◌&&◌, ◌||◌, not, Option, none, some, String, List, [],
  ◌∷◌, ◌++◌, map, Result, ok, err, ◌>>=◌, ◌>>◌, guard, throw_if, check_all, or_throw, length, any,
  all, ltb, leb, ◌==◌, is_some, if◌then◌else◌,
}
use cargo_execution_assistan.Text.{Text, codes, text_eq, among, trim, drop_trailing}
use cargo_execution_assistan.Text.Encoding.{code_points}
use cargo_execution_assistan.Canonical.{
  Origin, ai, human, AuditValue, AuditEntry, zero_hash, compute_entry_hash,
}
use cargo_execution_assistan.Database.{
  Database, Session, Supply, AuditRow, Event, audit_inserted, Thrown, audit_write, hashing,
  unique_violation, check_violation, foreign_key_violation, of_case, at_sequence, option_eq,
}
use cargo_execution_assistan.Validation.Entry.{entry_fields}
use cargo_execution_assistan.Audit.Secrets.{is_secret_field_name, is_secret_value}
unfoldable pub use cargo_execution_assistan.Audit.Entry.*

-- `coalesce(max(case_sequence), 0) + 1`
abbrev pub max_sequence : List AuditRow → ℕ
max_sequence [] = 0
max_sequence (row ∷ rows) =
    let rest = max_sequence rows in
    if ltb rest row.entry.case_sequence then row.entry.case_sequence else rest

abbrev pub next_sequence : Text → Database → ℕ
next_sequence case_id db = max_sequence (of_case case_id db.audit_entries) + 1

-- The hash that the entry `n` of a case is linked to.
unfoldable pub link_at : ℕ → List AuditRow → Result Thrown (List ℕ)
link_at n rows = elim (n == 1) [
  | true ↦ ok zero_hash
  | false ↦ elim (at_sequence (n - 1) rows) [
    | none ↦ err (audit_write "AUDIT_SEQUENCE_CONFLICT")
    | some previous ↦ ok previous.entry_hash
  ]
]

abbrev pub previous_hash : Text → ℕ → Database → Result Thrown (List ℕ)
previous_hash case_id n db = link_at n (of_case case_id db.audit_entries)

abbrev pub lift_hash : {A : Type 0} {E : Type 0} → (E → Thrown) → Result E A → Result Thrown A
lift_hash f (ok a) = ok a
lift_hash f (err e) = err (f e)

abbrev pub field_twice : List AuditValue → Bool
field_twice [] = false
field_twice (v ∷ vs) = any (λ w. text_eq w.field_name v.field_name) vs || field_twice vs

-- `char_length(btrim(s))` of SQL.
abbrev pub btrim_length : Text → ℕ
btrim_length s = length (code_points (drop_trailing (λ c. c == 32) (skip s)))
  where
    skip : Text → Text
    skip [] = []
    skip (c ∷ t) = let rest = skip t in if c == 32 then rest else c ∷ t

-- `ae_reason_required_chk` and `ae_reason_only_on_decisions_chk`.
unfoldable pub reason_allowed : Text → Option Text → Bool
reason_allowed action none = not (among action reason_required_actions)
reason_allowed action (some reason) =
    not (among action reason_forbidden_actions)
    && (not (among action reason_required_actions) || leb 10 (btrim_length reason))

abbrev pub refers : {A : Type 0} → (A → Text) → Option Text → List A → Bool
refers id none rows = true
refers id (some key) rows = any (λ row. text_eq (id row) key) rows

-- The constraints of 0007_audit.sql that `validate` does not already ensure, with what is thrown.
-- A violation of `uq_audit_entries_case_sequence` is turned into AUDIT_SEQUENCE_CONFLICT by the
-- writer.
unfoldable pub audit_constraints : AuditRow → Database → List (Bool × Thrown)
audit_constraints row db =
    (
      reason_allowed row.entry.action_type row.entry.reason,
      check_violation "ae_reason_required_chk",
    )
    ∷ (length row.prev_entry_hash == 32, check_violation "ae_hash_len_chk")
    ∷ (length row.entry_hash == 32, check_violation "ae_hash_len_chk")
    ∷ (not (any (λ a. text_eq a.id row.id) db.audit_entries), unique_violation "audit_entries_pkey")
    ∷ (
      not (
          any (λ a. a.entry.case_sequence == row.entry.case_sequence)
            (of_case row.entry.case_id db.audit_entries)),
      audit_write "AUDIT_SEQUENCE_CONFLICT",
    )
    ∷ (
      not (any (λ a. text_eq a.entry_hash row.entry_hash) db.audit_entries),
      unique_violation "uq_audit_entries_entry_hash",
    )
    ∷ (not (field_twice row.entry.values), unique_violation "audit_entry_values_pkey")
    ∷ (
      refers (λ r. r.id) row.entry.actor_specialist_id db.specialists,
      foreign_key_violation "actor_specialist_id",
    )
    ∷ (
      refers (λ r. r.id) row.entry.exception_id db.exceptions,
      foreign_key_violation "exception_id",
    )
    ∷ (
      refers (λ r. r.id) row.entry.recommendation_id db.recommendations,
      foreign_key_violation "recommendation_id",
    )
    ∷ (refers (λ r. r.id) row.entry.decision_id db.decisions, foreign_key_violation "decision_id")
    ∷ []

-- The transaction with one more audit entry; the trigger of the chain is queued.
abbrev pub with_audit_row : AuditRow → Session → Session
with_audit_row row s = record s {
  db = record s.db { audit_entries = s.db.audit_entries ++ row ∷ [] };
  pending = s.pending ++ audit_inserted row ∷ [];
}

-- INSERT INTO audit_entries, and into audit_entry_values.
unfoldable pub insert_audit_entry : AuditRow → Session → Result Thrown Session
insert_audit_entry row s = do check_all (audit_constraints row s.db); ok (with_audit_row row s)

-- The entry that is hashed and stored.
abbrev pub canonical_entry :
    Supply → AuditAppendInput → ℕ → Text × Option Text → List AuditValue → AuditEntry
canonical_entry supply entry case_sequence actor values = record {
  case_id = entry.case_id;
  case_sequence = case_sequence;
  action_type = entry.action_type;
  actor_type = actor.0;
  actor_specialist_id = actor.1;
  occurred_at = supply.now;
  exception_id = entry.exception_id;
  recommendation_id = entry.recommendation_id;
  decision_id = entry.decision_id;
  before_state = entry.before_state;
  after_state = entry.after_state;
  reason = entry.reason;
  request_id = entry.request_id;
  values = values;
}

-- `append`: the id of the new entry, and the transaction with it.
module _ (sha256 : List ℕ → List ℕ) where
  unfoldable pub append : Supply → AuditAppendInput → Session → Result Thrown (Text × Session)
  append supply entry s = do
    (actor, values) ← validate entry
    guard (any (λ e. text_eq e.id entry.case_id) s.db.cargo_entries) invalid
    prev_entry_hash ← previous_hash entry.case_id (next_sequence entry.case_id s.db) s.db
    entry_hash ← lift_hash hashing (
        compute_entry_hash sha256
          (canonical_entry supply entry (next_sequence entry.case_id s.db) actor values)
          prev_entry_hash)
    s1 ←
        insert_audit_entry
          (record {
            id = supply.audit_entry_id;
            entry = canonical_entry supply entry (next_sequence entry.case_id s.db) actor values;
            prev_entry_hash = prev_entry_hash;
            entry_hash = entry_hash;
          })
          s
    ok (supply.audit_entry_id, s1)
