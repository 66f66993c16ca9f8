-- ===== src/Decision/Idempotent.antt =====
-- The replay of an idempotency key in server/src/services/decision.service.ts.
use cargo_execution_assistan.Prelude.{
  ℕ, ◌≡◌, ◌≢◌, refl, sym, ap, ◌∙◌, ◌↔◌, ◌⊎◌, inl, inr, true, ◌&&◌, Option, none, some, List, [],
  ◌∷◌, map, ok, guard, or_throw, find, find-holds, length, all, All, Any, Kept, keep_if,
  keep_if-Kept, >>=-eq-ok, ok_inj, subst, guard-ok, arith, Bool-cases, Option-cases, ◌==◌, ==_iff,
}
use cargo_execution_assistan.Text.{Text, text_eq, trim}
use cargo_execution_assistan.Text.Laws.{text_eq_iff}
use cargo_execution_assistan.Text.Encoding.{iso_string}
use cargo_execution_assistan.Canonical.Keep.{sort_by-rearranged}
use cargo_execution_assistan.Audit.{is_empty}
use cargo_execution_assistan.Database.{
  Database, Supply, DecisionType, approve, edit_approve, reject, DecisionRow, DecisionValueRow,
  ResolutionValue, read_invariant, idempotency_key_reused, option_eq,
}
use cargo_execution_assistan.Decision.{replay, record_decision}
use cargo_execution_assistan.Decision.Planning.{DecisionCreateRequest, Submitted}
use cargo_execution_assistan.Decision.Replay.{
  DecisionPrincipal, Decided, DecisionRecordResponse, joined, load_decision_by_idempotency_key,
  load_decision_values, type_eq, trimmed_reason, stored_value, same_values, decision_matches_replay,
  assemble_replay_response,
}
use mathlib.Core.List.{Permᴰ}

-- A repeated reason: none or a blank one where none is recorded, or else the recorded one with space
-- around it.
abbrev pub IsSameReason : Option Text → Option Text → Type 0
IsSameReason none recorded = recorded ≡ none
IsSameReason (some given) recorded =
    ((trim given ≡ []) × (recorded ≡ none)) ⊎ ((trim given ≢ []) × (recorded ≡ some (trim given)))

-- Repeated values: none at all, or as many as are recorded, each of which is recorded for its field.
abbrev pub AreSameValues : List ResolutionValue → Option (List Submitted) → Type 0
AreSameValues stored none = Unit
AreSameValues stored (some submitted) =
    (length submitted ≡ length stored)
    × All (λ s. Any (λ v. (v.field_name ≡ s.field_name) × (v.value ≡ s.value)) stored) submitted

-- The values that are recorded for a decision.
abbrev pub AreRecorded : Text → Database → List ResolutionValue → Type 0
AreRecorded id db values =
    (rows : List DecisionValueRow) × Kept (λ r. r.decision_id ≡ id) db.decision_values rows
    × Permᴰ (map (λ r. r.content) rows) values

-- The answer to a replay: that of the recorded decision, from the database as it is.
pub record IsReplayed (existing : Decided) (db : Database) (body : DecisionCreateRequest)
    (response : DecisionRecordResponse) (db1 : Database) : Type 0 where
  pub nothing_written : db1 ≡ db
  pub marked : response.idempotent_replay ≡ true
  pub same_decision : response.decision_id ≡ existing.row.id
  pub same_type : response.decision_type ≡ existing.row.decision_type
  pub same_time : response.decided_at ≡ iso_string existing.row.decided_at
  pub same_author : response.decided_by.id ≡ existing.row.decided_by
  pub same_reason : response.reason ≡ existing.row.reason
  pub values : AreRecorded existing.row.id db response.resolution_values
  pub agrees_in_type : body.decision_type ≡ existing.row.decision_type
  pub agrees_in_reason : IsSameReason body.reason existing.row.reason
  pub agrees_in_values : AreSameValues response.resolution_values body.resolution_values

type_eq-eq : (a b : DecisionType) → type_eq a b ≡ true → b ≡ a
type_eq-eq approve approve h = refl
type_eq-eq approve edit_approve h = cc
type_eq-eq approve reject h = cc
type_eq-eq edit_approve approve h = cc
type_eq-eq edit_approve edit_approve h = refl
type_eq-eq edit_approve reject h = cc
type_eq-eq reject approve h = cc
type_eq-eq reject edit_approve h = cc
type_eq-eq reject reject h = refl

option_eq-eq : (a b : Option Text) → option_eq a b ≡ true → a ≡ b
option_eq-eq none none h = refl
option_eq-eq none (some b) h = cc
option_eq-eq (some a) none h = cc
option_eq-eq (some a) (some b) h = ap some ((text_eq_iff a b).0 h)

is_empty_iff : (s : Text) → (is_empty s ≡ true) ↔ (s ≡ [])
is_empty_iff [] = (λ h. refl, λ h. refl)
is_empty_iff (c ∷ s) = (λ h. cc, λ h. cc)

trimmed_reason-IsSameReason :
    (given recorded : Option Text) → recorded ≡ trimmed_reason given → IsSameReason given recorded
trimmed_reason-IsSameReason none recorded h = h
trimmed_reason-IsSameReason (some g) recorded h = elim (Bool-cases (is_empty (trim g))) [
  | inl blank ↦ inl ((is_empty_iff (trim g)).0 blank, rw (blank, trimmed_reason) at h)
  | inr text ↦
      inr (λ e. let blank = (is_empty_iff (trim g)).1 e in cc, rw (text, trimmed_reason) at h)
]

stored_value-Any :
    (f value : Text) (stored : List ResolutionValue)
    → stored_value f stored ≡ some value
    → Any (λ v. (v.field_name ≡ f) × (v.value ≡ value)) stored
stored_value-Any f value [] h = cc
stored_value-Any f value (v ∷ vs) h = elim (Option-cases (stored_value f vs)) [
  | inr (w, later) ↦
      let h' = rw (later, stored_value) at h in inr (stored_value-Any f value vs (later ∙ h'))
  | inl none_later ↦ elim (Bool-cases (text_eq v.field_name f)) [
    | inl hit ↦
        let h' = rw (none_later, stored_value) at h in
        let h'' : some v.value ≡ some value = rw hit at h' in
        let same : v.value ≡ value = cc in inl ((text_eq_iff v.field_name f).0 hit, same)
    | inr miss ↦
        let h' = rw (none_later, stored_value) at h in
        let h'' : none ≡ some value = rw miss at h' in cc
  ]
]

all_stored :
    (stored : List ResolutionValue) (submitted : List Submitted)
    → all (λ s. option_eq (stored_value s.field_name stored) (some s.value)) submitted ≡ true
    → All (λ s. Any (λ v. (v.field_name ≡ s.field_name) × (v.value ≡ s.value)) stored) submitted
all_stored stored [] h = tt
all_stored stored (s ∷ rest) h =
    let first : option_eq (stored_value s.field_name stored) (some s.value) ≡ true =
      ground (arith, h) in
    let later : all (λ s. option_eq (stored_value s.field_name stored) (some s.value)) rest ≡ true =
      ground (arith, h) in
    (
      stored_value-Any s.field_name s.value stored
          (option_eq-eq (stored_value s.field_name stored) (some s.value) first),
      all_stored stored rest later,
    )

same_values-AreSameValues :
    (stored : List ResolutionValue) (given : Option (List Submitted))
    → same_values stored given ≡ true
    → AreSameValues stored given
same_values-AreSameValues stored none h = tt
same_values-AreSameValues stored (some submitted) h =
    let many : (length submitted == length stored) ≡ true = ground (arith, h) in
    let each : all (λ s. option_eq (stored_value s.field_name stored) (some s.value)) submitted
        ≡ true =
      ground (arith, h) in
    ((==_iff (length submitted) (length stored)).0 many, all_stored stored submitted each)

load_decision_values-AreRecorded :
    (id : Text) (db : Database) → AreRecorded id db (load_decision_values id db)
load_decision_values-AreRecorded id db =
    let rows = keep_if (λ r. text_eq r.decision_id id) db.decision_values in
    (
      rows,
      keep_if-Kept (λ r. text_eq r.decision_id id) (λ r. r.decision_id ≡ id)
          (λ r. text_eq_iff r.decision_id id) db.decision_values,
      sort_by-rearranged (λ v. v.field_name) (map (λ r. r.content) rows),
    )

assembled :
    (existing : Decided) (db : Database) (body : DecisionCreateRequest)
    (response : DecisionRecordResponse)
    → decision_matches_replay existing (load_decision_values existing.row.id db) body ≡ true
    → assemble_replay_response existing (load_decision_values existing.row.id db) db ≡ ok response
    → IsReplayed existing db body response db
unfolding assemble_replay_response decision_matches_replay
assembled existing db body response matching h =
    let stored = load_decision_values existing.row.id db in
    let (d, found, h1) =
      >>=-eq-ok (or_throw (find (λ d. text_eq d.id existing.row.id) db.decisions) read_invariant) _
        h in
    let (ex, closing, h2) =
      >>=-eq-ok (or_throw (find (λ e. text_eq e.id d.exception_id) db.exceptions) read_invariant) _
        h1 in
    let (a, audit, h3) =
      >>=-eq-ok
        (or_throw
          (find (λ a. option_eq a.entry.decision_id (some existing.row.id)) db.audit_entries)
          read_invariant)
        _ h2 in
    let same = sym (ok_inj h3) in
    let type : type_eq existing.row.decision_type body.decision_type ≡ true =
      ground (arith, matching) in
    let reason : option_eq existing.row.reason (trimmed_reason body.reason) ≡ true =
      ground (arith, matching) in
    let values : same_values stored body.resolution_values ≡ true = ground (arith, matching) in
    let shown : response.resolution_values ≡ stored = ap (λ r. r.resolution_values) same in
    record {
      nothing_written = refl;
      marked = ap (λ r. r.idempotent_replay) same;
      same_decision = ap (λ r. r.decision_id) same;
      same_type = ap (λ r. r.decision_type) same;
      same_time = ap (λ r. r.decided_at) same;
      same_author = ap (λ r. r.decided_by.id) same;
      same_reason = ap (λ r. r.reason) same;
      values = rw shown (load_decision_values-AreRecorded existing.row.id db);
      agrees_in_type = type_eq-eq existing.row.decision_type body.decision_type type;
      agrees_in_reason =
          trimmed_reason-IsSameReason body.reason existing.row.reason
            (option_eq-eq existing.row.reason (trimmed_reason body.reason) reason);
      agrees_in_values = rw shown (same_values-AreSameValues stored body.resolution_values values);
    }

joined-row :
    (o : Option DecisionRow) (db : Database) (d : Decided) → joined o db ≡ some d → o ≡ some d.row
joined-row none db d h = cc
joined-row (some row) db d h =
    elim (Option-cases (find (λ s. text_eq s.id row.decided_by) db.specialists)) [
      | inl missing ↦ let h' = rw (missing, joined) at h in cc
      | inr (s, found) ↦
          let h' = rw (found, joined) at h in
          let same : record { row = row; decided_by_display_name = s.display_name } ≡ d = cc in
          ap (λ x. some x.row) same
    ]

keyed :
    (exception_id : Text) (key : Option Text) (db : Database) (existing : Decided)
    → load_decision_by_idempotency_key exception_id key db ≡ some existing
    → (existing.row.exception_id ≡ exception_id) × (existing.row.idempotency_key ≡ key)
unfolding load_decision_by_idempotency_key
keyed exception_id none db existing h = cc
keyed exception_id (some key) db existing h =
    let p = λ (d : DecisionRow).
      text_eq d.exception_id exception_id && option_eq d.idempotency_key (some key) in
    let found = joined-row (find p db.decisions) db existing h in
    let holds = find-holds p db.decisions existing.row found in
    let own : text_eq existing.row.exception_id exception_id ≡ true = ground (arith, holds) in
    let with_key : option_eq existing.row.idempotency_key (some key) ≡ true =
      ground (arith, holds) in
    (
      (text_eq_iff existing.row.exception_id exception_id).0 own,
      option_eq-eq existing.row.idempotency_key (some key) with_key,
    )

-- A request with a key that the case's decision was recorded with never writes: where it returns, it
-- agrees with the recorded decision, which is one on the case with the key, in kind, in trimmed
-- reason and in every submitted value, and the answer is the recorded decision, with its time,
-- author and values, marked as a replay.
pub record_decision-replay :
    (sha256 : List ℕ → List ℕ) (supply : Supply) (principal : DecisionPrincipal)
    (request_id : Option Text) (exception_id : Text) (body : DecisionCreateRequest)
    (key : Option Text) (db : Database) (existing : Decided) (response : DecisionRecordResponse)
    (db1 : Database)
    → load_decision_by_idempotency_key exception_id key db ≡ some existing
    → record_decision sha256 supply principal request_id exception_id body key db
      ≡ ok (response, db1)
    → (existing.row.exception_id ≡ exception_id)
      × (existing.row.idempotency_key ≡ key)
      × IsReplayed existing db body response db1
unfolding record_decision replay
record_decision-replay sha256 supply principal request_id exception_id body key db existing response
      db1 e h =
    let stored = load_decision_values existing.row.id db in
    let h' : replay existing body db ≡ ok (response, db1) = rw (e, record_decision) at h in
    let (u, matching, h1) =
      >>=-eq-ok (guard (decision_matches_replay existing stored body) idempotency_key_reused) _
        h' in
    let (r, answer, h2) = >>=-eq-ok (assemble_replay_response existing stored db) _ h1 in
    let same = ok_inj h2 in
    let (own, with_key) = keyed exception_id key db existing e in
    (
      own,
      with_key,
      subst (λ d. IsReplayed existing db body response d) (ap (λ p. p.1) same)
          (assembled existing db body response
            (guard-ok (decision_matches_replay existing stored body) _ u matching)
            (answer ∙ ap ok (ap (λ p. p.0) same))),
    )
