-- ===== src/Decision/Reads.antt =====
-- server/src/services/decision.service.ts: what the reads of a decision say where they return,
-- and who is the author of its audit entry.
use cargo_execution_assistan.Prelude.{
  ◌≡◌, refl, sym, ap, ◌∙◌, ◌⊎◌, inl, inr, false, not, Option, none, some, List, ok, find, >>=-eq-ok,
  ok_inj, guard, is_some, ◌&&◌, throw_if, throw_if-ok, or_throw, arith, Bool-cases, Option-cases,
}
use cargo_execution_assistan.Text.{Text, text_eq, among}
use cargo_execution_assistan.Text.Laws.{text_eq_iff}
use cargo_execution_assistan.Database.{
  Database, open_state, ExceptionRow, RecommendationRow, state_eq, state_eq-open, Thrown,
  read_invariant, recommendation_mismatch,
}
use cargo_execution_assistan.Canonical.{AuditValue}
use cargo_execution_assistan.Audit.{
  AuditAppendInput, specialist, audit_action_types, creation_actions, invalid, is_empty,
  check_reason, normalise_values, validate_actor, validate,
}
use cargo_execution_assistan.Decision.{
  names_another, must_be_open, open_exception, current_recommendation,
}
use cargo_execution_assistan.Decision.Planning.{DecisionCreateRequest}
use cargo_execution_assistan.Decision.Replay.{load_decision_by_exception}

or_throw-ok : {A : Type 0} (o : Option A) (e : Thrown) (a : A) → or_throw o e ≡ ok a → o ≡ some a
or_throw-ok none e a h = cc
or_throw-ok (some b) e a h = ap some (ok_inj h)

-- The author of an entry that is appended for a specialist.
pub validate-author :
    (entry : AuditAppendInput) (id : Text) (actor : Text × Option Text) (values : List AuditValue)
    → entry.actor ≡ specialist id
    → validate entry ≡ ok (actor, values)
    → actor.1 ≡ some id
unfolding validate validate_actor
validate-author entry id actor values named h =
    let (u1, e1, h1) = >>=-eq-ok (guard (among entry.action_type audit_action_types) invalid) _ h in
    let (a, e2, h2) = >>=-eq-ok (validate_actor entry.actor) _ h1 in
    let (u3, e3, h3) = >>=-eq-ok (throw_if (is_empty entry.after_state) invalid) _ h2 in
    let (u4, e4, h4) =
      >>=-eq-ok
        (throw_if
          (not (is_some entry.before_state) && not (among entry.action_type creation_actions))
          invalid)
        _ h3 in
    let (u5, e5, h5) = >>=-eq-ok (check_reason entry.action_type entry.reason) _ h4 in
    let (vs, e6, h6) = >>=-eq-ok (normalise_values entry.values) _ h5 in
    let e2' : validate_actor (specialist id) ≡ ok a = rw named at e2 in
    let (u7, e7, h7) = >>=-eq-ok (throw_if (is_empty id) invalid) _ e2' in
    ap (λ p. p.0.1) (sym (ok_inj h6)) ∙ ap (λ p. p.1) (sym (ok_inj h7))

must_be_open-open :
    (id : Text) (db : Database) (row ex : ExceptionRow)
    → must_be_open id db row ≡ ok ex
    → (row ≡ ex) × (ex.state ≡ open_state)
unfolding must_be_open
must_be_open-open id db row ex h = elim (Bool-cases (state_eq row.state open_state)) [
  | inl is_open ↦
      let same : row ≡ ex = ok_inj (rw (is_open, must_be_open) at h) in
      (same, ap (λ e. e.state) (sym same) ∙ state_eq-open row.state is_open)
  | inr shut ↦ elim (Option-cases (load_decision_by_exception id db)) [
    | inl missing ↦ let h' = rw (shut, missing, must_be_open) at h in cc
    | inr (d, found) ↦ let h' = rw (shut, found, must_be_open) at h in cc
  ]
]

pub open_exception-open :
    (id : Text) (db : Database) (ex : ExceptionRow)
    → open_exception id db ≡ ok ex
    → (find (λ e. text_eq e.id id) db.exceptions ≡ some ex) × (ex.state ≡ open_state)
unfolding open_exception
open_exception-open id db ex h = elim (Option-cases (find (λ e. text_eq e.id id) db.exceptions)) [
  | inl missing ↦ let h' = rw (missing, open_exception) at h in cc
  | inr (row, found) ↦
      let (same, is_open) = must_be_open-open id db row ex (rw (found, open_exception) at h) in
      (found ∙ ap some same, is_open)
]

pub current_recommendation-current :
    (id : Text) (body : DecisionCreateRequest) (db : Database) (r : RecommendationRow)
    → current_recommendation id body db ≡ ok r
    → (find (λ r. text_eq r.exception_id id) db.recommendations ≡ some r)
      × ((body.recommendation_id ≡ none) ⊎ (body.recommendation_id ≡ some r.id))
unfolding current_recommendation
current_recommendation-current id body db r h =
    let (found, looked, h1) =
      >>=-eq-ok (or_throw (find (λ r. text_eq r.exception_id id) db.recommendations) read_invariant)
        _ h in
    let (u, same_one, h2) =
      >>=-eq-ok (throw_if (names_another body.recommendation_id found.id) recommendation_mismatch) _
        h1 in
    let same : found ≡ r = ok_inj h2 in
    (
      or_throw-ok (find (λ r. text_eq r.exception_id id) db.recommendations) read_invariant found
            looked
          ∙ ap some same,
      named body.recommendation_id (
          ap (λ x. names_another body.recommendation_id x.id) (sym same)
          ∙ throw_if-ok (names_another body.recommendation_id found.id) recommendation_mismatch u
              same_one),
    )
  where
    named :
        (given : Option Text)
        → names_another given r.id ≡ false
        → (given ≡ none) ⊎ (given ≡ some r.id)
    named none e = inl refl
    named (some other) e = inr (ap some ((text_eq_iff other r.id).0 (ground (arith, e))))
