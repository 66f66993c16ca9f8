-- ===== src/Decision/Once.antt =====
-- server/src/services/decision.service.ts: one decision per case, ever.
use cargo_execution_assistan.Prelude.{
  ℕ, ◌≡◌, refl, sym, ap, ◌∙◌, subst, Bool, true, false, not, Option, none, some, List, [], ◌∷◌, ok,
  err, ok_inj, any, find, find-true, find-false, find-any, find-append-none, find-holds, arith,
  Bool-cases, Option-cases, inl, inr,
}
use cargo_execution_assistan.Text.{Text, text_eq}
use cargo_execution_assistan.Text.Laws.{text_eq_iff}
use cargo_execution_assistan.Text.Encoding.{iso_string}
use cargo_execution_assistan.Database.{
  Database, Supply, CaseState, open_state, approve, edit_approve, reject, DecisionType,
  ExceptionRow, DecisionRow, SpecialistRow, already_decided, state_eq, with_transaction,
}
use cargo_execution_assistan.Decision.{
  decision_row, must_be_open, open_exception, run_decision, record_decision,
}
use cargo_execution_assistan.Decision.Planning.{DecisionCreateRequest}
use cargo_execution_assistan.Decision.Write.{close_matching, closed, decision_constraints}
use cargo_execution_assistan.Decision.Replay.{
  DecisionPrincipal, Decided, DecisionRecordResponse, joined, load_decision_by_exception,
  load_decision_by_idempotency_key,
}
use cargo_execution_assistan.Decision.Lawful.{state_of, make_plan-IsLawful}
use cargo_execution_assistan.Decision.Committed.{IsCommitted, record_decision-IsCommitted}

-- The exception that is found after the UPDATE is the closed one.
find-close_matching :
    (id : Text) (state : CaseState) (supply : Supply) (xs : List ExceptionRow) (ex : ExceptionRow)
    → find (λ e. text_eq e.id id) xs ≡ some ex
    → find (λ e. text_eq e.id id) (close_matching ex.id state supply xs)
      ≡ some (closed state supply ex)
find-close_matching id state supply [] ex h = cc
find-close_matching id state supply (x ∷ xs) ex h =
    let named : ex.id ≡ id = (text_eq_iff ex.id id).0 (find-holds has_id (x ∷ xs) ex h) in
    elim (Bool-cases (text_eq x.id id)) [
      | inl hit ↦
          let same : some x ≡ some ex = sym (find-true has_id x xs hit) ∙ h in
          let row : x ≡ ex = cc in
          let own : text_eq x.id ex.id ≡ true = rw named hit in
          rw (own, row)
            (find-true has_id (closed state supply ex) (close_matching ex.id state supply xs)
              (rw (← row) hit))
      | inr miss ↦
          let other : text_eq x.id ex.id ≡ false = rw named miss in
          let later =
            find-close_matching id state supply xs ex (sym (find-false has_id x xs miss) ∙ h) in
          rw other (find-false has_id x (close_matching ex.id state supply xs) miss ∙ later)
    ]
  where
    has_id : ExceptionRow → Bool
    has_id e = text_eq e.id id

must_be_open_lem :
    (id : Text) (db : Database) (row ex : ExceptionRow) → must_be_open id db row ≡ ok ex → row ≡ ex
unfolding must_be_open
must_be_open_lem id db row ex h = elim (Bool-cases (state_eq row.state open_state)) [
  | inl is_open ↦ ok_inj (rw (is_open, must_be_open) at h)
  | inr shut ↦ elim (Option-cases (load_decision_by_exception id db)) [
    | inl missing ↦ let h' = rw (shut, missing, must_be_open) at h in cc
    | inr (d, found) ↦ let h' = rw (shut, found, must_be_open) at h in cc
  ]
]

-- An open exception is the one that is found.
open_exception_lem :
    (id : Text) (db : Database) (ex : ExceptionRow)
    → open_exception id db ≡ ok ex
    → find (λ e. text_eq e.id id) db.exceptions ≡ some ex
unfolding open_exception
open_exception_lem id db ex h = elim (Option-cases (find (λ e. text_eq e.id id) db.exceptions)) [
  | inl missing ↦ let h' = rw (missing, open_exception) at h in cc
  | inr (row, found) ↦
      found ∙ ap some (must_be_open_lem id db row ex (rw (found, open_exception) at h))
]

-- A case that is closed by a decision is refused, with the decision.
open_exception-closed :
    (id : Text) (db : Database) (ex : ExceptionRow) (d : Decided)
    → find (λ e. text_eq e.id id) db.exceptions ≡ some ex
    → state_eq ex.state open_state ≡ false
    → load_decision_by_exception id db ≡ some d
    → open_exception id db
      ≡ err (
          already_decided d.row.decision_type d.decided_by_display_name
            (iso_string d.row.decided_at))
unfolding open_exception must_be_open
open_exception-closed id db ex d found shut recorded =
    rw (found, open_exception) (rw (shut, must_be_open) (rw (recorded, must_be_open) refl))

state_of-closed : (t : DecisionType) → state_eq (state_of t) open_state ≡ false
state_of-closed approve = refl
state_of-closed edit_approve = refl
state_of-closed reject = refl

joined_lem :
    (row : DecisionRow) (db : Database)
    → any (λ s. text_eq s.id row.decided_by) db.specialists ≡ true
    → (s : SpecialistRow) × (find (λ s. text_eq s.id row.decided_by) db.specialists ≡ some s)
      × (joined (some row) db
          ≡ some (record { row = row; decided_by_display_name = s.display_name }))
joined_lem row db h =
    let (s, found) = find-any (λ s. text_eq s.id row.decided_by) db.specialists h in
    (s, found, rw (found, joined) refl)

not-true : (b : Bool) → not b ≡ true → b ≡ false
not-true b h = ground arith

module _ (sha256 : List ℕ → List ℕ) (supply : Supply) (principal : DecisionPrincipal)
    (request_id : Option Text) (body : DecisionCreateRequest) (key : Option Text)
    (exception_id : Text) (response : DecisionRecordResponse) (db db1 : Database) where
  -- The case that a decision was recorded on refuses every other one.
  recorded_refuses :
      IsCommitted sha256 supply principal request_id body key exception_id response db db1
      → (author : SpecialistRow) × (find (λ s. text_eq s.id principal.id) db.specialists
          ≡ some author)
        × (open_exception exception_id db1
            ≡ err (already_decided body.decision_type author.display_name (iso_string supply.now)))
  unfolding decision_constraints load_decision_by_exception
  recorded_refuses r =
      let row = decision_row supply principal r.ex.id r.recommendation.id body key r.plan in
      let found = open_exception_lem exception_id db r.ex r.was_open in
      let named : r.ex.id ≡ exception_id =
        (text_eq_iff r.ex.id exception_id).0
          (find-holds (λ e. text_eq e.id exception_id) db.exceptions r.ex found) in
      let (_, (_, (_, (_, (first, (_, (_, (known, _)))))))) = r.constraints in
      let lawful = make_plan-IsLawful db r.recommendation r.ex.entry_id body r.plan r.planned in
      let shut : state_eq r.plan.resulting_state open_state ≡ false =
        rw lawful.state (state_of-closed body.decision_type) in
      let unseen : any (λ d. text_eq d.exception_id exception_id) db.decisions ≡ false =
        subst (λ k. any (λ d. text_eq d.exception_id k) db.decisions ≡ false) named
          (not-true (any (λ d. text_eq d.exception_id r.ex.id) db.decisions) first) in
      let seen =
        find-append-none (λ d. text_eq d.exception_id exception_id) db.decisions row unseen
          ((text_eq_iff r.ex.id exception_id).1 named) in
      let (author, is_author, with_name) = joined_lem row db1 (rw r.committed known) in
      let loaded : load_decision_by_exception exception_id db1
          ≡ some (record { row = row; decided_by_display_name = author.display_name }) =
        ap (λ o. joined o db1) {y = some row} (rw r.committed seen) ∙ with_name in
      let closed_row : find (λ e. text_eq e.id exception_id) db1.exceptions
          ≡ some (closed r.plan.resulting_state supply r.ex) =
        rw r.committed (
          find-close_matching exception_id r.plan.resulting_state supply db.exceptions r.ex
            found) in
      (
        author,
        rw r.committed at is_author,
        open_exception-closed exception_id db1 (closed r.plan.resulting_state supply r.ex)
            (record { row = row; decided_by_display_name = author.display_name }) closed_row shut
            loaded,
      )

  -- Once a decision is recorded on a case, every further request on it, by whomever and whatever it
  -- says, throws that the case is already decided, with the kind and the time of the recorded
  -- decision and the name of the specialist who made it, unless it is a replay by a key that the
  -- decision was recorded with.
  pub record_decision-once :
      (supply2 : Supply) (principal2 : DecisionPrincipal) (request_id2 : Option Text)
      (body2 : DecisionCreateRequest) (key2 : Option Text)
      → load_decision_by_idempotency_key exception_id key db ≡ none
      → record_decision sha256 supply principal request_id exception_id body key db
        ≡ ok (response, db1)
      → load_decision_by_idempotency_key exception_id key2 db1 ≡ none
      → (author : SpecialistRow) × (find (λ s. text_eq s.id principal.id) db.specialists
          ≡ some author)
        × (record_decision sha256 supply2 principal2 request_id2 exception_id body2 key2 db1
            ≡ err (already_decided body.decision_type author.display_name (iso_string supply.now)))
  unfolding record_decision run_decision with_transaction
  record_decision-once supply2 principal2 request_id2 body2 key2 fresh h fresh2 =
      let (author, is_author, refused) = recorded_refuses (
        record_decision-IsCommitted sha256 supply principal request_id body key exception_id
          response db db1 fresh h) in
      (author, is_author, rw (fresh2, record_decision) (rw (refused, run_decision) refl))
