-- ===== src/Decision/Commits.antt =====
-- server/src/services/decision.service.ts and 0009_invariant_triggers.sql: the triggers find nothing to
-- refuse in what the decision transaction writes.
use cargo_execution_assistan.Prelude.{
  ◌-◌, ◌≡◌, refl, sym, ap, ◌∙◌, inl, inr, Bool, true, false, ◌&&◌, ◌||◌, some, List, [], ◌∷◌, ◌++◌,
  ok, >>=-eq-ok, ok_inj, any, find, find-true, find-false, keep_if, keep_if-append, keep_if-true,
  keep_if-false, ◌==◌, arith, Bool-cases, Option-cases,
}
use cargo_execution_assistan.Text.{Text, text_eq}
use cargo_execution_assistan.Text.Laws.{text_eq_iff, text_eq_refl}
use cargo_execution_assistan.Canonical.{zero_hash}
use cargo_execution_assistan.Database.{
  Database, Supply, CaseState, open_state, resolved, rejected, ExceptionRow, DecisionRow, AuditRow,
  Event, audit_check_chain, has_human_decision, has_one_audit_entry, check_event, check_events,
  of_case, at_sequence, option_eq, state_eq,
}
use cargo_execution_assistan.Audit.{link_at}
use cargo_execution_assistan.Decision.Write.{closed, closings}

pub check_events-append :
    (db : Database) (xs ys : List Event)
    → check_events db xs ≡ ok tt
    → check_events db ys ≡ ok tt
    → check_events db (xs ++ ys) ≡ ok tt
check_events-append db [] ys h k = k
check_events-append db (x ∷ xs) ys h k =
    let (u, first, rest) = >>=-eq-ok (check_event db x) (λ _. check_events db xs) h in
    rw first (check_events-append db xs ys rest k)

module _ {A : Type 0} (p : A → Bool) where
  find-append : (xs ys : List A) (x : A) → find p xs ≡ some x → find p (xs ++ ys) ≡ some x
  find-append [] ys x h = cc
  find-append (y ∷ xs) ys x h = elim (Bool-cases (p y)) [
    | inl hit ↦ find-true p y (xs ++ ys) hit ∙ (sym (find-true p y xs hit) ∙ h)
    | inr miss ↦
        find-false p y (xs ++ ys) miss ∙ find-append xs ys x (sym (find-false p y xs miss) ∙ h)
  ]

  keep_if-none : (xs : List A) → any p xs ≡ false → keep_if p xs ≡ []
  keep_if-none [] h = refl
  keep_if-none (x ∷ xs) h =
      let miss : p x ≡ false = ground arith in
      let rest : any p xs ≡ false = ground arith in keep_if-false p x xs miss ∙ keep_if-none xs rest

  any-last : (xs : List A) (x : A) → p x ≡ true → any p (xs ++ x ∷ []) ≡ true
  any-last [] x h = ground arith
  any-last (y ∷ xs) x h = ground (arith, any-last xs x h)

-- The entry that the writer links is linked for the trigger.
pub linked_for_trigger :
    (row : AuditRow) (db : Database) (before : List AuditRow)
    → db.audit_entries ≡ before ++ row ∷ []
    → link_at row.entry.case_sequence (of_case row.entry.case_id before) ≡ ok row.prev_entry_hash
    → audit_check_chain row db ≡ true
unfolding audit_check_chain link_at
linked_for_trigger row db before e h = elim (Bool-cases (row.entry.case_sequence == 1)) [
  | inl first ↦
      let genesis : zero_hash ≡ row.prev_entry_hash = ok_inj (rw (first, link_at) at h) in
      rw (first, audit_check_chain) ((text_eq_iff zero_hash row.prev_entry_hash).1 genesis)
  | inr later ↦
      let h' = rw (later, link_at) at h in
      elim (Option-cases
        (at_sequence (row.entry.case_sequence - 1) (of_case row.entry.case_id before))) [
          | inl missing ↦ let h'' = rw (missing, link_at) at h' in cc
          | inr (previous, found) ↦
              let same : previous.entry_hash ≡ row.prev_entry_hash =
                ok_inj (rw (found, link_at) at h') in
              let still : at_sequence (row.entry.case_sequence - 1)
                    (of_case row.entry.case_id db.audit_entries)
                  ≡ some previous =
                rw
                  (
                    e,
                    keep_if-append (λ (a : AuditRow). text_eq a.entry.case_id row.entry.case_id)
                        before (row ∷ []),
                  )
                  (find-append
                    (λ (a : AuditRow). a.entry.case_sequence == row.entry.case_sequence - 1)
                    (of_case row.entry.case_id before) (of_case row.entry.case_id (row ∷ []))
                    previous found) in
              rw (later, audit_check_chain)
                (rw (still, audit_check_chain)
                  ((text_eq_iff previous.entry_hash row.prev_entry_hash).1 same))
        ]
]

-- The one audit entry of a new decision.
pub one_entry :
    (row : DecisionRow) (db : Database) (before : List AuditRow) (audit : AuditRow)
    → db.audit_entries ≡ before ++ audit ∷ []
    → any (λ a. option_eq a.entry.decision_id (some row.id)) before ≡ false
    → audit.entry.decision_id ≡ some row.id
    → has_one_audit_entry row db ≡ true
unfolding has_one_audit_entry
one_entry row db before audit e fresh own =
    let hit : option_eq audit.entry.decision_id (some row.id) ≡ true =
      rw own (text_eq_refl row.id) in
    let kept : keep_if (λ a. option_eq a.entry.decision_id (some row.id)) db.audit_entries
        ≡ audit ∷ [] =
      rw e (
        keep_if-append (λ (a : AuditRow). option_eq a.entry.decision_id (some row.id)) before
          (audit ∷ [])
        ∙ (ap
              (λ l.
                l
                ++ keep_if (λ (a : AuditRow). option_eq a.entry.decision_id (some row.id))
                    (audit ∷ []))
              (keep_if-none (λ (a : AuditRow). option_eq a.entry.decision_id (some row.id)) before
                fresh)
            ∙ keep_if-true (λ (a : AuditRow). option_eq a.entry.decision_id (some row.id)) audit []
                hit)) in
    rw kept refl

state_eq_refl : (state : CaseState) → state_eq state state ≡ true
state_eq_refl open_state = refl
state_eq_refl resolved = refl
state_eq_refl rejected = refl

all_of :
    (a b c d : Bool) → a ≡ true → b ≡ true → c ≡ true → d ≡ true → (a && (b && (c && d))) ≡ true
all_of a b c d ha hb hc hd = ground arith

or_right : (a b : Bool) → b ≡ true → (a || b) ≡ true
or_right a b h = ground arith

-- The closed exceptions have the human decision that they name.
pub closings_decided :
    (id : Text) (state : CaseState) (supply : Supply) (row : DecisionRow)
    (before : List DecisionRow) (db : Database) (xs : List ExceptionRow)
    → db.decisions ≡ before ++ row ∷ []
    → row.id ≡ supply.decision_id
    → row.exception_id ≡ id
    → row.resulting_state ≡ state
    → any (λ s. text_eq s.id row.decided_by) db.specialists ≡ true
    → check_events db (closings id state supply xs) ≡ ok tt
unfolding has_human_decision
closings_decided id state supply row before db [] e i x t known = refl
closings_decided id state supply row before db (ex ∷ xs) e i x t known =
    let rest = closings_decided id state supply row before db xs e i x t known in
    elim (Bool-cases (text_eq ex.id id)) [
      | inr other ↦ rw (other, closings) rest
      | inl own ↦
          let named : ex.id ≡ id = (text_eq_iff ex.id id).0 own in
          let same_case = (text_eq_iff row.exception_id ex.id).1 (x ∙ sym named) in
          let same_decision = (text_eq_iff row.id supply.decision_id).1 i in
          let same_state : state_eq row.resulting_state state ≡ true = rw t (state_eq_refl state) in
          let listed =
            any-last
              (λ (d : DecisionRow).
                text_eq d.exception_id ex.id
                && (text_eq d.id supply.decision_id
                    && (state_eq d.resulting_state state
                        && any (λ s. text_eq s.id d.decided_by) db.specialists)))
              before row (all_of _ _ _ _ same_case same_decision same_state known) in
          let found : has_human_decision (closed state supply ex) db ≡ true =
            or_right (state_eq state open_state) _ (rw e listed) in
          rw (own, closings) (rw found rest)
    ]
