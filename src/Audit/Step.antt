-- ===== src/Audit/Step.antt =====
-- server/src/services/audit/writer.ts: what an `append` that returns has done.
use cargo_execution_assistan.Prelude.{
  ℕ, ◌≡◌, refl, ap, ◌∙◌, sym, Bool, true, false, not, Option, List, Result, ok, err, guard,
  >>=-eq-ok, ok_inj, check_all, check_all_iff, length, any, arith, ==_iff,
}
use cargo_execution_assistan.Text.{Text, text_eq}
use cargo_execution_assistan.Canonical.{AuditValue, compute_entry_hash}
use cargo_execution_assistan.Database.{Session, Supply, AuditRow, Thrown, hashing}
use cargo_execution_assistan.Audit.{
  AuditAppendInput, validate, next_sequence, previous_hash, lift_hash, insert_audit_entry,
  canonical_entry, append, field_twice, audit_constraints, with_audit_row, invalid,
}

lift_hash-ok :
    {A : Type 0} {E : Type 0} (f : E → Thrown) (m : Result E A) (a : A)
    → lift_hash f m ≡ ok a
    → m ≡ ok a
lift_hash-ok f (ok b) a h = ground arith
lift_hash-ok f (err e) a h = cc

-- What the constraints ensured of a row that was inserted.
pub record IsInserted (row : AuditRow) (s s1 : Session) : Type 0 where
  pub stored : s1 ≡ with_audit_row row s
  pub fresh_id : any (λ a. text_eq a.id row.id) s.db.audit_entries ≡ false
  pub fresh_hash : any (λ a. text_eq a.entry_hash row.entry_hash) s.db.audit_entries ≡ false
  pub distinct_fields : field_twice row.entry.values ≡ false
  pub hash_length : length row.entry_hash ≡ 32

not-true : (b : Bool) → not b ≡ true → b ≡ false
not-true b h = ground arith

pub insert_audit_entry_lem :
    (row : AuditRow) (s s1 : Session) → insert_audit_entry row s ≡ ok s1 → IsInserted row s s1
unfolding insert_audit_entry audit_constraints
insert_audit_entry_lem row s s1 h =
    let (u, checked, h1) = >>=-eq-ok (check_all (audit_constraints row s.db)) _ h in
    let (_, (_, (hash, (id, (_, (unique, (fields, _))))))) =
      (check_all_iff (audit_constraints row s.db) u).0 checked in
    record {
      stored = sym (ok_inj h1);
      fresh_id = not-true _ id;
      fresh_hash = not-true _ unique;
      distinct_fields = not-true _ fields;
      hash_length = (==_iff (length row.entry_hash) 32).0 hash;
    }

-- What an `append` that returns has done: it has added one entry, with what the input says, the next
-- sequence number of its case, the time of the transaction, and the link and the hash that belong to
-- it.
pub record IsAppended (sha256 : List ℕ → List ℕ) (supply : Supply) (entry : AuditAppendInput)
    (s : Session) (id : Text) (s1 : Session) : Type 0 where
  pub actor : Text × Option Text
  pub values : List AuditValue
  pub row : AuditRow
  pub valid : validate entry ≡ ok (actor, values)
  pub content :
      row.entry ≡ canonical_entry supply entry (next_sequence entry.case_id s.db) actor values
  pub named : (id ≡ supply.audit_entry_id) × (row.id ≡ id)
  pub linked :
      previous_hash entry.case_id (next_sequence entry.case_id s.db) s.db ≡ ok row.prev_entry_hash
  pub hashed : compute_entry_hash sha256 row.entry row.prev_entry_hash ≡ ok row.entry_hash
  pub inserted : IsInserted row s s1

pub append_lem :
    (sha256 : List ℕ → List ℕ) (supply : Supply) (entry : AuditAppendInput) (s : Session)
    (id : Text) (s1 : Session)
    → append sha256 supply entry s ≡ ok (id, s1)
    → IsAppended sha256 supply entry s id s1
unfolding append
append_lem sha256 supply entry s id s1 h =
    let ((actor, values), valid, h1) = >>=-eq-ok (validate entry) _ h in
    let (u, known, h2) =
      >>=-eq-ok (guard (any (λ e. text_eq e.id entry.case_id) s.db.cargo_entries) invalid) _ h1 in
    let (prev, linked, h3) =
      >>=-eq-ok (previous_hash entry.case_id (next_sequence entry.case_id s.db) s.db) _ h2 in
    let (hash, hashed, h4) =
      >>=-eq-ok
        (lift_hash hashing (
          compute_entry_hash sha256
            (canonical_entry supply entry (next_sequence entry.case_id s.db) actor values) prev))
        _ h3 in
    let (s2, inserted, h5) =
      >>=-eq-ok (insert_audit_entry (row_of prev hash actor values) s) _ h4 in
    record {
      actor = actor;
      values = values;
      row = row_of prev hash actor values;
      valid = valid;
      content = refl;
      named = (sym (ap (λ r. r.0) (ok_inj h5)), ap (λ r. r.0) (ok_inj h5));
      linked = linked;
      hashed = lift_hash-ok hashing _ hash hashed;
      inserted =
          let same : s2 ≡ s1 = ap (λ r. r.1) (ok_inj h5) in
          insert_audit_entry_lem _ s s1 (inserted ∙ ap ok same);
    }
  where
    row_of : List ℕ → List ℕ → Text × Option Text → List AuditValue → AuditRow
    row_of prev hash actor values = record {
      id = supply.audit_entry_id;
      entry = canonical_entry supply entry (next_sequence entry.case_id s.db) actor values;
      prev_entry_hash = prev;
      entry_hash = hash;
    }
