-- ===== src/Audit/Total.antt =====
-- server/src/services/audit/writer.ts: a valid entry for an existing case is refused by nothing but a
-- constraint of the database.
use cargo_execution_assistan.Prelude.{
  ℕ, ◌≡◌, refl, sym, ap, ◌∙◌, ◌⊎◌, inl, inr, true, Option, List, [], ◌∷◌, ok, err, guard, >>=-eq-ok,
  ok_inj, any, length, check_all-cases, Fails, ◌==◌, suc,
}
use cargo_execution_assistan.Text.{Text, text_eq}
use cargo_execution_assistan.Canonical.{
  AuditEntry, AuditValue, zero_hash, compute_entry_hash, canonical_json, payload, bad_prev_hash,
}
use cargo_execution_assistan.Canonical.Total.{compute_entry_hash_total}
use cargo_execution_assistan.Database.{Session, Supply, AuditRow, Thrown, of_case}
use cargo_execution_assistan.Audit.{
  AuditAppendInput, validate, next_sequence, insert_audit_entry, audit_constraints, with_audit_row,
  canonical_entry, append,
}
use cargo_execution_assistan.Audit.Chain.{IsLinked, IsChained, last_hash, link_at_lem}

module _ (sha256 : List ℕ → List ℕ) (digest : (m : List ℕ) → length (sha256 m) ≡ 32) where
  hash_length :
      (e : AuditEntry) (prev hash : List ℕ)
      → compute_entry_hash sha256 e prev ≡ ok hash
      → length hash ≡ 32
  unfolding compute_entry_hash
  hash_length e prev hash h =
      let (u, guarded, h1) = >>=-eq-ok (guard (length prev == 32) bad_prev_hash) _ h in
      let (json, done, h2) = >>=-eq-ok (canonical_json (payload e)) _ h1 in
      ap length (sym (ok_inj h2)) ∙ digest _

  length-last_hash :
      (n : ℕ) (prev : List ℕ) (rows : List AuditRow)
      → length prev ≡ 32
      → IsLinked sha256 n prev rows
      → length (last_hash prev rows) ≡ 32
  length-last_hash n prev [] h linked = h
  length-last_hash n prev (row ∷ rows) h linked =
      length-last_hash (suc n) row.entry_hash rows
        (hash_length row.entry prev row.entry_hash linked.2) linked.3

  inserted_or_refused :
      (row : AuditRow) (s : Session)
      → (insert_audit_entry row s ≡ ok (with_audit_row row s))
        ⊎ ((thrown : Thrown) × (insert_audit_entry row s ≡ err thrown)
            × Fails thrown (audit_constraints row s.db))
  unfolding insert_audit_entry
  inserted_or_refused row s = elim (check_all-cases (audit_constraints row s.db)) [
    | inl passed ↦ inl (rw (passed, insert_audit_entry) refl)
    | inr (thrown, stopped, failing) ↦ inr (thrown, rw (stopped, insert_audit_entry) refl, failing)
  ]

  -- With a hash of 32 bytes and whole chains, an `append` of a valid entry for an existing case
  -- either returns the new id, with the entry's row added, or throws what a constraint that the row
  -- violates names: no predecessor is ever missing and the hash is always computed.
  pub append_total :
      (supply : Supply) (entry : AuditAppendInput) (s : Session) (actor : Text × Option Text)
      (values : List AuditValue)
      → IsChained sha256 s.db
      → validate entry ≡ ok (actor, values)
      → any (λ e. text_eq e.id entry.case_id) s.db.cargo_entries ≡ true
      → (row : AuditRow) × (row.entry
          ≡ canonical_entry supply entry (next_sequence entry.case_id s.db) actor values)
        × ((append sha256 supply entry s ≡ ok (supply.audit_entry_id, with_audit_row row s))
            ⊎ ((thrown : Thrown) × (append sha256 supply entry s ≡ err thrown)
                × Fails thrown (audit_constraints row s.db)))
  unfolding append
  append_total supply entry s actor values chained valid known =
      let rows = of_case entry.case_id s.db.audit_entries in
      let content = canonical_entry supply entry (next_sequence entry.case_id s.db) actor values in
      let linked = link_at_lem sha256 rows (chained entry.case_id) in
      let prev = last_hash zero_hash rows in
      let (m, hashed) =
        compute_entry_hash_total sha256 content prev
          (length-last_hash 1 zero_hash rows refl (chained entry.case_id)) in
      let row : AuditRow = record {
        id = supply.audit_entry_id;
        entry = content;
        prev_entry_hash = prev;
        entry_hash = sha256 m;
      } in
      (
        row,
        refl,
        elim (inserted_or_refused row s) [
          | inl done ↦ inl (
              rw (valid, append)
                (rw (known, append)
                  (rw (linked, append) (rw (hashed, append) (rw (done, append) refl)))))
          | inr (thrown, stopped, failing) ↦ inr (
            thrown,
            rw (valid, append)
                (rw (known, append)
                  (rw (linked, append) (rw (hashed, append) (rw (stopped, append) refl)))),
            failing,
          )
        ],
      )
