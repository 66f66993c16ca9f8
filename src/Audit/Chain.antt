-- ===== src/Audit/Chain.antt =====
-- server/src/services/audit/writer.ts and server/src/db/canonical.ts: the hash chain of every case.
use mathlib.Core.List.{append_cancel_right}
use cargo_execution_assistan.Prelude.{
  ℕ, suc, ◌+◌, ◌-◌, ◌≡◌, refl, sym, ap, ◌∙◌, subst, inl, inr, Bool, true, false, some, List, [],
  ◌∷◌, ◌++◌, ok, keep_if-append, keep_if-true, keep_if-false, find-true, find-false, append-nil,
  length, arith, Bool-cases, ok_inj, ◌==◌,
}
use cargo_execution_assistan.Text.{Text, text_eq}
use cargo_execution_assistan.Text.Laws.{text_eq_iff}
use cargo_execution_assistan.Canonical.{zero_hash, compute_entry_hash}
use cargo_execution_assistan.Database.{Database, Session, Supply, AuditRow, of_case, at_sequence}
use cargo_execution_assistan.Audit.{
  AuditAppendInput, max_sequence, next_sequence, link_at, previous_hash, append,
}
use cargo_execution_assistan.Audit.Step.{IsAppended, append_lem}

-- The hash that comes next in a chain is linked to.
abbrev pub last_hash : List ℕ → List AuditRow → List ℕ
last_hash prev [] = prev
last_hash prev (row ∷ rows) = last_hash row.entry_hash rows

module _ (sha256 : List ℕ → List ℕ) where
  -- The rows are numbered from `n` on without a gap, each is linked to the hash of the one before it,
  -- the first to `prev`, and each stores the hash of its own content.
  abbrev pub IsLinked : ℕ → List ℕ → List AuditRow → Type 0
  IsLinked n prev [] = Unit
  IsLinked n prev (row ∷ rows) =
      (row.entry.case_sequence ≡ n)
      × (row.prev_entry_hash ≡ prev)
      × (compute_entry_hash sha256 row.entry prev ≡ ok row.entry_hash)
      × IsLinked (suc n) row.entry_hash rows

  -- The entries of every case form a chain from the genesis link.
  abbrev pub IsChained : Database → Type 0
  IsChained db = (case_id : Text) → IsLinked 1 zero_hash (of_case case_id db.audit_entries)

  max_sequence_lem :
      (n : ℕ) (prev : List ℕ) (row : AuditRow) (rows : List AuditRow)
      → IsLinked n prev (row ∷ rows)
      → max_sequence (row ∷ rows) ≡ n + length rows
  max_sequence_lem n prev row [] h = ground arith
  max_sequence_lem n prev row (next ∷ rows) h =
      let rest = max_sequence_lem (suc n) row.entry_hash next rows h.3 in ground arith

  -- The number of the next entry of a chain.
  pub next_number :
      (rows : List AuditRow) → IsLinked 1 zero_hash rows → max_sequence rows + 1 ≡ 1 + length rows
  next_number [] h = omega arith
  next_number (row ∷ rows) h = omega (arith, max_sequence_lem 1 zero_hash row rows h)

  at_sequence_last :
      (n : ℕ) (prev : List ℕ) (row : AuditRow) (rows : List AuditRow)
      → IsLinked n prev (row ∷ rows)
      → (last : AuditRow) × (at_sequence (n + length rows) (row ∷ rows) ≡ some last)
        × (last.entry_hash ≡ last_hash prev (row ∷ rows))
  at_sequence_last n prev row [] h =
      let hit : (row.entry.case_sequence == n + 0) ≡ true = ground arith in
      (row, find-true (λ x. x.entry.case_sequence == n + 0) row [] hit, refl)
  at_sequence_last n prev row (next ∷ rows) h =
      let (last, found, same) = at_sequence_last (suc n) row.entry_hash next rows h.3 in
      let miss : (row.entry.case_sequence == n + suc (length rows)) ≡ false = ground arith in
      let shifted : n + suc (length rows) ≡ suc n + length rows = omega arith in
      (
        last,
        find-false (λ x. x.entry.case_sequence == n + suc (length rows)) row (next ∷ rows) miss
            ∙ (ap (λ k. at_sequence k (next ∷ rows)) shifted ∙ found),
        same,
      )

  link_found :
      (n : ℕ) (rows : List AuditRow) (last : AuditRow)
      → (n == 1) ≡ false
      → at_sequence (n - 1) rows ≡ some last
      → link_at n rows ≡ ok last.entry_hash
  unfolding link_at
  link_found n rows last h found = rw (h, link_at) (rw (found, link_at) refl)

  -- The link of the next entry of a chain.
  pub link_at_lem :
      (rows : List AuditRow)
      → IsLinked 1 zero_hash rows
      → link_at (max_sequence rows + 1) rows ≡ ok (last_hash zero_hash rows)
  unfolding link_at
  link_at_lem [] h = refl
  link_at_lem (row ∷ rows) h =
      let (last, found, same) = at_sequence_last 1 zero_hash row rows h in
      let number = next_number (row ∷ rows) h in
      let before : max_sequence (row ∷ rows) + 1 - 1 ≡ 1 + length rows = omega (arith, number) in
      let later : (max_sequence (row ∷ rows) + 1 == 1) ≡ false = ground (arith, number) in
      link_found (max_sequence (row ∷ rows) + 1) (row ∷ rows) last later
        (ap (λ k. at_sequence k (row ∷ rows)) before ∙ found)
      ∙ ap ok same

  IsLinked-append :
      (n : ℕ) (prev : List ℕ) (rows : List AuditRow) (row : AuditRow)
      → IsLinked n prev rows
      → row.entry.case_sequence ≡ n + length rows
      → row.prev_entry_hash ≡ last_hash prev rows
      → compute_entry_hash sha256 row.entry row.prev_entry_hash ≡ ok row.entry_hash
      → IsLinked n prev (rows ++ row ∷ [])
  IsLinked-append n prev [] row h number link hash = (
    omega arith,
    link,
    subst (λ p. compute_entry_hash sha256 row.entry p ≡ ok row.entry_hash) link hash,
    tt,
  )
  IsLinked-append n prev (r ∷ rows) row h number link hash =
      (h.0, h.1, h.2, IsLinked-append (suc n) r.entry_hash rows row h.3 (omega arith) link hash)

  pub IsAppended-IsChained :
      (supply : Supply) (entry : AuditAppendInput) (s : Session) (id : Text) (s1 : Session)
      → IsChained s.db
      → IsAppended sha256 supply entry s id s1
      → IsChained s1.db
  IsAppended-IsChained supply entry s id s1 chained a case_id =
      let row = a.row in
      rw (a.inserted.stored, keep_if-append (is_own case_id) s.db.audit_entries (row ∷ []))
        (elim (Bool-cases (is_own case_id row)) [
          | inr other ↦
              rw
                (
                  keep_if-false (is_own case_id) row [] other,
                  append-nil (of_case case_id s.db.audit_entries),
                )
                (chained case_id)
          | inl own ↦
              rw (keep_if-true (is_own case_id) row [] own)
                (own_chain a ((text_eq_iff row.entry.case_id case_id).0 own))
        ])
    where
      is_own : Text → AuditRow → Bool
      is_own case_id r = text_eq r.entry.case_id case_id

      own_chain :
          (a : IsAppended sha256 supply entry s id s1)
          → a.row.entry.case_id ≡ case_id
          → IsLinked 1 zero_hash (of_case case_id s.db.audit_entries ++ a.row ∷ [])
      own_chain a own =
          let same : entry.case_id ≡ case_id = sym (ap (λ e. e.case_id) a.content) ∙ own in
          let linked = chained case_id in
          let number : a.row.entry.case_sequence ≡ next_sequence case_id s.db =
            ap (λ e. e.case_sequence) a.content ∙ ap (λ c. next_sequence c s.db) same in
          let link : previous_hash case_id (next_sequence case_id s.db) s.db
              ≡ ok a.row.prev_entry_hash =
            subst (λ c. previous_hash c (next_sequence c s.db) s.db ≡ ok a.row.prev_entry_hash) same
              a.linked in
          IsLinked-append 1 zero_hash (of_case case_id s.db.audit_entries) a.row linked
            (number ∙ next_number (of_case case_id s.db.audit_entries) linked)
            (ok_inj (sym link ∙ link_at_lem (of_case case_id s.db.audit_entries) linked)) a.hashed

  -- Every `append` that returns keeps the entries of every case numbered from 1 without a gap, each
  -- linked to the hash of the one before it, the first to the zero hash, and each stored with the
  -- hash of its own content.
  pub append-IsChained :
      (supply : Supply) (entry : AuditAppendInput) (s : Session) (id : Text) (s1 : Session)
      → IsChained s.db
      → append sha256 supply entry s ≡ ok (id, s1)
      → IsChained s1.db
  append-IsChained supply entry s id s1 chained h =
      IsAppended-IsChained supply entry s id s1 chained (append_lem sha256 supply entry s id s1 h)

  -- The same after an entry that is the only new one since an earlier state.
  pub IsAppended-IsChained_after :
      (supply : Supply) (entry : AuditAppendInput) (s : Session) (id : Text) (s1 : Session)
      (db : Database) (a : IsAppended sha256 supply entry s id s1)
      → s1.db.audit_entries ≡ db.audit_entries ++ a.row ∷ []
      → IsChained db
      → IsChained s1.db
  IsAppended-IsChained_after supply entry s id s1 db a only chained =
      let stored : s1.db.audit_entries ≡ s.db.audit_entries ++ a.row ∷ [] =
        ap (λ (t : Session). t.db.audit_entries) a.inserted.stored in
      let same : s.db.audit_entries ≡ db.audit_entries =
        append_cancel_right s.db.audit_entries db.audit_entries (a.row ∷ []) (sym stored ∙ only) in
      IsAppended-IsChained supply entry s id s1 (λ case_id. rw same (chained case_id)) a
