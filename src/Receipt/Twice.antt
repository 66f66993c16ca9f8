-- ===== src/Receipt/Twice.antt =====
-- server/src/services/receipt.service.ts: a receipt with two findings on one field.
use cargo_execution_assistan.Prelude.{
  ℕ, ◌≡◌, sym, ap, ◌∙◌, Bool, true, false, ◌||◌, ◌≢◌, String, Option, List, [], ◌∷◌, map, any, ok,
  ok_inj, str_eq, eq_iff, Bool-cases, inl, inr, arith,
}
use cargo_execution_assistan.Text.{Text, Platform, codes, text_eq}
use cargo_execution_assistan.Text.Laws.{text_eq_refl}
use cargo_execution_assistan.Text.Encoding.{iso_string}
use cargo_execution_assistan.Canonical.{AuditValue}
use cargo_execution_assistan.Validation.Entry.{CanonicalEntryRecord}
use cargo_execution_assistan.Validation.Rule.{Finding, ValidationEvaluation}
use cargo_execution_assistan.Validation.Engine.{evaluate}
use cargo_execution_assistan.Validation.Rules.{rules}
use cargo_execution_assistan.Database.{Database}
use cargo_execution_assistan.Audit.{field_twice}
use cargo_execution_assistan.Audit.Sound.{AllAdmitted, validate-IsAdmissible}
use cargo_execution_assistan.Receipt.Write.{ReceiptSupply}
use cargo_execution_assistan.Receipt.{
  ReceiptPrincipal, ReceiptResponse, finding_value_row, receive_entry,
}
use cargo_execution_assistan.Receipt.Written.{receive_entry-ok}

-- Two findings name the same field.
abbrev pub finding_twice : List Finding → Bool
finding_twice [] = false
finding_twice (f ∷ fs) = any (λ g. str_eq g.field_name f.field_name) fs || finding_twice fs

any-admitted :
    (f : Finding) (fs : List Finding) (v : AuditValue) (vs : List AuditValue)
    → v.field_name ≡ codes f.field_name
    → AllAdmitted (map finding_value_row fs) vs
    → any (λ g. str_eq g.field_name f.field_name) fs ≡ true
    → any (λ w. text_eq w.field_name v.field_name) vs ≡ true
any-admitted f [] v [] named all h = cc
any-admitted f [] v (w ∷ vs) named all h = elim all [ ]
any-admitted f (g ∷ fs) v [] named all h = elim all [ ]
any-admitted f (g ∷ fs) v (w ∷ vs) named (admitted, all) h =
    elim (Bool-cases (str_eq g.field_name f.field_name)) [
      | inl e ↦
          let same : text_eq w.field_name v.field_name ≡ true =
            rw (admitted.field, named, (eq_iff g.field_name f.field_name).0 e)
              (text_eq_refl (codes f.field_name)) in
          ground (arith, same)
      | inr e ↦ let later = any-admitted f fs v vs named all (rw e at h) in ground (arith, later)
    ]

finding_twice-field_twice :
    (fs : List Finding) (vs : List AuditValue)
    → AllAdmitted (map finding_value_row fs) vs
    → finding_twice fs ≡ true
    → field_twice vs ≡ true
finding_twice-field_twice [] [] all h = cc
finding_twice-field_twice [] (v ∷ vs) all h = elim all [ ]
finding_twice-field_twice (f ∷ fs) [] all h = elim all [ ]
finding_twice-field_twice (f ∷ fs) (v ∷ vs) (admitted, all) h =
    elim (Bool-cases (any (λ g. str_eq g.field_name f.field_name) fs)) [
      | inl e ↦ let now = any-admitted f fs v vs admitted.field all e in ground (arith, now)
      | inr e ↦ let later = finding_twice-field_twice fs vs all (rw e at h) in ground (arith, later)
    ]

-- A submission on which the rules make two findings for one field is never received: the audit entry
-- of the validation would need two values for the field, whose key admits one.
pub receive_entry-two_findings :
    (sha256 : List ℕ → List ℕ) (platform : Platform) (supply : ReceiptSupply)
    (principal : ReceiptPrincipal) (request_id : Option Text) (submitted : CanonicalEntryRecord)
    (provided : List String) (db : Database) (evaluation : ValidationEvaluation)
    → evaluate submitted (iso_string supply.now) (rules platform) ≡ ok evaluation
    → finding_twice evaluation.findings ≡ true
    → (response : ReceiptResponse) (db' : Database)
    → receive_entry sha256 platform supply principal request_id submitted provided db
      ≢ ok (response, db')
receive_entry-two_findings sha256 platform supply principal request_id submitted provided db
      evaluation evaluated twice response db' h =
    let (s, r, same) =
      receive_entry-ok sha256 platform supply principal request_id submitted provided db response
        db' h in
    let equal : evaluation ≡ r.evaluation = ok_inj (sym evaluated ∙ r.evaluated) in
    let stored = validate-IsAdmissible _ r.second.actor r.second.values r.second.valid in
    let two : field_twice r.second.values ≡ true =
      finding_twice-field_twice r.evaluation.findings r.second.values stored.content
        (ap (λ e. finding_twice e.findings) (sym equal) ∙ twice) in
    let one : field_twice r.second.values ≡ false =
      ap (λ e. field_twice e.values) (sym r.second.content) ∙ r.second.inserted.distinct_fields in
    cc
