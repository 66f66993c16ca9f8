-- ===== src/Queue/Grouped.antt =====
-- server/src/db/repositories/validation.ts: what `loadFindingsByValidationResultIds` has for an id.
use cargo_execution_assistan.Prelude.{
  ◌≡◌, refl, sym, ap, ◌∙◌, inl, inr, true, false, List, [], ◌∷◌, ◌++◌, map, any, Bool-cases,
  keep_if, keep_if-true, keep_if-false, append_assoc, append-nil,
}
use cargo_execution_assistan.Text.{Text, codes, text_eq}
use cargo_execution_assistan.Text.Laws.{text_eq_iff}
use cargo_execution_assistan.Text.Map.{set, get-set, get-set_other}
use cargo_execution_assistan.Canonical.{sort_by}
use cargo_execution_assistan.Canonical.Keep.{keep_if-sort_by, keep_if-sort_by-key}
use cargo_execution_assistan.Validation.Rule.{Finding}
use cargo_execution_assistan.Database.{Database, FindingRow}
use cargo_execution_assistan.Queue.{
  bucket, group, ordered_findings, load_findings_by_validation_result_ids,
}

-- The findings of one validation, by their rules.
abbrev pub findings_of : Text → Database → List Finding
findings_of id db =
    map (λ f. f.content)
      (sort_by (λ f. codes f.content.rule_id)
        (keep_if (λ f. text_eq f.validation_result_id id) db.validation_findings))

abbrev kept : Text → List FindingRow → List Finding
kept id fs = map (λ f. f.content) (keep_if (λ f. text_eq f.validation_result_id id) fs)

bucket-group :
    (id : Text) (fs : List FindingRow) (m : List (Text × List Finding))
    → bucket id (group fs m) ≡ bucket id m ++ kept id fs
bucket-group id [] m = sym (append-nil (bucket id m))
bucket-group id (f ∷ fs) m =
    let vr = f.validation_result_id in
    let pushed = bucket vr m ++ f.content ∷ [] in
    bucket-group id fs (set vr pushed m) ∙ (elim (Bool-cases (text_eq vr id)) [
      | inl own ↦
          let same : vr ≡ id = (text_eq_iff vr id).0 own in
          let now : bucket id (set vr pushed m) ≡ bucket id m ++ f.content ∷ [] =
            rw same (rw (get-set id (bucket id m ++ f.content ∷ []) m, bucket) refl) in
          ap (λ l. l ++ kept id fs) now
          ∙ append_assoc (bucket id m) (f.content ∷ []) (kept id fs)
          ∙ ap (λ l. bucket id m ++ map (λ g. g.content) l)
              (sym (keep_if-true (λ g. text_eq g.validation_result_id id) f fs own))
      | inr other ↦
          let now : bucket id (set vr pushed m) ≡ bucket id m =
            rw (get-set_other id vr pushed m other, bucket) refl in
          ap (λ l. l ++ kept id fs) now
          ∙ ap (λ l. bucket id m ++ map (λ g. g.content) l)
              (sym (keep_if-false (λ g. text_eq g.validation_result_id id) f fs other))
    ])

keep_if-absorb :
    (id : Text) (ids : List Text) (fs : List FindingRow)
    → any (text_eq id) ids ≡ true
    → keep_if
        (λ f. text_eq f.validation_result_id id)
        (keep_if (λ f. any (text_eq f.validation_result_id) ids) fs)
      ≡ keep_if (λ f. text_eq f.validation_result_id id) fs
keep_if-absorb id ids [] h = refl
keep_if-absorb id ids (f ∷ fs) h =
    let own = λ (g : FindingRow). text_eq g.validation_result_id id in
    let asked = λ (g : FindingRow). any (text_eq g.validation_result_id) ids in
    elim (Bool-cases (asked f)) [
      | inl hit ↦ ap (keep_if own) (keep_if-true asked f fs hit) ∙ (elim (Bool-cases (own f)) [
        | inl mine ↦
            keep_if-true own f (keep_if asked fs) mine
            ∙ ap (λ l. f ∷ l) (keep_if-absorb id ids fs h)
            ∙ sym (keep_if-true own f fs mine)
        | inr other ↦
            keep_if-false own f (keep_if asked fs) other
            ∙ keep_if-absorb id ids fs h
            ∙ sym (keep_if-false own f fs other)
      ])
      | inr miss ↦
          let other : own f ≡ false = (elim (Bool-cases (own f)) [
            | inl mine ↦
                let same : f.validation_result_id ≡ id =
                  (text_eq_iff f.validation_result_id id).0 mine in
                let found : asked f ≡ true = rw same h in cc
            | inr e ↦ e
          ]) in
          ap (keep_if own) (keep_if-false asked f fs miss)
          ∙ keep_if-absorb id ids fs h
          ∙ sym (keep_if-false own f fs other)
    ]

-- For an id that is asked for, the map has the findings of its validation by their rules.
pub load_findings-findings_of :
    (id : Text) (ids : List Text) (db : Database)
    → any (text_eq id) ids ≡ true
    → bucket id (load_findings_by_validation_result_ids ids db) ≡ findings_of id db
unfolding load_findings_by_validation_result_ids
load_findings-findings_of id ids db h =
    let own = λ (g : FindingRow). text_eq g.validation_result_id id in
    let asked = keep_if (λ f. any (text_eq f.validation_result_id) ids) db.validation_findings in
    bucket-group id (ordered_findings ids db) []
    ∙ ap (map (λ f. f.content)) (
        keep_if-sort_by-key (λ (f : FindingRow). f.validation_result_id) id
          (sort_by (λ (f : FindingRow). codes f.content.rule_id) asked)
        ∙ keep_if-sort_by (λ (f : FindingRow). codes f.content.rule_id) own asked
        ∙ ap (sort_by (λ (f : FindingRow). codes f.content.rule_id))
            (keep_if-absorb id ids db.validation_findings h))
