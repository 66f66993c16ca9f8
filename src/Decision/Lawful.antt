-- ===== src/Decision/Lawful.antt =====
-- server/src/services/decision.service.ts: what the kind of a decision settles, whatever the request
-- says.
use cargo_execution_assistan.Prelude.{
  ◌≤◌, ◌≡◌, ◌≢◌, Paired, map-Paired, refl, sym, ap, ◌∙◌, ◌⊎◌, inl, inr, String, true, false, Option,
  none, some, List, [], ◌∷◌, map, Result, ok, err, guard, throw_if, >>=-eq-ok, ok_inj, guard-ok,
  throw_if-ok, length, arith, is_some, Bool-cases, ltb, if◌then◌else◌,
}
use cargo_execution_assistan.Text.{Text, codes, trim}
use cargo_execution_assistan.Database.{
  Database, CaseState, resolved, rejected, DecisionType, approve, edit_approve, reject,
  RecommendationRow, RecommendationStatus, pending, available, unavailable, ProposedValue,
  ResolutionValue, Thrown, recommendation_not_available, resolution_values_not_allowed,
  reason_required, request_malformed, resolution_values_incomplete,
}
use cargo_execution_assistan.Canonical.{ai}
use cargo_execution_assistan.Canonical.Keep.{IsSelection, sort_by-IsSelection}
use cargo_execution_assistan.Audit.{is_empty, AuditAppendValue}
use cargo_execution_assistan.Decision.Planning.{
  DecisionCreateRequest, Submitted, Plan, validate_reason, assert_no_duplicate_fields, is_available,
  edit_approve_against_proposal, edit_approve_direct, load_recommendation_values, audit_row_for,
  adopted, declined, plan_approve, plan_edit, plan_edit_approve, plan_reject, make_plan,
}

abbrev pub state_of : DecisionType → CaseState
state_of approve = resolved
state_of edit_approve = resolved
state_of reject = rejected

abbrev pub action_of : DecisionType → String
action_of approve = "RECOMMENDATION_APPROVED"
action_of edit_approve = "RECOMMENDATION_EDITED_AND_APPROVED"
action_of reject = "RECOMMENDATION_REJECTED"

-- A reason of ten to 2000 code units is given, and is stored trimmed.
abbrev pub IsRequired : Option Text → Option Text → Type 0
IsRequired given stored =
    (g : Text) × (given ≡ some g)
    × (stored ≡ some (trim g))
    × (10 ≤ length (trim g))
    × (length (trim g) ≤ 2000)

-- No reason is stored, or the given one, trimmed and of at most 2000 code units.
abbrev pub IsOptional : Option Text → Option Text → Type 0
IsOptional given stored =
    (stored ≡ none)
    ⊎ ((g : Text) × (given ≡ some g) × (stored ≡ some (trim g)) × (length (trim g) ≤ 2000))

abbrev pub IsReason : DecisionType → Option Text → Option Text → Type 0
IsReason approve = IsOptional
IsReason edit_approve = IsRequired
IsReason reject = IsRequired

required_lem :
    (given stored : Option Text) → validate_reason given true ≡ ok stored → IsRequired given stored
unfolding validate_reason
required_lem none stored h = cc
required_lem (some g) stored h =
    let (u, long, h1) =
      >>=-eq-ok (throw_if (ltb (length (trim g)) 10) (reason_required true)) _ h in
    let (v, short, h2) = >>=-eq-ok (throw_if (ltb 2000 (length (trim g))) request_malformed) _ h1 in
    let at_least = throw_if-ok (ltb (length (trim g)) 10) _ u long in
    let at_most = throw_if-ok (ltb 2000 (length (trim g))) _ v short in
    (g, refl, sym (ok_inj h2), ground arith, ground arith)

optional_lem :
    (given stored : Option Text) → validate_reason given false ≡ ok stored → IsOptional given stored
unfolding validate_reason
optional_lem none stored h = inl (sym (ok_inj h))
optional_lem (some g) stored h = elim (Bool-cases (is_empty (trim g))) [
  | inl blank ↦ inl (sym (ok_inj (rw (blank, validate_reason) at h)))
  | inr text ↦
      let h' = rw (text, validate_reason) at h in
      let (v, short, h2) =
        >>=-eq-ok (throw_if (ltb 2000 (length (trim g))) request_malformed) _ h' in
      let at_most = throw_if-ok (ltb 2000 (length (trim g))) _ v short in
      inr (g, refl, sym (ok_inj h2), ground arith)
]

-- The values proposed by a recommendation, by their fields.
abbrev pub IsProposed : Text → Database → List ProposedValue → Type 0
IsProposed id db ps =
    IsSelection (λ p. p.recommendation_id) (λ p. p.field_name) id db.recommendation_values ps

-- The proposed value as the AI made it, unchanged.
abbrev pub IsAdopted : ProposedValue → ResolutionValue → Type 0
IsAdopted p v =
    (v.field_name ≡ p.field_name)
    × (v.value ≡ p.proposed_value)
    × (v.origin ≡ ai)
    × (v.prior_value ≡ some p.proposed_value)
    × (v.prior_origin ≡ some ai)
    × (v.changed_from_proposal ≡ false)

-- The audit row of an adopted value, and that of a proposal that is declined.
abbrev pub IsAuditOf : ResolutionValue → AuditAppendValue → Type 0
IsAuditOf v a =
    (a.field_name ≡ v.field_name)
    × (a.before_value ≡ v.prior_value)
    × (a.before_origin ≡ v.prior_origin)
    × (a.after_value ≡ some v.value)
    × (a.after_origin ≡ some v.origin)

abbrev pub IsDeclined : ProposedValue → AuditAppendValue → Type 0
IsDeclined p a =
    (a.field_name ≡ p.field_name)
    × (a.before_value ≡ some p.proposed_value)
    × (a.before_origin ≡ some ai)
    × (a.after_value ≡ none)
    × (a.after_origin ≡ none)

load-IsProposed : (id : Text) (db : Database) → IsProposed id db (load_recommendation_values id db)
load-IsProposed id db =
    sort_by-IsSelection (λ p. p.recommendation_id) (λ p. p.field_name) id db.recommendation_values

audited : (values : List ResolutionValue) → Paired IsAuditOf values (map audit_row_for values)
audited values = map-Paired IsAuditOf audit_row_for (λ v. (refl, refl, refl, refl, refl)) values

available_iff : (t : RecommendationStatus) → is_available t ≡ true → t ≡ available
available_iff pending h = cc
available_iff available h = refl
available_iff unavailable h = cc

module _ (db : Database) (recommendation : RecommendationRow) (entry_id : Text) where
  -- What is particular to a kind: an approval has an available recommendation and adopts its values
  -- unchanged, a rejection adopts none and audits those of an available recommendation as declined;
  -- the audit rows of an adoption are those of its values.
  abbrev pub IsOfKind : DecisionType → Plan → Type 0
  IsOfKind approve plan =
      (recommendation.status ≡ available)
      × (ps : List ProposedValue) × IsProposed recommendation.id db ps
      × Paired IsAdopted ps plan.resolution_values
      × Paired IsAuditOf plan.resolution_values plan.audit_values
  IsOfKind edit_approve plan = Paired IsAuditOf plan.resolution_values plan.audit_values
  IsOfKind reject plan =
      (plan.resolution_values ≡ [])
      × (((recommendation.status ≡ available)
            × (ps : List ProposedValue) × IsProposed recommendation.id db ps
            × Paired IsDeclined ps plan.audit_values)
          ⊎ ((recommendation.status ≢ available) × (plan.audit_values ≡ [])))

  -- What holds of every plan for a request.
  pub record IsLawful (body : DecisionCreateRequest) (plan : Plan) : Type 0 where
    pub state : plan.resulting_state ≡ state_of body.decision_type
    pub action : plan.action_type ≡ action_of body.decision_type
    pub reasoned : IsReason body.decision_type body.reason plan.reason
    pub kind : IsOfKind body.decision_type plan

  approve_lem :
      (body : DecisionCreateRequest) (plan : Plan)
      → body.decision_type ≡ approve
      → plan_approve db recommendation body ≡ ok plan
      → IsLawful body plan
  approve_lem body plan e h =
      let (u, known, h1) =
        >>=-eq-ok (guard (is_available recommendation.status) recommendation_not_available) _ h in
      let (v, bare, h2) =
        >>=-eq-ok (throw_if (is_some body.resolution_values) resolution_values_not_allowed) _ h1 in
      let (reason, given, h3) = >>=-eq-ok (validate_reason body.reason false) _ h2 in
      let same = sym (ok_inj h3) in
      record {
        state = ap (λ p. p.resulting_state) same ∙ ap state_of (sym e);
        action = ap (λ p. p.action_type) same ∙ ap action_of (sym e);
        reasoned = rw (e, ap (λ p. p.reason) same) (optional_lem body.reason reason given);
        kind = rw e (
          available_iff recommendation.status
              (guard-ok (is_available recommendation.status) _ u known),
          load_recommendation_values recommendation.id db,
          load-IsProposed recommendation.id db,
          rw (ap (λ p. p.resolution_values) same) (
              map-Paired IsAdopted adopted (λ p. (refl, refl, refl, refl, refl, refl))
                (load_recommendation_values recommendation.id db)),
          rw (ap (λ p. p.resolution_values) same, ap (λ p. p.audit_values) same)
              (audited (map adopted (load_recommendation_values recommendation.id db))),
        );
      }

  reject_lem :
      (body : DecisionCreateRequest) (plan : Plan)
      → body.decision_type ≡ reject
      → plan_reject db recommendation body ≡ ok plan
      → IsLawful body plan
  reject_lem body plan e h =
      let (reason, given, h1) = >>=-eq-ok (validate_reason body.reason true) _ h in
      let (v, bare, h2) =
        >>=-eq-ok (throw_if (is_some body.resolution_values) resolution_values_not_allowed) _ h1 in
      let same = sym (ok_inj h2) in
      record {
        state = ap (λ p. p.resulting_state) same ∙ ap state_of (sym e);
        action = ap (λ p. p.action_type) same ∙ ap action_of (sym e);
        reasoned = rw (e, ap (λ p. p.reason) same) (required_lem body.reason reason given);
        kind = rw e (ap (λ p. p.resolution_values) same, declining (ap (λ p. p.audit_values) same));
      }
    where
      rows : List AuditAppendValue
      rows = map declined (load_recommendation_values recommendation.id db)

      declining :
          plan.audit_values ≡ (if is_available recommendation.status then rows else [])
          → ((recommendation.status ≡ available)
              × (ps : List ProposedValue) × IsProposed recommendation.id db ps
              × Paired IsDeclined ps plan.audit_values)
            ⊎ ((recommendation.status ≢ available) × (plan.audit_values ≡ []))
      declining same = elim (Bool-cases (is_available recommendation.status)) [
        | inl there ↦
            let all : plan.audit_values ≡ rows = rw there at same in
            inl (
              available_iff recommendation.status there,
              load_recommendation_values recommendation.id db,
              load-IsProposed recommendation.id db,
              rw all (
                  map-Paired IsDeclined declined (λ p. (refl, refl, refl, refl, refl))
                    (load_recommendation_values recommendation.id db)),
            )
        | inr absent ↦ inr (
          λ e. let there : is_available recommendation.status ≡ true = rw e refl in cc,
          rw absent at same,
        )
      ]

  edit_lem :
      (body : DecisionCreateRequest) (submitted : List Submitted) (reason : Option Text)
      (plan : Plan)
      → body.decision_type ≡ edit_approve
      → validate_reason body.reason true ≡ ok reason
      → plan_edit db recommendation entry_id submitted reason ≡ ok plan
      → IsLawful body plan
  edit_lem body submitted reason plan e given h =
      let (u, distinct, h1) = >>=-eq-ok (assert_no_duplicate_fields [] submitted) _ h in
      let (values, found, h2) =
        >>=-eq-ok
          (if is_available recommendation.status
            then edit_approve_against_proposal submitted
                (load_recommendation_values recommendation.id db)
            else edit_approve_direct db submitted entry_id)
          _ h1 in
      let same = sym (ok_inj h2) in
      record {
        state = ap (λ p. p.resulting_state) same ∙ ap state_of (sym e);
        action = ap (λ p. p.action_type) same ∙ ap action_of (sym e);
        reasoned = rw (e, ap (λ p. p.reason) same) (required_lem body.reason reason given);
        kind = rw e (
            rw (ap (λ p. p.resolution_values) same, ap (λ p. p.audit_values) same)
              (audited values));
      }

  edit_approve_lem :
      (body : DecisionCreateRequest) (plan : Plan)
      → body.decision_type ≡ edit_approve
      → plan_edit_approve db recommendation entry_id body ≡ ok plan
      → IsLawful body plan
  edit_approve_lem body plan e h =
      let (reason, given, h1) = >>=-eq-ok (validate_reason body.reason true) _ h in
      submitted_lem body.resolution_values reason given refl (h1)
    where
      submitted_lem :
          (vs : Option (List Submitted)) (reason : Option Text)
          → validate_reason body.reason true ≡ ok reason
          → body.resolution_values ≡ vs
          → (elim vs as (λ _. Result Thrown Plan) [
            | none ↦ err (resolution_values_incomplete (codes "(at least one field)" ∷ []) [])
            | some [] ↦ err (resolution_values_incomplete (codes "(at least one field)" ∷ []) [])
            | some (s ∷ rest) ↦ plan_edit db recommendation entry_id (s ∷ rest) reason
          ])
            ≡ ok plan
          → IsLawful body plan
      submitted_lem none reason given same k = cc
      submitted_lem (some []) reason given same k = cc
      submitted_lem (some (s ∷ rest)) reason given same k =
          edit_lem body (s ∷ rest) reason plan e given k

  -- Every plan that `runDecision` carries out closes the case in the state of its kind, RESOLVED or
  -- REJECTED, under the kind's audit action. An edit or a rejection has a given reason of 10 to 2000
  -- code units, stored trimmed; an approval has an available recommendation and adopts each of its
  -- values unchanged, as the AI's; a rejection adopts none, and its audit rows are the values of an
  -- available recommendation, each declined. The audit rows of an adoption are those of its values.
  pub make_plan-IsLawful :
      (body : DecisionCreateRequest) (plan : Plan)
      → make_plan db recommendation entry_id body ≡ ok plan
      → IsLawful body plan
  unfolding make_plan
  make_plan-IsLawful body plan h = by_kind body.decision_type refl
    where
      by_kind : (t : DecisionType) → body.decision_type ≡ t → IsLawful body plan
      by_kind approve e = approve_lem body plan e (rw (e, make_plan) at h)
      by_kind edit_approve e = edit_approve_lem body plan e (rw (e, make_plan) at h)
      by_kind reject e = reject_lem body plan e (rw (e, make_plan) at h)
