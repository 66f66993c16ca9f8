-- ===== src/Audit/Sound.antt =====
-- server/src/services/audit/writer.ts: what the audit store admits.
use cargo_execution_assistan.Prelude.{
  ℕ, ◌≡◌, refl, sym, ap, ◌⊎◌, inl, inr, Bool, true, false, ◌&&◌, ◌||◌, not, Option, none, some,
  List, [], ◌∷◌, ok, guard, throw_if, >>=-eq-ok, ok_inj, guard-ok, throw_if-ok, is_some, length,
  ltb, ◌≤◌, arith, Bool-cases, subst,
}
use cargo_execution_assistan.Text.{Text, among, trim}
use cargo_execution_assistan.Canonical.{Origin, AuditValue}
use cargo_execution_assistan.Database.{Session, Supply, AuditRow, option_eq}
use cargo_execution_assistan.Validation.Entry.{entry_fields}
use cargo_execution_assistan.Audit.Secrets.{is_secret_field_name}
use cargo_execution_assistan.Audit.{
  AuditAppendValue, AuditAppendInput, audit_action_types, reason_required_actions,
  reason_forbidden_actions, creation_actions, is_secret, invalid, forbidden, normalise_value,
  normalise_values, check_reason, validate_actor, validate, is_empty, append, with_audit_row,
}
use cargo_execution_assistan.Audit.Step.{append_lem}

-- A value has an origin.
abbrev pub HasOrigin : Option Text → Option Origin → Type 0
HasOrigin none o = Unit
HasOrigin (some v) none = ⊥
HasOrigin (some v) (some o) = Unit

-- A stored value is the given one, verbatim; it is on a field of the entry, carries no secret and has
-- at least one side; each side that is there has an origin; and it counts as changed exactly when the
-- sides differ.
pub record IsAdmitted (given : AuditAppendValue) (v : AuditValue) : Type 0 where
  pub field : v.field_name ≡ given.field_name
  pub before : v.before_value ≡ given.before_value
  pub after : v.after_value ≡ given.after_value
  pub known : among v.field_name entry_fields ≡ true
  pub plain_name : is_secret_field_name v.field_name ≡ false
  pub plain_before : is_secret v.before_value ≡ false
  pub plain_after : is_secret v.after_value ≡ false
  pub some_side : (is_some v.before_value || is_some v.after_value) ≡ true
  pub before_attributed : HasOrigin v.before_value v.before_origin
  pub after_attributed : HasOrigin v.after_value v.after_origin
  pub compared : v.changed ≡ not (option_eq v.before_value v.after_value)

-- One stored value for each given one, in order.
abbrev pub AllAdmitted : List AuditAppendValue → List AuditValue → Type 0
AllAdmitted [] [] = Unit
AllAdmitted [] (_ ∷ _) = ⊥
AllAdmitted (_ ∷ _) [] = ⊥
AllAdmitted (g ∷ given) (v ∷ vs) = IsAdmitted g v × AllAdmitted given vs

has_origin :
    (v : Option Text) (o : Option Origin) → (is_some v && not (is_some o)) ≡ false → HasOrigin v o
has_origin none o h = tt
has_origin (some v) none h = cc
has_origin (some v) (some o) h = tt

normalise_value-IsAdmitted :
    (g : AuditAppendValue) (v : AuditValue) → normalise_value g ≡ ok v → IsAdmitted g v
unfolding normalise_value
normalise_value-IsAdmitted g v h =
    let secret = is_secret g.before_value || is_secret g.after_value in
    let sides = is_some g.before_value || is_some g.after_value in
    let no_before = is_some g.before_value && not (is_some g.before_origin) in
    let no_after = is_some g.after_value && not (is_some g.after_origin) in
    let (u1, e1, h1) = >>=-eq-ok (throw_if (is_secret_field_name g.field_name) forbidden) _ h in
    let (u2, e2, h2) = >>=-eq-ok (guard (among g.field_name entry_fields) invalid) _ h1 in
    let (u3, e3, h3) = >>=-eq-ok (throw_if secret forbidden) _ h2 in
    let (u4, e4, h4) = >>=-eq-ok (guard sides invalid) _ h3 in
    let (u5, e5, h5) = >>=-eq-ok (throw_if no_before invalid) _ h4 in
    let (u6, e6, h6) = >>=-eq-ok (throw_if no_after invalid) _ h5 in
    let name = throw_if-ok (is_secret_field_name g.field_name) _ u1 e1 in
    let known = guard-ok (among g.field_name entry_fields) _ u2 e2 in
    let plain : secret ≡ false = throw_if-ok secret _ u3 e3 in
    let present : sides ≡ true = guard-ok sides _ u4 e4 in
    let before = has_origin g.before_value g.before_origin (throw_if-ok no_before _ u5 e5) in
    let after = has_origin g.after_value g.after_origin (throw_if-ok no_after _ u6 e6) in
    subst (λ (w : AuditValue). IsAdmitted g w) (ok_inj h6)
      (record {
        field = refl;
        before = refl;
        after = refl;
        known = known;
        plain_name = name;
        plain_before = or_left (is_secret g.before_value) (is_secret g.after_value) plain;
        plain_after = or_right (is_secret g.before_value) (is_secret g.after_value) plain;
        some_side = present;
        before_attributed = before;
        after_attributed = after;
        compared = refl;
      })
  where
    or_left : (a b : Bool) → (a || b) ≡ false → a ≡ false
    or_left a b k = ground arith

    or_right : (a b : Bool) → (a || b) ≡ false → b ≡ false
    or_right a b k = ground arith

normalise_values-AllAdmitted :
    (given : List AuditAppendValue) (vs : List AuditValue)
    → normalise_values given ≡ ok vs
    → AllAdmitted given vs
unfolding normalise_values
normalise_values-AllAdmitted [] vs h =
    subst (λ (l : List AuditValue). AllAdmitted [] l) (ok_inj h) tt
normalise_values-AllAdmitted (g ∷ given) vs h =
    let (v, first, h1) = >>=-eq-ok (normalise_value g) _ h in
    let (rest, later, h2) = >>=-eq-ok (normalise_values given) _ h1 in
    subst (λ (l : List AuditValue). AllAdmitted (g ∷ given) l) (ok_inj h2)
      (normalise_value-IsAdmitted g v first, normalise_values-AllAdmitted given rest later)

-- The reason that goes with an action: of at least ten code units, after a trim, where one is
-- required, none where it is forbidden, and any or none otherwise.
abbrev pub IsReasoned : Text → Option Text → Type 0
IsReasoned action none = among action reason_required_actions ≡ false
IsReasoned action (some reason) =
    ((among action reason_required_actions ≡ true) × (10 ≤ length (trim reason)))
    ⊎ ((among action reason_required_actions ≡ false)
        × (among action reason_forbidden_actions ≡ false))

check_reason-IsReasoned :
    (action : Text) (reason : Option Text) (u : Unit {0})
    → check_reason action reason ≡ ok u
    → IsReasoned action reason
unfolding check_reason
check_reason-IsReasoned action none u h = throw_if-ok (among action reason_required_actions) _ u h
check_reason-IsReasoned action (some reason) u h =
    elim (Bool-cases (among action reason_required_actions)) [
      | inl required ↦
          let h' = rw (required, check_reason) at h in
          let long = throw_if-ok (ltb (length (trim reason)) 10) _ u h' in
          inl (required, ground arith)
      | inr free ↦
          let h' = rw (free, check_reason) at h in
          inr (free, throw_if-ok (among action reason_forbidden_actions) _ u h')
    ]

-- What is stored for an entry: one of the eight actions, with the reason that goes with it, and the
-- values as given.
pub record IsAdmissible (entry : AuditAppendInput) (values : List AuditValue) : Type 0 where
  pub action : among entry.action_type audit_action_types ≡ true
  pub reasoned : IsReasoned entry.action_type entry.reason
  pub from_state :
      (is_some entry.before_state ≡ true) ⊎ (among entry.action_type creation_actions ≡ true)
  pub content : AllAdmitted entry.values values

pub validate-IsAdmissible :
    (entry : AuditAppendInput) (actor : Text × Option Text) (values : List AuditValue)
    → validate entry ≡ ok (actor, values)
    → IsAdmissible entry values
unfolding validate
validate-IsAdmissible entry actor values h =
    let no_state =
      not (is_some entry.before_state) && not (among entry.action_type creation_actions) in
    let (u1, e1, h1) = >>=-eq-ok (guard (among entry.action_type audit_action_types) invalid) _ h in
    let (a, e2, h2) = >>=-eq-ok (validate_actor entry.actor) _ h1 in
    let (u3, e3, h3) = >>=-eq-ok (throw_if (is_empty entry.after_state) invalid) _ h2 in
    let (u4, e4, h4) = >>=-eq-ok (throw_if no_state invalid) _ h3 in
    let (u5, e5, h5) = >>=-eq-ok (check_reason entry.action_type entry.reason) _ h4 in
    let (vs, e6, h6) = >>=-eq-ok (normalise_values entry.values) _ h5 in
    record {
      action = guard-ok (among entry.action_type audit_action_types) _ u1 e1;
      reasoned = check_reason-IsReasoned entry.action_type entry.reason u5 e5;
      from_state =
          either (is_some entry.before_state) (among entry.action_type creation_actions)
            (throw_if-ok no_state _ u4 e4);
      content =
          subst (λ (l : List AuditValue). AllAdmitted entry.values l) (ap (λ r. r.1) (ok_inj h6))
            (normalise_values-AllAdmitted entry.values vs e6);
    }
  where
    either : (a b : Bool) → (not a && not b) ≡ false → (a ≡ true) ⊎ (b ≡ true)
    either true b k = inl refl
    either false true k = inr refl
    either false false k = cc

-- An `append` that returns adds one row, for one of the eight actions. The row holds the given values
-- verbatim, each on a field of the entry, none with a secret in its name or on a side, and every side
-- that is there with an origin. Its reason has at least ten code units, after a trim, where the
-- action requires one, and is absent where the action forbids it. An entry without a state before is
-- one of a creation.
pub append-IsAdmissible :
    (sha256 : List ℕ → List ℕ) (supply : Supply) (entry : AuditAppendInput) (s : Session)
    (id : Text) (s1 : Session)
    → append sha256 supply entry s ≡ ok (id, s1)
    → (row : AuditRow) × (s1 ≡ with_audit_row row s)
      × (row.entry.action_type ≡ entry.action_type)
      × (row.entry.reason ≡ entry.reason)
      × IsAdmissible entry row.entry.values
append-IsAdmissible sha256 supply entry s id s1 h =
    let a = append_lem sha256 supply entry s id s1 h in
    (
      a.row,
      a.inserted.stored,
      ap (λ e. e.action_type) a.content,
      ap (λ e. e.reason) a.content,
      subst (λ (l : List AuditValue). IsAdmissible entry l) (sym (ap (λ e. e.values) a.content))
          (validate-IsAdmissible entry a.actor a.values a.valid),
    )
