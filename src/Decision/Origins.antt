-- ===== src/Decision/Origins.antt =====
-- `editApproveAgainstProposal` of server/src/services/decision.service.ts: who is recorded as the
-- author of each value of an edit.
use cargo_execution_assistan.Prelude.{
  ◌≡◌, refl, sym, ap, ◌∙◌, ◌↔◌, ◌⊎◌, inl, inr, Bool, true, false, ◌&&◌, not, Option, none, some,
  List, [], ◌∷◌, map, ok, err, or_throw, >>=-eq-ok, ok_inj, keep_if, Kept, keep_if-Kept, Any, arith,
  Bool-cases, Option-cases, if◌then◌else◌,
}
use cargo_execution_assistan.Text.{Text, text_eq, trim}
use cargo_execution_assistan.Text.Laws.{text_eq_iff}
use cargo_execution_assistan.Canonical.{ai, human}
use cargo_execution_assistan.Database.{
  ProposedValue, ResolutionValue, Thrown, read_invariant, resolution_values_incomplete,
}
use cargo_execution_assistan.Decision.Planning.{
  Submitted, names, last_proposal, against_proposal, values_against, missing_fields,
  unexpected_fields, is_nil, edit_approve_against_proposal,
}

-- The value that is recorded for a submitted one: as typed, beside its proposal, and the AI's exactly
-- when the two agree up to the space around them.
pub record IsAttributed (proposed : List ProposedValue) (s : Submitted) (v : ResolutionValue)
    : Type 0 where
  pub proposal : ProposedValue
  pub found : last_proposal s.field_name proposed ≡ some proposal
  pub own : proposal.field_name ≡ s.field_name
  pub proposed_here : Any (λ q. q ≡ proposal) proposed
  pub field : v.field_name ≡ s.field_name
  pub value : v.value ≡ s.value
  pub prior : v.prior_value ≡ some proposal.proposed_value
  pub prior_ai : v.prior_origin ≡ some ai
  pub origin : (v.origin ≡ ai) ↔ (trim s.value ≡ trim proposal.proposed_value)
  pub changed : (v.changed_from_proposal ≡ false) ↔ (trim s.value ≡ trim proposal.proposed_value)

-- One value for each submitted one, in order.
abbrev pub AllAttributed : List ProposedValue → List Submitted → List ResolutionValue → Type 0
AllAttributed proposed [] [] = Unit
AllAttributed proposed [] (_ ∷ _) = ⊥
AllAttributed proposed (_ ∷ _) [] = ⊥
AllAttributed proposed (s ∷ rest) (v ∷ vs) =
    IsAttributed proposed s v × AllAttributed proposed rest vs

author :
    (b : Bool)
    → (((if not b then human else ai) ≡ ai) ↔ (b ≡ true)) × ((not b ≡ false) ↔ (b ≡ true))
author true = ((λ h. refl, λ h. refl), (λ h. refl, λ h. refl))
author false = ((λ h. cc, λ h. cc), (λ h. cc, λ h. cc))

last_proposal-own :
    (f : Text) (proposed : List ProposedValue) (p : ProposedValue)
    → last_proposal f proposed ≡ some p
    → (p.field_name ≡ f) × Any (λ q. q ≡ p) proposed
last_proposal-own f [] p h = cc
last_proposal-own f (q ∷ qs) p h = elim (Option-cases (last_proposal f qs)) [
  | inr (r, later) ↦
      let h' = rw (later, last_proposal) at h in
      let (own, here) = last_proposal-own f qs p (later ∙ h') in (own, inr here)
  | inl none_later ↦ elim (Bool-cases (text_eq q.field_name f)) [
    | inl hit ↦
        let h' = rw (none_later, last_proposal) at h in
        let h'' : some q ≡ some p = rw hit at h' in
        let same : q ≡ p = cc in
        (ap (λ x. x.field_name) (sym same) ∙ (text_eq_iff q.field_name f).0 hit, inl same)
    | inr miss ↦
        let h' = rw (none_later, last_proposal) at h in
        let h'' : none ≡ some p = rw miss at h' in cc
  ]
]

against_proposal-IsAttributed :
    (proposed : List ProposedValue) (s : Submitted) (p : ProposedValue)
    → last_proposal s.field_name proposed ≡ some p
    → IsAttributed proposed s (against_proposal s p)
against_proposal-IsAttributed proposed s p found =
    let same = text_eq_iff (trim s.value) (trim p.proposed_value) in
    let (o, c) = author (text_eq (trim s.value) (trim p.proposed_value)) in
    record {
      proposal = p;
      found = found;
      own = (last_proposal-own s.field_name proposed p found).0;
      proposed_here = (last_proposal-own s.field_name proposed p found).1;
      field = refl;
      value = refl;
      prior = refl;
      prior_ai = refl;
      origin = (λ h. same.0 (o.0 h), λ h. o.1 (same.1 h));
      changed = (λ h. same.0 (c.0 h), λ h. c.1 (same.1 h));
    }

or_throw-ok : {A : Type 0} (o : Option A) (e : Thrown) (a : A) → or_throw o e ≡ ok a → o ≡ some a
or_throw-ok none e a h = cc
or_throw-ok (some b) e a h = ap some (ok_inj h)

values_against-AllAttributed :
    (proposed : List ProposedValue) (submitted : List Submitted) (vs : List ResolutionValue)
    → values_against proposed submitted ≡ ok vs
    → AllAttributed proposed submitted vs
unfolding values_against
values_against-AllAttributed proposed [] vs h = rw (← ok_inj h) tt
values_against-AllAttributed proposed (s ∷ rest) vs h =
    let (p, found, h1) =
      >>=-eq-ok (or_throw (last_proposal s.field_name proposed) read_invariant) _ h in
    let (later, done, h2) = >>=-eq-ok (values_against proposed rest) _ h1 in
    rw (← ok_inj h2) (
      against_proposal-IsAttributed proposed s p
          (or_throw-ok (last_proposal s.field_name proposed) _ p found),
      values_against-AllAttributed proposed rest later done,
    )

-- A proposal is found for a field that is among those proposed.
last_proposal-names :
    (f : Text) (proposed : List ProposedValue)
    → names f (map (λ p. p.field_name) proposed) ≡ true
    → (p : ProposedValue) × (last_proposal f proposed ≡ some p)
last_proposal-names f [] h = cc
last_proposal-names f (p ∷ ps) h = elim (Option-cases (last_proposal f ps)) [
  | inr (q, later) ↦ (q, rw (later, last_proposal) refl)
  | inl none_later ↦ elim (Bool-cases (text_eq p.field_name f)) [
    | inl hit ↦ (p, rw (none_later, hit, last_proposal) refl)
    | inr miss ↦
        let (q, later) = last_proposal-names f ps (ground arith) in
        let clash : none ≡ some q = sym none_later ∙ later in cc
  ]
]

-- The submitted fields are all proposed.
abbrev pub AllProposed : List Submitted → List ProposedValue → Type 0
AllProposed [] proposed = Unit
AllProposed (s ∷ rest) proposed =
    (names s.field_name (map (λ p. p.field_name) proposed) ≡ true) × AllProposed rest proposed

unexpected_lem :
    (submitted : List Submitted) (proposed : List ProposedValue)
    → is_nil (unexpected_fields submitted proposed) ≡ true
    → AllProposed submitted proposed
unexpected_lem [] proposed h = tt
unexpected_lem (s ∷ rest) proposed h =
    elim (Bool-cases (names s.field_name (map (λ p. p.field_name) proposed))) [
      | inl hit ↦ (hit, unexpected_lem rest proposed (rw (hit, keep_if) at h))
      | inr miss ↦ let h' = rw (miss, keep_if) at h in cc
    ]

values_against-total :
    (proposed : List ProposedValue) (submitted : List Submitted)
    → AllProposed submitted proposed
    → (vs : List ResolutionValue) × (values_against proposed submitted ≡ ok vs)
unfolding values_against
values_against-total proposed [] h = ([], refl)
values_against-total proposed (s ∷ rest) h =
    let (p, found) = last_proposal-names s.field_name proposed h.0 in
    let (vs, done) = values_against-total proposed rest h.1 in
    (against_proposal s p ∷ vs, rw (found, values_against) (rw (done, values_against) refl))

-- The submitted and the proposed fields are the same.
abbrev pub IsSubmitted : List Submitted → Text → Type 0
IsSubmitted submitted f = Any (λ s. s.field_name ≡ f) submitted

abbrev pub IsOffered : List ProposedValue → Text → Type 0
IsOffered proposed f = Any (λ p. p.field_name ≡ f) proposed

abbrev pub SameFields : List Submitted → List ProposedValue → Type 0
SameFields submitted proposed = (f : Text) → IsSubmitted submitted f ↔ IsOffered proposed f

names_iff :
    {A : Type 0} (field : A → Text) (f : Text) (xs : List A)
    → (names f (map field xs) ≡ true) ↔ Any (λ x. field x ≡ f) xs
names_iff field f [] = (λ h. cc, λ h. absurd h)
names_iff field f (x ∷ xs) =
    let later = names_iff field f xs in
    let own = text_eq_iff (field x) f in
    elim (Bool-cases (text_eq (field x) f)) [
      | inl hit ↦ (λ h. inl (own.0 hit), λ h. ground (arith, hit))
      | inr miss ↦ (
        λ h. inr (later.0 (ground (arith, miss))),
        λ h. elim h [
          | inl e ↦ let hit = own.1 e in cc
          | inr a ↦ let there = later.1 a in ground (arith, there)
        ],
      )
    ]

not_named_iff :
    {A : Type 0} (field : A → Text) (f : Text) (xs : List A)
    → (not (names f (map field xs)) ≡ true) ↔ (¬ Any (λ x. field x ≡ f) xs)
not_named_iff field f xs = elim (Bool-cases (names f (map field xs))) [
  | inl hit ↦ (λ h. cc, λ h. absurd (h ((names_iff field f xs).0 hit)))
  | inr miss ↦ (λ h a. let hit = (names_iff field f xs).1 a in cc, λ h. rw miss refl)
]

-- Where a filter of fields leaves none, each field is let go, and where it leaves some, one is kept.
none_kept :
    {A B : Type 0} (a : A → Text) (b : B → Text) (f : Text) (xs : List A) (ys : List B)
    → keep_if (λ g. not (names g (map b ys))) (map a xs) ≡ []
    → Any (λ x. a x ≡ f) xs
    → Any (λ y. b y ≡ f) ys
none_kept a b f [] ys h m = absurd m
none_kept a b f (x ∷ xs) ys h m = elim (Bool-cases (names (a x) (map b ys))) [
  | inl hit ↦
      let h' = rw (hit, keep_if) at h in
      elim m [
        | inl e ↦ (names_iff b f ys).0 (rw e at hit)
        | inr later ↦ none_kept a b f xs ys h' later
      ]
  | inr miss ↦ let h' = rw (miss, keep_if) at h in cc
]

some_kept :
    {A B : Type 0} (a : A → Text) (b : B → Text) (f : Text) (fs : List Text) (xs : List A)
    (ys : List B)
    → keep_if (λ g. not (names g (map b ys))) (map a xs) ≡ f ∷ fs
    → Any (λ x. a x ≡ f) xs × ¬ Any (λ y. b y ≡ f) ys
some_kept a b f fs [] ys h = cc
some_kept a b f fs (x ∷ xs) ys h = elim (Bool-cases (names (a x) (map b ys))) [
  | inl hit ↦
      let (there, gone) = some_kept a b f fs xs ys (rw (hit, keep_if) at h) in (inr there, gone)
  | inr miss ↦
      let h' = rw (miss, keep_if) at h in
      let same : a x ≡ f = cc in
      (
        inl same,
        λ m. let hit : names (a x) (map b ys) ≡ true = rw same ((names_iff b f ys).1 m) in cc,
      )
]

-- An edit against a proposal either returns, and then the submitted and the proposed fields are the
-- same, and there is one value for each submitted one, as typed, and attributed to the AI exactly
-- when it agrees with the last proposal for its field up to the space around them, and to the human
-- otherwise; or the fields are not the same, and it throws the proposed fields that are not
-- submitted and the submitted ones that are not proposed.
pub edit_approve_against_proposal_lem :
    (submitted : List Submitted) (proposed : List ProposedValue)
    → ((vs : List ResolutionValue) × (edit_approve_against_proposal submitted proposed ≡ ok vs)
        × SameFields submitted proposed
        × AllAttributed proposed submitted vs)
      ⊎ ((missing : List Text) × (unexpected : List Text) × (edit_approve_against_proposal submitted
              proposed
            ≡ err (resolution_values_incomplete missing unexpected))
          × (¬ SameFields submitted proposed)
          × Kept (λ f. ¬ IsSubmitted submitted f) (map (λ p. p.field_name) proposed) missing
          × Kept (λ f. ¬ IsOffered proposed f) (map (λ s. s.field_name) submitted) unexpected)
unfolding edit_approve_against_proposal
edit_approve_against_proposal_lem submitted proposed =
    let missing = missing_fields submitted proposed in
    let unexpected = unexpected_fields submitted proposed in
    elim (Bool-cases (is_nil missing && is_nil unexpected)) [
      | inl neither ↦
          let fits = unexpected_lem submitted proposed (ground arith) in
          let (vs, done) = values_against-total proposed submitted fits in
          inl (
            vs,
            rw (neither, edit_approve_against_proposal) done,
            λ f. (
              none_kept (λ s. s.field_name) (λ p. p.field_name) f submitted proposed
                  (nil_of unexpected (ground arith)),
              none_kept (λ p. p.field_name) (λ s. s.field_name) f proposed submitted
                  (nil_of missing (ground arith)),
            ),
            values_against-AllAttributed proposed submitted vs done,
          )
      | inr some_field ↦ inr (
        missing,
        unexpected,
        rw (some_field, edit_approve_against_proposal) refl,
        λ same. differ missing unexpected refl refl some_field same,
        keep_if-Kept (λ f. not (names f (map (λ s. s.field_name) submitted)))
            (λ f. ¬ IsSubmitted submitted f) (λ f. not_named_iff (λ s. s.field_name) f submitted)
            (map (λ p. p.field_name) proposed),
        keep_if-Kept (λ f. not (names f (map (λ p. p.field_name) proposed)))
            (λ f. ¬ IsOffered proposed f) (λ f. not_named_iff (λ p. p.field_name) f proposed)
            (map (λ s. s.field_name) submitted),
      )
    ]
  where
    nil_of : (fs : List Text) → is_nil fs ≡ true → fs ≡ []
    nil_of [] h = refl
    nil_of (f ∷ fs) h = cc

    differ :
        (ms us : List Text)
        → missing_fields submitted proposed ≡ ms
        → unexpected_fields submitted proposed ≡ us
        → (is_nil ms && is_nil us) ≡ false
        → SameFields submitted proposed
        → ⊥
    differ [] [] m u h same = cc
    differ [] (f ∷ fs) m u h same =
        let (there, gone) =
          some_kept (λ s. s.field_name) (λ p. p.field_name) f fs submitted proposed u in
        gone ((same f).0 there)
    differ (f ∷ fs) us m u h same =
        let (there, gone) =
          some_kept (λ p. p.field_name) (λ s. s.field_name) f fs proposed submitted m in
        gone ((same f).1 there)
