-- ===== src/Canonical/Order.antt =====
-- server/src/db/canonical.ts: the hash of an entry does not depend on the order of its values.
use cargo_execution_assistan.Prelude.{
  ℕ, ◌≡◌, ◌≢◌, refl, sym, ap, ◌∙◌, inl, inr, true, false, List, [], ◌∷◌, All, arith, Bool-cases,
  subst,
}
use cargo_execution_assistan.Text.{Text, text_lt}
use cargo_execution_assistan.Canonical.{
  insert_by, sort_by, AuditEntry, AuditValue, compute_entry_hash, payload,
}
use mathlib.Core.List.{Permᴰ}

pub text_lt_irrefl : (a : Text) → text_lt a a ≡ false
text_lt_irrefl [] = refl
text_lt_irrefl (x ∷ a) = ground (arith, text_lt_irrefl a)

pub text_lt_asym : (a b : Text) → text_lt a b ≡ true → text_lt b a ≡ false
text_lt_asym [] [] h = cc
text_lt_asym [] (y ∷ b) h = refl
text_lt_asym (x ∷ a) [] h = cc
text_lt_asym (x ∷ a) (y ∷ b) h = ground (arith, text_lt_asym a b)

text_lt_trans : (a b c : Text) → text_lt a b ≡ true → text_lt b c ≡ true → text_lt a c ≡ true
text_lt_trans [] [] c h k = cc
text_lt_trans [] (y ∷ b) [] h k = cc
text_lt_trans [] (y ∷ b) (z ∷ c) h k = refl
text_lt_trans (x ∷ a) [] c h k = cc
text_lt_trans (x ∷ a) (y ∷ b) [] h k = cc
text_lt_trans (x ∷ a) (y ∷ b) (z ∷ c) h k = ground (arith, text_lt_trans a b c)

text_lt_total : (a b : Text) → text_lt a b ≡ false → text_lt b a ≡ false → a ≡ b
text_lt_total [] [] h k = refl
text_lt_total [] (y ∷ b) h k = cc
text_lt_total (x ∷ a) [] h k = cc
text_lt_total (x ∷ a) (y ∷ b) h k = ground (arith, text_lt_total a b)

module _ {A : Type 0} (key : A → Text) where
  pub insert_by-true :
      (x y : A) (ys : List A)
      → text_lt (key y) (key x) ≡ true
      → insert_by key x (y ∷ ys) ≡ y ∷ insert_by key x ys
  insert_by-true x y ys h = rw (h, insert_by) refl

  pub insert_by-false :
      (x y : A) (ys : List A)
      → text_lt (key y) (key x) ≡ false
      → insert_by key x (y ∷ ys) ≡ x ∷ y ∷ ys
  insert_by-false x y ys h = rw (h, insert_by) refl

  insert_smaller :
      (a b : A) (l : List A)
      → text_lt (key a) (key b) ≡ true
      → insert_by key a (insert_by key b l) ≡ insert_by key b (insert_by key a l)
  insert_smaller a b [] h =
      insert_by-false a b [] (text_lt_asym (key a) (key b) h) ∙ sym (insert_by-true b a [] h)
  insert_smaller a b (y ∷ l) h = elim (Bool-cases (text_lt (key y) (key a))) [
    | inl below ↦
        let under : text_lt (key y) (key b) ≡ true =
          text_lt_trans (key y) (key a) (key b) below h in
        ap (insert_by key a) (insert_by-true b y l under)
        ∙ (insert_by-true a y (insert_by key b l) below
            ∙ (ap (λ t. y ∷ t) (insert_smaller a b l h)
                ∙ (sym (insert_by-true b y (insert_by key a l) under)
                    ∙ ap (insert_by key b) (sym (insert_by-true a y l below)))))
    | inr above ↦
        (elim (Bool-cases (text_lt (key y) (key b))) [
          | inl under ↦
              ap (insert_by key a) (insert_by-true b y l under)
              ∙ (insert_by-false a y (insert_by key b l) above
                  ∙ ap (λ t. a ∷ t) (sym (insert_by-true b y l under)))
          | inr over ↦
              ap (insert_by key a) (insert_by-false b y l over)
              ∙ (insert_by-false a b (y ∷ l) (text_lt_asym (key a) (key b) h)
                  ∙ ap (λ t. a ∷ t) (sym (insert_by-false b y l over)))
        ])
        ∙ (sym (insert_by-true b a (y ∷ l) h)
            ∙ ap (insert_by key b) (sym (insert_by-false a y l above)))
  ]

  insert_comm :
      (a b : A) (l : List A)
      → key a ≢ key b
      → insert_by key a (insert_by key b l) ≡ insert_by key b (insert_by key a l)
  insert_comm a b l apart = elim (Bool-cases (text_lt (key a) (key b))) [
    | inl less ↦ insert_smaller a b l less
    | inr not_less ↦ elim (Bool-cases (text_lt (key b) (key a))) [
      | inl more ↦ sym (insert_smaller b a l more)
      | inr same ↦ absurd (apart (text_lt_total (key a) (key b) not_less same))
    ]
  ]

  -- No two members have the same key.
  abbrev pub IsKeyed : List A → Type 0
  IsKeyed [] = Unit
  IsKeyed (x ∷ xs) = All (λ y. key x ≢ key y) xs × IsKeyed xs

  All-Permᴰ : (P : A → Type 0) {xs ys : List A} → Permᴰ xs ys → All P xs → All P ys
  All-Permᴰ P Permᴰ.nil h = h
  All-Permᴰ P (Permᴰ.cons e d) h = (subst P e h.0, All-Permᴰ P d h.1)
  All-Permᴰ P (Permᴰ.swap e f) h = (subst P f h.1.0, (subst P e h.0, h.1.1))
  All-Permᴰ P (Permᴰ.trans d f) h = All-Permᴰ P f (All-Permᴰ P d h)

  IsKeyed-Permᴰ : {xs ys : List A} → Permᴰ xs ys → IsKeyed xs → IsKeyed ys
  IsKeyed-Permᴰ Permᴰ.nil h = h
  IsKeyed-Permᴰ (Permᴰ.cons {a = a} {b = b} {l₁ = xs} {l₂ = ys} e d) h = (
    subst (λ c. All (λ y. key c ≢ key y) ys) e (All-Permᴰ (λ y. key a ≢ key y) d h.0),
    IsKeyed-Permᴰ d h.1,
  )
  IsKeyed-Permᴰ (Permᴰ.swap {a = a} {b = b} {a' = c} {b' = d} {l = l} e f) h = (
    (
      λ same. h.0.0 (ap key e ∙ (sym same ∙ ap key (sym f))),
      subst (λ x. All (λ y. key x ≢ key y) l) f h.1.0,
    ),
    (subst (λ x. All (λ y. key x ≢ key y) l) e h.0.1, h.1.1),
  )
  IsKeyed-Permᴰ (Permᴰ.trans d f) h = IsKeyed-Permᴰ f (IsKeyed-Permᴰ d h)

  -- Lists of the same members, no two with the same key, are sorted to the same list.
  pub sort_by-Permᴰ : {xs ys : List A} → Permᴰ xs ys → IsKeyed xs → sort_by key xs ≡ sort_by key ys
  sort_by-Permᴰ Permᴰ.nil h = refl
  sort_by-Permᴰ (Permᴰ.cons {a = a} {b = b} {l₁ = xs} {l₂ = ys} e d) h =
      ap (insert_by key a) (sort_by-Permᴰ d h.1) ∙ ap (λ x. insert_by key x (sort_by key ys)) e
  sort_by-Permᴰ (Permᴰ.swap {a = a} {b = b} {a' = c} {b' = d} {l = l} e f) h =
      insert_comm a b (sort_by key l) h.0.0
      ∙ (ap (λ x. insert_by key x (insert_by key a (sort_by key l))) f
          ∙ ap (λ x. insert_by key c (insert_by key x (sort_by key l))) e)
  sort_by-Permᴰ (Permᴰ.trans d f) h = sort_by-Permᴰ d h ∙ sort_by-Permᴰ f (IsKeyed-Permᴰ d h)

-- Two entries that differ only in the order of their values, of which no two are on the same field,
-- have the same hash after every previous hash.
pub compute_entry_hash-Permᴰ :
    (sha256 : List ℕ → List ℕ) (e : AuditEntry) (values : List AuditValue) (prev : List ℕ)
    → Permᴰ e.values values
    → IsKeyed (λ v. v.field_name) e.values
    → compute_entry_hash sha256 e prev
      ≡ compute_entry_hash sha256 (record e { values = values }) prev
unfolding compute_entry_hash payload
compute_entry_hash-Permᴰ sha256 e values prev d keyed =
    let same = sort_by-Permᴰ (λ v. v.field_name) d keyed in rw same refl
