-- ===== src/Canonical/Keep.antt =====
-- server/src/db/canonical.ts and the `ORDER BY` of the repositories: the stable sort by a key, and
-- what is kept of its result.
use cargo_execution_assistan.Prelude.{
  ◌≡◌, refl, sym, ap, ◌∙◌, inl, inr, Bool, true, false, List, [], ◌∷◌, All, arith, Bool-cases,
  keep_if, keep_if-true, keep_if-false, Kept, keep_if-Kept,
}
use cargo_execution_assistan.Text.{Text, text_lt, text_eq}
use cargo_execution_assistan.Text.Laws.{text_eq_iff}
use cargo_execution_assistan.Canonical.{insert_by, sort_by}
use cargo_execution_assistan.Canonical.Order.{
  text_lt_irrefl, text_lt_asym, insert_by-true, insert_by-false,
}
use mathlib.Core.List.{Permᴰ}
use mathlib.Core.List.Permᴰ

text_lt_cotrans : (a b c : Text) → text_lt b a ≡ false → text_lt c b ≡ false → text_lt c a ≡ false
text_lt_cotrans [] [] [] h k = refl
text_lt_cotrans [] [] (z ∷ c) h k = refl
text_lt_cotrans [] (y ∷ b) [] h k = cc
text_lt_cotrans [] (y ∷ b) (z ∷ c) h k = refl
text_lt_cotrans (x ∷ a) [] c h k = cc
text_lt_cotrans (x ∷ a) (y ∷ b) [] h k = cc
text_lt_cotrans (x ∷ a) (y ∷ b) (z ∷ c) h k = ground (arith, text_lt_cotrans a b c)

module _ {A : Type 0} (key : A → Text) where
  -- No member is before the given key, and a list in order.
  abbrev NoneBefore : Text → List A → Type 0
  NoneBefore k xs = All (λ x. text_lt (key x) k ≡ false) xs

  abbrev pub IsOrderedBy : List A → Type 0
  IsOrderedBy [] = Unit
  IsOrderedBy (x ∷ xs) = NoneBefore (key x) xs × IsOrderedBy xs

  NoneBefore-weaken :
      (j k : Text) (xs : List A) → text_lt k j ≡ false → NoneBefore k xs → NoneBefore j xs
  NoneBefore-weaken j k [] h all = tt
  NoneBefore-weaken j k (x ∷ xs) h (first, rest) =
      (text_lt_cotrans j k (key x) h first, NoneBefore-weaken j k xs h rest)

  NoneBefore-insert_by :
      (k : Text) (x : A) (xs : List A)
      → text_lt (key x) k ≡ false
      → NoneBefore k xs
      → NoneBefore k (insert_by key x xs)
  NoneBefore-insert_by k x [] h all = (h, tt)
  NoneBefore-insert_by k x (y ∷ ys) h (first, rest) = elim (Bool-cases (text_lt (key y) (key x))) [
    | inl less ↦ rw (less, insert_by) (first, NoneBefore-insert_by k x ys h rest)
    | inr more ↦ rw (more, insert_by) (h, (first, rest))
  ]

  insert_by-IsOrderedBy : (x : A) (xs : List A) → IsOrderedBy xs → IsOrderedBy (insert_by key x xs)
  insert_by-IsOrderedBy x [] h = (tt, tt)
  insert_by-IsOrderedBy x (y ∷ ys) (below, h) = elim (Bool-cases (text_lt (key y) (key x))) [
    | inl less ↦
        rw (less, insert_by)
          (
            NoneBefore-insert_by (key y) x ys (text_lt_asym (key y) (key x) less) below,
            insert_by-IsOrderedBy x ys h,
          )
    | inr more ↦
        rw (more, insert_by) ((more, NoneBefore-weaken (key x) (key y) ys more below), (below, h))
  ]

  pub sort_by-IsOrderedBy : (xs : List A) → IsOrderedBy (sort_by key xs)
  sort_by-IsOrderedBy [] = tt
  sort_by-IsOrderedBy (x ∷ xs) = insert_by-IsOrderedBy x (sort_by key xs) (sort_by-IsOrderedBy xs)

  insert_by-Permᴰ : (x : A) (xs : List A) → Permᴰ (x ∷ xs) (insert_by key x xs)
  insert_by-Permᴰ x [] = Permᴰ.refl (x ∷ [])
  insert_by-Permᴰ x (y ∷ ys) = elim (Bool-cases (text_lt (key y) (key x))) [
    | inl less ↦
        rw (less, insert_by)
          (Permᴰ.trans (Permᴰ.swap refl refl) (Permᴰ.cons refl (insert_by-Permᴰ x ys)))
    | inr more ↦ rw (more, insert_by) (Permᴰ.refl (x ∷ y ∷ ys))
  ]

  pub sort_by-rearranged : (xs : List A) → Permᴰ xs (sort_by key xs)
  sort_by-rearranged [] = Permᴰ.nil
  sort_by-rearranged (x ∷ xs) =
      Permᴰ.trans (Permᴰ.cons refl (sort_by-rearranged xs)) (insert_by-Permᴰ x (sort_by key xs))

  insert_by-first : (x : A) (xs : List A) → NoneBefore (key x) xs → insert_by key x xs ≡ x ∷ xs
  insert_by-first x [] h = refl
  insert_by-first x (y ∷ ys) h = insert_by-false key x y ys h.0

  NoneBefore-keep_if :
      (p : A → Bool) (k : Text) (xs : List A) → NoneBefore k xs → NoneBefore k (keep_if p xs)
  NoneBefore-keep_if p k [] h = tt
  NoneBefore-keep_if p k (x ∷ xs) (first, rest) = elim (Bool-cases (p x)) [
    | inl hit ↦ rw (hit, keep_if) (first, NoneBefore-keep_if p k xs rest)
    | inr miss ↦ rw (miss, keep_if) (NoneBefore-keep_if p k xs rest)
  ]

  keep_if-insert_by-true :
      (p : A → Bool) (x : A) (xs : List A)
      → p x ≡ true
      → IsOrderedBy xs
      → keep_if p (insert_by key x xs) ≡ insert_by key x (keep_if p xs)
  keep_if-insert_by-true p x [] hit h = rw (hit, keep_if) refl
  keep_if-insert_by-true p x (y ∷ ys) hit (below, h) = elim (Bool-cases (text_lt (key y) (key x))) [
    | inl less ↦ elim (Bool-cases (p y)) [
      | inl kept ↦
          ap (keep_if p) (insert_by-true key x y ys less)
          ∙ keep_if-true p y (insert_by key x ys) kept
          ∙ ap (λ l. y ∷ l) (keep_if-insert_by-true p x ys hit h)
          ∙ sym (insert_by-true key x y (keep_if p ys) less)
          ∙ ap (insert_by key x) (sym (keep_if-true p y ys kept))
      | inr gone ↦
          ap (keep_if p) (insert_by-true key x y ys less)
          ∙ keep_if-false p y (insert_by key x ys) gone
          ∙ keep_if-insert_by-true p x ys hit h
          ∙ ap (insert_by key x) (sym (keep_if-false p y ys gone))
    ]
    | inr more ↦
        let after : NoneBefore (key x) (y ∷ ys) =
          (more, NoneBefore-weaken (key x) (key y) ys more below) in
        ap (keep_if p) (insert_by-false key x y ys more)
        ∙ keep_if-true p x (y ∷ ys) hit
        ∙ sym (insert_by-first x (keep_if p (y ∷ ys)) (NoneBefore-keep_if p (key x) (y ∷ ys) after))
  ]

  keep_if-insert_by-false :
      (p : A → Bool) (x : A) (xs : List A)
      → p x ≡ false
      → keep_if p (insert_by key x xs) ≡ keep_if p xs
  keep_if-insert_by-false p x [] miss = rw (miss, keep_if) refl
  keep_if-insert_by-false p x (y ∷ ys) miss = elim (Bool-cases (text_lt (key y) (key x))) [
    | inl less ↦ elim (Bool-cases (p y)) [
      | inl kept ↦
          ap (keep_if p) (insert_by-true key x y ys less)
          ∙ keep_if-true p y (insert_by key x ys) kept
          ∙ ap (λ l. y ∷ l) (keep_if-insert_by-false p x ys miss)
          ∙ sym (keep_if-true p y ys kept)
      | inr gone ↦
          ap (keep_if p) (insert_by-true key x y ys less)
          ∙ keep_if-false p y (insert_by key x ys) gone
          ∙ keep_if-insert_by-false p x ys miss
          ∙ sym (keep_if-false p y ys gone)
    ]
    | inr more ↦ ap (keep_if p) (insert_by-false key x y ys more) ∙ keep_if-false p x (y ∷ ys) miss
  ]

  -- What is kept of a sorted list is what is kept of the list, sorted.
  pub keep_if-sort_by :
      (p : A → Bool) (xs : List A) → keep_if p (sort_by key xs) ≡ sort_by key (keep_if p xs)
  keep_if-sort_by p [] = refl
  keep_if-sort_by p (x ∷ xs) = elim (Bool-cases (p x)) [
    | inl hit ↦
        keep_if-insert_by-true p x (sort_by key xs) hit (sort_by-IsOrderedBy xs)
        ∙ ap (insert_by key x) (keep_if-sort_by p xs)
        ∙ ap (sort_by key) (sym (keep_if-true p x xs hit))
    | inr miss ↦
        keep_if-insert_by-false p x (sort_by key xs) miss
        ∙ keep_if-sort_by p xs
        ∙ ap (sort_by key) (sym (keep_if-false p x xs miss))
  ]

  -- Members with the same key keep their order.
  keep_if-insert_by-key :
      (k : Text) (x : A) (xs : List A)
      → keep_if (λ y. text_eq (key y) k) (insert_by key x xs)
        ≡ keep_if (λ y. text_eq (key y) k) (x ∷ xs)
  keep_if-insert_by-key k x xs = elim (Bool-cases (text_eq (key x) k)) [
    | inl hit ↦ first xs ((text_eq_iff (key x) k).0 hit) hit
    | inr miss ↦
        keep_if-insert_by-false (λ y. text_eq (key y) k) x xs miss
        ∙ sym (keep_if-false (λ y. text_eq (key y) k) x xs miss)
  ]
    where
      other : (y : A) → key x ≡ k → text_lt (key y) (key x) ≡ true → text_eq (key y) k ≡ false
      other y same less = elim (Bool-cases (text_eq (key y) k)) [
        | inl e ↦
            let equal : key y ≡ key x = (text_eq_iff (key y) k).0 e ∙ sym same in
            let never = text_lt_irrefl (key x) in
            let now : text_lt (key x) (key x) ≡ true = rw equal at less in cc
        | inr e ↦ e
      ]

      first :
          (ys : List A)
          → key x ≡ k
          → text_eq (key x) k ≡ true
          → keep_if (λ y. text_eq (key y) k) (insert_by key x ys)
            ≡ keep_if (λ y. text_eq (key y) k) (x ∷ ys)
      first [] same hit = refl
      first (y ∷ ys) same hit = elim (Bool-cases (text_lt (key y) (key x))) [
        | inl less ↦
            let gone = other y same less in
            ap (keep_if (λ z. text_eq (key z) k)) (insert_by-true key x y ys less)
            ∙ keep_if-false (λ z. text_eq (key z) k) y (insert_by key x ys) gone
            ∙ first ys same hit
            ∙ keep_if-true (λ z. text_eq (key z) k) x ys hit
            ∙ ap (λ l. x ∷ l) (sym (keep_if-false (λ z. text_eq (key z) k) y ys gone))
            ∙ sym (keep_if-true (λ z. text_eq (key z) k) x (y ∷ ys) hit)
        | inr more ↦ ap (keep_if (λ z. text_eq (key z) k)) (insert_by-false key x y ys more)
      ]

  pub keep_if-sort_by-key :
      (k : Text) (xs : List A)
      → keep_if (λ y. text_eq (key y) k) (sort_by key xs) ≡ keep_if (λ y. text_eq (key y) k) xs
  keep_if-sort_by-key k [] = refl
  keep_if-sort_by-key k (x ∷ xs) =
      keep_if-insert_by-key k x (sort_by key xs) ∙ (elim (Bool-cases (text_eq (key x) k)) [
        | inl hit ↦
            keep_if-true (λ z. text_eq (key z) k) x (sort_by key xs) hit
            ∙ ap (λ l. x ∷ l) (keep_if-sort_by-key k xs)
            ∙ sym (keep_if-true (λ z. text_eq (key z) k) x xs hit)
        | inr miss ↦
            keep_if-false (λ z. text_eq (key z) k) x (sort_by key xs) miss
            ∙ keep_if-sort_by-key k xs
            ∙ sym (keep_if-false (λ z. text_eq (key z) k) x xs miss)
      ])

-- The second list has the members of the first with the given id, ordered by the key.
abbrev pub IsSelection : {A : Type 0} → (A → Text) → (A → Text) → Text → List A → List A → Type 0
IsSelection id_of key id xs ys =
    (qs : List _) × Kept (λ x. id_of x ≡ id) xs qs × Permᴰ qs ys × IsOrderedBy key ys

pub sort_by-IsSelection :
    {A : Type 0} (id_of key : A → Text) (id : Text) (xs : List A)
    → IsSelection id_of key id xs (sort_by key (keep_if (λ x. text_eq (id_of x) id) xs))
sort_by-IsSelection id_of key id xs =
    let qs = keep_if (λ x. text_eq (id_of x) id) xs in
    (
      qs,
      keep_if-Kept (λ x. text_eq (id_of x) id) (λ x. id_of x ≡ id) (λ x. text_eq_iff (id_of x) id)
          xs,
      sort_by-rearranged key qs,
      sort_by-IsOrderedBy key qs,
    )
