-- ===== src/Text/Map.antt =====
-- JavaScript's `Map` with texts as keys, in the order of insertion.
use cargo_execution_assistan.Prelude.{
  ◌≡◌, refl, sym, ◌∙◌, Bool, true, false, not, Option, none, some, List, [], ◌∷◌, All, keep_if,
  Bool-cases, arith, find, find-true, find-false, All-find, inl, inr,
}
use cargo_execution_assistan.Text.{Text, text_eq}
use cargo_execution_assistan.Text.Laws.{text_eq_refl, text_eq_iff}

module _ {A : Type 0} where
  -- `map.get(key)`
  abbrev pub get : Text → List (Text × A) → Option A
  get key [] = none
  get key ((k, a) ∷ rest) =
      let later = get key rest in elim (text_eq k key) [ true ↦ some a | false ↦ later ]

  -- `map.set(key, a)`, which keeps the place of a key that is there.
  abbrev pub set : Text → A → List (Text × A) → List (Text × A)
  set key a [] = (key, a) ∷ []
  set key a ((k, b) ∷ rest) =
      let later = set key a rest in
      elim (text_eq k key) [ true ↦ (k, a) ∷ rest | false ↦ (k, b) ∷ later ]

  -- `map.delete(key)`
  abbrev pub delete : Text → List (Text × A) → List (Text × A)
  delete key entries = keep_if (λ e. not (text_eq e.0 key)) entries

  pub get-set : (key : Text) (a : A) (m : List (Text × A)) → get key (set key a m) ≡ some a
  get-set key a [] = rw (text_eq_refl key, get) refl
  get-set key a ((k, b) ∷ rest) = elim (Bool-cases (text_eq k key)) [
    | inl hit ↦ rw (hit, set) (rw (hit, get) refl)
    | inr miss ↦ rw (miss, set) (rw (miss, get) (get-set key a rest))
  ]

  pub get-delete : (key : Text) (m : List (Text × A)) → get key (delete key m) ≡ none
  get-delete key [] = refl
  get-delete key ((k, b) ∷ rest) = elim (Bool-cases (text_eq k key)) [
    | inl hit ↦ rw (hit, keep_if) (get-delete key rest)
    | inr miss ↦ rw (miss, keep_if) (rw (miss, get) (get-delete key rest))
  ]

  pub get-set_other :
      (key k : Text) (a : A) (m : List (Text × A))
      → text_eq k key ≡ false
      → get key (set k a m) ≡ get key m
  get-set_other key k a [] other = rw (other, get) refl
  get-set_other key k a ((j, b) ∷ rest) other = elim (Bool-cases (text_eq j k)) [
    | inl hit ↦
        let same = (text_eq_iff j k).0 hit in rw (hit, set) (rw (same, get) (rw (other, get) refl))
    | inr miss ↦ elim (Bool-cases (text_eq j key)) [
      | inl own ↦ rw (miss, set) (rw (own, get) refl)
      | inr far ↦ rw (miss, set) (rw (far, get) (get-set_other key k a rest other))
    ]
  ]

  pub get-delete_other :
      (key k : Text) (m : List (Text × A))
      → text_eq k key ≡ false
      → get key (delete k m) ≡ get key m
  get-delete_other key k [] other = refl
  get-delete_other key k ((j, b) ∷ rest) other = elim (Bool-cases (text_eq j k)) [
    | inl hit ↦
        let same = (text_eq_iff j k).0 hit in
        rw (hit, keep_if)
          (get-delete_other key k rest other ∙ sym (rw (same, get) (rw (other, get) refl)))
    | inr miss ↦ elim (Bool-cases (text_eq j key)) [
      | inl own ↦ rw (miss, keep_if) (rw (own, get) refl)
      | inr far ↦ rw (miss, keep_if) (rw (far, get) (get-delete_other key k rest other))
    ]
  ]

  -- What holds of all values holds of the one that is found, and of all after a `set`.
  pub All-get :
      (P : A → Type 0) (key : Text) (m : List (Text × A)) (a : A)
      → All (λ e. P e.1) m
      → get key m ≡ some a
      → P a
  All-get P key [] a h found = cc
  All-get P key ((k, b) ∷ rest) a h found = elim (Bool-cases (text_eq k key)) [
    | inl hit ↦ let same : some b ≡ some a = rw (hit, get) at found in ground (arith, h.0)
    | inr miss ↦ All-get P key rest a h.1 (rw (miss, get) at found)
  ]

  pub All-set :
      (P : A → Type 0) (key : Text) (a : A) (m : List (Text × A))
      → P a
      → All (λ e. P e.1) m
      → All (λ e. P e.1) (set key a m)
  All-set P key a [] p h = (p, tt)
  All-set P key a ((k, b) ∷ rest) p h = elim (Bool-cases (text_eq k key)) [
    | inl hit ↦ rw (hit, set) (p, h.1)
    | inr miss ↦ rw (miss, set) (h.0, All-set P key a rest p h.1)
  ]

  pub All-delete :
      (P : A → Type 0) (key : Text) (m : List (Text × A))
      → All (λ e. P e.1) m
      → All (λ e. P e.1) (delete key m)
  All-delete P key [] h = tt
  All-delete P key ((k, b) ∷ rest) h = elim (Bool-cases (text_eq k key)) [
    | inl hit ↦ rw (hit, keep_if) (All-delete P key rest h.1)
    | inr miss ↦ rw (miss, keep_if) (h.0, All-delete P key rest h.1)
  ]

-- The keys of the rows of a table differ.
module _ {A : Type 0} (key : A → Text) where
  abbrev pub IsKeyed : List A → Type 0
  IsKeyed [] = Unit
  IsKeyed (x ∷ xs) = All (λ y. text_eq (key x) (key y) ≡ false) xs × IsKeyed xs

  -- A row that is found in some way is the one with its key.
  pub find-IsKeyed :
      (p : A → Bool) (xs : List A) (row : A)
      → IsKeyed xs
      → find p xs ≡ some row
      → find (λ y. text_eq (key y) (key row)) xs ≡ some row
  find-IsKeyed p [] row keyed found = cc
  find-IsKeyed p (x ∷ xs) row keyed found = elim (Bool-cases (p x)) [
    | inl hit ↦
        let same : some x ≡ some row = sym (find-true p x xs hit) ∙ found in
        let row_eq : x ≡ row = cc in
        rw (← row_eq) (find-true (λ y. text_eq (key y) (key x)) x xs (text_eq_refl (key x)))
    | inr miss ↦
        let later = sym (find-false p x xs miss) ∙ found in
        find-false (λ y. text_eq (key y) (key row)) x xs
          (All-find (λ y. text_eq (key x) (key y) ≡ false) p xs row keyed.0 later)
        ∙ find-IsKeyed p xs row keyed.1 later
  ]
