-- ===== src/Prelude/Lists.antt =====
-- Lists measured by native numbers, Boolean searches, and predicates on all members.
use Prim.Native.Nat.{ℕ, zero, suc, ◌+◌}
use Prim.Native.String.{String}
use mathlib.Core.Path.{◌≡◌, refl, ap, sym, ◌∙◌, subst}
use mathlib.Core.Option.{Option, none, some}
use mathlib.Core.Option
use mathlib.Core.Logic.{◌⊎◌, inl, inr}
use mathlib.Core.Bool.{Bool, true, false, ◌&&◌, ◌||◌}
use mathlib.Core.List.{List, [], ◌∷◌, ◌++◌, map}
use native.Mathlib.Omega.{arith}
use text.Mathlib.Text.{◌==◌ as str_eq}
use cargo_execution_assistan.Prelude.Tests.{Bool-cases}

module _ {ℓ} {A : Type ℓ} where
  abbrev pub length : List A → ℕ
  length [] = 0
  length (x ∷ xs) = suc (length xs)

  abbrev pub all : (A → Bool) → List A → Bool
  all p [] = true
  all p (x ∷ xs) = p x && all p xs

  abbrev pub any : (A → Bool) → List A → Bool
  any p [] = false
  any p (x ∷ xs) = p x || any p xs

  abbrev pub take : ℕ → List A → List A
  take zero xs = []
  take (suc n) [] = []
  take (suc n) (x ∷ xs) = x ∷ take n xs

  abbrev pub drop : ℕ → List A → List A
  drop zero xs = xs
  drop (suc n) [] = []
  drop (suc n) (x ∷ xs) = drop n xs

  abbrev pub get_or : List A → ℕ → A → A
  get_or [] i d = d
  get_or (x ∷ xs) zero d = x
  get_or (x ∷ xs) (suc i) d = get_or xs i d

  abbrev pub keep_if : (A → Bool) → List A → List A
  keep_if p [] = []
  keep_if p (x ∷ xs) = let rest = keep_if p xs in elim (p x) [ true ↦ x ∷ rest | false ↦ rest ]

  -- The first member that satisfies a condition.
  abbrev pub find : (A → Bool) → List A → Option A
  find p [] = none
  find p (x ∷ xs) = let rest = find p xs in elim (p x) [ true ↦ some x | false ↦ rest ]

  pub keep_if-true :
      (p : A → Bool) (x : A) (xs : List A) → p x ≡ true → keep_if p (x ∷ xs) ≡ x ∷ keep_if p xs
  keep_if-true p x xs h = rw (h, keep_if) refl

  pub keep_if-false :
      (p : A → Bool) (x : A) (xs : List A) → p x ≡ false → keep_if p (x ∷ xs) ≡ keep_if p xs
  keep_if-false p x xs h = rw (h, keep_if) refl

  pub find-true : (p : A → Bool) (x : A) (xs : List A) → p x ≡ true → find p (x ∷ xs) ≡ some x
  find-true p x xs h = rw (h, find) refl

  pub find-false : (p : A → Bool) (x : A) (xs : List A) → p x ≡ false → find p (x ∷ xs) ≡ find p xs
  find-false p x xs h = rw (h, find) refl

  pub keep_if-append :
      (p : A → Bool) (xs ys : List A) → keep_if p (xs ++ ys) ≡ keep_if p xs ++ keep_if p ys
  keep_if-append p [] ys = refl
  keep_if-append p (x ∷ xs) ys = elim (Bool-cases (p x)) [
    | inl hit ↦
        keep_if-true p x (xs ++ ys) hit
        ∙ (ap (λ l. x ∷ l) (keep_if-append p xs ys)
            ∙ ap (λ l. l ++ keep_if p ys) (sym (keep_if-true p x xs hit)))
    | inr miss ↦
        keep_if-false p x (xs ++ ys) miss
        ∙ (keep_if-append p xs ys ∙ ap (λ l. l ++ keep_if p ys) (sym (keep_if-false p x xs miss)))
  ]

  pub length-append : (xs ys : List A) → length (xs ++ ys) ≡ length xs + length ys
  length-append [] ys = omega arith
  length-append (x ∷ xs) ys = omega (arith, length-append xs ys)

module _ {A : Type 0} (p : A → Bool) where
  pub find-append-none :
      (xs : List A) (x : A) → any p xs ≡ false → p x ≡ true → find p (xs ++ x ∷ []) ≡ some x
  find-append-none [] x h k = find-true p x [] k
  find-append-none (y ∷ ys) x h k =
      let miss : p y ≡ false = ground arith in
      let rest : any p ys ≡ false = ground arith in
      find-false p y (ys ++ x ∷ []) miss ∙ find-append-none ys x rest k

  pub find-any : (xs : List A) → any p xs ≡ true → (x : A) × (find p xs ≡ some x)
  find-any [] h = cc
  find-any (x ∷ xs) h = elim (Bool-cases (p x)) [
    | inl hit ↦ (x, find-true p x xs hit)
    | inr miss ↦ let (y, found) = find-any xs (ground arith) in (y, find-false p x xs miss ∙ found)
  ]

  pub find-holds : (xs : List A) (x : A) → find p xs ≡ some x → p x ≡ true
  find-holds [] x h = cc
  find-holds (y ∷ ys) x h = elim (Bool-cases (p y)) [
    | inl hit ↦ let same : some y ≡ some x = sym (find-true p y ys hit) ∙ h in ground arith
    | inr miss ↦ find-holds ys x (sym (find-false p y ys miss) ∙ h)
  ]

  pub find-append-some : (xs ys : List A) (x : A) → find p xs ≡ some x → find p (xs ++ ys) ≡ some x
  find-append-some [] ys x h = cc
  find-append-some (y ∷ xs) ys x h = elim (Bool-cases (p y)) [
    | inl hit ↦ find-true p y (xs ++ ys) hit ∙ (sym (find-true p y xs hit) ∙ h)
    | inr miss ↦
        find-false p y (xs ++ ys) miss ∙ find-append-some xs ys x (sym (find-false p y xs miss) ∙ h)
  ]

  -- A change that the condition does not see.
  pub find-map :
      (f : A → A) (xs : List A)
      → ((x : A) → p (f x) ≡ p x)
      → find p (map f xs) ≡ Option.map f (find p xs)
  find-map f [] same = refl
  find-map f (x ∷ xs) same = elim (Bool-cases (p x)) [
    | inl hit ↦
        find-true p (f x) (map f xs) (same x ∙ hit) ∙ ap (Option.map f) (sym (find-true p x xs hit))
    | inr miss ↦
        find-false p (f x) (map f xs) (same x ∙ miss)
        ∙ (find-map f xs same ∙ ap (Option.map f) (sym (find-false p x xs miss)))
  ]

  pub any-map : (f : A → A) (xs : List A) → ((x : A) → p (f x) ≡ p x) → any p (map f xs) ≡ any p xs
  any-map f [] same = refl
  any-map f (x ∷ xs) same = rw (same x, any-map f xs same) refl

module _ {ℓ κ} {A : Type ℓ} {B : Type κ} where
  pub length-map : (f : A → B) (xs : List A) → length (map f xs) ≡ length xs
  length-map f [] = refl
  length-map f (x ∷ xs) = ap suc (length-map f xs)

module _ {ℓ κ} {A : Type ℓ} where
  abbrev pub All : (A → Type κ) → List A → Type κ
  All P [] = Unit
  All P (x ∷ xs) = P x × All P xs

pub All-find {κ} :
    {A : Type 0} (P : A → Type κ) (p : A → Bool) (xs : List A) (x : A)
    → All P xs
    → find p xs ≡ some x
    → P x
All-find P p [] x h found = cc
All-find P p (y ∷ ys) x h found = elim (Bool-cases (p y)) [
  | inl hit ↦
      let same : some y ≡ some x = sym (find-true p y ys hit) ∙ found in
      subst P (let e : y ≡ x = cc in e) h.0
  | inr miss ↦ All-find P p ys x h.1 (sym (find-false p y ys miss) ∙ found)
]

module _ {ℓ} {A : Type ℓ} where
  -- Some member satisfies the predicate, with the place kept.
  abbrev pub Any : (A → Type 0) → List A → Type 0
  Any P [] = ⊥
  Any P (x ∷ xs) = P x ⊎ Any P xs

-- `set.has(key)` for a set of strings that is kept as a list.
abbrev pub has : String → List String → Bool
has k [] = false
has k (x ∷ xs) = str_eq k x || has k xs

module _ {ℓ} {A : Type ℓ} (P : A → Type 0) where
  pub Any-left : (xs ys : List A) → Any P xs → Any P (xs ++ ys)
  Any-left [] ys h = absurd h
  Any-left (x ∷ xs) ys (inl p) = inl p
  Any-left (x ∷ xs) ys (inr h) = inr (Any-left xs ys h)

  pub Any-right : (xs ys : List A) → Any P ys → Any P (xs ++ ys)
  Any-right [] ys h = h
  Any-right (x ∷ xs) ys h = inr (Any-right xs ys h)

  pub Any-split : (xs ys : List A) → Any P (xs ++ ys) → Any P xs ⊎ Any P ys
  Any-split [] ys h = inr h
  Any-split (x ∷ xs) ys (inl p) = inl (inl p)
  Any-split (x ∷ xs) ys (inr h) = elim (Any-split xs ys h) [ inl a ↦ inl (inr a) | inr b ↦ inr b ]
