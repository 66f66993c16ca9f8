-- ===== src/Prelude/Selection.antt =====
-- Relations of lists that specify what a filter and a loop over two lists do.
use mathlib.Core.Path.{◌≡◌}
use mathlib.Core.Logic.{◌↔◌, inl, inr}
use mathlib.Core.Bool.{Bool, true}
use mathlib.Core.List.{List, [], ◌∷◌, map}
use cargo_execution_assistan.Prelude.Tests.{Bool-cases}
use cargo_execution_assistan.Prelude.Lists.{keep_if, keep_if-true, keep_if-false}

-- The second list has the members of the first that satisfy the predicate, in their order.
pub data Kept {A : Type 0} (P : A → Type 0) : List A → List A → Type 0 where
  none_left : Kept P [] []
  keep : {x : A} {xs ys : List A} → P x → Kept P xs ys → Kept P (x ∷ xs) (x ∷ ys)
  skip : {x : A} {xs ys : List A} → ¬ P x → Kept P xs ys → Kept P (x ∷ xs) ys

-- The lists have the same length, and the relation holds at each place.
abbrev pub Paired : {A B : Type 0} → (A → B → Type 0) → List A → List B → Type 0
Paired R [] [] = Unit
Paired R [] (_ ∷ _) = ⊥
Paired R (_ ∷ _) [] = ⊥
Paired R (x ∷ xs) (y ∷ ys) = R x y × Paired R xs ys

pub keep_if-Kept :
    {A : Type 0} (p : A → Bool) (P : A → Type 0)
    → ((x : A) → (p x ≡ true) ↔ P x)
    → (xs : List A) → Kept P xs (keep_if p xs)
keep_if-Kept p P iff [] = Kept.none_left
keep_if-Kept p P iff (x ∷ xs) = elim (Bool-cases (p x)) [
  | inl hit ↦ rw (keep_if-true p x xs hit) (Kept.keep ((iff x).0 hit) (keep_if-Kept p P iff xs))
  | inr miss ↦
      rw (keep_if-false p x xs miss)
        (Kept.skip (λ h. let hit = (iff x).1 h in cc) (keep_if-Kept p P iff xs))
]

pub map-Paired :
    {A B : Type 0} (R : A → B → Type 0) (f : A → B)
    → ((x : A) → R x (f x))
    → (xs : List A) → Paired R xs (map f xs)
map-Paired R f h [] = tt
map-Paired R f h (x ∷ xs) = (h x, map-Paired R f h xs)
