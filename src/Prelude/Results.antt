-- ===== src/Prelude/Results.antt =====
-- A computation that may throw: `err` carries what is thrown.
use mathlib.Core.Path.{◌≡◌, refl, sym}
use mathlib.Core.Bool.{Bool, true, false}
use mathlib.Core.Logic.{◌⊎◌, inl, inr}
use mathlib.Core.Option.{Option, none, some}
use mathlib.Core.List.{List, [], ◌∷◌}

pub data Result {ℓ κ} (E : Type ℓ) (A : Type κ) : Type (ℓ ⊔ κ) where
  ok : A → Result E A
  err : E → Result E A

-- `if (b) throw e;`
abbrev pub throw_if {ℓ} : {E : Type ℓ} → Bool → E → Result E (Unit {0})
throw_if true thrown = err thrown
throw_if false thrown = ok tt

-- `if (!b) throw e;`
abbrev pub guard {ℓ} : {E : Type ℓ} → Bool → E → Result E (Unit {0})
guard false thrown = err thrown
guard true thrown = ok tt

-- The value of an optional, or a throw where it is missing.
abbrev pub or_throw {ℓ κ} : {E : Type ℓ} {A : Type κ} → Option A → E → Result E A
or_throw none thrown = err thrown
or_throw (some value) thrown = ok value

infixl 5 ◌>>=◌ ◌>>◌
-- A throw ends the function: what follows is not run.
abbrev pub ◌>>=◌ {ℓ κ μ} :
    {E : Type ℓ} {A : Type κ} {B : Type μ} → Result E A → (A → Result E B) → Result E B
err thrown >>= next = err thrown
ok value >>= next = next value

abbrev pub ◌>>◌ {ℓ μ} : {E : Type ℓ} {B : Type μ} → Result E (Unit {0}) → Result E B → Result E B
first >> second = first >>= λ _. second

-- A function that returns has run both of its parts.
pub >>=-eq-ok {ℓ κ μ} :
    {E : Type ℓ} {A : Type κ} {B : Type μ} (first : Result E A) (next : A → Result E B) {result : B}
    → (first >>= next) ≡ ok result
    → (value : A) × (first ≡ ok value) × (next value ≡ ok result)
>>=-eq-ok (err thrown) next returned = cc
>>=-eq-ok (ok value) next returned = (value, refl, returned)

pub Result-cases {ℓ κ} :
    {E : Type ℓ} {A : Type κ} (r : Result E A)
    → ((a : A) × (r ≡ ok a)) ⊎ ((thrown : E) × (r ≡ err thrown))
Result-cases (ok a) = inl (a, refl)
Result-cases (err thrown) = inr (thrown, refl)

pub ok_inj {ℓ κ} : {E : Type ℓ} {A : Type κ} {a b : A} → ◌≡◌ {A = Result E A} (ok a) (ok b) → a ≡ b
ok_inj h = cc

-- A list of conditions, in order, each with what is thrown where it does not hold.
abbrev pub check_all {ℓ} : {E : Type ℓ} → List (Bool × E) → Result E (Unit {0})
check_all [] = ok tt
check_all ((holds, e) ∷ rest) = guard holds e >> check_all rest

-- The conditions hold.
abbrev pub AllHold {ℓ} : {E : Type ℓ} → List (Bool × E) → Type 0
AllHold [] = Unit
AllHold ((holds, e) ∷ rest) = (holds ≡ true) × AllHold rest

pub check_all_iff {ℓ} :
    {E : Type ℓ} (cs : List (Bool × E)) (u : Unit {0})
    → (check_all cs ≡ ok u → AllHold cs) × (AllHold cs → check_all cs ≡ ok u)
check_all_iff [] u = (λ h. tt, λ h. refl)
check_all_iff ((true, e) ∷ rest) u =
    (λ h. (refl, (check_all_iff rest u).0 h), λ h. (check_all_iff rest u).1 h.1)
check_all_iff ((false, e) ∷ rest) u = (λ h. cc, λ h. cc)

-- What follows the conditions, where all is passed.
pub check_all-then {ℓ κ} :
    {E : Type ℓ} {A : Type κ} (cs : List (Bool × E)) (after result : A)
    → (check_all cs >> ok after) ≡ ok result
    → result ≡ after
check_all-then cs after result h =
    let (u, checked, returned) = >>=-eq-ok (check_all cs) _ h in sym (ok_inj returned)

-- Tests that were passed.
pub guard-ok {ℓ} : {E : Type ℓ} (b : Bool) (e : E) (u : Unit {0}) → guard b e ≡ ok u → b ≡ true
guard-ok true e u h = refl
guard-ok false e u h = cc

pub throw_if-ok {ℓ} :
    {E : Type ℓ} (b : Bool) (e : E) (u : Unit {0}) → throw_if b e ≡ ok u → b ≡ false
throw_if-ok true e u h = cc
throw_if-ok false e u h = refl

-- A condition that does not hold, with what it throws.
abbrev pub Fails : {E : Type 0} → E → List (Bool × E) → Type 0
Fails thrown [] = ⊥
Fails thrown ((holds, e) ∷ rest) = ((holds ≡ false) × (thrown ≡ e)) ⊎ Fails thrown rest

pub check_all-cases :
    {E : Type 0} (cs : List (Bool × E))
    → (check_all cs ≡ ok tt) ⊎ ((thrown : E) × (check_all cs ≡ err thrown) × Fails thrown cs)
check_all-cases [] = inl refl
check_all-cases ((false, e) ∷ rest) = inr (e, refl, inl (refl, refl))
check_all-cases ((true, e) ∷ rest) = elim (check_all-cases rest) [
  | inl passed ↦ inl passed
  | inr (thrown, stopped, failing) ↦ inr (thrown, stopped, inr failing)
]
