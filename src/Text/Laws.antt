-- ===== src/Text/Laws.antt =====
-- Laws of the string operations.
use cargo_execution_assistan.Prelude.{
  ℕ, ◌≤◌, ◌≡◌, refl, ◌↔◌, Bool, true, false, All, [], ◌∷◌, length, arith,
}
use cargo_execution_assistan.Text.{Text, text_eq, is_space, trim_start, drop_trailing, trim}

pub text_eq_sound : (s t : Text) → text_eq s t ≡ true → s ≡ t
text_eq_sound [] [] h = refl
text_eq_sound [] (_ ∷ _) h = cc
text_eq_sound (_ ∷ _) [] h = cc
text_eq_sound (a ∷ s) (b ∷ t) h = ground (arith, text_eq_sound s t)

pub text_eq_refl : (s : Text) → text_eq s s ≡ true
text_eq_refl [] = refl
text_eq_refl (a ∷ s) = ground (arith, text_eq_refl s)

pub text_eq_iff : (s t : Text) → (text_eq s t ≡ true) ↔ (s ≡ t)
text_eq_iff s t = (text_eq_sound s t, λ e. rw e (text_eq_refl t))

length-trim_start : (s : Text) → length (trim_start s) ≤ length s
unfolding trim_start
length-trim_start [] = omega arith
length-trim_start (c ∷ s) = ground (arith, length-trim_start s)

length-drop_trailing : (p : ℕ → Bool) (s : Text) → length (drop_trailing p s) ≤ length s
unfolding drop_trailing
length-drop_trailing p [] = omega arith
length-drop_trailing p (c ∷ s) = ground (arith, length-drop_trailing p s)

pub length-trim : (s : Text) → length (trim s) ≤ length s
unfolding trim
length-trim s = omega (arith, length-drop_trailing is_space (trim_start s), length-trim_start s)

trim_start-clean : (s : Text) → All (λ c. is_space c ≡ false) s → trim_start s ≡ s
unfolding trim_start
trim_start-clean [] h = refl
trim_start-clean (c ∷ s) h = rw (h.0, trim_start) refl

drop_trailing-clean : (s : Text) → All (λ c. is_space c ≡ false) s → drop_trailing is_space s ≡ s
unfolding drop_trailing
drop_trailing-clean [] h = refl
drop_trailing-clean (c ∷ []) h = rw (h.0, drop_trailing) refl
drop_trailing-clean (c ∷ d ∷ s) h = rw (drop_trailing-clean (d ∷ s) h.1, drop_trailing) refl

-- A text without spaces is its own trim.
pub trim-clean : (s : Text) → All (λ c. is_space c ≡ false) s → trim s ≡ s
unfolding trim
trim-clean s h = rw (trim_start-clean s h) (drop_trailing-clean s h)
