-- ===== src/Text/Regex/Meaning.antt =====
-- The texts that a regular expression stands for, and that the matcher by derivatives decides them.
use cargo_execution_assistan.Prelude.{
  ℕ, zero, suc, ◌≡◌, refl, sym, ap, ◌∙◌, ◌↔◌, ◌⊎◌, inl, inr, Bool, true, [], ◌∷◌, ◌++◌, arith,
  Bool-cases, length, All,
}
use cargo_execution_assistan.Text.{Text}
use cargo_execution_assistan.Text.Regex.{
  Regex, nothing, eps, one, seq, alt, star, nullable, derivative, matches, times,
}

-- A row of texts that satisfy a predicate.
pub data Star (P : Text → Type 0) : Text → Type 0 where
  done : {s : Text} → s ≡ [] → Star P s
  more : {s : Text} (t u : Text) → s ≡ t ++ u → P t → Star P u → Star P s

abbrev pub Matches : Regex → Text → Type 0
Matches nothing s = ⊥
Matches eps s = s ≡ []
Matches (one p) s = (c : ℕ) × (s ≡ c ∷ []) × (p c ≡ true)
Matches (seq r q) s = (t : Text) × (u : Text) × (s ≡ t ++ u) × Matches r t × Matches q u
Matches (alt r q) s = Matches r s ⊎ Matches q s
Matches (star r) s = Star (Matches r) s

nullable_sound : (r : Regex) → nullable r ≡ true → Matches r []
nullable_sound nothing h = cc
nullable_sound eps h = refl
nullable_sound (one p) h = cc
nullable_sound (seq r q) h =
    ([], [], refl, nullable_sound r (ground arith), nullable_sound q (ground arith))
nullable_sound (alt r q) h = elim (Bool-cases (nullable r)) [
  | inl yes_r ↦ inl (nullable_sound r yes_r)
  | inr no_r ↦ inr (nullable_sound q (ground arith))
]
nullable_sound (star r) h = done refl

append-eq-nil : (t u : Text) → [] ≡ t ++ u → (t ≡ []) × (u ≡ [])
append-eq-nil [] u h = (refl, sym h)
append-eq-nil (c ∷ t) u h = (cc, cc)

nullable_complete : (r : Regex) → Matches r [] → nullable r ≡ true
nullable_complete nothing m = absurd m
nullable_complete eps m = refl
nullable_complete (one p) (c, e, h) = cc
nullable_complete (seq r q) (t, u, e, m, n) =
    let (et, eu) = append-eq-nil t u e in
    rw (nullable_complete r (rw et at m), nullable_complete q (rw eu at n))
nullable_complete (alt r q) (inl m) = rw (nullable_complete r m)
nullable_complete (alt r q) (inr m) = rw (nullable_complete q m) (ground arith)
nullable_complete (star r) m = refl

derivative_sound : (r : Regex) (c : ℕ) (s : Text) → Matches (derivative c r) s → Matches r (c ∷ s)
unfolding derivative
derivative_sound nothing c s m = absurd m
derivative_sound eps c s m = absurd m
derivative_sound (one p) c s m = elim (Bool-cases (p c)) [
  | inl h ↦ let m' : s ≡ [] = rw h at m in (c, ap (λ x. c ∷ x) m', h)
  | inr h ↦ absurd (rw h at m)
]
derivative_sound (seq r q) c s m = elim (Bool-cases (nullable r)) [
  | inl empty ↦ elim (split (rw empty at m)) [
    | inl (t, u, e, m1, n) ↦ (c ∷ t, u, ap (λ x. c ∷ x) e, derivative_sound r c t m1, n)
    | inr n ↦ ([], c ∷ s, refl, nullable_sound r empty, derivative_sound q c s n)
  ]
  | inr full ↦
      let (t, u, e, m1, n) = left (rw full at m) in
      (c ∷ t, u, ap (λ x. c ∷ x) e, derivative_sound r c t m1, n)
]
  where
    left : Matches (seq (derivative c r) q) s → Matches (seq (derivative c r) q) s
    left x = x

    split :
        Matches (alt (seq (derivative c r) q) (derivative c q)) s
        → Matches (alt (seq (derivative c r) q) (derivative c q)) s
    split x = x
derivative_sound (alt r q) c s (inl m) = inl (derivative_sound r c s m)
derivative_sound (alt r q) c s (inr m) = inr (derivative_sound q c s m)
derivative_sound (star r) c s (t, u, e, m, n) =
    more (c ∷ t) u (ap (λ x. c ∷ x) e) (derivative_sound r c t m) n

-- The first text of a row that is not empty.
Star-first :
    (P : Text → Type 0) (c : ℕ) (s : Text) {w : Text}
    → Star P w
    → w ≡ c ∷ s
    → (t : Text) × (u : Text) × (s ≡ t ++ u) × P (c ∷ t) × Star P u
Star-first P c s (done e) h = cc
Star-first P c s (more [] u e m n) h = Star-first P c s n (sym e ∙ h)
Star-first P c s (more (d ∷ t) u e m n) h = let ec : d ≡ c = cc in (t, u, cc, rw ec at m, n)

derivative_complete :
    (r : Regex) (c : ℕ) (s : Text) → Matches r (c ∷ s) → Matches (derivative c r) s
unfolding derivative
derivative_complete nothing c s m = absurd m
derivative_complete eps c s m = cc
derivative_complete (one p) c s (d, e, h) =
    let ec : c ≡ d = cc in let es : s ≡ [] = cc in rw (ec, h, es) refl
derivative_complete (seq r q) c s ([], u, e, m, n) =
    rw (nullable_complete r m) (inr (derivative_complete q c s (rw (← e) at n)))
derivative_complete (seq r q) c s (d ∷ t, u, e, m, n) =
    let ec : c ≡ d = cc in
    let es : s ≡ t ++ u = cc in
    let here : Matches (seq (derivative c r) q) s =
      (t, u, es, derivative_complete r c t (rw (← ec) at m), n) in
    elim (Bool-cases (nullable r)) [ inl empty ↦ rw empty (inl here) | inr full ↦ rw full here ]
derivative_complete (alt r q) c s (inl m) = inl (derivative_complete r c s m)
derivative_complete (alt r q) c s (inr m) = inr (derivative_complete q c s m)
derivative_complete (star r) c s m =
    let (t, u, e, m1, n) = Star-first (Matches r) c s m refl in
    (t, u, e, derivative_complete r c t m1, n)

-- The matcher accepts exactly the texts that the expression stands for.
pub matches_iff : (r : Regex) (s : Text) → (matches r s ≡ true) ↔ Matches r s
unfolding matches
matches_iff r [] = (nullable_sound r, nullable_complete r)
matches_iff r (c ∷ s) = (
  λ h. derivative_sound r c s ((matches_iff (derivative c r) s).0 h),
  λ m. (matches_iff (derivative c r) s).1 (derivative_complete r c s m),
)

-- `[class]{n}` stands for the texts of `n` members of the class.
pub times_sound :
    (n : ℕ) (p : ℕ → Bool) (s : Text)
    → Matches (times n (one p)) s
    → (length s ≡ n) × All (λ c. p c ≡ true) s
times_sound zero p s m = (ap length m, rw m tt)
times_sound (suc n) p s (t, u, e, (c, et, h), m) =
    let (count, members) = times_sound n p u m in
    let whole : s ≡ c ∷ u = cc in rw whole (ap suc count, (h, members))

pub times_complete :
    (p : ℕ → Bool) (s : Text) → All (λ c. p c ≡ true) s → Matches (times (length s) (one p)) s
times_complete p [] h = refl
times_complete p (c ∷ s) h = (c ∷ [], s, refl, (c, refl, h.0), times_complete p s h.1)
