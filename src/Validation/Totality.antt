-- ===== src/Validation/Totality.antt =====
-- server/src/services/validation: the program's own rules are ordered, and nothing that the engine
-- calls on them throws.
use cargo_execution_assistan.Prelude.{
  ℕ, ℤ, pos, negsuc, ◌≡◌, ◌<◌, refl, inl, inr, Bool, true, ◌&&◌, not, Option, some, none, List, [],
  ◌∷◌, Result, ok, err, has, All, arith, Bool-cases,
}
use cargo_execution_assistan.Text.{Text, codes, text_eq, Platform}
use cargo_execution_assistan.Validation.Entry.{CanonicalEntryRecord, is_entry_field}
use cargo_execution_assistan.Validation.Calendar.{format_date, date_only_utc, add_days_utc}
use cargo_execution_assistan.Validation.Calendar.Format.{
  IsRealDate, date_parts-format_date, days_in_month-le,
}
use cargo_execution_assistan.Validation.Rule.{RuleDefinition}
use cargo_execution_assistan.Validation.Rules.Common.{mode}
use cargo_execution_assistan.Validation.Rules.Transport.{document_present}
use cargo_execution_assistan.Validation.Rules.Arrival.{in_window}
use cargo_execution_assistan.Validation.Rules.{rules}
use cargo_execution_assistan.Validation.Engine.{
  is_gated, resolve_field, resolve_message, Progress, report, assess, step, evaluate_from,
}
use cargo_execution_assistan.Validation.Engine.Loop.{ids}
use cargo_execution_assistan.Validation.Engine.Exact.{IsOrdered}

-- The call returns.
abbrev pub Returns {ℓ} : {E : Type ℓ} {A : Type 0} → Result E A → Type 0
Returns (ok a) = Unit
Returns (err e) = ⊥

pub returned {ℓ} : {E : Type ℓ} {A : Type 0} (m : Result E A) → Returns m → (a : A) × (m ≡ ok a)
returned (ok a) h = (a, refl)
returned (err e) h = absurd h

-- Nothing that the engine calls on the rule throws.
abbrev pub IsTotal : CanonicalEntryRecord → Text → RuleDefinition → Type 0
IsTotal r received_at rule =
    Returns (rule.applicable r)
    × Returns (rule.satisfied r received_at)
    × Returns (resolve_field rule r)
    × Returns (resolve_message rule r)

module _ (r : CanonicalEntryRecord) (received_at : Text) where
  report-total :
      (rule : RuleDefinition) (p : Progress)
      → Returns (resolve_field rule r)
      → Returns (resolve_message rule r)
      → Returns (report r rule p)
  unfolding report
  report-total rule p f m =
      let (name, ef) = returned (resolve_field rule r) f in
      let (message, em) = returned (resolve_message rule r) m in rw (ef, em) tt

  step-total :
      (rule : RuleDefinition) (p : Progress)
      → IsTotal r received_at rule
      → Returns (step r received_at rule p)
  unfolding step assess
  step-total rule p (a, s, f, m) =
      let (applicable, ea) = returned (rule.applicable r) a in
      let (satisfied, es) = returned (rule.satisfied r received_at) s in
      let reported = report-total rule p f m in ground arith

  pub evaluate_from-total :
      (rules : List RuleDefinition) (p : Progress)
      → All (IsTotal r received_at) rules
      → Returns (evaluate_from r received_at rules p)
  unfolding evaluate_from
  evaluate_from-total [] p h = tt
  evaluate_from-total (rule ∷ rules) p h =
      let (q, e) = returned (step r received_at rule p) (step-total rule p h.0) in
      rw e (evaluate_from-total rules q h.1)

is_ordered : List RuleDefinition → Bool
is_ordered [] = true
is_ordered (rule ∷ rest) =
    not (has rule.rule_id (ids rest))
    && (not (is_gated rule.requires_passed (rule.rule_id ∷ ids rest)) && is_ordered rest)

is_ordered_sound : (rules : List RuleDefinition) → is_ordered rules ≡ true → IsOrdered rules
unfolding is_ordered
is_ordered_sound [] h = tt
is_ordered_sound (rule ∷ rest) h =
    (ground arith, ground arith, is_ordered_sound rest (ground arith))

-- The registry of the program is ordered.
pub rules-IsOrdered : (p : Platform) → IsOrdered (rules p)
unfolding rules is_ordered
rules-IsOrdered p = is_ordered_sound (rules p) refl

module _ (p : Platform) (received_at : Text) (y m d : ℕ) where
  add_days_utc-total :
      (n : ℤ) → y < 10000 → IsRealDate y m d → Returns (add_days_utc (format_date y m d) n)
  unfolding add_days_utc
  add_days_utc-total n b real =
      rw
        (
          date_parts-format_date y m d b (omega arith) (omega (arith, days_in_month-le y m)),
          add_days_utc,
        )
        tt

  in_window-total :
      (arrival : Option Text)
      → p.utc_date received_at ≡ some (y, m, d)
      → y < 10000
      → IsRealDate y m d
      → Returns (in_window p arrival received_at)
  unfolding in_window date_only_utc
  in_window-total none h b real = tt
  in_window-total (some v) h b real =
      let (lower, el) =
        returned (add_days_utc (format_date y m d) (negsuc 59)) (add_days_utc-total _ b real) in
      let (upper, eu) =
        returned (add_days_utc (format_date y m d) (pos 180)) (add_days_utc-total _ b real) in
      rw (h, in_window, date_only_utc) (rw (el, eu) tt)

  pub rules-IsTotal :
      (r : CanonicalEntryRecord)
      → p.utc_date received_at ≡ some (y, m, d)
      → y < 10000
      → IsRealDate y m d
      → All (IsTotal r received_at) (rules p)
  unfolding rules resolve_field resolve_message is_entry_field
  rules-IsTotal r h b real =
      let plain : Unit {0} × Unit {0} × Unit {0} × Unit {0} = (tt, tt, tt, tt) in
      (
        plain,
        (
          plain,
          (
            plain,
            (
              plain,
              (
                plain,
                (
                  plain,
                  (
                    plain,
                    (
                      plain,
                      (
                        plain,
                        (
                          plain,
                          (
                            plain,
                            (
                              plain,
                              (
                                (tt, tt, document_field, tt),
                                (
                                  plain,
                                  (
                                    plain,
                                    (
                                      plain,
                                      (
                                        plain,
                                        (
                                          plain,
                                          (
                                            plain,
                                            (
                                              plain,
                                              (
                                                plain,
                                                (
                                                  plain,
                                                  (
                                                    plain,
                                                    (
                                                      plain,
                                                      (
                                                        plain,
                                                        (
                                                          plain,
                                                          (
                                                            plain,
                                                            (
                                                            plain,
                                                            (
                                                            plain,
                                                            (
                                                            plain,
                                                            (
                                                            (
                                                            tt,
                                                            in_window-total r.arrival_date h b real,
                                                            tt,
                                                            tt,
                                                            ),
                                                            tt,
                                                            ),
                                                            ),
                                                            ),
                                                            ),
                                                          ),
                                                        ),
                                                      ),
                                                    ),
                                                  ),
                                                ),
                                              ),
                                            ),
                                          ),
                                        ),
                                      ),
                                    ),
                                  ),
                                ),
                              ),
                            ),
                          ),
                        ),
                      ),
                    ),
                  ),
                ),
              ),
            ),
          ),
        ),
      )
    where
      document_field : Returns (resolve_field (document_present p) r)
      document_field = elim (Bool-cases (text_eq (mode p r) (codes "AIR"))) [
        | inl air ↦ rw air tt
        | inr other ↦ rw other tt
      ]
