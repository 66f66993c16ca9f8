-- ===== src/Text/Decimal.antt =====
-- The digits of `String(n)` for numbers of one to four digits.
use cargo_execution_assistan.Prelude.{ℕ, zero, suc, ◌+◌, ◌/◌, ◌%◌, ◌≤◌, ◌<◌, ◌≡◌, [], ◌∷◌, arith}
use cargo_execution_assistan.Text.{Text, digits_from, decimal}

abbrev pub digit : ℕ → ℕ
digit k = b'0' + k

last : (f n : ℕ) (acc : Text) → n < 10 → digits_from (suc f) n acc ≡ digit (n % 10) ∷ acc
unfolding digits_from
last f n acc h = ground arith

next :
    (f n : ℕ) (acc : Text)
    → 10 ≤ n
    → digits_from (suc f) n acc ≡ digits_from f (n / 10) (digit (n % 10) ∷ acc)
unfolding digits_from
next f n acc h = ground arith

two :
    (f n : ℕ) (acc : Text)
    → 10 ≤ n
    → n < 100
    → digits_from (suc (suc f)) n acc ≡ digit (n / 10 % 10) ∷ digit (n % 10) ∷ acc
two f n acc h k = rw (next (suc f) n acc h) (last f (n / 10) _ (omega arith))

three :
    (f n : ℕ) (acc : Text)
    → 100 ≤ n
    → n < 1000
    → digits_from (suc (suc (suc f))) n acc
      ≡ digit (n / 10 / 10 % 10) ∷ digit (n / 10 % 10) ∷ digit (n % 10) ∷ acc
three f n acc h k =
    rw (next (suc (suc f)) n acc (omega arith)) (two f (n / 10) _ (omega arith) (omega arith))

four :
    (f n : ℕ) (acc : Text)
    → 1000 ≤ n
    → n < 10000
    → digits_from (suc (suc (suc (suc f)))) n acc
      ≡ digit (n / 10 / 10 / 10 % 10)
        ∷ digit (n / 10 / 10 % 10)
        ∷ digit (n / 10 % 10)
        ∷ digit (n % 10)
        ∷ acc
four f n acc h k =
    rw (next (suc (suc (suc f))) n acc (omega arith))
      (three f (n / 10) _ (omega arith) (omega arith))

-- The digit of the units, of the tens, of the hundreds and of the thousands.
abbrev pub units : ℕ → ℕ
units n = digit (n % 10)

abbrev pub tens : ℕ → ℕ
tens n = digit (n / 10 % 10)

abbrev pub hundreds : ℕ → ℕ
hundreds n = digit (n / 10 / 10 % 10)

abbrev pub thousands : ℕ → ℕ
thousands n = digit (n / 10 / 10 / 10 % 10)

pub decimal_one : (n : ℕ) → n < 10 → decimal n ≡ units n ∷ []
unfolding decimal
decimal_one n h = last n n [] h

pub decimal_two : (n : ℕ) → 10 ≤ n → n < 100 → decimal n ≡ tens n ∷ units n ∷ []
unfolding decimal
decimal_two zero h k = absurd (omega arith)
decimal_two (suc n) h k = two n (suc n) [] h k

pub decimal_three : (n : ℕ) → 100 ≤ n → n < 1000 → decimal n ≡ hundreds n ∷ tens n ∷ units n ∷ []
unfolding decimal
decimal_three zero h k = absurd (omega arith)
decimal_three (suc zero) h k = absurd (omega arith)
decimal_three (suc (suc n)) h k = three n (suc (suc n)) [] h k

pub decimal_four :
    (n : ℕ) → 1000 ≤ n → n < 10000 → decimal n ≡ thousands n ∷ hundreds n ∷ tens n ∷ units n ∷ []
unfolding decimal
decimal_four zero h k = absurd (omega arith)
decimal_four (suc zero) h k = absurd (omega arith)
decimal_four (suc (suc zero)) h k = absurd (omega arith)
decimal_four (suc (suc (suc n))) h k = four n (suc (suc (suc n))) [] h k
