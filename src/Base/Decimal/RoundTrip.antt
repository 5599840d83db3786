-- ===== src/Base/Decimal/RoundTrip.antt =====
-- Reading what was printed.
use Prim.Native.Nat.{ℕ, zero, suc, ◌+◌, ◌-◌, ◌*◌, ◌/◌, ◌%◌, ◌^◌, ◌<◌}
use mathlib.Core.Path.{◌≡◌, refl, ap, ◌∙◌}
use mathlib.Core.Bool.{true, false}
use mathlib.Core.Logic.{inl, inr}
use mathlib.Core.List.{[], ◌∷◌, ◌++◌}
use mathlib.Core.Option.{some}
use native.Mathlib.Omega.{arith}
use lambda.Base.Tests.{Bytes, ltb, Bool-cases, ltb→lt}
use lambda.Base.Lists.{All, All-append}
use lambda.Base.Errors.{ok}
use lambda.Base.Decimal.{
  decimal_digits, to_decimal, is_digit, digit_run, magnitude, signed_number, number_text, stoul,
  strtoul,
}

abbrev pub AreDigits : Bytes → Type 0
AreDigits = All (λ c. is_digit c ≡ true)

digits-AreDigits : (fuel n : ℕ) → AreDigits (decimal_digits fuel n)
unfolding decimal_digits
digits-AreDigits zero n = tt
digits-AreDigits (suc fuel) n = elim (Bool-cases (ltb n 10)) [
  | inl h ↦ rw h (ground (arith, ltb→lt n 10 h), tt)
  | inr h ↦ rw h (
      All-append (λ c. is_digit c ≡ true) (decimal_digits fuel (n / 10)) _
        (digits-AreDigits fuel (n / 10)) (ground arith, tt))
]

digit_run-append :
    (xs : Bytes) (acc d : ℕ)
    → AreDigits xs
    → is_digit d ≡ true
    → digit_run acc (xs ++ d ∷ []) ≡ digit_run acc xs * 10 + (d - 48)
unfolding digit_run
digit_run-append [] acc d h k = rw k
digit_run-append (x ∷ xs) acc d h k = rw h.0 (digit_run-append xs (acc * 10 + (x - 48)) d h.1 k)

-- n is its front digits and its last one.
split_decimal : (n : ℕ) → n / 10 * 10 + n % 10 ≡ n
split_decimal n = omega arith

digit_run-one : (n : ℕ) → n < 10 → digit_run 0 ((48 + n) ∷ []) ≡ n
unfolding digit_run
digit_run-one n lt = ground arith

digit_run-digits : (fuel n : ℕ) → n < fuel → digit_run 0 (decimal_digits fuel n) ≡ n
unfolding decimal_digits
digit_run-digits zero n lt = absurd (omega arith)
digit_run-digits (suc fuel) n lt = elim (Bool-cases (ltb n 10)) [
  | inl h ↦ rw h (digit_run-one n (ltb→lt n 10 h))
  | inr h ↦
      let front = decimal_digits fuel (n / 10) in
      let ih = digit_run-digits fuel (n / 10) (ground arith) in
      let step =
        digit_run-append front 0 (48 + n % 10) (digits-AreDigits fuel (n / 10)) (ground arith) in
      rw h (omega (arith, step, ih))
]

-- A printed number is not empty.
pub digits_head : (fuel n : ℕ) → (c : ℕ) × (cs : Bytes) × (decimal_digits (suc fuel) n ≡ c ∷ cs)
unfolding decimal_digits
digits_head fuel n = elim (Bool-cases (ltb n 10)) [
  | inl h ↦ (48 + n, [], rw h refl)
  | inr h ↦ append_one (decimal_digits fuel (n / 10)) (48 + n % 10) (rw h refl)
]
  where
    append_one :
        (xs : Bytes) (d : ℕ) {ys : Bytes}
        → ys ≡ xs ++ d ∷ []
        → (c : ℕ) × (cs : Bytes) × (ys ≡ c ∷ cs)
    append_one [] d e = (d, [], e)
    append_one (x ∷ xs) d e = (x, xs ++ d ∷ [], e)

number_text-digits :
    (text : Bytes) (c : ℕ) (cs : Bytes)
    → text ≡ c ∷ cs
    → AreDigits text
    → number_text text ≡ some (false, digit_run 0 text)
unfolding number_text signed_number magnitude
number_text-digits [] c cs e h = cc
number_text-digits (x ∷ xs) c cs e h = ground (arith, h)

magnitude-digits :
    (text : Bytes) (c : ℕ) (cs : Bytes)
    → text ≡ c ∷ cs
    → AreDigits text
    → magnitude text ≡ some (digit_run 0 text)
unfolding magnitude
magnitude-digits [] c cs e h = cc
magnitude-digits (x ∷ xs) c cs e h = rw h.0

pub magnitude-to_decimal : (n : ℕ) → magnitude (to_decimal n) ≡ some n
unfolding to_decimal
magnitude-to_decimal n =
    let (c, cs, e) = digits_head n n in
    magnitude-digits (decimal_digits (suc n) n) c cs e (digits-AreDigits (suc n) n)
    ∙ ap some (digit_run-digits (suc n) n (omega arith))

-- A sign in front of a printed number.
pub number_text-minus : (n : ℕ) → number_text (b'-' ∷ to_decimal n) ≡ some (true, n)
unfolding number_text signed_number
number_text-minus n = rw (magnitude-to_decimal n)

pub to_decimal-AreDigits : (n : ℕ) → AreDigits (to_decimal n)
unfolding to_decimal
to_decimal-AreDigits n = digits-AreDigits (suc n) n

pub number_text-to_decimal : (n : ℕ) → number_text (to_decimal n) ≡ some (false, n)
unfolding to_decimal
number_text-to_decimal n =
    let (c, cs, e) = digits_head n n in
    number_text-digits (decimal_digits (suc n) n) c cs e (digits-AreDigits (suc n) n)
    ∙ ap (λ v. some (false, v)) (digit_run-digits (suc n) n (omega arith))

-- A number of the machine's width is read back by `std::stoul` and by `strtoul`.
pub strtoul-to_decimal :
    (n : ℕ) → n < 2 ^ 64 → (strtoul (to_decimal n) ≡ n) × (stoul (to_decimal n) ≡ ok n)
unfolding strtoul stoul
strtoul-to_decimal n lt =
    let e = number_text-to_decimal n in
    (rw (strtoul, e) (ground arith), rw (stoul, e) (ground arith))
