-- ===== src/Base/Decimal.antt =====
-- Numbers as decimal text: `std::to_string`, and `std::stoul` and `strtoul` in base 10.
pub mod RoundTrip
use Prim.Native.Nat.{ℕ, zero, suc, ◌+◌, ◌-◌, ◌*◌, ◌/◌, ◌%◌, ◌^◌}
use mathlib.Core.Bool.{Bool, true, false, ◌&&◌, ◌||◌}
use mathlib.Core.List.{[], ◌∷◌, ◌++◌}
use mathlib.Core.Option.{Option, none, some}
use lambda.Base.Tests.{Bytes, ltb, leb, ◌==◌, if◌then◌else◌}
use lambda.Base.Errors.{Result, ok, err, Error}

-- The fuel bounds the number of digits.
unfoldable pub decimal_digits : ℕ → ℕ → Bytes
decimal_digits zero n = []
decimal_digits (suc fuel) n =
    let front = decimal_digits fuel (n / 10) in
    if ltb n 10 then (48 + n) ∷ [] else front ++ (48 + n % 10) ∷ []

unfoldable pub to_decimal : ℕ → Bytes
unfolding decimal_digits
to_decimal n = decimal_digits (suc n) n

abbrev pub is_digit : ℕ → Bool
is_digit c = leb 48 c && leb c 57

-- The digits in front, up to the first character that is none.
unfoldable pub digit_run : ℕ → Bytes → ℕ
digit_run acc [] = acc
digit_run acc (c ∷ cs) =
    let more = digit_run (acc * 10 + (c - 48)) cs in if is_digit c then more else acc

-- A magnitude, none if there is no digit.
unfoldable pub magnitude : Bytes → Option ℕ
unfolding digit_run
magnitude [] = none
magnitude (c ∷ cs) = if is_digit c then some (digit_run 0 (c ∷ cs)) else none

abbrev with_sign : Bool → Option ℕ → Option (Bool × ℕ)
with_sign negative none = none
with_sign negative (some v) = some (negative, v)

unfoldable pub signed_number : Bytes → Option (Bool × ℕ)
unfolding magnitude
signed_number [] = none
signed_number (c ∷ cs) =
    if c == b'-'
    then with_sign true (magnitude cs)
    else if c == b'+'
    then with_sign false (magnitude cs)
    else with_sign false (magnitude (c ∷ cs))

-- White space, a sign, digits.
unfoldable pub number_text : Bytes → Option (Bool × ℕ)
unfolding signed_number
number_text [] = none
number_text (c ∷ cs) =
    if c == b' ' || leb 9 c && leb c 13 then number_text cs else signed_number (c ∷ cs)

abbrev ulong_max : ℕ
ulong_max = 2 ^ 64 - 1

abbrev ulong_of : Bool → ℕ → ℕ
ulong_of negative v = if negative then (2 ^ 64 - v) % 2 ^ 64 else v

-- No number is 0, and an overflow is the largest value.
unfoldable pub strtoul : Bytes → ℕ
unfolding number_text
strtoul text = elim (number_text text) [
  | none ↦ 0
  | some (negative, v) ↦ if ltb ulong_max v then ulong_max else ulong_of negative v
]

unfoldable pub stoul : Bytes → Result ℕ
unfolding number_text
stoul text = elim (number_text text) [
  | none ↦ err Error.invalid_argument
  | some (negative, v) ↦
      if ltb ulong_max v then err Error.out_of_range else ok (ulong_of negative v)
]
