-- ===== src/Base/Integers.antt =====
-- Signed integers of 64 bits as decimal text: `std::to_string` and `std::stol`.
use Prim.Native.Nat.{ℕ, zero, suc, ◌^◌, ◌<◌}
use mathlib.Core.Path.{◌≡◌}
use mathlib.Core.List.{◌∷◌}
use mathlib.Core.Option.{none, some}
use native.Mathlib.Omega.{arith}
use lambda.Base.Tests.{Bytes, ltb, leb, if◌then◌else◌}
use lambda.Base.Errors.{Result, ok, err, Error}
use lambda.Base.Decimal.{to_decimal, number_text}
use lambda.Base.Decimal.RoundTrip.{number_text-to_decimal, number_text-minus}

-- `negsuc n` is -(n + 1).
pub data ℤ : Type 0 where
  pos : ℕ → ℤ
  negsuc : ℕ → ℤ

-- The values of int64_t.
abbrev pub InInt64 : ℤ → Type 0
InInt64 (pos n) = n < 2 ^ 63
InInt64 (negsuc n) = n < 2 ^ 63

abbrev pub minus : ℕ → ℤ
minus zero = pos 0
minus (suc n) = negsuc n

unfoldable pub integer_text : ℤ → Bytes
integer_text (pos n) = to_decimal n
integer_text (negsuc n) = b'-' ∷ to_decimal (suc n)

unfoldable pub stol : Bytes → Result ℤ
unfolding number_text
stol text = elim (number_text text) [
  | none ↦ err Error.invalid_argument
  | some (negative, v) ↦
      if negative
      then (if leb v (2 ^ 63) then ok (minus v) else err Error.out_of_range)
      else (if ltb v (2 ^ 63) then ok (pos v) else err Error.out_of_range)
]

-- Every value of the type is read back.
pub stol-integer_text : (z : ℤ) → InInt64 z → stol (integer_text z) ≡ ok z
unfolding stol integer_text
stol-integer_text (pos n) lt = rw (stol, number_text-to_decimal n) (ground arith)
stol-integer_text (negsuc n) lt = rw (stol, number_text-minus (suc n)) (ground arith)
