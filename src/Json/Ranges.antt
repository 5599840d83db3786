-- ===== src/Json/Ranges.antt =====
-- json/parse.cpp: ranges that are not trimmed, and the integers and literals that they hold.
use mathlib.Core.Path.{subst}
use lambda.Base.{
  equal, ℕ, zero, suc, ◌+◌, ◌-◌, ◌<◌, true, false, ◌||◌, [], ◌∷◌, ◌++◌, append_assoc, ◌≡◌, ◌∙◌,
  refl, arith, Bytes, codes, ◌==◌, All, byte_at, byte_at-drop, drop-suc, drop, length,
  length-append, Result, ok, err, Error, substr_at,
}
use lambda.Base.Integers.{ℤ, pos, negsuc, InInt64, integer_text, stol, stol-integer_text}
use lambda.Base.Decimal.{to_decimal, is_digit}
use lambda.Base.Decimal.RoundTrip.{AreDigits, to_decimal-AreDigits, digits_head}
use lambda.Http.Trim.{is_space}
use lambda.Json.Property.{Property}
use lambda.Json.Strings.{escape_text}
use lambda.Json.Read.{parse_string-escape_text}
use lambda.Json.Parse.{
  first_rune, last_rune, parse_literal, parse_number, parse_trimmed, parse_range,
}
use lambda.Json.Plain.{IsPlainText}
use lambda.Json.Clean.{IsClean, has_dot-IsClean}
use lambda.Json.Walk.{drop-length}

solid_at :
    (buf : Bytes) (i k : ℕ) (xs rest : Bytes)
    → All (λ x. is_space x ≡ false) xs
    → drop i buf ≡ xs ++ rest
    → k < length xs
    → is_space (byte_at buf (i + k)) ≡ false
solid_at buf i k [] rest h at lt = absurd (omega arith)
solid_at buf i zero (x ∷ xs) rest h at lt =
    let e : i + 0 ≡ i = omega arith in rw (e, byte_at-drop buf i x (xs ++ rest) at) h.0
solid_at buf i (suc k) (x ∷ xs) rest h at lt =
    let e : i + suc k ≡ i + 1 + k = omega arith in
    rw e (solid_at buf (i + 1) k xs rest h.1 (drop-suc buf i x (xs ++ rest) at) (omega arith))

-- A range that begins and ends with a rune that is no space is not trimmed.
module _ {F : Type 0} (stold : Bytes → Result F) (buf : Bytes) where
  parse_range_solid :
      (fuel i n : ℕ)
      → is_space (byte_at buf i) ≡ false
      → is_space (byte_at buf (i + n)) ≡ false
      → parse_range stold (suc fuel) buf i (i + suc n)
        ≡ parse_trimmed stold (parse_range stold fuel buf) buf i (i + suc n)
  unfolding parse_range first_rune last_rune
  parse_range_solid fuel i n h k =
      let left : i + suc n - i ≡ suc n = omega arith in
      let some_left : (suc n == 0) ≡ false = ground arith in
      let e : i + n + 1 ≡ i + suc n = omega arith in rw (left, h, left, k, e, left, some_left) refl

  -- A text between two such runes.
  pub parse_range-wrapped :
      (fuel i c d : ℕ) (body rest : Bytes)
      → is_space c ≡ false
      → is_space d ≡ false
      → drop i buf ≡ (c ∷ body ++ d ∷ []) ++ rest
      → parse_range stold (suc fuel) buf i (i + length (c ∷ body ++ d ∷ []))
        ≡ parse_trimmed stold (parse_range stold fuel buf) buf i (i + length (c ∷ body ++ d ∷ []))
  parse_range-wrapped fuel i c d body rest h k at =
      let n : length (body ++ d ∷ []) ≡ suc (length body) =
        omega (arith, length-append body (d ∷ [])) in
      let first = byte_at-drop buf i c ((body ++ d ∷ []) ++ rest) at in
      let last =
        byte_at-drop buf (i + suc (length body)) d rest
          (drop-length buf i (c ∷ body) (d ∷ rest) (at ∙ append_assoc (c ∷ body) (d ∷ []) rest)) in
      rw n (parse_range_solid fuel i (suc (length body)) (rw first h) (rw last k))

  -- A text of such runes.
  pub parse_range-solid :
      (fuel i c : ℕ) (cs rest : Bytes)
      → All (λ x. is_space x ≡ false) (c ∷ cs)
      → drop i buf ≡ (c ∷ cs) ++ rest
      → parse_range stold (suc fuel) buf i (i + length (c ∷ cs))
        ≡ parse_trimmed stold (parse_range stold fuel buf) buf i (i + length (c ∷ cs))
  parse_range-solid fuel i c cs rest h at =
      parse_range_solid fuel i (length cs) (rw (byte_at-drop buf i c (cs ++ rest) at) h.0)
        (solid_at buf i (length cs) (c ∷ cs) rest h at (omega arith))

digits_solid : (xs : Bytes) → AreDigits xs → All (λ x. is_space x ≡ false) xs
unfolding is_space
digits_solid [] h = tt
digits_solid (x ∷ xs) h = (ground (arith, h.0), digits_solid xs h.1)

integer_text-head :
    (z : ℤ)
    → (c : ℕ) × (cs : Bytes) × (integer_text z ≡ c ∷ cs)
      × ((is_digit c || c == b'-') ≡ true)
      × All (λ x. is_space x ≡ false) (c ∷ cs)
unfolding integer_text to_decimal is_space
integer_text-head (pos n) =
    let (c, cs, e) = digits_head n n in
    let d : AreDigits (c ∷ cs) = subst AreDigits e (to_decimal-AreDigits n) in
    (c, cs, e, ground (arith, d.0), digits_solid (c ∷ cs) d)
integer_text-head (negsuc n) = (
  b'-',
  to_decimal (suc n),
  refl,
  refl,
  (refl, digits_solid (to_decimal (suc n)) (to_decimal-AreDigits (suc n))),
)

module _ {F : Type 0} (stold : Bytes → Result F) (buf : Bytes) (clean : IsClean buf) where
  pub parse_range-integer_text :
      (z : ℤ) (fuel i : ℕ) (rest : Bytes)
      → InInt64 z
      → drop i buf ≡ integer_text z ++ rest
      → parse_range stold (suc fuel) buf i (i + length (integer_text z)) ≡ ok (Property.integer z)
  unfolding parse_trimmed parse_number
  parse_range-integer_text z fuel i rest h at =
      let (c, cs, e, num, solid) = integer_text-head z in
      let here : drop i buf ≡ (c ∷ cs) ++ rest = rw e at at in
      let n : i + length (c ∷ cs) - i ≡ length (c ∷ cs) = omega arith in
      let no_quote : (c == b'"') ≡ false = ground (arith, num) in
      let token = substr_at buf i (length (c ∷ cs)) (c ∷ cs) rest here refl in
      let number : stol (c ∷ cs) ≡ ok z = subst (λ t. stol t ≡ ok z) e (stol-integer_text z h) in
      rw e (
        parse_range-solid stold buf fuel i c cs rest solid here
        ∙ rw
            (
              parse_trimmed,
              byte_at-drop buf i c (cs ++ rest) here,
              no_quote,
              num,
              parse_number,
              has_dot-IsClean buf (i + length (c ∷ cs)) 0 clean,
              n,
              token,
              number,
            )
            refl)

  -- The two literals that are read back.
  pub parse_range-null :
      (fuel i : ℕ) (rest : Bytes)
      → drop i buf ≡ codes "null" ++ rest
      → parse_range stold (suc fuel) buf i (i + 4) ≡ ok Property.null
  unfolding parse_trimmed parse_literal equal is_space
  parse_range-null fuel i rest at =
      let solid : All (λ x. is_space x ≡ false) (codes "null") =
        (refl, (refl, (refl, (refl, tt)))) in
      let n : i + 4 - i ≡ 4 = omega arith in
      let token = substr_at buf i 4 (codes "null") rest at refl in
      parse_range-solid stold buf fuel i b'n' (codes "ull") rest solid at
      ∙ rw
          (parse_trimmed, byte_at-drop buf i b'n' (codes "ull" ++ rest) at, parse_literal, n, token)
          refl

  pub parse_range-true :
      (fuel i : ℕ) (rest : Bytes)
      → drop i buf ≡ codes "true" ++ rest
      → parse_range stold (suc fuel) buf i (i + 4) ≡ ok (Property.boolean true)
  unfolding parse_trimmed parse_literal equal is_space
  parse_range-true fuel i rest at =
      let solid : All (λ x. is_space x ≡ false) (codes "true") =
        (refl, (refl, (refl, (refl, tt)))) in
      let n : i + 4 - i ≡ 4 = omega arith in
      let token = substr_at buf i 4 (codes "true") rest at refl in
      parse_range-solid stold buf fuel i b't' (codes "rue") rest solid at
      ∙ rw
          (parse_trimmed, byte_at-drop buf i b't' (codes "rue" ++ rest) at, parse_literal, n, token)
          refl

  pub parse_range-false :
      (fuel i : ℕ) (rest : Bytes)
      → drop i buf ≡ codes "false" ++ rest
      → parse_range stold (suc fuel) buf i (i + 5) ≡ err Error.json_literal_long
  unfolding parse_trimmed parse_literal is_space
  parse_range-false fuel i rest at =
      let solid : All (λ x. is_space x ≡ false) (codes "false") =
        (refl, (refl, (refl, (refl, (refl, tt))))) in
      let n : i + 5 - i ≡ 5 = omega arith in
      parse_range-solid stold buf fuel i b'f' (codes "alse") rest solid at
      ∙ rw (parse_trimmed, byte_at-drop buf i b'f' (codes "alse" ++ rest) at, parse_literal, n) refl

  pub parse_range-escape_text :
      (content : Bytes) (fuel i : ℕ) (rest : Bytes)
      → IsPlainText content
      → drop i buf ≡ (b'"' ∷ escape_text content ++ b'"' ∷ []) ++ rest
      → parse_range stold (suc fuel) buf i (i + length (b'"' ∷ escape_text content ++ b'"' ∷ []))
        ≡ ok (Property.string content)
  unfolding parse_trimmed is_space
  parse_range-escape_text content fuel i rest h at =
      parse_range-wrapped stold buf fuel i b'"' b'"' (escape_text content) rest refl refl at
      ∙ rw
          (
            parse_trimmed,
            byte_at-drop buf i b'"' ((escape_text content ++ b'"' ∷ []) ++ rest) at,
            parse_string-escape_text buf content i rest h at,
          )
          refl
