-- ===== src/Server/Bind/Octets.antt =====
-- server/server.cpp: which dotted numbers parse_bind_addr accepts.
use lambda.Base.{
  ℕ, suc, ◌+◌, ◌-◌, ◌^◌, ◌<◌, Bool, true, false, not, ◌&&◌, [], ◌∷◌, ◌++◌, append-nil, ◌≡◌, ◌∙◌,
  refl, sym, ap, arith, Bytes, leb, ◌==◌, if◌then◌else◌, byte_at-drop, drop, drop-suc, drop_past,
  substr_at, length, length-append, is_empty, Result, ok, err, Error, ◌>>=◌,
}
use lambda.Base.Decimal.{to_decimal}
use lambda.Base.Decimal.RoundTrip.{AreDigits, to_decimal-AreDigits, digits_head}
use lambda.Base.Integers.{pos, integer_text, stol-integer_text}
use lambda.Server.Bind.{has_plain_runes, is_segment, segments, parse_bind_addr}

is_segment-to_decimal : (n : ℕ) → n < 2 ^ 63 → is_segment (to_decimal n) ≡ leb n 255
unfolding is_segment integer_text
is_segment-to_decimal n lt = rw (is_segment, stol-integer_text (pos n) lt) refl

if-not : (b : Bool) (r s : Result (ℕ × ℕ)) → (if not b then r else s) ≡ (if b then s else r)
if-not true r s = refl
if-not false r s = refl

module _ (addr : Bytes) where
  segments_digits :
      (xs : Bytes) (left idx begin count : ℕ) (rest : Bytes)
      → AreDigits xs
      → drop idx addr ≡ xs ++ rest
      → segments addr (length xs + left) idx begin count
        ≡ segments addr left (idx + length xs) begin count
  unfolding segments
  segments_digits [] left idx begin count rest h at =
      let a : 0 + left ≡ left = omega arith in let b : idx + 0 ≡ idx = omega arith in rw (a, b)
  segments_digits (x ∷ xs) left idx begin count rest h at =
      let no_dot : (x == b'.') ≡ false = ground (arith, h.0) in
      let a : suc (length xs) + left ≡ suc (length xs + left) = omega arith in
      let b : idx + suc (length xs) ≡ idx + 1 + length xs = omega arith in
      rw (a, b, segments, byte_at-drop addr idx x (xs ++ rest) at, no_dot)
        (segments_digits xs left (idx + 1) begin count rest h.1
          (drop-suc addr idx x (xs ++ rest) at))

  -- One number and the dot behind it.
  segments_number :
      (n left idx count : ℕ) (rest : Bytes)
      → n < 2 ^ 63
      → drop idx addr ≡ to_decimal n ++ b'.' ∷ rest
      → segments addr (length (to_decimal n) + suc left) idx idx count ≡ (
          if leb n 255
          then segments addr left
              (idx + length (to_decimal n) + 1)
              (idx + length (to_decimal n) + 1)
              (count + 1)
          else err Error.bind_address_invalid)
  unfolding segments
  segments_number n left idx count rest lt at =
      let text = to_decimal n in
      let k = length text in
      let dot =
        byte_at-drop addr (idx + k) b'.' rest
          (drop_past addr idx (idx + k) text (b'.' ∷ rest) at refl) in
      let token = substr_at addr idx k text (b'.' ∷ rest) at refl in
      let size : idx + k - idx ≡ k = omega arith in
      segments_digits text (suc left) idx idx count (b'.' ∷ rest) (to_decimal-AreDigits n) at
      ∙ rw (segments, dot, size, token, is_segment-to_decimal n lt) (if-not (leb n 255) _ _)

abbrev invalid : Result Bytes
invalid = err Error.bind_address_invalid

-- A dotted text of four numbers.
abbrev pub dotted : ℕ → ℕ → ℕ → ℕ → Bytes
dotted a b c d =
    to_decimal a ++ b'.' ∷ (to_decimal b ++ b'.' ∷ (to_decimal c ++ b'.' ∷ to_decimal d))

digits-has_plain_runes :
    (xs rest : Bytes)
    → AreDigits xs
    → has_plain_runes rest ≡ true
    → has_plain_runes (xs ++ rest) ≡ true
unfolding has_plain_runes
digits-has_plain_runes [] rest h k = k
digits-has_plain_runes (x ∷ xs) rest h k = rw h.0 (digits-has_plain_runes xs rest h.1 k)

dot-has_plain_runes :
    (rest : Bytes) → has_plain_runes rest ≡ true → has_plain_runes (b'.' ∷ rest) ≡ true
unfolding has_plain_runes
dot-has_plain_runes rest h = h

dotted-has_plain_runes : (a b c d : ℕ) → has_plain_runes (dotted a b c d) ≡ true
unfolding has_plain_runes
dotted-has_plain_runes a b c d =
    let all : has_plain_runes (to_decimal d) ≡ true =
      ap has_plain_runes (sym (append-nil (to_decimal d)))
      ∙ digits-has_plain_runes (to_decimal d) [] (to_decimal-AreDigits d) refl in
    let on = λ (n : ℕ) (rest : Bytes) (h : has_plain_runes rest ≡ true).
      digits-has_plain_runes (to_decimal n) (b'.' ∷ rest) (to_decimal-AreDigits n)
        (dot-has_plain_runes rest h) in
    on a _ (on b _ (on c _ all))

behind_dot :
    (addr : Bytes) (i : ℕ) (text rest : Bytes)
    → drop i addr ≡ text ++ b'.' ∷ rest
    → drop (i + length text + 1) addr ≡ rest
behind_dot addr i text rest at =
    drop-suc addr (i + length text) b'.' rest
      (drop_past addr i (i + length text) text (b'.' ∷ rest) at refl)

decimal_head : (n : ℕ) → (c : ℕ) × (cs : Bytes) × (to_decimal n ≡ c ∷ cs)
unfolding to_decimal
decimal_head n = digits_head n n

-- Four tests one after the other.
outcome :
    (p q r t : Bool) (x : ℕ × ℕ) (f : ℕ × ℕ → Result Bytes) (addr : Bytes)
    → f x ≡ (if not t then invalid else ok addr)
    → ((if p
          then (if q
              then (if r then ok x else err Error.bind_address_invalid)
              else err Error.bind_address_invalid)
          else err Error.bind_address_invalid)
        >>= f)
      ≡ (if p && (q && (r && t)) then ok addr else invalid)
outcome true true true true x f addr h = h
outcome true true true false x f addr h = h
outcome true true false t x f addr h = refl
outcome true false r t x f addr h = refl
outcome false q r t x f addr h = refl

module _ (a b c d : ℕ) (la : a < 2 ^ 63) (lb : b < 2 ^ 63) (lc : c < 2 ^ 63) (ld : d < 2 ^ 63) where
  abbrev refused : Result (ℕ × ℕ)
  refused = err Error.bind_address_invalid

  abbrev last_begin : ℕ
  last_begin = 0 + length (to_decimal a) + 1 + length (to_decimal b) + 1 + length (to_decimal c) + 1

  segments-dotted : segments (dotted a b c d) (length (dotted a b c d)) 0 0 0 ≡ (
      if leb a 255
      then (if leb b 255 then (if leb c 255 then ok (last_begin, 3) else refused) else refused)
      else refused)
  unfolding segments
  segments-dotted =
      let addr = dotted a b c d in
      let d_text = to_decimal d in
      let c_text = to_decimal c ++ b'.' ∷ d_text in
      let b_text = to_decimal b ++ b'.' ∷ c_text in
      let size : length addr
          ≡ length (to_decimal a)
            + suc (length (to_decimal b) + suc (length (to_decimal c) + suc (length d_text + 0))) =
        omega (
          arith,
          length-append (to_decimal a) (b'.' ∷ b_text),
          length-append (to_decimal b) (b'.' ∷ c_text),
          length-append (to_decimal c) (b'.' ∷ d_text),
        ) in
      let i1 = 0 + length (to_decimal a) + 1 in
      let i2 = i1 + length (to_decimal b) + 1 in
      let at1 : drop i1 addr ≡ b_text = behind_dot addr 0 (to_decimal a) b_text refl in
      let at2 : drop i2 addr ≡ c_text = behind_dot addr i1 (to_decimal b) c_text at1 in
      let at3 : drop last_begin addr ≡ d_text = behind_dot addr i2 (to_decimal c) d_text at2 in
      let at3_end = at3 ∙ sym (append-nil d_text) in
      let last =
        segments_digits addr d_text 0 last_begin last_begin 3 [] (to_decimal-AreDigits d) at3_end in
      ap (λ n. segments addr n 0 0 0) size
      ∙ segments_number addr a _ 0 0 b_text la refl
      ∙ ap (λ r. if leb a 255 then r else refused)
          (segments_number addr b _ i1 1 c_text lb at1
            ∙ ap (λ r. if leb b 255 then r else refused)
                (segments_number addr c _ i2 2 d_text lc at2
                  ∙ ap (λ r. if leb c 255 then r else refused) last))

  -- A dotted text of four numbers below 2^63 is accepted, as it is, exactly if every number is at most
  -- 255, and refused as invalid otherwise.
  pub parse_bind_addr-dotted : parse_bind_addr (dotted a b c d) ≡ (
      if leb a 255 && (leb b 255 && (leb c 255 && leb d 255))
      then ok (dotted a b c d)
      else err Error.bind_address_invalid)
  unfolding parse_bind_addr
  parse_bind_addr-dotted =
      let addr = dotted a b c d in
      let (x, xs, e) = decimal_head a in
      let filled : is_empty addr ≡ false = rw e refl in
      let d_text = to_decimal d in
      let c_text = to_decimal c ++ b'.' ∷ d_text in
      let b_text = to_decimal b ++ b'.' ∷ c_text in
      let at1 = behind_dot addr 0 (to_decimal a) b_text refl in
      let at2 = behind_dot addr _ (to_decimal b) c_text at1 in
      let at3 : drop last_begin addr ≡ d_text = behind_dot addr _ (to_decimal c) d_text at2 in
      let last : is_segment (drop last_begin addr) ≡ leb d 255 =
        ap is_segment at3 ∙ is_segment-to_decimal d ld in
      rw (parse_bind_addr, filled, dotted-has_plain_runes a b c d, segments-dotted)
        (outcome (leb a 255) (leb b 255) (leb c 255) (leb d 255) _ _ _ (rw last refl))
