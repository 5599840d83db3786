-- ===== src/Base64/RoundTrip.antt =====
-- Decoding what was encoded.
use lambda.Base.{
  ℕ, ◌+◌, ◌/◌, ◌%◌, ◌*◌, ◌<◌, ◌≡◌, refl, arith, [], ◌∷◌, ◌++◌, Bytes, IsBytes, replicate,
}
use lambda.Base64.{enc_b1, enc_b2, enc_b3, enc_b4, dec_b1, dec_b2, dec_b3, encode, decode_blocks}
use lambda.Base64.Sextets.{
  enc_b1_lem, enc_b2_lem, enc_b3_lem, enc_b4_lem, dec_b1-enc_at, dec_b2-enc_at, dec_b3-enc_at,
  dec_b2-enc_at_pad, dec_b3-enc_at_pad, dec_b3_pad,
}

first_byte : (a b : ℕ) → a < 256 → b < 256 → dec_b1 (enc_b1 a) (enc_b2 a b) ≡ a
first_byte a b ha hb =
    rw
      (
        enc_b1_lem a,
        enc_b2_lem a b hb,
        dec_b1-enc_at (a / 4 % 64) ((a * 16 + b / 16) % 64) (omega arith) (omega arith),
      )
      (omega arith)

second_byte : (a b c : ℕ) → a < 256 → b < 256 → c < 256 → dec_b2 (enc_b2 a b) (enc_b3 b c) ≡ b
second_byte a b c ha hb hc =
    rw
      (
        enc_b2_lem a b hb,
        enc_b3_lem b c hc,
        dec_b2-enc_at ((a * 16 + b / 16) % 64) ((b * 4 + c / 64) % 64) (omega arith) (omega arith),
      )
      (omega arith)

third_byte : (b c : ℕ) → b < 256 → c < 256 → dec_b3 (enc_b3 b c) (enc_b4 c) ≡ c
third_byte b c hb hc =
    rw
      (
        enc_b3_lem b c hc,
        enc_b4_lem c,
        dec_b3-enc_at ((b * 4 + c / 64) % 64) (c % 64) (omega arith) (omega arith),
      )
      (omega arith)

pad_after_one : (a : ℕ) → dec_b2 (enc_b2 a 0) b'=' ≡ 0
pad_after_one a =
    rw (enc_b2_lem a 0 (omega arith), dec_b2-enc_at_pad ((a * 16 + 0 / 16) % 64) (omega arith))
      (omega arith)

pad_after_two : (b : ℕ) → dec_b3 (enc_b3 b 0) b'=' ≡ 0
pad_after_two b =
    rw (enc_b3_lem b 0 (omega arith), dec_b3-enc_at_pad ((b * 4 + 0 / 64) % 64) (omega arith))
      (omega arith)

-- How many `=` the encoder appends.
abbrev pub pad_len : Bytes → ℕ
pad_len (a ∷ b ∷ c ∷ rest) = pad_len rest
pad_len (a ∷ b ∷ []) = 1
pad_len (a ∷ []) = 2
pad_len [] = 0

pub decode_blocks-encode :
    (xs : Bytes) → IsBytes xs → decode_blocks (encode xs) ≡ xs ++ replicate (pad_len xs) 0
unfolding encode decode_blocks
decode_blocks-encode [] h = refl
decode_blocks-encode (a ∷ []) (ha, _) =
    rw (first_byte a 0 ha (omega arith), pad_after_one a, dec_b3_pad)
decode_blocks-encode (a ∷ b ∷ []) (ha, (hb, _)) =
    rw (first_byte a b ha hb, second_byte a b 0 ha hb (omega arith), pad_after_two b)
decode_blocks-encode (a ∷ b ∷ c ∷ rest) (ha, (hb, (hc, hr))) = rw (
  first_byte a b ha hb,
  second_byte a b c ha hb hc,
  third_byte b c hb hc,
  decode_blocks-encode rest hr,
)
