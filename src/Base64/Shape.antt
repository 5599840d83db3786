-- ===== src/Base64/Shape.antt =====
-- The shape of the encoder's output, what the decoder accepts, and the whole round trip.
use lambda.Base.{
  ℕ, zero, suc, ◌+◌, ◌-◌, ◌/◌, ◌%◌, ◌*◌, ◌<◌, ◌≤◌, ◌≡◌, ◌≢◌, ◌∙◌, ◌⊎◌, ◌↔◌, refl, ap, arith, true,
  not, ◌&&◌, [], ◌∷◌, ◌++◌, Bytes, IsBytes, length, take, drop, take_all, drop_all, take-append,
  length-append, length-drop, replicate, ok, err, Error, ◌==◌,
}
use lambda.Base64.{
  enc_b1, enc_b2, enc_b3, enc_b4, encode, decode_blocks, decode_rest, decode, padding_length, valid,
  valid_rune,
}
use lambda.Base64.Sextets.{enc_b1_lem, enc_b2_lem, enc_b3_lem, enc_b4_lem, enc_at-valid}
use lambda.Base64.RoundTrip.{pad_len, decode_blocks-encode}

abbrev IsRune : ℕ → Type 0
IsRune c = (valid_rune c && not (c == b'=')) ≡ true

enc_b1-IsRune : (a : ℕ) → IsRune (enc_b1 a)
enc_b1-IsRune a = rw (enc_b1_lem a) (enc_at-valid _ (omega arith))

enc_b2-IsRune : (a b : ℕ) → b < 256 → IsRune (enc_b2 a b)
enc_b2-IsRune a b h = rw (enc_b2_lem a b h) (enc_at-valid _ (omega arith))

enc_b3-IsRune : (b c : ℕ) → c < 256 → IsRune (enc_b3 b c)
enc_b3-IsRune b c h = rw (enc_b3_lem b c h) (enc_at-valid _ (omega arith))

enc_b4-IsRune : (c : ℕ) → IsRune (enc_b4 c)
enc_b4-IsRune c = rw (enc_b4_lem c) (enc_at-valid _ (omega arith))

length-encode : (xs : Bytes) → length (encode xs) ≡ (length xs + 2) / 3 * 4
unfolding encode
length-encode [] = refl
length-encode (a ∷ []) = refl
length-encode (a ∷ b ∷ []) = refl
length-encode (a ∷ b ∷ c ∷ rest) = omega (arith, length-encode rest)

encode-valid : (xs : Bytes) → IsBytes xs → valid (encode xs) ≡ true
unfolding encode valid
encode-valid [] h = refl
encode-valid (a ∷ []) h = ground (arith, enc_b1-IsRune a, enc_b2-IsRune a 0)
encode-valid (a ∷ b ∷ []) h = ground (arith, enc_b1-IsRune a, enc_b2-IsRune a b, enc_b3-IsRune b 0)
encode-valid (a ∷ b ∷ c ∷ rest) (ha, (hb, (hc, hr))) = ground (
  arith,
  enc_b1-IsRune a,
  enc_b2-IsRune a b,
  enc_b3-IsRune b c,
  enc_b4-IsRune c,
  encode-valid rest hr,
)

-- The encoder pads its output to whole blocks of four valid characters.
pub encode_shape :
    (xs : Bytes)
    → IsBytes xs
    → (length (encode xs) ≡ (length xs + 2) / 3 * 4) × (valid (encode xs) ≡ true)
encode_shape xs h = (length-encode xs, encode-valid xs h)

suc-sub_one : (n : ℕ) → suc n - 1 ≡ n
suc-sub_one n = omega arith

suc-suc-sub_two : (n : ℕ) → suc (suc n) - 2 ≡ n
suc-suc-sub_two n = omega arith

padding_length-skip :
    (p q r s : ℕ) (xs : Bytes)
    → 2 ≤ length xs
    → padding_length (p ∷ q ∷ r ∷ s ∷ xs) ≡ padding_length xs
unfolding padding_length
padding_length-skip p q r s (x ∷ y ∷ xs) h = simp (suc-sub_one, suc-suc-sub_two)
padding_length-skip p q r s [] h = absurd (omega arith)
padding_length-skip p q r s (x ∷ []) h = absurd (omega arith)

encode_long : (x : ℕ) (xs : Bytes) → 4 ≤ length (encode (x ∷ xs))
encode_long x xs = omega (arith, length-encode (x ∷ xs))

padding_length-encode : (xs : Bytes) → IsBytes xs → padding_length (encode xs) ≡ pad_len xs
unfolding encode
padding_length-encode [] h = unfold padding_length in refl
padding_length-encode (a ∷ []) h = unfold padding_length in refl
padding_length-encode (a ∷ b ∷ []) h =
    unfold padding_length in ground (arith, enc_b3-IsRune b 0 (omega arith))
padding_length-encode (a ∷ b ∷ c ∷ []) (_, (_, (hc, _))) =
    unfold padding_length in ground (arith, enc_b3-IsRune b c hc, enc_b4-IsRune c)
padding_length-encode (a ∷ b ∷ c ∷ x ∷ xs) (_, (_, (_, h))) =
    padding_length-skip _ _ _ _ (encode (x ∷ xs)) (omega (arith, encode_long x xs))
    ∙ padding_length-encode (x ∷ xs) h

decode_whole :
    (buf : Bytes)
    → length buf % 4 ≡ 0
    → buf ≢ []
    → decode buf ≡ ok (take (length (decode_blocks buf) - padding_length buf) (decode_blocks buf))
unfolding decode
decode_whole [] h ne = absurd (ne refl)
decode_whole (x ∷ xs) h ne =
    rw
      (
        take_all (length (x ∷ xs) / 4 * 4) (x ∷ xs) (omega arith),
        drop_all (length (x ∷ xs) / 4 * 4) (x ∷ xs) (omega arith),
      )
      (ground arith)

length-pad : (xs : Bytes) → length (xs ++ replicate (pad_len xs) 0) - pad_len xs ≡ length xs
length-pad xs =
    omega (arith, length-append xs (replicate (pad_len xs) 0), length_replicate (pad_len xs))
  where
    length_replicate : (n : ℕ) → length (replicate {A = ℕ} n 0) ≡ n
    length_replicate zero = refl
    length_replicate (suc n) = ap suc (length_replicate n)

-- Decoding what was encoded gives every non-empty byte string back.
pub decode-encode : (xs : Bytes) → IsBytes xs → xs ≢ [] → decode (encode xs) ≡ ok xs
decode-encode [] h ne = absurd (ne refl)
decode-encode (x ∷ xs) h ne =
    decode_whole (encode (x ∷ xs)) (omega (arith, length-encode (x ∷ xs)))
      (λ e. omega (arith, encode_long x xs, ap length e))
    ∙ rw (padding_length-encode (x ∷ xs) h, decode_blocks-encode (x ∷ xs) h, length-pad (x ∷ xs))
        (ap ok (take-append (x ∷ xs) (replicate (pad_len (x ∷ xs)) 0)))

decode_rest-fault :
    (buf result rest : Bytes)
    → (decode_rest buf result rest ≡ err Error.fault)
      ↔ (((length rest ≡ 0) × (length buf ≡ 0)) ⊎ (2 ≤ length rest))
unfolding decode_rest
decode_rest-fault buf result [] = ground arith
decode_rest-fault buf result (a ∷ []) = ground arith
decode_rest-fault buf result (a ∷ b ∷ []) = ground arith
decode_rest-fault buf result (a ∷ b ∷ c ∷ rest) = ground arith

-- Decoding leaves the bounds of its buffers exactly on the
-- empty string and on a string with two or three characters behind its last whole block of four.
pub decode-fault_iff :
    (buf : Bytes) → (decode buf ≡ err Error.fault) ↔ ((length buf ≡ 0) ⊎ (2 ≤ length buf % 4))
unfolding decode
decode-fault_iff buf =
    let n = length buf / 4 * 4 in
    let rest = decode_rest-fault buf (decode_blocks (take n buf)) (drop n buf) in
    (
      λ e. ground (arith, rest.0 e, length-drop n buf),
      λ h. rest.1 (ground (arith, h, length-drop n buf)),
    )

pub encode-ne-nil : (xs : Bytes) → xs ≢ [] → encode xs ≢ []
encode-ne-nil [] ne e = ne refl
encode-ne-nil (x ∷ xs) ne e = absurd (omega (arith, encode_long x xs, ap length e))
