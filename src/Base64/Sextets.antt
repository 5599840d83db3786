-- ===== src/Base64/Sextets.antt =====
-- The tables are inverse on the 64 values of six bits, and the macros as arithmetic.
use lambda.Base.{
  ℕ, ◌+◌, ◌*◌, ◌/◌, ◌%◌, ◌^◌, ◌<◌, true, not, ◌&&◌, ◌≡◌, refl, arith, ◌==◌, ==_iff, all_below,
  all_below_sound, bit_xor_fields, bit_and_mask,
}
use lambda.Base64.{
  dec_at, enc_at, dec_b1, dec_b2, dec_b3, enc_b1, enc_b2, enc_b3, enc_b4, valid_rune,
}

sextet_table : all_below 64 (λ s. dec_at (enc_at s) == s * 4) ≡ true
unfolding all_below dec_at enc_at
sextet_table = refl

pub dec_at-enc_at : (s : ℕ) → s < 64 → dec_at (enc_at s) ≡ s * 4
dec_at-enc_at s h = (==_iff _ _).0 (all_below_sound 64 _ s sextet_table h)

rune_table : all_below 64 (λ s. valid_rune (enc_at s) && not (enc_at s == b'=')) ≡ true
unfolding all_below enc_at valid_rune
rune_table = refl

pub enc_at-valid : (s : ℕ) → s < 64 → (valid_rune (enc_at s) && not (enc_at s == b'=')) ≡ true
enc_at-valid s h = all_below_sound 64 _ s rune_table h

pub dec_at_pad : dec_at b'=' ≡ 0
unfolding dec_at
dec_at_pad = refl

-- Each macro of `encode` looks up six bits.
pub enc_b1_lem : (a : ℕ) → enc_b1 a ≡ enc_at (a / 4 % 64)
unfolding enc_b1
enc_b1_lem a = rw (bit_and_mask 6 (a / 2 ^ 2))

pub enc_b2_lem : (a b : ℕ) → b < 256 → enc_b2 a b ≡ enc_at ((a * 16 + b / 16) % 64)
unfolding enc_b2
enc_b2_lem a b h =
    rw (bit_xor_fields 4 a (b / 2 ^ 4) (omega arith), bit_and_mask 6 (a * 2 ^ 4 + b / 2 ^ 4))

pub enc_b3_lem : (b c : ℕ) → c < 256 → enc_b3 b c ≡ enc_at ((b * 4 + c / 64) % 64)
unfolding enc_b3
enc_b3_lem b c h =
    rw (bit_xor_fields 2 b (c / 2 ^ 6) (omega arith), bit_and_mask 6 (b * 2 ^ 2 + c / 2 ^ 6))

pub enc_b4_lem : (c : ℕ) → enc_b4 c ≡ enc_at (c % 64)
unfolding enc_b4
enc_b4_lem c = rw (bit_and_mask 6 c)

-- Each macro of `decode` joins parts of two six-bit values; `=` counts as zero.
module _ (s t : ℕ) (hs : s < 64) (ht : t < 64) where
  pub dec_b1-enc_at : dec_b1 (enc_at s) (enc_at t) ≡ s * 4 + t / 16
  unfolding dec_b1
  dec_b1-enc_at =
      rw (dec_at-enc_at s hs, dec_at-enc_at t ht, bit_xor_fields 2 s (t * 4 / 2 ^ 6) (omega arith))
        (omega arith)

  pub dec_b2-enc_at : dec_b2 (enc_at s) (enc_at t) ≡ (s * 16 + t / 4) % 256
  unfolding dec_b2
  dec_b2-enc_at =
      rw (dec_at-enc_at s hs, dec_at-enc_at t ht)
        (ground (arith, bit_xor_fields 4 s (t * 4 / 2 ^ 4) (omega arith)))

  pub dec_b3-enc_at : dec_b3 (enc_at s) (enc_at t) ≡ (s * 64 + t) % 256
  unfolding dec_b3
  dec_b3-enc_at =
      rw (dec_at-enc_at s hs, dec_at-enc_at t ht)
        (ground (arith, bit_xor_fields 6 s (t * 4 / 2 ^ 2) (omega arith)))

pub dec_b2-enc_at_pad : (s : ℕ) → s < 64 → dec_b2 (enc_at s) b'=' ≡ s * 16 % 256
unfolding dec_b2
dec_b2-enc_at_pad s h =
    rw (dec_at-enc_at s h, dec_at_pad) (ground (arith, bit_xor_fields 4 s 0 (omega arith)))

pub dec_b3-enc_at_pad : (s : ℕ) → s < 64 → dec_b3 (enc_at s) b'=' ≡ s * 64 % 256
unfolding dec_b3
dec_b3-enc_at_pad s h =
    rw (dec_at-enc_at s h, dec_at_pad) (ground (arith, bit_xor_fields 6 s 0 (omega arith)))

pub dec_b3_pad : dec_b3 b'=' b'=' ≡ 0
unfolding dec_b3 dec_at
dec_b3_pad = refl
