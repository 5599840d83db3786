-- ===== src/Ws/Frames.antt =====
-- Frames are read as they were written.
use lambda.Base.{
  ℕ, ◌+◌, ◌*◌, ◌/◌, ◌%◌, ◌^◌, ◌<◌, ◌≤◌, bit_and, bit_or, Bool, ◌&&◌, [], ◌∷◌, ◌++◌, append_assoc,
  none, some, ◌≡◌, ◌∙◌, refl, ap, arith, inl, inr, Bytes, ◌==◌, ltb, length, all_below,
  all_below_sound, bit_and_mask, bit_or_fields, Bool-cases, ok,
}
use lambda.Ws.{
  Opcode, FrameBit, Frame, IncomingFrame, opcode_byte, frame_byte, opcode_of, frame_of, pack_paylen,
  unpack_paylen, frame_mask, frame_length, parse_frame, frame_bytes,
}

-- Below 128 the highest bit of a byte is clear, and the others are the number.
abbrev seven_bits : ℕ → Bool
seven_bits n = (bit_and n 0x7F == n) && (bit_and n 0x80 == 0)

seven_bits_clear : (n : ℕ) → n < 128 → (bit_and n 0x7F ≡ n) × (bit_and n 0x80 ≡ 0)
unfolding all_below
seven_bits_clear n lt = ground (arith, all_below_sound 128 seven_bits n refl lt)

first_byte :
    (f : FrameBit) (c : Opcode)
    → (frame_of (bit_and (bit_or (frame_byte f) (opcode_byte c)) 0xF0) ≡ some f)
      × (opcode_of (bit_and (bit_or (frame_byte f) (opcode_byte c)) 0x0F) ≡ some c)
unfolding frame_byte opcode_byte frame_of opcode_of
first_byte FrameBit.continue Opcode.continue = (refl, refl)
first_byte FrameBit.continue Opcode.text = (refl, refl)
first_byte FrameBit.continue Opcode.binary = (refl, refl)
first_byte FrameBit.continue Opcode.close = (refl, refl)
first_byte FrameBit.continue Opcode.ping = (refl, refl)
first_byte FrameBit.continue Opcode.pong = (refl, refl)
first_byte FrameBit.final Opcode.continue = (refl, refl)
first_byte FrameBit.final Opcode.text = (refl, refl)
first_byte FrameBit.final Opcode.binary = (refl, refl)
first_byte FrameBit.final Opcode.close = (refl, refl)
first_byte FrameBit.final Opcode.ping = (refl, refl)
first_byte FrameBit.final Opcode.pong = (refl, refl)

-- A length of two bytes is put together again.
pub two_bytes : (n : ℕ) → n < 65536 → bit_or (bit_or 0 (n / 2 ^ 8 * 2 ^ 8)) (n % 2 ^ 8) ≡ n
two_bytes n lt =
    let high : bit_or 0 (n / 2 ^ 8 * 2 ^ 8) ≡ n / 2 ^ 8 * 2 ^ 8 =
      bit_or_fields 16 0 (n / 2 ^ 8 * 2 ^ 8) (omega arith) ∙ omega arith in
    rw high (bit_or_fields 8 (n / 2 ^ 8) (n % 2 ^ 8) (omega arith) ∙ omega arith)

pack_paylen-short : (n : ℕ) → n < 126 → pack_paylen n ≡ n ∷ []
unfolding pack_paylen
pack_paylen-short n lt = ground (arith, seven_bits_clear n (omega arith))

pack_paylen-long : (n : ℕ) → 126 ≤ n → n < 65535 → pack_paylen n ≡ 126 ∷ n / 2 ^ 8 ∷ n % 2 ^ 8 ∷ []
unfolding pack_paylen
pack_paylen-long n ge lt =
    let high : bit_and (n / 2 ^ 8) 255 ≡ n / 2 ^ 8 = bit_and_mask 8 (n / 2 ^ 8) ∙ omega arith in
    let low : bit_and n 255 ≡ n % 2 ^ 8 = bit_and_mask 8 n in ground (arith, high, low)

unpack_short :
    (first n : ℕ) (rest : Bytes) → n < 126 → unpack_paylen (first ∷ n ∷ rest) 2 ≡ ok (some (n, 2))
unfolding unpack_paylen
unpack_short first n rest lt = rw (seven_bits_clear n (omega arith)).0 (ground arith)

unpack_long :
    (first high low : ℕ) (rest : Bytes)
    → unpack_paylen (first ∷ 126 ∷ high ∷ low ∷ rest) 2
      ≡ ok (some (bit_or (bit_or 0 (high * 2 ^ 8)) low, 4))
unfolding unpack_paylen
unpack_long first high low rest = ground arith

-- The length behind the first byte.
unpack_paylen-pack_paylen :
    (first n : ℕ) (rest : Bytes)
    → n < 65535
    → unpack_paylen (first ∷ (pack_paylen n ++ rest)) 2 ≡ ok (some (n, 1 + length (pack_paylen n)))
unpack_paylen-pack_paylen first n rest lt = elim (Bool-cases (ltb n 126)) [
  | inl short ↦
      rw (pack_paylen-short n (ground (arith, short)))
        (unpack_short first n rest (ground (arith, short)))
  | inr long ↦
      rw (pack_paylen-long n (ground (arith, long)) lt)
        (unpack_long first (n / 2 ^ 8) (n % 2 ^ 8) rest ∙ rw (two_bytes n (omega arith)) refl)
]

-- The head of a frame that was written without a mask.
abbrev pub written_head : Frame → IncomingFrame
written_head f = record {
  head = record f { payload = [] };
  next_seek = 1 + length (pack_paylen (length f.payload));
  payload_len = length f.payload;
  mask = none;
}

length_byte :
    (n : ℕ) → n < 65535 → (b : ℕ) × (bs : Bytes) × (pack_paylen n ≡ b ∷ bs) × (bit_and b 0x80 ≡ 0)
length_byte n lt = elim (Bool-cases (ltb n 126)) [
  | inl short ↦ (
    n,
    [],
    pack_paylen-short n (ground (arith, short)),
    (seven_bits_clear n (ground (arith, short))).1,
  )
  | inr long ↦ (126, n / 2 ^ 8 ∷ n % 2 ^ 8 ∷ [], pack_paylen-long n (ground (arith, long)) lt, refl)
]

unmasked_frame :
    (first b : ℕ) (bs : Bytes) (frame : FrameBit) (code : Opcode) (n seek : ℕ)
    → bit_and b 0x80 ≡ 0
    → frame_mask (first ∷ b ∷ bs) frame code (n, seek)
      ≡ some (record {
        head = record { frame = frame; code = code; payload = [] };
        next_seek = seek;
        payload_len = n;
        mask = none;
      })
unfolding frame_mask
unmasked_frame first b bs frame code n seek h = rw h refl

frame_length_written :
    (f : Frame) (first : ℕ) (tail : Bytes)
    → length f.payload < 65535
    → frame_length (first ∷ (pack_paylen (length f.payload) ++ tail)) f.frame f.code
      ≡ ok (some (written_head f))
unfolding frame_length
frame_length_written f first tail lt =
    let n = length f.payload in
    let (b, bs, e, clear) = length_byte n lt in
    let seek = 1 + length (pack_paylen n) in
    rw (unpack_paylen-pack_paylen first n tail lt) (
      ap ok (
        ap (λ t. frame_mask (first ∷ (t ++ tail)) f.frame f.code (n, seek)) e
        ∙ unmasked_frame first b (bs ++ tail) f.frame f.code n seek clear))

pub parse_frame_first :
    (f : FrameBit) (c : Opcode) (more : Bytes)
    → 0 < length more
    → (let buff = bit_or (frame_byte f) (opcode_byte c) ∷ more in
        parse_frame buff ≡ frame_length buff f c)
unfolding parse_frame
parse_frame_first f c more lt =
    let (frame, code) = first_byte f c in rw (frame, code) (ground arith)

-- The head of a written frame is read back from the front of the buffer.
pub parse_frame-frame_bytes :
    (f : Frame) (rest : Bytes)
    → length f.payload < 65535
    → parse_frame (frame_bytes f ++ rest) ≡ ok (some (written_head f))
unfolding frame_bytes
parse_frame-frame_bytes f rest lt =
    let n = length f.payload in
    let (b, bs, e, clear) = length_byte n lt in
    let assoc = append_assoc (pack_paylen n) f.payload rest in
    let some_length : 0 < length (pack_paylen n ++ (f.payload ++ rest)) = rw e (omega arith) in
    rw assoc (
      parse_frame_first f.frame f.code (pack_paylen n ++ (f.payload ++ rest)) some_length
      ∙ frame_length_written f (bit_or (frame_byte f.frame) (opcode_byte f.code))
          (f.payload ++ rest) lt)
