-- ===== src/Ws/Client.antt =====
-- The frames of a client, which RFC 6455 wants masked, and what `next` makes of them.
use lambda.Base.{
  ℕ, ◌+◌, ◌-◌, ◌/◌, ◌%◌, ◌<◌, ◌≤◌, bit_and, bit_or, bit_xor, bit_xor_twice, true, false, List, [],
  ◌∷◌, ◌++◌, append_assoc, none, some, ◌≡◌, ◌∙◌, refl, ap, arith, inl, inr, Bytes, ◌==◌, ltb, leb,
  if◌then◌else◌, length, length-append, byte_at, drop, all_below, all_below_sound, bit_and_mask,
  substr_at, drop_past, All, Bool-cases, ok,
}
use lambda.Ws.{
  Opcode, FrameBit, IncomingFrame, frame_byte, opcode_byte, unpack_paylen, unpack_mask, frame_mask,
  frame_length, parse_frame, unmask,
}
use lambda.Ws.Frames.{parse_frame_first, two_bytes}
use lambda.Ws.Socket.{Websocket, next_head, next_payload, frame_part, next}

-- The bytes of the masking key take turns.
abbrev pub masked : ℕ → ℕ → ℕ → ℕ → Bytes → Bytes
masked a b c d [] = []
masked a b c d (x ∷ xs) = bit_xor x a ∷ masked b c d a xs

-- A length with the bit of the mask.
abbrev pub client_length : ℕ → Bytes
client_length n = if ltb n 126 then (128 + n) ∷ [] else 254 ∷ n / 256 ∷ n % 256 ∷ []

-- A whole message: the key, one frame, the payload in clear.
pub record ClientMessage : Type 0 where
  pub key0 : ℕ
  pub key1 : ℕ
  pub key2 : ℕ
  pub key3 : ℕ
  pub code : Opcode
  pub payload : Bytes

abbrev pub client_bytes : ClientMessage → Bytes
client_bytes m =
    bit_or (frame_byte FrameBit.final) (opcode_byte m.code)
    ∷ (client_length (length m.payload)
        ++ (m.key0 ∷ m.key1 ∷ m.key2 ∷ m.key3 ∷ masked m.key0 m.key1 m.key2 m.key3 m.payload))

length-masked : (a b c d : ℕ) (xs : Bytes) → length (masked a b c d xs) ≡ length xs
length-masked a b c d [] = refl
length-masked a b c d (x ∷ xs) = omega (arith, length-masked b c d a xs)

unmask-masked :
    (key : Bytes) (i a b c d : ℕ) (xs : Bytes)
    → byte_at key (i % 4) ≡ a
    → byte_at key ((i + 1) % 4) ≡ b
    → byte_at key ((i + 2) % 4) ≡ c
    → byte_at key ((i + 3) % 4) ≡ d
    → unmask key i (masked a b c d xs) ≡ xs
unfolding unmask
unmask-masked key i a b c d [] ha hb hc hd = refl
unmask-masked key i a b c d (x ∷ xs) ha hb hc hd =
    let e : (i + 1 + 3) % 4 ≡ i % 4 = omega arith in
    let two : i + 1 + 1 ≡ i + 2 = omega arith in
    let three : i + 1 + 2 ≡ i + 3 = omega arith in
    rw (ha, bit_xor_twice x a)
      (ap (◌∷◌ x) (unmask-masked key (i + 1) b c d a xs hb (rw two hc) (rw three hd) (rw e ha)))

flag_table : all_below 128 (λ n. bit_and (128 + n) 0x80 == 128) ≡ true
unfolding all_below
flag_table = refl

flag_set : (n : ℕ) → n < 128 → bit_and (128 + n) 0x80 ≡ 128
flag_set n lt =
    ground (arith, all_below_sound 128 (λ n. bit_and (128 + n) 0x80 == 128) n flag_table lt)

-- The head of such a frame, with the index of the payload.
abbrev client_head : ClientMessage → ℕ → IncomingFrame
client_head m seek = record {
  head = record { frame = FrameBit.final; code = m.code; payload = [] };
  next_seek = seek;
  payload_len = length m.payload;
  mask = some (m.key0 ∷ m.key1 ∷ m.key2 ∷ m.key3 ∷ []);
}

module _ (m : ClientMessage) (first : ℕ) (text : Bytes) where
  abbrev keyed : Bytes
  keyed = m.key0 ∷ m.key1 ∷ m.key2 ∷ m.key3 ∷ text

  short_frame :
      length m.payload < 126
      → frame_length (first ∷ (128 + length m.payload) ∷ keyed) FrameBit.final m.code
        ≡ ok (some (client_head m 6))
  unfolding frame_length unpack_paylen frame_mask unpack_mask
  short_frame lt =
      let n = length m.payload in
      let low : bit_and (128 + n) 0x7F ≡ n = bit_and_mask 7 (128 + n) ∙ omega arith in
      ground (arith, low, flag_set n (omega arith))

  long_frame :
      126 ≤ length m.payload
      → length m.payload < 65536
      → frame_length
          (first ∷ 254 ∷ length m.payload / 256 ∷ length m.payload % 256 ∷ keyed)
          FrameBit.final
          m.code
        ≡ ok (some (client_head m 8))
  unfolding frame_length unpack_paylen frame_mask unpack_mask
  long_frame ge lt = ground (arith, two_bytes (length m.payload) lt)

module _ (m : ClientMessage) (rest : Bytes) (lt : length m.payload < 65536) where
  -- Where the payload begins.
  abbrev seek : ℕ
  seek = if ltb (length m.payload) 126 then 6 else 8

  abbrev covered : Bytes
  covered = masked m.key0 m.key1 m.key2 m.key3 m.payload

  abbrev buff : Bytes
  buff = client_bytes m ++ rest

  parse_frame_client : parse_frame buff ≡ ok (some (client_head m seek))
  parse_frame_client =
      let n = length m.payload in
      let first = bit_or (frame_byte FrameBit.final) (opcode_byte m.code) in
      let first_lem = parse_frame_first FrameBit.final m.code in
      elim (Bool-cases (ltb n 126)) [
        | inl short ↦ rw short (
            first_lem _ (omega arith)
            ∙ short_frame m first (covered ++ rest) (ground (arith, short)))
        | inr long ↦ rw long (
            first_lem _ (omega arith)
            ∙ long_frame m first (covered ++ rest) (ground (arith, long)) lt)
      ]

  payload_at : drop seek buff ≡ covered ++ rest
  payload_at = elim (Bool-cases (ltb (length m.payload) 126)) [
    | inl short ↦ rw short refl
    | inr long ↦ rw long refl
  ]

  length-covered : length covered ≡ length m.payload
  length-covered = length-masked m.key0 m.key1 m.key2 m.key3 m.payload

  length-buff : length buff ≡ seek + length m.payload + length rest
  length-buff = elim (Bool-cases (ltb (length m.payload) 126)) [
    | inl short ↦ rw short (omega (arith, length-append covered rest, length-covered))
    | inr long ↦ rw long (omega (arith, length-append covered rest, length-covered))
  ]

  module _ (ws : Websocket) where
    abbrev before : Websocket
    before = record ws { read_buff = buff; closed = false }

    next_payload_client :
        next_payload before (client_head m seek)
        ≡ ok (some covered, record ws { read_buff = rest; closed = false })
    unfolding next_payload
    next_payload_client =
        let end = seek + length m.payload in
        let text =
          substr_at buff seek (end - seek) covered rest payload_at
            (omega (arith, length-covered)) in
        let behind =
          drop_past buff seek end covered rest payload_at (omega (arith, length-covered)) in
        let fits : leb end (length buff) ≡ true = ground (arith, length-buff) in
        rw (fits, text, behind) refl

    -- The frame is taken off the buffer, and its payload is what the client meant.
    pub next-client_bytes :
        next before
        ≡ ok (
          some (record { frame = FrameBit.final; code = m.code; payload = m.payload }),
          record ws { read_buff = rest; closed = false; multipart = none },
        )
    unfolding next next_head frame_part
    next-client_bytes =
        let key = m.key0 ∷ m.key1 ∷ m.key2 ∷ m.key3 ∷ [] in
        let clear = unmask-masked key 0 m.key0 m.key1 m.key2 m.key3 m.payload refl refl refl refl in
        rw (parse_frame_client, next_payload_client, clear) refl

abbrev pub IsShort : ClientMessage → Type 0
IsShort m = length m.payload < 65536

abbrev pub stream_of : List ClientMessage → Bytes
stream_of [] = []
stream_of (m ∷ ms) = client_bytes m ++ stream_of ms

-- Successive calls of `next` give the messages, in this order.
abbrev pub Reads : Websocket → List ClientMessage → Websocket → Type 0
Reads ws [] after = ws ≡ after
Reads ws (m ∷ ms) after =
    (mid : Websocket) × (next ws
      ≡ ok (some (record { frame = FrameBit.final; code = m.code; payload = m.payload }), mid))
    × Reads mid ms after

-- The messages that a client has sent one after another, each masked with a key of its own as RFC 6455
-- wants it, are read one by one, in order and as the client meant them, and what was received behind
-- them stays in the buffer. Each is one frame with a payload of fewer than 65536 bytes.
pub Reads-stream_of :
    (ms : List ClientMessage) (rest : Bytes) (ws : Websocket)
    → All IsShort ms
    → Reads
        (record ws { read_buff = stream_of ms ++ rest; closed = false; multipart = none })
        ms
        (record ws { read_buff = rest; closed = false; multipart = none })
Reads-stream_of [] rest ws h = refl
Reads-stream_of (m ∷ ms) rest ws h =
    let mid = record ws { read_buff = stream_of ms ++ rest; closed = false; multipart = none } in
    (
      mid,
      rw (append_assoc (client_bytes m) (stream_of ms) rest)
          (next-client_bytes m (stream_of ms ++ rest) h.0 (record ws { multipart = none })),
      Reads-stream_of ms rest ws h.1,
    )
