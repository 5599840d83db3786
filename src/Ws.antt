-- ===== src/Ws.antt =====
-- ws/websocket.cpp: frames of web sockets. A shift of the source that C++ leaves undefined is a fault.
pub mod Socket
pub mod Frames
pub mod Client
pub mod Pieces
pub mod Messages
mod Tests
use lambda.Base.{
  ℕ, zero, suc, ◌+◌, ◌-◌, ◌*◌, ◌/◌, ◌%◌, ◌^◌, bit_and, bit_or, bit_xor, Bool, true, false, not,
  List, [], ◌∷◌, ◌++◌, Option, none, some, Bytes, ◌==◌, ltb, leb, if◌then◌else◌, length, byte_at,
  slice, Result, ok, err, Error, ◌>>=◌,
}

pub data Opcode : Type 0 where
  continue text binary close ping pong : Opcode

pub data FrameBit : Type 0 where
  continue final : FrameBit

unfoldable pub opcode_byte : Opcode → ℕ
opcode_byte Opcode.continue = 0x00
opcode_byte Opcode.text = 0x01
opcode_byte Opcode.binary = 0x02
opcode_byte Opcode.close = 0x08
opcode_byte Opcode.ping = 0x09
opcode_byte Opcode.pong = 0x0A

unfoldable pub frame_byte : FrameBit → ℕ
frame_byte FrameBit.continue = 0x00
frame_byte FrameBit.final = 0x80

-- The cast to the enum with `is_valid_opcode`.
unfoldable pub opcode_of : ℕ → Option Opcode
opcode_of code =
    if code == 0x00
    then some Opcode.continue
    else if code == 0x02
    then some Opcode.binary
    else if code == 0x01
    then some Opcode.text
    else if code == 0x09
    then some Opcode.ping
    else if code == 0x0A
    then some Opcode.pong
    else if code == 0x08
    then some Opcode.close
    else none

-- The cast to the enum with `is_valid_frame_bit`.
unfoldable pub frame_of : ℕ → Option FrameBit
frame_of bits =
    if bits == 0x00
    then some FrameBit.continue
    else if bits == 0x80
    then some FrameBit.final
    else none

pub record Frame : Type 0 where
  pub frame : FrameBit
  pub code : Opcode
  pub payload : Bytes

pub record IncomingFrame : Type 0 where
  pub head : Frame
  pub next_seek : ℕ
  pub payload_len : ℕ
  pub mask : Option Bytes

-- The bytes of a length, the highest first, with `left` of them to go.
unfoldable pub length_bytes : ℕ → ℕ → Bytes
length_bytes zero n = []
length_bytes (suc left) n = bit_and (n / 2 ^ (left * 8)) 0xFF ∷ length_bytes left n

unfoldable pub pack_paylen : ℕ → Bytes
unfolding length_bytes
pack_paylen n =
    if ltb n 126
    then bit_and n 0x7F ∷ []
    else if ltb n 65535
    then 126 ∷ bit_and (n / 2 ^ 8) 255 ∷ bit_and n 255 ∷ []
    else 127 ∷ length_bytes 8 n

-- The length, and the index behind it. For a length of eight bytes the source shifts a byte, which
-- C++ promotes to an `int` of 32 bits, by 56.
unfoldable pub unpack_paylen : Bytes → ℕ → Result (Option (ℕ × ℕ))
unpack_paylen buff seek =
    let payload_len_bit = bit_and (byte_at buff (seek - 1)) 0x7F in
    if ltb (length buff) seek
    then ok none
    else if payload_len_bit == 126
    then (if ltb (length buff) (seek + 2)
        then ok none
        else ok (
            some
              (bit_or (bit_or 0 (byte_at buff seek * 2 ^ 8)) (byte_at buff (seek + 1)), seek + 2)))
    else if payload_len_bit == 127
    then (if ltb (length buff) (seek + 8) then ok none else err Error.fault)
    else ok (some (payload_len_bit, seek))

unfoldable pub unpack_mask : Bytes → ℕ → Option (Bytes × ℕ)
unpack_mask buff seek =
    if ltb (length buff) (seek + 4) then none else some (slice buff seek (seek + 4), seek + 4)

-- `parse_frame` behind the length.
unfoldable pub frame_mask : Bytes → FrameBit → Opcode → ℕ × ℕ → Option IncomingFrame
frame_mask buff frame code (payload_len, seek) =
    let head : Frame = record { frame = frame; code = code; payload = [] } in
    if bit_and (byte_at buff 1) 0x80 / 2 ^ 7 == 0
    then some (record { head = head; next_seek = seek; payload_len = payload_len; mask = none })
    else elim (unpack_mask buff seek) [
      | none ↦ none
      | some (mask, mask_end) ↦ some (record {
        head = head;
        next_seek = mask_end;
        payload_len = payload_len;
        mask = some mask;
      })
    ]

-- `parse_frame` behind the first byte.
unfoldable pub frame_length : Bytes → FrameBit → Opcode → Result (Option IncomingFrame)
unfolding frame_mask
frame_length buff frame code = unpack_paylen buff 2 >>= λ found.
    ok (elim found [ none ↦ none | some unpacked ↦ frame_mask buff frame code unpacked ])

unfoldable pub parse_frame : Bytes → Result (Option IncomingFrame)
parse_frame buff =
    if ltb (length buff) 2 then ok none else elim (frame_of (bit_and (byte_at buff 0) 0xF0)) [
      | none ↦ err Error.frame_bit_invalid
      | some frame ↦ elim (opcode_of (bit_and (byte_at buff 0) 0x0F)) [
        | none ↦ err Error.opcode_invalid
        | some code ↦ frame_length buff frame code
      ]
    ]

-- What `Websocket::write` sends for a frame.
unfoldable pub frame_bytes : Frame → Bytes
frame_bytes f =
    bit_or (frame_byte f.frame) (opcode_byte f.code) ∷ (pack_paylen (length f.payload) ++ f.payload)

-- The loop that unmasks a payload, from index i.
unfoldable pub unmask : Bytes → ℕ → Bytes → Bytes
unmask mask i [] = []
unmask mask i (x ∷ payload) = bit_xor x (byte_at mask (i % 4)) ∷ unmask mask (i + 1) payload
