-- ===== src/Ws/Messages.antt =====
-- Whole messages: what one side writes, the other reads.
use lambda.Base.{
  ℕ, ◌+◌, ◌-◌, ◌<◌, true, false, ◌∷◌, ◌++◌, append_assoc, none, some, ◌≡◌, refl, ap, arith, Bytes,
  leb, length, length-append, drop, substr_at, drop_past, bit_or, ok,
}
use lambda.Ws.{Opcode, FrameBit, Frame, frame_byte, opcode_byte, pack_paylen, frame_bytes}
use lambda.Ws.Frames.{written_head, parse_frame-frame_bytes}
use lambda.Ws.Socket.{Websocket, next_head, next_payload, frame_part, next}

module _ (ws : Websocket) (code : Opcode) (payload rest : Bytes) (lt : length payload < 65535) where
  abbrev message : Frame
  message = record { frame = FrameBit.final; code = code; payload = payload }

  abbrev buff : Bytes
  buff = frame_bytes message ++ rest

  -- An open socket that has the frame, and what stands behind it, in its buffer.
  abbrev before : Websocket
  before = record ws { read_buff = buff; closed = false }

  abbrev payload_begin : ℕ
  payload_begin = 1 + length (pack_paylen (length payload))

  next_head_written : next_head before ≡ ok (some (written_head message), before)
  unfolding next_head
  next_head_written = rw (parse_frame-frame_bytes message rest lt) refl

  payload_at : drop payload_begin buff ≡ payload ++ rest
  unfolding frame_bytes
  payload_at =
      let first = bit_or 0x80 (opcode_byte code) in
      let pack = pack_paylen (length payload) in
      drop_past buff 0 payload_begin (bit_or (frame_byte FrameBit.final) (opcode_byte code) ∷ pack)
        (payload ++ rest)
        (ap (◌∷◌ (bit_or (frame_byte FrameBit.final) (opcode_byte code)))
          (append_assoc pack payload rest))
        (omega arith)

  size_lem : length buff ≡ payload_begin + length payload + length rest
  unfolding frame_bytes
  size_lem =
      let pack = pack_paylen (length payload) in
      omega (arith, length-append (pack ++ payload) rest, length-append pack payload)

  next_payload_written :
      next_payload before (written_head message)
      ≡ ok (some payload, record ws { read_buff = rest; closed = false })
  unfolding next_payload
  next_payload_written =
      let end = payload_begin + length payload in
      let text =
        substr_at buff payload_begin (end - payload_begin) payload rest payload_at (omega arith) in
      let behind = drop_past buff payload_begin end payload rest payload_at refl in
      let fits : leb end (length buff) ≡ true = ground (arith, size_lem) in
      rw (fits, text, behind) refl

  -- A final frame that stands in front of the buffer, as `write` sends it, is the next message, and
  -- the bytes behind it stay: frames that were written one after the other are read one by one. This
  -- holds for payloads of fewer than 65535 bytes, without a mask.
  pub next-frame_bytes :
      next before
      ≡ ok (some message, record ws { read_buff = rest; closed = false; multipart = none })
  unfolding next frame_part
  next-frame_bytes = rw (next_head_written, next_payload_written) refl
