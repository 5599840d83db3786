-- ===== src/Ws/Socket.antt =====
-- ws/websocket.cpp: the class `Websocket`, on the reader and the writer of the request that it came
-- from. The digest of its handshake is an argument, for hash/sha1.cpp.
use lambda.Base.{
  ℕ, ◌+◌, ◌-◌, ◌/◌, ◌^◌, bit_and, Bool, true, false, not, ◌||◌, [], ◌∷◌, ◌++◌, Option, none, some,
  Bytes, codes, equal, ltb, leb, if◌then◌else◌, length, is_empty, drop, slice, Result, ok, err,
  Error, ◌>>=◌,
}
use lambda.Base64.{encode}
use lambda.Http.Trim.{reset_case}
use lambda.Http.Values.{get}
use lambda.Http.Method.{Method}
use lambda.Server.Stream.{Io}
use lambda.Server.Status.{Status}
use lambda.Server.Body.{body_read}
use lambda.Server.Writer.{ResponseWriter, write_header, write_response}
use lambda.Server.Pipeline.{Request, with_header}
use lambda.Ws.{Opcode, FrameBit, Frame, IncomingFrame, parse_frame, frame_bytes, unmask}

pub record MultipartState : Type 0 where
  pub code : Opcode
  pub mask : Option Bytes

-- The writer holds the connection and the stream, which the reader refers to as well.
pub record Websocket : Type 0 where
  pub multipart : Option MultipartState
  pub read_buff : Bytes
  pub writer : ResponseWriter
  pub closed : Bool

abbrev is_get : Method → Bool
is_get Method.get = true
is_get _ = false

-- The constructor. What it writes before it throws is a response of its own.
unfoldable pub handshake : (Bytes → Bytes) → Bytes → Request → ResponseWriter → Result Websocket
handshake digest date req w =
    let upgrade = reset_case (get req.headers (codes "upgrade")) in
    let key = reset_case (get req.headers (codes "sec-websocket-key")) in
    let accept = encode (digest (codes "258EAFA5-E914-47DA-95CA-C5AB0DC85B11" ++ key)) in
    let upgrading =
      with_header (with_header w (codes "connection") (codes "upgrade")) (codes "upgrade")
        (codes "websocket") in
    if not (is_get req.method)
    then err Error.handshake_method
    else if not (equal upgrade (codes "websocket")) || is_empty key
    then err Error.handshake_headers
    else (write_header date (with_header upgrading (codes "Sec-WebSocket-Accept") accept)
          Status.switching_protocols
        >>= λ started.
            ok (record { multipart = none; read_buff = []; writer = started.1; closed = false }))

abbrev pub from_writer : Websocket → Result (ℕ × ResponseWriter) → Result (ℕ × Websocket)
from_writer ws (ok (n, w)) = ok (n, record ws { writer = w })
from_writer ws (err e) = err e

unfoldable pub write_frame : Bytes → Websocket → Frame → Result (ℕ × Websocket)
write_frame date ws f =
    if ws.closed
    then err Error.websocket_write_closed
    else from_writer ws (write_response date ws.writer (frame_bytes f))

unfoldable pub write_text : Bytes → Websocket → Bytes → Result (ℕ × Websocket)
write_text date ws message =
    write_frame date ws (record { frame = FrameBit.final; code = Opcode.text; payload = message })

unfoldable pub write_binary : Bytes → Websocket → Bytes → Result (ℕ × Websocket)
write_binary date ws message =
    write_frame date ws (record { frame = FrameBit.final; code = Opcode.binary; payload = message })

-- The reason is a code of the protocol.
unfoldable pub close_socket : Bytes → Websocket → ℕ → Result (ℕ × Websocket)
close_socket date ws reason =
    let payload = bit_and (reason / 2 ^ 8) 0xFF ∷ bit_and reason 0xFF ∷ [] in
    write_frame date ws (record { frame = FrameBit.final; code = Opcode.close; payload = payload })
    >>= λ written.
        ok (written.0, if ltb 0 written.0 then record written.1 { closed = true } else written.1)

-- `is_readable` of the reader, and `writable` of the writer: both ask the connection.
abbrev pub is_readable : Io → Bool
is_readable io = io.conn.is_open

abbrev pub writable : ResponseWriter → Bool
writable w = w.io.conn.is_open

-- `CloseReason::GoingAway`
abbrev pub going_away : ℕ
going_away = 1001

-- The destructor, which closes a socket that it can write to and catches what that throws. What is left
-- of the writer then is not told by the exception, so the state before is kept.
unfoldable pub destroy_socket : Bytes → Websocket → Websocket
destroy_socket date ws =
    if not (writable ws.writer)
    then ws
    else elim (close_socket date ws going_away) [ ok (n, after) ↦ after | err e ↦ ws ]

-- A read of the request's body, put back into the socket.
abbrev pub from_reader : Websocket → Result (Bytes × Io) → Result (Bytes × Websocket)
from_reader ws (ok (chunk, io)) = ok (chunk, record ws { writer = record ws.writer { io = io } })
from_reader ws (err e) = err e

abbrev pub read_chunk_size : ℕ
read_chunk_size = 32

abbrev pub max_header_size : ℕ
max_header_size = 16

-- The first part of `next`: a frame's head, from the buffer or from one more chunk.
unfoldable pub next_head : Websocket → Result (Option IncomingFrame × Websocket)
next_head ws = parse_frame ws.read_buff >>= λ found. elim found [
  | some frame ↦ ok (some frame, ws)
  | none ↦
      if ltb max_header_size (length ws.read_buff)
      then err Error.read_buffer_clogged
      else from_reader ws (body_read ws.writer.io read_chunk_size) >>= λ got.
          if is_empty got.0
          then ok (none, got.1)
          else let longer = ws.read_buff ++ got.0 in
            parse_frame longer >>= λ again. ok (again, record got.1 { read_buff = longer })
]

-- The second part: the payload, as it came, or nothing yet.
unfoldable pub next_payload : Websocket → IncomingFrame → Result (Option Bytes × Websocket)
next_payload ws f =
    let frame_end = f.next_seek + f.payload_len in
    let missing = f.payload_len - (length ws.read_buff - f.next_seek) in
    if leb frame_end (length ws.read_buff)
    then ok (
      some (slice ws.read_buff f.next_seek frame_end),
      record ws { read_buff = drop frame_end ws.read_buff },
    )
    else (from_reader ws (body_read ws.writer.io missing) >>= λ got.
        if ltb (length got.0) missing
        then ok (none, record got.1 { read_buff = ws.read_buff ++ got.0 })
        else ok (some (drop f.next_seek ws.read_buff ++ got.0), record got.1 { read_buff = [] }))

-- The mask that a frame is read with, and the state of a message in parts behind it.
unfoldable pub frame_part :
    Option MultipartState → IncomingFrame → Option Bytes × Option MultipartState
frame_part multipart f = elim f.head.frame [
  | FrameBit.final ↦ (f.mask, none)
  | FrameBit.continue ↦ elim multipart [
    | none ↦ (f.mask, some (record { code = f.head.code; mask = f.mask }))
    | some part ↦ (part.mask, some part)
  ]
]

abbrev pub unmasked : Option Bytes → Bytes → Bytes
unmasked none payload = payload
unmasked (some mask) payload = unmask mask 0 payload

unfoldable pub next : Websocket → Result (Option Frame × Websocket)
unfolding next_head next_payload frame_part
next ws =
    if ws.closed
    then err Error.websocket_read_closed
    else next_head ws >>= λ head. elim (head.0) [
      | none ↦ ok (none, head.1)
      | some f ↦ next_payload head.1 f >>= λ got. ok (elim (got.0) [
        | none ↦ (none, got.1)
        | some payload ↦
            let part = frame_part got.1.multipart f in
            (
              some (record f.head { payload = unmasked part.0 payload }),
              record got.1 { multipart = part.1 },
            )
      ])
    ]

unfoldable pub is_open : Websocket → Bool
is_open ws = is_readable ws.writer.io || writable ws.writer
