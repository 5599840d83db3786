-- ===== src/Server/Body.antt =====
-- server/pipeline_h1_rx.cpp: the readers of a request's body, and what discards an unread body.
pub mod Laws
pub mod Discard
use lambda.Base.{
  ℕ, ◌-◌, ◌*◌, Bool, true, false, not, ◌||◌, [], Bytes, ◌==◌, ltb, leb, if◌then◌else◌, length,
  is_empty, take, drop, Result, ok, err, ◌>>=◌, ◌^◌, ◌+◌,
}
use lambda.Net.Conn.{Conn, read}
use lambda.Server.Stream.{StreamState, Io}

abbrev pub body_chunk_size : ℕ
body_chunk_size = 128 * 1024

-- `HTTP::LengthUnknown`, the largest `size_t`.
abbrev pub length_unknown : ℕ
length_unknown = 2 ^ 64 - 1

abbrev pub with_buff : Io → Bytes → Io
with_buff io buff = record io { stream = record io.stream { read_buff = buff } }

-- A read from the connection, put back into the state.
abbrev pub from_conn : Io → Result (Bytes × Conn) → Result (Bytes × Io)
from_conn io (ok (chunk, c)) = ok (chunk, record io { conn = c })
from_conn io (err e) = err e

unfoldable pub read_request_body : Io → ℕ → ℕ → Result (Bytes × Io)
read_request_body io chunk_size bytes_remain =
    let can_read = if ltb chunk_size bytes_remain then chunk_size else bytes_remain in
    let buff = io.stream.read_buff in
    if leb can_read 0
    then ok ([], io)
    else if not (is_empty buff)
    then (if leb (length buff) can_read
        then ok (buff, with_buff io [])
        else ok (take can_read buff, with_buff io (drop can_read buff)))
    else from_conn io (read io.conn can_read)

unfoldable pub read_raw_body : Io → ℕ → Result (Bytes × Io)
read_raw_body io chunk_size =
    let buff = io.stream.read_buff in
    if not (is_empty buff)
    then ok (buff, with_buff io [])
    else from_conn io (read io.conn chunk_size)

abbrev pub spend_pending : Result (Bytes × Io) → Result (Bytes × Io)
spend_pending (ok (chunk, io)) = ok (
  chunk,
  record io {
    stream = record io.stream { http_body_pending = io.stream.http_body_pending - length chunk };
  },
)
spend_pending (err e) = err e

-- `RequestBodyReader::read`. `read_all` and `text` are reads of `length_unknown` bytes.
unfoldable pub body_read : Io → ℕ → Result (Bytes × Io)
body_read io requested =
    let chunk_size =
      if requested == length_unknown || leb requested 0 then body_chunk_size else requested in
    if not io.conn.is_open
    then ok ([], io)
    else if io.stream.raw_io
    then read_raw_body io chunk_size
    else if leb io.stream.http_body_pending 0
    then ok ([], io)
    else spend_pending (read_request_body io chunk_size io.stream.http_body_pending)

unfoldable pub read_all : Io → Result (Bytes × Io)
unfolding body_read
read_all io = body_read io length_unknown

-- The first half of `discard_unread_body`: what the buffer holds of the body.
unfoldable pub discard_buffered : Io → Io
discard_buffered io =
    let buff = io.stream.read_buff in
    let pending = io.stream.http_body_pending in
    let size = if leb pending (length buff) then pending else length buff in
    if is_empty buff then io else record io {
      stream = record io.stream { read_buff = drop size buff; http_body_pending = pending - size };
    }

abbrev pub drop_chunk : Result (Bytes × Io) → Result Io
drop_chunk (ok (chunk, io)) = ok io
drop_chunk (err e) = err e

-- The second half: one read from the connection, if that was not all.
unfoldable pub discard_unread_body : Io → Result Io
discard_unread_body io =
    let rest = discard_buffered io in
    if io.stream.raw_io || leb io.stream.http_body_pending 0
    then ok io
    else if ltb 0 rest.stream.http_body_pending
    then drop_chunk (spend_pending (from_conn rest (read rest.conn rest.stream.http_body_pending)))
    else ok rest
