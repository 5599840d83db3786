-- ===== src/Server/Writer.antt =====
-- server/pipeline_h1_tx.cpp: the head of a response and `Impl::ResponseWriter`. The text of the
-- current date is an argument; what is logged in debug mode is left out.
pub mod Wire
pub mod Bodies
pub mod Deferred
pub mod Announced
use lambda.Base.{
  ℕ, ◌+◌, ◌-◌, Bool, true, false, not, ◌||◌, List, [], ◌∷◌, ◌++◌, map, Option, none, some, Bytes,
  codes, ltb, leb, if◌then◌else◌, length, is_empty, take, find_text, Result, ok, err, Error, ◌>>=◌,
}
use lambda.Base.Decimal.{to_decimal, stoul}
use lambda.Http.Trim.{reset_case}
use lambda.Http.Values.{Values, is_some, has, get, set, append, del, entries}
use lambda.Http.Cookie.{Cookie, cookie_to_string}
use lambda.Net.Conn.{Conn, write, set_timeouts}
use lambda.Server.Stream.{StreamState, Io}
use lambda.Server.Status.{Status, status_code, table_status}

abbrev pub line_break : Bytes
line_break = 13 ∷ 10 ∷ []

unfoldable pub response_line : Status → Bytes → Bytes
response_line status text =
    codes "HTTP/1.1 " ++ (to_decimal (status_code status) ++ (b' ' ∷ (text ++ line_break)))

unfoldable pub header_line : Bytes × Bytes → Bytes
header_line (name, value) = name ++ (codes ": " ++ (value ++ line_break))

-- One call of `write` for each text, and the number of all bytes written.
unfoldable pub write_texts : Conn → List Bytes → Result (ℕ × Conn)
write_texts c [] = ok (0, c)
write_texts c (text ∷ texts) =
    write c text >>= λ first. write_texts first.1 texts >>= λ rest. ok (first.0 + rest.0, rest.1)

-- The pieces of a head, in the order in which `write_head` writes them.
abbrev pub head_texts : Status → Bytes → Values → List Bytes
head_texts status text headers =
    response_line status text ∷ (map header_line (entries headers) ++ line_break ∷ [])

unfoldable pub write_head : Conn → Status → Values → Result (ℕ × Conn)
unfolding write_texts
write_head c status headers = elim (table_status status) [
  | none ↦ err Error.status_unexpected
  | some text ↦ write_texts c (head_texts status text headers)
]

pub record DeferredResponse : Type 0 where
  pub headers : Values
  pub status : Status
  pub body : Bytes

-- The writer, with the connection and the stream that it refers to.
pub record ResponseWriter : Type 0 where
  pub io : Io
  pub headers : Values
  pub header_written : Bool
  pub body_written : ℕ
  pub deferred : Option DeferredResponse
  pub announced : Option ℕ

abbrev pub new_writer : Io → ResponseWriter
new_writer io = record {
  io = io;
  headers = [];
  header_written = false;
  body_written = 0;
  deferred = none;
  announced = none;
}

abbrev pub with_conn : ResponseWriter → Conn → ResponseWriter
with_conn w c = record w { io = record w.io { conn = c } }

-- What was written and the connection, put back into the writer.
abbrev pub from_write : ResponseWriter → Result (ℕ × Conn) → Result (ℕ × ResponseWriter)
from_write w (ok (n, c)) = ok (n, with_conn w c)
from_write w (err e) = err e

abbrev pub raw_io_read_timeout : ℕ
raw_io_read_timeout = 100

abbrev contains_text : Bytes → Bytes → Bool
contains_text whole text = is_some (find_text text whole)

-- A connection that is upgraded, to web sockets for one, is no longer one of requests.
unfoldable pub flag_upgrade : ResponseWriter → Result ResponseWriter
flag_upgrade w =
    let flagged = record w {
      headers = del w.headers (codes "content-length");
      io = record w.io {
        stream = record w.io.stream {
          http_keep_alive = false;
          http_body_pending = 0;
          raw_io = true;
        };
      };
    } in
    if contains_text (reset_case (get w.headers (codes "connection"))) (codes "upgrade")
    then (set_timeouts w.io.conn raw_io_read_timeout w.io.conn.write_timeout >>= λ c.
        ok (with_conn flagged c))
    else ok w

unfoldable pub flag_stream : ResponseWriter → ResponseWriter
flag_stream w =
    if contains_text (reset_case (get w.headers (codes "content-type"))) (codes "event-stream")
    then record w {
      headers = del w.headers (codes "content-length");
      io = record w.io {
        stream = record w.io.stream { http_keep_alive = false; stream_response = true };
      };
    }
    else w

abbrev pub set_missing : Bytes → Bytes → Values → Values
set_missing name value headers = if has headers name then headers else set headers name value

unfoldable pub utility_headers : Bytes → ResponseWriter → Values
utility_headers date w = set_missing (codes "cache-control") (codes "no-cache") (
    set_missing (codes "server") (codes "maddsua/l3") (
      set_missing (codes "date") date (
        set_missing (codes "connection")
          (if w.io.stream.http_keep_alive then codes "keep-alive" else codes "close") w.headers)))

-- The end of `write_header`: the response is deferred, or its head is written.
unfoldable pub start_response : Status → ResponseWriter → Result (ℕ × ResponseWriter)
start_response status w =
    let length_text = get w.headers (codes "content-length") in
    let deferrable = not (w.io.stream.stream_response || w.io.stream.raw_io) in
    let later = record w {
      deferred = some (record { headers = w.headers; status = status; body = [] });
      headers = [];
    } in
    if is_empty length_text
    then (if deferrable
        then ok (0, later)
        else from_write w (write_head w.io.conn status w.headers))
    else (stoul length_text >>= λ n.
        from_write (record w { announced = some n }) (write_head w.io.conn status w.headers))

unfoldable pub write_header : Bytes → ResponseWriter → Status → Result (ℕ × ResponseWriter)
unfolding flag_upgrade flag_stream utility_headers start_response
write_header date w status =
    if w.header_written
    then err Error.header_written_twice
    else flag_upgrade (record w { header_written = true }) >>= λ upgraded.
        let flagged = flag_stream upgraded in
        start_response status (record flagged { headers = utility_headers date flagged })

abbrev pub count_body : Result (ℕ × ResponseWriter) → Result (ℕ × ResponseWriter)
count_body (ok (n, w)) = ok (n, record w { body_written = w.body_written + n })
count_body (err e) = err e

abbrev pub send_body : ResponseWriter → Bytes → Result (ℕ × ResponseWriter)
send_body w chunk = count_body (from_write w (write w.io.conn chunk))

-- A body with an announced length is cut at that length.
unfoldable pub write_announced : ResponseWriter → ℕ → Bytes → Result (ℕ × ResponseWriter)
write_announced w announced chunk =
    let can_write = announced - w.body_written in
    if leb announced w.body_written
    then ok (0, w)
    else if ltb can_write (length chunk)
    then send_body w (take can_write chunk)
    else send_body w chunk

-- `write` behind the head.
unfoldable pub write_body : ResponseWriter → Bytes → Result (ℕ × ResponseWriter)
unfolding write_announced
write_body w chunk = elim w.deferred [
  | some d ↦ ok (length chunk, record w { deferred = some (record d { body = d.body ++ chunk }) })
  | none ↦ elim w.announced [ some n ↦ write_announced w n chunk | none ↦ send_body w chunk ]
]

-- `write`, which writes a head with status 200 first if there is none yet.
unfoldable pub write_response : Bytes → ResponseWriter → Bytes → Result (ℕ × ResponseWriter)
unfolding write_header write_body
write_response date w chunk =
    if w.header_written
    then write_body w chunk
    else write_header date w Status.ok >>= λ started. write_body started.1 chunk

unfoldable pub flush_deferred : ResponseWriter → DeferredResponse → Result (ℕ × ResponseWriter)
unfolding write_head
flush_deferred w d =
    let headers = set d.headers (codes "content-length") (to_decimal (length d.body)) in
    let done = record w { deferred = some (record d { headers = headers }) } in
    write_head w.io.conn d.status headers >>= λ head.
    write head.1 d.body >>= λ body. ok (head.0 + body.0, with_conn done body.1)

unfoldable pub flush : ResponseWriter → Result (ℕ × ResponseWriter)
unfolding flush_deferred
flush w =
    let headers = set w.headers (codes "content-length") (to_decimal 0) in
    if not w.io.conn.is_open
    then ok (0, w)
    else if not w.header_written
    then from_write (record w { headers = headers }) (write_head w.io.conn Status.ok headers)
    else elim w.deferred [ none ↦ ok (0, w) | some d ↦ flush_deferred w d ]

unfoldable pub set_cookie : (ℕ → Bytes) → ResponseWriter → Cookie → Result ResponseWriter
set_cookie utc_string w cookie = cookie_to_string utc_string cookie >>= λ text.
    ok (record w { headers = append w.headers (codes "Set-Cookie") text })
