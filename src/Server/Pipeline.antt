-- ===== src/Server/Pipeline.antt =====
-- server/pipeline_h1.cpp: one request, and the requests of one connection. The handler is the user's:
-- any function on the request and on the writer, through which it reaches the connection too. An
-- exception ends the connection's requests. What is logged in debug mode is left out.
pub mod Laws
pub mod Answers
pub mod Pipelined
use lambda.Base.{
  ℕ, ◌*◌, Bool, true, false, not, ◌&&◌, List, [], ◌∷◌, Option, none, some, Bytes, codes,
  if◌then◌else◌, find_text, Result, ok, err, Error, ◌>>=◌,
}
use lambda.Http.Values.{Values, is_some, has, get, set}
use lambda.Http.Search.{at_or}
use lambda.Http.Method.{Method, method_can_have_body}
use lambda.Http.Cookie.{parse_cookie}
use lambda.Http.Url.{Url}
use lambda.Net.Conn.{Conn, close, set_timeouts}
use lambda.Server.Status.{Status}
use lambda.Server.Stream.{StreamState, Io, new_stream}
use lambda.Server.Body.{discard_unread_body}
use lambda.Server.Head.{Expected, value, unexpected, RequestHead, content_length}
use lambda.Server.Head.Loop.{HeadLoop, HeadOutcome, RequestError, read_request_head}
use lambda.Server.Writer.{ResponseWriter, new_writer, write_header, write_response, flush}

pub record Request : Type 0 where
  pub method : Method
  pub url : Url
  pub headers : Values
  pub cookies : Values

abbrev pub Handler : Type 0
Handler = Request → ResponseWriter → Result ResponseWriter

abbrev pub with_header : ResponseWriter → Bytes → Bytes → ResponseWriter
with_header w name text = record w { headers = set w.headers name text }

abbrev pub closed_io : Io → Io
closed_io io = record io { conn = close io.conn }

-- A response of one text, written at once.
unfoldable pub respond : Bytes → ResponseWriter → Status → Bytes → Result ResponseWriter
respond date w status message = write_header date w status >>= λ started.
    write_response date started.1 message >>= λ written. flush written.1 >>= λ flushed. ok flushed.1

-- The answer to a head that was refused.
unfoldable pub refuse_request : Bytes → Io → RequestError → Result Io
unfolding respond
refuse_request date io error =
    let plain =
      with_header (with_header (new_writer io) (codes "connection") (codes "close"))
        (codes "content-type") (codes "text/plain") in
    if not io.conn.is_open
    then ok io
    else if error.discard
    then ok (closed_io io)
    else respond date plain error.status error.message >>= λ w. ok (closed_io w.io)

-- The body's length is taken from the head if the method allows a body.
abbrev pub body_length : Method → Values → Option ℕ
body_length method headers = if method_can_have_body method then content_length headers else none

-- A request with a method. The writer that the handler gets refers to the same connection.
unfoldable pub handle_request : Bytes → Handler → Io → Method → Url → Values → Result Io
unfolding respond
handle_request date handler io method url headers =
    let announced = body_length method headers in
    let stream = record io.stream { http_body_pending = at_or announced 0 } in
    let closing = is_some (find_text (codes "close") (get headers (codes "connection"))) in
    let kept = if closing then record stream { http_keep_alive = false } else stream in
    let refused =
      with_header (new_writer (record io { stream = stream })) (codes "content-type")
        (codes "text/plain") in
    let no_length = codes "Content-Length header required for methods POST, PUT, PATCH..." in
    if method_can_have_body method && has headers (codes "content-type") && not (is_some announced)
    then (respond date refused Status.length_required no_length >>= λ w. ok w.io)
    else (let cookies = parse_cookie (get headers (codes "cookie")) in
        handler (record { method = method; url = url; headers = headers; cookies = cookies })
          (new_writer (record io { stream = kept }))
        >>= λ w. flush w >>= λ flushed. ok flushed.1.io)

-- The connection and the buffer that the head was read from, put back.
abbrev pub after_head : Io → HeadLoop → Io
after_head io l = record io { conn = l.conn; stream = record io.stream { read_buff = l.read_buff } }

-- A head whose method was never set is one whose reading was cut short: its method is not initialised.
unfoldable pub dispatch : Bytes → Handler → Io → HeadOutcome → Result Io
unfolding refuse_request handle_request
dispatch date handler io (unexpected error, l) = refuse_request date (after_head io l) error
dispatch date handler io (value head, l) = elim head.method [
  | none ↦ err Error.fault
  | some method ↦ handle_request date handler (after_head io l) method head.url head.headers
]

unfoldable pub serve_request : Bytes → ℕ → ℕ → Handler → Io → Result Io
unfolding dispatch
serve_request date checks max_header_size handler io =
    read_request_head checks max_header_size io.conn io.stream.read_buff >>= λ outcome.
    dispatch date handler io outcome

-- The requests of a connection, each with the number of times that `ctx.done()` says no while its
-- head is read. The end of the list is the end of the server.
unfoldable pub serve_requests : Bytes → ℕ → Handler → List ℕ → Io → Result Io
unfolding serve_request
serve_requests date max_header_size handler [] io = ok io
serve_requests date max_header_size handler (checks ∷ later) io =
    if io.conn.is_open && io.stream.http_keep_alive
    then (discard_unread_body io >>= λ ready.
        serve_request date checks max_header_size handler ready >>= λ served.
        serve_requests date max_header_size handler later served)
    else ok io

abbrev pub default_io_timeout : ℕ
default_io_timeout = 15000

-- An exception of `set_timeouts` is passed on, and one of a request is caught.
unfoldable pub serve_conn : Bytes → ℕ → Handler → List ℕ → Conn → Result (Result Io)
unfolding serve_requests
serve_conn date max_header_size handler requests c =
    set_timeouts c default_io_timeout default_io_timeout >>= λ timed. ok (
      serve_requests date max_header_size handler requests
        (record { conn = timed; stream = new_stream }))
