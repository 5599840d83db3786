-- ===== src/Server/Pipeline/Answers.antt =====
-- server/pipeline_h1.cpp, with the reader of heads and the writer of responses: a request that is
-- buffered gets its response.
use mathlib.Core.Path.{subst}
use lambda.Base.{
  ℕ, ◌<◌, ◌^◌, suc, Bool, true, false, not, ◌&&◌, List, [], ◌∷◌, ◌++◌, some, ◌≡◌, ◌∙◌, refl, sym,
  ap, arith, Bytes, codes, length, Result, ok, err, ◌>>=◌, Lacks, All, scan, equal, find_text,
  if◌then◌else◌,
}
use lambda.Http.Values.{Values, is_some, has, get, set}
use lambda.Http.Trim.{reset_case, trim_space, is_space}
use lambda.Http.Method.{Method, method_can_have_body}
use lambda.Http.Url.{Url}
use lambda.Net.Conn.{Conn}
use lambda.Dict.{find, put, less}
use lambda.Server.Status.{Status, table_status}
use lambda.Server.Stream.{StreamState, Io}
use lambda.Http.Search.{at_or}
use lambda.Server.Head.{content_length, merge_url_components, RequestHead, value}
use lambda.Server.Head.Loop.{HeadLoop, merged, read_request_head}
use lambda.Server.Head.Whole.{HeaderText, IsPlain, lines_text, with_headers}
use lambda.Server.Head.Written.{line_of, url_of, read_request_head-written}
use lambda.Server.Writer.{
  ResponseWriter, DeferredResponse, new_writer, head_texts, write_header, flush, flag_upgrade,
  flag_stream, utility_headers, start_response,
}
use lambda.Server.Writer.Bodies.{write_bodies, flatten}
use lambda.Server.Writer.Deferred.{IsReliable, with_sent, flush_deferred-message}
use lambda.Server.Pipeline.{
  Handler, handle_request, body_length, serve_request, dispatch, after_head,
}

-- A handler that writes a head and the pieces of a body, with no headers of its own.
abbrev pub answering : Bytes → Status → List Bytes → Handler
answering date status chunks request w = write_header date w status >>= λ started.
    write_bodies started.1 chunks >>= λ written. ok written.1

-- The stream is one of requests.
abbrev pub IsPlainStream : Io → Type 0
IsPlainStream io = (io.stream.raw_io ≡ false) × (io.stream.stream_response ≡ false)

-- A writer whose head is about to be written.
abbrev starting : Io → ResponseWriter
starting io = record (new_writer io) { header_written = true }

flag_upgrade_plain : (io : Io) → flag_upgrade (starting io) ≡ ok (starting io)
unfolding flag_upgrade get find reset_case trim_space is_space scan
flag_upgrade_plain io = refl

flag_stream_plain : (io : Io) → flag_stream (starting io) ≡ starting io
unfolding flag_stream get find reset_case trim_space is_space scan
flag_stream_plain io = refl

utility_headers_plain :
    (date : Bytes) (io : Io)
    → get (utility_headers date (starting io)) (codes "content-length") ≡ []
unfolding utility_headers has get set find put reset_case trim_space is_space equal less
utility_headers_plain date io = refl

-- A head that is written without a length is kept back.
write_header-deferred :
    (date : Bytes) (io : Io) (status : Status)
    → IsPlainStream io
    → write_header date (new_writer io) status
      ≡ ok (
        0,
        record (starting io) {
          deferred =
              some (record {
                headers = utility_headers date (starting io);
                status = status;
                body = [];
              });
        },
      )
unfolding write_header start_response
write_header-deferred date io status plain =
    rw
      (
        write_header,
        flag_upgrade_plain io,
        flag_stream_plain io,
        start_response,
        utility_headers_plain date io,
        plain.0,
        plain.1,
      )
      refl

-- The head asks for a length that it does not give.
abbrev pub lacks_length : Method → Values → Bool
lacks_length method headers =
    method_can_have_body method
    && has headers (codes "content-type")
    && not (is_some (body_length method headers))

flushed_after :
    (r : Result (ℕ × ResponseWriter)) (n : ℕ) (w' : ResponseWriter)
    → (r >>= λ written. flush written.1) ≡ ok (n, w')
    → ((r >>= λ written. ok written.1) >>= λ w. flush w >>= λ flushed. ok flushed.1.io) ≡ ok w'.io
flushed_after (ok (k, w)) n w' h = rw h refl
flushed_after (err e) n w' h = absurd (cc)

-- A head that was read is handed to the handler with the URL that it makes.
pub serve_request-read :
    (date : Bytes) (checks max_header_size : ℕ) (handler : Handler) (io : Io) (l : HeadLoop)
    (m : Method) (url merged_url : Url) (headers : Values)
    → read_request_head checks max_header_size io.conn io.stream.read_buff ≡ merged l
    → l.next ≡ record { method = some m; url = url; headers = headers }
    → merge_url_components url headers ≡ ok merged_url
    → serve_request date checks max_header_size handler io
      ≡ handle_request date handler (after_head io l) m merged_url headers
unfolding serve_request dispatch
serve_request-read date checks max handler io l m url merged_url headers e head located =
    let outcome =
      e
      ∙ ap
          (λ (r : RequestHead).
            merge_url_components r.url r.headers >>= λ u. ok (value (record r { url = u }), l))
          head
      ∙ ap (λ r. r >>= λ u. ok (value (record { method = some m; url = u; headers = headers }), l))
          located in
    rw (serve_request, outcome, dispatch) refl

-- One response was put on the wire, and its head tells the length of its body.
abbrev pub Answered : Status → Bytes → List Bytes → Conn → Conn → Type 0
Answered status text chunks before after =
    (headers : Values) × (after
      ≡ with_sent before (flatten (head_texts status text headers) ++ flatten chunks))
    × (content_length headers ≡ some (length (flatten chunks)))

-- The stream behind a head, which tells how long the body is and whether the connection is kept.
abbrev pub stream_behind : StreamState → Method → Values → StreamState
stream_behind before method headers =
    let stream = record before { http_body_pending = at_or (body_length method headers) 0 } in
    let closing = is_some (find_text (codes "close") (get headers (codes "connection"))) in
    if closing then record stream { http_keep_alive = false } else stream

module _ (date : Bytes) (status : Status) (chunks : List Bytes) (text : Bytes)
    (known : table_status status ≡ some text) (fits : length (flatten chunks) < 2 ^ 64) where
  -- The stream that the handler works on.
  handle_request-Answered :
      (io : Io) (method : Method) (url : Url) (headers : Values)
      → lacks_length method headers ≡ false
      → IsReliable io.conn
      → IsPlainStream io
      → (io' : Io) × (handle_request date (answering date status chunks) io method url headers
          ≡ ok io')
        × Answered status text chunks io.conn io'.conn
        × (io'.stream ≡ stream_behind io.stream method headers)
  unfolding handle_request
  handle_request-Answered io method url headers given reliable plain =
      let before = record io { stream = stream_behind io.stream method headers } in
      let plain_before : IsPlainStream before =
        (ground (arith, plain.0), ground (arith, plain.1)) in
      let start = write_header-deferred date before status plain_before in
      let d : DeferredResponse = record {
        headers = utility_headers date (starting before);
        status = status;
        body = [];
      } in
      let w = record (starting before) { deferred = some d } in
      let (n, w', hs, e, wire, size) =
        flush_deferred-message chunks w d text reliable refl refl known fits in
      (
        w'.io,
        rw (handle_request, given, start) (flushed_after (write_bodies w chunks) n w' e),
        (hs, ap (λ (i : Io). i.conn) wire, size),
        ap (λ (i : Io). i.stream) wire,
      )

  module _ (m : Method) (p : ℕ) (ps : Bytes) (quiet : Lacks b' ' (p ∷ ps))
      (hash : Lacks b'#' (p ∷ ps)) (mark : Lacks b'?' (p ∷ ps)) (colon : Lacks b':' (p ∷ ps))
      (feed : Lacks 10 (p ∷ ps)) where
    -- A request that is buffered as a whole is answered: the handler that writes a head and any pieces
    -- of a body returns, and exactly one message is put on the wire, the head with the status and the
    -- length of the whole body and then the body; what follows the request's head stays in the buffer,
    -- and the stream expects the body that the head announces. The request has a path without space, `?`, `#`, `:`
    -- or line feed and headers that are written as `IsPlain` says, its credentials can be read, and it
    -- does not announce a body without a length. The connection takes every write as a whole and is
    -- not upgraded, the status is one of the table, the body's length fits into 64 bits, and the
    -- server runs for one round a line.
    pub serve_request-Answered :
        (hs : List HeaderText) (max_header_size checks : ℕ) (io : Io) (body : Bytes) (url : Url)
        → All IsPlain hs
        → suc (length hs) < checks
        → io.stream.read_buff
          ≡ line_of m p ps quiet hash mark colon feed ++ 13 ∷ 10 ∷ lines_text hs body
        → merge_url_components (url_of m p ps quiet hash mark colon feed) (with_headers hs [])
          ≡ ok url
        → lacks_length m (with_headers hs []) ≡ false
        → IsReliable io.conn
        → IsPlainStream io
        → (io' : Io) × (serve_request date checks max_header_size (answering date status chunks) io
            ≡ ok io')
          × Answered status text chunks io.conn io'.conn
          × (io'.stream
              ≡ stream_behind (record io.stream { read_buff = body }) m (with_headers hs []))
    unfolding serve_request dispatch
    serve_request-Answered hs max checks io body url plain lt buffered located given reliable
          stream =
        let (l, e, rest, head, there) =
          read_request_head-written m p ps quiet hash mark colon feed hs max checks io.conn body
            plain lt in
        let read = ap (λ b. read_request_head checks max io.conn b) buffered ∙ e in
        let handled =
          serve_request-read date checks max (answering date status chunks) io l m _ url
            (with_headers hs []) read head located in
        let (io', e', (headers, wire, size), after) =
          handle_request-Answered (after_head io l) m url (with_headers hs []) given
            (subst IsReliable (sym there) reliable) stream in
        (
          io',
          handled ∙ e',
          (
            headers,
            wire
                ∙ ap
                    (λ (c : Conn).
                      with_sent c (flatten (head_texts status text headers) ++ flatten chunks))
                    there,
            size,
          ),
          after
              ∙ ap (λ b. stream_behind (record io.stream { read_buff = b }) m (with_headers hs []))
                  rest,
        )
