-- ===== src/Server/Pipeline/Pipelined.antt =====
-- server/pipeline_h1.cpp: requests that a client sends without waiting for the answers.
use lambda.Base.{
  ℕ, ◌<◌, ◌^◌, suc, true, false, List, [], ◌∷◌, ◌++◌, some, ◌≡◌, ◌∙◌, refl, sym, ap, arith, Bytes,
  codes, length, ok, Lacks, All, find_text,
}
use lambda.Http.Values.{Values, is_some, get}
use lambda.Http.Method.{Method}
use lambda.Http.Cookie.{parse_cookie}
use lambda.Http.Url.{Url}
use lambda.Net.Conn.{Conn}
use lambda.Http.Search.{at_or}
use lambda.Server.Status.{Status, table_status}
use lambda.Server.Stream.{StreamState, Io}
use lambda.Server.Body.{discard_unread_body}
use lambda.Server.Head.{merge_url_components}
use lambda.Server.Head.Whole.{HeaderText, IsPlain, lines_text, with_headers}
use lambda.Server.Head.Loop.{read_request_head}
use lambda.Server.Head.Written.{line_of, url_of, read_request_head-written}
use lambda.Server.Writer.Bodies.{flatten}
use lambda.Server.Writer.Deferred.{IsReliable}
use lambda.Server.Pipeline.{
  Request, Handler, body_length, after_head, handle_request, serve_request, serve_requests,
}
use lambda.Server.Pipeline.Answers.{
  answering, IsPlainStream, lacks_length, Answered, serve_request-read, serve_request-Answered,
}

-- A request as it is written, with a path without space, `?`, `#`, `:` and line feed.
pub record PlainRequest : Type 0 where
  pub method : Method
  pub first : ℕ
  pub path : Bytes
  pub quiet : Lacks b' ' (first ∷ path)
  pub hash : Lacks b'#' (first ∷ path)
  pub mark : Lacks b'?' (first ∷ path)
  pub colon : Lacks b':' (first ∷ path)
  pub feed : Lacks 10 (first ∷ path)
  pub headers : List HeaderText
  pub url : Url

abbrev pub header_values : PlainRequest → Values
header_values r = with_headers r.headers []

-- The request that the handler is given.
abbrev pub request_of : PlainRequest → Request
request_of r = record {
  method = r.method;
  url = r.url;
  headers = header_values r;
  cookies = parse_cookie (get (header_values r) (codes "cookie"));
}

-- The head can be read, announces no body and lets the connection live on.
pub record IsPipelined (r : PlainRequest) : Type 0 where
  pub plain : All IsPlain r.headers
  pub located :
      merge_url_components
        (url_of r.method r.first r.path r.quiet r.hash r.mark r.colon r.feed)
        (header_values r)
      ≡ ok r.url
  pub given : lacks_length r.method (header_values r) ≡ false
  pub bodiless : at_or (body_length r.method (header_values r)) 0 ≡ 0
  pub kept :
      is_some (find_text (codes "close") (get (header_values r) (codes "connection"))) ≡ false

-- The texts of the requests, one behind the other.
abbrev pub pipelined : List PlainRequest → Bytes → Bytes
pipelined [] rest = rest
pipelined (r ∷ rs) rest =
    line_of r.method r.first r.path r.quiet r.hash r.mark r.colon r.feed
    ++ 13 ∷ 10 ∷ lines_text r.headers (pipelined rs rest)

-- The server runs for one round a line of each head.
abbrev pub Lasts : List PlainRequest → List ℕ → Type 0
Lasts [] [] = Unit {0}
Lasts [] (checks ∷ later) = ⊥
Lasts (r ∷ rs) [] = ⊥
Lasts (r ∷ rs) (checks ∷ later) = (suc (length r.headers) < checks) × Lasts rs later

module _ (date : Bytes) (max_header_size : ℕ) (status_of : Request → Status)
    (chunks_of : Request → List Bytes) (text_of : Request → Bytes) where
  -- Any handler that answers with a status and the pieces of a body.
  abbrev pub handler : Handler
  handler request w = answering date (status_of request) (chunks_of request) request w

  -- One message for each request, in the order of the requests.
  abbrev pub InOrder : List PlainRequest → Conn → Conn → Type 0
  InOrder [] before after = before ≡ after
  InOrder (r ∷ rs) before after =
      let q = request_of r in
      (mid : Conn) × Answered (status_of q) (text_of q) (chunks_of q) before mid
      × InOrder rs mid after

  same_handler :
      (io : Io) (r : PlainRequest)
      → handle_request date handler io r.method r.url (header_values r)
        ≡ handle_request date
            (answering date (status_of (request_of r)) (chunks_of (request_of r)))
            io
            r.method
            r.url
            (header_values r)
  unfolding handle_request
  same_handler io r = refl

  -- The first of the requests in the buffer is answered and taken off.
  serve_one :
      (checks : ℕ) (r : PlainRequest) (rest : Bytes) (io : Io)
      → IsPipelined r
      → suc (length r.headers) < checks
      → table_status (status_of (request_of r)) ≡ some (text_of (request_of r))
      → length (flatten (chunks_of (request_of r))) < 2 ^ 64
      → io.stream.read_buff ≡ pipelined (r ∷ []) rest
      → IsReliable io.conn
      → IsPlainStream io
      → (io' : Io) × (serve_request date checks max_header_size handler io ≡ ok io')
        × Answered
            (status_of (request_of r))
            (text_of (request_of r))
            (chunks_of (request_of r))
            io.conn
            io'.conn
        × (io'.stream ≡ record io.stream { read_buff = rest; http_body_pending = 0 })
  serve_one checks r rest io h lt known fits buffered reliable stream =
      let q = request_of r in
      let fixed = answering date (status_of q) (chunks_of q) in
      let (l, e, left, head, there) =
        read_request_head-written r.method r.first r.path r.quiet r.hash r.mark r.colon r.feed
          r.headers max_header_size checks io.conn rest h.plain lt in
      let read = ap (λ b. read_request_head checks max_header_size io.conn b) buffered ∙ e in
      let by_handler =
        serve_request-read date checks max_header_size handler io l r.method _ r.url
          (header_values r) read head h.located in
      let by_fixed =
        serve_request-read date checks max_header_size fixed io l r.method _ r.url (header_values r)
          read head h.located in
      let (io', served, answered, after) =
        serve_request-Answered date (status_of q) (chunks_of q) (text_of q) known fits r.method
          r.first r.path r.quiet r.hash r.mark r.colon r.feed r.headers max_header_size checks io
          rest r.url h.plain lt buffered h.located h.given reliable stream in
      (
        io',
        by_handler ∙ same_handler (after_head io l) r ∙ sym by_fixed ∙ served,
        answered,
        after ∙ rw (h.bodiless, h.kept) refl,
      )

  discard_none : (io : Io) → io.stream.http_body_pending ≡ 0 → discard_unread_body io ≡ ok io
  unfolding discard_unread_body
  discard_none io h = ground (arith, h)

  serve_requests_first :
      (checks : ℕ) (later : List ℕ) (io mid : Io)
      → io.conn.is_open ≡ true
      → io.stream.http_keep_alive ≡ true
      → discard_unread_body io ≡ ok io
      → serve_request date checks max_header_size handler io ≡ ok mid
      → serve_requests date max_header_size handler (checks ∷ later) io
        ≡ serve_requests date max_header_size handler later mid
  unfolding serve_requests
  serve_requests_first checks later io mid opened kept none_left served =
      rw (none_left, served) (ground (arith, opened, kept))

  -- A status of the table, and a body whose length fits into 64 bits.
  abbrev pub CanAnswer : Request → Type 0
  CanAnswer q =
      (table_status (status_of q) ≡ some (text_of q)) × (length (flatten (chunks_of q)) < 2 ^ 64)

  -- Requests that stand in the buffer one behind the other are answered in their order, each with
  -- exactly one message that tells its length, whatever the handler answers to each of them, and what
  -- follows the last stays in the buffer. The requests are written plainly, their credentials can be
  -- read, they announce no body and do not close the connection; the handler's answers have no headers
  -- of their own, a status of the table and bodies whose lengths fit into 64 bits; the connection takes every write as a whole, is not upgraded and is to be kept; no
  -- body is pending; and the server runs for one round a line of each head.
  pub serve_requests-InOrder :
      (rs : List PlainRequest) (rounds : List ℕ) (io : Io) (rest : Bytes)
      → Lasts rs rounds
      → All IsPipelined rs
      → All (λ r. CanAnswer (request_of r)) rs
      → io.stream.read_buff ≡ pipelined rs rest
      → io.stream.http_body_pending ≡ 0
      → io.stream.http_keep_alive ≡ true
      → IsReliable io.conn
      → IsPlainStream io
      → (io' : Io) × (serve_requests date max_header_size handler rounds io ≡ ok io')
        × InOrder rs io.conn io'.conn
        × (io'.stream ≡ record io.stream { read_buff = rest })
  unfolding serve_requests
  serve_requests-InOrder [] [] io rest lasts hs answers buffered pending kept reliable stream =
      (io, refl, refl, ground (arith, buffered))
  serve_requests-InOrder [] (checks ∷ rounds) io rest lasts hs answers buffered pending kept
        reliable stream =
      absurd lasts
  serve_requests-InOrder (r ∷ rs) [] io rest lasts hs answers buffered pending kept reliable
        stream =
      absurd lasts
  serve_requests-InOrder (r ∷ rs) (checks ∷ rounds) io rest lasts hs answers buffered pending kept
        reliable stream =
      let behind = pipelined rs rest in
      let (mid, served, answered, after) =
        serve_one checks r behind io hs.0 lasts.0 answers.0.0 answers.0.1 buffered reliable
          stream in
      let left = record io.stream { read_buff = behind; http_body_pending = 0 } in
      let still : IsReliable mid.conn =
        (ground (arith, answered.1, reliable.0), ground (arith, answered.1, reliable.1)) in
      let plain : IsPlainStream mid =
        (ground (arith, after, stream.0), ground (arith, after, stream.1)) in
      let (io', e, order, last) =
        serve_requests-InOrder rs rounds mid rest lasts.1 hs.1 answers.1
          (ap (λ (s : StreamState). s.read_buff) after)
          (ap (λ (s : StreamState). s.http_body_pending) after)
          (ap (λ (s : StreamState). s.http_keep_alive) after ∙ kept) still plain in
      (
        io',
        serve_requests_first checks rounds io mid reliable.0 kept (discard_none io pending) served
            ∙ e,
        (mid.conn, answered, order),
        last
            ∙ ap (λ (s : StreamState). record s { read_buff = rest }) after
            ∙ ap (λ n. record io.stream { read_buff = rest; http_body_pending = n }) (sym pending),
      )
