-- ===== src/Server/Pipeline/Laws.antt =====
-- Refused requests.
use lambda.Base.{
  ℕ, true, false, List, [], ◌∷◌, none, ◌≡◌, ◌∙◌, refl, sym, arith, inl, inr, Bytes, codes,
  Bool-cases, Result, ok, err, ◌>>=◌,
}
use lambda.Http.Values.{Values, has}
use lambda.Http.Method.{Method, method_can_have_body}
use lambda.Http.Url.{Url}
use lambda.Net.Conn.{close}
use lambda.Server.Stream.{Io}
use lambda.Server.Body.{discard_unread_body}
use lambda.Server.Head.{unexpected, content_length}
use lambda.Server.Head.Loop.{HeadLoop, RequestError, read_request_head}
use lambda.Server.Writer.{ResponseWriter, new_writer}
use lambda.Server.Pipeline.{
  Handler, closed_io, with_header, respond, refuse_request, handle_request, after_head, dispatch,
  serve_request, serve_requests,
}

closed_after :
    (r : Result ResponseWriter) (io' : Io)
    → (r >>= λ w. ok (closed_io w.io)) ≡ ok io'
    → io'.conn.is_open ≡ false
unfolding close
closed_after (ok w) io' h = ground (arith, h)
closed_after (err e) io' h = absurd (cc)

refuse_request-closes :
    (date : Bytes) (io io' : Io) (error : RequestError)
    → refuse_request date io error ≡ ok io'
    → io'.conn.is_open ≡ false
unfolding refuse_request close
refuse_request-closes date io io' error h =
    let plain =
      with_header (with_header (new_writer io) (codes "connection") (codes "close"))
        (codes "content-type") (codes "text/plain") in
    elim (Bool-cases io.conn.is_open) [
      | inr shut ↦ ground (arith, shut, h)
      | inl open_ ↦ elim (Bool-cases error.discard) [
        | inl dropped ↦ ground (arith, open_, dropped, h)
        | inr told ↦
            closed_after (respond date plain error.status error.message) io'
              (ground (arith, open_, told, h))
      ]
    ]

serve_requests_closed :
    (date : Bytes) (max_header_size : ℕ) (handler : Handler) (later : List ℕ) (io : Io)
    → io.conn.is_open ≡ false
    → serve_requests date max_header_size handler later io ≡ ok io
unfolding serve_requests
serve_requests_closed date max handler [] io h = refl
serve_requests_closed date max handler (checks ∷ later) io h = ground (arith, h)

-- A closed connection serves no further requests.
served_closed :
    (date : Bytes) (max_header_size : ℕ) (handler : Handler) (later : List ℕ) (r : Result Io)
    → ((io' : Io) → r ≡ ok io' → io'.conn.is_open ≡ false)
    → (r >>= λ served. serve_requests date max_header_size handler later served)
      ≡ (r >>= λ served. ok served)
served_closed date max handler later (ok io') closes =
    serve_requests_closed date max handler later io' (closes io' refl)
served_closed date max handler later (err e) closes = refl

serve_request-refused :
    (date : Bytes) (checks max_header_size : ℕ) (handler : Handler) (io : Io) (error : RequestError)
    (l : HeadLoop)
    → read_request_head checks max_header_size io.conn io.stream.read_buff
      ≡ ok (unexpected error, l)
    → serve_request date checks max_header_size handler io
      ≡ refuse_request date (after_head io l) error
unfolding serve_request dispatch
serve_request-refused date checks max handler io error l k = rw (serve_request, k) refl

-- A request whose head is refused is the last one that its connection serves, whatever is still to
-- be read and however long the server runs on: the outcome is that of a server that ends after it.
-- What was unread of the body before it was discarded without an exception.
pub serve_requests-refused :
    (date : Bytes) (max_header_size checks : ℕ) (handler : Handler) (later : List ℕ) (io ready : Io)
    (error : RequestError) (l : HeadLoop)
    → discard_unread_body io ≡ ok ready
    → read_request_head checks max_header_size ready.conn ready.stream.read_buff
      ≡ ok (unexpected error, l)
    → serve_requests date max_header_size handler (checks ∷ later) io
      ≡ serve_requests date max_header_size handler (checks ∷ []) io
unfolding serve_requests
serve_requests-refused date max checks handler later io ready error l h k =
    let closes : (io' : Io)
        → serve_request date checks max handler ready ≡ ok io'
        → io'.conn.is_open ≡ false =
      λ io' e.
        refuse_request-closes date (after_head ready l) io' error
          (sym (serve_request-refused date checks max handler ready error l k) ∙ e) in
    let same =
      served_closed date max handler later (serve_request date checks max handler ready) closes in
    rw (h, same) refl

-- A request with a content type but no length, of a method that has a body, does not reach the handler.
pub handle_request-no_length :
    (date : Bytes) (handler other : Handler) (io : Io) (method : Method) (url : Url)
    (headers : Values)
    → method_can_have_body method ≡ true
    → has headers (codes "content-type") ≡ true
    → content_length headers ≡ none
    → handle_request date handler io method url headers
      ≡ handle_request date other io method url headers
unfolding handle_request
handle_request-no_length date handler other io method url headers body typed none_given =
    rw (body, typed, none_given) refl
