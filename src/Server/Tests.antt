-- ===== src/Server/Tests.antt =====
-- The pipeline on small inputs.
use lambda.Base.{
  List, true, some, [], ◌∷◌, ◌++◌, inr, ◌≡◌, refl, arith, Bytes, codes, ok, ◌>>=◌, scan,
}
use lambda.Http.Trim.{reset_case, trim_space, is_space}
use lambda.Http.Values.{append}
use lambda.Http.Method.{Method, method_to_string}
use lambda.Http.Search.{parse_params}
use lambda.Server.Head.{
  value, empty_url, next_line, parse_request_line, parse_header, parse_request_url,
}
use lambda.Server.Pipeline.{Request, serve_request, serve_requests}
use lambda.Server.Pipeline.Pipelined.{
  PlainRequest, IsPipelined, pipelined, handler, InOrder, serve_requests-InOrder,
}
use lambda.Server.Pipeline.Answers.{answering, Answered, stream_behind, serve_request-Answered}
use lambda.Server.Status.{Status, table_status}
use lambda.Server.Stream.{Io, new_stream}
use lambda.Http.Method.{method_can_have_body}
use lambda.Http.Auth.{parse_basic_auth}
use lambda.Http.Url.{Url}
use lambda.Dict.{find, put}
use lambda.Http.Values.{get, has}
use lambda.Base.{equal}
use lambda.Server.Head.{merge_url_components}
use lambda.Net.Conn.{Conn}
use lambda.Server.Head.Loop.{HeadLoop, merged, read_request_head}
use lambda.Server.Head.Whole.{HeaderText, IsPlain, lines_text, with_headers}
use lambda.Server.Head.Written.{read_request_head-written}
use lambda.Server.Head.Request.{parse_request_line-written}
use lambda.Server.Head.Header.{parse_header_no_space, parse_request_url_query}
use lambda.Server.Head.Resume.{next_line-resumed}

abbrev get_line : Bytes
get_line = codes "GET /a HTTP/1.1"

parse_request_line-written_example :
    parse_request_line get_line 0 15
    ≡ ok (value (Method.get, record empty_url { path = codes "/a" }))
unfolding method_to_string reset_case trim_space is_space
parse_request_line-written_example =
    parse_request_line-written get_line 0 Method.get (codes "/a") (codes "HTTP") (codes "1.1") []
      b'/' b'H' (codes "a") (codes "TTP") refl refl refl (refl, (refl, tt))
      (refl, (refl, (refl, (refl, tt)))) (refl, (refl, (refl, tt))) (refl, (refl, tt))
      (refl, (refl, tt)) (refl, (refl, (refl, (refl, tt)))) refl (inr refl)

parse_header_no_space_example : parse_header [] (codes "A:b") 0 3 ≡ []
parse_header_no_space_example =
    parse_header_no_space [] (codes "A:b") 0 3 (codes "A:b") [] refl (refl, (refl, (refl, tt))) refl

parse_request_url_query_example : parse_request_url (codes "/a?b=1#c") 0 8 ≡ (
    parse_params (codes "b=1") >>= λ search.
    ok (record empty_url { search = search; fragment = codes "#c" }))
parse_request_url_query_example =
    parse_request_url_query (codes "/a?b=1#c") 0 8 (codes "/a") (codes "b=1") [] (some (codes "c"))
      refl refl (refl, (refl, (refl, (refl, (refl, (refl, tt)))))) (refl, (refl, tt))

abbrev half_line : Bytes
half_line = b'a' ∷ 13 ∷ []

next_line-resumed_example :
    next_line (half_line ++ 10 ∷ []) 1 3 ≡ next_line (half_line ++ 10 ∷ []) 0 3
unfolding scan
next_line-resumed_example =
    next_line-resumed half_line (10 ∷ []) 0 (omega arith) (omega arith) refl
      (λ e. absurd (omega (arith, e)))

abbrev host_header : HeaderText
host_header = record {
  name_head = b'H';
  name_tail = codes "ost";
  value_head = b'a';
  value_tail = codes "b";
}

host_header-IsPlain : IsPlain host_header
host_header-IsPlain = record {
  name_quiet = (refl, (refl, (refl, (refl, tt))));
  value_visible = refl;
  name_line = (refl, (refl, (refl, (refl, tt))));
  value_line = (refl, (refl, tt));
}

abbrev peer : Conn
peer = record {
  is_open = true;
  incoming = [];
  outcomes = [];
  sent = [];
  read_timeout = 15000;
  write_timeout = 15000;
  options_accepted = true;
}

read_request_head-written_example :
    (l : HeadLoop) × (read_request_head 3 100 peer
        (codes "GET /a HTTP/1.1" ++ 13 ∷ 10 ∷ lines_text (host_header ∷ []) (codes "tail"))
      ≡ merged l)
    × (l.read_buff ≡ codes "tail")
    × (l.next ≡ record {
      method = some Method.get;
      url = record empty_url { path = codes "/a" };
      headers = append [] (codes "Host") (codes "ab");
    })
    × (l.conn ≡ peer)
unfolding method_to_string
read_request_head-written_example =
    read_request_head-written Method.get b'/' (codes "a") (refl, (refl, tt)) (refl, (refl, tt))
      (refl, (refl, tt)) (refl, (refl, tt)) (refl, (refl, tt)) (host_header ∷ []) 100 3 peer
      (codes "tail") (host_header-IsPlain, tt) (omega arith)

abbrev connected : Io
connected = record {
  conn = peer;
  stream = record new_stream {
    read_buff = codes "GET /a HTTP/1.1" ++ 13 ∷ 10 ∷ lines_text (host_header ∷ []) (codes "tail");
  };
}

abbrev located : Url
located = record empty_url { scheme = codes "http"; host = codes "ab"; path = codes "/a" }

serve_request-Answered_example :
    (io' : Io) × (serve_request
        (codes "now")
        3
        100
        (answering (codes "now") Status.ok (codes "o" ∷ codes "k" ∷ []))
        connected
      ≡ ok io')
    × Answered Status.ok (codes "OK") (codes "o" ∷ codes "k" ∷ []) connected.conn io'.conn
    × (io'.stream
        ≡ stream_behind
            (record connected.stream { read_buff = codes "tail" })
            Method.get
            (with_headers (host_header ∷ []) []))
unfolding method_to_string table_status merge_url_components append get find put equal reset_case
    trim_space is_space parse_basic_auth method_can_have_body
serve_request-Answered_example =
    serve_request-Answered (codes "now") Status.ok (codes "o" ∷ codes "k" ∷ []) (codes "OK") refl
      (omega arith) Method.get b'/' (codes "a") (refl, (refl, tt)) (refl, (refl, tt))
      (refl, (refl, tt)) (refl, (refl, tt)) (refl, (refl, tt)) (host_header ∷ []) 100 3 connected
      (codes "tail") located (host_header-IsPlain, tt) (omega arith) refl refl refl (refl, refl)
      (refl, refl)

-- Two requests in one buffer, and a handler that tells the path.
abbrev first_request : PlainRequest
first_request = record {
  method = Method.get;
  first = b'/';
  path = codes "a";
  quiet = (refl, (refl, tt));
  hash = (refl, (refl, tt));
  mark = (refl, (refl, tt));
  colon = (refl, (refl, tt));
  feed = (refl, (refl, tt));
  headers = host_header ∷ [];
  url = located;
}

abbrev second_request : PlainRequest
second_request = record first_request {
  path = codes "b";
  url = record located { path = codes "/b" };
}

first_request-IsPipelined : IsPipelined first_request
unfolding merge_url_components append get has find put equal reset_case trim_space is_space
    parse_basic_auth method_can_have_body scan
first_request-IsPipelined = record {
  plain = (host_header-IsPlain, tt);
  located = refl;
  given = refl;
  bodiless = refl;
  kept = refl;
}

second_request-IsPipelined : IsPipelined second_request
unfolding merge_url_components append get has find put equal reset_case trim_space is_space
    parse_basic_auth method_can_have_body scan
second_request-IsPipelined = record {
  plain = (host_header-IsPlain, tt);
  located = refl;
  given = refl;
  bodiless = refl;
  kept = refl;
}

abbrev both : List PlainRequest
both = first_request ∷ second_request ∷ []

abbrev waiting : Io
waiting = record {
  conn = peer;
  stream = record new_stream { read_buff = pipelined both (codes "tail") };
}

abbrev ok_status : Request → Status
ok_status request = Status.ok

abbrev path_chunks : Request → List Bytes
path_chunks request = request.url.path ∷ codes "!" ∷ []

abbrev ok_text : Request → Bytes
ok_text request = codes "OK"

serve_requests-InOrder_example :
    (io' : Io) × (serve_requests
        (codes "now")
        100
        (handler (codes "now") 100 ok_status path_chunks ok_text)
        (3 ∷ 3 ∷ [])
        waiting
      ≡ ok io')
    × InOrder (codes "now") 100 ok_status path_chunks ok_text both peer io'.conn
    × (io'.stream ≡ record new_stream { read_buff = codes "tail" })
unfolding table_status
serve_requests-InOrder_example =
    serve_requests-InOrder (codes "now") 100 ok_status path_chunks ok_text both (3 ∷ 3 ∷ []) waiting
      (codes "tail") (omega arith, (omega arith, tt))
      (first_request-IsPipelined, (second_request-IsPipelined, tt))
      ((refl, omega arith), ((refl, omega arith), tt)) refl refl refl (refl, refl) (refl, refl)
