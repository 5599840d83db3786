-- ===== src/Server/Head/Loop.antt =====
-- server/pipeline_h1_rx.cpp: the loop `read_request_head`, one round as a step on its variables.
-- `ctx.done()` is told by the number of times it is asked before it answers yes.
use lambda.Base.{
  ℕ, zero, suc, ◌+◌, ◌-◌, Bool, true, false, not, ◌&&◌, [], ◌++◌, Option, none, some, Bytes, codes,
  ltb, leb, if◌then◌else◌, length, is_empty, drop, Result, ok, ◌>>=◌,
}
use lambda.Http.Search.{at_or}
use lambda.Net.Conn.{Conn, read}
use lambda.Server.Status.{Status}
use lambda.Server.Head.{
  Expected, value, unexpected, RequestHead, empty_url, next_line, parse_request_line, parse_header,
  merge_url_components,
}

pub record RequestError : Type 0 where
  pub message : Bytes
  pub status : Status
  pub discard : Bool

abbrev pub header_chunk_size : ℕ
header_chunk_size = 2048

-- The variables of the loop, and the two objects that it changes.
pub record HeadLoop : Type 0 where
  pub conn : Conn
  pub read_buff : Bytes
  pub reader_seek : ℕ
  pub chunker_seek : Option ℕ
  pub total_read : ℕ
  pub next : RequestHead
  pub request_line_parsed : Bool

-- How a round ends: with the next one, with `break`, or with an error that is returned.
pub data Round : Type 0 where
  again finished : HeadLoop → Round
  refused : RequestError → HeadLoop → Round

-- A chunk is put behind the buffer. An empty buffer's `size() - 1` is `nullidx`.
abbrev pub with_chunk : HeadLoop → Bytes → Conn → HeadLoop
with_chunk l chunk conn = record l {
  conn = conn;
  read_buff = l.read_buff ++ chunk;
  chunker_seek = if is_empty l.read_buff then none else some (length l.read_buff - 1);
  total_read = l.total_read + length chunk;
}

abbrev pub closed : RequestError
closed = record { message = codes "connection closed"; status = Status.teapot; discard = false }

abbrev pub too_big : RequestError
too_big = record {
  message = codes "request header section is too big";
  status = Status.request_header_fields_too_large;
  discard = false;
}

abbrev pub timed_out : RequestError
timed_out = record {
  message = codes "request timed out or client disconnected";
  status = Status.request_timeout;
  discard = true;
}

abbrev pub bad_request : Bytes → RequestError
bad_request message = record { message = message; status = Status.bad_request; discard = false }

-- A round that finds no end of a line.
unfoldable pub read_more : ℕ → HeadLoop → Result Round
read_more max_header_size l =
    if not l.conn.is_open
    then ok (Round.refused closed l)
    else if ltb max_header_size l.total_read
    then ok (Round.refused too_big l)
    else read l.conn header_chunk_size >>= λ got. ok (
        if is_empty got.0
        then Round.refused timed_out (record l { conn = got.1 })
        else Round.again (with_chunk l got.0 got.1))

-- The rest of a round that found a line: the line of a header, or the empty one that ends the head.
-- A line of at most two characters counts as empty.
unfoldable pub take_header : HeadLoop → ℕ → ℕ → Round
take_header l line_begin line_end =
    if leb line_begin line_end && leb (line_end - line_begin) 2
    then Round.finished (record l { read_buff = drop (line_end + 2) l.read_buff })
    else Round.again (record l {
      next = record l.next {
        headers = parse_header l.next.headers l.read_buff line_begin line_end;
      };
    })

-- The request line, at the first line that is found. The code goes on to read it as a header, too.
unfoldable pub take_line : HeadLoop → ℕ → ℕ → Result Round
unfolding take_header
take_line l line_begin line_end =
    if l.request_line_parsed
    then ok (take_header l line_begin line_end)
    else parse_request_line l.read_buff line_begin line_end >>= λ line. ok (elim line [
      | unexpected message ↦ Round.refused (bad_request message) l
      | value (method, url) ↦
          take_header
            (record l {
              next = record l.next { method = some method; url = url; headers = [] };
              request_line_parsed = true;
            })
            line_begin line_end
    ])

unfoldable pub head_round : ℕ → HeadLoop → Result Round
unfolding read_more take_line
head_round max_header_size l =
    elim (next_line l.read_buff (at_or l.chunker_seek l.reader_seek) (length l.read_buff)) [
      | none ↦ read_more max_header_size l
      | some line_end ↦
          take_line (record l { reader_seek = line_end + 2; chunker_seek = none }) l.reader_seek
            line_end
    ]

-- The outcome, and the two objects afterwards.
abbrev pub HeadOutcome : Type 0
HeadOutcome = Expected RequestHead RequestError × HeadLoop

abbrev pub merged : HeadLoop → Result HeadOutcome
merged l = merge_url_components l.next.url l.next.headers >>= λ url.
    ok (value (record l.next { url = url }), l)

unfoldable pub head_loop : ℕ → ℕ → HeadLoop → Result HeadOutcome
unfolding head_round
head_loop max_header_size zero l = merged l
head_loop max_header_size (suc checks) l = head_round max_header_size l >>= λ round. elim round [
  | Round.again l' ↦ head_loop max_header_size checks l'
  | Round.finished l' ↦ merged l'
  | Round.refused error l' ↦ ok (unexpected error, l')
]

-- The loop's variables before the first round. The head's method is not initialised.
abbrev pub head_start : Conn → Bytes → HeadLoop
head_start conn read_buff = record {
  conn = conn;
  read_buff = read_buff;
  reader_seek = 0;
  chunker_seek = none;
  total_read = 0;
  next = record { method = none; url = empty_url; headers = [] };
  request_line_parsed = false;
}

unfoldable pub read_request_head : ℕ → ℕ → Conn → Bytes → Result HeadOutcome
unfolding head_loop
read_request_head checks max_header_size conn read_buff =
    head_loop max_header_size checks (head_start conn read_buff)
