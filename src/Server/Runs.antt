-- ===== src/Server/Runs.antt =====
-- Connections with a small script, and the theorems on them.
use lambda.Base.{
  ℕ, ◌+◌, ◌≤◌, true, List, [], ◌∷◌, ◌++◌, some, ◌≡◌, refl, arith, Bytes, codes, length, ok, ◌>>=◌,
  scan,
}
use lambda.Http.Values.{Values}
use lambda.Net.Conn.{Conn, Recv, receive, read, transmit, write}
use lambda.Net.Conn.Laws.{TakesUpTo, read-TakesUpTo}
use lambda.Server.Stream.{Io, new_stream, unread}
use lambda.Server.Status.{Status, table_status}
use lambda.Server.Body.{body_read, read_request_body, discard_buffered, discard_unread_body}
use lambda.Server.Body.Laws.{Frames, read_many, read_many-Frames}
use lambda.Server.Body.Discard.{discard_unread_body-Frames, discard_unread_body_once}
use lambda.Server.Head.{content_length, next_line}
use lambda.Server.Head.Loop.{
  head_start, read_request_head, head_loop, head_round, read_more, timed_out,
}
use lambda.Server.Head.Ends.{read_request_head-ends}
use lambda.Server.Writer.{
  ResponseWriter, DeferredResponse, new_writer, head_texts, write_body, write_announced, flush,
}
use lambda.Server.Writer.Bodies.{write_bodies, write_bodies_announced, flatten}
use lambda.Server.Writer.Deferred.{with_sent, flush_deferred-message}
use lambda.Server.Pipeline.{Handler, serve_requests}
use lambda.Server.Pipeline.Laws.{serve_requests-refused}

abbrev conn_of : List Recv → Conn
conn_of incoming = record {
  is_open = true;
  incoming = incoming;
  outcomes = [];
  sent = [];
  read_timeout = 15000;
  write_timeout = 15000;
  options_accepted = true;
}

abbrev four : Conn
four = conn_of (Recv.bytes (codes "abcd") ∷ [])

read-TakesUpTo_example :
    TakesUpTo 3 (codes "abcd") (codes "abc") (conn_of (Recv.bytes (codes "d") ∷ []))
unfolding read receive
read-TakesUpTo_example =
    read-TakesUpTo four 3 (codes "abc") (conn_of (Recv.bytes (codes "d") ∷ [])) refl

abbrev half_read : Io
half_read = record {
  conn = four;
  stream = record new_stream { read_buff = codes "xy"; http_body_pending = 5 };
}

abbrev after_reads : Io
after_reads = record {
  conn = conn_of (Recv.bytes (codes "bcd") ∷ []);
  stream = record new_stream { http_body_pending = 2 };
}

read_many-Frames_example : Frames half_read (codes "xya") after_reads
unfolding read_many body_read read_request_body read receive
read_many-Frames_example =
    read_many-Frames (2 ∷ 1 ∷ []) half_read (codes "xya") after_reads refl refl

abbrev after_discard : Io
after_discard = record { conn = conn_of (Recv.bytes (codes "d") ∷ []); stream = new_stream }

discard_unread_body-Frames_example :
    (dropped : Bytes) × Frames half_read dropped after_discard
    × (5 ≤ 2 → after_discard.stream.http_body_pending ≡ 0)
unfolding discard_unread_body discard_buffered read receive
discard_unread_body-Frames_example = discard_unread_body-Frames half_read after_discard refl refl

abbrev in_two : Io
in_two = record {
  conn = conn_of (Recv.bytes (codes "ab") ∷ Recv.bytes (codes "cd") ∷ []);
  stream = record new_stream { http_body_pending = 4 };
}

discard_unread_body_once_example :
    (after : Io) × (discard_unread_body in_two ≡ ok after)
    × (after.stream.http_body_pending ≡ 2)
    × (unread after ≡ codes "cd")
discard_unread_body_once_example =
    discard_unread_body_once in_two (codes "ab") (Recv.bytes (codes "cd") ∷ []) refl refl refl refl
      (omega arith) (omega arith)

read_request_head-ends_example :
    read_request_head (2052 + 5) 0 four (codes "ab") ≡ read_request_head 2052 0 four (codes "ab")
read_request_head-ends_example = read_request_head-ends 0 2052 5 four (codes "ab") (omega arith)

abbrev two_left : ResponseWriter
two_left = record (new_writer half_read) { header_written = true; announced = some 2 }

abbrev two_sent : ResponseWriter
two_sent = record two_left {
  io = record half_read { conn = record four { sent = codes "ab" } };
  body_written = 2;
}

write_bodies_announced_example :
    (sent unsent : Bytes) × (codes "abc" ≡ sent ++ unsent)
    × (codes "ab" ≡ [] ++ sent)
    × (0 + length sent ≤ 2)
unfolding write_bodies write_body write_announced write transmit
write_bodies_announced_example =
    write_bodies_announced (codes "a" ∷ codes "bc" ∷ []) two_left two_sent 2 2 (refl, refl)
      (omega arith) refl

abbrev held : DeferredResponse
held = record { headers = []; status = Status.ok; body = codes "a" }

abbrev held_writer : ResponseWriter
held_writer = record (new_writer half_read) { header_written = true; deferred = some held }

flush_deferred-message_example :
    (n : ℕ) × (w' : ResponseWriter) × (headers : Values) × ((write_bodies held_writer
          (codes "bc" ∷ [])
        >>= λ written. flush written.1)
      ≡ ok (n, w'))
    × (w'.io ≡ record held_writer.io {
      conn =
          with_sent held_writer.io.conn
            (flatten (head_texts Status.ok (codes "OK") headers) ++ codes "abc");
    })
    × (content_length headers ≡ some 3)
unfolding table_status
flush_deferred-message_example =
    flush_deferred-message (codes "bc" ∷ []) held_writer held (codes "OK") (refl, refl) refl refl
      refl (omega arith)

abbrev silent : Io
silent = record { conn = conn_of []; stream = new_stream }

abbrev echo : Handler
echo request w = ok w

serve_requests-refused_example :
    serve_requests [] 100 echo (3 ∷ 3 ∷ []) silent ≡ serve_requests [] 100 echo (3 ∷ []) silent
unfolding discard_unread_body discard_buffered read_request_head head_loop head_round read_more
    next_line scan read receive
serve_requests-refused_example =
    serve_requests-refused [] 100 3 echo (3 ∷ []) silent silent timed_out
      (head_start (conn_of []) []) refl refl
