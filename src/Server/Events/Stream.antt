-- ===== src/Server/Events/Stream.antt =====
-- http/sse.cpp: what a stream of events puts on the wire.
use lambda.Base.{
  ℕ, ◌+◌, true, false, List, [], ◌∷◌, ◌++◌, append_assoc, append-nil, none, ◌≡◌, ◌∙◌, refl, sym, ap,
  arith, Bytes, codes, length, Result, ok, ◌>>=◌, equal, scan,
}
use lambda.Dict.{find, put, erase, less}
use lambda.Http.Trim.{reset_case, trim_space, is_space}
use lambda.Http.Values.{Values, has, get, set, del}
use lambda.Server.Stream.{Io}
use lambda.Server.Status.{Status, table_status}
use lambda.Server.Writer.{
  ResponseWriter, new_writer, head_texts, write_head, write_header, write_response, write_body,
  flag_upgrade, flag_stream, utility_headers, start_response,
}
use lambda.Server.Writer.Bodies.{flatten}
use lambda.Server.Writer.Deferred.{IsReliable, write_reliable, write_texts_reliable, with_sent}
use lambda.Server.Events.{SseEvent, SseWriter, event_headers, new_events, event_text, write_event}

-- A writer of events behind its head.
abbrev streaming : Io → Values → ℕ → SseWriter
streaming io headers written = record {
  writer = record {
    io = io;
    headers = headers;
    header_written = true;
    body_written = written;
    deferred = none;
    announced = none;
  };
  m_ok = true;
}

-- One write for each event.
unfoldable pub write_events : Bytes → SseWriter → List SseEvent → Result SseWriter
write_events date s [] = ok s
write_events date s (msg ∷ later) =
    write_event date s msg >>= λ sent. write_events date sent.1 later

abbrev sent_io : Io → Bytes → Io
sent_io io text = record io { conn = with_sent io.conn text }

write_event-streaming :
    (date : Bytes) (io : Io) (headers : Values) (written : ℕ) (msg : SseEvent)
    → IsReliable io.conn
    → write_event date (streaming io headers written) msg
      ≡ ok (
        length (event_text msg),
        streaming (sent_io io (event_text msg)) headers (written + length (event_text msg)),
      )
unfolding write_event write_response write_body
write_event-streaming date io headers written msg h =
    rw (write_event, write_response, write_body, write_reliable io.conn (event_text msg) h)
      (ground (arith, h.0))

abbrev pub events_text : List SseEvent → Bytes
events_text [] = []
events_text (msg ∷ later) = event_text msg ++ events_text later

write_events-streaming :
    (date : Bytes) (msgs : List SseEvent) (io : Io) (headers : Values) (written : ℕ)
    → IsReliable io.conn
    → (n : ℕ) × (write_events date (streaming io headers written) msgs
        ≡ ok (streaming (sent_io io (events_text msgs)) headers n))
unfolding write_events
write_events-streaming date [] io headers written h = (
  written,
  ap (λ t. ok (streaming (with_text t) headers written)) (sym (append-nil io.conn.sent)),
)
  where
    with_text : Bytes → Io
    with_text t = record io { conn = record io.conn { sent = t } }
write_events-streaming date (msg ∷ later) io headers written h =
    let text = event_text msg in
    let next = written + length text in
    let (n, e) = write_events-streaming date later (sent_io io text) headers next h in
    (
      n,
      rw (write_event-streaming date io headers written msg h, e)
          (ap (λ t. ok (streaming (record io { conn = record io.conn { sent = t } }) headers n))
            (append_assoc io.conn.sent text (events_text later))),
    )

abbrev started : Io → ResponseWriter
started io = record (event_headers (new_writer io)) { header_written = true }

flag_upgrade_events : (io : Io) → flag_upgrade (started io) ≡ ok (started io)
unfolding flag_upgrade get set find put reset_case trim_space is_space scan equal less
flag_upgrade_events io = refl

-- The headers of a stream of events have no length.
abbrev pub events_headers : Bytes → Io → Values
events_headers date io = utility_headers date (flag_stream (started io))

abbrev events_stream : Io → Io
events_stream io = record io {
  stream = record io.stream { http_keep_alive = false; stream_response = true };
}

flag_stream_events :
    (date : Bytes) (io : Io)
    → record (flag_stream (started io)) { headers = events_headers date io }
      ≡ (streaming (events_stream io) (events_headers date io) 0).writer
unfolding flag_stream get set del find put erase reset_case trim_space is_space scan equal less
flag_stream_events date io = refl

no_length : (date : Bytes) (io : Io) → get (events_headers date io) (codes "content-length") ≡ []
unfolding utility_headers flag_stream has get set del find put erase reset_case trim_space is_space
    scan equal less
no_length date io = refl

start_response_events :
    (io : Io) (headers : Values)
    → IsReliable io.conn
    → io.stream.stream_response ≡ true
    → get headers (codes "content-length") ≡ []
    → (n : ℕ) × (start_response Status.ok (streaming io headers 0).writer
        ≡ ok (
          n,
          (streaming
              (sent_io io (flatten (head_texts Status.ok (codes "OK") headers)))
              headers
              0).writer,
        ))
unfolding start_response write_head table_status
start_response_events io headers h streams bare =
    let head = head_texts Status.ok (codes "OK") headers in
    (
      length (flatten head),
      rw (start_response, bare, write_head, write_texts_reliable head io.conn h)
          (ground (arith, streams)),
    )

write_header_events :
    (date : Bytes) (io : Io)
    → IsReliable io.conn
    → (n : ℕ) × (write_header date (event_headers (new_writer io)) Status.ok
        ≡ ok (
          n,
          (streaming
              (sent_io
                (events_stream io)
                (flatten (head_texts Status.ok (codes "OK") (events_headers date io))))
              (events_headers date io)
              0).writer,
        ))
unfolding write_header
write_header_events date io h =
    let (n, e) =
      start_response_events (events_stream io) (events_headers date io) h refl
        (no_length date io) in
    (
      n,
      rw (write_header, flag_upgrade_events io)
          (ap (λ w. start_response Status.ok w) (flag_stream_events date io) ∙ e),
    )

-- A stream of events on a connection that takes every write as a whole is its head, which announces
-- no length, and then the texts of the events in the order in which they are written. No write of an
-- event throws.
pub write_events-text :
    (date : Bytes) (msgs : List SseEvent) (io : Io)
    → IsReliable io.conn
    → (s : SseWriter) × (headers : Values) × ((new_events date (new_writer io) >>= λ opened.
          write_events date opened msgs)
        ≡ ok s)
      × (s.writer.io.conn.sent
          ≡ io.conn.sent
            ++ (flatten (head_texts Status.ok (codes "OK") headers) ++ events_text msgs))
      × (get headers (codes "content-length") ≡ [])
unfolding new_events
write_events-text date msgs io h =
    let headers = events_headers date io in
    let head = flatten (head_texts Status.ok (codes "OK") headers) in
    let (k, e) = write_header_events date io h in
    let (n, later) =
      write_events-streaming date msgs (sent_io (events_stream io) head) headers 0 h in
    (
      streaming (sent_io (sent_io (events_stream io) head) (events_text msgs)) headers n,
      headers,
      rw e later,
      append_assoc io.conn.sent head (events_text msgs),
      no_length date io,
    )
