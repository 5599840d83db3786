-- ===== src/Server/Events.antt =====
-- http/sse.cpp: the class SSEWriter on a writer of responses.
pub mod Stream
use lambda.Base.{
  ℕ, Bool, true, false, not, ◌&&◌, [], ◌∷◌, ◌++◌, Option, none, some, Bytes, codes, if◌then◌else◌,
  Result, ok, err, Error, ◌>>=◌,
}
use lambda.Base.Decimal.{to_decimal}
use lambda.Server.Status.{Status}
use lambda.Server.Writer.{ResponseWriter, line_break, write_header, write_response}
use lambda.Server.Pipeline.{with_header}

pub record SseEvent : Type 0 where
  pub event : Option Bytes
  pub text : Bytes
  pub id : Option Bytes
  pub retry : Option ℕ

pub record SseWriter : Type 0 where
  pub writer : ResponseWriter
  pub m_ok : Bool

abbrev pub event_headers : ResponseWriter → ResponseWriter
event_headers w =
    with_header
      (with_header (with_header w (codes "connection") (codes "keep-alive")) (codes "cache-control")
        (codes "no-cache"))
      (codes "content-type") (codes "text/event-stream")

unfoldable pub new_events : Bytes → ResponseWriter → Result SseWriter
new_events date w = write_header date (event_headers w) Status.ok >>= λ started.
    ok (record { writer = started.1; m_ok = true })

abbrev pub field : Bytes → Bytes → Bytes
field name value = name ++ (codes ": " ++ (value ++ line_break))

abbrev pub optional_field : Bytes → Option Bytes → Bytes
optional_field name none = []
optional_field name (some value) = field name value

abbrev pub retry_text : Option ℕ → Option Bytes
retry_text none = none
retry_text (some n) = some (to_decimal n)

unfoldable pub event_text : SseEvent → Bytes
event_text msg =
    optional_field (codes "event") msg.event
    ++ (optional_field (codes "id") msg.id
        ++ (field (codes "data") msg.text
            ++ (optional_field (codes "retry") (retry_text msg.retry) ++ line_break)))

abbrev pub is_writable : SseWriter → Bool
is_writable s = s.m_ok && s.writer.io.conn.is_open

-- The writer, put back.
abbrev pub rewritten : SseWriter → ℕ × ResponseWriter → Result (ℕ × SseWriter)
rewritten s (n, w) = ok (n, record s { writer = w })

unfoldable pub write_event : Bytes → SseWriter → SseEvent → Result (ℕ × SseWriter)
unfolding event_text
write_event date s msg =
    if not (is_writable s)
    then err Error.events_closed
    else write_response date s.writer (event_text msg) >>= rewritten s

abbrev pub close_event : SseEvent
close_event = record { event = some (codes "close"); text = []; id = none; retry = none }

-- Closing does not clear `m_ok`.
unfoldable pub close_events : Bytes → SseWriter → Result (ℕ × SseWriter)
unfolding write_event
close_events date s = if not (is_writable s) then ok (0, s) else write_event date s close_event

-- The destructor, which drops what closing throws. The state before is kept then, since an exception does
-- not tell what is left of the writer.
unfoldable pub destroy_events : Bytes → SseWriter → SseWriter
destroy_events date s = elim (close_events date s) [ ok (n, after) ↦ after | err e ↦ s ]
