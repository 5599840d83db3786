-- ===== src/Server/Checks.antt =====
-- The server's start and end, its address, and streams of events, at concrete inputs.
use lambda.Base.{
  true, false, [], ◌∷◌, ◌++◌, none, some, ◌≡◌, refl, arith, codes, ok, err, Error, ◌>>=◌,
}
use lambda.Http.Values.{Values, get, is_some}
use lambda.Net.Conn.{Conn}
use lambda.Server.Status.{Status}
use lambda.Server.Stream.{Io, new_stream}
use lambda.Server.Writer.{new_writer, head_texts}
use lambda.Server.Writer.Bodies.{flatten}
use lambda.Server.Bind.{parse_bind_addr}
use lambda.Server.Bind.Octets.{parse_bind_addr-dotted, dotted}
use lambda.Net.Listener.{SockHandle, BindAnswers, bind_and_listen, is_listening, listener_next}
use lambda.Server.Lifecycle.{
  Server, new_server, serve, next_connection, shutdown, End, destroy_server, ◌⟶*◌, serves, takes,
  stay, onward, IsSound, reachable-IsSound, shutdown-serve,
}
use lambda.Server.Events.{SseEvent, SseWriter, new_events, event_text}
use lambda.Server.Events.Stream.{write_events, events_text, write_events-text}

parse_bind_addr-dotted_example :
    parse_bind_addr (dotted 127 0 0 256) ≡ err Error.bind_address_invalid
parse_bind_addr-dotted_example =
    parse_bind_addr-dotted 127 0 0 256 (omega arith) (omega arith) (omega arith) (omega arith)

abbrev fresh : Server
fresh = record {
  m_active = false;
  m_exit = false;
  m_tcp = SockHandle.unset;
  looping = false;
  connections = 0;
}

abbrev granted : BindAnswers
granted = record { opens = true; reuses = true; binds = true; listens = true }

abbrev serving : Server
serving = record fresh {
  m_active = true;
  m_tcp = SockHandle.listening;
  looping = true;
  connections = 1;
}

one_served : fresh ⟶* serving
unfolding serve next_connection parse_bind_addr bind_and_listen listener_next
one_served = onward (serves [] granted) (onward (takes (some 0) refl) stay)

reachable-IsSound_example :
    IsSound serving
    × (SockHandle.listening ≡ SockHandle.listening
        → shutdown true true serving ≡ (
          record serving {
            m_active = false;
            m_exit = true;
            m_tcp = SockHandle.invalid;
            looping = false;
          },
          none,
        )
          × destroy_server true true serving ≡ End.released none)
unfolding new_server
reachable-IsSound_example = reachable-IsSound fresh serving refl one_served

fresh-IsSound : IsSound fresh
fresh-IsSound = record {
  looping_listens = λ e. absurd (cc);
  inactive_owns_none = λ e. refl;
  inactive_idle = λ e. refl;
}

-- The address is in use.
abbrev taken : BindAnswers
taken = record granted { binds = false }

abbrev refused : Server
refused = (serve [] taken fresh).0

shutdown-serve_example :
    (refused.looping ≡ false)
    × (is_some (serve [] taken fresh).1 ≡ true)
    × (serve [] granted refused ≡ (refused, some Error.already_running))
    × (is_listening refused.m_tcp ≡ true)
    × (shutdown false true refused
        ≡ (record refused { m_exit = true }, some Error.listener_shutdown_failed))
    × (destroy_server false true refused ≡ End.terminated)
unfolding parse_bind_addr
shutdown-serve_example =
    shutdown-serve fresh [] (codes "0.0.0.0") taken fresh-IsSound refl refl refl false true []
      granted

-- A server whose address was refused is active, and cannot be started again.
start_refused :
    serve [] granted (serve (codes "host") granted fresh).0
    ≡ ((serve (codes "host") granted fresh).0, some Error.already_running)
unfolding serve parse_bind_addr
start_refused = refl

abbrev idle : Conn
idle = record {
  is_open = true;
  incoming = [];
  outcomes = [];
  sent = [];
  read_timeout = 15000;
  write_timeout = 15000;
  options_accepted = true;
}

abbrev io : Io
io = record { conn = idle; stream = new_stream }

abbrev tick : SseEvent
tick = record { event = some (codes "tick"); text = codes "1"; id = none; retry = none }

tick_text : event_text tick ≡ codes "event: tick\r\ndata: 1\r\n\r\n"
unfolding event_text
tick_text = refl

write_events-text_example :
    (s : SseWriter) × (headers : Values) × ((new_events (codes "now") (new_writer io) >>= λ opened.
    write_events (codes "now") opened (tick ∷ tick ∷ []))
      ≡ ok s)
    × (s.writer.io.conn.sent
        ≡ []
          ++ (flatten (head_texts Status.ok (codes "OK") headers)
              ++ events_text (tick ∷ tick ∷ [])))
    × (get headers (codes "content-length") ≡ [])
write_events-text_example = write_events-text (codes "now") (tick ∷ tick ∷ []) io (refl, refl)
