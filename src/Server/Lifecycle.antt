-- ===== src/Server/Lifecycle.antt =====
-- server/server.cpp: the class Server from its construction to its shutdown, as steps on its members.
-- The thread of a connection runs `serve_conn`, with the exit flag as what `ctx.done()` says.
use lambda.Base.{
  ℕ, ◌+◌, Bool, true, false, not, Option, none, some, ◌≡◌, arith, Bytes, if◌then◌else◌, Result, ok,
  err, Error, is_empty, ◌&&◌,
}
use lambda.Net.Listener.{
  SockHandle, BindAnswers, bind_and_listen, is_listening, listener_next, shutdown_listener,
  destroy_listener,
}
use lambda.Http.Values.{is_some}
use lambda.Server.Bind.{parse_bind_addr}

-- `looping` tells whether the loop of `serve` runs.
pub record Server : Type 0 where
  pub m_active : Bool
  pub m_exit : Bool
  pub m_tcp : SockHandle
  pub looping : Bool
  pub connections : ℕ

-- The constructors, which want a handler.
unfoldable pub new_server : Bool → Result Server
new_server has_handler =
    if has_handler
    then ok (record {
      m_active = false;
      m_exit = false;
      m_tcp = SockHandle.unset;
      looping = false;
      connections = 0;
    })
    else err Error.handler_missing

-- The listener's handle and its exception, put into the server. The loop begins if there is none.
abbrev pub with_listener : Server → SockHandle × Option Error → Server × Option Error
with_listener s (sock, none) = (record s { m_tcp = sock; looping = true }, none)
with_listener s (sock, some e) = (record s { m_tcp = sock }, some e)

-- `fast_port_reuse` is set. An exception leaves the server active.
unfoldable pub serve : Bytes → BindAnswers → Server → Server × Option Error
serve host_addr answers s =
    let started = record s { m_active = true; m_exit = false } in
    if s.m_active then (s, some Error.already_running) else elim (parse_bind_addr host_addr) [
      | err e ↦ (started, some e)
      | ok bind_addr ↦ with_listener started (bind_and_listen true bind_addr answers)
    ]

-- A connection is handed to its thread. An exception of the listener ends the loop, since the test is
-- one of the pointer to the exit flag.
abbrev pub after_next : Server → Result ℕ → Server
after_next s (ok conn) = record s { connections = s.connections + 1 }
after_next s (err e) = record s { looping = false }

-- One round of the loop.
unfoldable pub next_connection : Option ℕ → Server → Server
unfolding listener_next
next_connection arrival s =
    if not (is_listening s.m_tcp)
    then record s { looping = false }
    else after_next s (listener_next s.m_tcp arrival)

-- Behind the listener's shutdown the loop is waited for; an exception of it leaves the rest undone.
abbrev pub after_shutdown : Server → SockHandle × Option Error → Server × Option Error
after_shutdown s (sock, none) =
    (record s { m_exit = true; m_tcp = sock; looping = false; m_active = false }, none)
after_shutdown s (sock, some e) = (record s { m_exit = true; m_tcp = sock }, some e)

unfoldable pub shutdown : Bool → Bool → Server → Server × Option Error
unfolding shutdown_listener
shutdown stops closes s =
    if not s.m_active then (s, none) else after_shutdown s (shutdown_listener stops closes s.m_tcp)

-- How the life of a server ends: with the program, or with the handle that is closed at last.
pub data End : Type 0 where
  terminated : End
  released : Option SockHandle → End

abbrev pub after_last : Server × Option Error → End
after_last (s, none) = End.released (destroy_listener s.m_tcp)
after_last (s, some e) = End.terminated

-- The destructor, which shuts the server down, and then that of its member m_tcp. An exception in a
-- destructor terminates the program.
unfoldable pub destroy_server : Bool → Bool → Server → End
unfolding shutdown destroy_listener
destroy_server stops closes s = after_last (shutdown stops closes s)

infix 40 ◌⟶◌ ◌⟶*◌
pub data ◌⟶◌ : Server → Server → Type 0 where
  serves :
      {s : Server} (host_addr : Bytes) (answers : BindAnswers) → s ⟶ (serve host_addr answers s).0
  takes : {s : Server} (arrival : Option ℕ) → s.looping ≡ true → s ⟶ next_connection arrival s
  shuts : {s : Server} (stops closes : Bool) → s ⟶ (shutdown stops closes s).0

pub data ◌⟶*◌ : Server → Server → Type 0 where
  stay : {s : Server} → s ⟶* s
  onward : {s t u : Server} → s ⟶ t → t ⟶* u → s ⟶* u

-- Whether the handle is of no socket that the server has opened.
abbrev owns_none : SockHandle → Bool
owns_none SockHandle.unset = true
owns_none SockHandle.invalid = true
owns_none _ = false

-- The loop runs on a listening socket only, and an inactive server has no socket and no loop.
pub record IsSound (s : Server) : Type 0 where
  pub looping_listens : s.looping ≡ true → s.m_tcp ≡ SockHandle.listening
  pub inactive_owns_none : s.m_active ≡ false → owns_none s.m_tcp ≡ true
  pub inactive_idle : s.m_active ≡ false → s.looping ≡ false

serves-IsSound :
    (s : Server) (host_addr : Bytes) (answers : BindAnswers)
    → IsSound s
    → IsSound (serve host_addr answers s).0
unfolding serve bind_and_listen
serves-IsSound s host_addr answers h = ground (arith, h)

takes-IsSound : (s : Server) (arrival : Option ℕ) → IsSound s → IsSound (next_connection arrival s)
unfolding next_connection listener_next
takes-IsSound s arrival h = ground (arith, h)

stops-IsSound : (s : Server) (stops closes : Bool) → IsSound s → IsSound (shutdown stops closes s).0
unfolding shutdown shutdown_listener
stops-IsSound s stops closes h = ground (arith, h)

step-IsSound : {s t : Server} → s ⟶ t → IsSound s → IsSound t
step-IsSound (serves {s} host_addr answers) h = serves-IsSound s host_addr answers h
step-IsSound (takes {s} arrival running) h = takes-IsSound s arrival h
step-IsSound (shuts {s} stops closes) h = stops-IsSound s stops closes h

run-IsSound : {s t : Server} → s ⟶* t → IsSound s → IsSound t
run-IsSound stay h = h
run-IsSound (onward step more) h = run-IsSound more (step-IsSound step h)

-- From its construction on, whatever is called and whatever the system answers, the loop of a server
-- runs on a listening socket only, and a server that is not active has no socket and no loop. While it
-- listens, a shutdown that the system accepts leaves it inactive, with the exit flag set, without a
-- socket and without a loop, and its destructor leaves nothing to close.
pub reachable-IsSound :
    (s t : Server)
    → new_server true ≡ ok s
    → s ⟶* t
    → IsSound t
      × (t.m_tcp ≡ SockHandle.listening
          → shutdown true true t ≡ (
            record t {
              m_active = false;
              m_exit = true;
              m_tcp = SockHandle.invalid;
              looping = false;
            },
            none,
          )
            × destroy_server true true t ≡ End.released none)
unfolding new_server shutdown shutdown_listener destroy_server destroy_listener
reachable-IsSound s t made run =
    let start : IsSound s = ground (arith, made) in
    let h = run-IsSound run start in
    (h, λ listens. (ground (arith, h, listens), ground (arith, h, listens)))

-- Whether the system accepts all that it is asked for.
abbrev pub accepted : BindAnswers → Bool
accepted answers = answers.opens && answers.reuses && answers.binds && answers.listens

module _ (s : Server) (host_addr bind_addr : Bytes) (answers : BindAnswers) (sound : IsSound s)
    (idle : s.m_active ≡ false) (address : parse_bind_addr host_addr ≡ ok bind_addr)
    (full : is_empty bind_addr ≡ false) where
  abbrev served : Server × Option Error
  served = serve host_addr answers s

  -- A server with the invariant, which is not active, is told to serve on an address that is accepted
  -- by the parser and not empty. The loop begins if the system accepts all that it is asked for, and
  -- otherwise there is an exception. In both cases the server is active, a further `serve` throws and
  -- changes nothing, and the listener says that it listens unless the socket could not be opened: if
  -- `bind` is refused, too. A shutdown then throws and leaves the server active, and the destructor
  -- terminates the program, just if a socket was opened and the system refuses to shut down or to
  -- close its number, also where that socket was refused. Otherwise the shutdown leaves the server
  -- inactive, without a socket and without a loop, and the destructor leaves nothing to close.
  pub shutdown-serve :
      (stops closes : Bool) (other_addr : Bytes) (other_answers : BindAnswers)
      → (served.0.looping ≡ accepted answers)
        × (is_some served.1 ≡ not (accepted answers))
        × (serve other_addr other_answers served.0 ≡ (served.0, some Error.already_running))
        × (is_listening served.0.m_tcp ≡ answers.opens)
        × (shutdown stops closes served.0 ≡ (
            if answers.opens && not (stops && closes)
            then (
              record served.0 { m_exit = true },
              some (if stops then Error.listener_close_failed else Error.listener_shutdown_failed),
            )
            else (
              record served.0 {
                m_active = false;
                m_exit = true;
                m_tcp = SockHandle.invalid;
                looping = false;
              },
              none,
            )))
        × (destroy_server stops closes served.0 ≡ (
            if answers.opens && not (stops && closes) then End.terminated else End.released none))
  unfolding serve bind_and_listen shutdown shutdown_listener destroy_server destroy_listener
  shutdown-serve stops closes other_addr other_answers = (
    ground (arith, idle, sound, address, full),
    ground (arith, idle, sound, address, full),
    ground (arith, idle, sound, address, full),
    ground (arith, idle, sound, address, full),
    ground (arith, idle, sound, address, full),
    ground (arith, idle, sound, address, full),
  )
