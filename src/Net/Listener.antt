-- ===== src/Net/Listener.antt =====
-- net/tcp_listen.cpp: the class TcpListener. What the system answers is an argument of each call.
use lambda.Base.{
  Bool, true, false, not, ◌&&◌, Option, none, some, Bytes, is_empty, if◌then◌else◌, Result, ok, err,
  Error,
}

-- The member m_sock: not initialised by the constructor, LAMBDA_INVALID_SOCKET, the number of a socket
-- that was closed, or that of an open one, which listens or does not.
pub data SockHandle : Type 0 where
  unset invalid stale unbound listening : SockHandle

-- Whether `socket`, `setsockopt`, `bind` and `listen` succeed.
pub record BindAnswers : Type 0 where
  pub opens : Bool
  pub reuses : Bool
  pub binds : Bool
  pub listens : Bool

-- What m_sock is behind the call, and the exception if there is one.
unfoldable pub bind_and_listen : Bool → Bytes → BindAnswers → SockHandle × Option Error
bind_and_listen fast_port_reuse bind_addr answers =
    if not answers.opens
    then (SockHandle.invalid, some Error.socket_refused)
    else if fast_port_reuse && not answers.reuses
    then (SockHandle.stale, some Error.reuse_refused)
    else if is_empty bind_addr
    then (SockHandle.unbound, some Error.bind_addr_undefined)
    else if not answers.binds
    then (SockHandle.stale, some Error.bind_refused)
    else if not answers.listens
    then (SockHandle.stale, some Error.listen_refused)
    else (SockHandle.listening, none)

abbrev pub is_listening : SockHandle → Bool
is_listening SockHandle.invalid = false
is_listening _ = true

-- What `accept` answers: a connection, or none where it fails, as it does on what does not listen.
unfoldable pub listener_next {ℓ} : {A : Type ℓ} → SockHandle → Option A → Result A
listener_next SockHandle.invalid arrival = err Error.next_closed
listener_next _ (some conn) = ok conn
listener_next _ none = err Error.accept_terminated

-- Whether `shutdown` and `close` of the number in m_sock succeed. The system is asked also about a
-- number that is not of an open socket, and answers for whatever has this number by then.
unfoldable pub shutdown_listener : Bool → Bool → SockHandle → SockHandle × Option Error
shutdown_listener stops closes sock =
    if not (is_listening sock)
    then (sock, none)
    else if not stops
    then (sock, some Error.listener_shutdown_failed)
    else if not closes
    then (sock, some Error.listener_close_failed)
    else (SockHandle.invalid, none)

-- The handle of the listener that is made, and what is left of the one it is made from.
unfoldable pub move_listener : SockHandle → SockHandle × SockHandle
move_listener other = (other, SockHandle.invalid)

-- What the destructor shuts down and closes.
unfoldable pub destroy_listener : SockHandle → Option SockHandle
destroy_listener SockHandle.invalid = none
destroy_listener sock = some sock
