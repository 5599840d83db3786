-- ===== src/Net/Conn.antt =====
-- net/tcp_conn.cpp: `TcpConnection`. What the system calls `recv`, `send` and `setsockopt` answer is
-- no code of the library: it is a script that the connection carries. `recv` hands over at most as
-- many bytes as it is asked for, and the rest of what arrived stays for the next call.
pub mod Laws
use lambda.Base.{
  ℕ, ◌≤◌, Bool, true, false, not, ◌&&◌, ◌||◌, List, [], ◌∷◌, ◌++◌, Option, Bytes, ◌==◌, leb,
  if◌then◌else◌, length, is_empty, take, drop, Result, ok, err, Error,
}

-- An answer of `recv`: bytes that arrived, an orderly end, a time-out, a lost peer, another error.
pub data Recv : Type 0 where
  bytes : Bytes → Recv
  finished timed_out disconnected failed : Recv

-- An answer of `send`: all bytes taken, only so many of them, a lost peer.
pub data Send : Type 0 where
  complete : Send
  short : ℕ → Send
  gone : Send

-- `open` is `m_sock != LAMBDA_INVALID_SOCKET`, and `sent` what the peer was sent.
pub record Conn : Type 0 where
  pub is_open : Bool
  pub incoming : List Recv
  pub outcomes : List Send
  pub sent : Bytes
  pub read_timeout : ℕ
  pub write_timeout : ℕ
  pub options_accepted : Bool

unfoldable pub close : Conn → Conn
close c = record c { is_open = false }

-- The connection that is made by a move, and what is left of the one it is made from.
unfoldable pub move_conn : Conn → Conn × Conn
move_conn other = (other, record other { is_open = false })

-- The destructor: what is open is shut down and closed.
unfoldable pub destroy_conn : Conn → Conn
destroy_conn c = if not c.is_open then c else record c { is_open = false }

-- What `recv` has not handed over stays in front.
abbrev pub push_back : Bytes → List Recv → List Recv
push_back [] rest = rest
push_back (b ∷ bs) rest = Recv.bytes (b ∷ bs) ∷ rest

-- The branches of `read` on the answer of `recv`. A script that has run out is a time-out.
unfoldable pub receive : Conn → ℕ → List Recv → Result (Bytes × Conn)
unfolding close
receive c n [] = ok ([], c)
receive c n (Recv.bytes bs ∷ rest) =
    let remaining = record c { incoming = push_back (drop n bs) rest } in
    if is_empty (take n bs) then ok ([], close remaining) else ok (take n bs, remaining)
receive c n (Recv.finished ∷ rest) = ok ([], close (record c { incoming = rest }))
receive c n (Recv.timed_out ∷ rest) = ok ([], record c { incoming = rest })
receive c n (Recv.disconnected ∷ rest) = ok ([], close (record c { incoming = rest }))
receive c n (Recv.failed ∷ rest) = err Error.read_failed

unfoldable pub read : Conn → ℕ → Result (Bytes × Conn)
read c n = if not c.is_open then err Error.read_closed else receive c n c.incoming

-- The branches of `write` on the answer of `send`. A short count leaves no error code of a lost
-- peer behind, and throws.
unfoldable pub transmit : Conn → Bytes → List Send → Result (ℕ × Conn)
unfolding close
transmit c buf [] = ok (length buf, record c { sent = c.sent ++ buf })
transmit c buf (Send.complete ∷ rest) =
    ok (length buf, record c { sent = c.sent ++ buf; outcomes = rest })
transmit c buf (Send.short k ∷ rest) =
    if leb (length buf) k
    then ok (length buf, record c { sent = c.sent ++ buf; outcomes = rest })
    else err Error.write_failed
transmit c buf (Send.gone ∷ rest) = ok (0, close (record c { outcomes = rest }))

unfoldable pub write : Conn → Bytes → Result (ℕ × Conn)
unfolding transmit
write c buf = if not c.is_open then err Error.write_closed else transmit c buf c.outcomes

-- A changed value goes to `setsockopt` first, whose refusal throws.
unfoldable pub set_timeouts : Conn → ℕ → ℕ → Result Conn
set_timeouts c read_ms write_ms =
    let unchanged = read_ms == c.read_timeout && write_ms == c.write_timeout in
    if not c.is_open
    then err Error.timeouts_closed
    else if leb read_ms 0
    then err Error.timeouts_invalid
    else if leb write_ms 0
    then err Error.timeouts_invalid
    else if c.options_accepted || unchanged
    then ok (record c { read_timeout = read_ms; write_timeout = write_ms })
    else err Error.timeouts_refused
