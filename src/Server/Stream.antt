-- ===== src/Server/Stream.antt =====
-- server/pipelines.hpp: the state of one connection's stream, and the connection under it.
use lambda.Base.{ℕ, Bool, true, false, ◌++◌, Bytes, []}
use lambda.Net.Conn.{Conn}
use lambda.Net.Conn.Laws.{arriving}

pub record StreamState : Type 0 where
  pub read_buff : Bytes
  pub http_body_pending : ℕ
  pub http_keep_alive : Bool
  pub raw_io : Bool
  pub stream_response : Bool

abbrev pub new_stream : StreamState
new_stream = record {
  read_buff = [];
  http_body_pending = 0;
  http_keep_alive = true;
  raw_io = false;
  stream_response = false;
}

-- The two objects that the readers and writers of a request hold references to.
pub record Io : Type 0 where
  pub conn : Conn
  pub stream : StreamState

-- All bytes that are still to be read, buffered or not.
abbrev pub unread : Io → Bytes
unread io = io.stream.read_buff ++ arriving io.conn.incoming
