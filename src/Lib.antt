-- ===== src/Lib.antt =====
-- A verification library for lambda, an HTTP/1.1 server library in C++. Paths below are those of the
-- repository.
--
-- The program. A server accepts connections (server/server.cpp, net/tcp_listen.cpp) and hands each to
-- `serve_conn` of server/pipeline_h1.cpp. That reads one request after the other: the head from the
-- connection and a read buffer (server/pipeline_h1_rx.cpp), with the parsers of http/; then it calls the
-- user's handler with a reader of the body and a writer of the response (server/pipeline_h1_tx.cpp), and
-- flushes the writer. A handler may upgrade the connection to a web socket (ws/websocket.cpp). Reader, writer and pipeline share the connection (net/tcp_conn.cpp) and the state
-- of its stream. base64/ serves the credentials of http/basic_auth.cpp.
--
-- The modules.
--   Base          what all others share: Boolean tests, lists, bits, the index loops of the source (Scan),
--                 exceptions as values (Errors), numbers as decimal text (Decimal, Integers).
--   Base64        base64/base64.cpp: `encode`, `decode`, `valid` and their tables.
--   Dict          `std::map` with strings as keys, as a sorted association list.
--   Http.Trim     `trim_space` and `reset_case` of http/values.cpp; Http.Values the container `Values`.
--   Http.Method   http/method.cpp. Http.Uri: http/url_encode.cpp. Http.Search: http/url_search_params.cpp.
--   Http.Date     http/date.cpp, with what it uses of the C library's calendar.
--   Http.Cookie   http/cookie.cpp. Http.Auth: http/basic_auth.cpp. Http.Url: http/url.cpp.
--   Net.Listener  `TcpListener` of net/tcp_listen.cpp: `bind_and_listen`, `next`, `shutdown`,
--                 the move and the destructor.
--   Net.Conn      `TcpConnection` of net/tcp_conn.cpp: `read`, `write`, `set_timeouts`, `close`.
--   Server.Stream `StreamState` of server/pipelines.hpp, and `Io`: the connection and the stream that the
--                 objects of a request hold references to. Each operation takes an `Io` and returns it.
--   Server.Body   `read_request_body`, `read_raw_body`, `RequestBodyReader` and `discard_unread_body`.
--   Server.Head   the parsers of request lines and header lines. Server.Head.Loop: `read_request_head`.
--   Server.Status the enum `Status` and `table_status`.
--   Server.Writer `write_head` and `ResponseWriter`.
--   Server.Pipeline  `serve_request` and `serve_conn`.
--   Server.Events http/sse.cpp on the writer. Server.Bind and Server.Lifecycle: server/server.cpp, the address
--                 and the states of a server with its listener.
--   Fs            fs/: Fs.File the files of a directory, Fs.Mimetypes `infer_mimetype`, Fs.Range `get_range`,
--                 Fs.Static the handler of static files.
--   Log           log/fmt.cpp.
--   Json          json/: Json.Property the class `Property`, Json.Entries `get_object_entries`, Json.Strings
--                 `parse_string`, Json.Parse the other parsers, Json.Stringify the printer.
--   Ws            ws/websocket.cpp: frames; Ws.Socket the class `Websocket`, on the reader and the writer.
--                 Ws.Client: the frames that a client sends.
-- Modules below these hold proofs and are named for what they prove; Tests and Runs hold runs of the
-- code and the theorems at concrete inputs.
--
-- How the code is modelled.
--   A byte is a natural number, and text is a list of bytes. Where a theorem needs bytes to be below 256
--   it says so. Sizes and indices are natural numbers; no sum of two of them comes near 2^64 while the
--   buffers fit into memory. Differences are written with subtraction that stops at 0, and a comment says
--   why the source's does not wrap, or a test stands in front of it.
--   A `for` loop over an index is a search over a range (`first_in` of Base.Scan) or a recursion on the
--   rounds left, whose number is that of the source's bounds.
--   An exception is `err` with one constructor of `Error` for each message, and an access that C++ leaves
--   undefined is `Error.fault`. `std::expected` is `Expected`. Code that throws returns no state: what a
--   handler could see after it has caught an exception of the writer is not modelled.
--   What the system answers to `recv` and `send` is a script that the connection carries, so that a
--   theorem about all connections is one about all answers in all orders. A `send` that takes a part of
--   the bytes throws, since it leaves no error code of a lost peer behind. `setsockopt` accepts or refuses
--   all options of a connection.
--   The one loop without a bound, `read_request_head`, asks `ctx.done()` in each round; the model is told
--   how often that says no. It is proved how many rounds are enough for the loop to end by itself.
--   `serve_conn` is told so for each request. `parse_range` of json/ calls itself on fuel, one more than the
--   length of the text; it is proved that this does not run out.
--   A `long double` is a parameter, as are `std::stold` and `std::to_string` of it.
--   The handler is an argument, any function on the request and the writer. So are the texts of dates
--   where they are used, for which Http.Date has the function, and the digest that a web socket's
--   handshake takes from hash/sha1.cpp.
--   What the file system answers is an argument, and a file does not change while it is served.
--   What is logged in debug mode is left out, as are the addresses and numbers of connections.
--
-- Not modelled: the wrappers of net/net_os.hpp around calls of the system; hash/sha1.cpp, adapted from
-- another project; the table of fs/mimetypes.cpp, borrowed from another project, and the generated page
-- for missing paths, which are arguments; the examples, the tests and utils/.
mod Base
pub mod Dict
pub mod Base64
pub mod Http
pub mod Net
pub mod Server
pub mod Ws
pub mod Json
pub mod Fs
pub mod Log
