-- ===== src/Ws/Tests.antt =====
-- Frames and messages at concrete inputs.
use lambda.Base.{
  true, false, List, take, drop, [], ◌∷◌, ◌++◌, none, some, ◌≡◌, refl, arith, codes, ok,
}
use lambda.Net.Conn.{Conn, Recv, read, receive}
use lambda.Server.Stream.{Io, new_stream}
use lambda.Server.Body.{body_read, read_raw_body}
use lambda.Server.Writer.{new_writer}
use lambda.Ws.{
  Opcode, FrameBit, IncomingFrame, parse_frame, frame_byte, opcode_byte, unmask, frame_of,
  opcode_of, frame_length, unpack_paylen, unpack_mask,
}
use lambda.Ws.Client.{ClientMessage, client_bytes, stream_of, Reads, Reads-stream_of}
use lambda.Ws.Pieces.{received, next-received}
use lambda.Ws.Socket.{Websocket, next, next_head, next_payload}

abbrev idle : Conn
idle = record {
  is_open = false;
  incoming = [];
  outcomes = [];
  sent = [];
  read_timeout = 100;
  write_timeout = 15000;
  options_accepted = false;
}

abbrev socket : Websocket
socket = record {
  multipart = none;
  read_buff = [];
  writer = new_writer (record { conn = idle; stream = new_stream });
  closed = false;
}

abbrev greeting : ClientMessage
greeting = record {
  key0 = 1;
  key1 = 2;
  key2 = 3;
  key3 = 255;
  code = Opcode.text;
  payload = codes "hello";
}

abbrev farewell : ClientMessage
farewell = record { key0 = 9; key1 = 8; key2 = 7; key3 = 6; code = Opcode.ping; payload = [] }

abbrev two_messages : List ClientMessage
two_messages = greeting ∷ farewell ∷ []

Reads-stream_of_example :
    Reads
      (record socket { read_buff = stream_of two_messages ++ codes "x"; multipart = none })
      two_messages
      (record socket { read_buff = codes "x"; multipart = none })
Reads-stream_of_example = Reads-stream_of two_messages (codes "x") socket (omega arith, omega arith)

-- The last three bytes of the greeting are still to come.
abbrev waiting : Websocket
waiting = record socket {
  read_buff = take 8 (client_bytes greeting);
  writer = new_writer (record {
    conn = record idle {
      is_open = true;
      incoming = Recv.bytes (drop 8 (client_bytes greeting) ++ codes "next") ∷ [];
    };
    stream = record new_stream { raw_io = true };
  });
}

abbrev greeting_head : IncomingFrame
greeting_head = record {
  head = record { frame = FrameBit.final; code = Opcode.text; payload = [] };
  next_seek = 6;
  payload_len = 5;
  mask = some (1 ∷ 2 ∷ 3 ∷ 255 ∷ []);
}

abbrev rest_come : Io
rest_come = record {
  conn = record idle { is_open = true; incoming = Recv.bytes (codes "next") ∷ [] };
  stream = record new_stream { raw_io = true };
}

next-received_example :
    next waiting ≡ next (received waiting (drop 8 (client_bytes greeting)) rest_come)
unfolding parse_frame frame_byte opcode_byte body_read read receive frame_of opcode_of frame_length
    unpack_paylen unpack_mask read_raw_body
next-received_example =
    next-received waiting greeting_head (drop 8 (client_bytes greeting)) rest_come refl refl
      (omega arith) refl refl (omega arith) refl

greeting_in_two_pieces :
    next waiting
    ≡ ok (
      some (record { frame = FrameBit.final; code = Opcode.text; payload = codes "hello" }),
      record waiting { read_buff = []; writer = record waiting.writer { io = rest_come } },
    )
unfolding next next_head next_payload parse_frame frame_byte opcode_byte body_read read receive
    unmask frame_of opcode_of frame_length unpack_paylen unpack_mask read_raw_body
greeting_in_two_pieces = refl
