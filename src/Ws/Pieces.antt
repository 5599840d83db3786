-- ===== src/Ws/Pieces.antt =====
-- A frame of which a part has not come yet: `next` asks the connection for the rest.
use lambda.Base.{
  ℕ, ◌+◌, ◌-◌, ◌<◌, ◌≤◌, true, false, [], ◌++◌, none, some, ◌≡◌, ◌∙◌, refl, ap, arith, inl, inr,
  Option, Bytes, ◌==◌, ltb, leb, if◌then◌else◌, length, length-append, bit_and, byte_at,
  byte_at-append, is_empty, take, drop, slice, Bool-cases, Option-cases, take_within, drop_within,
  take_all, drop_all, length-drop, >>=-eq-ok, ok,
}
use lambda.Net.Conn.{read}
use lambda.Server.Stream.{Io}
use lambda.Server.Body.{body_read, read_raw_body, from_conn, length_unknown}
use lambda.Server.Body.Laws.{from_conn-Takes}
use lambda.Ws.{
  Opcode, FrameBit, IncomingFrame, unpack_paylen, unpack_mask, frame_mask, frame_length,
  parse_frame, frame_of, opcode_of,
}
use lambda.Ws.Socket.{Websocket, next_head, next_payload, next}

-- A head that is whole is read alike however much follows it.
module _ (buff more : Bytes) where
  unpack_paylen-append :
      (n end : ℕ)
      → unpack_paylen buff 2 ≡ ok (some (n, end))
      → (unpack_paylen (buff ++ more) 2 ≡ ok (some (n, end))) × (end ≤ length buff)
  unfolding unpack_paylen
  unpack_paylen-append n end h = ground (
    arith,
    h,
    length-append buff more,
    byte_at-append buff more 1,
    byte_at-append buff more 2,
    byte_at-append buff more 3,
  )

  unpack_mask-append :
      (s : ℕ) (found : Bytes × ℕ)
      → unpack_mask buff s ≡ some found
      → (unpack_mask (buff ++ more) s ≡ some found) × (found.1 ≤ length buff)
  unfolding unpack_mask
  unpack_mask-append s found h = elim (Bool-cases (ltb (length buff) (s + 4))) [
    | inl e ↦ absurd (ground (arith, e, h))
    | inr e ↦
        let fits : s + 4 ≤ length buff = ground (arith, e) in
        let enough : ltb (length (buff ++ more)) (s + 4) ≡ false =
          ground (arith, fits, length-append buff more) in
        let text : slice (buff ++ more) s (s + 4) ≡ slice buff s (s + 4) =
          ap (take (s + 4 - s)) (drop_within s buff more (omega arith))
          ∙ take_within (s + 4 - s) (drop s buff) more (omega (arith, length-drop s buff)) in
        let e' : some (slice buff s (s + 4), s + 4) ≡ some found = ground (arith, e, h) in
        (rw (enough, text) e', ground (arith, e', fits))
  ]

  frame_mask-append :
      (frame : FrameBit) (code : Opcode) (n s : ℕ) (f : IncomingFrame)
      → 2 ≤ s
      → s ≤ length buff
      → frame_mask buff frame code (n, s) ≡ some f
      → (frame_mask (buff ++ more) frame code (n, s) ≡ some f) × (f.next_seek ≤ length buff)
  unfolding frame_mask
  frame_mask-append frame code n s f ge le h = elim (Option-cases (unpack_mask buff s)) [
    | inl e ↦ ground (arith, e, h, byte_at-append buff more 1)
    | inr (found, e) ↦
        let (same, within) = unpack_mask-append s found e in
        ground (arith, e, h, same, within, byte_at-append buff more 1)
  ]

  at_least_two : (n end : ℕ) → unpack_paylen buff 2 ≡ ok (some (n, end)) → 2 ≤ end
  unfolding unpack_paylen
  at_least_two n end h = ground (arith, h)

  frame_length-append :
      (frame : FrameBit) (code : Opcode) (f : IncomingFrame)
      → frame_length buff frame code ≡ ok (some f)
      → (frame_length (buff ++ more) frame code ≡ ok (some f)) × (f.next_seek ≤ length buff)
  unfolding frame_length
  frame_length-append frame code f h =
      let (found, e, k) = >>=-eq-ok (unpack_paylen buff 2) _ h in go found e k
    where
      go :
          (found : Option (ℕ × ℕ))
          → unpack_paylen buff 2 ≡ ok found
          → ok (elim found [ none ↦ none | some unpacked ↦ frame_mask buff frame code unpacked ])
            ≡ ok (some f)
          → (frame_length (buff ++ more) frame code ≡ ok (some f)) × (f.next_seek ≤ length buff)
      go none e k = absurd (cc)
      go (some (n, s)) e k =
          let (same, within) = unpack_paylen-append n s e in
          let (masked, behind) =
            frame_mask-append frame code n s f (at_least_two n s e) within (cc (k)) in
          (rw same (ap ok masked), behind)

  parse_frame-append :
      (f : IncomingFrame)
      → parse_frame buff ≡ ok (some f)
      → (parse_frame (buff ++ more) ≡ ok (some f)) × (f.next_seek ≤ length buff)
  unfolding parse_frame
  parse_frame-append f h = elim (Bool-cases (ltb (length buff) 2)) [
    | inl e ↦ absurd (ground (arith, e, h))
    | inr e ↦
        let enough : ltb (length (buff ++ more)) 2 ≡ false =
          ground (arith, e, length-append buff more) in
        let first : byte_at (buff ++ more) 0 ≡ byte_at buff 0 =
          byte_at-append buff more 0 (ground (arith, e)) in
        elim (Option-cases (frame_of (bit_and (byte_at buff 0) 0xF0))) [
          | inl x ↦ absurd (ground (arith, e, x, h))
          | inr (frame, x) ↦ elim (Option-cases (opcode_of (bit_and (byte_at buff 0) 0x0F))) [
            | inl y ↦ absurd (ground (arith, e, x, y, h))
            | inr (code, y) ↦
                let whole : frame_length buff frame code ≡ ok (some f) =
                  ground (arith, e, x, y, h) in
                let (same, within) = frame_length-append frame code f whole in
                (rw (enough, first, x, first, y) same, within)
          ]
        ]
  ]

-- What has come of the stream, put behind the buffer.
abbrev pub received : Websocket → Bytes → Io → Websocket
received ws chunk io = record ws {
  read_buff = ws.read_buff ++ chunk;
  writer = record ws.writer { io = io };
}

-- How much of a frame has not come.
abbrev pub missing : Websocket → IncomingFrame → ℕ
missing ws f = f.next_seek + f.payload_len - length ws.read_buff

module _ (ws : Websocket) (f : IncomingFrame) (chunk : Bytes) (io : Io)
    (within : f.next_seek ≤ length ws.read_buff)
    (incomplete : length ws.read_buff < f.next_seek + f.payload_len) where
  module _ (got : body_read ws.writer.io (missing ws f) ≡ ok (chunk, io)) where
    asked : f.payload_len - (length ws.read_buff - f.next_seek) ≡ missing ws f
    asked = omega arith

    next_payload_short :
        length chunk < missing ws f → next_payload ws f ≡ ok (none, received ws chunk io)
    unfolding next_payload
    next_payload_short lt = rw (asked, got) (ground arith)

    next_payload_whole :
        length chunk ≡ missing ws f → next_payload ws f ≡ next_payload (received ws chunk io) f
    unfolding next_payload
    next_payload_whole e =
        let buff = ws.read_buff in
        let end = f.next_seek + f.payload_len in
        let size : length (buff ++ chunk) ≡ end = omega (arith, length-append buff chunk) in
        let all_here : leb end (length (buff ++ chunk)) ≡ true = ground (arith, size) in
        let text : take (end - f.next_seek) (drop f.next_seek (buff ++ chunk))
            ≡ drop f.next_seek buff ++ chunk =
          take_all (end - f.next_seek) (drop f.next_seek (buff ++ chunk))
            (omega (arith, size, length-drop f.next_seek (buff ++ chunk)))
          ∙ drop_within f.next_seek buff chunk within in
        let none_left : drop end (buff ++ chunk) ≡ [] =
          drop_all end (buff ++ chunk) (omega (arith, size)) in
        let partial : leb end (length buff) ≡ false = ground arith in
        let enough : ltb (length chunk) (missing ws f) ≡ false = ground (arith, e) in
        rw (asked, got, all_here, text, none_left, partial, enough) refl

next_head-some :
    (ws : Websocket) (f : IncomingFrame)
    → parse_frame ws.read_buff ≡ ok (some f)
    → next_head ws ≡ ok (some f, ws)
unfolding next_head
next_head-some ws f parsed = rw parsed refl

-- On an upgraded connection whose stream holds no bytes, a read of the body is one of the connection.
raw_read_bounded :
    (io after : Io) (n : ℕ) (chunk : Bytes)
    → io.stream.raw_io ≡ true
    → io.stream.read_buff ≡ []
    → 0 < n
    → n < length_unknown
    → body_read io n ≡ ok (chunk, after)
    → length chunk ≤ n
unfolding body_read read_raw_body
raw_read_bounded io after n chunk raw none_buffered pos lt h = elim (Bool-cases io.conn.is_open) [
  | inl e ↦
      let whole : from_conn io (read io.conn n) ≡ ok (chunk, after) =
        ground (arith, h, e, raw, ap is_empty none_buffered) in
      (from_conn-Takes io n chunk after (rw none_buffered refl) whole).bounded
  | inr e ↦ ground (arith, h, e)
]

-- A frame whose head is in the buffer of an upgraded connection, but not the whole of its payload: one
-- call of `next` asks for what is missing. If all of that comes, the call is one that finds the frame
-- whole in its buffer; if not, it gives no message and loses no byte: what came stays behind the buffer.
pub next-received :
    (ws : Websocket) (f : IncomingFrame) (chunk : Bytes) (io : Io)
    → ws.closed ≡ false
    → parse_frame ws.read_buff ≡ ok (some f)
    → length ws.read_buff < f.next_seek + f.payload_len
    → ws.writer.io.stream.raw_io ≡ true
    → ws.writer.io.stream.read_buff ≡ []
    → missing ws f < length_unknown
    → body_read ws.writer.io (missing ws f) ≡ ok (chunk, io)
    → next ws ≡ (
        if length chunk == missing ws f
        then next (received ws chunk io)
        else ok (none, received ws chunk io))
unfolding next
next-received ws f chunk io opened parsed incomplete raw none_buffered lt got =
    let (parsed_more, within) = parse_frame-append ws.read_buff chunk f parsed in
    let bounded =
      raw_read_bounded ws.writer.io io (missing ws f) chunk raw none_buffered (omega arith) lt
        got in
    let head = next_head-some ws f parsed in
    let head_more = next_head-some (received ws chunk io) f parsed_more in
    elim (Bool-cases (length chunk == missing ws f)) [
      | inl e ↦
          let whole = next_payload_whole ws f chunk io within incomplete got (ground (arith, e)) in
          rw (e, opened, head, head_more, whole) refl
      | inr e ↦
          let short =
            next_payload_short ws f chunk io within incomplete got (ground (arith, e, bounded)) in
          rw (e, opened, head, short) (ground (arith, opened))
    ]
