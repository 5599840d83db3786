-- ===== src/Server/Body/Discard.antt =====
-- What is left of a request's body before the next request is read.
use lambda.Base.{
  ℕ, ◌-◌, ◌≤◌, ◌<◌, true, false, List, [], ◌∷◌, ◌++◌, append_assoc, ◌≡◌, inl, inr, refl, arith,
  Bytes, ltb, leb, if◌then◌else◌, length, is_empty, take, length-append, length-take, take_all,
  drop_all, Bool-cases, ltb→lt, Result, ok, err,
}
use lambda.Net.Conn.{Recv, Conn, read, receive}
use lambda.Net.Conn.Laws.{arriving}
use lambda.Server.Stream.{Io, unread}
use lambda.Server.Body.{from_conn, spend_pending, drop_chunk, discard_buffered, discard_unread_body}
use lambda.Server.Body.Laws.{
  Frames, split_buff, from_conn-Takes, spend_pending-Frames, is_empty-nil,
}

abbrev buffered_part : Io → Bytes
buffered_part io =
    let buff = io.stream.read_buff in
    let pending = io.stream.http_body_pending in
    take (if leb pending (length buff) then pending else length buff) buff

discard_buffered-Frames : (io : Io) → Frames io (buffered_part io) (discard_buffered io)
unfolding discard_buffered
discard_buffered-Frames io =
    let buff = io.stream.read_buff in
    let pending = io.stream.http_body_pending in
    let size = if leb pending (length buff) then pending else length buff in
    ground (
      arith,
      split_buff size buff (arriving io.conn.incoming),
      length-take size buff,
      is_empty-nil buff,
    )

-- Something is pending behind the buffer only if the buffer is used up.
discard_buffered_empty :
    (io : Io)
    → 0 < (discard_buffered io).stream.http_body_pending
    → is_empty (discard_buffered io).stream.read_buff ≡ true
unfolding discard_buffered
discard_buffered_empty io h =
    let buff = io.stream.read_buff in ground (arith, drop_all (length buff) buff (omega arith))

discard_buffered_all :
    (io : Io)
    → io.stream.http_body_pending ≤ length io.stream.read_buff
    → (discard_buffered io).stream.http_body_pending ≡ 0
unfolding discard_buffered
discard_buffered_all io h = ground (arith, is_empty-nil io.stream.read_buff)

-- The read behind the buffered part.
discard_arriving :
    (io after : Io)
    → 0 < io.stream.http_body_pending
    → is_empty io.stream.read_buff ≡ true
    → drop_chunk (spend_pending (from_conn io (read io.conn io.stream.http_body_pending)))
      ≡ ok after
    → (chunk : Bytes) × Frames io chunk after
discard_arriving io after pos none_buffered h = go r refl h
  where
    pending : ℕ
    pending = io.stream.http_body_pending

    got : Result (Bytes × Io)
    got = from_conn io (read io.conn pending)

    r : Result (Bytes × Io)
    r = spend_pending got

    go :
        (s : Result (Bytes × Io))
        → r ≡ s
        → drop_chunk s ≡ ok after
        → (chunk : Bytes) × Frames io chunk after
    go (ok (chunk, fin)) e k = (
      chunk,
      spend_pending-Frames io pending got chunk after
          (λ c mid q. from_conn-Takes io pending c mid none_buffered q) (omega arith)
          (ground (arith, e, k)),
    )
    go (err e') e k = absurd (cc)

Frames-trans : (a b c : Io) (x y : Bytes) → Frames a x b → Frames b y c → Frames a (x ++ y) c
Frames-trans a b c x y h k = ground (arith, h, k, append_assoc x y (unread c), length-append x y)

-- Discarding an unread body, where it does not throw and the connection is not upgraded, drops a
-- front part of the stream and counts it against the body, and nothing of the body is left if the
-- buffer held all of it.
pub discard_unread_body-Frames :
    (io after : Io)
    → io.stream.raw_io ≡ false
    → discard_unread_body io ≡ ok after
    → (dropped : Bytes) × Frames io dropped after
      × (io.stream.http_body_pending ≤ length io.stream.read_buff
          → after.stream.http_body_pending ≡ 0)
unfolding discard_unread_body
discard_unread_body-Frames io after raw h = elim (Bool-cases (leb io.stream.http_body_pending 0)) [
  | inl none_left ↦ ([], ground arith, ground arith)
  | inr some_left ↦
      let rest = discard_buffered io in
      let front = discard_buffered-Frames io in
      elim (Bool-cases (ltb 0 rest.stream.http_body_pending)) [
        | inl more ↦
            let empty = discard_buffered_empty io (ground arith) in
            let (chunk, frames) = discard_arriving rest after (ground arith) empty (ground arith) in
            (
              buffered_part io ++ chunk,
              Frames-trans io rest after (buffered_part io) chunk front frames,
              λ le. absurd (
                  omega (
                    arith,
                    discard_buffered_all io le,
                    ltb→lt 0 rest.stream.http_body_pending more,
                  )),
            )
        | inr done ↦
            (buffered_part io, ground (arith, front), ground (arith, discard_buffered_all io))
      ]
]

is_empty-length : (xs : Bytes) → 0 < length xs → is_empty xs ≡ false
is_empty-length [] h = absurd (omega arith)
is_empty-length (x ∷ xs) h = refl

read_whole :
    (c : Conn) (n : ℕ) (bs : Bytes) (later : List Recv)
    → c.is_open ≡ true
    → c.incoming ≡ Recv.bytes bs ∷ later
    → 0 < length bs
    → length bs ≤ n
    → read c n ≡ ok (bs, record c { incoming = later })
unfolding read receive
read_whole c n bs later open_ script pos le =
    ground (arith, take_all n bs le, drop_all n bs le, is_empty-length bs pos)

-- Where the rest of a body arrives in two pieces, discarding takes the first and stops: the
-- next request is read from the middle of the body, with bytes of it still pending.
pub discard_unread_body_once :
    (io : Io) (bs : Bytes) (later : List Recv)
    → io.stream.raw_io ≡ false
    → io.conn.is_open ≡ true
    → io.stream.read_buff ≡ []
    → io.conn.incoming ≡ Recv.bytes bs ∷ later
    → 0 < length bs
    → length bs < io.stream.http_body_pending
    → (after : Io) × (discard_unread_body io ≡ ok after)
      × (after.stream.http_body_pending ≡ io.stream.http_body_pending - length bs)
      × (unread after ≡ arriving later)
unfolding discard_unread_body discard_buffered
discard_unread_body_once io bs later raw open_ empty script pos lt =
    let pending = io.stream.http_body_pending in
    let stream = record io.stream { http_body_pending = pending - length bs } in
    let after = record io { conn = record io.conn { incoming = later }; stream = stream } in
    let r = read_whole io.conn pending bs later open_ script pos (omega arith) in
    (after, ground (arith, r), refl, ground arith)
