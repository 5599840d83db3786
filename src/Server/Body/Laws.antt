-- ===== src/Server/Body/Laws.antt =====
-- A body is handed out in order and never past its end.
use lambda.Base.{
  ℕ, ◌+◌, ◌≤◌, true, false, ◌||◌, List, [], ◌∷◌, ◌++◌, append_assoc, ◌≡◌, ◌∙◌, refl, sym, ap, arith,
  Bytes, ltb, leb, if◌then◌else◌, length, is_empty, take, drop, take-append-drop, length-take,
  Result, ok, err, ◌==◌, ◌>>=◌, >>=-eq-ok, length-append,
}
use lambda.Net.Conn.{Conn, read}
use lambda.Net.Conn.Laws.{arriving, read-TakesUpTo}
use lambda.Server.Stream.{Io, unread}
use lambda.Server.Body.{
  body_chunk_size, length_unknown, from_conn, read_request_body, body_read, spend_pending,
}

-- `chunk` is the next part of the stream, at most `limit` bytes, and the stream's flags stay.
pub record Takes (limit : ℕ) (before : Io) (chunk : Bytes) (after : Io) : Type 0 where
  pub order : unread before ≡ chunk ++ unread after
  pub bounded : length chunk ≤ limit
  pub same_pending : after.stream.http_body_pending ≡ before.stream.http_body_pending
  pub same_raw : after.stream.raw_io ≡ before.stream.raw_io

pub is_empty-nil : (xs : Bytes) → is_empty xs ≡ true → xs ≡ []
is_empty-nil [] h = refl
is_empty-nil (x ∷ xs) h = cc

pub split_buff : (n : ℕ) (buff rest : Bytes) → buff ++ rest ≡ take n buff ++ (drop n buff ++ rest)
split_buff n buff rest =
    ap (λ (t : Bytes). t ++ rest) (sym (take-append-drop n buff))
    ∙ append_assoc (take n buff) (drop n buff) rest

pub from_conn-Takes :
    (io : Io) (n : ℕ) (chunk : Bytes) (after : Io)
    → is_empty io.stream.read_buff ≡ true
    → from_conn io (read io.conn n) ≡ ok (chunk, after)
    → Takes n io chunk after
from_conn-Takes io n chunk after h = go (read io.conn n) refl
  where
    go :
        (r : Result (Bytes × Conn))
        → read io.conn n ≡ r
        → from_conn io r ≡ ok (chunk, after)
        → Takes n io chunk after
    go (ok (got, c)) e k =
        ground (arith, read-TakesUpTo io.conn n got c e, is_empty-nil io.stream.read_buff h)
    go (err e') e k = cc

read_request_body-Takes :
    (io : Io) (chunk_size bytes_remain : ℕ) (chunk : Bytes) (after : Io)
    → read_request_body io chunk_size bytes_remain ≡ ok (chunk, after)
    → Takes bytes_remain io chunk after
unfolding read_request_body
read_request_body-Takes io chunk_size bytes_remain chunk after h =
    let can_read = if ltb chunk_size bytes_remain then chunk_size else bytes_remain in
    let buff = io.stream.read_buff in
    let within : can_read ≤ bytes_remain = ground arith in
    ground (
      arith,
      within,
      split_buff can_read buff (arriving io.conn.incoming),
      length-take can_read buff,
      from_conn-Takes io can_read chunk after,
    )

-- `chunk` was read from the front of the stream and counted against the body.
abbrev pub Frames : Io → Bytes → Io → Type 0
Frames io chunk after =
    (unread io ≡ chunk ++ unread after)
    × (length chunk + after.stream.http_body_pending ≡ io.stream.http_body_pending)
    × (after.stream.raw_io ≡ io.stream.raw_io)

pub spend_pending-Frames :
    (io : Io) (limit : ℕ) (r : Result (Bytes × Io)) (chunk : Bytes) (after : Io)
    → ((got : Bytes) (mid : Io) → r ≡ ok (got, mid) → Takes limit io got mid)
    → limit ≤ io.stream.http_body_pending
    → spend_pending r ≡ ok (chunk, after)
    → Frames io chunk after
spend_pending-Frames io limit (ok (got, mid)) chunk after takes le h =
    ground (arith, takes got mid refl)
spend_pending-Frames io limit (err e) chunk after takes le h = cc

body_read-Frames :
    (io : Io) (requested : ℕ) (chunk : Bytes) (after : Io)
    → io.stream.raw_io ≡ false
    → body_read io requested ≡ ok (chunk, after)
    → Frames io chunk after
unfolding body_read
body_read-Frames io requested chunk after raw h =
    let chunk_size =
      if requested == length_unknown || leb requested 0 then body_chunk_size else requested in
    let pending = io.stream.http_body_pending in
    let r = read_request_body io chunk_size pending in
    ground (
      arith,
      spend_pending-Frames io pending r chunk after (read_request_body-Takes io chunk_size pending),
    )

-- Reads of the given sizes, one after the other, and all that they handed over.
unfoldable pub read_many : Io → List ℕ → Result (Bytes × Io)
read_many io [] = ok ([], io)
read_many io (n ∷ sizes) =
    body_read io n >>= λ first. read_many first.1 sizes >>= λ rest. ok (first.0 ++ rest.0, rest.1)

-- Any run of reads that does not throw hands over the next bytes of the stream in order, and what
-- is left of the body is shorter by just so many: reading never reaches past the announced length,
-- whatever sizes are asked for. The stream is that of a request, not one of an upgraded
-- connection.
pub read_many-Frames :
    (sizes : List ℕ) (io : Io) (got : Bytes) (after : Io)
    → io.stream.raw_io ≡ false
    → read_many io sizes ≡ ok (got, after)
    → Frames io got after
unfolding read_many
read_many-Frames [] io got after raw h = ground arith
read_many-Frames (n ∷ sizes) io got after raw h =
    let (first, e, more) = >>=-eq-ok (body_read io n) _ h in
    let (rest, e', last) = >>=-eq-ok (read_many first.1 sizes) _ more in
    let one = body_read-Frames io n first.0 first.1 raw e in
    let many = read_many-Frames sizes first.1 rest.0 rest.1 (one.2 ∙ raw) e' in
    ground (
      arith,
      one,
      many,
      last,
      append_assoc first.0 rest.0 (unread rest.1),
      length-append first.0 rest.0,
    )
