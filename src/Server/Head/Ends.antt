-- ===== src/Server/Head/Ends.antt =====
-- The loop that reads a head ends by itself.
use lambda.Base.{
  ℕ, zero, suc, ◌+◌, ◌-◌, ◌*◌, ◌<◌, ◌≤◌, true, false, inl, inr, [], ◌∷◌, Option, none, some,
  first_in, scan_found, ◌≡◌, refl, arith, Bytes, if◌then◌else◌, length, is_empty, length-append,
  Bool-cases, Result, ok, err,
}
use lambda.Http.Search.{at_or}
use lambda.Net.Conn.{Conn, read}
use lambda.Net.Conn.Laws.{read-TakesUpTo}
use lambda.Server.Head.{
  next_line, ends_line, RequestLine, RequestHead, value, unexpected, parse_request_line,
}
use lambda.Server.Head.Loop.{
  HeadLoop, Round, header_chunk_size, read_more, take_header, take_line, head_round, head_loop,
  head_start, read_request_head,
}

-- What is left to read, in bytes: each byte that may still be asked for weighs more than a chunk.
abbrev pub fuel : ℕ → HeadLoop → ℕ
fuel max_header_size l =
    (max_header_size + 1 - l.total_read) * (header_chunk_size + 1)
    + (length l.read_buff - l.reader_seek)

-- The seeks stay in the buffer, and a search goes on no earlier than one byte before the line.
abbrev pub SeeksInside : HeadLoop → Type 0
SeeksInside l =
    (l.reader_seek ≤ length l.read_buff) × (l.reader_seek ≤ at_or l.chunker_seek l.reader_seek + 1)

next_line_bounds :
    (buf : Bytes) (begin end x : ℕ) → next_line buf begin end ≡ some x → (begin ≤ x) × (x + 2 ≤ end)
unfolding next_line
next_line_bounds buf begin end x h = go (first_in (ends_line buf begin) begin end) refl
  where
    go : (r : Option ℕ) → first_in (ends_line buf begin) begin end ≡ r → (begin ≤ x) × (x + 2 ≤ end)
    go none e = absurd (ground (arith, e, h))
    go (some idx) e =
        let (found, ge, lt) = scan_found (ends_line buf begin) begin (end - begin) idx e in
        let back : x ≡ idx - 1 = ground (arith, e, h) in
        let behind : begin < idx = ground (arith, found) in (omega arith, omega arith)

-- The fields that say where the loop stands.
abbrev Stands : HeadLoop → HeadLoop → Type 0
Stands l l' =
    (l'.read_buff ≡ l.read_buff)
    × (l'.reader_seek ≡ l.reader_seek)
    × (l'.chunker_seek ≡ l.chunker_seek)
    × (l'.total_read ≡ l.total_read)

take_header-Stands : (l l' : HeadLoop) (b e : ℕ) → take_header l b e ≡ Round.again l' → Stands l l'
unfolding take_header
take_header-Stands l l' b e h = ground arith

take_line-Stands : (l l' : HeadLoop) (b e : ℕ) → take_line l b e ≡ ok (Round.again l') → Stands l l'
unfolding take_line
take_line-Stands l l' b e h = elim (Bool-cases l.request_line_parsed) [
  | inl parsed ↦ take_header-Stands l l' b e (ground (arith, parsed, h))
  | inr fresh ↦ go fresh (parse_request_line l.read_buff b e) refl
]
  where
    go :
        l.request_line_parsed ≡ false
        → (r : Result RequestLine) → parse_request_line l.read_buff b e ≡ r
        → Stands l l'
    go fresh (ok (value (method, url))) k =
        let head : RequestHead = record { method = some method; url = url; headers = [] } in
        take_header-Stands (record l { next = head; request_line_parsed = true }) l' b e
          (ground (arith, k, h, fresh))
    go fresh (ok (unexpected message)) k = absurd (ground (arith, k, h, fresh))
    go fresh (err e') k = absurd (ground (arith, k, h, fresh))

some_length : (xs : Bytes) → is_empty xs ≡ false → 0 < length xs
some_length [] h = absurd (cc)
some_length (x ∷ xs) h = omega arith

-- What a round that has read a chunk has changed.
abbrev ReadMore : ℕ → HeadLoop → HeadLoop → Type 0
ReadMore max_header_size l l' =
    (l.total_read ≤ max_header_size)
    × (l'.total_read ≤ l.total_read + header_chunk_size)
    × (l.total_read < l'.total_read)
    × (length l'.read_buff ≡ length l.read_buff + (l'.total_read - l.total_read))
    × (l'.reader_seek ≡ l.reader_seek)
    × (l'.chunker_seek ≡ (if is_empty l.read_buff then none else some (length l.read_buff - 1)))

read_more_lem :
    (max_header_size : ℕ) (l l' : HeadLoop)
    → read_more max_header_size l ≡ ok (Round.again l')
    → ReadMore max_header_size l l'
unfolding read_more
read_more_lem max l l' h = go (read l.conn header_chunk_size) refl
  where
    go : (r : Result (Bytes × Conn)) → read l.conn header_chunk_size ≡ r → ReadMore max l l'
    go (ok (chunk, conn)) k = ground (
      arith,
      k,
      h,
      length-append l.read_buff chunk,
      read-TakesUpTo l.conn header_chunk_size chunk conn k,
      some_length chunk,
    )
    go (err e) k = absurd (ground (arith, k, h))

-- A round that goes on has used some of it.
head_round-fuel :
    (max_header_size : ℕ) (l l' : HeadLoop)
    → SeeksInside l
    → head_round max_header_size l ≡ ok (Round.again l')
    → SeeksInside l' × (fuel max_header_size l' < fuel max_header_size l)
unfolding head_round
head_round-fuel max l l' inside h =
    go (next_line l.read_buff (at_or l.chunker_seek l.reader_seek) (length l.read_buff)) refl
  where
    go :
        (r : Option ℕ)
        → next_line l.read_buff (at_or l.chunker_seek l.reader_seek) (length l.read_buff) ≡ r
        → SeeksInside l' × (fuel max l' < fuel max l)
    go none e =
        let (some_left, le, lt, size, seek, chunker) =
          read_more_lem max l l' (ground (arith, e, h)) in
        elim (Bool-cases (is_empty l.read_buff)) [
          | inl empty ↦
              let from_seek : at_or l'.chunker_seek l'.reader_seek ≡ l'.reader_seek =
                ground (arith, empty, chunker) in
              ((omega (arith, inside), omega (arith, from_seek)), omega (arith, inside))
          | inr full ↦
              let from_last : at_or l'.chunker_seek l'.reader_seek ≡ length l.read_buff - 1 =
                ground (arith, full, chunker) in
              (
                (
                  omega (arith, inside),
                  omega (arith, from_last, inside, some_length l.read_buff full),
                ),
                omega (arith, inside),
              )
        ]
    go (some line_end) e =
        let (ge, le) =
          next_line_bounds l.read_buff (at_or l.chunker_seek l.reader_seek) (length l.read_buff)
            line_end e in
        let stands =
          take_line-Stands (record l { reader_seek = line_end + 2; chunker_seek = none }) l'
            l.reader_seek line_end (ground (arith, e, h)) in
        ground (arith, stands, ge, le, inside)

-- With more rounds than that, the loop ends before it is asked to stop: further rounds change nothing.
head_loop-enough :
    (max_header_size checks extra : ℕ) (l : HeadLoop)
    → SeeksInside l
    → fuel max_header_size l < checks
    → head_loop max_header_size (checks + extra) l ≡ head_loop max_header_size checks l
unfolding head_loop
head_loop-enough max zero extra l inside lt = absurd (omega arith)
head_loop-enough max (suc checks) extra l inside lt =
    let e : suc checks + extra ≡ suc (checks + extra) = omega arith in
    rw e (go (λ l'. head_loop-enough max checks extra l') (head_round max l) refl)
  where
    go :
        ((l' : HeadLoop)
          → SeeksInside l'
          → fuel max l' < checks
          → head_loop max (checks + extra) l' ≡ head_loop max checks l')
        → (r : Result Round) → head_round max l ≡ r
        → head_loop max (suc (checks + extra)) l ≡ head_loop max (suc checks) l
    go later (ok (Round.again l')) k =
        let (inside', less) = head_round-fuel max l l' inside k in
        rw (head_loop, k) (later l' inside' (omega arith))
    go later (ok (Round.finished l')) k = rw (head_loop, k)
    go later (ok (Round.refused error l')) k = rw (head_loop, k)
    go later (err e') k = rw (head_loop, k)

-- Reading a head ends by itself: it is not cut short by the end of the server if that is far enough
-- away, and then the outcome does not depend on it. Enough are 2049 rounds for each byte that the
-- head may have, and one for each that is buffered.
pub read_request_head-ends :
    (max_header_size checks extra : ℕ) (conn : Conn) (read_buff : Bytes)
    → (max_header_size + 1) * (header_chunk_size + 1) + length read_buff < checks
    → read_request_head (checks + extra) max_header_size conn read_buff
      ≡ read_request_head checks max_header_size conn read_buff
unfolding read_request_head
read_request_head-ends max checks extra conn read_buff lt =
    head_loop-enough max checks extra (head_start conn read_buff) (omega arith, omega arith)
      (omega arith)
