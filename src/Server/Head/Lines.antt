-- ===== src/Server/Head/Lines.antt =====
-- The header lines of a buffered head are read one by one.
use lambda.Base.{
  ℕ, zero, suc, ◌+◌, ◌-◌, ◌<◌, true, false, List, [], ◌∷◌, ◌++◌, append_assoc, none, some, ◌≡◌, ◌∙◌,
  refl, ap, arith, Bytes, ◌==◌, leb, length, length-append, drop, drop-suc, drop_past, Lacks, All,
  All-append, ok,
}
use lambda.Http.Values.{append}
use lambda.Http.Search.{at_or}
use lambda.Server.Head.{next_line}
use lambda.Server.Head.Header.{parse_header-written}
use lambda.Server.Head.Loop.{HeadLoop, Round, take_header, take_line, head_round, head_loop, merged}
use lambda.Server.Head.Whole.{
  next_line-written, HeaderText, IsPlain, name_of, value_of, header_text, lines_text, with_headers,
}

-- A round that finds the line it is at.
pub round_line :
    (max_header_size : ℕ) (l : HeadLoop) (text rest : Bytes)
    → l.chunker_seek ≡ none
    → drop l.reader_seek l.read_buff ≡ text ++ 13 ∷ 10 ∷ rest
    → Lacks 10 text
    → head_round max_header_size l
      ≡ take_line
          (record l { reader_seek = l.reader_seek + length text + 2; chunker_seek = none })
          l.reader_seek
          (l.reader_seek + length text)
unfolding head_round
round_line max l text rest fresh at quiet =
    let seek : at_or l.chunker_seek l.reader_seek ≡ l.reader_seek = rw fresh refl in
    let found : next_line l.read_buff (at_or l.chunker_seek l.reader_seek) (length l.read_buff)
        ≡ some (l.reader_seek + length text) =
      ap (λ b. next_line l.read_buff b (length l.read_buff)) seek
      ∙ next_line-written l.read_buff l.reader_seek text rest at quiet in
    rw (head_round, found) refl

take_line_parsed :
    (l : HeadLoop) (b e : ℕ)
    → l.request_line_parsed ≡ true
    → take_line l b e ≡ ok (take_header l b e)
unfolding take_line
take_line_parsed l b e h = ground (arith, h)

pub behind_line :
    (buf : Bytes) (i : ℕ) (text rest : Bytes)
    → drop i buf ≡ text ++ 13 ∷ 10 ∷ rest
    → drop (i + length text + 2) buf ≡ rest
behind_line buf i text rest at =
    let two : i + length text + 1 + 1 ≡ i + length text + 2 = omega arith in
    rw (← two) (
      drop-suc buf (i + length text + 1) 10 rest (
        drop-suc buf (i + length text) 13 (10 ∷ rest)
          (drop_past buf i (i + length text) text (13 ∷ 10 ∷ rest) at refl)))

header_text-length :
    (h : HeaderText) → length (header_text h) ≡ length (name_of h) + 2 + length (value_of h)
header_text-length h = omega (arith, length-append (name_of h) (b':' ∷ b' ' ∷ value_of h))

header_text-Lacks : (h : HeaderText) → IsPlain h → Lacks 10 (header_text h)
header_text-Lacks h p =
    All-append (λ x. (x == 10) ≡ false) (name_of h) (b':' ∷ b' ' ∷ value_of h) p.name_line
      (refl, (refl, p.value_line))

-- The loop's variables behind the line of a header.
abbrev after_header : HeadLoop → HeaderText → HeadLoop
after_header l h = record l {
  reader_seek = l.reader_seek + length (header_text h) + 2;
  chunker_seek = none;
  next = record l.next { headers = append l.next.headers (name_of h) (value_of h) };
}

module _ (max_header_size : ℕ) (l : HeadLoop) (fresh : l.chunker_seek ≡ none)
    (parsed : l.request_line_parsed ≡ true) where
  header_round :
      (h : HeaderText) (rest : Bytes)
      → IsPlain h
      → drop l.reader_seek l.read_buff ≡ header_text h ++ 13 ∷ 10 ∷ rest
      → head_round max_header_size l ≡ ok (Round.again (after_header l h))
  unfolding take_header
  header_round h rest plain at =
      let text = header_text h in
      let size = header_text-length h in
      let begin = l.reader_seek in
      let end = begin + length text in
      let moved = record l { reader_seek = end + 2; chunker_seek = none } in
      let whole : drop begin l.read_buff
          ≡ name_of h ++ b':' ∷ b' ' ∷ h.value_head ∷ (h.value_tail ++ 13 ∷ 10 ∷ rest) =
        at ∙ append_assoc (name_of h) (b':' ∷ b' ' ∷ value_of h) (13 ∷ 10 ∷ rest) in
      let added =
        parse_header-written l.next.headers l.read_buff begin end h.name_head h.value_head
          h.name_tail h.value_tail (13 ∷ 10 ∷ rest) whole (omega (arith, size)) plain.name_quiet
          plain.value_visible in
      let long : leb (end - begin) 2 ≡ false = ground (arith, size) in
      round_line max_header_size l text (rest) fresh at (header_text-Lacks h plain)
      ∙ (take_line_parsed moved begin end parsed ∙ rw (take_header, added, long) (ground arith))

  end_round :
      (body : Bytes)
      → drop l.reader_seek l.read_buff ≡ 13 ∷ 10 ∷ body
      → (l' : HeadLoop) × (head_round max_header_size l ≡ ok (Round.finished l'))
        × (l'.read_buff ≡ body)
        × (l'.next ≡ l.next)
        × (l'.conn ≡ l.conn)
  unfolding take_header
  end_round body at =
      let begin = l.reader_seek in
      let end = begin + 0 in
      let moved = record l { reader_seek = end + 2; chunker_seek = none } in
      (
        record moved { read_buff = drop (end + 2) l.read_buff },
        round_line max_header_size l [] body fresh at tt
            ∙ (take_line_parsed moved begin end parsed ∙ ground arith),
        behind_line l.read_buff begin [] body at,
        refl,
        refl,
      )

-- The lines of headers and the empty line behind them.
pub head_loop-lines :
    (hs : List HeaderText) (max_header_size checks : ℕ) (l : HeadLoop) (body : Bytes)
    → l.chunker_seek ≡ none
    → l.request_line_parsed ≡ true
    → All IsPlain hs
    → drop l.reader_seek l.read_buff ≡ lines_text hs body
    → length hs < checks
    → (l' : HeadLoop) × (head_loop max_header_size checks l ≡ merged l')
      × (l'.read_buff ≡ body)
      × (l'.next ≡ record l.next { headers = with_headers hs l.next.headers })
      × (l'.conn ≡ l.conn)
unfolding head_loop
head_loop-lines hs max zero l body fresh parsed plain at lt = absurd (omega arith)
head_loop-lines [] max (suc checks) l body fresh parsed plain at lt =
    let (l', e, rest, same, conn) = end_round max l fresh parsed body at in
    (l', rw (head_loop, e) refl, rest, same, conn)
head_loop-lines (h ∷ hs) max (suc checks) l body fresh parsed plain at lt =
    let e = header_round max l fresh parsed h (lines_text hs body) plain.0 at in
    let later = behind_line l.read_buff l.reader_seek (header_text h) (lines_text hs body) at in
    let (l', e', rest, same, conn) =
      head_loop-lines hs max checks (after_header l h) body refl parsed plain.1 later
        (omega arith) in
    (l', rw (head_loop, e) e', rest, same, conn)
