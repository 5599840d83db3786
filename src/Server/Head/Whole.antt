-- ===== src/Server/Head/Whole.antt =====
-- A whole head in the buffer.
use lambda.Base.{
  ℕ, ◌+◌, ◌-◌, true, false, List, [], ◌∷◌, ◌++◌, append_assoc, some, ◌≡◌, ◌∙◌, refl, ap, arith,
  Bytes, ◌==◌, length, length-append, drop, drop-suc, byte_at-drop, scan_stronger, first_in_hit,
  is_at, length_at, drop_past, Lacks, All-append,
}
use lambda.Http.Values.{Values, append}
use lambda.Server.Head.{ends_line, next_line}
use lambda.Server.Head.Loop.{}

no_feed : (buf : Bytes) (begin j : ℕ) → is_at buf 10 j ≡ false → ends_line buf begin j ≡ false
no_feed buf begin j h = rw h refl

-- The line that begins at the index.
pub next_line-written :
    (buf : Bytes) (i : ℕ) (text rest : Bytes)
    → drop i buf ≡ text ++ 13 ∷ 10 ∷ rest
    → Lacks 10 text
    → next_line buf i (length buf) ≡ some (i + length text)
unfolding next_line
next_line-written buf i text rest at quiet =
    let end = i + length text in
    let ended = drop_past buf i end text (13 ∷ 10 ∷ rest) at refl in
    let feed = drop-suc buf end 13 (10 ∷ rest) ended in
    let size = length_at buf end 13 (10 ∷ rest) ended in
    let line = text ++ 13 ∷ [] in
    let line_size = length-append text (13 ∷ []) in
    let whole : drop i buf ≡ line ++ 10 ∷ rest = rw (append_assoc text (13 ∷ []) (10 ∷ rest)) at in
    let first =
      first_in_hit buf 10 i (length buf) line rest whole
        (All-append (λ x. (x == 10) ≡ false) text (13 ∷ []) quiet (refl, tt))
        (omega (arith, size, line_size)) in
    let same : i + length line ≡ end + 1 = omega (arith, line_size) in
    let back : end + 1 - 1 ≡ end = omega arith in
    let ends : ends_line buf i (end + 1) ≡ true =
      rw (byte_at-drop buf (end + 1) 10 rest feed, back, byte_at-drop buf end 13 (10 ∷ rest) ended)
        (ground arith) in
    let found =
      scan_stronger (is_at buf 10) (ends_line buf i) (no_feed buf i) i (length buf - i) (end + 1)
        (first ∙ ap some same) ends in
    rw (found, next_line, back) refl

-- A header as it is written: neither part is empty, the name has no space, the value does not begin
-- with one, and neither has a line feed.
pub record HeaderText : Type 0 where
  pub name_head : ℕ
  pub name_tail : Bytes
  pub value_head : ℕ
  pub value_tail : Bytes

abbrev pub name_of : HeaderText → Bytes
name_of h = h.name_head ∷ h.name_tail

abbrev pub value_of : HeaderText → Bytes
value_of h = h.value_head ∷ h.value_tail

pub record IsPlain (h : HeaderText) : Type 0 where
  pub name_quiet : Lacks b' ' (name_of h)
  pub value_visible : (h.value_head == b' ') ≡ false
  pub name_line : Lacks 10 (name_of h)
  pub value_line : Lacks 10 (value_of h)

abbrev pub header_text : HeaderText → Bytes
header_text h = name_of h ++ b':' ∷ b' ' ∷ value_of h

-- The lines of the headers, the empty line, and what follows.
abbrev pub lines_text : List HeaderText → Bytes → Bytes
lines_text [] body = 13 ∷ 10 ∷ body
lines_text (h ∷ hs) body = header_text h ++ 13 ∷ 10 ∷ lines_text hs body

abbrev pub with_headers : List HeaderText → Values → Values
with_headers [] m = m
with_headers (h ∷ hs) m = with_headers hs (append m (name_of h) (value_of h))
