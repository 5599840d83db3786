-- ===== src/Server/Head/Written.antt =====
-- A request that is buffered as a whole is read as it was written.
use lambda.Base.{
  ℕ, zero, suc, ◌+◌, ◌-◌, ◌<◌, ◌≤◌, true, false, List, [], ◌∷◌, ◌++◌, append_assoc, none, some, ◌≡◌,
  ◌∙◌, refl, ap, arith, Bytes, codes, ◌==◌, ltb, leb, length, length-append, drop, scan, scan_skip,
  scan_missed, Bool-cases, inl, inr, first_in, first_in_miss, is_at, Lacks, All, All-append, ok,
}
use mathlib.Core.Path.{subst}
use lambda.Http.Values.{Values}
use lambda.Http.Trim.{reset_case, trim_space, is_space}
use lambda.Http.Method.{Method, method_to_string}
use lambda.Http.Url.{Url}
use lambda.Net.Conn.{Conn}
use lambda.Server.Head.{
  splits_header, parse_header, parse_request_line, value, RequestHead, empty_url,
}
use lambda.Server.Head.Line.{next_token_here, visible_head}
use lambda.Server.Head.Request.{method_text, parse_request_line-written}
use lambda.Server.Head.Loop.{
  HeadLoop, Round, take_header, take_line, head_round, head_loop, head_start, merged,
  read_request_head,
}
use lambda.Server.Head.Whole.{HeaderText, IsPlain, lines_text, with_headers}
use lambda.Server.Head.Lines.{round_line, behind_line, head_loop-lines}

-- A line without a colon adds no header.
parse_header_no_colon :
    (headers : Values) (buf : Bytes) (i j c : ℕ) (cs rest : Bytes)
    → drop i buf ≡ (c ∷ cs) ++ rest
    → Lacks b':' (c ∷ cs)
    → (c == b' ') ≡ false
    → j ≡ i + length (c ∷ cs)
    → parse_header headers buf i j ≡ headers
unfolding parse_header scan
parse_header_no_colon headers buf i j c cs rest at quiet visible e =
    let begins = next_token_here buf i j c (cs ++ rest) visible at (omega arith) in
    let missed = first_in_miss buf b':' i j (c ∷ cs) rest at quiet e in
    let splits : (k : ℕ) → i ≤ k → k < i + (j - i) → splits_header buf i k ≡ false = λ k ge lt.
      elim (Bool-cases (ltb i k)) [
        | inl behind ↦
            let no =
              scan_missed (is_at buf b':') i (j - i) (k - 1) missed (ground (arith, behind))
                (omega arith) in
            rw no (ground arith)
        | inr first ↦ rw first (ground arith)
      ] in
    let all : (j - i) + 0 ≡ j - i = omega arith in
    let none_found : first_in (splits_header buf i) i j ≡ none =
      rw (← all) (scan_skip (splits_header buf i) i (j - i) 0 splits) in
    rw (begins, parse_header, none_found) refl

take_line_first :
    (l : HeadLoop) (b e : ℕ) (m : Method) (url : Url)
    → l.request_line_parsed ≡ false
    → parse_request_line l.read_buff b e ≡ ok (value (m, url))
    → take_line l b e
      ≡ ok (
          take_header
            (record l {
              next = record l.next { method = some m; url = url; headers = [] };
              request_line_parsed = true;
            })
            b
            e)
unfolding take_line
take_line_first l b e m url fresh h = rw (fresh, h) refl

-- A method has neither a line feed nor a colon.
method_line : (m : Method) → Lacks 10 (method_to_string m) × Lacks b':' (method_to_string m)
unfolding method_to_string
method_line Method.get = ((refl, (refl, (refl, tt))), (refl, (refl, (refl, tt))))
method_line Method.post = ((refl, (refl, (refl, (refl, tt)))), (refl, (refl, (refl, (refl, tt)))))
method_line Method.put = ((refl, (refl, (refl, tt))), (refl, (refl, (refl, tt))))
method_line Method.patch =
    ((refl, (refl, (refl, (refl, (refl, tt))))), (refl, (refl, (refl, (refl, (refl, tt))))))
method_line Method.del = (
  (refl, (refl, (refl, (refl, (refl, (refl, tt)))))),
  (refl, (refl, (refl, (refl, (refl, (refl, tt)))))),
)
method_line Method.head = ((refl, (refl, (refl, (refl, tt)))), (refl, (refl, (refl, (refl, tt)))))
method_line Method.options = (
  (refl, (refl, (refl, (refl, (refl, (refl, (refl, tt))))))),
  (refl, (refl, (refl, (refl, (refl, (refl, (refl, tt))))))),
)
method_line Method.trace =
    ((refl, (refl, (refl, (refl, (refl, tt))))), (refl, (refl, (refl, (refl, (refl, tt))))))
method_line Method.connect = (
  (refl, (refl, (refl, (refl, (refl, (refl, (refl, tt))))))),
  (refl, (refl, (refl, (refl, (refl, (refl, (refl, tt))))))),
)

-- A request line with a path that has no space, `?`, `#`, `:` or line feed.
module _ (m : Method) (p : ℕ) (ps : Bytes) (quiet : Lacks b' ' (p ∷ ps))
    (hash : Lacks b'#' (p ∷ ps)) (mark : Lacks b'?' (p ∷ ps)) (colon : Lacks b':' (p ∷ ps))
    (feed : Lacks 10 (p ∷ ps)) where
  abbrev path_of : Bytes
  path_of = p ∷ ps

  abbrev behind_method : Bytes
  behind_method = b' ' ∷ (path_of ++ b' ' ∷ codes "HTTP/1.1")

  abbrev pub line_of : Bytes
  line_of = method_to_string m ++ behind_method

  abbrev pub url_of : Url
  url_of = record empty_url { path = path_of }

  line_length : length line_of ≡ length (method_to_string m) + 1 + length path_of + 9
  line_length = omega (
    arith,
    length-append (method_to_string m) behind_method,
    length-append path_of (b' ' ∷ codes "HTTP/1.1"),
  )

  line_read :
      (rest : Bytes)
      → parse_request_line (line_of ++ rest) 0 (length line_of) ≡ ok (value (m, url_of))
  unfolding reset_case trim_space is_space
  line_read rest =
      let at =
        append_assoc (method_to_string m) behind_method rest
        ∙ ap (λ t. method_to_string m ++ b' ' ∷ t)
            (append_assoc path_of (b' ' ∷ codes "HTTP/1.1") rest) in
      let size : length line_of
          ≡ 0 + length (method_to_string m) + 1 + length path_of + 1 + 4 + 1 + 3 =
        omega (arith, line_length) in
      rw size (
        parse_request_line-written (line_of ++ rest) 0 m path_of (codes "HTTP") (codes "1.1") rest p
          b'H' ps (codes "TTP") at refl refl quiet (refl, (refl, (refl, (refl, tt))))
          (refl, (refl, (refl, tt))) hash mark (refl, (refl, (refl, (refl, tt)))) refl (inr refl))

  line_of-Lacks : Lacks 10 line_of × Lacks b':' line_of
  line_of-Lacks =
      let (no_feed, no_colon) = method_line m in
      let version = codes "HTTP/1.1" in
      let version_feed : Lacks 10 version =
        (refl, (refl, (refl, (refl, (refl, (refl, (refl, (refl, tt)))))))) in
      let version_colon : Lacks b':' version =
        (refl, (refl, (refl, (refl, (refl, (refl, (refl, (refl, tt)))))))) in
      (
        All-append (λ x. (x == 10) ≡ false) (method_to_string m) behind_method no_feed
            (
              refl,
              All-append (λ x. (x == 10) ≡ false) path_of (b' ' ∷ version) feed
                  (refl, version_feed),
            ),
        All-append (λ x. (x == b':') ≡ false) (method_to_string m) behind_method no_colon
            (
              refl,
              All-append (λ x. (x == b':') ≡ false) path_of (b' ' ∷ version) colon
                  (refl, version_colon),
            ),
      )

  -- The request line is read as a header, too, and adds none.
  first_line_header :
      (l : HeadLoop) (rest : Bytes) (end : ℕ)
      → end ≡ length line_of
      → l.read_buff ≡ line_of ++ 13 ∷ 10 ∷ rest
      → take_header l 0 end ≡ Round.again l
  unfolding take_header
  first_line_header l rest end size text =
      let (method_quiet, c, cs, e) = method_text m in
      let line : line_of ≡ c ∷ (cs ++ behind_method) = ap (λ t. t ++ behind_method) e in
      let visible = visible_head (method_to_string m) e method_quiet in
      let colon_free : Lacks b':' (c ∷ (cs ++ behind_method)) =
        subst (λ t. Lacks b':' t) line line_of-Lacks.1 in
      let added =
        parse_header_no_colon l.next.headers l.read_buff 0 end c (cs ++ behind_method)
          (13 ∷ 10 ∷ rest) (text ∙ ap (λ t. t ++ 13 ∷ 10 ∷ rest) line) colon_free visible
          (size ∙ (ap length line ∙ omega arith)) in
      let long : leb (end - 0) 2 ≡ false = ground (arith, size, line_length) in
      rw (take_header, added, long) (ground arith)

  -- The first round reads the request line, and adds no header.
  first_round :
      (max_header_size : ℕ) (conn : Conn) (rest : Bytes)
      → (l : HeadLoop) × (head_round max_header_size (head_start conn (line_of ++ 13 ∷ 10 ∷ rest))
          ≡ ok (Round.again l))
        × (l.chunker_seek ≡ none)
        × (l.request_line_parsed ≡ true)
        × (drop l.reader_seek l.read_buff ≡ rest)
        × (l.next ≡ record { method = some m; url = url_of; headers = [] })
        × (l.conn ≡ conn)
  first_round max conn rest =
      let buff = line_of ++ 13 ∷ 10 ∷ rest in
      let start = head_start conn buff in
      let end = 0 + length line_of in
      let moved = record start { reader_seek = end + 2; chunker_seek = none } in
      let after = record moved {
        next = record start.next { method = some m; url = url_of; headers = [] };
        request_line_parsed = true;
      } in
      let zero_end : end ≡ length line_of = omega arith in
      let parsed : parse_request_line buff 0 end ≡ ok (value (m, url_of)) =
        rw zero_end (line_read (13 ∷ 10 ∷ rest)) in
      let found = round_line max start line_of rest refl refl line_of-Lacks.0 in
      (
        after,
        found
            ∙ (take_line_first moved 0 end m url_of refl parsed
                ∙ ap ok (first_line_header after rest end zero_end refl)),
        refl,
        refl,
        behind_line buff 0 line_of rest refl,
        refl,
        refl,
      )

  -- A request that is buffered as a whole is read as it was written: its method, its path, and its
  -- headers added in order, up to the merging of the host and the credentials into the URL; and what
  -- follows the empty line stays in the buffer, and nothing is received. The path has no space, `?`, `#`, `:` or line feed, and
  -- the headers are written as `IsPlain` says. The server must run for one round a line.
  pub read_request_head-written :
      (hs : List HeaderText) (max_header_size checks : ℕ) (conn : Conn) (body : Bytes)
      → All IsPlain hs
      → suc (length hs) < checks
      → (l : HeadLoop) × (read_request_head checks max_header_size conn
            (line_of ++ 13 ∷ 10 ∷ lines_text hs body)
          ≡ merged l)
        × (l.read_buff ≡ body)
        × (l.next ≡ record { method = some m; url = url_of; headers = with_headers hs [] })
        × (l.conn ≡ conn)
  unfolding read_request_head head_loop
  read_request_head-written hs max zero conn body plain lt = absurd (omega arith)
  read_request_head-written hs max (suc checks) conn body plain lt =
      let (l, e, fresh, parsed, at, head, there) = first_round max conn (lines_text hs body) in
      let (l', e', rest, same, kept) =
        head_loop-lines hs max checks l body fresh parsed plain at (omega arith) in
      (
        l',
        rw (head_loop, e) e',
        rest,
        same ∙ ap (λ (r : RequestHead). record r { headers = with_headers hs r.headers }) head,
        kept ∙ there,
      )
