-- ===== src/Server/Head/Header.antt =====
-- Lines of headers, and the query of a target.
use lambda.Base.{
  ℕ, ◌+◌, ◌-◌, true, false, [], ◌∷◌, ◌++◌, append_assoc, append-nil, All-append, Option, none, some,
  suc, ◌≡◌, ◌∙◌, refl, ap, arith, Bytes, ◌==◌, length, length-append, drop, drop-suc, byte_at-drop,
  scan, scan_stronger, scan_stronger_none, first_in, first_in_hit, first_in_miss, is_at, slice,
  substr_at, drop_past, Lacks, ok, ◌>>=◌, >>=-map,
}
use lambda.Http.Values.{Values, append}
use lambda.Http.Url.Laws.{fragment_text}
use lambda.Http.Search.{parse_params}
use lambda.Server.Head.{
  next_token, empty_url, target_fragment, target_query, parse_request_url, splits_header,
  header_value, parse_header,
}
use lambda.Server.Head.Line.{next_token_here}

no_space :
    (buf : Bytes) (begin j : ℕ) → is_at buf b' ' j ≡ false → splits_header buf begin j ≡ false
no_space buf begin j h = rw h refl

-- A line `name: value` in the buffer at index i.
module _ (headers : Values) (buf : Bytes) (i j k v : ℕ) (ks vs rest : Bytes)
    (at : drop i buf ≡ (k ∷ ks) ++ b':' ∷ b' ' ∷ v ∷ (vs ++ rest))
    (e : j ≡ i + length (k ∷ ks) + 2 + length (v ∷ vs)) (quiet : Lacks b' ' (k ∷ ks))
    (visible : (v == b' ') ≡ false) where
  abbrev colon_at : ℕ
  colon_at = i + length (k ∷ ks)

  behind_key : drop colon_at buf ≡ b':' ∷ b' ' ∷ v ∷ (vs ++ rest)
  behind_key = drop_past buf i colon_at (k ∷ ks) (b':' ∷ b' ' ∷ v ∷ (vs ++ rest)) at refl

  behind_colon : drop (colon_at + 1) buf ≡ b' ' ∷ v ∷ (vs ++ rest)
  behind_colon = drop-suc buf colon_at b':' (b' ' ∷ v ∷ (vs ++ rest)) behind_key

  -- The first space is the one behind the colon.
  space_found : first_in (is_at buf b' ') i j ≡ some (colon_at + 1)
  space_found =
      let text = (k ∷ ks) ++ b':' ∷ [] in
      let size : length text ≡ length (k ∷ ks) + 1 = length-append (k ∷ ks) (b':' ∷ []) in
      let here : drop i buf ≡ text ++ b' ' ∷ v ∷ (vs ++ rest) =
        rw (append_assoc (k ∷ ks) (b':' ∷ []) (b' ' ∷ v ∷ (vs ++ rest))) at in
      first_in_hit buf b' ' i j text (v ∷ (vs ++ rest)) here
        (All-append (λ x. (x == b' ') ≡ false) (k ∷ ks) (b':' ∷ []) quiet (refl, tt))
        (omega (arith, size))
      ∙ ap some (omega (arith, size))

  splits_here : splits_header buf i (colon_at + 1) ≡ true
  splits_here =
      let colon = byte_at-drop buf colon_at b':' (b' ' ∷ v ∷ (vs ++ rest)) behind_key in
      let space = byte_at-drop buf (colon_at + 1) b' ' (v ∷ (vs ++ rest)) behind_colon in
      let back : colon_at + 1 - 1 ≡ colon_at = omega arith in rw (space, back, colon) (ground arith)

  split_found : first_in (splits_header buf i) i j ≡ some (colon_at + 1)
  split_found =
      scan_stronger (is_at buf b' ') (splits_header buf i) (no_space buf i) i (j - i) (colon_at + 1)
        space_found splits_here

  header_value_written : header_value headers buf i colon_at j ≡ append headers (k ∷ ks) (v ∷ vs)
  unfolding header_value
  header_value_written =
      let key =
        substr_at buf i (colon_at - i) (k ∷ ks) (b':' ∷ b' ' ∷ v ∷ (vs ++ rest)) at (omega arith) in
      let two : colon_at + 1 + 1 ≡ colon_at + 2 = omega arith in
      let behind_space : drop (colon_at + 2) buf ≡ v ∷ (vs ++ rest) =
        rw (← two) (drop-suc buf (colon_at + 1) b' ' (v ∷ (vs ++ rest)) behind_colon) in
      let begins =
        next_token_here buf (colon_at + 2) j v (vs ++ rest) visible behind_space (omega arith) in
      let text =
        substr_at buf (colon_at + 2) (j - (colon_at + 2)) (v ∷ vs) rest behind_space
          (omega arith) in
      rw (begins, header_value, key, text) (ground arith)

  -- A line `name: value` is added to the headers under its name, whatever stands in the value, if the
  -- name is not empty and has no space and the value does not begin with one.
  pub parse_header-written : parse_header headers buf i j ≡ append headers (k ∷ ks) (v ∷ vs)
  unfolding parse_header
  parse_header-written =
      let begins =
        next_token_here buf i j k (ks ++ b':' ∷ b' ' ∷ v ∷ (vs ++ rest)) quiet.0 at (omega arith) in
      let back : colon_at + 1 - 1 ≡ colon_at = omega arith in
      rw (begins, parse_header, split_found, back, header_value_written) (ground arith)

no_token : (buf : Bytes) (i j : ℕ) → j - i ≡ 0 → next_token buf i j ≡ none
unfolding next_token scan
no_token buf i j e = rw e

-- A line without a space adds no header: `name:value`, with no space behind the colon, is dropped.
pub parse_header_no_space :
    (headers : Values) (buf : Bytes) (i j : ℕ) (text rest : Bytes)
    → drop i buf ≡ text ++ rest
    → Lacks b' ' text
    → j ≡ i + length text
    → parse_header headers buf i j ≡ headers
unfolding parse_header
parse_header_no_space headers buf i j [] rest at quiet e =
    rw (no_token buf i j (omega arith), parse_header)
parse_header_no_space headers buf i j (c ∷ cs) rest at quiet e =
    let begins = next_token_here buf i j c (cs ++ rest) quiet.0 at (omega arith) in
    let none_splits =
      scan_stronger_none (is_at buf b' ') (splits_header buf i) (no_space buf i) i (j - i)
        (first_in_miss buf b' ' i j (c ∷ cs) rest at quiet e) in
    rw (begins, parse_header, none_splits)

target_fragment_lem :
    (buf text rest : Bytes) (f : Option Bytes) (i j : ℕ)
    → drop i buf ≡ (text ++ fragment_text f) ++ rest
    → j ≡ i + length (text ++ fragment_text f)
    → Lacks b'#' text
    → target_fragment buf i j ≡ (fragment_text f, i + length text)
unfolding target_fragment
target_fragment_lem buf text rest none i j at e hash =
    let bare = append-nil text in
    let size : j ≡ i + length text = e ∙ ap (λ t. i + length t) bare in
    let here : drop i buf ≡ text ++ rest = at ∙ ap (λ t. t ++ rest) bare in
    rw (first_in_miss buf b'#' i j text rest here hash size, target_fragment) (rw size refl)
target_fragment_lem buf text rest (some f) i j at e hash =
    let here : drop i buf ≡ text ++ b'#' ∷ (f ++ rest) = at ∙ append_assoc text (b'#' ∷ f) rest in
    let size : j ≡ i + length text + suc (length f) =
      omega (arith, e, length-append text (b'#' ∷ f)) in
    let behind = drop_past buf i (i + length text) text (b'#' ∷ (f ++ rest)) here refl in
    rw (first_in_hit buf b'#' i j text (f ++ rest) here hash (omega (arith, size)), target_fragment)
      (rw (
        substr_at buf (i + length text) (j - (i + length text)) (b'#' ∷ f) rest behind
          (omega (arith, size))))

-- A target with a query, with or without a fragment behind it, has no path left: the path is empty,
-- whatever stands in front of the first question mark, as long as no number sign stands in front of
-- it or in the query. The query goes to the parser of parameters, and the fragment keeps its number
-- sign.
pub parse_request_url_query :
    (buf : Bytes) (i j : ℕ) (path query rest : Bytes) (f : Option Bytes)
    → drop i buf ≡ ((path ++ b'?' ∷ query) ++ fragment_text f) ++ rest
    → j ≡ i + length ((path ++ b'?' ∷ query) ++ fragment_text f)
    → Lacks b'#' (path ++ b'?' ∷ query)
    → Lacks b'?' path
    → parse_request_url buf i j ≡ (
        parse_params query >>= λ search.
        ok (record empty_url { search = search; fragment = fragment_text f }))
unfolding parse_request_url target_query
parse_request_url_query buf i j path query rest f at e hash mark =
    let text = path ++ b'?' ∷ query in
    let tail = fragment_text f ++ rest in
    let stop = i + length text in
    let here : drop i buf ≡ path ++ b'?' ∷ (query ++ tail) =
      at ∙ append_assoc text (fragment_text f) rest ∙ append_assoc path (b'?' ∷ query) tail in
    let size = length-append path (b'?' ∷ query) in
    let mark_at = i + length path in
    let behind =
      drop-suc buf mark_at b'?' (query ++ tail)
        (drop_past buf i mark_at path (b'?' ∷ (query ++ tail)) here refl) in
    let text_read =
      substr_at buf (mark_at + 1) (stop - (mark_at + 1)) query tail behind (omega (arith, size)) in
    let fragment = target_fragment_lem buf text rest f i j at e hash in
    let query_read : target_query buf i stop
        ≡ (parse_params query >>= λ search. ok (search, stop)) =
      rw (
        first_in_hit buf b'?' i stop path (query ++ tail) here mark (omega (arith, size)),
        target_query,
        text_read,
      ) in
    let nothing : stop - stop ≡ 0 = omega arith in
    rw (fragment, query_read)
      (>>=-map (parse_params query) (λ search. (search, stop))
          (λ query'. ok (record empty_url {
            path = slice buf query'.1 stop;
            search = query'.0;
            fragment = fragment_text f;
          }))
        ∙ rw nothing refl)
