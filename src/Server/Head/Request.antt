-- ===== src/Server/Head/Request.antt =====
-- Request lines are read as they were written.
use lambda.Base.{
  ℕ, ◌+◌, ◌-◌, ◌<◌, ◌⊎◌, ◌∷◌, ◌++◌, ◌≡◌, ◌∙◌, refl, ap, arith, Bytes, codes, length, drop, drop-suc,
  first_in_hit, substr_at, drop_past, Lacks, ok,
}
use lambda.Http.Trim.{reset_case}
use lambda.Http.Method.{Method, method_to_string}
use lambda.Http.Method.Laws.{string_to_method_iff}
use lambda.Http.Url.{Url}
use lambda.Server.Head.{
  next_space, empty_url, parse_request_url, value, line_version, line_target, parse_request_line,
}
use lambda.Server.Head.Line.{
  next_token_here, next_token_space, parse_request_url-plain, visible_head, line_version_known,
}

pub method_text :
    (m : Method)
    → Lacks b' ' (method_to_string m) × (c : ℕ) × (cs : Bytes) × (method_to_string m ≡ c ∷ cs)
unfolding method_to_string
method_text Method.get = ((refl, (refl, (refl, tt))), b'G', codes "ET", refl)
method_text Method.post = ((refl, (refl, (refl, (refl, tt)))), b'P', codes "OST", refl)
method_text Method.put = ((refl, (refl, (refl, tt))), b'P', codes "UT", refl)
method_text Method.patch = ((refl, (refl, (refl, (refl, (refl, tt))))), b'P', codes "ATCH", refl)
method_text Method.del =
    ((refl, (refl, (refl, (refl, (refl, (refl, tt)))))), b'D', codes "ELETE", refl)
method_text Method.head = ((refl, (refl, (refl, (refl, tt)))), b'H', codes "EAD", refl)
method_text Method.options =
    ((refl, (refl, (refl, (refl, (refl, (refl, (refl, tt))))))), b'O', codes "PTIONS", refl)
method_text Method.trace = ((refl, (refl, (refl, (refl, (refl, tt))))), b'T', codes "RACE", refl)
method_text Method.connect =
    ((refl, (refl, (refl, (refl, (refl, (refl, (refl, tt))))))), b'C', codes "ONNECT", refl)

-- The text of a request line, from index i of the buffer.
module _ (buf : Bytes) (i : ℕ) (m : Method) (path name version rest : Bytes) (p n : ℕ)
    (ps ns : Bytes)
    (at : drop i buf
      ≡ method_to_string m ++ b' ' ∷ (path ++ b' ' ∷ (name ++ b'/' ∷ (version ++ rest))))
    (path_head : path ≡ p ∷ ps) (name_head : name ≡ n ∷ ns) (path_quiet : Lacks b' ' path)
    (name_quiet : Lacks b' ' name) (version_quiet : Lacks b' ' version) where
  abbrev url_at : ℕ
  url_at = i + length (method_to_string m) + 1

  abbrev url_end_at : ℕ
  url_end_at = url_at + length path

  line_target_known :
      (end : ℕ) (url : Url)
      → url_end_at < end
      → parse_request_url buf url_at url_end_at ≡ ok url
      → line_version buf m url url_end_at end ≡ value (m, url)
      → line_target buf m (i + length (method_to_string m)) end ≡ ok (value (m, url))
  unfolding line_target next_space
  line_target_known end url lt parsed versioned =
      let tail = name ++ b'/' ∷ (version ++ rest) in
      let method_end = i + length (method_to_string m) in
      let behind : drop method_end buf ≡ b' ' ∷ (path ++ b' ' ∷ tail) =
        drop_past buf i method_end (method_to_string m) (b' ' ∷ (path ++ b' ' ∷ tail)) at refl in
      let begins =
        next_token_space buf method_end end p (ps ++ b' ' ∷ tail)
          (visible_head path path_head path_quiet)
          (behind ∙ ap (λ t. b' ' ∷ (t ++ b' ' ∷ tail)) path_head) (omega arith) in
      let stops =
        first_in_hit buf b' ' url_at end path tail
          (drop-suc buf method_end b' ' (path ++ b' ' ∷ tail) behind) path_quiet lt in
      rw (begins, line_target, stops, parsed, versioned)

  abbrev line_end_at : ℕ
  line_end_at = url_end_at + 1 + length name + 1 + 3

  path_at : drop url_at buf ≡ path ++ b' ' ∷ (name ++ b'/' ∷ (version ++ rest))
  path_at =
      let tail = b' ' ∷ (name ++ b'/' ∷ (version ++ rest)) in
      let method_end = i + length (method_to_string m) in
      drop-suc buf method_end b' ' (path ++ tail)
        (drop_past buf i method_end (method_to_string m) (b' ' ∷ (path ++ tail)) at refl)

  version_at : drop url_end_at buf ≡ b' ' ∷ (name ++ b'/' ∷ (version ++ rest))
  version_at =
      drop_past buf url_at url_end_at path (b' ' ∷ (name ++ b'/' ∷ (version ++ rest))) path_at refl

  abbrev written_url : Url
  written_url = record empty_url { path = path }

  url_read :
      Lacks b'#' path → Lacks b'?' path → parse_request_url buf url_at url_end_at ≡ ok written_url
  url_read =
      parse_request_url-plain buf url_at url_end_at path (b' ' ∷ (name ++ b'/' ∷ (version ++ rest)))
        path_at refl

  version_read :
      Lacks b'/' name
      → reset_case name ≡ codes "http"
      → (version ≡ codes "1.0") ⊎ (version ≡ codes "1.1")
      → line_version buf m written_url url_end_at line_end_at ≡ value (m, written_url)
  version_read slash http known =
      let tail = name ++ b'/' ∷ (version ++ rest) in
      line_version_known buf (url_end_at + 1) name version rest
        (drop-suc buf url_end_at b' ' tail version_at) slash http known m written_url url_end_at n
        ns refl name_head version_at name_quiet version_quiet

  -- A line `METHOD path PROTOCOL/version` is read as that method and that path: for every method,
  -- a path that is not empty and has no space, `?` or `#`, the name of the protocol in any case,
  -- and version 1.0 or 1.1.
  pub parse_request_line-written :
      Lacks b'#' path
      → Lacks b'?' path
      → Lacks b'/' name
      → reset_case name ≡ codes "http"
      → (version ≡ codes "1.0") ⊎ (version ≡ codes "1.1")
      → parse_request_line buf i line_end_at ≡ ok (value (m, written_url))
  unfolding parse_request_line next_space
  parse_request_line-written hash query slash http known =
      let (quiet, c, cs, e) = method_text m in
      let tail = name ++ b'/' ∷ (version ++ rest) in
      let method_end = i + length (method_to_string m) in
      let behind = b' ' ∷ (path ++ b' ' ∷ tail) in
      let begins =
        next_token_here buf i line_end_at c (cs ++ behind)
          (visible_head (method_to_string m) e quiet) (at ∙ ap (λ t. t ++ behind) e)
          (omega arith) in
      let stops =
        first_in_hit buf b' ' i line_end_at (method_to_string m) (path ++ b' ' ∷ tail) at quiet
          (omega arith) in
      let sliced = substr_at buf i (method_end - i) (method_to_string m) behind at (omega arith) in
      let back = (string_to_method_iff (method_to_string m) m).1 refl in
      let targets =
        line_target_known line_end_at written_url (omega arith) (url_read hash query)
          (version_read slash http known) in
      rw (begins, parse_request_line, stops, sliced, back, targets)
