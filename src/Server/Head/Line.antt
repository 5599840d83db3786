-- ===== src/Server/Head/Line.antt =====
-- What a request line says is what was written in it.
use lambda.Base.{
  ℕ, ◌+◌, ◌-◌, ◌<◌, true, false, not, ◌||◌, ◌⊎◌, inl, inr, [], ◌∷◌, ◌++◌, append_assoc, All-append,
  none, some, ◌≡◌, ◌∙◌, refl, ap, arith, Bytes, codes, equal, equal_self, ◌==◌, length,
  length-append, drop, drop-suc, scan_hit, first_in_hit, first_in_miss, substr_at, drop_past, Lacks,
  ok,
}
use lambda.Http.Trim.{reset_case}
use lambda.Http.Method.{Method}
use lambda.Http.Url.{Url}
use lambda.Server.Head.{
  next_space, next_token, empty_url, target_fragment, target_query, parse_request_url,
  is_valid_http_version, value, line_version,
}

-- The token that begins at the index, and the one behind a space.
module _ (buf : Bytes) (i j c : ℕ) (rest : Bytes) (visible : (c == b' ') ≡ false) where
  pub next_token_here : drop i buf ≡ c ∷ rest → i < j → next_token buf i j ≡ some i
  unfolding next_token
  next_token_here at lt =
      scan_hit (λ x. not (x == b' ')) buf [] i c rest (j - i) at tt (rw visible refl) (omega arith)
      ∙ ap some (omega arith)

  pub next_token_space :
      drop i buf ≡ b' ' ∷ c ∷ rest → i + 1 < j → next_token buf i j ≡ some (i + 1)
  unfolding next_token
  next_token_space at lt =
      scan_hit (λ x. not (x == b' ')) buf (b' ' ∷ []) i c rest (j - i) at (refl, tt)
        (rw visible refl) (omega arith)

-- The text of a request target stands between two indices.
module _ (buf : Bytes) (i j : ℕ) (path rest : Bytes) where
  pub parse_request_url-plain :
      drop i buf ≡ path ++ rest
      → j ≡ i + length path
      → Lacks b'#' path
      → Lacks b'?' path
      → parse_request_url buf i j ≡ ok (record empty_url { path = path })
  unfolding parse_request_url target_fragment target_query
  parse_request_url-plain at e hash query = rw (
    first_in_miss buf b'#' i j path rest at hash e,
    target_fragment,
    first_in_miss buf b'?' i j path rest at query e,
    target_query,
    substr_at buf i (j - i) path rest at (omega arith),
  )

pub visible_head :
    (name : Bytes) {c : ℕ} {cs : Bytes} → name ≡ c ∷ cs → Lacks b' ' name → (c == b' ') ≡ false
visible_head [] e h = cc
visible_head (x ∷ name) e h = ground (arith, h.0)

-- A version behind the target: the protocol's name in any case, and 1.0 or 1.1.
module _ (buf : Bytes) (i : ℕ) (name version rest : Bytes)
    (at : drop i buf ≡ name ++ b'/' ∷ (version ++ rest)) (slash : Lacks b'/' name)
    (http : reset_case name ≡ codes "http")
    (known : (version ≡ codes "1.0") ⊎ (version ≡ codes "1.1")) where
  abbrev slash_at : ℕ
  slash_at = i + length name

  abbrev version_end : ℕ
  version_end = slash_at + 1 + 3

  known_length : length version ≡ 3
  known_length = elim known [ inl e ↦ ap length e | inr e ↦ ap length e ]

  version_at : drop (slash_at + 1) buf ≡ version ++ rest
  version_at =
      drop-suc buf slash_at b'/' (version ++ rest)
        (drop_past buf i slash_at name (b'/' ∷ (version ++ rest)) at refl)

  version_known : (equal version (codes "1.0") || equal version (codes "1.1")) ≡ true
  unfolding equal
  version_known = elim known [ inl e ↦ rw e refl | inr e ↦ rw e refl ]

  pub is_valid_http_version_known : is_valid_http_version buf i version_end ≡ true
  unfolding is_valid_http_version
  is_valid_http_version_known =
      let found =
        first_in_hit buf b'/' i version_end name (version ++ rest) at slash (omega arith) in
      let prefix =
        substr_at buf i (slash_at - i) name (b'/' ∷ (version ++ rest)) at (omega arith) in
      let number =
        substr_at buf (slash_at + 1) (version_end - (slash_at + 1)) version rest version_at
          (omega (arith, known_length)) in
      rw
        (
          found,
          is_valid_http_version,
          prefix,
          number,
          http,
          version_known,
          equal_self (codes "http"),
        )
        (ground arith)

  -- The version is the last token of the line.
  version_last : Lacks b' ' name → Lacks b' ' version → next_space buf i version_end ≡ none
  unfolding next_space
  version_last quiet quiet_version =
      let text = name ++ b'/' ∷ version in
      let here : drop i buf ≡ text ++ rest = rw (append_assoc name (b'/' ∷ version) rest) at in
      first_in_miss buf b' ' i version_end text rest here
        (All-append (λ x. (x == b' ') ≡ false) name (b'/' ∷ version) quiet (refl, quiet_version))
        (omega (arith, length-append name (b'/' ∷ version), known_length))

  pub line_version_known :
      (m : Method) (url : Url) (url_end : ℕ) (c : ℕ) (cs : Bytes)
      → i ≡ url_end + 1
      → name ≡ c ∷ cs
      → drop url_end buf ≡ b' ' ∷ (name ++ b'/' ∷ (version ++ rest))
      → Lacks b' ' name
      → Lacks b' ' version
      → line_version buf m url url_end version_end ≡ value (m, url)
  unfolding line_version
  line_version_known m url url_end c cs e head space quiet quiet_version =
      let tail = cs ++ b'/' ∷ (version ++ rest) in
      let begins : next_token buf url_end version_end ≡ some i =
        next_token_space buf url_end version_end c tail (visible_head name head quiet)
          (space ∙ ap (λ t. b' ' ∷ (t ++ b'/' ∷ (version ++ rest))) head) (omega arith)
        ∙ ap some (omega arith) in
      rw (begins, line_version, version_last quiet quiet_version, is_valid_http_version_known)
