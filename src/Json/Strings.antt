-- ===== src/Json/Strings.antt =====
-- json/parse.cpp: parse_string, and json/stringify.cpp: rune_replace.
use lambda.Base.{
  ℕ, zero, suc, ◌+◌, ◌-◌, Bool, false, not, ◌&&◌, ◌||◌, [], ◌∷◌, ◌++◌, Bytes, codes, ltb, ◌==◌,
  if◌then◌else◌, byte_at, is_empty, Result, ok, err, Error, ◌>>=◌,
}
use lambda.Json.Entries.{is_valid_escaped_quote}

-- Whether the loop meets a quote that is not escaped.
unfoldable pub bare_quote : Bytes → ℕ → ℕ → ℕ → Bool
bare_quote buf begin zero idx = false
bare_quote buf begin (suc left) idx =
    byte_at buf idx == b'"' && not (is_valid_escaped_quote buf idx begin)
    || bare_quote buf begin left (idx + 1)

abbrev pub escaped_rune : ℕ → Result ℕ
escaped_rune c =
    if c == b'n'
    then ok 10
    else if c == b'r'
    then ok 13
    else if c == b't'
    then ok 9
    else if c == b'"'
    then ok b'"'
    else if c == b'\\'
    then ok b'\\'
    else err Error.json_escape_invalid

-- The rune that an escape sequence stands for.
unfoldable pub escape : Bytes → ℕ → ℕ → Result ℕ
escape buf idx end =
    let have_next = end - idx in
    if have_next == 0
    then err Error.json_backslash_last
    else if not (byte_at buf (idx + 1) == b'\\')
    then err Error.json_backslash_single
    else if ltb have_next 2
    then err Error.json_escape_incomplete
    else escaped_rune (byte_at buf (idx + 2))

-- Each round passes one index at least, so the fuel `end - idx` does not run out before the end.
unfoldable pub unescape : ℕ → Bytes → ℕ → ℕ → Result Bytes
unfolding escape
unescape zero buf idx end = ok []
unescape (suc fuel) buf idx end =
    let rune = byte_at buf idx in
    let rest = unescape fuel buf (if rune == b'\\' then idx + 3 else idx + 1) end in
    if ltb idx end
    then (if rune == b'\\'
        then escape buf idx end >>= (λ c. rest >>= λ cs. ok (c ∷ cs))
        else rest >>= (λ cs. ok (rune ∷ cs)))
    else ok []

unfoldable pub parse_string : Bytes → ℕ → ℕ → Result Bytes
unfolding unescape bare_quote
parse_string buf begin end =
    if not (byte_at buf begin == b'"') || not (byte_at buf (end - 1) == b'"')
    then err Error.json_string_bounds
    else if bare_quote buf (begin + 1) (end - 1 - (begin + 1)) (begin + 1)
    then err Error.json_quote_unescaped
    else unescape (end - 1 - (begin + 1)) buf (begin + 1) (end - 1)

unfoldable pub rune_replace : ℕ → Bytes
rune_replace rune =
    if rune == 10
    then codes "\\\\n"
    else if rune == 27
    then codes "\\\\r"
    else if rune == 9
    then codes "\\\\t"
    else if rune == b'"'
    then codes "\\\""
    else []

-- The loop of `stringify` over the content of a string.
unfoldable pub escape_text : Bytes → Bytes
unfolding rune_replace
escape_text [] = []
escape_text (rune ∷ content) =
    let escaped = rune_replace rune in
    (if is_empty escaped then rune ∷ [] else escaped) ++ escape_text content
