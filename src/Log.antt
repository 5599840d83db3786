-- ===== src/Log.antt =====
-- log/fmt.cpp: `format_message`, and what `log` and `err` write. A parameter is its text; the two
-- streams are separate, and a lock keeps each message whole.
use lambda.Base.{
  ℕ, zero, suc, ◌+◌, ◌-◌, Bool, true, false, not, ◌&&◌, List, [], ◌∷◌, ◌++◌, Bytes, ltb, ◌==◌,
  if◌then◌else◌, byte_at, slice, length, is_empty, ◌≡◌, refl, codes,
}

-- Two brackets with nothing between them.
abbrev placeholder : Bytes → ℕ → Bool
placeholder format idx =
    byte_at format idx == b'{' && (ltb idx (length format - 1) && byte_at format (idx + 1) == b'}')

-- The first parameter in front of the text behind the placeholder, if there is one.
abbrev filled : List Bytes → Bytes
filled [] = []
filled (value ∷ params) = value

abbrev later : List Bytes → List Bytes
later [] = []
later (value ∷ params) = params

abbrev has_params : List Bytes → Bool
has_params [] = false
has_params (value ∷ params) = true

-- Each round passes one rune at least, so that the size of the format is fuel enough.
unfoldable pub format_runes : ℕ → Bytes → List Bytes → ℕ → ℕ → Bytes
format_runes zero format params idx token_start = slice format token_start (length format)
format_runes (suc fuel) format params idx token_start =
    let put = placeholder format idx && has_params params in
    let rest =
      format_runes fuel format (if put then later params else params)
        (if put then idx + 2 else idx + 1) (if put then idx + 2 else token_start) in
    if not (ltb idx (length format))
    then slice format token_start (length format)
    else if put
    then slice format token_start idx ++ (filled params ++ rest)
    else rest

unfoldable pub format_message : Bytes → List Bytes → Bytes
unfolding format_runes
format_message format params = format_runes (length format) format params 0 0

-- A message ends its line.
unfoldable pub log : Bytes → Bytes
log message =
    if not (is_empty message) && byte_at message (length message - 1) == 10
    then message
    else message ++ 10 ∷ []

unfoldable pub log_format : Bytes → List Bytes → Bytes
unfolding format_message log
log_format format params = log (format_message format params)

message_filled :
    log_format (codes "{} of {}: {}!") (codes "a" ∷ codes "b" ∷ []) ≡ codes "a of b: {}!\n"
unfolding log_format
message_filled = refl
