-- ===== src/Http/Trim.antt =====
-- http/values.cpp: `trim_space` and `reset_case`, which normalise every header and parameter name.
pub mod Laws
use lambda.Base.{
  ℕ, zero, suc, ◌+◌, ◌-◌, Bool, ◌&&◌, ◌||◌, [], ◌∷◌, map, Bytes, ◌==◌, ltb, leb, if◌then◌else◌,
  length, byte_at, substr,
}

-- `std::isspace` in the C locale.
unfoldable pub is_space : ℕ → Bool
is_space c = c == b' ' || leb 9 c && leb c 13

-- The loop that finds `trim_begin`.
unfoldable pub leading : Bytes → ℕ
leading [] = 0
leading (c ∷ cs) = if is_space c then suc (leading cs) else 0

-- The loop that finds `trim_end`, from an index down to 0.
unfoldable pub last_visible : Bytes → ℕ → ℕ
last_visible token zero = zero
last_visible token (suc i) =
    if is_space (byte_at token (suc i)) then last_visible token i else suc i

-- The count handed to `substr` is `trim_end - (trim_begin - 1)`, whose wrap at `trim_begin = 0`
-- cancels: it is `trim_end + 1 - trim_begin`.
unfoldable pub trim_space : Bytes → Bytes
unfolding leading last_visible
trim_space token =
    let trim_begin = leading token in
    let token_end = length token - 1 in
    let trim_end = last_visible token token_end in
    if length token == 0
    then []
    else if leb token_end trim_begin
    then []
    else if leb trim_end trim_begin
    then []
    else if ltb 0 trim_begin || ltb trim_begin token_end
    then substr token trim_begin (trim_end + 1 - trim_begin)
    else token

unfoldable pub lower_rune : ℕ → ℕ
lower_rune rune = if leb b'A' rune && leb rune b'Z' then rune + 0x20 else rune

unfoldable pub reset_case : Bytes → Bytes
unfolding lower_rune
reset_case token = map lower_rune (trim_space token)
