-- ===== src/Http/Auth.antt =====
-- http/basic_auth.cpp: the credentials of an `Authorization` header. The decoder of base64 may
-- leave the bounds of its buffer (`Error.fault`), and so may this function.
pub mod Laws
use lambda.Base.{
  ℕ, zero, suc, ◌+◌, ◌-◌, Bool, true, false, not, ◌&&◌, ◌||◌, List, [], ◌∷◌, ◌++◌, map, Option,
  none, some, Bytes, codes, equal, ◌==◌, if◌then◌else◌, length, is_empty, byte_at, take, drop,
  first_in, is_at, slice, substr, Result, ok, err, ◌>>=◌,
}
use lambda.Base64.{valid, decode}
use lambda.Http.Trim.{lower_rune}

pub record BasicAuth : Type 0 where
  pub user : Bytes
  pub password : Bytes

-- The loop that sets `scheme_end` and `token_begin`, with `left` rounds to go.
unfoldable pub find_token : Bytes → ℕ → ℕ → Option ℕ → Option ℕ × Option ℕ
find_token header zero idx scheme_end = (scheme_end, none)
find_token header (suc left) idx none =
    find_token header left (idx + 1) (if byte_at header idx == b' ' then some idx else none)
find_token header (suc left) idx (some e) =
    let rest = find_token header left (idx + 1) (some e) in
    if byte_at header idx == b' ' then rest else (some e, some idx)

-- The part behind the decoder: the pair is split at its first colon.
unfoldable pub split_pair : Bytes → Option BasicAuth
split_pair pair = elim (first_in (is_at pair b':') 0 (length pair)) [
  | none ↦ none
  | some split ↦
      if split == 0
      then none
      else some (record { user = take split pair; password = drop (split + 1) pair })
]

-- The part behind the loop, at the token's bounds.
unfoldable pub parse_basic_token : Bytes → ℕ → ℕ → Result (Option BasicAuth)
unfolding split_pair
parse_basic_token header scheme_end token_begin =
    let scheme = map lower_rune (substr header 0 scheme_end) in
    let token = drop token_begin header in
    if not (equal scheme (codes "basic"))
    then ok none
    else if not (valid token)
    then ok none
    else decode token >>= λ pair. ok (split_pair pair)

abbrev with_bounds : Bytes → Option ℕ × Option ℕ → Result (Option BasicAuth)
with_bounds header (none, token_begin) = ok none
with_bounds header (some e, none) = ok none
with_bounds header (some e, some b) = parse_basic_token header e b

unfoldable pub parse_basic_auth : Bytes → Result (Option BasicAuth)
parse_basic_auth header =
    if is_empty header
    then ok none
    else with_bounds header (find_token header (length header) 0 none)
