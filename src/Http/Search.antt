-- ===== src/Http/Search.antt =====
-- http/url_search_params.cpp: `URLSearchParams`, a `Values` read from and written to a query.
pub mod Loop
pub mod RoundTrip
use lambda.Base.{
  ℕ, zero, suc, ◌+◌, ◌-◌, ◌||◌, List, [], ◌∷◌, ◌++◌, Option, none, some, Bytes, ◌==◌, leb,
  if◌then◌else◌, length, is_empty, byte_at, first_in, is_at, substr, Result, ok, ◌>>=◌,
}
use lambda.Http.Uri.{encode_uri_component, decode_uri_component}
use lambda.Http.Values.{Values, append, entries}

abbrev pub at_or {ℓ} : {A : Type ℓ} → Option A → A → A
at_or none d = d
at_or (some a) d = a

-- The lambda `parse_token`. For `token_end = 0` the source's `token_end - 1` wraps, but there
-- `token_split = token_start` returns first.
unfoldable pub parse_token : Bytes → Values → ℕ → ℕ → Result Values
parse_token params m token_start token_end =
    let token_split = at_or (first_in (is_at params b'=') token_start token_end) token_end in
    if token_split == token_start || leb (token_end - 1) token_split then ok m else (do
      key ← decode_uri_component (substr params token_start (token_split - token_start))
      value ← decode_uri_component (substr params (token_split + 1) (token_end - token_split - 1))
      ok (append m key value))

-- The loop over `idx`, with `left` rounds to go.
unfoldable pub parse_pairs : Bytes → ℕ → ℕ → ℕ → Values → Result Values
unfolding parse_token
parse_pairs params zero idx pair_start m = ok m
parse_pairs params (suc left) idx pair_start m =
    let after =
      parse_token params m pair_start idx
      >>= (λ m'. parse_pairs params left (idx + 1) (idx + 1) m') in
    let next = parse_pairs params left (idx + 1) pair_start m in
    if byte_at params idx == b'&'
    then after
    else if idx == length params - 1
    then parse_token params m pair_start (length params)
    else next

unfoldable pub parse_params : Bytes → Result Values
unfolding parse_pairs
parse_params params = parse_pairs params (length params) 0 0 []

-- The two loops of `to_string` visit the entries in order.
unfoldable pub join_entries : Bytes → List (Bytes × Bytes) → Bytes
join_entries search [] = search
join_entries search ((key, value) ∷ rest) =
    let separated = if is_empty search then search else search ++ b'&' ∷ [] in
    join_entries
      (separated ++ encode_uri_component key ++ (b'=' ∷ []) ++ encode_uri_component value) rest

unfoldable pub params_to_string : Values → Bytes
unfolding join_entries
params_to_string m = join_entries [] (entries m)
