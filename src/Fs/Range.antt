-- ===== src/Fs/Range.antt =====
-- fs/static_serve.cpp: `get_range`, the bytes that a request asks for.
use lambda.Base.{
  ℕ, ◌+◌, ◌-◌, not, Option, none, some, Bytes, codes, ltb, if◌then◌else◌, is_at, first_in, substr,
  is_empty, length, drop, starts_with, Result, ok, err, ◌>>=◌,
}
use lambda.Base.Decimal.{stoul}
use lambda.Http.Values.{Values, get}

pub record Range : Type 0 where
  pub begin : ℕ
  pub end : ℕ

-- `catch(...) { return std::nullopt; }`
abbrev caught : Result Range → Option Range
caught (ok range) = some range
caught (err e) = none

abbrev pub prefix : Bytes
prefix = codes "bytes="

-- The two numbers around the token.
unfoldable pub range_around : Bytes → ℕ → ℕ → Option Range
range_around range_header file_size range_token =
    let range_begin = length prefix in
    let range_end = length range_header in
    let first =
      if ltb 0 (range_token - range_begin)
      then stoul (substr range_header range_begin (range_token - range_begin))
      else ok 0 in
    let last =
      if ltb 1 (range_end - range_token)
      then stoul (drop (range_token + 1) range_header)
      else ok file_size in
    caught (first >>= λ b. last >>= λ e. ok (record { begin = b; end = e }))

unfoldable pub get_range : Values → ℕ → Option Range
unfolding range_around
get_range headers file_size =
    let range_header = get headers (codes "range") in
    if is_empty range_header
    then none
    else if not (starts_with prefix range_header)
    then none
    else elim (first_in (is_at range_header b'-') (length prefix) (length range_header)) [
      | none ↦ none
      | some range_token ↦ range_around range_header file_size range_token
    ]
