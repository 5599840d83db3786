-- ===== src/Server/Head.antt =====
-- server/pipeline_h1_rx.cpp: the parsers of request lines and of header lines. An index that was not
-- found is `none`, for the source's `nullidx`.
pub mod Line
pub mod Loop
pub mod Whole
pub mod Written
pub mod Lines
pub mod Ends
pub mod Resume
pub mod Header
pub mod Request
use lambda.Base.{
  ℕ, zero, suc, ◌+◌, ◌-◌, Bool, true, false, not, ◌&&◌, ◌||◌, [], ◌++◌, Option, none, some, Bytes,
  codes, equal, ◌==◌, ltb, leb, if◌then◌else◌, length, is_empty, drop, byte_at, first_in, is_at,
  slice, Result, ok, err, ◌>>=◌,
}
use lambda.Base.Decimal.{strtoul}
use lambda.Http.Trim.{reset_case}
use lambda.Http.Values.{Values, get, append}
use lambda.Http.Method.{Method, string_to_method}
use lambda.Http.Search.{at_or, parse_params}
use lambda.Http.Auth.{parse_basic_auth}
use lambda.Http.Url.{Url}
use lambda.Net.Conn.{Conn, read}
use lambda.Server.Status.{Status}

unfoldable pub next_space : Bytes → ℕ → ℕ → Option ℕ
next_space buf begin end = first_in (is_at buf b' ') begin end

unfoldable pub next_token : Bytes → ℕ → ℕ → Option ℕ
next_token buf begin end = first_in (λ i. not (is_at buf b' ' i)) begin end

-- The test of `next_line`: a line feed behind a carriage return, both in the range.
abbrev pub ends_line : Bytes → ℕ → ℕ → Bool
ends_line buf begin i = is_at buf 10 i && ltb begin i && is_at buf 13 (i - 1)

unfoldable pub next_line : Bytes → ℕ → ℕ → Option ℕ
next_line buf begin end = elim (first_in (ends_line buf begin) begin end) [
  | none ↦ none
  | some idx ↦ some (idx - 1)
]

abbrev pub empty_url : Url
empty_url = record { scheme = []; user = none; host = []; path = []; search = []; fragment = [] }

-- The fragment with its `#`, and the end of what stands in front of it.
unfoldable pub target_fragment : Bytes → ℕ → ℕ → Bytes × ℕ
target_fragment buf begin end = elim (first_in (is_at buf b'#') begin end) [
  | none ↦ ([], end)
  | some idx ↦ (slice buf idx end, idx)
]

-- The query, and where the source takes the path from: the end, once there is a query.
unfoldable pub target_query : Bytes → ℕ → ℕ → Result (Values × ℕ)
target_query buf begin end = elim (first_in (is_at buf b'?') begin end) [
  | none ↦ ok ([], begin)
  | some idx ↦ parse_params (slice buf (idx + 1) end) >>= λ search. ok (search, end)
]

unfoldable pub parse_request_url : Bytes → ℕ → ℕ → Result Url
unfolding target_fragment target_query
parse_request_url buf begin end =
    let fragment = target_fragment buf begin end in
    target_query buf begin fragment.1 >>= λ query. ok (record empty_url {
      path = slice buf query.1 fragment.1;
      search = query.0;
      fragment = fragment.0;
    })

unfoldable pub is_valid_http_version : Bytes → ℕ → ℕ → Bool
is_valid_http_version buf begin end = elim (first_in (is_at buf b'/') begin end) [
  | none ↦ false
  | some prefix_end ↦
      let version_start = prefix_end + 1 in
      let version = slice buf version_start end in
      ltb version_start end
      && equal (reset_case (slice buf begin prefix_end)) (codes "http")
      && (equal version (codes "1.0") || equal version (codes "1.1"))
]

pub record RequestHead : Type 0 where
  pub method : Option Method
  pub url : Url
  pub headers : Values

-- `std::expected`
pub data Expected {ℓ κ} (A : Type ℓ) (E : Type κ) : Type (ℓ ⊔ κ) where
  value : A → Expected A E
  unexpected : E → Expected A E

-- What a request line says: its method and its URL, or what is wrong with it.
abbrev pub RequestLine : Type 0
RequestLine = Expected (Method × Url) Bytes

abbrev pub spacing_invalid : RequestLine
spacing_invalid = unexpected (codes "Request line invalid: invalid spacing")

-- `parse_request_line` behind the URL.
unfoldable pub line_version : Bytes → Method → Url → ℕ → ℕ → RequestLine
line_version buf method url url_end end = elim (next_token buf url_end end) [
  | none ↦ spacing_invalid
  | some begin ↦
      if is_valid_http_version buf begin (at_or (next_space buf begin end) end)
      then value (method, url)
      else unexpected (codes "Unsupported http version")
]

-- `parse_request_line` behind the method.
unfoldable pub line_target : Bytes → Method → ℕ → ℕ → Result RequestLine
unfolding line_version
line_target buf method method_end end = elim (next_token buf method_end end) [
  | none ↦ ok spacing_invalid
  | some begin ↦ elim (next_space buf begin end) [
    | none ↦ ok (unexpected (codes "Request line invalid: no defined url"))
    | some url_end ↦
        parse_request_url buf begin url_end >>= λ url. ok (line_version buf method url url_end end)
  ]
]

unfoldable pub parse_request_line : Bytes → ℕ → ℕ → Result RequestLine
parse_request_line buf line_begin end = elim (next_token buf line_begin end) [
  | none ↦ ok spacing_invalid
  | some begin ↦ elim (next_space buf begin end) [
    | none ↦ ok (unexpected (codes "Request line invalid: no defined method"))
    | some method_end ↦ elim (string_to_method (slice buf begin method_end)) [
      | none ↦ ok (unexpected (codes "Invlid http method"))
      | some method ↦ line_target buf method method_end end
    ]
  ]
]

-- `parse_header` behind the colon.
unfoldable pub header_value : Values → Bytes → ℕ → ℕ → ℕ → Values
header_value headers buf begin split end = elim (next_token buf (split + 2) end) [
  | none ↦ headers
  | some value_begin ↦
      if ltb (end - value_begin) 1
      then headers
      else append headers (slice buf begin split) (slice buf value_begin end)
]

-- The test of `parse_header`: a space behind a colon.
abbrev pub splits_header : Bytes → ℕ → ℕ → Bool
splits_header buf begin i = is_at buf b' ' i && ltb begin i && is_at buf b':' (i - 1)

unfoldable pub parse_header : Values → Bytes → ℕ → ℕ → Values
parse_header headers buf line_begin end = elim (next_token buf line_begin end) [
  | none ↦ headers
  | some begin ↦ elim (first_in (splits_header buf begin) begin end) [
    | none ↦ headers
    | some idx ↦
        if ltb ((idx - 1) - begin) 1 then headers else header_value headers buf begin (idx - 1) end
  ]
]

unfoldable pub merge_url_components : Url → Values → Result Url
merge_url_components url headers =
    let host = get headers (codes "host") in
    parse_basic_auth (get headers (codes "authorization")) >>= λ user. ok (record url {
      scheme = codes "http";
      user = user;
      host = if is_empty host then codes "localhost" else host;
      path = if is_empty url.path then codes "/" else url.path;
    })

unfoldable pub content_length : Values → Option ℕ
content_length headers =
    let text = get headers (codes "content-length") in
    if is_empty text then none else some (strtoul text)
