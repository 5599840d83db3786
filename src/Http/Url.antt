-- ===== src/Http/Url.antt =====
-- http/url.cpp: the parser of an absolute or relative URL, and its two printers.
pub mod Laws
pub mod Credentials
use lambda.Base.{
  ℕ, zero, suc, ◌+◌, ◌-◌, Bool, true, false, not, ◌&&◌, ◌||◌, List, [], ◌∷◌, ◌++◌, map, Option,
  none, some, Bytes, codes, equal, ◌==◌, ltb, if◌then◌else◌, length, is_empty, byte_at, take, drop,
  first_in, is_at, find_text, starts_with, substr, Result, ok, err, Error, ◌>>=◌,
}
use lambda.Http.Trim.{reset_case}
use lambda.Http.Uri.{encode_uri_component}
use lambda.Http.Values.{Values, empty}
use lambda.Http.Search.{parse_params, params_to_string}
use lambda.Http.Auth.{BasicAuth}

pub record Url : Type 0 where
  pub scheme : Bytes
  pub user : Option BasicAuth
  pub host : Bytes
  pub path : Bytes
  pub search : Values
  pub fragment : Bytes

-- The lambda `parse_credentials`.
unfoldable pub parse_credentials : Bytes → ℕ → ℕ → Option BasicAuth
parse_credentials url token_begin token_end =
    if ltb (token_end - token_begin) 2
    then none
    else elim (first_in (is_at url b':') token_begin token_end) [
      | none ↦
          some (record { user = substr url token_begin (token_end - token_begin); password = [] })
      | some auth_split ↦
          let password_start = auth_split + 1 in
          if ltb (auth_split - token_begin) 1
          then none
          else some (record {
            user = substr url token_begin (auth_split - token_begin);
            password =
                if ltb 0 (token_end - password_start)
                then substr url password_start (token_end - password_start)
                else [];
          })
    ]

-- Where the scheme ends, and the place behind `://`.
unfoldable pub scheme_part : Bytes → Bytes × ℕ
scheme_part url = elim (find_text (codes "://") url) [
  | none ↦ ([], 0)
  | some e ↦ (reset_case (substr url 0 e), e + 3)
]

-- The credentials and the host, between the scheme and the path. With credentials the host is
-- read by `substr(path_begin, path_begin - path_begin)`: the inner `path_begin` hides the outer.
unfoldable pub authority_part : Bytes → ℕ → ℕ → Option BasicAuth × Bytes
unfolding parse_credentials
authority_part url scheme_end path_begin = elim (first_in (is_at url b'@') scheme_end path_begin) [
  | some auth_end ↦
      let inner_begin = auth_end + 1 in
      (
        parse_credentials url scheme_end auth_end,
        reset_case (substr url inner_begin (inner_begin - inner_begin)),
      )
  | none ↦ (none, reset_case (substr url scheme_end (path_begin - scheme_end)))
]

-- The fragment, and where it begins.
unfoldable pub fragment_part : Bytes → ℕ → Bytes × ℕ
fragment_part url path_begin = elim (first_in (is_at url b'#') path_begin (length url)) [
  | some idx ↦ (substr url idx (length url - idx), idx)
  | none ↦ ([], length url)
]

-- The query, and where it begins.
unfoldable pub query_part : Bytes → ℕ → ℕ → Result (Values × ℕ)
query_part url path_begin fragment_begin =
    elim (first_in (is_at url b'?') path_begin fragment_begin) [
      | some idx ↦ parse_params (substr url (idx + 1) (fragment_begin - (idx + 1))) >>= λ search.
          ok (search, idx)
      | none ↦ ok ([], fragment_begin)
    ]

-- The constructor `URL(url)` behind the search for the path.
unfoldable pub parse_from : Bytes → ℕ → Result Url
parse_from url path_begin =
    let scheme = scheme_part url in
    let authority = authority_part url scheme.1 path_begin in
    let fragment = fragment_part url path_begin in
    query_part url path_begin fragment.1 >>= λ query. ok (record {
      scheme = scheme.0;
      user = authority.0;
      host = authority.1;
      path = substr url path_begin (query.1 - path_begin);
      search = query.0;
      fragment = fragment.0;
    })

unfoldable pub parse_url : Bytes → Result Url
parse_url url = elim (first_in (is_at url b'/') (scheme_part url).1 (length url)) [
  | none ↦ err Error.url_path_missing
  | some path_begin ↦ parse_from url path_begin
]

abbrev credentials_text : Option BasicAuth → Bytes
credentials_text none = []
credentials_text (some auth) =
    if not (is_empty auth.user) && not (is_empty auth.password)
    then encode_uri_component auth.user
      ++ (b':' ∷ (encode_uri_component auth.password ++ (b'@' ∷ [])))
    else []

abbrev search_text : Values → Bytes
search_text search = if empty search then [] else b'?' ∷ params_to_string search

-- `URL::to_string`
unfoldable pub url_to_string : Url → Bytes
url_to_string u =
    (if is_empty u.host
      then []
      else u.scheme ++ (codes "://" ++ (credentials_text u.user ++ u.host)))
    ++ (u.path
        ++ (search_text u.search
            ++ (if is_empty u.fragment
                then []
                else if starts_with (codes "#") u.fragment
                then u.fragment
                else b'#' ∷ u.fragment)))

-- `URL::href`
unfoldable pub href : Url → Result Bytes
href u =
    if is_empty u.scheme
    then err Error.href_scheme_missing
    else if is_empty u.host
    then err Error.href_host_missing
    else if is_empty u.path
    then err Error.href_path_missing
    else ok (u.scheme ++ (codes "://" ++ (u.host ++ (u.path ++ search_text u.search))))
