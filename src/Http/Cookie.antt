-- ===== src/Http/Cookie.antt =====
-- http/cookie.cpp: `parse_cookie`, and `Cookie::to_string`. The text of a date is the parameter
-- `utc_string`, for which `Http.Date` has a function.
pub mod RoundTrip
use lambda.Base.{
  ℕ, zero, suc, ◌+◌, ◌-◌, Bool, true, false, ◌&&◌, [], ◌∷◌, ◌++◌, Option, none, some, Bytes, codes,
  ◌==◌, ltb, if◌then◌else◌, length, is_empty, byte_at, first_in, is_at, substr, Result, ok, err,
  Error,
}
use lambda.Http.Values.{Values, append}

-- The lambda `parse_pair`.
unfoldable pub parse_pair : Bytes → ℕ → ℕ → Values → Values
parse_pair header begin end values = elim (first_in (is_at header b'=') begin end) [
  | none ↦ values
  | some split_token ↦
      let value_begin = split_token + 1 in
      if ltb (end - value_begin) 1
      then values
      else append values (substr header begin (split_token - begin))
          (substr header value_begin (end - value_begin))
]

-- The loop over `idx` from 1, with `left` rounds to go.
unfoldable pub parse_cookie_pairs : Bytes → ℕ → ℕ → ℕ → Values → Values
unfolding parse_pair
parse_cookie_pairs header zero idx pair_begin values = values
parse_cookie_pairs header (suc left) idx pair_begin values =
    let at_pair =
      parse_cookie_pairs header left (idx + 1) (idx + 1)
        (parse_pair header pair_begin (idx - 1) values) in
    let next = parse_cookie_pairs header left (idx + 1) pair_begin values in
    if idx == length header - 1
    then parse_pair header pair_begin (length header) values
    else if byte_at header (idx - 1) == b';' && byte_at header idx == b' '
    then at_pair
    else next

unfoldable pub parse_cookie : Bytes → Values
unfolding parse_cookie_pairs
parse_cookie header = parse_cookie_pairs header (length header - 1) 1 0 []

pub data SameSite : Type 0 where
  default lax strict site_none : SameSite

pub record Cookie : Type 0 where
  pub name : Bytes
  pub value : Bytes
  pub domain : Bytes
  pub path : Bytes
  pub expires : Option ℕ
  pub max_age : Option ℕ
  pub secure : Bool
  pub http_only : Bool
  pub same_site : SameSite

unfoldable pub contains : Bytes → ℕ → Bool
contains [] c = false
contains (x ∷ xs) c = if x == c then true else contains xs c

-- The lambdas `write_boolean_prop` and `write_prop`.
unfoldable pub write_boolean_prop : Bytes → Bytes → Bytes
write_boolean_prop prop set_cookie = set_cookie ++ codes "; " ++ prop

unfoldable pub write_prop : Bytes → Bytes → Bytes → Bytes
unfolding write_boolean_prop
write_prop prop value set_cookie = write_boolean_prop prop set_cookie ++ (b'=' ∷ value)

unfoldable pub write_same_site : SameSite → Bytes → Bytes
unfolding write_prop
write_same_site SameSite.default set_cookie = set_cookie
write_same_site SameSite.lax set_cookie = write_prop (codes "SameSite") (codes "Lax") set_cookie
write_same_site SameSite.strict set_cookie =
    write_prop (codes "SameSite") (codes "Strict") set_cookie
write_same_site SameSite.site_none set_cookie =
    write_prop (codes "SameSite") (codes "None") set_cookie

abbrev write_date : (ℕ → Bytes) → Bytes → Option ℕ → Bytes → Bytes
write_date utc_string prop none set_cookie = set_cookie
write_date utc_string prop (some t) set_cookie = write_prop prop (utc_string t) set_cookie

-- The properties behind the name and the value, in the order of the source.
unfoldable pub write_props : (ℕ → Bytes) → Cookie → Bytes → Bytes
unfolding write_same_site
write_props utc_string c start =
    let with_domain =
      if is_empty c.domain then start else write_prop (codes "Domain") c.domain start in
    let with_path =
      if is_empty c.path then with_domain else write_prop (codes "Path") c.path with_domain in
    let with_expires = write_date utc_string (codes "Expires") c.expires with_path in
    let with_age = write_date utc_string (codes "Max-Age") c.max_age with_expires in
    let with_secure = if c.secure then write_boolean_prop (codes "Secure") with_age else with_age in
    let with_http_only =
      if c.http_only then write_boolean_prop (codes "HttpOnly") with_secure else with_secure in
    write_same_site c.same_site with_http_only

unfoldable pub cookie_to_string : (ℕ → Bytes) → Cookie → Result Bytes
unfolding contains write_props
cookie_to_string utc_string c =
    if contains c.name b';'
    then err Error.cookie_name_invalid
    else if contains c.value b';'
    then err Error.cookie_value_invalid
    else ok (write_props utc_string c (c.name ++ (b'=' ∷ c.value)))
