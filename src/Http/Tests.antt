-- ===== src/Http/Tests.antt =====
-- Runs of the helpers from http/test_url.cpp, and the theorems at concrete inputs.
use lambda.Base.{
  false, List, Bytes, length, ◌<◌, [], ◌∷◌, ◌++◌, some, ◌≡◌, ◌↔◌, refl, arith, codes, if◌then◌else◌,
  ok, ◌>>=◌, equal, scan,
}
use lambda.Base64.{encode}
use lambda.Dict.{find, put, less}
use lambda.Http.Trim.{trim_space, reset_case, lower_rune, is_space}
use lambda.Http.Values.{Values, set, append, del, get, get_all, has, entries}
use lambda.Http.Values.Laws.{IsValid, same_name, get_all_update, update-IsValid, single_name_lost}
use lambda.Http.Method.{Method, string_to_method, method_to_string}
use lambda.Http.Method.Laws.{string_to_method_iff}
use lambda.Http.Uri.{encode_uri_component, decode_uri_component}
use lambda.Http.Uri.Laws.{decode-encode_uri_component}
use lambda.Http.Search.{parse_params, params_to_string}
use lambda.Http.Search.RoundTrip.{parse_params-params_to_string}
use lambda.Http.Cookie.{parse_cookie}
use lambda.Http.Cookie.RoundTrip.{get_all-parse_cookie}
use lambda.Http.Date.{
  new_date, gmtime, to_utc_string, date_text, to_log_string, days_in_year, days_in_month,
}
use lambda.Http.Date.Read.{read_utc, read_utc-new_date}
use lambda.Base.Decimal.{to_decimal}
use lambda.Http.Auth.{parse_basic_auth}
use lambda.Http.Auth.Laws.{parse_basic_auth-encode}
use lambda.Http.Url.{
  Url, parse_url, parse_from, scheme_part, authority_part, fragment_part, query_part,
}
use lambda.Http.Url.Credentials.{parse_url-credentials}

abbrev store : Values
store =
    (codes "content-type", codes "text/plain" ∷ [])
    ∷ (codes "host", codes "a" ∷ codes "b" ∷ [])
    ∷ []

store-IsValid : IsValid store
unfolding less reset_case trim_space is_space
store-IsValid = record {
  sorted = ((refl, tt), (tt, tt));
  entry = ((refl, refl, refl), ((refl, refl, refl), tt));
}

set_spaced :
    get (set [] (codes "Content-type ") (codes "json")) (codes " content-type") ≡ codes "json"
unfolding get set reset_case trim_space is_space put find equal
set_spaced = refl

search_runs :
    (parse_params (codes "&&=&user=maddsua&age=unknown") >>= λ m. ok (get m (codes " \n user ")))
    ≡ ok (codes "maddsua")
unfolding parse_params decode_uri_component get append reset_case trim_space is_space put find equal
    less scan
search_runs = refl

search_text_runs :
    params_to_string
      (set (set [] (codes " user") (codes "maddsua")) (codes "auth") (codes "type=token"))
    ≡ codes "auth=type%3Dtoken&user=maddsua"
unfolding params_to_string entries encode_uri_component set reset_case trim_space is_space put equal
    less
search_text_runs = refl

cookie_runs : get (parse_cookie (codes "id=42; theme=dark")) (codes "theme") ≡ codes "dark"
unfolding parse_cookie get append reset_case trim_space is_space put find equal less scan
cookie_runs = refl

get_all_update_example :
    (get_all (set store (codes "Host") (codes "c")) (codes "host") ≡ (
      if same_name (codes "Host") (codes "host")
      then codes "c" ∷ []
      else get_all store (codes "host")))
    × (get_all (append store (codes "Host") (codes "c")) (codes "host") ≡ (
        if same_name (codes "Host") (codes "host")
        then get_all store (codes "Host") ++ codes "c" ∷ []
        else get_all store (codes "host")))
    × (get_all (del store (codes "Host")) (codes "host")
        ≡ (if same_name (codes "Host") (codes "host") then [] else get_all store (codes "host")))
get_all_update_example =
    get_all_update store (codes "Host") (codes "c") (codes "host") store-IsValid

update-IsValid_example :
    IsValid (set store (codes "Date") (codes "x"))
    × IsValid (append store (codes "Date") (codes "x"))
    × IsValid (del store (codes "Date"))
update-IsValid_example = update-IsValid store (codes "Date") (codes "x") store-IsValid

single_name_lost_example :
    (set store (codes " q") (codes "1") ≡ store)
    × (append store (codes " q") (codes "1") ≡ store)
    × (has store (codes " q") ≡ false)
    × (get_all store (codes " q") ≡ [])
single_name_lost_example =
    single_name_lost store (codes " ") b'q' [] (codes "1") (unfold is_space in (refl, tt))
      (unfold is_space in refl) tt

string_to_method_iff_example :
    (string_to_method (codes "DELETE") ≡ some Method.del)
    ↔ (codes "DELETE" ≡ method_to_string Method.del)
string_to_method_iff_example = string_to_method_iff (codes "DELETE") Method.del

decode-encode_uri_component_example :
    decode_uri_component (encode_uri_component (codes "a b&c=100%")) ≡ ok (codes "a b&c=100%")
decode-encode_uri_component_example = decode-encode_uri_component (codes "a b&c=100%") (omega arith)

parse_basic_auth-encode_example :
    parse_basic_auth (codes "BASIC" ++ b' ' ∷ encode (codes "bob" ++ b':' ∷ codes "secret"))
    ≡ ok (some (record { user = codes "bob"; password = codes "secret" }))
parse_basic_auth-encode_example =
    parse_basic_auth-encode (codes "BASIC") (codes "bob") (codes "secret")
      (unfold lower_rune in refl) (refl, (refl, (refl, (refl, (refl, tt))))) (ground arith)
      (refl, (refl, (refl, tt))) (omega arith) (omega arith)

abbrev located : Url
located = record {
  scheme = codes "http";
  user = some (record { user = codes "ann"; password = codes "pw" });
  host = [];
  path = codes "/index";
  search = [];
  fragment = [];
}

parse_located : parse_url (codes "http://ann:pw@host/index") ≡ ok located
unfolding parse_url parse_from scheme_part authority_part fragment_part query_part reset_case
    trim_space is_space scan
parse_located = refl

parse_url-credentials_example :
    (located.user ≡ some (record { user = codes "ann"; password = codes "pw" }))
    × (located.host ≡ [])
parse_url-credentials_example =
    parse_url-credentials (codes "http") (codes "ann") (codes "pw") (codes "host") (codes "index")
      located (refl, (refl, (refl, (refl, tt)))) (omega arith) (refl, (refl, (refl, tt)))
      (refl, (refl, (refl, tt))) (refl, (refl, (refl, tt))) (refl, (refl, tt)) (refl, (refl, tt))
      (refl, (refl, (refl, (refl, tt)))) parse_located

-- Names and values with every delimiter of a query.
abbrev wanted : Values
wanted = (codes "a&b", codes "x=1&y" ∷ codes "#?/" ∷ []) ∷ (codes "user", codes "a b" ∷ []) ∷ []

wanted-IsValid : IsValid wanted
unfolding less reset_case trim_space is_space
wanted-IsValid = record {
  sorted = ((refl, tt), (tt, tt));
  entry = ((refl, refl, refl), ((refl, refl, refl), tt));
}

parse_params-params_to_string_example : parse_params (params_to_string wanted) ≡ ok wanted
unfolding entries
parse_params-params_to_string_example =
    parse_params-params_to_string wanted wanted-IsValid (omega arith)

wanted_text : params_to_string wanted ≡ codes "a%26b=x%3D1%26y&a%26b=%23%3F%2F&user=a%20b"
unfolding params_to_string entries encode_uri_component
wanted_text = refl

abbrev sent_cookies : List (Bytes × Bytes)
sent_cookies =
    (codes "id", codes "a=b") ∷ (codes "theme", codes "dark mode") ∷ (codes "id", codes "2") ∷ []

get_all-parse_cookie_example :
    get_all (parse_cookie (codes "id=a=b; theme=dark mode; id=2")) (codes "ID")
    ≡ codes "a=b" ∷ codes "2" ∷ []
unfolding reset_case trim_space is_space equal
get_all-parse_cookie_example =
    get_all-parse_cookie sent_cookies (codes "ID") (ground arith)
      ((refl, refl), ((refl, refl), ((refl, refl), tt)))

read_utc-new_date_example :
    (read_utc (to_utc_string (new_date 784111777)) ≡ 784111777)
    × (length (to_utc_string (new_date 784111777)) < 64)
read_utc-new_date_example = read_utc-new_date 784111777 (omega arith)

-- The example of RFC 9110, the first second, and a leap day.
date_texts :
    (to_utc_string (new_date 784111777) ≡ codes "Sun, 06 Nov 1994 08:49:37 GMT")
    × (date_text (new_date 0) ≡ codes "Thu, 01 Jan 1970")
    × (to_log_string (new_date 951782400) ≡ codes "00:00:00 29/02/2000")
unfolding new_date gmtime to_utc_string date_text to_log_string to_decimal days_in_year
    days_in_month
date_texts = (refl, refl, refl)
