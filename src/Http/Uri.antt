-- ===== src/Http/Uri.antt =====
-- http/url_encode.cpp: percent encoding. A `char` is its byte; the comparisons of the source with
-- letters and digits come out alike for a negative `char` and for a byte from 128 on.
pub mod Laws
use lambda.Base.{
  ℕ, suc, ◌+◌, ◌-◌, ◌*◌, ◌/◌, ◌^◌, bit_and, Bool, true, false, ◌&&◌, ◌||◌, List, [], ◌∷◌, ◌++◌,
  Option, none, some, Bytes, codes, ◌==◌, leb, if◌then◌else◌, get_or, u8, Result, ok, err, Error,
  ◌>>=◌,
}
use lambda.Http.Trim.{is_space}

-- `safe_list`, whose loop runs over `sizeof(safe_list)` characters: the closing NUL too.
abbrev safe_list : Bytes
safe_list = codes "$-_.+!*'()" ++ 0 ∷ []

unfoldable pub in_list : ℕ → Bytes → Bool
in_list rune [] = false
in_list rune (c ∷ cs) = if rune == c then true else in_list rune cs

unfoldable pub rune_url_safe : ℕ → Bool
unfolding in_list
rune_url_safe rune =
    if leb b'0' rune && leb rune b'9'
    then true
    else if leb b'A' rune && leb rune b'Z'
    then true
    else if leb b'a' rune && leb rune b'z'
    then true
    else in_list rune safe_list

abbrev hex_encode_table : Bytes
hex_encode_table = codes "0123456789ABCDEF"

-- What `encode_uri_component` appends for one character.
unfoldable pub encode_rune : ℕ → Bytes
unfolding rune_url_safe
encode_rune rune =
    if rune_url_safe rune
    then rune ∷ []
    else b'%'
      ∷ get_or hex_encode_table (bit_and rune 0xF0 / 2 ^ 4) 0
      ∷ get_or hex_encode_table (bit_and rune 0x0F) 0
      ∷ []

unfoldable pub encode_uri_component : Bytes → Bytes
unfolding encode_rune
encode_uri_component [] = []
encode_uri_component (rune ∷ input) = encode_rune rune ++ encode_uri_component input

-- A digit as `strtol` reads it in base 16.
unfoldable pub hex_digit : ℕ → Option ℕ
hex_digit c =
    if leb b'0' c && leb c b'9'
    then some (c - 48)
    else if leb b'a' c && leb c b'f'
    then some (c - 87)
    else if leb b'A' c && leb c b'F'
    then some (c - 55)
    else none

-- The digits that follow, up to the first character that is none.
unfoldable pub hex_run : ℕ → Bytes → ℕ
unfolding hex_digit
hex_run acc [] = acc
hex_run acc (c ∷ cs) = elim (hex_digit c) [ none ↦ acc | some d ↦ hex_run (acc * 16 + d) cs ]

unfoldable pub hex_number : Bytes → Result ℕ
unfolding hex_digit hex_run
hex_number [] = err Error.invalid_argument
hex_number (c ∷ cs) = elim (hex_digit c) [
  | none ↦ err Error.invalid_argument
  | some d ↦ ok (hex_run d cs)
]

abbrev negate : Result ℕ → Result ℕ
negate r = r >>= λ v. ok (u8 (256 - u8 v))

unfoldable pub signed_hex : Bytes → Result ℕ
unfolding hex_number
signed_hex [] = err Error.invalid_argument
signed_hex (c ∷ cs) =
    if c == b'-'
    then negate (hex_number cs)
    else if c == b'+'
    then hex_number cs
    else hex_number (c ∷ cs)

-- `std::stoi(text, nullptr, 16)` on at most two characters, as the `char` that the result is
-- stored in: spaces, a sign, digits. A prefix `0x` leaves no room for a digit behind it, so its
-- `0` is the number.
unfoldable pub stoi_hex : Bytes → Result ℕ
unfolding is_space signed_hex
stoi_hex [] = err Error.invalid_argument
stoi_hex (c ∷ cs) = if is_space c then stoi_hex cs else signed_hex (c ∷ cs)

abbrev pub push_front : ℕ → Result Bytes → Result Bytes
push_front c r = r >>= λ out. ok (c ∷ out)

-- A `%` takes the two characters behind it, or what is left of them.
unfoldable pub decode_uri_component : Bytes → Result Bytes
unfolding stoi_hex
decode_uri_component [] = ok []
decode_uri_component (c ∷ []) =
    if c == b'%' then stoi_hex [] >>= (λ v. ok (v ∷ [])) else ok (c ∷ [])
decode_uri_component (c ∷ x ∷ []) =
    let plain = push_front c (decode_uri_component (x ∷ [])) in
    if c == b'%' then stoi_hex (x ∷ []) >>= (λ v. ok (v ∷ [])) else plain
decode_uri_component (c ∷ x ∷ y ∷ rest) =
    let plain = push_front c (decode_uri_component (x ∷ y ∷ rest)) in
    let escaped = stoi_hex (x ∷ y ∷ []) >>= λ v. push_front v (decode_uri_component rest) in
    if c == b'%' then escaped else plain
