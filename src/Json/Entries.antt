-- ===== src/Json/Entries.antt =====
-- json/parse.cpp: how an array or an object is cut at its commas, and how the key of an entry is
-- found. A loop over `idx < end` is a recursion on the number of indexes that are left.
use lambda.Base.{
  ℕ, zero, suc, ◌+◌, ◌-◌, ◌%◌, ◌^◌, Bool, true, false, not, ◌&&◌, List, [], ◌∷◌, Option, none, some,
  Bytes, ltb, ◌==◌, if◌then◌else◌, byte_at, substr, is_empty,
}

unfoldable pub is_valid_escaped_quote : Bytes → ℕ → ℕ → Bool
is_valid_escaped_quote buf idx begin =
    if ltb (idx - begin) 3
    then false
    else byte_at buf (idx - 1) == b'\\' && byte_at buf (idx - 2) == b'\\'

-- The counters have the type size_t.
pub record Scopes : Type 0 where
  pub scope_obj : ℕ
  pub scope_arr : ℕ
  pub scope_str : Bool

abbrev pub increment : ℕ → ℕ
increment n = (n + 1) % 2 ^ 64

abbrev pub decrement : ℕ → ℕ
decrement n = (n + (2 ^ 64 - 1)) % 2 ^ 64

unfoldable pub next_scopes : Bytes → ℕ → ℕ → Scopes → Scopes
unfolding is_valid_escaped_quote
next_scopes buf begin idx s =
    let rune = byte_at buf idx in
    if rune == b'{'
    then record s { scope_obj = increment s.scope_obj }
    else if rune == b'}'
    then record s { scope_obj = decrement s.scope_obj }
    else if rune == b'['
    then record s { scope_arr = increment s.scope_arr }
    else if rune == b']'
    then record s { scope_arr = decrement s.scope_arr }
    else if rune == b'"' && not (is_valid_escaped_quote buf idx begin)
    then record s { scope_str = not s.scope_str }
    else s

abbrev pub outside : Scopes → Bool
outside s = s.scope_obj == 0 && (s.scope_arr == 0 && not s.scope_str)

-- The loop with `left` indexes before the end.
unfoldable pub split_entries : Bytes → ℕ → ℕ → ℕ → ℕ → Scopes → List (ℕ × ℕ)
unfolding next_scopes
split_entries buf begin zero idx entry_begin s = (entry_begin, idx) ∷ []
split_entries buf begin (suc left) idx entry_begin s =
    let next = next_scopes buf begin idx s in
    let cut = outside next && byte_at buf idx == b',' in
    let rest = split_entries buf begin left (idx + 1) (if cut then idx + 1 else entry_begin) next in
    if cut then (entry_begin, idx) ∷ rest else rest

abbrev pub no_scopes : Scopes
no_scopes = record { scope_obj = 0; scope_arr = 0; scope_str = false }

unfoldable pub get_object_entries : Bytes → ℕ → ℕ → List (ℕ × ℕ)
unfolding split_entries
get_object_entries buf begin end = split_entries buf begin (end - begin) begin begin no_scopes

abbrev pub is_none : Option ℕ → Bool
is_none none = true
is_none (some n) = false

abbrev pub or_else : Option ℕ → ℕ → ℕ
or_else none d = d
or_else (some n) d = n

-- The loop of `unwrap`: the key and where the value begins; none where `unwrap` returns early.
unfoldable pub find_member : Bytes → ℕ → ℕ → ℕ → Option ℕ → Bytes → Option (Bytes × ℕ)
find_member buf begin zero idx key_begin key = none
find_member buf begin (suc left) idx key_begin key =
    let rune = byte_at buf idx in
    let escaped = ltb begin idx && byte_at buf (idx - 1) == b'\\' in
    let quote = is_empty key && (rune == b'"' && not escaped) in
    let opening = is_none key_begin in
    let start = or_else key_begin (idx + 1) in
    let found = substr buf start (idx - start) in
    let rest =
      find_member buf begin left (idx + 1) (if quote then some start else key_begin)
        (if quote && not opening then found else key) in
    if quote
    then (if opening then rest else if idx - start == 0 then none else rest)
    else if not (is_empty key) && rune == b':'
    then some (key, idx + 1)
    else rest
