-- ===== src/Json/Parse.antt =====
-- json/parse.cpp: JSON::parse and the functions it calls on a range of the text. They call each
-- other through parse_range, which is a recursion on fuel; `std::stold` is a parameter.
use lambda.Base.{
  ℕ, zero, suc, ◌+◌, ◌-◌, ◌^◌, Bool, true, false, not, ◌||◌, List, [], ◌∷◌, none, some, Bytes,
  codes, equal, ltb, ◌==◌, if◌then◌else◌, byte_at, substr, length, Result, ok, err, Error, ◌>>=◌,
}
use lambda.Base.Decimal.{is_digit}
use lambda.Base.Integers.{stol}
use lambda.Http.Trim.{is_space}
use lambda.Json.Property.{Property, Array, Object, put_entry}
use lambda.Json.Entries.{get_object_entries, find_member}
use lambda.Json.Strings.{parse_string}

-- The loop that moves `begin` to the first rune that is no space, with `left` runes to go.
unfoldable pub first_rune : Bytes → ℕ → ℕ → ℕ → ℕ
first_rune buf begin zero idx = begin
first_rune buf begin (suc left) idx =
    let further = first_rune buf begin left (idx + 1) in
    if is_space (byte_at buf idx) then further else idx

-- The loop that moves `end` behind the last one.
unfoldable pub last_rune : Bytes → ℕ → ℕ → ℕ → ℕ
last_rune buf begin end zero = end
last_rune buf begin end (suc left) =
    let nearer = last_rune buf begin end left in
    if is_space (byte_at buf (begin + left)) then nearer else begin + left + 1

-- Whether there is a dot among the first `left` runes from `idx`.
unfoldable pub has_dot : Bytes → ℕ → ℕ → Bool
has_dot buf zero idx = false
has_dot buf (suc left) idx = byte_at buf idx == b'.' || has_dot buf left (idx + 1)

module _ {F : Type 0} where
  abbrev pub defined : Property F → Result (Property F)
  defined Property.undefined = err Error.json_empty
  defined value = ok value

  unfoldable pub parse_literal : Bytes → ℕ → ℕ → Result (Property F)
  parse_literal buf begin end =
      let token = substr buf begin (end - begin) in
      if ltb 4 (end - begin)
      then err Error.json_literal_long
      else if equal token (codes "true")
      then ok (Property.boolean true)
      else if equal token (codes "false")
      then ok (Property.boolean false)
      else if equal token (codes "null")
      then ok Property.null
      else err Error.json_literal_unknown

  -- The two functions that call parse_range again, which is their first argument.
  module _ (range : ℕ → ℕ → Result (Property F)) where
    unfoldable pub collect : List (ℕ × ℕ) → Result (Array F)
    collect [] = ok Array.nil
    collect ((b, e) ∷ entries) =
        range b e >>= (λ value. collect entries >>= λ values. ok (Array.cons value values))

    unfoldable pub parse_array : Bytes → ℕ → ℕ → Result (Property F)
    unfolding collect
    parse_array buf begin end =
        if not (byte_at buf begin == b'[') || not (byte_at buf (end - 1) == b']')
        then err Error.json_array_scope
        else collect (get_object_entries buf (begin + 1) (end - 1)) >>= λ values.
            ok (Property.array values)

    unfoldable pub unwrap : Bytes → Object F → ℕ → ℕ → Result (Object F)
    unwrap buf entries begin end = elim (find_member buf begin (end - begin) begin none []) [
      | none ↦ ok entries
      | some (key, value_begin) ↦
          if end - value_begin == 0
          then ok entries
          else range value_begin end >>= λ value. ok (put_entry key value entries)
    ]

    unfoldable pub unwrap_all : Bytes → Object F → List (ℕ × ℕ) → Result (Object F)
    unfolding unwrap
    unwrap_all buf entries [] = ok entries
    unwrap_all buf entries ((b, e) ∷ more) =
        unwrap buf entries b e >>= λ next. unwrap_all buf next more

    unfoldable pub parse_object : Bytes → ℕ → ℕ → Result (Property F)
    unfolding unwrap_all
    parse_object buf begin end =
        if not (byte_at buf begin == b'{') || not (byte_at buf (end - 1) == b'}')
        then err Error.json_object_scope
        else unwrap_all buf Object.leaf (get_object_entries buf (begin + 1) (end - 1))
          >>= λ entries. ok (Property.object entries)

module _ {F : Type 0} (stold : Bytes → Result F) where
  unfoldable pub parse_number : Bytes → ℕ → ℕ → Result (Property F)
  unfolding has_dot
  parse_number buf begin end =
      let token = substr buf begin (end - begin) in
      if has_dot buf end 0
      then stold token >>= (λ x. ok (Property.float x))
      else stol token >>= λ z. ok (Property.integer z)

  -- What the first rune of a trimmed range makes of it.
  unfoldable pub parse_trimmed : (ℕ → ℕ → Result (Property F)) → Bytes → ℕ → ℕ → Result (Property F)
  unfolding parse_number
  parse_trimmed range buf begin end =
      let rune = byte_at buf begin in
      if rune == b'"'
      then parse_string buf begin end >>= (λ s. ok (Property.string s))
      else if is_digit rune || rune == b'-'
      then parse_number buf begin end
      else if rune == b'{'
      then parse_object range buf begin end
      else if rune == b'['
      then parse_array range buf begin end
      else parse_literal buf begin end

  unfoldable pub parse_range : ℕ → Bytes → ℕ → ℕ → Result (Property F)
  unfolding parse_trimmed first_rune last_rune
  parse_range zero buf begin end = err Error.json_fuel_spent
  parse_range (suc fuel) buf begin end =
      let inner = parse_range fuel buf in
      let b = first_rune buf begin (end - begin) begin in
      let e = last_rune buf b end (end - b) in
      if e - b == 0 then ok Property.undefined else parse_trimmed inner buf b e

  -- The fuel is one more than the length of the text.
  unfoldable pub parse : Bytes → Result (Property F)
  unfolding parse_range
  parse buf =
      if ltb (2 ^ 32 - 1) (length buf)
      then err Error.json_too_large
      else parse_range (suc (length buf)) buf 0 (length buf) >>= defined
