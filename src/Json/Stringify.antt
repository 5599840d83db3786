-- ===== src/Json/Stringify.antt =====
-- json/stringify.cpp: JSON::stringify of a property. `std::to_string` of a float is a parameter.
use lambda.Base.{
  ℕ, zero, suc, ◌+◌, ◌-◌, [], ◌∷◌, ◌++◌, Option, none, some, Bytes, codes, ltb, ◌==◌, if◌then◌else◌,
  byte_at, is_at, first_in, is_empty, length, take,
}
use lambda.Base.Integers.{integer_text}
use lambda.Json.Property.{Property, Array, Object}
use lambda.Json.Strings.{escape_text}

-- The loop from the end of the token down to its dot: where the zeros at the end begin.
unfoldable pub zeros_end : Bytes → ℕ → ℕ → Option ℕ
zeros_end token decimal_begin zero = none
zeros_end token decimal_begin (suc left) =
    let nearer = zeros_end token decimal_begin left in
    if byte_at token (decimal_begin + left) == b'0' then nearer else some (decimal_begin + left + 1)

unfoldable pub trim_zeros : Bytes → Bytes
unfolding zeros_end
trim_zeros token = elim (first_in (is_at token b'.') 0 (length token)) [
  | none ↦ token
  | some decimal_begin ↦ elim (zeros_end token decimal_begin (length token - decimal_begin)) [
    | none ↦ token
    | some last ↦ if ltb 1 (last - decimal_begin) then take last token else take decimal_begin token
  ]
]

-- `if (!buff.empty()) buff.push_back(',');`
abbrev pub separated : Bytes → Bytes
separated buff = if is_empty buff then [] else buff ++ b',' ∷ []

module _ {F : Type 0} (float_text : F → Bytes) where
  unfoldable mutual
    unfolding trim_zeros escape_text

    pub stringify : Property F → Bytes
    stringify Property.undefined = codes "null"
    stringify Property.null = codes "null"
    stringify (Property.integer z) = integer_text z
    stringify (Property.float x) = trim_zeros (float_text x)
    stringify (Property.boolean b) = if b then codes "true" else codes "false"
    stringify (Property.string content) = b'"' ∷ escape_text content ++ b'"' ∷ []
    stringify (Property.array items) = b'[' ∷ stringify_items [] items ++ b']' ∷ []
    stringify (Property.object entries) = b'{' ∷ stringify_entries [] entries ++ b'}' ∷ []

    pub stringify_items : Bytes → Array F → Bytes
    stringify_items buff Array.nil = buff
    stringify_items buff (Array.cons value rest) =
        stringify_items (separated buff ++ stringify value) rest

    pub stringify_entries : Bytes → Object F → Bytes
    stringify_entries buff Object.leaf = buff
    stringify_entries buff (Object.entry key value rest) =
        stringify_entries (separated buff ++ (b'"' ∷ key ++ (b'"' ∷ b':' ∷ stringify value))) rest
