-- ===== src/Json/Brackets.antt =====
-- json/parse.cpp: a range that begins and ends with a bracket.
use lambda.Base.{
  ℕ, suc, ◌+◌, ◌-◌, [], ◌∷◌, ◌++◌, append_assoc, ◌≡◌, ◌∙◌, refl, arith, Bytes, byte_at,
  byte_at-drop, drop-suc, drop, length, length-append, Result, ok, ◌>>=◌,
}
use lambda.Http.Trim.{is_space}
use lambda.Json.Property.{Property, Array, Object}
use lambda.Json.Entries.{split_entries, get_object_entries, no_scopes}
use lambda.Json.Parse.{collect, unwrap_all, parse_array, parse_object, parse_trimmed, parse_range}
use lambda.Json.Walk.{drop-length}
use lambda.Json.Ranges.{parse_range-wrapped}

-- What stands between two brackets, and where.
module _ (buf : Bytes) (i c d : ℕ) (body rest : Bytes)
    (at : drop i buf ≡ (c ∷ body ++ d ∷ []) ++ rest) where
  pub inside : drop (i + 1) buf ≡ body ++ (d ∷ rest)
  inside = drop-suc buf i c ((body ++ d ∷ []) ++ rest) at ∙ append_assoc body (d ∷ []) rest

  before_end : i + length (c ∷ body ++ d ∷ []) - 1 ≡ i + 1 + length body
  before_end = omega (arith, length-append body (d ∷ []))

  last_rune_is : byte_at buf (i + 1 + length body) ≡ d
  last_rune_is =
      byte_at-drop buf (i + 1 + length body) d rest (drop-length buf (i + 1) body (d ∷ rest) inside)

  first_rune_is : byte_at buf i ≡ c
  first_rune_is = byte_at-drop buf i c ((body ++ d ∷ []) ++ rest) at

module _ {F : Type 0} (stold : Bytes → Result F) (buf : Bytes) (fuel i : ℕ)
    (body rest : Bytes) where
  pub parse_range-array :
      (values : Result (Array F))
      → drop i buf ≡ (b'[' ∷ body ++ b']' ∷ []) ++ rest
      → collect
          (parse_range stold fuel buf)
          (split_entries buf (i + 1) (length body) (i + 1) (i + 1) no_scopes)
        ≡ values
      → parse_range stold (suc fuel) buf i (i + length (b'[' ∷ body ++ b']' ∷ []))
        ≡ (values >>= λ items. ok (Property.array items))
  unfolding parse_trimmed parse_array is_space get_object_entries
  parse_range-array values at read =
      let left : i + 1 + length body - (i + 1) ≡ length body = omega arith in
      parse_range-wrapped stold buf fuel i b'[' b']' body rest refl refl at
      ∙ rw
          (
            parse_trimmed,
            first_rune_is buf i b'[' b']' body rest at,
            parse_array,
            before_end buf i b'[' b']' body rest at,
            last_rune_is buf i b'[' b']' body rest at,
            get_object_entries,
            left,
            read,
          )
          refl

  pub parse_range-object :
      (entries : Result (Object F))
      → drop i buf ≡ (b'{' ∷ body ++ b'}' ∷ []) ++ rest
      → unwrap_all
          (parse_range stold fuel buf)
          buf
          Object.leaf
          (split_entries buf (i + 1) (length body) (i + 1) (i + 1) no_scopes)
        ≡ entries
      → parse_range stold (suc fuel) buf i (i + length (b'{' ∷ body ++ b'}' ∷ []))
        ≡ (entries >>= λ members. ok (Property.object members))
  unfolding parse_trimmed parse_object is_space get_object_entries
  parse_range-object entries at read =
      let left : i + 1 + length body - (i + 1) ≡ length body = omega arith in
      parse_range-wrapped stold buf fuel i b'{' b'}' body rest refl refl at
      ∙ rw
          (
            parse_trimmed,
            first_rune_is buf i b'{' b'}' body rest at,
            parse_object,
            before_end buf i b'{' b'}' body rest at,
            last_rune_is buf i b'{' b'}' body rest at,
            get_object_entries,
            left,
            read,
          )
          refl
