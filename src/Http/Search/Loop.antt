-- ===== src/Http/Search/Loop.antt =====
-- The loop of `URLSearchParams` over a query that `to_string` has written.
use lambda.Base.{
  ℕ, suc, ◌+◌, ◌-◌, ◌<◌, true, false, [], ◌∷◌, ◌++◌, append_assoc, ◌≡◌, ◌∙◌, refl, arith, inl, inr,
  some, Bytes, All, IsBytes, Lacks, ◌==◌, leb, length, length-append, byte_at-drop, drop, drop-suc,
  length_at, is_at, substr, substr_at, drop_past, first_in, first_in_hit, Bool-cases, ok, ◌>>=◌,
}
use lambda.Http.Uri.{encode_rune, encode_uri_component}
use lambda.Http.Uri.Laws.{is_delimiter, decode-encode_uri_component, encode_uri_component-delimiter}
use lambda.Http.Values.{Values, append}
use lambda.Http.Search.{parse_token, parse_pairs}

-- A name or a value that is neither empty nor beyond a byte.
abbrev pub IsText : Bytes → Type 0
IsText s = IsBytes s × (0 < length s)

-- What is written for one value.
abbrev pub pair_text : Bytes × Bytes → Bytes
pair_text (key, value) = encode_uri_component key ++ b'=' ∷ encode_uri_component value

encode_rune-long : (c : ℕ) → 0 < length (encode_rune c)
unfolding encode_rune
encode_rune-long c = ground arith

pub encode-long : (s : Bytes) → 0 < length s → 0 < length (encode_uri_component s)
unfolding encode_uri_component
encode-long [] h = absurd (omega arith)
encode-long (c ∷ s) h =
    omega (arith, encode_rune-long c, length-append (encode_rune c) (encode_uri_component s))

delimiter-Lacks :
    (c : ℕ) (s : Bytes) → is_delimiter c ≡ true → All (λ x. is_delimiter x ≡ false) s → Lacks c s
delimiter-Lacks c [] d h = tt
delimiter-Lacks c (x ∷ s) d h = (
  elim (Bool-cases (x == c)) [
    | inl e ↦ let same : x ≡ c = ground (arith, e) in cc (d, h.0, same)
    | inr e ↦ e
  ],
  delimiter-Lacks c s d h.1,
)

pub encode-Lacks :
    (c : ℕ) (s : Bytes) → is_delimiter c ≡ true → IsBytes s → Lacks c (encode_uri_component s)
encode-Lacks c s d h =
    delimiter-Lacks c (encode_uri_component s) d (encode_uri_component-delimiter s h)

module _ (params : Bytes) where
  -- Up to the next separator nothing is done.
  pub parse_pairs_to :
      (xs : Bytes) (idx start : ℕ) (rest : Bytes) (m : Values)
      → drop idx params ≡ xs ++ b'&' ∷ rest
      → Lacks b'&' xs
      → parse_pairs params (suc (length xs + length rest)) idx start m ≡ (
          parse_token params m start (idx + length xs) >>= λ m'.
          parse_pairs params (length rest) (idx + length xs + 1) (idx + length xs + 1) m')
  unfolding parse_pairs
  parse_pairs_to [] idx start rest m at h =
      let none_left : 0 + length rest ≡ length rest = omega arith in
      let here : idx + 0 ≡ idx = omega arith in
      rw (byte_at-drop params idx b'&' rest at, none_left, here) refl
  parse_pairs_to (x ∷ xs) idx start rest m at h =
      let size = length_at params idx x (xs ++ b'&' ∷ rest) at in
      let inner : (idx == length params - 1) ≡ false =
        ground (arith, size, length-append xs (b'&' ∷ rest)) in
      let left : suc (length xs) + length rest ≡ suc (length xs + length rest) = omega arith in
      let end : idx + 1 + length xs ≡ idx + suc (length xs) = omega arith in
      rw (byte_at-drop params idx x (xs ++ b'&' ∷ rest) at, h.0, inner, left)
        (parse_pairs_to xs (idx + 1) start rest m (drop-suc params idx x (xs ++ b'&' ∷ rest) at) h.1
          ∙ rw end refl)

  -- The last pair ends with the query.
  pub parse_pairs_last :
      (x : ℕ) (xs : Bytes) (idx start : ℕ) (m : Values)
      → drop idx params ≡ x ∷ xs
      → Lacks b'&' (x ∷ xs)
      → parse_pairs params (suc (length xs)) idx start m
        ≡ parse_token params m start (length params)
  unfolding parse_pairs
  parse_pairs_last x [] idx start m at h =
      let size = length_at params idx x [] at in
      let last : (idx == length params - 1) ≡ true = ground (arith, size) in
      rw (byte_at-drop params idx x [] at, h.0, last) refl
  parse_pairs_last x (y ∷ xs) idx start m at h =
      let size = length_at params idx x (y ∷ xs) at in
      let inner : (idx == length params - 1) ≡ false = ground (arith, size) in
      rw (byte_at-drop params idx x (y ∷ xs) at, h.0, inner)
        (parse_pairs_last y xs (idx + 1) start m (drop-suc params idx x (y ∷ xs) at) h.1)

  -- A written pair between two indices is decoded and appended.
  pub parse_token_written :
      (key value rest : Bytes) (start end : ℕ) (m : Values)
      → IsText key
      → IsText value
      → drop start params ≡ pair_text (key, value) ++ rest
      → end ≡ start + length (pair_text (key, value))
      → parse_token params m start end ≡ ok (append m key value)
  unfolding parse_token
  parse_token_written key value rest start end m k v at e =
      let name = encode_uri_component key in
      let text = encode_uri_component value in
      let whole : drop start params ≡ name ++ b'=' ∷ (text ++ rest) =
        at ∙ append_assoc name (b'=' ∷ text) rest in
      let size : end ≡ start + length name + 1 + length text =
        omega (arith, e, length-append name (b'=' ∷ text)) in
      let split : first_in (is_at params b'=') start end ≡ some (start + length name) =
        first_in_hit params b'=' start end name (text ++ rest) whole
          (encode-Lacks b'=' key refl k.0) (omega (arith, size)) in
      let named : substr params start (start + length name - start) ≡ name =
        substr_at params start (start + length name - start) name (b'=' ∷ (text ++ rest)) whole
          (omega arith) in
      let behind : drop (start + length name + 1) params ≡ text ++ rest =
        drop-suc params (start + length name) b'=' (text ++ rest)
          (drop_past params start (start + length name) name (b'=' ∷ (text ++ rest)) whole refl) in
      let valued : substr params (start + length name + 1) (end - (start + length name) - 1)
          ≡ text =
        substr_at params (start + length name + 1) (end - (start + length name) - 1) text rest
          behind (omega (arith, size)) in
      let named_once : (start + length name == start) ≡ false =
        ground (arith, encode-long key k.1) in
      let valued_too : leb (end - 1) (start + length name) ≡ false =
        ground (arith, size, encode-long value v.1) in
      rw
        (
          split,
          named_once,
          valued_too,
          named,
          valued,
          decode-encode_uri_component key k.0,
          decode-encode_uri_component value v.0,
        )
        refl
