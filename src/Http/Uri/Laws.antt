-- ===== src/Http/Uri/Laws.antt =====
-- Percent encoding and decoding.
use lambda.Base.{
  ℕ, Bool, true, false, not, ◌&&◌, ◌||◌, [], ◌∷◌, ◌++◌, ◌≡◌, ◌∙◌, refl, arith, Bytes, IsBytes, All,
  All-append, ◌==◌, ==_iff, all_below, all_below_sound, Result, ok, err, ◌>>=◌,
}
use lambda.Http.Uri.{encode_rune, encode_uri_component, stoi_hex, decode_uri_component, push_front}

decode_plain :
    (c : ℕ) (cs : Bytes)
    → (c == b'%') ≡ false
    → decode_uri_component (c ∷ cs) ≡ push_front c (decode_uri_component cs)
unfolding decode_uri_component
decode_plain c [] h = rw h
decode_plain c (x ∷ []) h = rw h
decode_plain c (x ∷ y ∷ cs) h = rw h

abbrev is_value : ℕ → Result ℕ → Bool
is_value c (ok v) = v == c
is_value c (err e) = false

-- A text of one plain character, or of an escape, that stands for the character `c`.
stands_for : ℕ → Bytes → Bool
stands_for c (p ∷ []) = p == c && not (p == b'%')
stands_for c (p ∷ x ∷ y ∷ []) = p == b'%' && is_value c (stoi_hex (x ∷ y ∷ []))
stands_for c _ = false

stands_for_table : all_below 256 (λ c. stands_for c (encode_rune c)) ≡ true
unfolding all_below stands_for encode_rune stoi_hex
stands_for_table = refl

decode_percent :
    (p x y : ℕ) (rest : Bytes)
    → (p == b'%') ≡ true
    → decode_uri_component (p ∷ x ∷ y ∷ rest)
      ≡ (stoi_hex (x ∷ y ∷ []) >>= λ v. push_front v (decode_uri_component rest))
unfolding decode_uri_component
decode_percent p x y rest hp = rw hp

decode_escape :
    (c p x y : ℕ) (rest : Bytes)
    → (p == b'%') ≡ true
    → is_value c (stoi_hex (x ∷ y ∷ [])) ≡ true
    → decode_uri_component (p ∷ x ∷ y ∷ rest) ≡ push_front c (decode_uri_component rest)
decode_escape c p x y rest hp h = go (stoi_hex (x ∷ y ∷ [])) refl
  where
    go :
        (r : Result ℕ)
        → stoi_hex (x ∷ y ∷ []) ≡ r
        → decode_uri_component (p ∷ x ∷ y ∷ rest) ≡ push_front c (decode_uri_component rest)
    go (ok v) e =
        let same : v ≡ c = (==_iff v c).0 (rw e at h) in decode_percent p x y rest hp ∙ rw (e, same)
    go (err e') e = cc (h, e)

decode-stands_for :
    (c : ℕ) (text rest : Bytes)
    → stands_for c text ≡ true
    → decode_uri_component (text ++ rest) ≡ push_front c (decode_uri_component rest)
unfolding stands_for
decode-stands_for c [] rest h = cc
decode-stands_for c (p ∷ []) rest h =
    rw (← (==_iff p c).0 (ground arith)) (decode_plain p rest (ground arith))
decode-stands_for c (p ∷ x ∷ []) rest h = cc
decode-stands_for c (p ∷ x ∷ y ∷ []) rest h =
    decode_escape c p x y rest (ground arith) (ground arith)
decode-stands_for c (p ∷ x ∷ y ∷ z ∷ text) rest h = cc

-- Decoding what was encoded gives every byte string back.
pub decode-encode_uri_component :
    (s : Bytes) → IsBytes s → decode_uri_component (encode_uri_component s) ≡ ok s
unfolding encode_uri_component
decode-encode_uri_component [] h = unfold decode_uri_component in refl
decode-encode_uri_component (c ∷ s) h =
    decode-stands_for c (encode_rune c) (encode_uri_component s)
      (all_below_sound 256 _ c stands_for_table h.0)
    ∙ rw (decode-encode_uri_component s h.1)

-- The characters that delimit the parts of a URL and of a query.
abbrev pub is_delimiter : ℕ → Bool
is_delimiter c =
    c == b'&'
    || c == b'='
    || c == b'#'
    || c == b'?'
    || c == b'/'
    || c == b':'
    || c == b'@'
    || c == b' '

abbrev free : Bytes → Bool
free [] = true
free (c ∷ cs) = not (is_delimiter c) && free cs

free_table : all_below 256 (λ c. free (encode_rune c)) ≡ true
unfolding all_below encode_rune
free_table = refl

free-All : (s : Bytes) → free s ≡ true → All (λ c. is_delimiter c ≡ false) s
free-All [] h = tt
free-All (c ∷ s) h = (ground arith, free-All s (ground arith))

-- Encoded text holds no delimiter.
pub encode_uri_component-delimiter :
    (s : Bytes) → IsBytes s → All (λ c. is_delimiter c ≡ false) (encode_uri_component s)
unfolding encode_uri_component
encode_uri_component-delimiter [] h = tt
encode_uri_component-delimiter (c ∷ s) h =
    All-append (λ c. is_delimiter c ≡ false) (encode_rune c) (encode_uri_component s)
      (free-All (encode_rune c) (all_below_sound 256 _ c free_table h.0))
      (encode_uri_component-delimiter s h.1)
