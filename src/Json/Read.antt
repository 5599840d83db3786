-- ===== src/Json/Read.antt =====
-- json/parse.cpp: how the texts of values without parts are read at the place where they stand.
use mathlib.Core.Path.{subst}
use lambda.Base.{
  ℕ, zero, suc, ◌+◌, ◌-◌, ◌<◌, ◌≤◌, true, false, [], ◌∷◌, ◌++◌, append_assoc, ◌≡◌, ◌∙◌, inl, inr,
  refl, sym, ap, arith, Bytes, ◌==◌, ltb, byte_at-drop, drop-suc, drop, length, length-append, ok,
}
use lambda.Json.Strings.{bare_quote, escape, escaped_rune, unescape, parse_string, escape_text}
use lambda.Json.Parse.{}
use lambda.Json.Plain.{IsPlainText}
use lambda.Json.Clean.{rune_text-cases}
use lambda.Json.Walk.{IsQuiet, escape_text-IsQuiet, drop-length}

bare_quote-IsQuiet :
    (buf : Bytes) (begin i : ℕ) (xs rest : Bytes)
    → drop i buf ≡ xs ++ rest
    → IsQuiet xs
    → bare_quote buf begin (length xs) i ≡ false
unfolding bare_quote
bare_quote-IsQuiet buf begin i [] rest at h = refl
bare_quote-IsQuiet buf begin i (x ∷ xs) rest at h =
    let e : (x == b'"') ≡ false = ground (arith, h.0) in
    rw (byte_at-drop buf i x (xs ++ rest) at, e)
      (bare_quote-IsQuiet buf begin (i + 1) xs rest (drop-suc buf i x (xs ++ rest) at) h.1)

-- One escape sequence in front of the index.
unescape_sequence :
    (buf : Bytes) (c d fuel i end : ℕ) (rest : Bytes) {xs : Bytes}
    → drop i buf ≡ b'\\' ∷ b'\\' ∷ c ∷ rest
    → i + 3 ≤ end
    → escaped_rune c ≡ ok d
    → unescape fuel buf (i + 3) end ≡ ok xs
    → unescape (suc fuel) buf i end ≡ ok (d ∷ xs)
unfolding unescape escape
unescape_sequence buf c d fuel i end rest at le e more =
    let here = byte_at-drop buf i b'\\' (b'\\' ∷ c ∷ rest) at in
    let at1 = drop-suc buf i b'\\' (b'\\' ∷ c ∷ rest) at in
    let next = byte_at-drop buf (i + 1) b'\\' (c ∷ rest) at1 in
    let p : i + 1 + 1 ≡ i + 2 = omega arith in
    let at2 : drop (i + 2) buf ≡ c ∷ rest = rw (← p) (drop-suc buf (i + 1) b'\\' (c ∷ rest) at1) in
    let last = byte_at-drop buf (i + 2) c rest at2 in
    let before : ltb i end ≡ true = ground arith in
    let some_left : (end - i == 0) ≡ false = ground arith in
    let two_left : ltb (end - i) 2 ≡ false = ground arith in
    rw (before, here, some_left, next, two_left, last, e, more) refl

-- One rune that stands for itself.
unescape_rune :
    (buf : Bytes) (c fuel i end : ℕ) (rest : Bytes) {xs : Bytes}
    → drop i buf ≡ c ∷ rest
    → i < end
    → (c == b'\\') ≡ false
    → unescape fuel buf (i + 1) end ≡ ok xs
    → unescape (suc fuel) buf i end ≡ ok (c ∷ xs)
unfolding unescape
unescape_rune buf c fuel i end rest at lt e more =
    let before : ltb i end ≡ true = ground arith in
    rw (before, byte_at-drop buf i c rest at, e, more) refl

module _ (buf : Bytes) where
  -- Where the text stands in the buffer, it is unescaped to the content.
  abbrev Reads : Bytes → Bytes → Type 0
  Reads text content =
      (extra i : ℕ) (rest : Bytes)
      → drop i buf ≡ text ++ rest
      → unescape (length text + extra) buf i (i + length text) ≡ ok content

  Reads-nil : Reads [] []
  unfolding unescape
  Reads-nil zero i rest at = refl
  Reads-nil (suc extra) i rest at =
      let f : 0 + suc extra ≡ suc extra = omega arith in
      let a : ltb i (i + 0) ≡ false = ground arith in rw (f, unescape, a) refl

  Reads-sequence :
      (c d : ℕ) (text content : Bytes)
      → escaped_rune c ≡ ok d
      → Reads text content
      → Reads (b'\\' ∷ b'\\' ∷ c ∷ text) (d ∷ content)
  Reads-sequence c d text content e more extra i rest at =
      let n = length text in
      let f : suc (suc (suc n)) + extra ≡ suc (n + (extra + 2)) = omega arith in
      let g : i + suc (suc (suc n)) ≡ i + 3 + n = omega arith in
      let behind = drop-length buf i (b'\\' ∷ b'\\' ∷ c ∷ []) (text ++ rest) at in
      rw (f, g)
        (unescape_sequence buf c d (n + (extra + 2)) i (i + 3 + n) (text ++ rest) at (omega arith) e
          (more (extra + 2) (i + 3) rest behind))

  Reads-rune :
      (c : ℕ) (text content : Bytes)
      → (c == b'\\') ≡ false
      → Reads text content
      → Reads (c ∷ text) (c ∷ content)
  Reads-rune c text content e more extra i rest at =
      let n = length text in
      let f : suc n + extra ≡ suc (n + extra) = omega arith in
      let g : i + suc n ≡ i + 1 + n = omega arith in
      rw (f, g)
        (unescape_rune buf c (n + extra) i (i + 1 + n) (text ++ rest) at (omega arith) e
          (more extra (i + 1) rest (drop-suc buf i c (text ++ rest) at)))

  -- The content of a printed string is read back.
  Reads-escape_text : (s : Bytes) → IsPlainText s → Reads (escape_text s) s
  unfolding escape_text
  Reads-escape_text [] h = Reads-nil
  Reads-escape_text (x ∷ s) h =
      let more = Reads-escape_text s h.1 in
      let written = λ (t : Bytes). Reads (t ++ escape_text s) (x ∷ s) in
      elim (rune_text-cases x h.0) [
        | inl (k, t) ↦
            subst written (sym t) (Reads-sequence b'n' x (escape_text s) s (rw k refl) more)
        | inr (inl (k, t)) ↦
            subst written (sym t) (Reads-sequence b't' x (escape_text s) s (rw k refl) more)
        | inr (inr t) ↦
            subst written (sym t) (Reads-rune x (escape_text s) s (ground (arith, h.0)) more)
      ]

  -- A printed string is parsed where it stands.
  pub parse_string-escape_text :
      (s : Bytes) (i : ℕ) (rest : Bytes)
      → IsPlainText s
      → drop i buf ≡ (b'"' ∷ escape_text s ++ b'"' ∷ []) ++ rest
      → parse_string buf i (i + length (b'"' ∷ escape_text s ++ b'"' ∷ [])) ≡ ok s
  unfolding parse_string
  parse_string-escape_text s i rest h at =
      let text = escape_text s in
      let n = length text in
      let len = length-append text (b'"' ∷ []) in
      let e : i + suc (length (text ++ b'"' ∷ [])) ≡ i + 1 + n + 1 = omega (arith, len) in
      let last : i + 1 + n + 1 - 1 ≡ i + 1 + n = omega arith in
      let left : i + 1 + n - (i + 1) ≡ n = omega arith in
      let open_ = byte_at-drop buf i b'"' ((text ++ b'"' ∷ []) ++ rest) at in
      let inside =
        drop-suc buf i b'"' ((text ++ b'"' ∷ []) ++ rest) at ∙ append_assoc text (b'"' ∷ []) rest in
      let close_ =
        byte_at-drop buf (i + 1 + n) b'"' rest
          (drop-length buf (i + 1) text (b'"' ∷ rest) inside) in
      let quiet =
        bare_quote-IsQuiet buf (i + 1) (i + 1) text (b'"' ∷ rest) inside
          (escape_text-IsQuiet s h) in
      let z : n + 0 ≡ n = omega arith in
      rw (e, last, left, open_, close_, quiet)
        (ap (λ k. unescape k buf (i + 1) (i + 1 + n)) (sym z)
          ∙ Reads-escape_text s h 0 (i + 1) (b'"' ∷ rest) inside)
