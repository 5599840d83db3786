-- ===== src/Json/Members.antt =====
-- json/parse.cpp: `unwrap` on the text of one entry of an object.
use lambda.Base.{
  ℕ, suc, ◌+◌, ◌-◌, ◌<◌, false, ◌&&◌, [], ◌∷◌, ◌++◌, append_assoc, none, some, ◌≡◌, ◌∙◌, refl, ap,
  arith, Bytes, ◌==◌, ltb, byte_at, byte_at-drop, drop-suc, drop, drop_past, length, length-append,
  Result, ok, ◌>>=◌, substr, substr_at, is_empty,
}
use lambda.Json.Property.{Property, Object, put_entry}
use lambda.Json.Entries.{find_member}
use lambda.Json.Parse.{unwrap}
use lambda.Json.Stringify.{stringify}
use lambda.Json.Plain.{IsPlainText, entry_text}
use lambda.Json.Clean.{IsClean, before_quote}
use lambda.Json.Walk.{drop-length}

module _ (buf : Bytes) (clean : IsClean buf) (begin : ℕ) where
  -- The runes of the key are passed.
  find_member_key :
      (xs : Bytes) (left idx start : ℕ) (rest : Bytes)
      → IsPlainText xs
      → drop idx buf ≡ xs ++ rest
      → find_member buf begin (length xs + left) idx (some start) []
        ≡ find_member buf begin left (idx + length xs) (some start) []
  unfolding find_member
  find_member_key [] left idx start rest h at =
      let a : 0 + left ≡ left = omega arith in let b : idx + 0 ≡ idx = omega arith in rw (a, b)
  find_member_key (x ∷ xs) left idx start rest h at =
      let no_quote : (x == b'"') ≡ false = ground (arith, h.0) in
      let a : suc (length xs) + left ≡ suc (length xs + left) = omega arith in
      let b : idx + suc (length xs) ≡ idx + 1 + length xs = omega arith in
      rw (a, b, find_member, byte_at-drop buf idx x (xs ++ rest) at, no_quote)
        (find_member_key xs left (idx + 1) start rest h.1 (drop-suc buf idx x (xs ++ rest) at))

  find_member_open :
      (left : ℕ) (rest : Bytes)
      → drop begin buf ≡ b'"' ∷ rest
      → find_member buf begin (suc left) begin none []
        ≡ find_member buf begin left (begin + 1) (some (begin + 1)) []
  unfolding find_member
  find_member_open left rest at =
      let same : ltb begin begin ≡ false = ground arith in
      rw (find_member, byte_at-drop buf begin b'"' rest at, same) refl

  find_member_close :
      (k : ℕ) (key : Bytes) (left idx start : ℕ) (rest : Bytes)
      → drop idx buf ≡ b'"' ∷ rest
      → idx ≡ start + length (k ∷ key)
      → substr buf start (length (k ∷ key)) ≡ k ∷ key
      → find_member buf begin (suc left) idx (some start) []
        ≡ find_member buf begin left (idx + 1) (some start) (k ∷ key)
  unfolding find_member
  find_member_close k key left idx start rest at e cut =
      let quote = byte_at-drop buf idx b'"' rest at in
      let before = before_quote buf idx clean quote in
      let escaped : (ltb begin idx && byte_at buf (idx - 1) == b'\\') ≡ false =
        ground (arith, before) in
      let n : idx - start ≡ suc (length key) = omega (arith, e) in
      let wide : (suc (length key) == 0) ≡ false = ground arith in
      rw (find_member, escaped, quote, n, wide, cut) refl

  find_member_colon :
      (k : ℕ) (key : Bytes) (left idx start : ℕ) (rest : Bytes)
      → drop idx buf ≡ b':' ∷ rest
      → find_member buf begin (suc left) idx (some start) (k ∷ key) ≡ some (k ∷ key, idx + 1)
  unfolding find_member
  find_member_colon k key left idx start rest at =
      rw (find_member, byte_at-drop buf idx b':' rest at) refl

-- The key and the place of the value of a printed entry.
module _ {F : Type 0} (float_text : F → Bytes) (buf : Bytes) (clean : IsClean buf) where
  find_member-entry_text :
      (key : Bytes) (v : Property F) (i : ℕ) (rest : Bytes)
      → is_empty key ≡ false
      → IsPlainText key
      → drop i buf ≡ entry_text float_text key v ++ rest
      → find_member buf i (length (entry_text float_text key v)) i none []
        ≡ some (key, i + length key + 3)
  find_member-entry_text [] v i rest filled h at = absurd (cc)
  find_member-entry_text (k ∷ key) v i rest filled h at =
      let text = stringify float_text v in
      let n = length text in
      let m = length (k ∷ key) in
      let len = length-append (k ∷ key) (b'"' ∷ b':' ∷ text) in
      let e : suc (length (k ∷ key ++ (b'"' ∷ b':' ∷ text))) ≡ suc (m + suc (suc n)) =
        omega (arith, len) in
      let inside : drop (i + 1) buf ≡ (k ∷ key) ++ (b'"' ∷ b':' ∷ text ++ rest) =
        drop-suc buf i b'"' (((k ∷ key) ++ (b'"' ∷ b':' ∷ text)) ++ rest) at
        ∙ append_assoc (k ∷ key) (b'"' ∷ b':' ∷ text) rest in
      let close_ = drop-length buf (i + 1) (k ∷ key) (b'"' ∷ b':' ∷ text ++ rest) inside in
      let colon = drop-suc buf (i + 1 + m) b'"' (b':' ∷ text ++ rest) close_ in
      rw e (
        find_member_open buf clean i (m + suc (suc n)) _ at
        ∙ find_member_key buf clean i (k ∷ key) (suc (suc n)) (i + 1) (i + 1) _ h inside
        ∙ find_member_close buf clean i k key (suc n) (i + 1 + m) (i + 1) _ close_ refl
            (substr_at buf (i + 1) m (k ∷ key) _ inside refl)
        ∙ find_member_colon buf clean i k key n (i + 1 + m + 1) (i + 1) _ colon
        ∙ ap (λ p. some ((k ∷ key, p))) (omega arith))

  -- An entry is added with its value where the value is parsed as it was printed.
  pub unwrap-entry_text :
      (range : ℕ → ℕ → Result (Property F)) (entries : Object F) (key : Bytes) (v : Property F)
      (read : Result (Property F)) (i : ℕ) (rest : Bytes)
      → is_empty key ≡ false
      → IsPlainText key
      → drop i buf ≡ entry_text float_text key v ++ rest
      → 0 < length (stringify float_text v)
      → ((j : ℕ)
          → drop j buf ≡ stringify float_text v ++ rest
          → range j (j + length (stringify float_text v)) ≡ read)
      → unwrap range buf entries i (i + length (entry_text float_text key v))
        ≡ (read >>= λ value. ok (put_entry key value entries))
  unfolding unwrap
  unwrap-entry_text range entries key v read i rest filled h at wide value =
      let text = stringify float_text v in
      let whole = length (entry_text float_text key v) in
      let found = find_member-entry_text key v i rest filled h at in
      let len = length-append key (b'"' ∷ b':' ∷ text) in
      let left : i + whole - i ≡ whole = omega arith in
      let there = i + length key + 3 in
      let end_ : i + whole ≡ there + length text = omega (arith, len) in
      let some_left : (there + length text - there == 0) ≡ false = ground (arith, wide) in
      let inside : drop (i + 1) buf ≡ key ++ (b'"' ∷ b':' ∷ text ++ rest) =
        drop-suc buf i b'"' ((key ++ (b'"' ∷ b':' ∷ text)) ++ rest) at
        ∙ append_assoc key (b'"' ∷ b':' ∷ text) rest in
      let close_ = drop-length buf (i + 1) key (b'"' ∷ b':' ∷ text ++ rest) inside in
      let at_value =
        drop_past buf (i + 1 + length key) there (b'"' ∷ b':' ∷ []) (text ++ rest) close_
          (omega arith) in
      rw (unwrap, left, found, end_, some_left, value there at_value) refl
