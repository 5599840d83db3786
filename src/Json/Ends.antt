-- ===== src/Json/Ends.antt =====
-- json/parse.cpp: parse_range comes to an end by itself, with a value or with an exception of the
-- source.
use lambda.Base.{
  ℕ, zero, suc, ◌+◌, ◌-◌, ◌<◌, ◌≤◌, Bool, true, false, List, [], ◌∷◌, none, ◌≡◌, refl, inl, inr,
  arith, Bytes, ltb, ◌==◌, if◌then◌else◌, Bool-cases, Option-cases, Result, ok, err, Error, ◌>>=◌,
  ◌||◌, not, byte_at, codes, equal, substr,
}
use lambda.Base.Decimal.{number_text, is_digit}
use lambda.Base.Integers.{stol}
use lambda.Json.Property.{Property, Array, Object, put_entry}
use lambda.Json.Entries.{get_object_entries, find_member}
use lambda.Json.Strings.{bare_quote, escape, unescape, parse_string}
use lambda.Json.Fuel.{
  Within, get_object_entries-Within, find_member_behind, first_rune-ge, last_rune-le,
}
use lambda.Json.Parse.{
  first_rune, last_rune, has_dot, collect, parse_array, unwrap, unwrap_all, parse_object,
  parse_number, parse_literal, parse_trimmed, parse_range,
}

abbrev pub is_spent : Error → Bool
is_spent Error.json_fuel_spent = true
is_spent _ = false

-- Whether the fuel of the model ran out.
abbrev pub spent {ℓ} : {A : Type ℓ} → Result A → Bool
spent (ok a) = false
spent (err e) = is_spent e

-- A chain ends where its parts do.
spent->>= {ℓ κ} :
    {A : Type ℓ} {B : Type κ} (r : Result A) (f : A → Result B)
    → spent r ≡ false
    → ((a : A) → spent (f a) ≡ false)
    → spent (r >>= f) ≡ false
spent->>= (ok a) f h k = k a
spent->>= (err e) f h k = h

spent-if {ℓ} :
    {A : Type ℓ} (c : Bool) (r s : Result A)
    → spent r ≡ false
    → spent s ≡ false
    → spent (if c then r else s) ≡ false
spent-if true r s h k = h
spent-if false r s h k = k

spent-stol : (text : Bytes) → spent (stol text) ≡ false
unfolding stol
spent-stol text = elim (Option-cases (number_text text)) [
  | inl h ↦ rw (stol, h) refl
  | inr ((negative, v), h) ↦ rw (stol, h) (ground arith)
]

spent-escape : (buf : Bytes) (idx end : ℕ) → spent (escape buf idx end) ≡ false
unfolding escape
spent-escape buf idx end = ground arith

spent-unescape : (fuel : ℕ) (buf : Bytes) (idx end : ℕ) → spent (unescape fuel buf idx end) ≡ false
unfolding unescape
spent-unescape zero buf idx end = refl
spent-unescape (suc fuel) buf idx end =
    let next = if byte_at buf idx == b'\\' then idx + 3 else idx + 1 in
    let rest = unescape fuel buf next end in
    let ih = spent-unescape fuel buf next end in
    spent-if (ltb idx end) _ _
      (spent-if (byte_at buf idx == b'\\') _ _
        (spent->>= (escape buf idx end) _ (spent-escape buf idx end)
          (λ c. spent->>= rest (λ cs. ok (c ∷ cs)) ih (λ cs. refl)))
        (spent->>= rest (λ cs. ok (byte_at buf idx ∷ cs)) ih (λ cs. refl)))
      refl

spent-parse_string : (buf : Bytes) (begin end : ℕ) → spent (parse_string buf begin end) ≡ false
unfolding parse_string
spent-parse_string buf begin end =
    spent-if (not (byte_at buf begin == b'"') || not (byte_at buf (end - 1) == b'"')) _ _ refl (
      spent-if (bare_quote buf (begin + 1) (end - 1 - (begin + 1)) (begin + 1)) _ _ refl
        (spent-unescape (end - 1 - (begin + 1)) buf (begin + 1) (end - 1)))

module _ (F : Type 0) where
  spent-parse_literal :
      (buf : Bytes) (begin end : ℕ) → spent (parse_literal {F = F} buf begin end) ≡ false
  unfolding parse_literal
  spent-parse_literal buf begin end =
      let token = substr buf begin (end - begin) in
      spent-if (ltb 4 (end - begin)) _ _ refl (
        spent-if (equal token (codes "true")) _ _ refl (
          spent-if (equal token (codes "false")) _ _ refl
            (spent-if (equal token (codes "null")) _ _ refl refl)))

-- A way to parse the ranges that are shorter than n.
module _ {F : Type 0} (range : ℕ → ℕ → Result (Property F)) (n : ℕ)
    (finishes : (b e : ℕ) → e - b < n → spent (range b e) ≡ false) where
  spent-collect :
      (lo hi : ℕ) (entries : List (ℕ × ℕ))
      → hi - lo < n
      → Within lo hi entries
      → spent (collect range entries) ≡ false
  unfolding collect
  spent-collect lo hi [] lt h = refl
  spent-collect lo hi ((b, e) ∷ entries) lt h =
      let (ge, le) = h.0 in
      spent->>= (range b e) _ (finishes b e (omega arith)) (λ value.
        spent->>= (collect range entries) (λ values. ok (Array.cons value values))
          (spent-collect lo hi entries lt h.1) (λ values. refl))

  spent-unwrap :
      (buf : Bytes) (entries : Object F) (b e : ℕ)
      → e - b < n
      → spent (unwrap range buf entries b e) ≡ false
  unfolding unwrap
  spent-unwrap buf entries b e lt = elim (Option-cases (find_member buf b (e - b) b none [])) [
    | inl h ↦ rw (unwrap, h) refl
    | inr ((key, value_begin), h) ↦
        let behind = find_member_behind buf b (e - b) b none [] key value_begin h in
        rw (unwrap, h)
          (spent-if (e - value_begin == 0) (ok entries)
            (range value_begin e >>= λ value. ok (put_entry key value entries)) refl
            (spent->>= (range value_begin e) (λ value. ok (put_entry key value entries))
              (finishes value_begin e (omega arith)) (λ value. refl)))
  ]

  spent-unwrap_all :
      (buf : Bytes) (lo hi : ℕ) (entries : Object F) (ranges : List (ℕ × ℕ))
      → hi - lo < n
      → Within lo hi ranges
      → spent (unwrap_all range buf entries ranges) ≡ false
  unfolding unwrap_all
  spent-unwrap_all buf lo hi entries [] lt h = refl
  spent-unwrap_all buf lo hi entries ((b, e) ∷ more) lt h =
      let (ge, le) = h.0 in
      spent->>= (unwrap range buf entries b e) _ (spent-unwrap buf entries b e (omega arith))
        (λ next. spent-unwrap_all buf lo hi next more lt h.1)

  module _ (buf : Bytes) (begin end : ℕ) (lt : begin < end) (le : end - begin ≤ n) where
    spent-parse_array : spent (parse_array range buf begin end) ≡ false
    unfolding parse_array
    spent-parse_array =
        spent-if (not (byte_at buf begin == b'[') || not (byte_at buf (end - 1) == b']')) _ _ refl (
          spent->>= (collect range (get_object_entries buf (begin + 1) (end - 1))) _
            (spent-collect (begin + 1) (begin + 1 + (end - 1 - (begin + 1))) _ (omega arith)
              (get_object_entries-Within buf (begin + 1) (end - 1)))
            (λ values. refl))

    spent-parse_object : spent (parse_object range buf begin end) ≡ false
    unfolding parse_object
    spent-parse_object =
        spent-if (not (byte_at buf begin == b'{') || not (byte_at buf (end - 1) == b'}')) _ _ refl (
          spent->>=
            (unwrap_all range buf Object.leaf (get_object_entries buf (begin + 1) (end - 1))) _
            (spent-unwrap_all buf (begin + 1) (begin + 1 + (end - 1 - (begin + 1))) Object.leaf _
              (omega arith) (get_object_entries-Within buf (begin + 1) (end - 1)))
            (λ values. refl))

module _ {F : Type 0} (stold : Bytes → Result F)
    (stold_finishes : (text : Bytes) → spent (stold text) ≡ false) where
  spent-parse_number :
      (buf : Bytes) (begin end : ℕ) → spent (parse_number stold buf begin end) ≡ false
  unfolding parse_number
  spent-parse_number buf begin end =
      let token = substr buf begin (end - begin) in
      spent-if (has_dot buf end 0) _ _
        (spent->>= (stold token) _ (stold_finishes token) (λ x. refl))
        (spent->>= (stol token) _ (spent-stol token) (λ z. refl))

  -- Parsing a range comes to an end by itself: fuel above the length of the range does not run out,
  -- for any text, whatever the reader of floats returns.
  pub parse_range-ends :
      (fuel : ℕ) (buf : Bytes) (begin end : ℕ)
      → end - begin < fuel
      → spent (parse_range stold fuel buf begin end) ≡ false
  unfolding parse_range parse_trimmed
  parse_range-ends zero buf begin end lt = absurd (omega arith)
  parse_range-ends (suc fuel) buf begin end lt =
      let b = first_rune buf begin (end - begin) begin in
      let e = last_rune buf b end (end - b) in
      let ge = first_rune-ge buf begin (end - begin) begin (omega arith) in
      let le = last_rune-le buf b end (end - b) (omega arith) in
      elim (Bool-cases (e - b == 0)) [
        | inl h ↦ rw h refl
        | inr h ↦
            let range = parse_range stold fuel buf in
            let inner : (x y : ℕ) → y - x < e - b → spent (range x y) ≡ false =
              λ x y k. parse_range-ends fuel buf x y (omega (arith, le, ge, k)) in
            let wide : b < e = ground (arith, h) in
            rw h (
              spent-if (byte_at buf b == b'"') _ _
                (spent->>= (parse_string buf b e) (λ s. ok (Property.string s))
                  (spent-parse_string buf b e) (λ s. refl))
                (spent-if (is_digit (byte_at buf b) || byte_at buf b == b'-') _ _
                  (spent-parse_number buf b e)
                  (spent-if (byte_at buf b == b'{') _ _
                    (spent-parse_object range (e - b) inner buf b e wide (omega arith))
                    (spent-if (byte_at buf b == b'[') _ _
                      (spent-parse_array range (e - b) inner buf b e wide (omega arith))
                      (spent-parse_literal F buf b e)))))
      ]
