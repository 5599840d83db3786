-- ===== src/Json/Clean.antt =====
-- json/: printed texts have no dot, and no quote that would be taken for an escaped one.
use mathlib.Core.Path.{subst}
use lambda.Base.{
  ℕ, zero, suc, ◌+◌, ◌-◌, Bool, true, false, ◌&&◌, [], ◌∷◌, ◌++◌, ◌≡◌, refl, sym, arith, Bytes,
  ◌==◌, if◌then◌else◌, is_empty, byte_at, inl, inr, ◌⊎◌, Bool-cases, codes,
}
use lambda.Base.Integers.{pos, negsuc, integer_text}
use lambda.Base.Decimal.RoundTrip.{AreDigits, to_decimal-AreDigits}
use lambda.Json.Property.{Property, Array, Object}
use lambda.Json.Strings.{escape_text, rune_replace}
use lambda.Json.Stringify.{stringify}
use lambda.Json.Entries.{is_valid_escaped_quote}
use lambda.Json.Parse.{has_dot}
use lambda.Json.Plain.{
  is_plain, IsPlainText, IsPlain, ArePlain, EntriesPlain, later_items, later_entries, entry_text,
  stringify_array_lem, stringify_object_lem,
}

-- The text stands behind a backslash or not.
abbrev pub IsCleanBehind : Bool → Bytes → Type 0
IsCleanBehind slash [] = Unit
IsCleanBehind slash (c ∷ cs) =
    ((c == b'.') ≡ false) × ((c == b'"' && slash) ≡ false) × IsCleanBehind (c == b'\\') cs

abbrev ends_with_backslash : Bool → Bytes → Bool
ends_with_backslash slash [] = slash
ends_with_backslash slash (c ∷ cs) = ends_with_backslash (c == b'\\') cs

-- A clean text that can stand before another.
abbrev pub IsClean : Bytes → Type 0
IsClean xs = IsCleanBehind false xs × (ends_with_backslash false xs ≡ false)

behind-append :
    (slash : Bool) (xs ys : Bytes)
    → IsCleanBehind slash xs
    → IsCleanBehind (ends_with_backslash slash xs) ys
    → IsCleanBehind slash (xs ++ ys)
behind-append slash [] ys h k = k
behind-append slash (x ∷ xs) ys h k = (h.0, h.1, behind-append (x == b'\\') xs ys h.2 k)

ends_with_backslash-append :
    (slash : Bool) (xs ys : Bytes)
    → ends_with_backslash slash (xs ++ ys) ≡ ends_with_backslash (ends_with_backslash slash xs) ys
ends_with_backslash-append slash [] ys = refl
ends_with_backslash-append slash (x ∷ xs) ys = ends_with_backslash-append (x == b'\\') xs ys

pub append-IsClean : (xs ys : Bytes) → IsClean xs → IsClean ys → IsClean (xs ++ ys)
append-IsClean xs ys (a, b) (c, d) =
    let k : IsCleanBehind (ends_with_backslash false xs) ys = rw b c in
    (behind-append false xs ys a k, rw (ends_with_backslash-append false xs ys, b) d)

cons-IsClean :
    (c : ℕ) (cs : Bytes)
    → (c == b'.') ≡ false
    → (c == b'\\') ≡ false
    → IsClean cs
    → IsClean (c ∷ cs)
cons-IsClean c cs h k r = append-IsClean (c ∷ []) cs ((h, (ground arith), tt), k) r

plain-IsClean : (xs : Bytes) → IsPlainText xs → IsClean xs
plain-IsClean [] h = (tt, refl)
plain-IsClean (x ∷ xs) h =
    let p = h.0 in cons-IsClean x xs (ground (arith, p)) (ground (arith, p)) (plain-IsClean xs h.1)

digits-IsClean : (xs : Bytes) → AreDigits xs → IsClean xs
digits-IsClean [] h = (tt, refl)
digits-IsClean (x ∷ xs) h =
    let p = h.0 in cons-IsClean x xs (ground (arith, p)) (ground (arith, p)) (digits-IsClean xs h.1)

-- What the printer writes for a plain rune.
abbrev pub rune_text : ℕ → Bytes
rune_text x = if is_empty (rune_replace x) then x ∷ [] else rune_replace x

-- A plain rune is a line break, a tab or written as it is.
pub rune_text-cases :
    (x : ℕ)
    → is_plain x ≡ true
    → ((x ≡ 10) × (rune_text x ≡ codes "\\\\n"))
      ⊎ ((x ≡ 9) × (rune_text x ≡ codes "\\\\t"))
      ⊎ (rune_text x ≡ x ∷ [])
unfolding rune_replace
rune_text-cases x h = elim (Bool-cases (x == 10)) [
  | inl e ↦ let k : x ≡ 10 = ground (arith, e) in inl (k, rw k refl)
  | inr e ↦ elim (Bool-cases (x == 9)) [
    | inl f ↦ let k : x ≡ 9 = ground (arith, f) in inr (inl (k, rw k refl))
    | inr f ↦
        let g : (x == 27) ≡ false = ground (arith, h) in
        let q : (x == b'"') ≡ false = ground (arith, h) in inr (inr (rw (e, f, g, q) refl))
  ]
]

rune_text-IsClean : (x : ℕ) → is_plain x ≡ true → IsClean (rune_text x)
rune_text-IsClean x h = elim (rune_text-cases x h) [
  | inl (_, e) ↦ rw e ((refl, refl, (refl, refl, (refl, refl, tt))), refl)
  | inr (inl (_, e)) ↦ rw e ((refl, refl, (refl, refl, (refl, refl, tt))), refl)
  | inr (inr e) ↦ rw e (cons-IsClean x [] (ground (arith, h)) (ground (arith, h)) (tt, refl))
]

escape_text-IsClean : (xs : Bytes) → IsPlainText xs → IsClean (escape_text xs)
unfolding escape_text
escape_text-IsClean [] h = (tt, refl)
escape_text-IsClean (x ∷ xs) h =
    append-IsClean (rune_text x) _ (rune_text-IsClean x h.0) (escape_text-IsClean xs h.1)

module _ {F : Type 0} (float_text : F → Bytes) where
  entry_text-IsClean :
      (key : Bytes) (v : Property F)
      → IsPlainText key
      → IsClean (stringify float_text v)
      → IsClean (entry_text float_text key v)
  entry_text-IsClean key v k h = cons-IsClean b'"' _ refl refl (
      append-IsClean key _ (plain-IsClean key k) (
        cons-IsClean b'"' (b':' ∷ stringify float_text v) refl refl
          (cons-IsClean b':' (stringify float_text v) refl refl h)))

  mutual
    unfolding IsPlain stringify integer_text

    pub stringify-IsClean : (v : Property F) → IsPlain v → IsClean (stringify float_text v)
    stringify-IsClean Property.undefined h = absurd h
    stringify-IsClean Property.null h =
        plain-IsClean (codes "null") (refl, (refl, (refl, (refl, tt))))
    stringify-IsClean (Property.float x) h = absurd h
    stringify-IsClean (Property.integer (pos n)) h = digits-IsClean _ (to_decimal-AreDigits n)
    stringify-IsClean (Property.integer (negsuc n)) h =
        cons-IsClean b'-' _ refl refl (digits-IsClean _ (to_decimal-AreDigits (suc n)))
    stringify-IsClean (Property.boolean true) h =
        plain-IsClean (codes "true") (refl, (refl, (refl, (refl, tt))))
    stringify-IsClean (Property.boolean false) h =
        plain-IsClean (codes "false") (refl, (refl, (refl, (refl, (refl, tt)))))
    stringify-IsClean (Property.string s) h = cons-IsClean b'"' _ refl refl (
        append-IsClean (escape_text s) (b'"' ∷ []) (escape_text-IsClean s h)
          ((refl, refl, tt), refl))
    stringify-IsClean (Property.array Array.nil) h = absurd h
    stringify-IsClean (Property.array (Array.cons v rest)) h =
        subst (λ t. IsClean t) (sym (stringify_array_lem float_text v rest h.0))
          (cons-IsClean b'[' _ refl refl (
            append-IsClean (stringify float_text v ++ later_items float_text rest) (b']' ∷ [])
              (append-IsClean _ _ (stringify-IsClean v h.0) (items-IsClean rest h.1))
              ((refl, refl, tt), refl)))
    stringify-IsClean (Property.object Object.leaf) h = ((refl, refl, (refl, refl, tt)), refl)
    stringify-IsClean (Property.object (Object.entry key v rest)) h =
        let inner = entry_text float_text key v ++ later_entries float_text rest in
        subst (λ t. IsClean t) (sym (stringify_object_lem float_text key v rest))
          (cons-IsClean b'{' (inner ++ b'}' ∷ []) refl refl (
            append-IsClean inner (b'}' ∷ [])
              (append-IsClean (entry_text float_text key v) _
                (entry_text-IsClean key v h.0.1 (stringify-IsClean v h.1))
                (entries-IsClean rest h.3))
              ((refl, refl, tt), refl)))

    items-IsClean : (xs : Array F) → ArePlain xs → IsClean (later_items float_text xs)
    items-IsClean Array.nil h = (tt, refl)
    items-IsClean (Array.cons v rest) h =
        cons-IsClean b',' _ refl refl
          (append-IsClean _ _ (stringify-IsClean v h.0) (items-IsClean rest h.1))

    entries-IsClean : (xs : Object F) → EntriesPlain xs → IsClean (later_entries float_text xs)
    entries-IsClean Object.leaf h = (tt, refl)
    entries-IsClean (Object.entry key v rest) h =
        cons-IsClean b',' (entry_text float_text key v ++ later_entries float_text rest) refl refl (
          append-IsClean (entry_text float_text key v) _
            (entry_text-IsClean key v h.0.1 (stringify-IsClean v h.1)) (entries-IsClean rest h.3))

byte_at-no_dot :
    (slash : Bool) (buf : Bytes) (i : ℕ) → IsCleanBehind slash buf → (byte_at buf i == b'.') ≡ false
byte_at-no_dot slash [] i h = refl
byte_at-no_dot slash (c ∷ buf) zero h = h.0
byte_at-no_dot slash (c ∷ buf) (suc i) h = byte_at-no_dot (c == b'\\') buf i h.2

pub has_dot-IsClean : (buf : Bytes) (left i : ℕ) → IsClean buf → has_dot buf left i ≡ false
unfolding has_dot
has_dot-IsClean buf zero i h = refl
has_dot-IsClean buf (suc left) i h =
    rw (byte_at-no_dot false buf i h.0) (has_dot-IsClean buf left (i + 1) h)

-- A quote does not stand behind a backslash.
quote_behind :
    (slash : Bool) (buf : Bytes) (i : ℕ)
    → IsCleanBehind slash buf
    → byte_at buf (suc i) ≡ b'"'
    → (byte_at buf i == b'\\') ≡ false
quote_behind slash [] i h e = refl
quote_behind slash (c ∷ []) i h e = absurd (cc)
quote_behind slash (c ∷ d ∷ buf) zero h e = ground (arith, h, e)
quote_behind slash (c ∷ d ∷ buf) (suc i) h e = quote_behind (c == b'\\') (d ∷ buf) i h.2 e

pub before_quote :
    (buf : Bytes) (i : ℕ)
    → IsClean buf
    → byte_at buf i ≡ b'"'
    → (byte_at buf (i - 1) == b'\\') ≡ false
before_quote buf zero h e = rw e refl
before_quote buf (suc i) h e =
    let p : suc i - 1 ≡ i = omega arith in rw p (quote_behind false buf i h.0 e)

pub is_valid_escaped_quote-IsClean :
    (buf : Bytes) (i begin : ℕ)
    → IsClean buf
    → byte_at buf i ≡ b'"'
    → is_valid_escaped_quote buf i begin ≡ false
unfolding is_valid_escaped_quote
is_valid_escaped_quote-IsClean buf i begin h e =
    rw (is_valid_escaped_quote, before_quote buf i h e) (ground arith)
