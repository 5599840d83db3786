-- ===== src/Json/Walk.antt =====
-- json/parse.cpp: the loop of get_object_entries over printed texts.
pub mod Values
pub mod Cuts
use mathlib.Core.Path.{subst}
use lambda.Base.{
  ℕ, zero, suc, ◌+◌, ◌-◌, ◌%◌, ◌^◌, ◌<◌, Bool, true, false, not, ◌&&◌, ◌||◌, [], ◌∷◌, ◌++◌,
  append_assoc, ◌≡◌, ◌∙◌, ◌⊎◌, inl, inr, refl, sym, ap, arith, Bytes, codes, ◌==◌, if◌then◌else◌,
  All, All-append, byte_at, byte_at-drop, drop_past, drop, length, length-append, Bool-cases,
}
use lambda.Base.Integers.{ℤ, pos, negsuc, integer_text}
use lambda.Base.Decimal.{to_decimal, is_digit}
use lambda.Base.Decimal.RoundTrip.{AreDigits, to_decimal-AreDigits}
use lambda.Json.Property.{Property, Array, Object}
use lambda.Json.Strings.{escape_text}
use lambda.Json.Stringify.{stringify, stringify_items, stringify_entries}
use lambda.Json.Entries.{Scopes, next_scopes, split_entries, outside, is_valid_escaped_quote}
use lambda.Json.Plain.{
  is_plain, IsPlainText, IsPlain, ArePlain, EntriesPlain, later_items, later_entries, entry_text,
  stringify_array_lem, stringify_object_lem,
}
use lambda.Json.Clean.{IsClean, is_valid_escaped_quote-IsClean, rune_text, rune_text-cases}

-- No rune of a string that the loop reacts to.
abbrev pub is_quiet : ℕ → Bool
is_quiet c = not (c == b'"' || (c == b'[' || (c == b']' || (c == b'{' || c == b'}'))))

abbrev pub IsQuiet : Bytes → Type 0
IsQuiet = All (λ c. is_quiet c ≡ true)

abbrev pub scopes : ℕ → ℕ → Bool → Scopes
scopes o a s = record { scope_obj = o; scope_arr = a; scope_str = s }

pub drop-length :
    (buf : Bytes) (i : ℕ) (xs rest : Bytes)
    → drop i buf ≡ xs ++ rest
    → drop (i + length xs) buf ≡ rest
drop-length buf i xs rest h = drop_past buf i (i + length xs) xs rest h refl

module _ (buf : Bytes) (begin : ℕ) where
  -- The loop passes the text and cuts nothing off.
  abbrev pub Walk : Bytes → Scopes → Scopes → Type 0
  Walk xs s next =
      (left idx entry_begin : ℕ) (rest : Bytes)
      → drop idx buf ≡ xs ++ rest
      → split_entries buf begin (length xs + left) idx entry_begin s
        ≡ split_entries buf begin left (idx + length xs) entry_begin next

  pub Walk-nil : (s : Scopes) → Walk [] s s
  Walk-nil s left idx entry_begin rest h =
      let a : 0 + left ≡ left = omega arith in let b : idx + 0 ≡ idx = omega arith in rw (a, b)

  pub Walk-append :
      (xs ys : Bytes) (s next last : Scopes)
      → Walk xs s next
      → Walk ys next last
      → Walk (xs ++ ys) s last
  Walk-append xs ys s next last one two left idx entry_begin rest h =
      let at : drop idx buf ≡ xs ++ (ys ++ rest) = h ∙ append_assoc xs ys rest in
      let e = length-append xs ys in
      let f : length xs + length ys + left ≡ length xs + (length ys + left) = omega arith in
      let g : idx + (length xs + length ys) ≡ idx + length xs + length ys = omega arith in
      rw (e, f, g)
        (one (length ys + left) idx entry_begin (ys ++ rest) at
          ∙ two left (idx + length xs) entry_begin rest (drop-length buf idx xs (ys ++ rest) at))

  -- One rune that is no comma to cut at.
  Walk-one :
      (c : ℕ) (s next : Scopes)
      → ((idx : ℕ) → byte_at buf idx ≡ c → next_scopes buf begin idx s ≡ next)
      → (outside next && c == b',') ≡ false
      → Walk (c ∷ []) s next
  unfolding split_entries
  Walk-one c s next step stay left idx entry_begin rest h =
      let at = byte_at-drop buf idx c rest h in
      let a : 1 + left ≡ suc left = omega arith in rw (a, split_entries, step idx at, at, stay) refl

  Walk-cons :
      (c : ℕ) (xs : Bytes) (s next last : Scopes)
      → Walk (c ∷ []) s next
      → Walk xs next last
      → Walk (c ∷ xs) s last
  Walk-cons c xs s next last one more = Walk-append (c ∷ []) xs s next last one more

  pub next_scopes-quiet :
      (s : Scopes) (idx c : ℕ)
      → byte_at buf idx ≡ c
      → is_quiet c ≡ true
      → next_scopes buf begin idx s ≡ s
  unfolding next_scopes
  next_scopes-quiet s idx c at h =
      let f : (b : ℕ) → is_quiet b ≡ false → (c == b) ≡ false = λ b k. elim (Bool-cases (c == b)) [
        | inl e ↦ absurd (ground (arith, e, h, k))
        | inr e ↦ e
      ] in
      rw (next_scopes, at, f b'{' refl, f b'}' refl, f b'[' refl, f b']' refl, f b'"' refl) refl

  -- The inside of a string.
  pub Walk-quiet :
      (xs : Bytes) (s : Scopes)
      → IsQuiet xs
      → (outside s ≡ false) ⊎ All (λ c. (c == b',') ≡ false) xs
      → Walk xs s s
  Walk-quiet [] s h k = Walk-nil s
  Walk-quiet (x ∷ xs) s h (inl k) =
      Walk-cons x xs s s s (Walk-one x s s (λ idx at. next_scopes-quiet s idx x at h.0) (rw k refl))
        (Walk-quiet xs s h.1 (inl k))
  Walk-quiet (x ∷ xs) s h (inr k) =
      Walk-cons x xs s s s
        (Walk-one x s s (λ idx at. next_scopes-quiet s idx x at h.0) (ground (arith, k.0)))
        (Walk-quiet xs s h.1 (inr k.1))

  Walk-quote :
      IsClean buf → (o a : ℕ) (s : Bool) → Walk (b'"' ∷ []) (scopes o a s) (scopes o a (not s))
  unfolding next_scopes
  Walk-quote clean o a s =
      Walk-one b'"' (scopes o a s) (scopes o a (not s))
        (λ idx at. rw (next_scopes, at, is_valid_escaped_quote-IsClean buf idx begin clean at) refl)
        (ground arith)

  pub Walk-string :
      IsClean buf
      → (xs : Bytes) (o a : ℕ) → IsQuiet xs
      → Walk (b'"' ∷ xs ++ b'"' ∷ []) (scopes o a false) (scopes o a false)
  Walk-string clean xs o a h =
      Walk-cons b'"' (xs ++ b'"' ∷ []) (scopes o a false) (scopes o a true) (scopes o a false)
        (Walk-quote clean o a false)
        (Walk-append xs (b'"' ∷ []) (scopes o a true) (scopes o a true) (scopes o a false)
          (Walk-quiet xs (scopes o a true) h (inl (ground arith))) (Walk-quote clean o a true))

  pub Walk-array :
      (body : Bytes) (o a : ℕ)
      → a + 1 < 2 ^ 64
      → Walk body (scopes o (a + 1) false) (scopes o (a + 1) false)
      → Walk (b'[' ∷ body ++ b']' ∷ []) (scopes o a false) (scopes o a false)
  unfolding next_scopes
  Walk-array body o a lt inner =
      let up : (a + 1) % 2 ^ 64 ≡ a + 1 = omega (arith, lt) in
      let down : (a + 1 + (2 ^ 64 - 1)) % 2 ^ 64 ≡ a = omega (arith, lt) in
      let s = scopes o a false in
      let in_ = scopes o (a + 1) false in
      Walk-cons b'[' (body ++ b']' ∷ []) s in_ s
        (Walk-one b'[' s in_ (λ idx at. rw (next_scopes, at, up) refl) (ground arith))
        (Walk-append body (b']' ∷ []) in_ in_ s inner
          (Walk-one b']' in_ s (λ idx at. rw (next_scopes, at, down) refl) (ground arith)))

  pub Walk-object :
      (body : Bytes) (o a : ℕ)
      → o + 1 < 2 ^ 64
      → Walk body (scopes (o + 1) a false) (scopes (o + 1) a false)
      → Walk (b'{' ∷ body ++ b'}' ∷ []) (scopes o a false) (scopes o a false)
  unfolding next_scopes
  Walk-object body o a lt inner =
      let up : (o + 1) % 2 ^ 64 ≡ o + 1 = omega (arith, lt) in
      let down : (o + 1 + (2 ^ 64 - 1)) % 2 ^ 64 ≡ o = omega (arith, lt) in
      let s = scopes o a false in
      let in_ = scopes (o + 1) a false in
      Walk-cons b'{' (body ++ b'}' ∷ []) s in_ s
        (Walk-one b'{' s in_ (λ idx at. rw (next_scopes, at, up) refl) (ground arith))
        (Walk-append body (b'}' ∷ []) in_ in_ s inner
          (Walk-one b'}' in_ s (λ idx at. rw (next_scopes, at, down) refl) (ground arith)))

  pub Walk-comma :
      (xs : Bytes) (s : Scopes) → outside s ≡ false → Walk xs s s → Walk (b',' ∷ xs) s s
  Walk-comma xs s h inner =
      Walk-cons b',' xs s s s
        (Walk-one b',' s s (λ idx at. next_scopes-quiet s idx b',' at refl) (rw h refl)) inner

pub plain-IsQuiet : (xs : Bytes) → IsPlainText xs → IsQuiet xs
plain-IsQuiet [] h = tt
plain-IsQuiet (x ∷ xs) h = (ground (arith, h.0), plain-IsQuiet xs h.1)

rune_text-IsQuiet : (x : ℕ) → is_plain x ≡ true → IsQuiet (rune_text x)
rune_text-IsQuiet x h = elim (rune_text-cases x h) [
  | inl (_, e) ↦ rw e (refl, (refl, (refl, tt)))
  | inr (inl (_, e)) ↦ rw e (refl, (refl, (refl, tt)))
  | inr (inr e) ↦ rw e (ground (arith, h), tt)
]

pub escape_text-IsQuiet : (xs : Bytes) → IsPlainText xs → IsQuiet (escape_text xs)
unfolding escape_text
escape_text-IsQuiet [] h = tt
escape_text-IsQuiet (x ∷ xs) h =
    All-append (λ c. is_quiet c ≡ true) (rune_text x) (escape_text xs) (rune_text-IsQuiet x h.0)
      (escape_text-IsQuiet xs h.1)

pub digits-IsQuiet : (xs : Bytes) → AreDigits xs → IsQuiet xs × All (λ c. (c == b',') ≡ false) xs
digits-IsQuiet [] h = (tt, tt)
digits-IsQuiet (x ∷ xs) h =
    let (q, n) = digits-IsQuiet xs h.1 in ((ground (arith, h.0), q), (ground (arith, h.0), n))
