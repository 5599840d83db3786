-- ===== src/Json/Fuel.antt =====
-- json/parse.cpp: the recursion of parse_range goes to shorter ranges, so that the fuel of the
-- model makes no difference.
use lambda.Base.{
  ℕ, zero, suc, ◌+◌, ◌-◌, ◌<◌, ◌≤◌, List, [], ◌∷◌, Option, none, some, ◌≡◌, refl, inl, inr, arith,
  Bytes, ltb, ◌==◌, if◌then◌else◌, Bool-cases, Option-cases, byte_at, All, Result, >>=-same, ◌&&◌,
  not, is_empty, substr,
}
use lambda.Json.Property.{Property, Object}
use lambda.Json.Entries.{
  Scopes, next_scopes, split_entries, get_object_entries, find_member, outside, no_scopes, is_none,
  or_else,
}
use lambda.Json.Parse.{
  first_rune, last_rune, collect, parse_array, unwrap, unwrap_all, parse_object, parse_trimmed,
  parse_range,
}

-- Ranges between two bounds.
abbrev pub Within : ℕ → ℕ → List (ℕ × ℕ) → Type 0
Within lo hi = All (λ r. (lo ≤ r.0) × (r.1 ≤ hi))

split_entries-Within :
    (buf : Bytes) (begin left idx entry_begin lo : ℕ) (s : Scopes)
    → lo ≤ entry_begin
    → lo ≤ idx
    → Within lo (idx + left) (split_entries buf begin left idx entry_begin s)
unfolding split_entries
split_entries-Within buf begin zero idx entry_begin lo s h k = ((h, omega arith), tt)
split_entries-Within buf begin (suc left) idx entry_begin lo s h k =
    let e : idx + suc left ≡ idx + 1 + left = omega arith in
    elim (Bool-cases (outside (next_scopes buf begin idx s) && byte_at buf idx == b',')) [
      | inl c ↦
          rw (e, c)
            (
              (h, omega arith),
              split_entries-Within buf begin left (idx + 1) (idx + 1) lo
                  (next_scopes buf begin idx s) (omega arith) (omega arith),
            )
      | inr c ↦
          rw (e, c)
            (split_entries-Within buf begin left (idx + 1) entry_begin lo
              (next_scopes buf begin idx s) h (omega arith))
    ]

pub get_object_entries-Within :
    (buf : Bytes) (begin end : ℕ)
    → Within begin (begin + (end - begin)) (get_object_entries buf begin end)
unfolding get_object_entries
get_object_entries-Within buf begin end =
    split_entries-Within buf begin (end - begin) begin begin begin no_scopes (omega arith)
      (omega arith)

-- The value of an entry begins behind the index at which its key was looked for.
pub find_member_behind :
    (buf : Bytes) (begin left idx : ℕ) (start : Option ℕ) (key k : Bytes) (v : ℕ)
    → find_member buf begin left idx start key ≡ some (k, v)
    → idx < v
unfolding find_member
find_member_behind buf begin zero idx start key k v h = absurd (cc)
find_member_behind buf begin (suc left) idx key_begin key k v h =
    let rune = byte_at buf idx in
    let escaped = ltb begin idx && byte_at buf (idx - 1) == b'\\' in
    let quote = is_empty key && (rune == b'"' && not escaped) in
    let start = or_else key_begin (idx + 1) in
    let found = substr buf start (idx - start) in
    ground (
      arith,
      h,
      find_member_behind buf begin left (idx + 1) (if quote then some start else key_begin)
          (if quote && not (is_none key_begin) then found else key) k v,
    )

pub first_rune-ge :
    (buf : Bytes) (begin left idx : ℕ) → begin ≤ idx → begin ≤ first_rune buf begin left idx
unfolding first_rune
first_rune-ge buf begin zero idx h = omega arith
first_rune-ge buf begin (suc left) idx h =
    ground (arith, h, first_rune-ge buf begin left (idx + 1) (omega arith))

pub last_rune-le :
    (buf : Bytes) (begin end left : ℕ) → left ≤ end - begin → last_rune buf begin end left ≤ end
unfolding last_rune
last_rune-le buf begin end zero h = omega arith
last_rune-le buf begin end (suc left) h =
    ground (arith, h, last_rune-le buf begin end left (omega arith))

-- Two ways to parse a range that agree on all ranges shorter than n.
module _ {F : Type 0} (one two : ℕ → ℕ → Result (Property F)) (n : ℕ)
    (same : (b e : ℕ) → e - b < n → one b e ≡ two b e) where
  collect-same :
      (lo hi : ℕ) (entries : List (ℕ × ℕ))
      → hi - lo < n
      → Within lo hi entries
      → collect one entries ≡ collect two entries
  unfolding collect
  collect-same lo hi [] lt h = refl
  collect-same lo hi ((b, e) ∷ entries) lt h =
      let (ge, le) = h.0 in rw (same b e (omega arith), collect-same lo hi entries lt h.1)

  unwrap-same :
      (buf : Bytes) (entries : Object F) (b e : ℕ)
      → e - b < n
      → unwrap one buf entries b e ≡ unwrap two buf entries b e
  unfolding unwrap
  unwrap-same buf entries b e lt = elim (Option-cases (find_member buf b (e - b) b none [])) [
    | inl h ↦ rw (unwrap, h) refl
    | inr ((key, value_begin), h) ↦
        let behind = find_member_behind buf b (e - b) b none [] key value_begin h in
        rw (unwrap, h, same value_begin e (omega arith))
  ]

  unwrap_all-same :
      (buf : Bytes) (lo hi : ℕ) (entries : Object F) (ranges : List (ℕ × ℕ))
      → hi - lo < n
      → Within lo hi ranges
      → unwrap_all one buf entries ranges ≡ unwrap_all two buf entries ranges
  unfolding unwrap_all
  unwrap_all-same buf lo hi entries [] lt h = refl
  unwrap_all-same buf lo hi entries ((b, e) ∷ more) lt h =
      let (ge, le) = h.0 in
      rw (unwrap-same buf entries b e (omega arith))
        (>>=-same (unwrap two buf entries b e) (λ next. unwrap_all-same buf lo hi next more lt h.1))

  parse_trimmed-same :
      (stold : Bytes → Result F) (buf : Bytes) (begin end : ℕ)
      → begin < end
      → end - begin ≤ n
      → parse_trimmed stold one buf begin end ≡ parse_trimmed stold two buf begin end
  unfolding parse_trimmed parse_array parse_object
  parse_trimmed-same stold buf begin end lt le =
      let lo = begin + 1 in
      let hi = begin + 1 + (end - 1 - (begin + 1)) in
      let ranges = get_object_entries buf (begin + 1) (end - 1) in
      let within = get_object_entries-Within buf (begin + 1) (end - 1) in
      rw (
        collect-same lo hi ranges (omega arith) within,
        unwrap_all-same buf lo hi Object.leaf ranges (omega arith) within,
      )

-- Any fuel above the length of the range gives the same result.
pub parse_range-fuel :
    {F : Type 0} (stold : Bytes → Result F) (buf : Bytes) (f g begin end : ℕ)
    → end - begin < f
    → end - begin < g
    → parse_range stold f buf begin end ≡ parse_range stold g buf begin end
unfolding parse_range
parse_range-fuel stold buf zero g begin end lt lt2 = absurd (omega arith)
parse_range-fuel stold buf (suc f) zero begin end lt lt2 = absurd (omega arith)
parse_range-fuel stold buf (suc f) (suc g) begin end lt lt2 =
    let b = first_rune buf begin (end - begin) begin in
    let e = last_rune buf b end (end - b) in
    let ge = first_rune-ge buf begin (end - begin) begin (omega arith) in
    let le = last_rune-le buf b end (end - b) (omega arith) in
    elim (Bool-cases (e - b == 0)) [
      | inl h ↦ rw h refl
      | inr h ↦
          let shorter = λ (x y : ℕ) (h : y - x < e - b).
            parse_range-fuel stold buf f g x y (omega (arith, le, ge)) (omega (arith, le, ge)) in
          rw h (
            parse_trimmed-same (parse_range stold f buf) (parse_range stold g buf) (e - b) shorter
              stold buf b e (ground (arith, h)) (omega arith))
    ]
