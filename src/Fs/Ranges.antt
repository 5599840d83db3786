-- ===== src/Fs/Ranges.antt =====
-- fs/static_serve.cpp and fs/dir_reader.cpp: the part of a file that a request asks for.
use lambda.Base.{
  ℕ, ◌+◌, ◌-◌, ◌^◌, ◌<◌, ◌≤◌, true, [], ◌∷◌, ◌++◌, append_assoc, some, ◌≡◌, refl, sym, ap, arith,
  Bytes, codes, ltb, length, length-append, take, drop, length-take, length-drop, first_in_hit,
  substr_at, drop_past, Lacks, ok,
}
use lambda.Base.Decimal.{to_decimal}
use lambda.Base.Decimal.RoundTrip.{AreDigits, to_decimal-AreDigits, strtoul-to_decimal, digits_head}
use lambda.Http.Values.{Values, get}
use lambda.Fs.File.{DirectoryFile, content_part, size_of}
use lambda.Fs.Range.{range_around, get_range, prefix}

digits-Lacks : (xs : Bytes) → AreDigits xs → Lacks b'-' xs
digits-Lacks [] h = tt
digits-Lacks (x ∷ xs) h = (ground (arith, h.0), digits-Lacks xs h.1)

to_decimal_filled : (n : ℕ) → 0 < length (to_decimal n)
unfolding to_decimal
to_decimal_filled n = let (c, cs, e) = digits_head n n in omega (arith, ap length e)

abbrev pub range_text : ℕ → ℕ → Bytes
range_text b e = prefix ++ (to_decimal b ++ (b'-' ∷ to_decimal e))

range_around-range_text :
    (b e file_size : ℕ)
    → b < 2 ^ 64
    → e < 2 ^ 64
    → range_around (range_text b e) file_size (6 + length (to_decimal b))
      ≡ some (record { begin = b; end = e })
unfolding range_around
range_around-range_text b e file_size lt lt2 =
    let text = range_text b e in
    let n = length (to_decimal b) in
    let filled = to_decimal_filled b in
    let filled2 = to_decimal_filled e in
    let len = length-append (to_decimal b) (b'-' ∷ to_decimal e) in
    let left : 6 + n - 6 ≡ n = omega arith in
    let some_first : ltb 0 n ≡ true = ground (arith, filled) in
    let right : ltb 1 (length text - (6 + n)) ≡ true = ground (arith, len, filled2) in
    let first = substr_at text 6 n (to_decimal b) (b'-' ∷ to_decimal e) refl refl in
    let last : drop (6 + n + 1) text ≡ to_decimal e =
      drop_past text 6 (6 + n + 1) (to_decimal b ++ b'-' ∷ []) (to_decimal e)
        (sym (append_assoc (to_decimal b) (b'-' ∷ []) (to_decimal e)))
        (omega (arith, length-append (to_decimal b) (b'-' ∷ []))) in
    rw
      (
        range_around,
        left,
        some_first,
        right,
        first,
        last,
        (strtoul-to_decimal b lt).1,
        (strtoul-to_decimal e lt2).1,
      )
      refl

get_range-range_text :
    (headers : Values) (b e file_size : ℕ)
    → get headers (codes "range") ≡ range_text b e
    → b < 2 ^ 64
    → e < 2 ^ 64
    → get_range headers file_size ≡ some (record { begin = b; end = e })
unfolding get_range
get_range-range_text headers b e file_size h lt lt2 =
    let text = range_text b e in
    let len = length-append (to_decimal b) (b'-' ∷ to_decimal e) in
    let found =
      first_in_hit text b'-' 6 (length text) (to_decimal b) (to_decimal e) refl
        (digits-Lacks (to_decimal b) (to_decimal-AreDigits b)) (omega (arith, len)) in
    rw (get_range, h, found, h) (range_around-range_text b e file_size lt lt2)

content_part-slice :
    (f : DirectoryFile) (bytes : Bytes) (b e : ℕ)
    → f.stream ≡ some bytes
    → f.is_open ≡ true
    → b < e
    → e ≤ f.file_size
    → content_part f b e ≡ ok (take (e - b) (drop b bytes))
unfolding content_part
content_part-slice f bytes b e stream open_ lt le = ground (arith, stream, open_, lt, le)

-- The part of a file that is asked for by its first byte and the byte behind its last one, both of 64
-- bits, is that slice of the file, as long as the range says. The file is open, its stream has its
-- bytes, and the range is not empty and ends in the file.
pub get_range-content_part :
    (headers : Values) (f : DirectoryFile) (bytes : Bytes) (b e : ℕ)
    → get headers (codes "range") ≡ range_text b e
    → f.stream ≡ some bytes
    → f.is_open ≡ true
    → f.file_size ≡ length bytes
    → b < e
    → e ≤ length bytes
    → e < 2 ^ 64
    → (get_range headers (size_of f) ≡ some (record { begin = b; end = e }))
      × (content_part f b e ≡ ok (take (e - b) (drop b bytes)))
      × (length (take (e - b) (drop b bytes)) ≡ e - b)
get_range-content_part headers f bytes b e h stream open_ size lt le fits = (
  get_range-range_text headers b e (size_of f) h (omega (arith, lt, fits)) fits,
  content_part-slice f bytes b e stream open_ lt (omega (arith, le, size)),
  omega (arith, length-take (e - b) (drop b bytes), length-drop b bytes, lt, le),
)
