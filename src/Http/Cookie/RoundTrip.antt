-- ===== src/Http/Cookie/RoundTrip.antt =====
-- The header `Cookie` as RFC 6265 writes it, read by `parse_cookie`.
use lambda.Base.{
  ℕ, suc, ◌+◌, ◌-◌, ◌<◌, ◌≤◌, true, false, List, [], ◌∷◌, ◌++◌, append_assoc, append-nil, some, ◌≡◌,
  ◌∙◌, refl, sym, ap, arith, Bytes, All, All-append, Lacks, ◌==◌, ltb, length, length-append,
  byte_at-drop, drop, drop-suc, length_at, is_at, substr, substr_at, drop_past, first_in,
  first_in_hit,
}
use lambda.Dict.{find}
use lambda.Http.Trim.{reset_case}
use lambda.Http.Values.{Values, append, get_all}
use lambda.Http.Values.Entries.{appended, values_under, IsNormal, get_all-appended}
use lambda.Http.Cookie.{parse_pair, parse_cookie_pairs, parse_cookie}

abbrev pub cookie_pair : Bytes × Bytes → Bytes
cookie_pair (name, value) = name ++ b'=' ∷ value

abbrev tail_text : List (Bytes × Bytes) → Bytes
tail_text [] = []
tail_text (e ∷ es) = b';' ∷ b' ' ∷ (cookie_pair e ++ tail_text es)

-- The pairs with a semicolon and a space between them.
abbrev pub cookie_header : List (Bytes × Bytes) → Bytes
cookie_header [] = []
cookie_header (e ∷ es) = cookie_pair e ++ tail_text es

abbrev pub IsCookie : Bytes × Bytes → Type 0
IsCookie e = Lacks b'=' e.0 × Lacks b';' e.0 × Lacks b';' e.1 × (0 < length e.1)

get_all_nil : (name : Bytes) → get_all [] name ≡ []
unfolding get_all find
get_all_nil name = ground arith

module _ (header : Bytes) where
  parse_pair_written :
      (name value rest : Bytes) (begin end : ℕ) (m : Values)
      → IsCookie (name, value)
      → drop begin header ≡ cookie_pair (name, value) ++ rest
      → end ≡ begin + length (cookie_pair (name, value))
      → parse_pair header begin end m ≡ append m name value
  unfolding parse_pair
  parse_pair_written name value rest begin end m h at e =
      let whole : drop begin header ≡ name ++ b'=' ∷ (value ++ rest) =
        at ∙ append_assoc name (b'=' ∷ value) rest in
      let size : end ≡ begin + length name + 1 + length value =
        omega (arith, e, length-append name (b'=' ∷ value)) in
      let split : first_in (is_at header b'=') begin end ≡ some (begin + length name) =
        first_in_hit header b'=' begin end name (value ++ rest) whole h.0 (omega (arith, size)) in
      let named : substr header begin (begin + length name - begin) ≡ name =
        substr_at header begin (begin + length name - begin) name (b'=' ∷ (value ++ rest)) whole
          (omega arith) in
      let behind : drop (begin + length name + 1) header ≡ value ++ rest =
        drop-suc header (begin + length name) b'=' (value ++ rest)
          (drop_past header begin (begin + length name) name (b'=' ∷ (value ++ rest)) whole refl) in
      let valued : substr header (begin + length name + 1) (end - (begin + length name + 1))
          ≡ value =
        substr_at header (begin + length name + 1) (end - (begin + length name + 1)) value rest
          behind (omega (arith, size)) in
      let not_empty : ltb (end - (begin + length name + 1)) 1 ≡ false = ground (arith, size, h.3) in
      rw (split, parse_pair) (rw (not_empty, named, valued) refl)

  -- The index is one ahead of the text that the loop looks back at.
  parse_cookie_pairs_to :
      (xs : Bytes) (j start : ℕ) (rest : Bytes) (m : Values)
      → 0 < length rest
      → drop j header ≡ xs ++ b';' ∷ b' ' ∷ rest
      → Lacks b';' xs
      → parse_cookie_pairs header (suc (length xs + length rest)) (j + 1) start m
        ≡ parse_cookie_pairs header
            (length rest)
            (j + length xs + 1 + 1)
            (j + length xs + 1 + 1)
            (parse_pair header start (j + length xs) m)
  unfolding parse_cookie_pairs
  parse_cookie_pairs_to [] j start rest m long at h =
      let space = drop-suc header j b';' (b' ' ∷ rest) at in
      let size = length_at header j b';' (b' ' ∷ rest) at in
      let inner : (j + 1 == length header - 1) ≡ false = ground (arith, size) in
      let back : j + 1 - 1 ≡ j = omega arith in
      let none_left : 0 + length rest ≡ length rest = omega arith in
      let here : j + 0 ≡ j = omega arith in
      rw
        (
          inner,
          back,
          byte_at-drop header j b';' (b' ' ∷ rest) at,
          byte_at-drop header (j + 1) b' ' rest space,
          none_left,
          here,
        )
        refl
  parse_cookie_pairs_to (x ∷ xs) j start rest m long at h =
      let more = xs ++ b';' ∷ b' ' ∷ rest in
      let size = length_at header j x more at in
      let inner : (j + 1 == length header - 1) ≡ false =
        ground (arith, size, length-append xs (b';' ∷ b' ' ∷ rest)) in
      let back : j + 1 - 1 ≡ j = omega arith in
      let left : suc (length xs) + length rest ≡ suc (length xs + length rest) = omega arith in
      let end : j + 1 + length xs ≡ j + suc (length xs) = omega arith in
      rw (inner, back, byte_at-drop header j x more at, h.0, left)
        (parse_cookie_pairs_to xs (j + 1) start rest m long (drop-suc header j x more at) h.1
          ∙ rw end refl)

  parse_cookie_pairs_last :
      (x y : ℕ) (xs : Bytes) (j start : ℕ) (m : Values)
      → drop j header ≡ x ∷ y ∷ xs
      → Lacks b';' (x ∷ y ∷ xs)
      → parse_cookie_pairs header (suc (length xs)) (j + 1) start m
        ≡ parse_pair header start (length header) m
  unfolding parse_cookie_pairs
  parse_cookie_pairs_last x y [] j start m at h =
      let size = length_at header j x (y ∷ []) at in
      let last : (j + 1 == length header - 1) ≡ true = ground (arith, size) in rw last refl
  parse_cookie_pairs_last x y (z ∷ xs) j start m at h =
      let size = length_at header j x (y ∷ z ∷ xs) at in
      let inner : (j + 1 == length header - 1) ≡ false = ground (arith, size) in
      let back : j + 1 - 1 ≡ j = omega arith in
      rw (inner, back, byte_at-drop header j x (y ∷ z ∷ xs) at, h.0)
        (parse_cookie_pairs_last y z xs (j + 1) start m (drop-suc header j x (y ∷ z ∷ xs) at) h.1)

  last_pair :
      (xs : Bytes) (j start : ℕ) (m : Values)
      → 2 ≤ length xs
      → drop j header ≡ xs
      → Lacks b';' xs
      → parse_cookie_pairs header (length xs - 1) (j + 1) start m
        ≡ parse_pair header start (length header) m
  last_pair [] j start m long at h = absurd (omega arith)
  last_pair (x ∷ []) j start m long at h = absurd (omega arith)
  last_pair (x ∷ y ∷ xs) j start m long at h =
      let left : suc (suc (length xs)) - 1 ≡ suc (length xs) = omega arith in
      rw left (parse_cookie_pairs_last x y xs j start m at h)

cookie_pair-Lacks : (e : Bytes × Bytes) → IsCookie e → Lacks b';' (cookie_pair e)
cookie_pair-Lacks (name, value) h =
    All-append (λ c. (c == b';') ≡ false) name (b'=' ∷ value) h.1 (refl, h.2)

cookie_pair-long : (e : Bytes × Bytes) → IsCookie e → 2 ≤ length (cookie_pair e)
cookie_pair-long (name, value) h = omega (arith, h.3, length-append name (b'=' ∷ value))

module _ (header : Bytes) where
  -- A pair, with what stands between it and the pair before it.
  pairs_appended :
      (e : Bytes × Bytes) (es : List (Bytes × Bytes)) (lead : Bytes) (j left : ℕ) (m : Values)
      → IsCookie e
      → All IsCookie es
      → Lacks b';' lead
      → drop j header ≡ lead ++ (cookie_pair e ++ tail_text es)
      → left ≡ length (lead ++ (cookie_pair e ++ tail_text es)) - 1
      → length header ≡ j + length (lead ++ (cookie_pair e ++ tail_text es))
      → parse_cookie_pairs header left (j + 1) (j + length lead) m ≡ appended m (e ∷ es)
  pairs_appended e [] lead j left m h hs l at count size =
      let own = cookie_pair e in
      let text = lead ++ own in
      let bare : lead ++ (own ++ []) ≡ text = ap (λ t. lead ++ t) (append-nil own) in
      let long = cookie_pair-long e h in
      let left_lem : left ≡ length text - 1 = count ∙ ap (λ t. length t - 1) bare in
      let here = drop_past header j (j + length lead) lead (own ++ []) at refl in
      rw left_lem (
        last_pair header text j (j + length lead) m (omega (arith, length-append lead own, long))
          (at ∙ bare) (All-append (λ c. (c == b';') ≡ false) lead own l (cookie_pair-Lacks e h))
        ∙ parse_pair_written header e.0 e.1 [] (j + length lead) (length header) m h here
            (omega (arith, size, ap length bare, length-append lead own)))
  pairs_appended e (f ∷ es) lead j left m h hs l at count size =
      let own = cookie_pair e in
      let text = lead ++ own in
      let rest = cookie_pair f ++ tail_text es in
      let behind = b';' ∷ b' ' ∷ rest in
      let assoc : lead ++ (own ++ behind) ≡ text ++ behind = sym (append_assoc lead own behind) in
      let long : 0 < length rest =
        omega (arith, length-append (cookie_pair f) (tail_text es), cookie_pair-long f hs.0) in
      let left_lem : left ≡ suc (length text + length rest) =
        omega (arith, count, ap length assoc, length-append text behind) in
      let here = drop_past header j (j + length lead) lead (own ++ behind) at refl in
      let after : drop (j + length text + 1) header ≡ b' ' ∷ rest =
        drop-suc header (j + length text) b';' (b' ' ∷ rest)
          (drop_past header j (j + length text) text behind (at ∙ assoc) refl) in
      let one : parse_pair header (j + length lead) (j + length text) m ≡ append m e.0 e.1 =
        parse_pair_written header e.0 e.1 behind (j + length lead) (j + length text) m h here
          (omega (arith, length-append lead own)) in
      rw left_lem (
        parse_cookie_pairs_to header text j (j + length lead) rest m long (at ∙ assoc)
          (All-append (λ c. (c == b';') ≡ false) lead own l (cookie_pair-Lacks e h))
        ∙ rw one (
            pairs_appended f es (b' ' ∷ []) (j + length text + 1) (length rest) (append m e.0 e.1)
              hs.0 hs.1 (refl, tt) after (omega arith)
              (omega (arith, size, ap length assoc, length-append text behind))))

-- The pairs are appended one by one.
parse_cookie-cookie_header :
    (es : List (Bytes × Bytes)) → All IsCookie es → parse_cookie (cookie_header es) ≡ appended [] es
unfolding parse_cookie
parse_cookie-cookie_header [] h = unfold parse_cookie_pairs in refl
parse_cookie-cookie_header (e ∷ es) h =
    pairs_appended (cookie_header (e ∷ es)) e es [] 0 (length (cookie_header (e ∷ es)) - 1) [] h.0
      h.1 tt refl refl (omega arith)

-- What a client sends is read back: under every name stand the values that were sent under what this
-- name normalises to, all of them in their order and no others. The names that are sent hold no equals
-- sign and no semicolon, are not empty and are what they normalise to; that excludes upper case,
-- blanks around them and a single character. The values are not empty and hold no semicolon.
pub get_all-parse_cookie :
    (es : List (Bytes × Bytes)) (name : Bytes)
    → All IsCookie es
    → All IsNormal es
    → get_all (parse_cookie (cookie_header es)) name ≡ values_under (reset_case name) es
get_all-parse_cookie es name h normal =
    ap (λ m. get_all m name) (parse_cookie-cookie_header es h)
    ∙ get_all-appended [] es name (record { sorted = tt; entry = tt }) normal
    ∙ rw (get_all_nil name) refl
