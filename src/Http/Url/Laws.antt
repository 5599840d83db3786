-- ===== src/Http/Url/Laws.antt =====
-- The parts of a parsed URL.
use lambda.Base.{
  ℕ, zero, suc, ◌+◌, ◌<◌, [], ◌∷◌, ◌++◌, none, some, ◌≡◌, refl, ap, arith, Bytes, codes, length,
  length-append, drop, take-append, drop-suc, scan, starts_with, Lacks, Option, Result, ok,
}
use lambda.Http.Trim.{reset_case}
use lambda.Http.Values.{Values}
use lambda.Http.Search.{parse_params}
use lambda.Http.Url.{scheme_part}

scan_separator :
    (s url : Bytes) (i left : ℕ) (rest : Bytes)
    → drop i url ≡ s ++ b':' ∷ b'/' ∷ b'/' ∷ rest
    → Lacks b':' s
    → length s < left
    → scan (λ j. starts_with (codes "://") (drop j url)) i left ≡ some (i + length s)
unfolding scan
scan_separator s url i zero rest at skip lt = absurd (omega arith)
scan_separator [] url i (suc left) rest at skip lt = rw at (ap some (omega arith))
scan_separator (x ∷ s) url i (suc left) rest at skip lt =
    let more = s ++ b':' ∷ b'/' ∷ b'/' ∷ rest in
    let later =
      scan_separator s url (i + 1) left rest (drop-suc url i x more at) skip.1 (omega arith) in
    let e : i + 1 + length s ≡ i + length (x ∷ s) = omega arith in
    rw at (rw (later, e) (ground (arith, skip.0)))

pub scheme_part_lem :
    (s tail : Bytes)
    → Lacks b':' s
    → scheme_part (s ++ b':' ∷ b'/' ∷ b'/' ∷ tail) ≡ (reset_case s, length s + 3)
unfolding scheme_part
scheme_part_lem s tail colon =
    let url = s ++ b':' ∷ b'/' ∷ b'/' ∷ tail in
    let found =
      scan_separator s url 0 (length url) tail refl colon
        (omega (arith, length-append s (b':' ∷ b'/' ∷ b'/' ∷ tail))) in
    let e : 0 + length s ≡ length s = omega arith in
    rw (found, scheme_part, e, take-append s (b':' ∷ b'/' ∷ b'/' ∷ tail))

-- A query and a fragment as a URL has them, each with its mark in front if it is there.
abbrev pub query_text : Option Bytes → Bytes
query_text none = []
query_text (some q) = b'?' ∷ q

abbrev pub fragment_text : Option Bytes → Bytes
fragment_text none = []
fragment_text (some f) = b'#' ∷ f

abbrev pub query_of : Option Bytes → Result Values
query_of none = ok []
query_of (some q) = parse_params q

-- That no byte of a part is the given one.
abbrev pub LacksIn : ℕ → Option Bytes → Type 0
LacksIn c none = Unit
LacksIn c (some q) = Lacks c q

-- The parts behind the scheme, told by the text that stands there.
module _ (url h p : Bytes) (q f : Option Bytes) (i : ℕ)
    (at : drop i url ≡ h ++ b'/' ∷ (p ++ (query_text q ++ fragment_text f))) where
  abbrev path_at : ℕ
  path_at = i + length h

  abbrev behind_path : Bytes
  behind_path = query_text q ++ fragment_text f
