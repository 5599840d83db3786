-- ===== src/Base/Scan.antt =====
-- The index loops of the source over a string: the first index of a range that passes a test.
use Prim.Native.Nat.{ℕ, zero, suc, ◌+◌, ◌-◌, ◌<◌, ◌≤◌}
use mathlib.Core.Path.{◌≡◌, refl, sym, ap, ◌∙◌}
use mathlib.Core.Bool.{Bool, true, false}
use mathlib.Core.List.{[], ◌∷◌, ◌++◌}
use mathlib.Core.Option.{Option, none, some}
use native.Mathlib.Omega.{arith}
use mathlib.Core.Logic.{inl, inr}
use lambda.Base.Tests.{Bytes, if◌then◌else◌, ◌==◌, Bool-cases}
use lambda.Base.Lists.{
  length, get_or, take, drop, All, take-append, drop-append, drop-drop, length-drop,
}

-- `data[idx]` where the index is in range.
abbrev pub byte_at : Bytes → ℕ → ℕ
byte_at buf i = get_or buf i 0

-- `for (idx = i; idx < i + left; idx++) if (test(idx)) return idx;`
unfoldable pub scan : (ℕ → Bool) → ℕ → ℕ → Option ℕ
scan test i zero = none
scan test i (suc left) = if test i then some i else scan test (i + 1) left

-- The same loop between two bounds; none is the `npos` that the source starts from.
abbrev pub first_in : (ℕ → Bool) → ℕ → ℕ → Option ℕ
first_in test begin end = scan test begin (end - begin)

-- `std::string(data.begin() + b, data.begin() + e)`
abbrev pub slice : Bytes → ℕ → ℕ → Bytes
slice buf b e = take (e - b) (drop b buf)

-- `substr(pos, count)` with pos in range.
abbrev pub substr : Bytes → ℕ → ℕ → Bytes
substr buf pos count = take count (drop pos buf)

-- `for (left rounds from i) if (data[i] == c)` as a test for `scan`.
abbrev pub is_at : Bytes → ℕ → ℕ → Bool
is_at buf c i = byte_at buf i == c

abbrev pub starts_with : Bytes → Bytes → Bool
starts_with [] buf = true
starts_with (x ∷ xs) [] = false
starts_with (x ∷ xs) (y ∷ buf) = if x == y then starts_with xs buf else false

-- `std::string::find`: the first place at which the text stands.
abbrev pub find_text : Bytes → Bytes → Option ℕ
find_text text buf = scan (λ i. starts_with text (drop i buf)) 0 (length buf)

pub byte_at-drop :
    (buf : Bytes) (i c : ℕ) (rest : Bytes) → drop i buf ≡ c ∷ rest → byte_at buf i ≡ c
byte_at-drop [] zero c rest h = cc
byte_at-drop [] (suc i) c rest h = cc
byte_at-drop (x ∷ buf) zero c rest h = cc
byte_at-drop (x ∷ buf) (suc i) c rest h = byte_at-drop buf i c rest h

pub drop-suc :
    (buf : Bytes) (i c : ℕ) (rest : Bytes) → drop i buf ≡ c ∷ rest → drop (i + 1) buf ≡ rest
drop-suc [] zero c rest h = cc
drop-suc [] (suc i) c rest h = cc
drop-suc (x ∷ buf) zero c rest h = cc
drop-suc (x ∷ buf) (suc i) c rest h =
    let e : suc i + 1 ≡ suc (i + 1) = omega arith in rw e (drop-suc buf i c rest h)

-- The loops over a buffer, told by the text that lies ahead of the index.
module _ (test : ℕ → Bool) (buf : Bytes) where
  pub scan_hit :
      (xs : Bytes) (i c : ℕ) (rest : Bytes) (left : ℕ)
      → drop i buf ≡ xs ++ c ∷ rest
      → All (λ x. test x ≡ false) xs
      → test c ≡ true
      → length xs < left
      → scan (λ j. test (byte_at buf j)) i left ≡ some (i + length xs)
  unfolding scan
  scan_hit xs i c rest zero at skip hit lt = absurd (omega arith)
  scan_hit [] i c rest (suc left) at skip hit lt =
      rw (byte_at-drop buf i c rest at, hit) (ap some (omega arith))
  scan_hit (x ∷ xs) i c rest (suc left) at skip hit lt =
      rw (byte_at-drop buf i x (xs ++ c ∷ rest) at, skip.0)
        (scan_hit xs (i + 1) c rest left (drop-suc buf i x (xs ++ c ∷ rest) at) skip.1 hit
            (omega arith)
          ∙ ap some (omega arith))

  pub scan_miss :
      (xs : Bytes) (i : ℕ) (rest : Bytes)
      → drop i buf ≡ xs ++ rest
      → All (λ x. test x ≡ false) xs
      → scan (λ j. test (byte_at buf j)) i (length xs) ≡ none
  unfolding scan
  scan_miss [] i rest at skip = refl
  scan_miss (x ∷ xs) i rest at skip =
      rw (byte_at-drop buf i x (xs ++ rest) at, skip.0)
        (scan_miss xs (i + 1) rest (drop-suc buf i x (xs ++ rest) at) skip.1)

-- A stronger test that holds where the weaker one is first passed is first passed there, too.
module _ (weak strong : ℕ → Bool) (weaker : (j : ℕ) → weak j ≡ false → strong j ≡ false) where
  pub scan_stronger :
      (i left x : ℕ) → scan weak i left ≡ some x → strong x ≡ true → scan strong i left ≡ some x
  unfolding scan
  scan_stronger i zero x h k = absurd (cc)
  scan_stronger i (suc left) x h k = elim (Bool-cases (weak i)) [
    | inl e ↦ let here : i ≡ x = ground (arith, e, h) in rw (here, k)
    | inr e ↦ rw (weaker i e) (scan_stronger (i + 1) left x (ground (arith, e, h)) k)
  ]

  pub scan_stronger_none : (i left : ℕ) → scan weak i left ≡ none → scan strong i left ≡ none
  unfolding scan
  scan_stronger_none i zero h = refl
  scan_stronger_none i (suc left) h = elim (Bool-cases (weak i)) [
    | inl e ↦ absurd (ground (arith, e, h))
    | inr e ↦ rw (weaker i e) (scan_stronger_none (i + 1) left (ground (arith, e, h)))
  ]

-- Tests that agree on the range find the same index.
pub scan_agree :
    (t u : ℕ → Bool) (i left : ℕ)
    → ((j : ℕ) → i ≤ j → j < i + left → t j ≡ u j)
    → scan t i left ≡ scan u i left
unfolding scan
scan_agree t u i zero same = refl
scan_agree t u i (suc left) same = rw (
  same i (omega arith) (omega arith),
  scan_agree t u (i + 1) left (λ j ge lt. same j (omega arith) (omega arith)),
)

pub scan_skip :
    (t : ℕ → Bool) (i skipped left : ℕ)
    → ((j : ℕ) → i ≤ j → j < i + skipped → t j ≡ false)
    → scan t i (skipped + left) ≡ scan t (i + skipped) left
unfolding scan
scan_skip t i zero left none_ =
    let a : 0 + left ≡ left = omega arith in let b : i + 0 ≡ i = omega arith in rw (a, b)
scan_skip t i (suc skipped) left none_ =
    let e : suc skipped + left ≡ suc (skipped + left) = omega arith in
    rw (e, none_ i (omega arith) (omega arith))
      (scan_skip t (i + 1) skipped left (λ j ge lt. none_ j (omega arith) (omega arith))
        ∙ ap (λ k. scan t k left) (omega arith))

pub scan_missed :
    (t : ℕ → Bool) (i left j : ℕ) → scan t i left ≡ none → i ≤ j → j < i + left → t j ≡ false
unfolding scan
scan_missed t i zero j h ge lt = absurd (omega arith)
scan_missed t i (suc left) j h ge lt = elim (Bool-cases (t i)) [
  | inl e ↦ absurd (ground (arith, e, h))
  | inr e ↦ elim (Bool-cases (i == j)) [
    | inl same ↦ let here : i ≡ j = ground (arith, same) in rw (← here) e
    | inr differ ↦
        scan_missed t (i + 1) left j (ground (arith, e, h)) (ground (arith, differ)) (omega arith)
  ]
]

pub scan_found :
    (t : ℕ → Bool) (i left x : ℕ) → scan t i left ≡ some x → (t x ≡ true) × (i ≤ x) × (x < i + left)
unfolding scan
scan_found t i zero x h = absurd (cc)
scan_found t i (suc left) x h = elim (Bool-cases (t i)) [
  | inl e ↦ let here : i ≡ x = ground (arith, e, h) in rw (← here) (e, omega arith, omega arith)
  | inr e ↦
      let (found, ge, lt) = scan_found t (i + 1) left x (ground (arith, e, h)) in
      (found, omega arith, omega arith)
]

pub byte_at-append :
    (buf more : Bytes) (i : ℕ) → i < length buf → byte_at (buf ++ more) i ≡ byte_at buf i
byte_at-append [] more i lt = absurd (omega arith)
byte_at-append (x ∷ buf) more zero lt = refl
byte_at-append (x ∷ buf) more (suc i) lt = byte_at-append buf more i (omega arith)

abbrev pub Lacks : ℕ → Bytes → Type 0
Lacks c = All (λ x. (x == c) ≡ false)

-- A search between two bounds ends at the first `c`, or finds none.
module _ (buf : Bytes) (c i j : ℕ) (xs rest : Bytes) where
  pub first_in_hit :
      drop i buf ≡ xs ++ c ∷ rest
      → Lacks c xs
      → i + length xs < j
      → first_in (is_at buf c) i j ≡ some (i + length xs)
  first_in_hit at skip lt =
      scan_hit (λ x. x == c) buf xs i c rest (j - i) at skip (ground arith) (omega arith)

  pub first_in_miss :
      drop i buf ≡ xs ++ rest → Lacks c xs → j ≡ i + length xs → first_in (is_at buf c) i j ≡ none
  first_in_miss at skip e =
      let left : j - i ≡ length xs = omega arith in
      rw left (scan_miss (λ x. x == c) buf xs i rest at skip)

-- Cutting a text out of a buffer at the place where it stands.
module _ (buf : Bytes) (i n : ℕ) (xs rest : Bytes) (at : drop i buf ≡ xs ++ rest) where
  pub substr_at : n ≡ length xs → substr buf i n ≡ xs
  substr_at e = rw (at, e) (take-append xs rest)

  pub drop_past : n ≡ i + length xs → drop n buf ≡ rest
  drop_past e = rw e (sym (drop-drop (length xs) i buf) ∙ rw at (drop-append xs rest))

pub length_at :
    (buf : Bytes) (i : ℕ) (c : ℕ) (rest : Bytes)
    → drop i buf ≡ c ∷ rest
    → length buf ≡ i + suc (length rest)
length_at buf i c rest at = omega (arith, length-drop i buf, ap length at)
