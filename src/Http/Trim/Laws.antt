-- ===== src/Http/Trim/Laws.antt =====
-- What trimming keeps: the text between the outer spaces, if it has two characters or more.
use mathlib.Core.List.{map-append}
use mathlib.Core.Path.{subst}
use lambda.Base.{
  ℕ, zero, suc, ◌+◌, ◌-◌, ◌≤◌, ◌<◌, true, false, [], ◌∷◌, ◌++◌, map, append_assoc, append-nil, ◌≡◌,
  ◌∙◌, inl, inr, refl, sym, ap, arith, Bytes, All, length, length-append, byte_at, take, drop,
  take-append, drop-append, Bool-cases,
}
use lambda.Http.Trim.{is_space, leading, last_visible, trim_space, lower_rune, reset_case}

abbrev pub IsBlank : Bytes → Type 0
IsBlank = All (λ c. is_space c ≡ true)

pub byte_at-append : (xs ys : Bytes) (k : ℕ) → byte_at (xs ++ ys) (length xs + k) ≡ byte_at ys k
byte_at-append [] ys k = ap (byte_at ys) (omega arith)
byte_at-append (x ∷ xs) ys k =
    let e : suc (length xs) + k ≡ suc (length xs + k) = omega arith in rw e (byte_at-append xs ys k)

IsBlank-byte_at :
    (post : Bytes) (k : ℕ) → IsBlank post → k < length post → is_space (byte_at post k) ≡ true
IsBlank-byte_at [] k h lt = absurd (omega arith)
IsBlank-byte_at (c ∷ post) zero h lt = h.0
IsBlank-byte_at (c ∷ post) (suc k) h lt = IsBlank-byte_at post k h.1 (omega arith)

leading_blank : (pre rest : Bytes) → IsBlank pre → leading (pre ++ rest) ≡ length pre + leading rest
unfolding leading
leading_blank [] rest h = omega arith
leading_blank (c ∷ pre) rest h = rw h.0 (omega (arith, leading_blank pre rest h.1))

last_visible_stop : (xs : Bytes) (i : ℕ) → is_space (byte_at xs i) ≡ false → last_visible xs i ≡ i
unfolding last_visible
last_visible_stop xs zero h = refl
last_visible_stop xs (suc i) h = rw h

last_visible_step :
    (xs : Bytes) (i : ℕ)
    → is_space (byte_at xs (suc i)) ≡ true
    → last_visible xs (suc i) ≡ last_visible xs i
unfolding last_visible
last_visible_step xs i h = rw h

last_visible_blank :
    (front : Bytes) (d : ℕ) (post : Bytes) (k : ℕ)
    → is_space d ≡ false
    → IsBlank post
    → k ≤ length post
    → last_visible (front ++ d ∷ post) (length front + k) ≡ length front
last_visible_blank front d post zero hd h le =
    last_visible_stop (front ++ d ∷ post) (length front + 0)
      (rw (byte_at-append front (d ∷ post) 0) hd)
    ∙ omega arith
last_visible_blank front d post (suc k) hd h le =
    let e : length front + suc k ≡ suc (length front + k) = omega arith in
    let space = byte_at-append front (d ∷ post) (suc k) ∙ refl in
    rw e (
      last_visible_step (front ++ d ∷ post) (length front + k)
        (rw (← e, byte_at-append front (d ∷ post) (suc k)) (IsBlank-byte_at post k h (omega arith)))
      ∙ last_visible_blank front d post k hd h (omega arith))

-- A text is blank, or has one visible character, or a visible character at each end.
pub data Shape (s : Bytes) : Type 0 where
  blank : IsBlank s → Shape s
  single :
      (pre : Bytes) (c : ℕ) (post : Bytes)
      → IsBlank pre
      → is_space c ≡ false
      → IsBlank post
      → s ≡ pre ++ c ∷ post
      → Shape s
  wide :
      (pre : Bytes) (c : ℕ) (mid : Bytes) (d : ℕ) (post : Bytes)
      → IsBlank pre
      → is_space c ≡ false
      → is_space d ≡ false
      → IsBlank post
      → s ≡ pre ++ c ∷ (mid ++ d ∷ post)
      → Shape s

Shape-space : (x : ℕ) (xs : Bytes) → is_space x ≡ true → Shape xs → Shape (x ∷ xs)
Shape-space x xs h (blank b) = blank (h, b)
Shape-space x xs h (single pre c post p hc q e) = single (x ∷ pre) c post (h, p) hc q (ap (◌∷◌ x) e)
Shape-space x xs h (wide pre c mid d post p hc hd q e) =
    wide (x ∷ pre) c mid d post (h, p) hc hd q (ap (◌∷◌ x) e)

Shape-visible : (x : ℕ) (xs : Bytes) → is_space x ≡ false → Shape xs → Shape (x ∷ xs)
Shape-visible x xs h (blank b) = single [] x xs tt h b refl
Shape-visible x xs h (single pre c post p hc q e) = wide [] x pre c post tt h hc q (ap (◌∷◌ x) e)
Shape-visible x xs h (wide pre c mid d post p hc hd q e) =
    wide [] x (pre ++ c ∷ mid) d post tt h hd q
      (ap (◌∷◌ x) (e ∙ sym (append_assoc pre (c ∷ mid) (d ∷ post))))

pub shape : (s : Bytes) → Shape s
shape [] = blank tt
shape (x ∷ xs) = elim (Bool-cases (is_space x)) [
  | inl h ↦ Shape-space x xs h (shape xs)
  | inr h ↦ Shape-visible x xs h (shape xs)
]

module _ (s : Bytes) (b e : ℕ) (hb : leading s ≡ b) (he : last_visible s (length s - 1) ≡ e) where
  trim_space_nil : e ≤ b → trim_space s ≡ []
  unfolding trim_space
  trim_space_nil h = ground arith

  trim_space_cut : b < e → e < length s → trim_space s ≡ take (e + 1 - b) (drop b s)
  unfolding trim_space
  trim_space_cut h lt = ground arith

leading_visible :
    (pre : Bytes) (c : ℕ) (rest : Bytes)
    → IsBlank pre
    → is_space c ≡ false
    → leading (pre ++ c ∷ rest) ≡ length pre
leading_visible pre c rest p hc =
    leading_blank pre (c ∷ rest) p ∙ unfold leading in rw hc (omega arith)

last_visible_end :
    (front : Bytes) (d : ℕ) (post : Bytes)
    → is_space d ≡ false
    → IsBlank post
    → last_visible (front ++ d ∷ post) (length (front ++ d ∷ post) - 1) ≡ length front
last_visible_end front d post hd q =
    let e : length (front ++ d ∷ post) - 1 ≡ length front + length post =
      omega (arith, length-append front (d ∷ post)) in
    rw e (last_visible_blank front d post (length post) hd q (omega arith))

pub trim_space_blank : (s : Bytes) → IsBlank s → trim_space s ≡ []
unfolding trim_space
trim_space_blank s h =
    let all : leading s ≡ length s =
      rw append-nil at (leading_blank s [] h) ∙ unfold leading in omega arith in
    ground arith

-- A name with one visible character trims to nothing.
pub trim_space_single :
    (pre : Bytes) (c : ℕ) (post : Bytes)
    → IsBlank pre
    → is_space c ≡ false
    → IsBlank post
    → trim_space (pre ++ c ∷ post) ≡ []
trim_space_single pre c post p hc q =
    trim_space_nil (pre ++ c ∷ post) (length pre) (length pre) (leading_visible pre c post p hc)
      (last_visible_end pre c post hc q) (omega arith)

-- Outer spaces are cut off exactly around a text that begins and ends with visible characters.
pub trim_space_wide :
    (pre : Bytes) (c : ℕ) (mid : Bytes) (d : ℕ) (post : Bytes)
    → IsBlank pre
    → is_space c ≡ false
    → is_space d ≡ false
    → IsBlank post
    → trim_space (pre ++ c ∷ (mid ++ d ∷ post)) ≡ c ∷ (mid ++ d ∷ [])
trim_space_wide pre c mid d post p hc hd q =
    let s = pre ++ c ∷ (mid ++ d ∷ post) in
    let core = c ∷ (mid ++ d ∷ []) in
    let last = length pre + suc (length mid) in
    let split : s ≡ (pre ++ c ∷ mid) ++ d ∷ post = sym (append_assoc pre (c ∷ mid) (d ∷ post)) in
    let ends : last_visible s (length s - 1) ≡ last =
      rw split (last_visible_end (pre ++ c ∷ mid) d post hd q) ∙ length-append pre (c ∷ mid) in
    let bound : last < length s =
      omega (arith, length-append pre (c ∷ (mid ++ d ∷ post)), length-append mid (d ∷ post)) in
    let size : last + 1 - length pre ≡ length core = omega (arith, length-append mid (d ∷ [])) in
    let regroup : c ∷ (mid ++ d ∷ post) ≡ core ++ post =
      ap (◌∷◌ c) (sym (append_assoc mid (d ∷ []) post)) in
    trim_space_cut s (length pre) last (leading_visible pre c (mid ++ d ∷ post) p hc) ends
      (omega arith) bound
    ∙ rw (size, drop-append pre (c ∷ (mid ++ d ∷ post)))
        (subst (λ t. take (length core) t ≡ core) (sym regroup) (take-append core post))

lower_rune-is_space : (c : ℕ) → is_space (lower_rune c) ≡ is_space c
unfolding is_space lower_rune
lower_rune-is_space c = ground arith

lower_rune_idem : (c : ℕ) → lower_rune (lower_rune c) ≡ lower_rune c
unfolding lower_rune
lower_rune_idem c = ground arith

map-lower_rune_idem : (s : Bytes) → map lower_rune (map lower_rune s) ≡ map lower_rune s
map-lower_rune_idem [] = refl
map-lower_rune_idem (c ∷ s) = cc (lower_rune_idem c, map-lower_rune_idem s)

reset_case_core :
    (c : ℕ) (mid : Bytes) (d : ℕ)
    → is_space c ≡ false
    → is_space d ≡ false
    → reset_case (map lower_rune (c ∷ (mid ++ d ∷ []))) ≡ map lower_rune (c ∷ (mid ++ d ∷ []))
unfolding reset_case
reset_case_core c mid d hc hd =
    let inner =
      trim_space_wide [] (lower_rune c) (map lower_rune mid) (lower_rune d) [] tt
        (lower_rune-is_space c ∙ hc) (lower_rune-is_space d ∙ hd) tt in
    rw (map-append lower_rune mid (d ∷ [])) (
      ap (map lower_rune) inner
      ∙ rw (← map-append lower_rune mid (d ∷ [])) (map-lower_rune_idem (c ∷ (mid ++ d ∷ []))))

reset_case_nil : (s : Bytes) → trim_space s ≡ [] → reset_case (reset_case s) ≡ reset_case s
unfolding reset_case trim_space
reset_case_nil s h = rw h refl

reset_case_fix :
    (s : Bytes) (c : ℕ) (mid : Bytes) (d : ℕ)
    → is_space c ≡ false
    → is_space d ≡ false
    → trim_space s ≡ c ∷ (mid ++ d ∷ [])
    → reset_case (reset_case s) ≡ reset_case s
unfolding reset_case
reset_case_fix s c mid d hc hd h = rw h (unfold reset_case in reset_case_core c mid d hc hd)

-- Normalising a name twice changes nothing more.
pub reset_case_idem : (s : Bytes) → reset_case (reset_case s) ≡ reset_case s
reset_case_idem s = go (shape s)
  where
    go : Shape s → reset_case (reset_case s) ≡ reset_case s
    go (blank b) = reset_case_nil s (trim_space_blank s b)
    go (single pre c post p hc q e) =
        reset_case_nil s (ap trim_space e ∙ trim_space_single pre c post p hc q)
    go (wide pre c mid d post p hc hd q e) =
        reset_case_fix s c mid d hc hd
          (ap trim_space e ∙ trim_space_wide pre c mid d post p hc hd q)
