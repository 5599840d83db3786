-- ===== src/Base/Bits.antt =====
-- The bit operations at variables: the law of the lowest digit, disjoint fields and low masks.
use Prim.Native.Nat.{ℕ, zero, suc, ◌+◌, ◌-◌, ◌*◌, ◌/◌, ◌%◌, ◌^◌, ◌≤◌, ◌<◌, min, max}
use Prim.Native.Nat.{bit_and, bit_or, bit_xor, digits, bitwise}
use Prim.Native.Nat.{bit_and-bitwise, bit_or-bitwise, bit_xor-bitwise, differ}
use mathlib.Core.Path.{◌≡◌, refl, ap, ◌∙◌}
use mathlib.Core.Bool.{Bool, true, false}
use native.Mathlib.Nat.{pow-suc, one-le-pow}
use native.Mathlib.Omega.{arith}
use lambda.Base.Tests.{if◌then◌else◌}

-- A test of every number below a bound, by evaluation.
unfoldable pub all_below : ℕ → (ℕ → Bool) → Bool
all_below zero test = true
all_below (suc top) test = if test top then all_below top test else false

pub all_below_sound :
    (bound : ℕ) (test : ℕ → Bool) (x : ℕ) → all_below bound test ≡ true → x < bound → test x ≡ true
unfolding all_below
all_below_sound zero test x holds lt = elim lt [ ]
all_below_sound (suc top) test x holds lt = ground (arith, all_below_sound top test x)

module _ (f : ℕ → ℕ → ℕ) (z : ℕ → ℕ) where
  -- The digits of 0 have run out, whatever the count says.
  digits-zero : (b n : ℕ) → digits z f n zero b ≡ z b
  digits-zero b zero = refl
  digits-zero b (suc n) = refl

  counts_agree : (b a n m : ℕ) → a ≤ n → a ≤ m → digits z f n a b ≡ digits z f m a b
  counts_agree b zero n m h k = rw (digits-zero b n, digits-zero b m)
  counts_agree b (suc a) zero m h k = absurd (omega arith)
  counts_agree b (suc a) (suc n) zero h k = absurd (omega arith)
  counts_agree b (suc a) (suc n) (suc m) h k =
      ap (λ (t : ℕ). t * 2 + f (suc a % 2) (b % 2))
        (counts_agree (b / 2) (suc a / 2) n m (omega arith) (omega arith))

  lowest_digit :
      (a b : ℕ) → 0 < a → bitwise z f a b ≡ bitwise z f (a / 2) (b / 2) * 2 + f (a % 2) (b % 2)
  lowest_digit zero b pos = absurd (omega arith)
  lowest_digit (suc a) b pos =
      ap (λ (t : ℕ). t * 2 + f (suc a % 2) (b % 2))
        (counts_agree (b / 2) (suc a / 2) a (suc a / 2) (omega arith) (omega arith))

-- Halving a number with a digit law: what holds at 0, and at `a` if at `a / 2`, holds everywhere.
by_halves : (P : ℕ → Type 0) → P 0 → ((a : ℕ) → 0 < a → P (a / 2) → P a) → (a : ℕ) → P a
by_halves P base next a = upto (suc a) a (omega arith)
  where
    upto : (n m : ℕ) → m < n → P m
    upto zero m lt = absurd (omega arith)
    upto (suc n) zero lt = base
    upto (suc n) (suc m) lt = next (suc m) (omega arith) (upto n (suc m / 2) (omega arith))

-- An operation on digits that keeps a digit against 0, as `^` and `|` do.
module _ (op f : ℕ → ℕ → ℕ) (first : (b : ℕ) → op 0 b ≡ b)
    (step : (a b : ℕ) → 0 < a → op a b ≡ op (a / 2) (b / 2) * 2 + f (a % 2) (b % 2))
    (keep : (d : ℕ) → f d 0 ≡ d) (fill : (d : ℕ) → f 0 d ≡ d) where
  op-zero : (a : ℕ) → op a 0 ≡ a
  op-zero =
      by_halves (λ a. op a 0 ≡ a) (first 0)
        λ a pos ih. omega (arith, step a 0 pos, ih, keep (a % 2))

  doubled : (q k : ℕ) → q * 2 ^ suc k ≡ q * 2 ^ k * 2
  doubled q k = omega (arith, ap (λ (t : ℕ). q * t) (pow-suc 2 k))

  op_fields : (k q r : ℕ) → r < 2 ^ k → op (q * 2 ^ k) r ≡ q * 2 ^ k + r
  op_fields zero q r fits = ground (arith, op-zero q)
  op_fields (suc k) zero r fits =
      let none_left : 0 * 2 ^ suc k ≡ 0 = omega arith in rw none_left (first r ∙ omega arith)
  op_fields (suc k) (suc q) r fits = ground (
    arith,
    step (suc q * 2 ^ suc k) r (grind (arith, one-le-pow (suc k) 2)),
    doubled (suc q) k,
    fill (r % 2),
    op_fields k (suc q) (r / 2) (ground (arith, pow-suc 2 k)),
  )

differ-zero : (d : ℕ) → differ d 0 ≡ d
differ-zero zero = refl
differ-zero (suc d) = refl

max-zero : (d : ℕ) → max d 0 ≡ d
max-zero d = omega arith

zero-max : (d : ℕ) → max 0 d ≡ d
zero-max d = omega arith

-- Where the second number fits the low `k` bits that the first leaves clear, `^` and `|` add.
pub bit_xor_fields : (k q r : ℕ) → r < 2 ^ k → bit_xor (q * 2 ^ k) r ≡ q * 2 ^ k + r
bit_xor_fields =
    op_fields bit_xor differ (λ b. bit_xor-bitwise 0 b)
      (λ a b pos. simp bit_xor-bitwise (lowest_digit differ (λ y. y) a b pos)) differ-zero
      (λ d. refl)

pub bit_or_fields : (k q r : ℕ) → r < 2 ^ k → bit_or (q * 2 ^ k) r ≡ q * 2 ^ k + r
bit_or_fields =
    op_fields bit_or max (λ b. bit_or-bitwise 0 b)
      (λ a b pos. simp bit_or-bitwise (lowest_digit max (λ y. y) a b pos)) max-zero zero-max

and_digit : (a b : ℕ) → bit_and a b ≡ bit_and (a / 2) (b / 2) * 2 + min (a % 2) (b % 2)
and_digit zero b = simp bit_and-bitwise (omega arith)
and_digit (suc a) b = simp bit_and-bitwise (lowest_digit min (λ y. 0) (suc a) b (omega arith))

and-zero : (a : ℕ) → bit_and a 0 ≡ 0
and-zero = by_halves (λ a. bit_and a 0 ≡ 0) refl λ a pos ih. omega (arith, and_digit a 0, ih)

-- The mask keeps the low `k` bits of a number that is split there.
and_low : (k r q : ℕ) → r < 2 ^ k → bit_and (q * 2 ^ k + r) (2 ^ k - 1) ≡ r
and_low zero r q fits = rw (and-zero (q * 1 + r)) (omega arith)
and_low (suc k) r q fits =
    let half = and_low k (r / 2) q (ground (arith, pow-suc 2 k)) in
    let top : q * 2 ^ suc k ≡ q * 2 ^ k * 2 = omega (arith, ap (λ (t : ℕ). q * t) (pow-suc 2 k)) in
    ground
      (arith, half, top, pow-suc 2 k, one-le-pow k 2, and_digit (q * 2 ^ suc k + r) (2 ^ suc k - 1))

-- A mask of `k` low bits is the remainder by `2 ^ k`.
pub bit_and_mask : (k a : ℕ) → bit_and a (2 ^ k - 1) ≡ a % 2 ^ k
bit_and_mask k a = ground (arith, one-le-pow k 2, and_low k (a % 2 ^ k) (a / 2 ^ k))

xor_digit : (a b : ℕ) → bit_xor a b ≡ bit_xor (a / 2) (b / 2) * 2 + differ (a % 2) (b % 2)
xor_digit zero b = simp bit_xor-bitwise (omega arith)
xor_digit (suc a) b = simp bit_xor-bitwise (lowest_digit differ (λ y. y) (suc a) b (omega arith))

differ_twice :
    (p r : ℕ) → p < 2 → r < 2 → (differ p r < 2) × (differ (differ p r) r ≡ p) × (differ r r ≡ 0)
differ_twice zero zero a b = (omega arith, refl, refl)
differ_twice zero (suc zero) a b = (omega arith, refl, refl)
differ_twice (suc zero) zero a b = (omega arith, refl, refl)
differ_twice (suc zero) (suc zero) a b = (omega arith, refl, refl)
differ_twice p (suc (suc r)) a b = absurd (omega arith)
differ_twice (suc (suc p)) zero a b = absurd (omega arith)
differ_twice (suc (suc p)) (suc zero) a b = absurd (omega arith)

xor_self : (a : ℕ) → bit_xor a a ≡ 0
xor_self =
    by_halves (λ a. bit_xor a a ≡ 0) refl
      λ a pos ih. omega (arith, xor_digit a a, ih, differ_twice (a % 2) (a % 2))

-- A second `^` with the same number undoes the first.
pub bit_xor_twice : (x a : ℕ) → bit_xor (bit_xor x a) a ≡ x
bit_xor_twice =
    by_halves (λ x. (a : ℕ) → bit_xor (bit_xor x a) a ≡ x)
      (λ a. ap (λ t. bit_xor t a) (simp bit_xor-bitwise refl) ∙ xor_self a)
      λ x pos ih a.
        let (low, twice, same) = differ_twice (x % 2) (a % 2) (omega arith) (omega arith) in
        let first = xor_digit x a in
        let half : bit_xor x a / 2 ≡ bit_xor (x / 2) (a / 2) = omega arith in
        let digit : bit_xor x a % 2 ≡ differ (x % 2) (a % 2) = omega arith in
        xor_digit (bit_xor x a) a ∙ rw (half, digit, ih (a / 2), twice) (omega arith)
