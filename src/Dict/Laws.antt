-- ===== src/Dict/Laws.antt =====
-- Lookups after a write or a removal, and the order of the keys.
use lambda.Base.{
  true, false, [], ◌∷◌, none, some, ◌≡◌, inl, inr, refl, arith, Bytes, All, equal, equal_iff,
  Bool-cases, if◌then◌else◌,
}
use lambda.Dict.{less, Dict, find, put, erase}

pub less_irrefl : (a : Bytes) → less a a ≡ false
unfolding less
less_irrefl [] = refl
less_irrefl (x ∷ a) = ground (arith, less_irrefl a)

pub less_trans : (a b c : Bytes) → less a b ≡ true → less b c ≡ true → less a c ≡ true
unfolding less
less_trans [] [] c h k = cc
less_trans [] (y ∷ b) [] h k = cc
less_trans [] (y ∷ b) (z ∷ c) h k = refl
less_trans (x ∷ a) [] c h k = cc
less_trans (x ∷ a) (y ∷ b) [] h k = cc
less_trans (x ∷ a) (y ∷ b) (z ∷ c) h k = ground (arith, less_trans a b c)

pub less_total : (a b : Bytes) → equal a b ≡ false → less a b ≡ false → less b a ≡ true
unfolding less equal
less_total [] [] h k = cc
less_total [] (y ∷ b) h k = cc
less_total (x ∷ a) [] h k = refl
less_total (x ∷ a) (y ∷ b) h k = ground (arith, less_total a b)

less-ne : (a b : Bytes) → less a b ≡ true → equal a b ≡ false
less-ne a b h = elim (Bool-cases (equal a b)) [
  | inl e ↦ cc (h, less_irrefl a, (equal_iff a b).0 e)
  | inr e ↦ e
]

module _ {ℓ} {V : Type ℓ} where
  -- Every key is below the keys behind it.
  abbrev pub IsSorted : Dict V → Type ℓ
  IsSorted [] = Unit
  IsSorted ((k, v) ∷ m) = All (λ e. less k e.0 ≡ true) m × IsSorted m

module _ {ℓ κ} {V : Type ℓ} (P : Bytes × V → Type κ) where
  pub All-put : (k : Bytes) (v : V) (m : Dict V) → P (k, v) → All P m → All P (put k v m)
  unfolding put
  All-put k v [] p h = (p, tt)
  All-put k v ((j, w) ∷ m) p h = elim (Bool-cases (equal k j)) [
    | inl e ↦ rw e (p, h.1)
    | inr e ↦ rw e (elim (Bool-cases (less k j)) [
      | inl l ↦ rw l (p, h)
      | inr l ↦ rw l (h.0, All-put k v m p h.1)
    ])
  ]

  pub All-erase : (k : Bytes) (m : Dict V) → All P m → All P (erase k m)
  unfolding erase
  All-erase k [] h = tt
  All-erase k ((j, w) ∷ m) h = elim (Bool-cases (equal k j)) [
    | inl e ↦ rw e h.1
    | inr e ↦ rw e (h.0, All-erase k m h.1)
  ]

module _ {ℓ} {V : Type ℓ} where
  pub find-put :
      (j k : Bytes) (v : V) (m : Dict V)
      → find j (put k v m) ≡ (if equal j k then some v else find j m)
  unfolding find put
  find-put j k v [] = refl
  find-put j k v ((i, w) ∷ m) =
      ground (arith, equal_iff j k, equal_iff k i, equal_iff j i, find-put j k v m)

  above-weaken :
      (a b : Bytes) (m : Dict V)
      → less a b ≡ true
      → All (λ e. less b e.0 ≡ true) m
      → All (λ e. less a e.0 ≡ true) m
  above-weaken a b [] h t = tt
  above-weaken a b ((k, v) ∷ m) h t = (less_trans a b k h t.0, above-weaken a b m h t.1)

  find_above : (k : Bytes) (m : Dict V) → All (λ e. less k e.0 ≡ true) m → find k m ≡ none
  unfolding find
  find_above k [] h = refl
  find_above k ((j, w) ∷ m) h = rw (less-ne k j h.0) (find_above k m h.1)

  pub put-IsSorted : (k : Bytes) (v : V) (m : Dict V) → IsSorted m → IsSorted (put k v m)
  unfolding put
  put-IsSorted k v [] h = (tt, tt)
  put-IsSorted k v ((j, w) ∷ m) h = elim (Bool-cases (equal k j)) [
    | inl e ↦ rw e (rw (← (equal_iff k j).0 e) at h)
    | inr e ↦ rw e (elim (Bool-cases (less k j)) [
      | inl l ↦ rw l ((l, above-weaken k j m l h.0), h)
      | inr l ↦
          rw l (
            All-put (λ e. less j e.0 ≡ true) k v m (less_total k j e l) h.0,
            put-IsSorted k v m h.1,
          )
    ])
  ]

  pub erase-IsSorted : (k : Bytes) (m : Dict V) → IsSorted m → IsSorted (erase k m)
  unfolding erase
  erase-IsSorted k [] h = tt
  erase-IsSorted k ((j, w) ∷ m) h = elim (Bool-cases (equal k j)) [
    | inl e ↦ rw e h.1
    | inr e ↦ rw e (All-erase (λ e. less j e.0 ≡ true) k m h.0, erase-IsSorted k m h.1)
  ]

  pub find-erase :
      (j k : Bytes) (m : Dict V)
      → IsSorted m
      → find j (erase k m) ≡ (if equal j k then none else find j m)
  unfolding find erase
  find-erase j k [] h = elim (Bool-cases (equal j k)) [ inl e ↦ rw e | inr e ↦ rw e ]
  find-erase j k ((i, w) ∷ m) h =
      ground (
        arith,
        equal_iff j k,
        equal_iff k i,
        equal_iff j i,
        find-erase j k m h.1,
        find_above i m h.0,
      )
