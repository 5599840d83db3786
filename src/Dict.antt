-- ===== src/Dict.antt =====
-- `std::map<std::string, V>` as the sorted list of its entries, which is how the source iterates
-- over it. Used by http/values.cpp.
pub mod Laws
use lambda.Base.{
  ℕ, Bool, true, false, List, [], ◌∷◌, Option, none, some, Bytes, equal, ◌==◌, ltb, if◌then◌else◌,
}

-- `operator<` of std::string: bytes compared as unsigned numbers.
unfoldable pub less : Bytes → Bytes → Bool
less [] [] = false
less [] (y ∷ ys) = true
less (x ∷ xs) [] = false
less (x ∷ xs) (y ∷ ys) = if ltb x y then true else if x == y then less xs ys else false

abbrev pub Dict {ℓ} : Type ℓ → Type ℓ
Dict V = List (Bytes × V)

module _ {ℓ} {V : Type ℓ} where
  unfoldable pub find : Bytes → Dict V → Option V
  find k [] = none
  find k ((j, v) ∷ m) = if equal k j then some v else find k m

  -- `m[k] = v`
  unfoldable pub put : Bytes → V → Dict V → Dict V
  put k v [] = (k, v) ∷ []
  put k v ((j, w) ∷ m) =
      let rest = put k v m in
      if equal k j then (k, v) ∷ m else if less k j then (k, v) ∷ (j, w) ∷ m else (j, w) ∷ rest

  unfoldable pub erase : Bytes → Dict V → Dict V
  erase k [] = []
  erase k ((j, w) ∷ m) = if equal k j then m else (j, w) ∷ erase k m
