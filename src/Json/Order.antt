-- ===== src/Json/Order.antt =====
-- json/parse.cpp: entries that are put into an object in the order of their keys.
use lambda.Base.{◌≡◌, refl, ap, inl, inr, true, false, Bytes, equal, equal_iff, Bool-cases}
use lambda.Dict.{less}
use lambda.Dict.Laws.{less_irrefl, less_trans}
use lambda.Json.Property.{Property, Object, put_entry}
use lambda.Json.Plain.{Above}

module _ {F : Type 0} where
  -- Every key is below the given one.
  abbrev pub Below : Object F → Bytes → Type 0
  Below Object.leaf key = Unit
  Below (Object.entry k v rest) key = (less k key ≡ true) × Below rest key

  abbrev pub append_entries : Object F → Object F → Object F
  append_entries Object.leaf more = more
  append_entries (Object.entry key v rest) more = Object.entry key v (append_entries rest more)

  pub append_entries_assoc :
      (a b c : Object F)
      → append_entries (append_entries a b) c ≡ append_entries a (append_entries b c)
  append_entries_assoc Object.leaf b c = refl
  append_entries_assoc (Object.entry key v rest) b c =
      ap (λ r. Object.entry key v r) (append_entries_assoc rest b c)

  -- A key above the others goes to the end.
  pub put_entry_last :
      (key : Bytes) (v : Property F) (entries : Object F)
      → Below entries key
      → put_entry key v entries ≡ append_entries entries (Object.entry key v Object.leaf)
  unfolding put_entry
  put_entry_last key v Object.leaf h = refl
  put_entry_last key v (Object.entry k w rest) h =
      let differs : equal key k ≡ false = elim (Bool-cases (equal key k)) [
        | inl e ↦ cc (h.0, less_irrefl k, (equal_iff key k).0 e)
        | inr e ↦ e
      ] in
      let above : less key k ≡ false = elim (Bool-cases (less key k)) [
        | inl e ↦ cc (less_trans k key k h.0 e, less_irrefl k)
        | inr e ↦ e
      ] in
      rw (differs, above, put_entry_last key v rest h.1) refl

  Below-less :
      (entries : Object F) (k j : Bytes) → Below entries k → less k j ≡ true → Below entries j
  Below-less Object.leaf k j h lt = tt
  Below-less (Object.entry i v rest) k j h lt =
      (less_trans i k j h.0 lt, Below-less rest k j h.1 lt)

  Below-append :
      (entries more : Object F) (k : Bytes)
      → Below entries k
      → Below more k
      → Below (append_entries entries more) k
  Below-append Object.leaf more k h g = g
  Below-append (Object.entry i v rest) more k h g = (h.0, Below-append rest more k h.1 g)

  -- The first key of the second object is above those of the first.
  abbrev pub Precedes : Object F → Object F → Type 0
  Precedes entries Object.leaf = Unit
  Precedes entries (Object.entry key v rest) = Below entries key

  pub Precedes-next :
      (entries : Object F) (key : Bytes) (v : Property F) (rest : Object F)
      → Below entries key
      → Above key rest
      → Precedes (append_entries entries (Object.entry key v Object.leaf)) rest
  Precedes-next entries key v Object.leaf h g = tt
  Precedes-next entries key v (Object.entry j w rest) h g =
      Below-append entries (Object.entry key v Object.leaf) j (Below-less entries key j h g.0)
        (g.0, tt)
