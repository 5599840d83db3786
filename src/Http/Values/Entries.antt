-- ===== src/Http/Values/Entries.antt =====
-- A container is what its entries make, appended one after the other.
use lambda.Base.{
  true, false, List, [], ◌∷◌, ◌++◌, append_assoc, append-nil, none, some, ◌≡◌, ◌∙◌, refl, sym, ap,
  inl, inr, Bytes, All, equal, equal_iff, equal_self, is_empty, Bool-cases, if◌then◌else◌,
}
use lambda.Dict.{less, find, put}
use lambda.Dict.Laws.{IsSorted, less_irrefl, less_trans}
use lambda.Http.Trim.{reset_case}
use lambda.Http.Values.{MultiValue, Values, append, entries, key_entries, get_all}
use lambda.Http.Values.Laws.{IsValid, IsEntry, get_all_update, update-IsValid}

-- What a parser of pairs builds from them.
abbrev pub appended : Values → List (Bytes × Bytes) → Values
appended m [] = m
appended m ((key, value) ∷ rest) = appended (append m key value) rest

appended-append :
    (m : Values) (xs ys : List (Bytes × Bytes))
    → appended m (xs ++ ys) ≡ appended (appended m xs) ys
appended-append m [] ys = refl
appended-append m ((key, value) ∷ xs) ys = appended-append (append m key value) xs ys

-- Every key is below this one.
abbrev Below : Bytes → Values → Type 0
Below k = All (λ e. less e.0 k ≡ true)

below_other : (j k : Bytes) → less j k ≡ true → (equal k j ≡ false) × (less k j ≡ false)
below_other j k h = (
  elim (Bool-cases (equal k j)) [ inl e ↦ cc (h, less_irrefl j, (equal_iff k j).0 e) | inr e ↦ e ],
  elim (Bool-cases (less k j)) [ inl e ↦ cc (less_trans j k j h e, less_irrefl j) | inr e ↦ e ],
)

find-Below : (k : Bytes) (m : Values) → Below k m → find k m ≡ none
unfolding find
find-Below k [] h = refl
find-Below k ((j, w) ∷ m) h = rw (below_other j k h.0).0 (find-Below k m h.1)

put-Below : (k : Bytes) (vs : MultiValue) (m : Values) → Below k m → put k vs m ≡ m ++ (k, vs) ∷ []
unfolding put
put-Below k vs [] h = refl
put-Below k vs ((j, w) ∷ m) h =
    let (other, below) = below_other j k h.0 in
    rw (other, below) (ap (◌∷◌ (j, w)) (put-Below k vs m h.1))

find_last :
    (k : Bytes) (vs : MultiValue) (m : Values) → Below k m → find k (m ++ (k, vs) ∷ []) ≡ some vs
unfolding find
find_last k vs [] h = rw (equal_self k) refl
find_last k vs ((j, w) ∷ m) h = rw (below_other j k h.0).0 (find_last k vs m h.1)

put_last :
    (k : Bytes) (us vs : MultiValue) (m : Values)
    → Below k m
    → put k vs (m ++ (k, us) ∷ []) ≡ m ++ (k, vs) ∷ []
unfolding put
put_last k us vs [] h = rw (equal_self k) refl
put_last k us vs ((j, w) ∷ m) h =
    let (other, below) = below_other j k h.0 in
    rw (other, below) (ap (◌∷◌ (j, w)) (put_last k us vs m h.1))

module _ (k : Bytes) (normal : reset_case k ≡ k) (full : is_empty k ≡ false) (m : Values)
    (below : Below k m) where
  -- Further values of the last key.
  appended_last :
      (us vs : MultiValue)
      → appended (m ++ (k, us) ∷ []) (key_entries k vs) ≡ m ++ (k, us ++ vs) ∷ []
  unfolding key_entries
  appended_last us [] = rw (append-nil us) refl
  appended_last us (v ∷ vs) =
      let grown : append (m ++ (k, us) ∷ []) k v ≡ m ++ (k, us ++ v ∷ []) ∷ [] =
        unfold append in
        rw (normal, full, find_last k us m below) (put_last k us (us ++ v ∷ []) m below) in
      ap (λ t. appended t (key_entries k vs)) grown
      ∙ appended_last (us ++ v ∷ []) vs
      ∙ ap (λ t. m ++ (k, t) ∷ []) (append_assoc us (v ∷ []) vs)

  appended_key :
      (v : Bytes) (vs : MultiValue) → appended m (key_entries k (v ∷ vs)) ≡ m ++ (k, v ∷ vs) ∷ []
  unfolding key_entries
  appended_key v vs =
      let begun : append m k v ≡ m ++ (k, v ∷ []) ∷ [] =
        unfold append in rw (normal, full, find-Below k m below) (put-Below k (v ∷ []) m below) in
      ap (λ t. appended t (key_entries k vs)) begun ∙ appended_last (v ∷ []) vs

sorted-Below :
    (k : Bytes) (vs : MultiValue) (m rest : Values) → IsSorted (m ++ (k, vs) ∷ rest) → Below k m
sorted-Below k vs [] rest h = tt
sorted-Below k vs ((j, w) ∷ m) rest h = (All_middle m rest h.0, sorted-Below k vs m rest h.1)
  where
    All_middle :
        (m rest : Values) → All (λ e. less j e.0 ≡ true) (m ++ (k, vs) ∷ rest) → less j k ≡ true
    All_middle [] rest h = h.0
    All_middle (e ∷ m) rest h = All_middle m rest h.1

appended-entries :
    (m rest : Values)
    → IsSorted (m ++ rest)
    → All IsEntry rest
    → appended m (entries rest) ≡ m ++ rest
unfolding entries
appended-entries m [] h e = rw (append-nil m) refl
appended-entries m ((k, []) ∷ rest) h e = absurd (cc (e.0.2))
appended-entries m ((k, v ∷ vs) ∷ rest) h e =
    let below = sorted-Below k (v ∷ vs) m rest h in
    let assoc = append_assoc m ((k, v ∷ vs) ∷ []) rest in
    appended-append m (key_entries k (v ∷ vs)) (entries rest)
    ∙ rw (appended_key k e.0.0 e.0.1 m below v vs)
        (appended-entries (m ++ (k, v ∷ vs) ∷ []) rest (rw assoc h) e.1 ∙ assoc)

-- A valid container is made again from its entries.
pub appended-entries_nil : (m : Values) → IsValid m → appended [] (entries m) ≡ m
appended-entries_nil m h = appended-entries [] m h.sorted h.entry

-- The values that stand beside a name in a list of pairs, in their order.
abbrev pub values_under : Bytes → List (Bytes × Bytes) → List Bytes
values_under name [] = []
values_under name ((key, value) ∷ rest) =
    if equal name key then value ∷ values_under name rest else values_under name rest

-- A name that is not empty and is what it normalises to.
abbrev pub IsNormal : Bytes × Bytes → Type 0
IsNormal e = (reset_case e.0 ≡ e.0) × (is_empty e.0 ≡ false)

get_all-append :
    (m : Values) (key value other : Bytes) (rest : List (Bytes × Bytes))
    → IsValid m
    → IsNormal (key, value)
    → get_all (append m key value) other ++ values_under (reset_case other) rest
      ≡ get_all m other ++ values_under (reset_case other) ((key, value) ∷ rest)
get_all-append m key value other rest valid (normal, full) =
    let stored = (get_all_update m key value other valid).1 in
    elim (Bool-cases (equal (reset_case other) key)) [
      | inl e ↦
          let one : reset_case key ≡ reset_case other =
            normal ∙ sym ((equal_iff (reset_case other) key).0 e) in
          let old : get_all m key ≡ get_all m other = unfold get_all in rw one refl in
          rw (stored, normal, full, e, old)
            (append_assoc (get_all m other) (value ∷ []) (values_under (reset_case other) rest))
      | inr e ↦ rw (stored, normal, full, e) refl
    ]

-- What is appended to a valid container stands behind what was there.
pub get_all-appended :
    (m : Values) (es : List (Bytes × Bytes)) (other : Bytes)
    → IsValid m
    → All IsNormal es
    → get_all (appended m es) other ≡ get_all m other ++ values_under (reset_case other) es
get_all-appended m [] other valid h = rw (append-nil (get_all m other)) refl
get_all-appended m ((key, value) ∷ es) other valid h =
    get_all-appended (append m key value) es other (update-IsValid m key value valid).1 h.1
    ∙ get_all-append m key value other es valid h.0
