-- ===== src/Http/Values/Laws.antt =====
-- The container against a map from normalised names to lists of values.
use lambda.Base.{
  ℕ, Bool, false, not, [], ◌∷◌, ◌++◌, Option, none, some, ◌≡◌, inl, inr, refl, arith, Bytes, All,
  equal, equal_iff, is_empty, Bool-cases, Option-cases, if◌then◌else◌,
}
use lambda.Dict.{find, put}
use lambda.Dict.Laws.{
  IsSorted, All-put, All-erase, find-put, find-erase, put-IsSorted, erase-IsSorted,
}
use lambda.Http.Trim.{reset_case, is_space}
use lambda.Http.Trim.Laws.{reset_case_idem, IsBlank, trim_space_single}
use lambda.Http.Values.{
  MultiValue, Values, has, get, get_all, set, append, del, last_value, push_value,
}

-- Names are kept in order, normalised and not empty, and each has a value.
abbrev pub IsEntry : Bytes × MultiValue → Type 0
IsEntry e = (reset_case e.0 ≡ e.0) × (is_empty e.0 ≡ false) × (is_empty e.1 ≡ false)

pub record IsValid (m : Values) : Type 0 where
  pub sorted : IsSorted m
  pub entry : All IsEntry m

-- The name that an access addresses: none if it normalises to nothing.
abbrev pub same_name : Bytes → Bytes → Bool
same_name key other =
    if is_empty (reset_case key) then false else equal (reset_case other) (reset_case key)

-- `set` replaces the values of one name and `append` extends them; no other name is touched.
-- `del` removes one name from a valid container.
pub get_all_update :
    (m : Values) (key value other : Bytes)
    → IsValid m
    → (get_all (set m key value) other
        ≡ (if same_name key other then value ∷ [] else get_all m other))
      × (get_all (append m key value) other
          ≡ (if same_name key other then get_all m key ++ value ∷ [] else get_all m other))
      × (get_all (del m key) other ≡ (if same_name key other then [] else get_all m other))
unfolding get_all set append del
get_all_update m key value other h =
    let k = reset_case key in
    let j = reset_case other in
    (
      ground (arith, find-put j k (value ∷ []) m, equal_iff j k),
      ground (arith, find-put j k (push_value (find k m) value) m, equal_iff j k),
      ground (arith, find-erase j k m h.sorted, equal_iff j k),
    )

push_value-full : (o : Option MultiValue) (value : Bytes) → is_empty (push_value o value) ≡ false
push_value-full none value = refl
push_value-full (some []) value = refl
push_value-full (some (v ∷ vs)) value = refl

put-IsValid :
    (m : Values) (key : Bytes) (values : MultiValue)
    → IsValid m
    → is_empty (reset_case key) ≡ false
    → is_empty values ≡ false
    → IsValid (put (reset_case key) values m)
put-IsValid m key values h k v = record {
  sorted = put-IsSorted (reset_case key) values m h.sorted;
  entry = All-put IsEntry (reset_case key) values m (reset_case_idem key, k, v) h.entry;
}

-- Every change keeps the container valid.
pub update-IsValid :
    (m : Values) (key value : Bytes)
    → IsValid m
    → IsValid (set m key value) × IsValid (append m key value) × IsValid (del m key)
unfolding set append del
update-IsValid m key value h = elim (Bool-cases (is_empty (reset_case key))) [
  | inl e ↦ rw e (h, h, h)
  | inr e ↦ rw e (
    put-IsValid m key (value ∷ []) h e refl,
    put-IsValid m key _ h e (push_value-full (find (reset_case key) m) value),
    record {
      sorted = erase-IsSorted (reset_case key) m h.sorted;
      entry = All-erase IsEntry (reset_case key) m h.entry;
    },
  )
]

last_value-append : (vs : MultiValue) (v : Bytes) → last_value (vs ++ v ∷ []) ≡ v
unfolding last_value
last_value-append [] v = refl
last_value-append (x ∷ []) v = refl
last_value-append (x ∷ y ∷ vs) v = last_value-append (y ∷ vs) v

get-last : (m : Values) (key : Bytes) → get m key ≡ last_value (get_all m key)
unfolding get get_all
get-last m key = ground arith

find-full :
    (m : Values) (k : Bytes) (vs : MultiValue)
    → All IsEntry m
    → find k m ≡ some vs
    → is_empty vs ≡ false
unfolding find
find-full [] k vs h e = cc
find-full ((j, w) ∷ m) k vs h e = ground (arith, h.0, find-full m k vs h.1)

-- Reading a name gives its last value, and a valid container has a name exactly when it has a value.
pub get-has :
    (m : Values) (key : Bytes)
    → IsValid m
    → (get m key ≡ last_value (get_all m key)) × (has m key ≡ not (is_empty (get_all m key)))
unfolding has get_all
get-has m key h = (
  get-last m key,
  elim (Option-cases (find (reset_case key) m)) [
    | inl e ↦ ground arith
    | inr (vs, e) ↦ ground (arith, find-full m (reset_case key) vs h.entry e)
  ],
)

-- A name with a single visible character, with or without blanks around it, is lost: writing a value
-- under it changes nothing, the container says that it does not have it, and no values are read for it.
pub single_name_lost :
    (m : Values) (pre : Bytes) (c : ℕ) (post value : Bytes)
    → IsBlank pre
    → is_space c ≡ false
    → IsBlank post
    → (set m (pre ++ c ∷ post) value ≡ m)
      × (append m (pre ++ c ∷ post) value ≡ m)
      × (has m (pre ++ c ∷ post) ≡ false)
      × (get_all m (pre ++ c ∷ post) ≡ [])
unfolding set append has get_all reset_case
single_name_lost m pre c post value p hc q =
    let e = trim_space_single pre c post p hc q in (rw e, rw e, rw e, rw e)
