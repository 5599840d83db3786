-- ===== src/Http/Values.antt =====
-- http/values.cpp: the container of headers, cookies and query parameters. Names are normalised
-- by `reset_case` at every access; an access by a name that normalises to nothing does nothing.
pub mod Laws
pub mod Entries
use lambda.Base.{
  ℕ, Bool, true, false, not, List, [], ◌∷◌, ◌++◌, map, Option, none, some, Bytes, length, is_empty,
  if◌then◌else◌,
}
use lambda.Dict.{Dict, find, put, erase}
use lambda.Http.Trim.{reset_case}

abbrev pub MultiValue : Type 0
MultiValue = List Bytes

-- `m_entries`. The copies and moves of the class copy this one field.
abbrev pub Values : Type 0
Values = Dict MultiValue

abbrev pub is_some {ℓ} : {A : Type ℓ} → Option A → Bool
is_some none = false
is_some (some a) = true

unfoldable pub has : Values → Bytes → Bool
has m key =
    let normalized_key = reset_case key in
    if is_empty normalized_key then false else is_some (find normalized_key m)

-- `entry->second[values_size - 1]`, or the empty string if there is none.
unfoldable pub last_value : MultiValue → Bytes
last_value [] = []
last_value (v ∷ []) = v
last_value (v ∷ w ∷ vs) = last_value (w ∷ vs)

abbrev values_of : Option MultiValue → MultiValue
values_of none = []
values_of (some vs) = vs

unfoldable pub get : Values → Bytes → Bytes
unfolding last_value
get m key =
    let normalized_key = reset_case key in
    if is_empty normalized_key then [] else last_value (values_of (find normalized_key m))

unfoldable pub get_all : Values → Bytes → MultiValue
get_all m key =
    let normalized_key = reset_case key in
    if is_empty normalized_key then [] else values_of (find normalized_key m)

unfoldable pub set : Values → Bytes → Bytes → Values
set m key value =
    let normalized_key = reset_case key in
    if is_empty normalized_key then m else put normalized_key (value ∷ []) m

abbrev pub push_value : Option MultiValue → Bytes → MultiValue
push_value none value = value ∷ []
push_value (some vs) value = vs ++ value ∷ []

unfoldable pub append : Values → Bytes → Bytes → Values
append m key value =
    let normalized_key = reset_case key in
    if is_empty normalized_key
    then m
    else put normalized_key (push_value (find normalized_key m) value) m

unfoldable pub del : Values → Bytes → Values
del m key =
    let normalized_key = reset_case key in
    if is_empty normalized_key then m else erase normalized_key m

-- The inner loop of `entries`.
unfoldable pub key_entries : Bytes → MultiValue → List (Bytes × Bytes)
key_entries key values = map (λ value. (key, value)) values

unfoldable pub entries : Values → List (Bytes × Bytes)
unfolding key_entries
entries [] = []
entries ((key, values) ∷ m) = key_entries key values ++ entries m

unfoldable pub size : Values → ℕ
size m = length m

unfoldable pub empty : Values → Bool
empty m = is_empty m
