-- ===== src/Json/Plain.antt =====
-- json/: the values that the printer and the parser agree on, and the shape of their texts.
use lambda.Base.{
  ℕ, suc, Bool, true, false, not, ◌||◌, [], ◌∷◌, ◌++◌, append-nil, ◌≡◌, ◌∙◌, refl, sym, ap, Bytes,
  ◌==◌, All, is_empty, codes, Result, ok, err, Error, ◌>>=◌,
}
use lambda.Base.Integers.{pos, negsuc, InInt64, integer_text}
use lambda.Base.Decimal.{to_decimal}
use lambda.Base.Decimal.RoundTrip.{digits_head}
use lambda.Dict.{less}
use lambda.Json.Property.{Property, Array, Object}
use lambda.Json.Strings.{escape_text}
use lambda.Json.Stringify.{stringify, stringify_items, stringify_entries}

-- No quote, backslash, escape character, dot or bracket.
abbrev pub is_plain : ℕ → Bool
is_plain c = not (
    c == b'"'
    || (c == b'\\'
        || (c == 27 || (c == b'.' || (c == b'[' || (c == b']' || (c == b'{' || c == b'}')))))))

abbrev pub IsPlainText : Bytes → Type 0
IsPlainText = All (λ c. is_plain c ≡ true)

module _ {F : Type 0} where
  -- The key is below the keys of the entries.
  abbrev pub Above : Bytes → Object F → Type 0
  Above key Object.leaf = Unit
  Above key (Object.entry k v rest) = (less key k ≡ true) × Above key rest

  -- Nulls, integers, Booleans, plain strings, arrays with an item and sorted objects.
  unfoldable mutual
    pub IsPlain : Property F → Type 0
    IsPlain Property.undefined = ⊥
    IsPlain Property.null = Unit
    IsPlain (Property.float x) = ⊥
    IsPlain (Property.integer z) = InInt64 z
    IsPlain (Property.boolean b) = Unit
    IsPlain (Property.string s) = IsPlainText s
    IsPlain (Property.array Array.nil) = ⊥
    IsPlain (Property.array (Array.cons v rest)) = IsPlain v × ArePlain rest
    IsPlain (Property.object entries) = EntriesPlain entries

    pub ArePlain : Array F → Type 0
    ArePlain Array.nil = Unit
    ArePlain (Array.cons v rest) = IsPlain v × ArePlain rest

    pub EntriesPlain : Object F → Type 0
    EntriesPlain Object.leaf = Unit
    EntriesPlain (Object.entry key v rest) =
        ((is_empty key ≡ false) × IsPlainText key) × IsPlain v × Above key rest × EntriesPlain rest

  -- Whether there is a false anywhere in the value.
  unfoldable mutual
    pub has_false : Property F → Bool
    has_false (Property.boolean b) = not b
    has_false (Property.array items) = items_false items
    has_false (Property.object entries) = entries_false entries
    has_false value = false

    pub items_false : Array F → Bool
    items_false Array.nil = false
    items_false (Array.cons v rest) = has_false v || items_false rest

    pub entries_false : Object F → Bool
    entries_false Object.leaf = false
    entries_false (Object.entry key v rest) = has_false v || entries_false rest

-- What is parsed from the text of a value, by whether there is a false in it.
abbrev pub outcome {ℓ} : {A : Type ℓ} → Bool → A → Result A
outcome true a = err Error.json_literal_long
outcome false a = ok a

pub outcome->>= {ℓ κ} :
    {A : Type ℓ} {B : Type κ} (b c : Bool) (a : A) (f : A → Result B) (y : B)
    → f a ≡ outcome c y
    → (outcome b a >>= f) ≡ outcome (b || c) y
outcome->>= true c a f y h = refl
outcome->>= false c a f y h = h

pub outcome-ok {ℓ κ} :
    {A : Type ℓ} {B : Type κ} (b : Bool) (a : A) (f : A → B)
    → (outcome b a >>= λ x. ok (f x)) ≡ outcome b (f a)
outcome-ok true a f = refl
outcome-ok false a f = refl

comma_assoc : (xs ys zs : Bytes) → ((xs ++ b',' ∷ []) ++ ys) ++ zs ≡ xs ++ (b',' ∷ ys ++ zs)
comma_assoc [] ys zs = refl
comma_assoc (x ∷ xs) ys zs = ap (◌∷◌ x) (comma_assoc xs ys zs)

module _ {F : Type 0} (float_text : F → Bytes) where
  -- The text behind the first item, and behind the first entry.
  abbrev pub later_items : Array F → Bytes
  later_items Array.nil = []
  later_items (Array.cons v rest) = b',' ∷ stringify float_text v ++ later_items rest

  abbrev pub entry_text : Bytes → Property F → Bytes
  entry_text key v = b'"' ∷ key ++ (b'"' ∷ b':' ∷ stringify float_text v)

  abbrev pub later_entries : Object F → Bytes
  later_entries Object.leaf = []
  later_entries (Object.entry key v rest) = b',' ∷ entry_text key v ++ later_entries rest

  stringify_items_more :
      (x : ℕ) (buff : Bytes) (rest : Array F)
      → stringify_items float_text (x ∷ buff) rest ≡ x ∷ buff ++ later_items rest
  unfolding stringify
  stringify_items_more x buff Array.nil = ap (◌∷◌ x) (sym (append-nil buff))
  stringify_items_more x buff (Array.cons v rest) =
      stringify_items_more x ((buff ++ b',' ∷ []) ++ stringify float_text v) rest
      ∙ ap (◌∷◌ x) (comma_assoc buff (stringify float_text v) (later_items rest))

  stringify_entries_more :
      (x : ℕ) (buff : Bytes) (rest : Object F)
      → stringify_entries float_text (x ∷ buff) rest ≡ x ∷ buff ++ later_entries rest
  unfolding stringify
  stringify_entries_more x buff Object.leaf = ap (◌∷◌ x) (sym (append-nil buff))
  stringify_entries_more x buff (Object.entry key v rest) =
      stringify_entries_more x ((buff ++ b',' ∷ []) ++ entry_text key v) rest
      ∙ ap (◌∷◌ x) (comma_assoc buff (entry_text key v) (later_entries rest))

  -- A plain value is printed as a text that is not empty.
  pub stringify-head :
      (v : Property F) → IsPlain v → (c : ℕ) × (cs : Bytes) × (stringify float_text v ≡ c ∷ cs)
  unfolding IsPlain stringify integer_text to_decimal
  stringify-head Property.undefined h = absurd h
  stringify-head Property.null h = (b'n', codes "ull", refl)
  stringify-head (Property.float x) h = absurd h
  stringify-head (Property.integer (pos n)) h = digits_head n n
  stringify-head (Property.integer (negsuc n)) h = (b'-', to_decimal (suc n), refl)
  stringify-head (Property.boolean true) h = (b't', codes "rue", refl)
  stringify-head (Property.boolean false) h = (b'f', codes "alse", refl)
  stringify-head (Property.string s) h = (b'"', escape_text s ++ b'"' ∷ [], refl)
  stringify-head (Property.array items) h =
      (b'[', stringify_items float_text [] items ++ b']' ∷ [], refl)
  stringify-head (Property.object entries) h =
      (b'{', stringify_entries float_text [] entries ++ b'}' ∷ [], refl)

  pub stringify_array_lem :
      (v : Property F) (rest : Array F)
      → IsPlain v
      → stringify float_text (Property.array (Array.cons v rest))
        ≡ b'[' ∷ (stringify float_text v ++ later_items rest) ++ b']' ∷ []
  unfolding stringify
  stringify_array_lem v rest h =
      let (c, cs, e) = stringify-head v h in rw (e, stringify_items_more c cs rest)

  pub stringify_object_lem :
      (key : Bytes) (v : Property F) (rest : Object F)
      → stringify float_text (Property.object (Object.entry key v rest))
        ≡ b'{' ∷ (entry_text key v ++ later_entries rest) ++ b'}' ∷ []
  unfolding stringify
  stringify_object_lem key v rest =
      rw (stringify_entries_more b'"' (key ++ (b'"' ∷ b':' ∷ stringify float_text v)) rest)
