-- ===== src/Json/Parts.antt =====
-- json/: the parts of arrays and objects in a text, one by one.
use lambda.Base.{
  ℕ, ◌+◌, ◌-◌, ◌^◌, ◌<◌, Bool, true, false, [], ◌∷◌, ◌++◌, ◌≡◌, ◌∙◌, refl, ap, arith, Bytes, drop,
  length, length-append, Result, ok, is_empty,
}
use lambda.Json.Property.{Property, Array, Object, put_entry}
use lambda.Json.Entries.{split_entries, find_member, no_scopes}
use lambda.Json.Stringify.{stringify}
use lambda.Json.Parse.{unwrap, unwrap_all}
use lambda.Json.Plain.{
  IsPlain, IsPlainText, later_items, later_entries, entry_text, stringify-head, outcome, outcome-ok,
}
use lambda.Json.Clean.{IsClean}
use lambda.Json.Walk.{Walk}
use lambda.Json.Walk.Values.{Walk-value, Walk-entry}
use lambda.Json.Ranges.{}
use lambda.Json.Order.{append_entries, put_entry_last, Precedes}
use lambda.Json.Members.{unwrap-entry_text}

module _ {F : Type 0} where
  abbrev pub is_nil : Array F → Bool
  is_nil Array.nil = true
  is_nil (Array.cons v rest) = false

  abbrev pub is_leaf : Object F → Bool
  is_leaf Object.leaf = true
  is_leaf (Object.entry key v rest) = false

module _ {F : Type 0} (float_text : F → Bytes) where
  abbrev pub items_text : Array F → Bytes
  items_text Array.nil = []
  items_text (Array.cons v rest) = stringify float_text v ++ later_items float_text rest

  abbrev pub entries_text : Object F → Bytes
  entries_text Object.leaf = []
  entries_text (Object.entry key v rest) =
      entry_text float_text key v ++ later_entries float_text rest

module _ {F : Type 0} (float_text : F → Bytes) (buf : Bytes) (clean : IsClean buf) where
  pub Walk-stringify :
      (begin : ℕ) (v : Property F)
      → IsPlain v
      → length (stringify float_text v) < 2 ^ 64
      → Walk buf begin (stringify float_text v) no_scopes no_scopes
  Walk-stringify begin v h lt =
      Walk-value float_text buf begin clean v 0 0 h (omega (arith, lt)) (omega (arith, lt))

  pub Walk-entry_text :
      (begin : ℕ) (key : Bytes) (v : Property F)
      → IsPlainText key
      → IsPlain v
      → length (entry_text float_text key v) < 2 ^ 64
      → Walk buf begin (entry_text float_text key v) no_scopes no_scopes
  Walk-entry_text begin key v k h lt =
      let n = length-append key (b'"' ∷ b':' ∷ stringify float_text v) in
      Walk-entry float_text buf begin clean key v 0 0 k
        (Walk-stringify begin v h (omega (arith, n, lt)))

  -- An entry whose key is above the others is added at the end.
  pub unwrap_last :
      (range : ℕ → ℕ → Result (Property F)) (entries : Object F) (key : Bytes) (v : Property F)
      (b : Bool) (i : ℕ) (rest : Bytes)
      → (is_empty key ≡ false) × IsPlainText key
      → IsPlain v
      → Precedes entries (Object.entry key v Object.leaf)
      → drop i buf ≡ entry_text float_text key v ++ rest
      → ((j : ℕ)
          → drop j buf ≡ stringify float_text v ++ rest
          → range j (j + length (stringify float_text v)) ≡ outcome b v)
      → unwrap range buf entries i (i + length (entry_text float_text key v))
        ≡ outcome b (append_entries entries (Object.entry key v Object.leaf))
  unwrap_last range entries key v b i rest k h order at value =
      let (c, cs, e) = stringify-head float_text v h in
      let n = ap length e in
      unwrap-entry_text float_text buf clean range entries key v (outcome b v) i rest k.0 k.1 at
        (omega (arith, n)) value
      ∙ outcome-ok b v (λ value. put_entry key value entries)
      ∙ ap (outcome b) (put_entry_last key v entries order)

-- The one part of an empty object has no key.
pub unwrap_empty :
    {F : Type 0} (buf : Bytes) (range : ℕ → ℕ → Result (Property F)) (begin : ℕ)
    → unwrap_all range buf Object.leaf (split_entries buf begin 0 begin begin no_scopes)
      ≡ ok Object.leaf
unfolding unwrap_all split_entries unwrap find_member
unwrap_empty buf range begin =
    let z : begin - begin ≡ 0 = omega arith in rw (split_entries, unwrap_all, unwrap, z) refl
