-- ===== src/Json/RoundTrip.antt =====
-- json/: a printed value is parsed to the same value.
use mathlib.Core.Path.{subst}
use lambda.Base.{
  ℕ, zero, suc, ◌+◌, ◌-◌, ◌^◌, ◌<◌, ◌≤◌, true, false, [], ◌∷◌, ◌++◌, append_assoc, append-nil, ◌≡◌,
  ◌∙◌, refl, sym, ap, arith, Bytes, ltb, drop-suc, drop, length, length-append, Result, ok, err,
  Error, ◌>>=◌, Bool, ◌↔◌,
}
use lambda.Json.Property.{Property, Array, Object}
use lambda.Json.Entries.{split_entries, no_scopes}
use lambda.Json.Stringify.{stringify}
use lambda.Json.Parse.{collect, unwrap_all, parse_range, parse, defined}
use lambda.Json.Plain.{
  IsPlain, ArePlain, EntriesPlain, has_false, items_false, entries_false, outcome, outcome->>=,
  outcome-ok, entry_text, stringify_array_lem, stringify_object_lem,
}
use lambda.Json.Clean.{IsClean, stringify-IsClean}
use lambda.Json.Walk.{drop-length}
use lambda.Json.Walk.Cuts.{split_entries_last, split_entries_next}
use lambda.Json.Brackets.{inside, parse_range-array, parse_range-object}
use lambda.Json.Ranges.{
  parse_range-escape_text, parse_range-integer_text, parse_range-null, parse_range-true,
  parse_range-false,
}
use lambda.Json.Order.{append_entries, append_entries_assoc, Precedes, Precedes-next}
use lambda.Json.Parts.{
  is_nil, is_leaf, items_text, entries_text, Walk-stringify, Walk-entry_text, unwrap_last,
  unwrap_empty,
}

module _ {F : Type 0} (float_text : F → Bytes) (stold : Bytes → Result F) (buf : Bytes)
    (clean : IsClean buf) where
  mutual
    unfolding IsPlain has_false stringify collect unwrap_all

    -- A printed value is parsed where it stands.
    range_value :
        (v : Property F) (fuel i : ℕ) (rest : Bytes)
        → IsPlain v
        → fuel < 2 ^ 64
        → length (stringify float_text v) ≤ fuel
        → drop i buf ≡ stringify float_text v ++ rest
        → parse_range stold (suc fuel) buf i (i + length (stringify float_text v))
          ≡ outcome (has_false v) v
    range_value Property.undefined fuel i rest h small le at = absurd h
    range_value Property.null fuel i rest h small le at =
        parse_range-null stold buf clean fuel i rest at
    range_value (Property.float x) fuel i rest h small le at = absurd h
    range_value (Property.integer z) fuel i rest h small le at =
        parse_range-integer_text stold buf clean z fuel i rest h at
    range_value (Property.boolean true) fuel i rest h small le at =
        parse_range-true stold buf clean fuel i rest at
    range_value (Property.boolean false) fuel i rest h small le at =
        parse_range-false stold buf clean fuel i rest at
    range_value (Property.string s) fuel i rest h small le at =
        parse_range-escape_text stold buf clean s fuel i rest h at
    range_value (Property.array Array.nil) fuel i rest h small le at = absurd h
    range_value (Property.array (Array.cons v more)) zero i rest h small le at =
        absurd (omega (arith, le))
    range_value (Property.array (Array.cons v more)) (suc fuel) i rest h small le at =
        let e = stringify_array_lem float_text v more h.0 in
        let body = items_text float_text (Array.cons v more) in
        let n = length-append body (b']' ∷ []) in
        let n2 = ap length e in
        let here : drop i buf ≡ (b'[' ∷ body ++ b']' ∷ []) ++ rest = at ∙ ap (λ t. t ++ rest) e in
        ap (λ t. parse_range stold (suc (suc fuel)) buf i (i + length t)) e
        ∙ parse_range-array stold buf (suc fuel) i body rest
            (outcome (items_false (Array.cons v more)) (Array.cons v more)) here
            (range_items (Array.cons v more) fuel (i + 1) (i + 1) (b']' ∷ rest) refl h
              (omega (arith, small)) (omega (arith, n, n2, le))
              (inside buf i b'[' b']' body rest here))
        ∙ outcome-ok (items_false (Array.cons v more)) (Array.cons v more) Property.array
    range_value (Property.object Object.leaf) zero i rest h small le at = absurd (omega (arith, le))
    range_value (Property.object Object.leaf) (suc fuel) i rest h small le at =
        parse_range-object stold buf (suc fuel) i [] rest (ok Object.leaf) at
          (unwrap_empty buf (parse_range stold (suc fuel) buf) (i + 1))
    range_value (Property.object (Object.entry key v more)) zero i rest h small le at =
        absurd (omega (arith, le))
    range_value (Property.object (Object.entry key v more)) (suc fuel) i rest h small le at =
        let e = stringify_object_lem float_text key v more in
        let body = entries_text float_text (Object.entry key v more) in
        let n = length-append body (b'}' ∷ []) in
        let n2 = ap length e in
        let here : drop i buf ≡ (b'{' ∷ body ++ b'}' ∷ []) ++ rest = at ∙ ap (λ t. t ++ rest) e in
        ap (λ t. parse_range stold (suc (suc fuel)) buf i (i + length t)) e
        ∙ parse_range-object stold buf (suc fuel) i body rest
            (outcome (entries_false (Object.entry key v more)) (Object.entry key v more)) here
            (range_entries (Object.entry key v more) Object.leaf fuel (i + 1) (i + 1) (b'}' ∷ rest)
              refl h tt (omega (arith, small)) (omega (arith, n, n2, le))
              (inside buf i b'{' b'}' body rest here))
        ∙ outcome-ok (entries_false (Object.entry key v more)) (Object.entry key v more)
            Property.object

    range_items :
        (xs : Array F) (fuel begin i : ℕ) (rest : Bytes)
        → is_nil xs ≡ false
        → ArePlain xs
        → fuel < 2 ^ 64
        → length (items_text float_text xs) ≤ fuel
        → drop i buf ≡ items_text float_text xs ++ rest
        → collect
            (parse_range stold (suc fuel) buf)
            (split_entries buf begin (length (items_text float_text xs)) i i no_scopes)
          ≡ outcome (items_false xs) xs
    range_items Array.nil fuel begin i rest some_ h small le at = absurd (cc)
    range_items (Array.cons v Array.nil) fuel begin i rest some_ h small le at =
        let text = stringify float_text v in
        let e = append-nil text in
        let here : drop i buf ≡ text ++ rest = at ∙ ap (λ t. t ++ rest) e in
        let le2 : length text ≤ fuel = subst (λ t. length t ≤ fuel) e le in
        let cut =
          split_entries_last buf begin text
            (Walk-stringify float_text buf clean begin v h.0 (omega (arith, le2, small))) i rest
            here in
        ap
          (λ t.
            collect (parse_range stold (suc fuel) buf)
              (split_entries buf begin (length t) i i no_scopes))
          e
        ∙ rw (cut, range_value v fuel i rest h.0 small le2 here)
            (outcome->>= (has_false v) false v _ (Array.cons v Array.nil) refl)
    range_items (Array.cons v (Array.cons w more)) fuel begin i rest some_ h small le at =
        let text = stringify float_text v in
        let behind = items_text float_text (Array.cons w more) in
        let n = length-append text (b',' ∷ behind) in
        let here = at ∙ append_assoc text (b',' ∷ behind) rest in
        let next =
          drop-suc buf (i + length text) b',' (behind ++ rest)
            (drop-length buf i text (b',' ∷ behind ++ rest) here) in
        let le2 : length text ≤ fuel = omega (arith, n, le) in
        let cut =
          split_entries_next buf begin text
            (Walk-stringify float_text buf clean begin v h.0 (omega (arith, le2, small))) i behind
            rest at in
        rw
          (
            cut,
            range_value v fuel i (b',' ∷ behind ++ rest) h.0 small le2 here,
            range_items (Array.cons w more) fuel begin (i + length text + 1) rest refl h.1 small
                (omega (arith, n, le)) next,
          )
          (outcome->>= (has_false v) (items_false (Array.cons w more)) v _
            (Array.cons v (Array.cons w more))
            (outcome-ok (items_false (Array.cons w more)) (Array.cons w more) (Array.cons v)))

    range_entries :
        (xs entries : Object F) (fuel begin i : ℕ) (rest : Bytes)
        → is_leaf xs ≡ false
        → EntriesPlain xs
        → Precedes entries xs
        → fuel < 2 ^ 64
        → length (entries_text float_text xs) ≤ fuel
        → drop i buf ≡ entries_text float_text xs ++ rest
        → unwrap_all
            (parse_range stold (suc fuel) buf)
            buf
            entries
            (split_entries buf begin (length (entries_text float_text xs)) i i no_scopes)
          ≡ outcome (entries_false xs) (append_entries entries xs)
    range_entries Object.leaf entries fuel begin i rest some_ h order small le at = absurd (cc)
    range_entries (Object.entry key v Object.leaf) entries fuel begin i rest some_ h order small le
          at =
        let text = entry_text float_text key v in
        let range = parse_range stold (suc fuel) buf in
        let e = append-nil text in
        let here : drop i buf ≡ text ++ rest = at ∙ ap (λ t. t ++ rest) e in
        let le2 : length text ≤ fuel = subst (λ t. length t ≤ fuel) e le in
        let n = length-append key (b'"' ∷ b':' ∷ stringify float_text v) in
        let cut =
          split_entries_last buf begin text
            (Walk-entry_text float_text buf clean begin key v h.0.1 h.1 (omega (arith, le2, small)))
            i rest here in
        let read =
          unwrap_last float_text buf clean range entries key v (has_false v) i rest h.0 h.1 order
            here (λ j there. range_value v fuel j rest h.1 small (omega (arith, n, le2)) there) in
        ap (λ t. unwrap_all range buf entries (split_entries buf begin (length t) i i no_scopes)) e
        ∙ rw (cut, read)
            (outcome->>= (has_false v) false
              (append_entries entries (Object.entry key v Object.leaf)) _
              (append_entries entries (Object.entry key v Object.leaf)) refl)
    range_entries (Object.entry key v (Object.entry j w more)) entries fuel begin i rest some_ h
          order small le at =
        let text = entry_text float_text key v in
        let behind = entries_text float_text (Object.entry j w more) in
        let range = parse_range stold (suc fuel) buf in
        let n = length-append text (b',' ∷ behind) in
        let n2 = length-append key (b'"' ∷ b':' ∷ stringify float_text v) in
        let here = at ∙ append_assoc text (b',' ∷ behind) rest in
        let next =
          drop-suc buf (i + length text) b',' (behind ++ rest)
            (drop-length buf i text (b',' ∷ behind ++ rest) here) in
        let le2 : length text ≤ fuel = omega (arith, n, le) in
        let cut =
          split_entries_next buf begin text
            (Walk-entry_text float_text buf clean begin key v h.0.1 h.1 (omega (arith, le2, small)))
            i behind rest at in
        let read =
          unwrap_last float_text buf clean range entries key v (has_false v) i
            (b',' ∷ behind ++ rest) h.0 h.1 order here
            (λ j there.
              range_value v fuel j (b',' ∷ behind ++ rest) h.1 small (omega (arith, n2, le2))
                there) in
        let one = Object.entry key v Object.leaf in
        let later = Object.entry j w more in
        let added = append_entries entries one in
        rw (cut, read)
          (outcome->>= (has_false v) (entries_false later) added _
            (append_entries entries (Object.entry key v later))
            (range_entries (Object.entry j w more) added fuel begin (i + length text + 1) rest refl
                h.3 (Precedes-next entries key v later order h.2) small (omega (arith, n, le)) next
              ∙ ap (outcome (entries_false later)) (append_entries_assoc entries one later)))

defined-IsPlain : {F : Type 0} (v : Property F) → IsPlain v → defined v ≡ ok v
unfolding IsPlain
defined-IsPlain Property.undefined h = absurd h
defined-IsPlain Property.null h = refl
defined-IsPlain (Property.float x) h = refl
defined-IsPlain (Property.integer z) h = refl
defined-IsPlain (Property.boolean b) h = refl
defined-IsPlain (Property.string s) h = refl
defined-IsPlain (Property.array a) h = refl
defined-IsPlain (Property.object o) h = refl

outcome_err :
    {F : Type 0} (b : Bool) (v : Property F) → outcome b v ≡ err Error.json_literal_long → b ≡ true
outcome_err true v e = refl
outcome_err false v e = absurd (cc)

outcome-defined :
    {F : Type 0} (b : Bool) (v : Property F) → IsPlain v → (outcome b v >>= defined) ≡ outcome b v
outcome-defined true v h = refl
outcome-defined false v h = defined-IsPlain v h

module _ {F : Type 0} (float_text : F → Bytes) (stold : Bytes → Result F) (v : Property F)
    (h : IsPlain v) (lt : length (stringify float_text v) < 2 ^ 32) where
  parse-outcome : parse stold (stringify float_text v) ≡ outcome (has_false v) v
  unfolding parse
  parse-outcome =
      let text = stringify float_text v in
      let n = length text in
      let at : drop 0 text ≡ text ++ [] = sym (append-nil text) in
      let fits : ltb (2 ^ 32 - 1) n ≡ false = ground (arith, lt) in
      let read =
        range_value float_text stold text (stringify-IsClean float_text v h) v n 0 [] h
          (omega (arith, lt)) (omega arith) at in
      let z : 0 + n ≡ n = omega arith in
      let whole = rw z at read in rw (parse, fits, whole) (outcome-defined (has_false v) v h)

  -- Parsing a printed value gives the value, for every value that has no floats, no false, no empty
  -- arrays and no undefined parts, whose integers are of 64 bits, whose strings and keys have no
  -- quote, backslash, escape character, dot or bracket, whose keys are not empty and in order, and
  -- whose text is shorter than 2^32. What reads and prints floats can be anything.
  pub parse-stringify : has_false v ≡ false → parse stold (stringify float_text v) ≡ ok v
  parse-stringify none_false = parse-outcome ∙ ap (λ b. outcome b v) none_false

  -- A printed value is refused for a literal of more than four runes exactly if there is a false
  -- anywhere in it. The value has no floats, no empty arrays and no undefined parts, its integers are of
  -- 64 bits, its strings and keys have no quote, backslash, escape character, dot or bracket, its keys
  -- are not empty and in order, and its text is shorter than 2^32.
  pub parse-stringify_false_iff :
      (parse stold (stringify float_text v) ≡ err Error.json_literal_long) ↔ (has_false v ≡ true)
  parse-stringify_false_iff = (
    λ e. outcome_err (has_false v) v (sym parse-outcome ∙ e),
    λ some_false. parse-outcome ∙ ap (λ b. outcome b v) some_false,
  )
