-- ===== src/Json/Walk/Values.antt =====
-- json/: a printed value is passed as a whole by the loop of get_object_entries.
use mathlib.Core.Path.{subst}
use lambda.Base.{
  ℕ, suc, ◌+◌, ◌^◌, ◌<◌, true, false, [], ◌∷◌, ◌++◌, append_assoc, ◌≡◌, inr, refl, sym, ap, arith,
  Bytes, codes, length, length-append,
}
use lambda.Base.Integers.{ℤ, pos, negsuc, integer_text}
use lambda.Base.Decimal.{to_decimal}
use lambda.Base.Decimal.RoundTrip.{to_decimal-AreDigits}
use lambda.Json.Property.{Property, Array, Object}
use lambda.Json.Strings.{escape_text}
use lambda.Json.Stringify.{stringify}
use lambda.Json.Entries.{outside}
use lambda.Json.Plain.{
  IsPlainText, IsPlain, ArePlain, EntriesPlain, later_items, later_entries, entry_text,
  stringify_array_lem, stringify_object_lem,
}
use lambda.Json.Clean.{IsClean}
use lambda.Json.Walk.{
  scopes, Walk, Walk-append, Walk-nil, Walk-quiet, Walk-string, Walk-array, Walk-object, Walk-comma,
  plain-IsQuiet, escape_text-IsQuiet, digits-IsQuiet,
}

module _ {F : Type 0} (float_text : F → Bytes) (buf : Bytes) (begin : ℕ) (clean : IsClean buf) where
  Walk-integer :
      (z : ℤ) (o a : ℕ) → Walk buf begin (integer_text z) (scopes o a false) (scopes o a false)
  unfolding integer_text
  Walk-integer (pos n) o a =
      let (q, no_comma) = digits-IsQuiet (to_decimal n) (to_decimal-AreDigits n) in
      Walk-quiet buf begin (to_decimal n) (scopes o a false) q (inr no_comma)
  Walk-integer (negsuc n) o a =
      let (q, no_comma) = digits-IsQuiet (to_decimal (suc n)) (to_decimal-AreDigits (suc n)) in
      Walk-quiet buf begin (b'-' ∷ to_decimal (suc n)) (scopes o a false) (refl, q)
        (inr (refl, no_comma))

  pub Walk-entry :
      (key : Bytes) (v : Property F) (o a : ℕ)
      → IsPlainText key
      → Walk buf begin (stringify float_text v) (scopes o a false) (scopes o a false)
      → Walk buf begin (entry_text float_text key v) (scopes o a false) (scopes o a false)
  Walk-entry key v o a h inner =
      let s = scopes o a false in
      let e : entry_text float_text key v
          ≡ (b'"' ∷ key ++ b'"' ∷ []) ++ (b':' ∷ stringify float_text v) =
        ap (◌∷◌ b'"') (sym (append_assoc key (b'"' ∷ []) (b':' ∷ stringify float_text v))) in
      subst (λ t. Walk buf begin t s s) (sym e)
        (Walk-append buf begin (b'"' ∷ key ++ b'"' ∷ []) (b':' ∷ stringify float_text v) s s s
          (Walk-string buf begin clean key o a (plain-IsQuiet key h))
          (Walk-append buf begin (b':' ∷ []) (stringify float_text v) s s s
            (Walk-quiet buf begin (b':' ∷ []) s (refl, tt) (inr (refl, tt))) inner))

  mutual
    unfolding IsPlain stringify

    -- A value in a text is passed as a whole, at any depth that the counters can hold.
    pub Walk-value :
        (v : Property F) (o a : ℕ)
        → IsPlain v
        → o + length (stringify float_text v) < 2 ^ 64
        → a + length (stringify float_text v) < 2 ^ 64
        → Walk buf begin (stringify float_text v) (scopes o a false) (scopes o a false)
    Walk-value Property.undefined o a h lt lt2 = absurd h
    Walk-value Property.null o a h lt lt2 =
        Walk-quiet buf begin (codes "null") (scopes o a false) (refl, (refl, (refl, (refl, tt))))
          (inr (refl, (refl, (refl, (refl, tt)))))
    Walk-value (Property.float x) o a h lt lt2 = absurd h
    Walk-value (Property.integer z) o a h lt lt2 = Walk-integer z o a
    Walk-value (Property.boolean true) o a h lt lt2 =
        Walk-quiet buf begin (codes "true") (scopes o a false) (refl, (refl, (refl, (refl, tt))))
          (inr (refl, (refl, (refl, (refl, tt)))))
    Walk-value (Property.boolean false) o a h lt lt2 =
        Walk-quiet buf begin (codes "false") (scopes o a false)
          (refl, (refl, (refl, (refl, (refl, tt)))))
          (inr (refl, (refl, (refl, (refl, (refl, tt))))))
    Walk-value (Property.string s) o a h lt lt2 =
        Walk-string buf begin clean (escape_text s) o a (escape_text-IsQuiet s h)
    Walk-value (Property.array Array.nil) o a h lt lt2 = absurd h
    Walk-value (Property.array (Array.cons v rest)) o a h lt lt2 =
        let s = scopes o a false in
        let in_ = scopes o (a + 1) false in
        let text = stringify float_text v in
        let more = later_items float_text rest in
        let e = stringify_array_lem float_text v rest h.0 in
        let n = ap length e in
        let n2 = length-append (text ++ more) (b']' ∷ []) in
        let n3 = length-append text more in
        subst (λ t. Walk buf begin t s s) (sym e)
          (Walk-array buf begin (text ++ more) o a (omega (arith, n, n2, n3, lt2)) (
            Walk-append buf begin text more in_ in_ in_
              (Walk-value v o (a + 1) h.0 (omega (arith, n, n2, n3, lt))
                (omega (arith, n, n2, n3, lt2)))
              (Walk-items rest o (a + 1) h.1 (omega (arith, n, n2, n3, lt))
                (omega (arith, n, n2, n3, lt2)) (ground arith))))
    Walk-value (Property.object Object.leaf) o a h lt lt2 =
        Walk-object buf begin [] o a (omega (arith, lt))
          (Walk-nil buf begin (scopes (o + 1) a false))
    Walk-value (Property.object (Object.entry key v rest)) o a h lt lt2 =
        let s = scopes o a false in
        let in_ = scopes (o + 1) a false in
        let text = entry_text float_text key v in
        let more = later_entries float_text rest in
        let e = stringify_object_lem float_text key v rest in
        let n = ap length e in
        let n2 = length-append (text ++ more) (b'}' ∷ []) in
        let n3 = length-append text more in
        let n4 = length-append key (b'"' ∷ b':' ∷ stringify float_text v) in
        subst (λ t. Walk buf begin t s s) (sym e)
          (Walk-object buf begin (text ++ more) o a (omega (arith, n, n2, n3, lt)) (
            Walk-append buf begin text more in_ in_ in_
              (Walk-entry key v (o + 1) a h.0.1 (
                Walk-value v (o + 1) a h.1 (omega (arith, n, n2, n3, n4, lt))
                  (omega (arith, n, n2, n3, n4, lt2))))
              (Walk-entries rest (o + 1) a h.3 (omega (arith, n, n2, n3, lt))
                (omega (arith, n, n2, n3, lt2)) (ground arith))))

    Walk-items :
        (xs : Array F) (o a : ℕ)
        → ArePlain xs
        → o + length (later_items float_text xs) < 2 ^ 64
        → a + length (later_items float_text xs) < 2 ^ 64
        → outside (scopes o a false) ≡ false
        → Walk buf begin (later_items float_text xs) (scopes o a false) (scopes o a false)
    Walk-items Array.nil o a h lt lt2 deep = Walk-nil buf begin (scopes o a false)
    Walk-items (Array.cons v rest) o a h lt lt2 deep =
        let s = scopes o a false in
        let text = stringify float_text v in
        let more = later_items float_text rest in
        let n = length-append text more in
        Walk-comma buf begin (text ++ more) s deep (
          Walk-append buf begin text more s s s
            (Walk-value v o a h.0 (omega (arith, n, lt)) (omega (arith, n, lt2)))
            (Walk-items rest o a h.1 (omega (arith, n, lt)) (omega (arith, n, lt2)) deep))

    Walk-entries :
        (xs : Object F) (o a : ℕ)
        → EntriesPlain xs
        → o + length (later_entries float_text xs) < 2 ^ 64
        → a + length (later_entries float_text xs) < 2 ^ 64
        → outside (scopes o a false) ≡ false
        → Walk buf begin (later_entries float_text xs) (scopes o a false) (scopes o a false)
    Walk-entries Object.leaf o a h lt lt2 deep = Walk-nil buf begin (scopes o a false)
    Walk-entries (Object.entry key v rest) o a h lt lt2 deep =
        let s = scopes o a false in
        let text = entry_text float_text key v in
        let more = later_entries float_text rest in
        let n = length-append text more in
        let n4 = length-append key (b'"' ∷ b':' ∷ stringify float_text v) in
        Walk-comma buf begin (text ++ more) s deep (
          Walk-append buf begin text more s s s
            (Walk-entry key v o a h.0.1
              (Walk-value v o a h.1 (omega (arith, n, n4, lt)) (omega (arith, n, n4, lt2))))
            (Walk-entries rest o a h.3 (omega (arith, n, lt)) (omega (arith, n, lt2)) deep))
