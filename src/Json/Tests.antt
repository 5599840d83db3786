-- ===== src/Json/Tests.antt =====
-- json/ at concrete inputs. The floats are their texts.
use lambda.Base.{
  true, false, [], ◌≡◌, ◌↔◌, refl, ap, arith, Bytes, codes, length, Result, ok, err, Error,
}
use lambda.Base.Integers.{negsuc, integer_text}
use lambda.Json.Property.{Property, Array, Object}
use lambda.Json.Stringify.{stringify}
use lambda.Json.Parse.{parse, parse_range, parse_literal, parse_array}
use lambda.Json.Entries.{get_object_entries, is_valid_escaped_quote}
use lambda.Json.Strings.{parse_string}
use lambda.Http.Trim.{is_space}
use lambda.Base.Decimal.{to_decimal}
use lambda.Dict.{less}
use lambda.Json.Plain.{IsPlain, has_false}
use lambda.Json.Ends.{spent, parse_range-ends}
use lambda.Json.RoundTrip.{parse-stringify, parse-stringify_false_iff}

abbrev text_of : Bytes → Bytes
text_of x = x

abbrev float_of : Bytes → Result Bytes
float_of text = ok text

abbrev values : Array Bytes
values =
    Array.cons (Property.integer (negsuc 6))
      (Array.cons (Property.string (codes "x y\nz")) (Array.cons Property.null Array.nil))

abbrev settings : Property Bytes
settings = Property.object (
    Object.entry (codes "a") (Property.array values) (
      Object.entry (codes "b") (Property.object Object.leaf)
        (Object.entry (codes "on") (Property.boolean true) Object.leaf)))

settings_text :
    stringify text_of settings ≡ codes "{\"a\":[-7,\"x y\\\\nz\",null],\"b\":{},\"on\":true}"
unfolding stringify integer_text to_decimal
settings_text = refl

settings-IsPlain : IsPlain settings
unfolding IsPlain less
settings-IsPlain = (
  (refl, (refl, tt)),
  (omega arith, ((refl, (refl, (refl, (refl, (refl, tt))))), (tt, tt))),
  (refl, (refl, tt)),
  ((refl, (refl, tt)), tt, (refl, tt), ((refl, (refl, (refl, tt))), tt, tt, tt)),
)

parse-stringify_example : parse float_of (stringify text_of settings) ≡ ok settings
unfolding has_false
parse-stringify_example =
    parse-stringify text_of float_of settings settings-IsPlain
      (omega (arith, ap length settings_text)) refl

abbrev turned_off : Property Bytes
turned_off = Property.array (
    Array.cons (Property.string (codes "on")) (
      Array.cons (Property.object (Object.entry (codes "x") (Property.boolean false) Object.leaf))
        Array.nil))

turned_off-IsPlain : IsPlain turned_off
unfolding IsPlain
turned_off-IsPlain = ((refl, (refl, tt)), (((refl, (refl, tt)), tt, tt, tt), tt))

turned_off_text : stringify text_of turned_off ≡ codes "[\"on\",{\"x\":false}]"
unfolding stringify
turned_off_text = refl

parse-stringify_false_iff_example :
    (parse float_of (stringify text_of turned_off) ≡ err Error.json_literal_long)
    ↔ (has_false turned_off ≡ true)
parse-stringify_false_iff_example =
    parse-stringify_false_iff text_of float_of turned_off turned_off-IsPlain
      (omega (arith, ap length turned_off_text))

parse_range-ends_example : spent (parse_range float_of 9 (codes "[[],{}]") 0 7) ≡ false
parse_range-ends_example =
    parse_range-ends float_of (λ text. refl) 9 (codes "[[],{}]") 0 7 (omega arith)

-- What the parser makes of texts that are no plain values.
false_refused : parse float_of (codes "false") ≡ err Error.json_literal_long
unfolding parse is_space parse_literal
false_refused = refl

empty_array :
    parse float_of (codes "[]") ≡ ok (Property.array (Array.cons Property.undefined Array.nil))
unfolding parse is_space parse_array get_object_entries
empty_array = refl

single_quote : parse float_of (codes "\"") ≡ ok (Property.string [])
unfolding parse is_space parse_string
single_quote = refl

dot_before :
    parse float_of (codes "[\".\",1]")
    ≡ ok (
        Property.array (
          Array.cons
            (Property.string (codes "."))
            (Array.cons (Property.float (codes "1")) Array.nil)))
unfolding parse is_space parse_array get_object_entries parse_string
dot_before = refl

quote_refused :
    parse float_of (stringify text_of (Property.string (codes "a\"b")))
    ≡ err Error.json_quote_unescaped
unfolding parse stringify is_space parse_string is_valid_escaped_quote
quote_refused = refl

bracket_in_string : parse float_of (codes "[\"[\",1]") ≡ err Error.json_string_bounds
unfolding parse is_space parse_array get_object_entries parse_string
bracket_in_string = refl
