-- ===== src/Http/Method.antt =====
-- http/method.cpp and the enum `Method` of http/http.hpp. The table is a constant `std::map`; its
-- lookup is the first entry with an equal name.
pub mod Laws
use lambda.Base.{
  Bool, true, false, ◌||◌, List, [], ◌∷◌, Option, none, some, Bytes, codes, equal, if◌then◌else◌,
}
use lambda.Dict.{Dict, find}

pub data Method : Type 0 where
  get post put patch del head options trace connect : Method

unfoldable pub method_to_string : Method → Bytes
method_to_string Method.get = codes "GET"
method_to_string Method.post = codes "POST"
method_to_string Method.put = codes "PUT"
method_to_string Method.patch = codes "PATCH"
method_to_string Method.del = codes "DELETE"
method_to_string Method.head = codes "HEAD"
method_to_string Method.options = codes "OPTIONS"
method_to_string Method.trace = codes "TRACE"
method_to_string Method.connect = codes "CONNECT"

unfoldable pub table_method : Dict Method
table_method =
    (codes "GET", Method.get)
    ∷ (codes "POST", Method.post)
    ∷ (codes "PUT", Method.put)
    ∷ (codes "PATCH", Method.patch)
    ∷ (codes "DELETE", Method.del)
    ∷ (codes "HEAD", Method.head)
    ∷ (codes "OPTIONS", Method.options)
    ∷ (codes "TRACE", Method.trace)
    ∷ (codes "CONNECT", Method.connect)
    ∷ []

unfoldable pub string_to_method : Bytes → Option Method
unfolding table_method find equal
string_to_method name = find name table_method

unfoldable pub method_can_have_body : Method → Bool
method_can_have_body Method.post = true
method_can_have_body Method.put = true
method_can_have_body Method.patch = true
method_can_have_body Method.connect = true
method_can_have_body _ = false
