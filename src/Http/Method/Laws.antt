-- ===== src/Http/Method/Laws.antt =====
-- Names and values of the enum correspond.
use lambda.Base.{◌≡◌, ◌↔◌, refl, arith, some, Bytes, equal_iff, codes}
use lambda.Dict.{find}
use lambda.Http.Method.{Method, method_to_string, table_method, string_to_method}

string_to_method-to_string : (m : Method) → string_to_method (method_to_string m) ≡ some m
unfolding string_to_method method_to_string
string_to_method-to_string Method.get = refl
string_to_method-to_string _ = refl

to_string-string_to_method :
    (name : Bytes) (m : Method) → string_to_method name ≡ some m → name ≡ method_to_string m
unfolding table_method find string_to_method method_to_string
to_string-string_to_method name m h = ground (
  arith,
  equal_iff name (codes "GET"),
  equal_iff name (codes "POST"),
  equal_iff name (codes "PUT"),
  equal_iff name (codes "PATCH"),
  equal_iff name (codes "DELETE"),
  equal_iff name (codes "HEAD"),
  equal_iff name (codes "OPTIONS"),
  equal_iff name (codes "TRACE"),
  equal_iff name (codes "CONNECT"),
)

-- A name is read as a method exactly when it is the name that the method is written with.
pub string_to_method_iff :
    (name : Bytes) (m : Method) → (string_to_method name ≡ some m) ↔ (name ≡ method_to_string m)
string_to_method_iff name m =
    (to_string-string_to_method name m, λ h. rw h (string_to_method-to_string m))
