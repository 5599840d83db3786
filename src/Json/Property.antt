-- ===== src/Json/Property.antt =====
-- json/json.hpp: the class Property with its type and its accessors. The `long double` is a
-- parameter of the model.
use lambda.Base.{Bool, Bytes, equal, if◌then◌else◌, Result, ok, err, Error}
use lambda.Base.Integers.{ℤ}
use lambda.Dict.{less}

pub data PropertyType : Type 0 where
  undefined null string boolean integer float array object : PropertyType

-- An Array is a vector of properties, an Object a map, here the list of its entries in order.
module _ (F : Type 0) where
  mutual
    pub data Property : Type 0 where
      undefined null : Property
      float : F → Property
      integer : ℤ → Property
      boolean : Bool → Property
      string : Bytes → Property
      array : Array → Property
      object : Object → Property

    pub data Array : Type 0 where
      nil : Array
      cons : Property → Array → Array

    pub data Object : Type 0 where
      leaf : Object
      entry : Bytes → Property → Object → Object

module _ {F : Type 0} where
  abbrev pub type_of : Property F → PropertyType
  type_of Property.undefined = PropertyType.undefined
  type_of Property.null = PropertyType.null
  type_of (Property.float x) = PropertyType.float
  type_of (Property.integer z) = PropertyType.integer
  type_of (Property.boolean b) = PropertyType.boolean
  type_of (Property.string s) = PropertyType.string
  type_of (Property.array a) = PropertyType.array
  type_of (Property.object o) = PropertyType.object

  unfoldable pub as_float : Property F → Result F
  as_float (Property.float x) = ok x
  as_float _ = err Error.json_type

  unfoldable pub as_int : Property F → Result ℤ
  as_int (Property.integer z) = ok z
  as_int _ = err Error.json_type

  unfoldable pub as_bool : Property F → Result Bool
  as_bool (Property.boolean b) = ok b
  as_bool _ = err Error.json_type

  unfoldable pub as_string : Property F → Result Bytes
  as_string (Property.string s) = ok s
  as_string _ = err Error.json_type

  unfoldable pub as_array : Property F → Result (Array F)
  as_array (Property.array a) = ok a
  as_array _ = err Error.json_type

  unfoldable pub as_map : Property F → Result (Object F)
  as_map (Property.object o) = ok o
  as_map _ = err Error.json_type

  -- `entries[key] = value`
  unfoldable pub put_entry : Bytes → Property F → Object F → Object F
  put_entry key value Object.leaf = Object.entry key value Object.leaf
  put_entry key value (Object.entry k v rest) =
      let later = put_entry key value rest in
      if equal key k
      then Object.entry key value rest
      else if less key k
      then Object.entry key value (Object.entry k v rest)
      else Object.entry k v later
