-- ===== src/Tests/Values.antt =====
-- JSON values as a tree: values of the interfaces by which the model writes and reads JSON.
use protected_chat.Prelude.{
  ℕ, Bool, true, false, Option, none, some, List, [], ◌∷◌, String, Bytes, codes, map, length, ◌+◌,
  ◌≡◌, refl, ap, arith, All, inl, inr, if◌then◌else◌,
}
use protected_chat.Prelude.Int.{ℤ, pos}
use protected_chat.Json.{Json}
use protected_chat.Json.Writer.{Writer, lookup}
use protected_chat.Json.Wire.{Wire, NameOf, option_map}
use text.Mathlib.Text.{◌==◌ as string_eq}

-- An array and an object are chains that end with an empty one.
pub data Value : Type 0 where
  str : Bytes → Value
  integer : ℤ → Value
  boolean : Bool → Value
  empty_array empty_object : Value
  element : Value → Value → Value
  member : String → Value → Value → Value

abbrev array : List Value → Value
array [] = empty_array
array (v ∷ vs) = element v (array vs)

abbrev object : List (String × Value) → Value
object [] = empty_object
object ((name, v) ∷ fields) = member name v (object fields)

abbrev size : Value → ℕ
size (str s) = length s + 2
size (integer z) = 20
size (boolean b) = 5
size empty_array = 2
size empty_object = 2
size (element v rest) = size v + size rest + 1
size (member name v rest) = size v + size rest + length (codes name) + 4

abbrev pub writer : Writer
writer = record {
  Value = Value;
  object = object;
  array = array;
  text = str;
  integer = integer;
  boolean = boolean;
  dump_size = λ v. some (size v);
}

abbrev find : Value → String → Option Value
find (member other v rest) name =
    let later = find rest name in if string_eq other name then some v else later
find v name = none

abbrev keys : Value → List Bytes
keys (member name v rest) = codes name ∷ keys rest
keys v = []

abbrev elements : Value → List Value
elements (element v rest) = v ∷ elements rest
elements v = []

abbrev is_object : Value → Bool
is_object (member name v rest) = true
is_object empty_object = true
is_object v = false

abbrev is_array : Value → Bool
is_array (element v rest) = true
is_array empty_array = true
is_array v = false

abbrev is_string : Value → Bool
is_string (str s) = true
is_string v = false

abbrev is_boolean : Value → Bool
is_boolean (boolean b) = true
is_boolean v = false

abbrev is_integer : Value → Bool
is_integer (integer z) = true
is_integer v = false

abbrev is_unsigned : Value → Bool
is_unsigned (integer (pos n)) = true
is_unsigned v = false

abbrev get_boolean : Value → Bool
get_boolean (boolean b) = b
get_boolean v = false

abbrev get_string : Value → Bytes
get_string (str s) = s
get_string v = []

abbrev get_uint64 : Value → ℕ
get_uint64 (integer (pos n)) = n
get_uint64 v = 0

abbrev get_int64 : Value → ℤ
get_int64 (integer z) = z
get_int64 v = pos 0

abbrev pub reader : Json
reader = record {
  Value = Value;
  find = find;
  keys = keys;
  elements = elements;
  is_object = is_object;
  is_array = is_array;
  is_string = is_string;
  is_boolean = is_boolean;
  is_number_integer = is_integer;
  is_number_unsigned = is_unsigned;
  get_boolean = get_boolean;
  get_string = get_string;
  get_uint64 = get_uint64;
  get_int64 = get_int64;
}

pub object_is_object : (fields : List (String × Value)) → is_object (object fields) ≡ true
object_is_object [] = refl
object_is_object ((name, v) ∷ fields) = refl

pub object_find :
    (fields : List (String × Value)) (name : String)
    → find (object fields) name ≡ option_map (λ v. v) (lookup name fields)
object_find [] name = refl
object_find ((other, v) ∷ fields) name = ground (arith, object_find fields name)

NameOf-later :
    (name : String) (v : Value) (fields : List (String × Value)) (ks : List Bytes)
    → All (NameOf fields) ks
    → All (NameOf ((name, v) ∷ fields)) ks
NameOf-later name v fields [] h = tt
NameOf-later name v fields (k ∷ ks) h = (inr h.0, NameOf-later name v fields ks h.1)

pub object_keys : (fields : List (String × Value)) → All (NameOf fields) (keys (object fields))
object_keys [] = tt
object_keys ((name, v) ∷ fields) =
    (inl refl, NameOf-later name v fields (keys (object fields)) (object_keys fields))

pub array_is_array : (vs : List Value) → is_array (array vs) ≡ true
array_is_array [] = refl
array_is_array (v ∷ vs) = refl

pub array_elements : (vs : List Value) → elements (array vs) ≡ map (λ v. v) vs
array_elements [] = refl
array_elements (v ∷ vs) = ap (◌∷◌ v) (array_elements vs)

abbrev pub wire : Wire writer reader
wire = record {
  parsed = λ v. v;
  object_is_object = object_is_object;
  object_find = object_find;
  object_keys = object_keys;
  array_is_array = array_is_array;
  array_elements = array_elements;
  text_is_string = λ s. refl;
  text_get_string = λ s. refl;
  boolean_is_boolean = λ b. refl;
  boolean_get_boolean = λ b. refl;
  natural_is_unsigned = λ n. refl;
  natural_get_uint64 = λ n. refl;
}
