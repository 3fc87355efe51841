-- ===== src/Client/Fields.antt =====
-- The tests of fields that the validators of clientf/client_connection.cpp are made of: where the
-- source looks a field up and compares it, the test is one of these.
use protected_chat.Prelude.{
  Bool, none, [], not, ◌∷◌, some, true, Option, List, String, false, bytes_eq, codes, Bytes,
  if◌then◌else◌,
}
use protected_chat.Json.{Json, read_signed_integer, read_string, one_of}
use protected_chat.Prelude.Int.{ltb_ℤ, pos, ℤ, leb_ℤ}

abbrev is_text : Option Bytes → String → Bool
is_text none expected = false
is_text (some s) expected = bytes_eq s (codes expected)

abbrev text_among : Option Bytes → List String → Bool
text_among none expected = false
text_among (some s) expected = one_of s expected

abbrev is_given : {A : Type 0} → Option A → Bool
is_given none = false
is_given (some a) = true

abbrev is_long : Option Bytes → Bool
is_long none = false
is_long (some []) = false
is_long (some (x ∷ s)) = true

abbrev pub is_positive : Option ℤ → Bool
is_positive none = false
is_positive (some z) = ltb_ℤ (pos 0) z

abbrev pub is_nonnegative : Option ℤ → Bool
is_nonnegative none = false
is_nonnegative (some z) = leb_ℤ (pos 0) z

module _ (j : Json) (value : j.Value) (field : String) where
  -- found != end() && found->is_string() && found->get<std::string>() == expected
  unfoldable pub has_text : String → Bool
  has_text expected = is_text (read_string j value field) expected

  -- the same for several texts, by stringIsOneOf
  unfoldable pub string_is_one_of : List String → Bool
  string_is_one_of expected = text_among (read_string j value field) expected

  unfoldable pub has_string : Bool
  has_string = is_given (read_string j value field)

  unfoldable pub has_nonempty_string : Bool
  has_nonempty_string = is_long (read_string j value field)

  unfoldable pub lacks : Bool
  lacks = not (is_given (j.find value field))

  unfoldable pub has_positive : Bool
  has_positive = is_positive (read_signed_integer j value field)

  unfoldable pub has_nonnegative : Bool
  has_nonnegative = is_nonnegative (read_signed_integer j value field)

  -- A field that passes a test of its value.
  unfoldable pub field_is : (j.Value → Bool) → Bool
  field_is test = elim (j.find value field) [ none ↦ false | some found ↦ test found ]

  unfoldable pub has_boolean : Bool
  unfolding field_is
  has_boolean = field_is j.is_boolean

  -- The elements of an array field; `none` where there is no such field.
  unfoldable pub array_field : Option (List j.Value)
  array_field = elim (j.find value field) [
    | none ↦ none
    | some found ↦ if j.is_array found then some (j.elements found) else none
  ]
