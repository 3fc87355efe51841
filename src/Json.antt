-- ===== src/Json.antt =====
-- The JSON values that the program reads through nlohmann::json, a third-party library: a
-- parameter of the model, with the member functions that the source calls on a parsed value.
-- The field readers that clientf and serverf share stand here.
pub mod Writer
pub mod Wire
use protected_chat.Prelude.{
  ℕ, Bool, true, false, not, ◌&&◌, ◌||◌, Option, none, some, List, [], ◌∷◌, String, Bytes, codes,
  bytes_eq, ltb, i64_max, if◌then◌else◌,
}
use protected_chat.Prelude.Int.{ℤ, pos, negsuc}

pub record Json : Type 1 where
  pub Value : Type 0
  -- value.find(field), with `none` for end()
  pub find : Value → String → Option Value
  -- the keys that value.items() goes through
  pub keys : Value → List Bytes
  -- the elements of an array
  pub elements : Value → List Value
  pub is_object : Value → Bool
  pub is_array : Value → Bool
  pub is_string : Value → Bool
  pub is_boolean : Value → Bool
  pub is_number_integer : Value → Bool
  pub is_number_unsigned : Value → Bool
  pub get_boolean : Value → Bool
  pub get_string : Value → Bytes
  pub get_uint64 : Value → ℕ
  pub get_int64 : Value → ℤ

abbrev pub one_of : Bytes → List String → Bool
one_of key [] = false
one_of key (allowed ∷ rest) = bytes_eq key (codes allowed) || one_of key rest

abbrev pub all_allowed : List Bytes → List String → Bool
all_allowed [] allowed = true
all_allowed (key ∷ rest) allowed = one_of key allowed && all_allowed rest allowed

module _ (j : Json) where
  open j use {
    Value, find, keys, is_string, is_number_integer, is_number_unsigned, get_string, get_uint64,
    get_int64,
  }

  -- containsOnlyFields
  unfoldable pub contains_only_fields : Value → List String → Bool
  contains_only_fields value allowed = all_allowed (keys value) allowed

  read_signed_value : Value → Option ℤ
  read_signed_value found =
      if is_number_unsigned found
      then (if ltb i64_max (get_uint64 found) then none else some (pos (get_uint64 found)))
      else if not (is_number_integer found)
      then none
      else some (get_int64 found)

  -- readSignedInteger, and readInteger of the user interface
  unfoldable pub read_signed_integer : Value → String → Option ℤ
  unfolding read_signed_value
  read_signed_integer value field = elim (find value field) [
    | none ↦ none
    | some found ↦ read_signed_value found
  ]

  -- readString: any string, the empty one included
  unfoldable pub read_string : Value → String → Option Bytes
  read_string value field = elim (find value field) [
    | none ↦ none
    | some found ↦ if is_string found then some (get_string found) else none
  ]

  -- The sign test that readPositiveInteger and readNonnegativeInteger end with.
  above_zero : Bool → ℤ → Option ℕ
  above_zero zero_allowed (negsuc n) = none
  above_zero zero_allowed (pos n) = if zero_allowed || ltb 0 n then some n else none

  -- readPositiveInteger of the message buffer: the value lies between 1 and the largest int64.
  read_positive_value : Value → Option ℕ
  unfolding above_zero
  read_positive_value found =
      if is_number_unsigned found
      then (if ltb i64_max (get_uint64 found)
          then none
          else if ltb 0 (get_uint64 found)
          then some (get_uint64 found)
          else none)
      else if not (is_number_integer found)
      then none
      else above_zero false (get_int64 found)

  unfoldable pub read_positive_integer : Value → String → Option ℕ
  unfolding read_positive_value
  read_positive_integer value field = elim (find value field) [
    | none ↦ none
    | some found ↦ read_positive_value found
  ]

  -- readNonnegativeInteger of the message buffer.
  read_nonnegative_value : Value → Option ℕ
  unfolding above_zero
  read_nonnegative_value found =
      if is_number_unsigned found
      then (if ltb i64_max (get_uint64 found) then none else some (get_uint64 found))
      else if not (is_number_integer found)
      then none
      else above_zero true (get_int64 found)

  unfoldable pub read_nonnegative_integer : Value → String → Option ℕ
  unfolding read_nonnegative_value
  read_nonnegative_integer value field = elim (find value field) [
    | none ↦ none
    | some found ↦ read_nonnegative_value found
  ]
