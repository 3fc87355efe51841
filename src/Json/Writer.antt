-- ===== src/Json/Writer.antt =====
-- The JSON values that the server builds, by initializer lists and assignment to fields of
-- nlohmann::json: a parameter of the model, like the values that are read.
use protected_chat.Prelude.{
  ℕ, Bool, Option, none, some, List, [], ◌∷◌, String, Bytes, if◌then◌else◌,
}
use protected_chat.Prelude.Int.{ℤ}
use text.Mathlib.Text.{◌==◌ as string_eq}

pub record Writer : Type 1 where
  pub Value : Type 0
  pub object : List (String × Value) → Value
  pub array : List Value → Value
  pub text : Bytes → Value
  pub integer : ℤ → Value
  pub boolean : Bool → Value
  -- value.dump().size(), with `none` where dump throws
  pub dump_size : Value → Option ℕ

-- The field of a name.
abbrev pub lookup : {A : Type 0} → String → List (String × A) → Option A
lookup name [] = none
lookup name ((other, v) ∷ fields) = if string_eq other name then some v else lookup name fields
