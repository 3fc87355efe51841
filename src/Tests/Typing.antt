-- ===== src/Tests/Typing.antt =====
-- A letter and an accented letter are typed, and the latter is erased.
use protected_chat.Prelude.{List, [], ◌∷◌, add64, arith, ◌≡◌, true, refl}
use protected_chat.Input.Field.{
  Edit, inserts, erases_before, moves_left, erases_at, edits, new_field, erase_before, InputField,
  insert,
}
use protected_chat.Input.Edits.{InBounds, edits-InBounds}
use protected_chat.Input.Typed.{erase_before-insert}

abbrev typing : List Edit
typing = inserts (97 ∷ []) ∷ inserts (195 ∷ 169 ∷ []) ∷ erases_before ∷ moves_left ∷ erases_at ∷ []

edits-InBounds_example : InBounds (edits typing new_field)
edits-InBounds_example = edits-InBounds typing

-- A field that holds the letter, and the accented letter's two bytes.
abbrev letter_field : InputField
letter_field = record { bytes = 97 ∷ []; byte_cursor = 1; edit_revision = 1 }

erase_before-insert_example :
    erase_before (insert (195 ∷ 169 ∷ []) letter_field).1
    ≡ (true, record letter_field { edit_revision = add64 (add64 1 1) 1 })
erase_before-insert_example =
    erase_before-insert letter_field 195 (169 ∷ [])
      (record { cursor_bound = omega arith; size_bound = omega arith }) (refl, (refl, tt))
      (omega arith)
