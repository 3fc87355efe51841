-- ===== src/Tests/Display.antt =====
-- An escape character and a letter, on a platform where each code point takes one column.
use protected_chat.Prelude.{
  ℕ, length, All, ◌∷◌, [], arith, ◌≡◌, subst, ◌++◌, refl, sym, inl, some, codes, Bytes,
}
use protected_chat.Prelude.Int.{pos, ℤ}
use protected_chat.Screen.Rows.{AllNarrow, wrap_to_width_lem, Rows, Longest, clip_to_width_lem}
use protected_chat.Screen.Units.{DisplayUnit, wrap_to_width, safe_text, units, clip_to_width}
use protected_chat.Screen.Safe.{safe_text-Printable, Printable}
use protected_chat.Screen.TooWide.{wrap_to_width-too_wide}
use protected_chat.Screen.Encoding.{utf8, decode_code_point-utf8}
use protected_chat.Screen.Utf8.{decode_code_point, unsafe_code_point, hex_byte}

abbrev one_column : ℕ → ℤ
one_column c = pos 1

abbrev escape_a : Bytes
escape_a = 27 ∷ 97 ∷ []

safe_text-Printable_example : All Printable (safe_text one_column escape_a)
safe_text-Printable_example =
    safe_text-Printable one_column escape_a (omega arith, (omega arith, tt))

abbrev escape_unit : DisplayUnit
escape_unit = record { bytes = codes "\\x1B"; width = 4 }

abbrev letter_unit : DisplayUnit
letter_unit = record { bytes = codes "a"; width = 1 }

escape_a-units : units one_column escape_a ≡ escape_unit ∷ letter_unit ∷ []
unfolding units decode_code_point unsafe_code_point hex_byte
escape_a-units = refl

escape_a-AllNarrow : AllNarrow 4 (units one_column escape_a)
escape_a-AllNarrow = subst (AllNarrow 4) (sym escape_a-units) (omega arith, (omega arith, tt))

wrap_to_width_example : Rows 4 (units one_column escape_a) (wrap_to_width one_column escape_a 4)
wrap_to_width_example =
    wrap_to_width_lem one_column escape_a 4 (omega arith) (omega arith) escape_a-AllNarrow

clip_to_width_example : Longest 4 (units one_column escape_a) (clip_to_width one_column escape_a 4)
clip_to_width_example = clip_to_width_lem one_column escape_a 4 (omega arith)

wrap_to_width-too_wide_example :
    wrap_to_width one_column escape_a 3 ≡ safe_text one_column escape_a ∷ []
wrap_to_width-too_wide_example =
    wrap_to_width-too_wide one_column escape_a 3 escape_unit (letter_unit ∷ []) (omega arith)
      escape_a-units (omega arith) (omega arith)

-- The euro sign.
decode_code_point-utf8_example :
    decode_code_point (utf8 8364 ++ 97 ∷ []) ≡ some (8364, length (utf8 8364))
decode_code_point-utf8_example =
    decode_code_point-utf8 8364 (97 ∷ []) (omega arith, inl (omega arith))
