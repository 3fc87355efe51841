-- ===== src/Screen/Units.antt =====
-- What the screen shows of a text: units, safeText, displayWidth, clipToWidth and wrapToWidth of
-- clientf/terminal_screen.cpp. The width of a code point is the platform's, a parameter.
use protected_chat.Prelude.{
  true, false, ℕ, if◌then◌else◌, add64, ltb, leb, u64_mod, ◌==◌, sub64, ◌-◌, zero, suc, ◌%◌, none,
  [], not, some, ◌+◌, ◌∷◌, ◌&&◌, List, ◌++◌, length, take, Bytes,
}
use protected_chat.Screen.Utf8.{hex_byte, hex_code_point, decode_code_point, unsafe_code_point}
use protected_chat.Prelude.Int.{ℤ, pos, negsuc}

pub record DisplayUnit : Type 0 where
  pub bytes : Bytes
  pub width : ℕ

abbrev pub escaped : Bytes → DisplayUnit
escaped bytes = record { bytes = bytes; width = length bytes }

-- A code point that is safe and not ASCII, in its bytes.
abbrev pub wide_unit : ℤ → ℕ → Bytes → DisplayUnit
wide_unit (negsuc n) code_point bytes = escaped (hex_code_point code_point)
wide_unit (pos n) code_point bytes =
    if n == 0 then escaped (hex_code_point code_point) else record { bytes = bytes; width = n }

module _ (platform_width : ℕ → ℤ) where
  -- The unit of a code point that was decoded.
  unfoldable pub unit_of : ℕ → Bytes → DisplayUnit
  unit_of code_point bytes =
      if unsafe_code_point code_point
      then escaped (if leb code_point 255 then hex_byte code_point else hex_code_point code_point)
      else if ltb code_point 127
      then record { bytes = bytes; width = 1 }
      else wide_unit (platform_width code_point) code_point bytes

  unfoldable pub units_from : ℕ → Bytes → List DisplayUnit
  unfolding unit_of
  units_from skip [] = []
  units_from (suc skip) (x ∷ rest) = units_from skip rest
  units_from zero (x ∷ rest) = elim (decode_code_point (x ∷ rest)) [
    | none ↦ record { bytes = hex_byte x; width = 4 } ∷ units_from 0 rest
    | some (code_point, length_read) ↦
        unit_of code_point (take length_read (x ∷ rest)) ∷ units_from (length_read - 1) rest
  ]

  -- units
  unfoldable pub units : Bytes → List DisplayUnit
  unfolding units_from
  units text = units_from 0 text

-- safeText
abbrev pub joined : List DisplayUnit → Bytes
joined [] = []
joined (u ∷ us) = u.bytes ++ joined us

abbrev pub total_width : List DisplayUnit → ℕ
total_width [] = 0
total_width (u ∷ us) = u.width + total_width us

-- The loops of clipToWidth and wrapToWidth, from a number of used columns on; the latter's rows are
-- the bytes that are added to the last row, and the rows after it.
unfoldable pub clip_units : ℕ → ℕ → List DisplayUnit → Bytes
clip_units width used [] = []
clip_units width used (u ∷ us) =
    let rest = clip_units width (add64 used u.width) us in
    if ltb (sub64 width used) u.width then [] else u.bytes ++ rest

unfoldable pub wrap_units : ℕ → ℕ → List DisplayUnit → Bytes × List Bytes
wrap_units width used [] = ([], [])
wrap_units width used (u ∷ us) = elim (not (used == 0) && ltb (sub64 width used) u.width) [
  | true ↦ let (fresh, later) = wrap_units width u.width us in ([], (u.bytes ++ fresh) ∷ later)
  | false ↦ let (same, rows) = wrap_units width (add64 used u.width) us in (u.bytes ++ same, rows)
]

module _ (platform_width : ℕ → ℤ) where
  unfoldable pub safe_text : Bytes → Bytes
  safe_text text = joined (units platform_width text)

  unfoldable pub display_width : Bytes → ℕ
  display_width text = total_width (units platform_width text) % u64_mod

  unfoldable pub clip_to_width : Bytes → ℕ → Bytes
  unfolding clip_units
  clip_to_width text width = clip_units width 0 (units platform_width text)

  unfoldable pub wrap_to_width : Bytes → ℕ → List Bytes
  unfolding wrap_units
  wrap_to_width text width =
      if width == 0
      then [] ∷ []
      else let (first, rows) = wrap_units width 0 (units platform_width text) in first ∷ rows
