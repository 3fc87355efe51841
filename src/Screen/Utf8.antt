-- ===== src/Screen/Utf8.antt =====
-- decodeCodePoint and the escapes of clientf/terminal_screen.cpp. A text is the list of its bytes from
-- the offset on. Masks and shifts are remainders and products by powers of two; the parts of a code
-- point that the source joins by a bitwise or lie in separate bits, and are added.
use protected_chat.Prelude.{
  ℕ, Bool, suc, false, ◌||◌, Option, not, ◌+◌, [], true, ◌*◌, ◌&&◌, none, ◌/◌, ◌%◌, ◌-◌, ◌∷◌, some,
  ◌++◌, zero, if◌then◌else◌, ltb, ◌==◌, leb, Bytes,
}

-- (byte & 0xc0) == 0x80
abbrev pub continuation : ℕ → Bool
continuation byte = byte / 64 == 2

-- The second bytes that some first bytes do not admit.
unfoldable pub second_refused : ℕ → ℕ → Bool
second_refused first second =
    (first == 224 && ltb second 160)
    || (first == 237 && leb 160 second)
    || (first == 240 && ltb second 144)
    || (first == 244 && leb 144 second)

unfoldable pub decode_two : ℕ → Bytes → Option (ℕ × ℕ)
decode_two first (second ∷ rest) =
    if not (continuation second) || second_refused first second
    then none
    else some ((first % 32) * 64 + second % 64, 2)
decode_two first [] = none

unfoldable pub decode_three : ℕ → Bytes → Option (ℕ × ℕ)
decode_three first (second ∷ third ∷ rest) =
    if not (continuation second) || not (continuation third) || second_refused first second
    then none
    else some ((first % 16) * 4096 + (second % 64) * 64 + third % 64, 3)
decode_three first rest = none

unfoldable pub decode_four : ℕ → Bytes → Option (ℕ × ℕ)
decode_four first (second ∷ third ∷ fourth ∷ rest) =
    if not (continuation second)
      || not (continuation third)
      || not (continuation fourth)
      || second_refused first second
    then none
    else some ((first % 8) * 262144 + (second % 64) * 4096 + (third % 64) * 64 + fourth % 64, 4)
decode_four first rest = none

-- decodeCodePoint: the code point and its length.
unfoldable pub decode_code_point : Bytes → Option (ℕ × ℕ)
unfolding decode_two decode_three decode_four
decode_code_point [] = none
decode_code_point (first ∷ rest) =
    if ltb first 128
    then some (first, 1)
    else if leb 194 first && leb first 223
    then decode_two first rest
    else if leb 224 first && leb first 239
    then decode_three first rest
    else if leb 240 first && leb first 244
    then decode_four first rest
    else none

-- validUtf8. A code point that was read is skipped byte by byte.
unfoldable pub valid_from : ℕ → Bytes → Bool
valid_from skip [] = true
valid_from (suc skip) (x ∷ rest) = valid_from skip rest
valid_from zero (x ∷ rest) = elim (decode_code_point (x ∷ rest)) [
  | none ↦ false
  | some (code_point, length_read) ↦ valid_from (length_read - 1) rest
]

unfoldable pub valid_utf8 : Bytes → Bool
unfolding valid_from
valid_utf8 text = valid_from 0 text

-- A digit of "0123456789ABCDEF".
abbrev pub digit : ℕ → ℕ
digit n = if ltb n 10 then 48 + n else 55 + n

-- hexByte
unfoldable pub hex_byte : ℕ → Bytes
hex_byte byte = 92 ∷ 120 ∷ digit (byte / 16) ∷ digit (byte % 16) ∷ []

-- The loop of hexCodePoint, which puts the digits of the quotient before that of the remainder. A
-- 32-bit value has eight digits.
unfoldable pub hex_digits : ℕ → ℕ → Bytes
hex_digits zero value = []
hex_digits (suc fuel) value =
    let higher = hex_digits fuel (value / 16) in
    (if value / 16 == 0 then [] else higher) ++ digit (value % 16) ∷ []

-- hexCodePoint
unfoldable pub hex_code_point : ℕ → Bytes
unfolding hex_digits
hex_code_point value = 92 ∷ 117 ∷ 123 ∷ (hex_digits 8 value ++ 125 ∷ [])

-- unsafeCodePoint: controls, and marks that turn the direction of the text or show nothing
unfoldable pub unsafe_code_point : ℕ → Bool
unsafe_code_point value =
    ltb value 32
    || (leb 127 value && leb value 159)
    || value == 8234
    || value == 8235
    || value == 8237
    || value == 8238
    || value == 8236
    || value == 8294
    || value == 8295
    || value == 8296
    || value == 8297
    || value == 8203
    || value == 8204
    || value == 8205
    || value == 8288
    || value == 65279
