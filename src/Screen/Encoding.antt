-- ===== src/Screen/Encoding.antt =====
-- decodeCodePoint against Unicode's own description of UTF-8.
use protected_chat.Prelude.{
  ℕ, if◌then◌else◌, if_cases, ltb, ◌≡◌, some, [], ◌∷◌, ◌⊎◌, ◌%◌, ◌<◌, ◌++◌, ◌≤◌, ◌/◌, ◌+◌, arith,
  Bytes, length,
}
use protected_chat.Screen.Utf8.{
  decode_two, decode_four, decode_three, second_refused, decode_code_point,
}

-- The encoding of a code point, as the Unicode standard gives it.
abbrev pub utf8 : ℕ → Bytes
utf8 c =
    if ltb c 128
    then c ∷ []
    else if ltb c 2048
    then (192 + c / 64) ∷ (128 + c % 64) ∷ []
    else if ltb c 65536
    then (224 + c / 4096) ∷ (128 + c / 64 % 64) ∷ (128 + c % 64) ∷ []
    else (240 + c / 262144) ∷ (128 + c / 4096 % 64) ∷ (128 + c / 64 % 64) ∷ (128 + c % 64) ∷ []

-- A code point that is no half of a surrogate pair.
abbrev pub IsScalar : ℕ → Type 0
IsScalar c = (c < 1114112) × ((c < 55296) ⊎ (57344 ≤ c))

one_byte : (c : ℕ) (rest : Bytes) → c < 128 → decode_code_point (c ∷ rest) ≡ some (c, 1)
unfolding decode_code_point
one_byte c rest h = ground (arith, h)

two_bytes :
    (c : ℕ) (rest : Bytes)
    → 128 ≤ c
    → c < 2048
    → decode_code_point ((192 + c / 64) ∷ (128 + c % 64) ∷ rest) ≡ some (c, 2)
unfolding decode_code_point decode_two second_refused
two_bytes c rest h k = ground (arith, h, k)

three_bytes :
    (c : ℕ) (rest : Bytes)
    → 2048 ≤ c
    → c < 65536
    → (c < 55296) ⊎ (57344 ≤ c)
    → decode_code_point ((224 + c / 4096) ∷ (128 + c / 64 % 64) ∷ (128 + c % 64) ∷ rest)
      ≡ some (c, 3)
unfolding decode_code_point decode_three second_refused
three_bytes c rest h k s = ground (arith, h, k, s)

four_bytes :
    (c : ℕ) (rest : Bytes)
    → 65536 ≤ c
    → c < 1114112
    → decode_code_point
        ((240 + c / 262144) ∷ (128 + c / 4096 % 64) ∷ (128 + c / 64 % 64) ∷ (128 + c % 64) ∷ rest)
      ≡ some (c, 4)
unfolding decode_code_point decode_four second_refused
four_bytes c rest h k = ground (arith, h, k)

-- The encoding of a code point that is no surrogate is decoded, whatever follows it: to that code
-- point, and its length.
pub decode_code_point-utf8 :
    (c : ℕ) (rest : Bytes)
    → IsScalar c
    → decode_code_point (utf8 c ++ rest) ≡ some (c, length (utf8 c))
decode_code_point-utf8 c rest scalar =
    if_cases (λ (bytes : Bytes). decode_code_point (bytes ++ rest) ≡ some (c, length bytes))
      (ltb c 128) (c ∷ []) _ (λ h. one_byte c rest (ground (arith, h)))
      (λ h.
        if_cases (λ (bytes : Bytes). decode_code_point (bytes ++ rest) ≡ some (c, length bytes))
          (ltb c 2048) ((192 + c / 64) ∷ (128 + c % 64) ∷ []) _
          (λ k. two_bytes c rest (ground (arith, h)) (ground (arith, k)))
          (λ k.
            if_cases (λ (bytes : Bytes). decode_code_point (bytes ++ rest) ≡ some (c, length bytes))
              (ltb c 65536) ((224 + c / 4096) ∷ (128 + c / 64 % 64) ∷ (128 + c % 64) ∷ [])
              ((240 + c / 262144)
                ∷ (128 + c / 4096 % 64)
                ∷ (128 + c / 64 % 64)
                ∷ (128 + c % 64)
                ∷ [])
              (λ l. three_bytes c rest (ground (arith, k)) (ground (arith, l)) scalar.1)
              (λ l. four_bytes c rest (ground (arith, l)) scalar.0)))
