-- ===== src/Screen/Safe.antt =====
-- safeText lets no control byte through to the terminal.
use protected_chat.Prelude.{
  ℕ, ◌≡◌, arith, [], ◌%◌, suc, some, zero, ◌∷◌, ◌/◌, List, ◌<◌, ◌⊎◌, ◌≢◌, ◌++◌, ◌≤◌, ◌==◌,
  if◌then◌else◌, if_cases, take, All, Bytes, sym, inr, subst, ◌&&◌, inl, leb, Bool-cases, ltb, refl,
  false, Option, ◌-◌, none,
}
use protected_chat.Screen.Utf8.{
  hex_byte, decode_four, hex_digits, digit, decode_code_point, decode_two, hex_code_point,
  decode_three, unsafe_code_point,
}
use protected_chat.Screen.Units.{
  unit_of, units_from, escaped, joined, wide_unit, units, DisplayUnit, safe_text,
}
use protected_chat.Prelude.Int.{negsuc, pos, ℤ}

-- A byte that is no control character of ASCII.
abbrev pub Printable : ℕ → Type 0
Printable byte = (32 ≤ byte) × (byte ≢ 127)

abbrev pub IsByte : ℕ → Type 0
IsByte x = x < 256

digit-Printable : (n : ℕ) → n < 16 → Printable (digit n)
digit-Printable n h = ground (arith, h)

hex_byte-Printable : (byte : ℕ) → IsByte byte → All Printable (hex_byte byte)
unfolding hex_byte
hex_byte-Printable byte h = (
  (omega arith, omega arith),
  (
    (omega arith, omega arith),
    (digit-Printable (byte / 16) (omega arith), (digit-Printable (byte % 16) (omega arith), tt)),
  ),
)

All-append : (xs ys : List ℕ) → All Printable xs → All Printable ys → All Printable (xs ++ ys)
All-append [] ys h k = k
All-append (x ∷ xs) ys h k = (h.0, All-append xs ys h.1 k)

hex_digits-Printable : (fuel value : ℕ) → All Printable (hex_digits fuel value)
unfolding hex_digits
hex_digits-Printable zero value = tt
hex_digits-Printable (suc fuel) value =
    All-append (if value / 16 == 0 then [] else hex_digits fuel (value / 16))
      (digit (value % 16) ∷ [])
      (if_cases (All Printable) (value / 16 == 0) [] (hex_digits fuel (value / 16)) (λ _. tt)
        (λ _. hex_digits-Printable fuel (value / 16)))
      (digit-Printable (value % 16) (omega arith), tt)

hex_code_point-Printable : (value : ℕ) → All Printable (hex_code_point value)
unfolding hex_code_point
hex_code_point-Printable value = (
  (omega arith, omega arith),
  (
    (omega arith, omega arith),
    (
      (omega arith, omega arith),
      All-append (hex_digits 8 value) (125 ∷ []) (hex_digits-Printable 8 value)
          ((omega arith, omega arith), tt),
    ),
  ),
)

two-Printable :
    (first : ℕ) (rest : Bytes) (c n : ℕ)
    → 128 ≤ first
    → decode_two first rest ≡ some (c, n)
    → (n ≡ 2) × All Printable (take 2 (first ∷ rest))
unfolding decode_two
two-Printable first [] c n h e = ground arith
two-Printable first (second ∷ rest) c n h e = ground arith

three-Printable :
    (first : ℕ) (rest : Bytes) (c n : ℕ)
    → 128 ≤ first
    → decode_three first rest ≡ some (c, n)
    → (n ≡ 3) × All Printable (take 3 (first ∷ rest))
unfolding decode_three
three-Printable first [] c n h e = ground arith
three-Printable first (second ∷ []) c n h e = ground arith
three-Printable first (second ∷ third ∷ rest) c n h e = ground arith

four-Printable :
    (first : ℕ) (rest : Bytes) (c n : ℕ)
    → 128 ≤ first
    → decode_four first rest ≡ some (c, n)
    → (n ≡ 4) × All Printable (take 4 (first ∷ rest))
unfolding decode_four
four-Printable first [] c n h e = ground arith
four-Printable first (second ∷ []) c n h e = ground arith
four-Printable first (second ∷ third ∷ []) c n h e = ground arith
four-Printable first (second ∷ third ∷ fourth ∷ rest) c n h e = ground arith

at_length :
    (m n : ℕ) (text : Bytes) → (n ≡ m) × All Printable (take m text) → All Printable (take n text)
at_length m n text h = subst (λ k. All Printable (take k text)) (sym h.0) h.1

-- What decodeCodePoint accepts: one ASCII byte, or bytes that are all 128 or above.
decoded-Printable :
    (first : ℕ) (rest : Bytes) (c n : ℕ)
    → decode_code_point (first ∷ rest) ≡ some (c, n)
    → ((c ≡ first) × (n ≡ 1)) ⊎ All Printable (take n (first ∷ rest))
unfolding decode_code_point
decoded-Printable first rest c n e =
    let text = first ∷ rest in
    elim (Bool-cases (ltb first 128)) [
      | inl ascii ↦ inl (ground (arith, e, ascii), ground (arith, e, ascii))
      | inr above ↦ elim (Bool-cases (leb 194 first && leb first 223)) [
        | inl two ↦ inr (
            at_length 2 n text (
              two-Printable first rest c n (ground (arith, above)) (ground (arith, e, above, two))))
        | inr not_two ↦ elim (Bool-cases (leb 224 first && leb first 239)) [
          | inl three ↦ inr (
              at_length 3 n text (
                three-Printable first rest c n (ground (arith, above))
                  (ground (arith, e, above, not_two, three))))
          | inr not_three ↦ inr (
              at_length 4 n text (
                four-Printable first rest c n (ground (arith, above))
                  (ground (arith, e, above, not_two, not_three))))
        ]
      ]
    ]

decoded_cases :
    (P : List DisplayUnit → Type 0) (o : Option (ℕ × ℕ)) (f : List DisplayUnit)
    (g : ℕ → ℕ → List DisplayUnit)
    → (o ≡ none → P f)
    → ((c n : ℕ) → o ≡ some (c, n) → P (g c n))
    → P (elim o [ none ↦ f | some (c, n) ↦ g c n ])
decoded_cases P none f g h k = h refl
decoded_cases P (some (c, n)) f g h k = k c n refl

-- The bytes of a code point that is not unsafe.
shown-Printable :
    (c n first : ℕ) (rest : Bytes)
    → unsafe_code_point c ≡ false
    → ((c ≡ first) × (n ≡ 1)) ⊎ All Printable (take n (first ∷ rest))
    → All Printable (take n (first ∷ rest))
unfolding unsafe_code_point
shown-Printable c n first rest safe (inr h) = h
shown-Printable c n first rest safe (inl h) =
    at_length 1 n (first ∷ rest) (h.1, (ground (arith, h, safe), tt))

module _ (platform_width : ℕ → ℤ) where
  wide-Printable :
      (w : ℤ) (c : ℕ) (bytes : Bytes)
      → All Printable bytes
      → All Printable (wide_unit w c bytes).bytes
  wide-Printable (negsuc n) c bytes h = hex_code_point-Printable c
  wide-Printable (pos n) c bytes h =
      if_cases (λ u. All Printable u.bytes) (n == 0) (escaped (hex_code_point c))
        (record { bytes = bytes; width = n }) (λ _. hex_code_point-Printable c) (λ _. h)

  unit_of-Printable :
      (c n first : ℕ) (rest : Bytes)
      → ((c ≡ first) × (n ≡ 1)) ⊎ All Printable (take n (first ∷ rest))
      → All Printable (unit_of platform_width c (take n (first ∷ rest))).bytes
  unfolding unit_of
  unit_of-Printable c n first rest h =
      let bytes = take n (first ∷ rest) in
      let plain : DisplayUnit = record { bytes = bytes; width = 1 } in
      if_cases (λ u. All Printable u.bytes) (unsafe_code_point c)
        (escaped (if leb c 255 then hex_byte c else hex_code_point c))
        (if ltb c 127 then plain else wide_unit (platform_width c) c bytes)
        (λ _.
          if_cases (All Printable) (leb c 255) (hex_byte c) (hex_code_point c)
            (λ small. hex_byte-Printable c (ground (arith, small)))
            (λ _. hex_code_point-Printable c))
        (λ safe.
          let shown = shown-Printable c n first rest safe h in
          if_cases (λ u. All Printable u.bytes) (ltb c 127) plain
            (wide_unit (platform_width c) c bytes) (λ _. shown)
            (λ _. wide-Printable (platform_width c) c bytes shown))

  units_from-Printable :
      (skip : ℕ) (text : Bytes)
      → All IsByte text
      → All Printable (joined (units_from platform_width skip text))
  unfolding units_from
  units_from-Printable skip [] b = tt
  units_from-Printable (suc skip) (x ∷ rest) b = units_from-Printable skip rest b.1
  units_from-Printable zero (x ∷ rest) b =
      decoded_cases (λ us. All Printable (joined us)) (decode_code_point (x ∷ rest))
        (record { bytes = hex_byte x; width = 4 } ∷ units_from platform_width 0 rest)
        (λ c n.
          unit_of platform_width c (take n (x ∷ rest)) ∷ units_from platform_width (n - 1) rest)
        (λ _.
          All-append (hex_byte x) (joined (units_from platform_width 0 rest))
            (hex_byte-Printable x b.0) (units_from-Printable 0 rest b.1))
        (λ c n e.
          All-append (unit_of platform_width c (take n (x ∷ rest))).bytes
            (joined (units_from platform_width (n - 1) rest))
            (unit_of-Printable c n x rest (decoded-Printable x rest c n e))
            (units_from-Printable (n - 1) rest b.1))

-- Whatever bytes a text is made of, and whatever widths the platform gives: no byte of safeText is a
-- control character of ASCII, the escape character and the line feed among them.
pub safe_text-Printable :
    (platform_width : ℕ → ℤ) (text : Bytes)
    → All IsByte text
    → All Printable (safe_text platform_width text)
unfolding safe_text units
safe_text-Printable platform_width text b = units_from-Printable platform_width 0 text b
