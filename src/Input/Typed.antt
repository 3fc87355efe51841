-- ===== src/Input/Typed.antt =====
-- A character that is typed and erased again.
use protected_chat.Prelude.{
  ℕ, false, zero, ap, ◌+◌, suc, ◌∙◌, [], refl, ◌≡◌, arith, true, ◌<◌, ◌≤◌, ◌∷◌, ◌++◌, Bytes, length,
  All, take, sym, ◌-◌, drop, add64, take-append-drop, Bool,
}
use protected_chat.Screen.Utf8.{continuation}
use protected_chat.Input.Field.{
  insert, back_from, byte_at, max_bytes, InputField, erase_before, previous_boundary,
}
use protected_chat.Input.Edits.{InBounds}
use mathlib.Core.List.{append_assoc}

-- The bytes of one character: the first is no continuation byte, and all others are.
abbrev pub IsCharacter : Bytes → Type 0
IsCharacter [] = ⊥
IsCharacter (first ∷ rest) =
    (continuation first ≡ false) × All (λ byte. continuation byte ≡ true) rest

byte_at-shift :
    (n k : ℕ) (xs ys : Bytes) → n ≤ length xs → byte_at (take n xs ++ ys) (n + k) ≡ byte_at ys k
byte_at-shift zero k xs ys h = ap (byte_at ys) (omega arith)
byte_at-shift (suc n) k [] ys h = absurd (omega arith)
byte_at-shift (suc n) k (x ∷ xs) ys h =
    let sum : suc n + k ≡ suc (n + k) = omega arith in
    ap (byte_at (x ∷ (take n xs ++ ys))) sum ∙ byte_at-shift n k xs ys (omega (arith, h))

byte_at-All :
    (k : ℕ) (xs ys : Bytes)
    → k < length xs
    → All (λ byte. continuation byte ≡ true) xs
    → continuation (byte_at (xs ++ ys) k) ≡ true
byte_at-All k [] ys h all = absurd (omega arith)
byte_at-All zero (x ∷ xs) ys h all = all.0
byte_at-All (suc k) (x ∷ xs) ys h all = byte_at-All k xs ys (omega (arith, h)) all.1

back_to_first :
    (n : ℕ) (text : Bytes) → continuation (byte_at text n) ≡ false → back_from text n ≡ n
unfolding back_from
back_to_first zero text h = refl
back_to_first (suc n) text h = ground (arith, h)

back_step :
    (n : ℕ) (text : Bytes)
    → continuation (byte_at text (suc n)) ≡ true
    → back_from text (suc n) ≡ back_from text n
unfolding back_from
back_step n text h = ground (arith, h)

module _ (n first : ℕ) (rest xs after : Bytes) (inside : n ≤ length xs)
    (character : IsCharacter (first ∷ rest)) where
  abbrev typed : Bytes
  typed = take n xs ++ (first ∷ (rest ++ after))

  back_over : (k : ℕ) → k ≤ length rest → back_from typed (n + k) ≡ n
  unfolding back_from
  back_over zero h =
      ap (back_from typed) (omega arith)
      ∙ back_to_first n typed (
          ap continuation (
            ap (byte_at typed) (omega arith)
            ∙ byte_at-shift n 0 xs (first ∷ (rest ++ after)) inside)
          ∙ character.0)
  back_over (suc k) h =
      let sum : n + suc k ≡ suc (n + k) = omega arith in
      ap (back_from typed) sum
      ∙ back_step (n + k) typed (
          ap continuation (
            ap (byte_at typed) (sym sum)
            ∙ byte_at-shift n (suc k) xs (first ∷ (rest ++ after)) inside)
          ∙ byte_at-All k rest after (omega (arith, h)) character.1)
      ∙ back_over k (omega (arith, h))

take-past : (n : ℕ) (xs ys : Bytes) → n ≤ length xs → take n (take n xs ++ ys) ≡ take n xs
take-past zero xs ys h = refl
take-past (suc n) [] ys h = absurd (omega arith)
take-past (suc n) (x ∷ xs) ys h = ap (λ l. x ∷ l) (take-past n xs ys (omega (arith, h)))

drop-past : (ts ys : Bytes) → drop (length ts) (ts ++ ys) ≡ ys
drop-past [] ys = refl
drop-past (t ∷ ts) ys = drop-past ts ys

drop-typed :
    (n : ℕ) (ts xs ys : Bytes) → n ≤ length xs → drop (n + length ts) (take n xs ++ (ts ++ ys)) ≡ ys
drop-typed zero ts xs ys h =
    let sum : 0 + length ts ≡ length ts = omega arith in
    ap (λ k. drop k (ts ++ ys)) sum ∙ drop-past ts ys
drop-typed (suc n) ts [] ys h = absurd (omega arith)
drop-typed (suc n) ts (x ∷ xs) ys h =
    let sum : suc n + length ts ≡ suc (n + length ts) = omega arith in
    ap (λ k. drop k (x ∷ (take n xs ++ (ts ++ ys)))) sum ∙ drop-typed n ts xs ys (omega (arith, h))

-- The field after the character is typed.
abbrev with_character : InputField → Bytes → InputField
with_character f text = record {
  bytes = take f.byte_cursor f.bytes ++ (text ++ drop f.byte_cursor f.bytes);
  byte_cursor = suc (f.byte_cursor + (length text - 1));
  edit_revision = add64 f.edit_revision 1;
}

insert-character :
    (f : InputField) (first : ℕ) (rest : Bytes)
    → InBounds f
    → length f.bytes + length (first ∷ rest) ≤ max_bytes
    → insert (first ∷ rest) f ≡ (true, with_character f (first ∷ rest))
unfolding insert
insert-character f first rest v room =
    let assoc =
      append_assoc (take f.byte_cursor f.bytes) (first ∷ rest) (drop f.byte_cursor f.bytes) in
    let cursor : add64 f.byte_cursor (length (first ∷ rest))
        ≡ suc (f.byte_cursor + (length (first ∷ rest) - 1)) =
      omega (arith, v.cursor_bound, room) in
    ground (arith, assoc, cursor, v.size_bound, room)

erase-character :
    (f : InputField) (first : ℕ) (rest : Bytes)
    → InBounds f
    → IsCharacter (first ∷ rest)
    → erase_before (with_character f (first ∷ rest))
      ≡ (true, record f { edit_revision = add64 (add64 f.edit_revision 1) 1 })
unfolding erase_before previous_boundary
erase-character f first rest v character =
    let after = drop f.byte_cursor f.bytes in
    let text = first ∷ rest in
    let sum : length text - 1 ≡ length rest = omega arith in
    let back =
      ap (λ k. back_from (with_character f text).bytes (f.byte_cursor + k)) sum
      ∙ back_over f.byte_cursor first rest f.bytes after v.cursor_bound character (length rest)
          (omega arith) in
    let end_at : suc (f.byte_cursor + (length text - 1)) ≡ f.byte_cursor + length text =
      omega arith in
    let kept = take-past f.byte_cursor f.bytes (text ++ after) v.cursor_bound in
    let past =
      ap (λ k. drop k (with_character f text).bytes) end_at
      ∙ drop-typed f.byte_cursor text f.bytes after v.cursor_bound in
    ground (arith, back, kept, past, take-append-drop f.byte_cursor f.bytes)

-- A character is typed into a field that has room for it, and erased by eraseBefore: the text and the
-- cursor are as before, and the revision is two edits on.
pub erase_before-insert :
    (f : InputField) (first : ℕ) (rest : Bytes)
    → InBounds f
    → IsCharacter (first ∷ rest)
    → length f.bytes + length (first ∷ rest) ≤ max_bytes
    → erase_before (insert (first ∷ rest) f).1
      ≡ (true, record f { edit_revision = add64 (add64 f.edit_revision 1) 1 })
erase_before-insert f first rest v character room =
    ap (λ (r : Bool × InputField). erase_before r.1) (insert-character f first rest v room)
    ∙ erase-character f first rest v character
