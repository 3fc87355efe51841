-- ===== src/Input/Edits.antt =====
-- Every edit keeps the field within its bounds.
use protected_chat.Prelude.{
  ℕ, zero, ◌-◌, refl, arith, ◌≤◌, [], suc, ◌++◌, List, ◌∷◌, ◌+◌, ◌≡◌, take, length, length-append,
  length-drop, drop, Bytes,
}
use protected_chat.Input.Field.{
  insert, new_field, forward, move_left, edits, goes_home, clears, move_right, replace, inserts,
  Edit, home, InputField, goes_end, erase_before, erases_at, clear, previous_boundary, back_from,
  erase_at, max_bytes, edit, erases_before, moves_left, end, next_boundary, moves_right, replaces,
}

pub record InBounds (f : InputField) : Type 0 where
  pub cursor_bound : f.byte_cursor ≤ length f.bytes
  pub size_bound : length f.bytes ≤ max_bytes

length-take : (n : ℕ) (xs : Bytes) → n ≤ length xs → length (take n xs) ≡ n
length-take zero xs h = refl
length-take (suc n) [] h = omega arith
length-take (suc n) (x ∷ xs) h = omega (arith, length-take n xs (omega (arith, h)))

back_from-bounded : (text : Bytes) (cursor : ℕ) → back_from text cursor ≤ cursor
unfolding back_from
back_from-bounded text zero = omega arith
back_from-bounded text (suc cursor) = ground (arith, back_from-bounded text cursor)

previous_boundary-bounded : (text : Bytes) (cursor : ℕ) → previous_boundary text cursor ≤ cursor
unfolding previous_boundary
previous_boundary-bounded text zero = omega arith
previous_boundary-bounded text (suc cursor) = omega (arith, back_from-bounded text cursor)

forward-bounded : (text : Bytes) → forward text ≤ length text
unfolding forward
forward-bounded [] = omega arith
forward-bounded (x ∷ rest) = ground (arith, forward-bounded rest)

next_boundary-bounded :
    (text : Bytes) (cursor : ℕ)
    → cursor ≤ length text
    → (cursor ≤ next_boundary text cursor) × (next_boundary text cursor ≤ length text)
unfolding next_boundary
next_boundary-bounded text cursor h =
    let run = forward-bounded (drop (cursor + 1) text) in
    let left = length-drop (cursor + 1) text in
    (ground (arith, h, run, left), ground (arith, h, run, left))

-- The size of a text of which the bytes from m to n are taken out.
length-cut :
    (m n : ℕ) (xs : Bytes)
    → m ≤ n
    → n ≤ length xs
    → length (take m xs ++ drop n xs) ≡ length xs - n + m
length-cut m n xs h k = omega (
  arith,
  length-append (take m xs) (drop n xs),
  length-take m xs (omega (arith, h, k)),
  length-drop n xs,
)

length-insert :
    (n : ℕ) (text xs : Bytes)
    → n ≤ length xs
    → length (take n xs ++ text ++ drop n xs) ≡ length xs + length text
length-insert n text xs h = omega (
  arith,
  length-append (take n xs ++ text) (drop n xs),
  length-append (take n xs) text,
  length-append (take n xs) (text ++ drop n xs),
  length-append text (drop n xs),
  length-take n xs h,
  length-drop n xs,
)

edit-InBounds : (e : Edit) (f : InputField) → InBounds f → InBounds (edit e f)
unfolding edit insert erase_before erase_at move_left move_right home end clear replace
edit-InBounds (inserts text) f v =
    let size = length-insert f.byte_cursor text f.bytes v.cursor_bound in
    record {
      cursor_bound = ground (arith, size, v.cursor_bound, v.size_bound);
      size_bound = ground (arith, size, v.cursor_bound, v.size_bound);
    }
edit-InBounds erases_before f v =
    let before = previous_boundary-bounded f.bytes f.byte_cursor in
    let size =
      length-cut (previous_boundary f.bytes f.byte_cursor) f.byte_cursor f.bytes before
        v.cursor_bound in
    record {
      cursor_bound = ground (arith, size, before, v.cursor_bound, v.size_bound);
      size_bound = ground (arith, size, before, v.cursor_bound, v.size_bound);
    }
edit-InBounds erases_at f v =
    let after = next_boundary-bounded f.bytes f.byte_cursor v.cursor_bound in
    let size =
      length-cut f.byte_cursor (next_boundary f.bytes f.byte_cursor) f.bytes after.0 after.1 in
    record {
      cursor_bound = ground (arith, size, after, v.cursor_bound, v.size_bound);
      size_bound = ground (arith, size, after, v.cursor_bound, v.size_bound);
    }
edit-InBounds moves_left f v =
    let before = previous_boundary-bounded f.bytes f.byte_cursor in
    record {
      cursor_bound = ground (arith, before, v.cursor_bound);
      size_bound = ground (arith, v.size_bound);
    }
edit-InBounds moves_right f v =
    let after = next_boundary-bounded f.bytes f.byte_cursor v.cursor_bound in
    record {
      cursor_bound = ground (arith, after, v.cursor_bound);
      size_bound = ground (arith, v.size_bound);
    }
edit-InBounds goes_home f v = record { cursor_bound = omega arith; size_bound = v.size_bound }
edit-InBounds goes_end f v = record { cursor_bound = omega arith; size_bound = v.size_bound }
edit-InBounds clears f v = record {
  cursor_bound = ground (arith, v.cursor_bound);
  size_bound = ground (arith, v.size_bound);
}
edit-InBounds (replaces text) f v = record {
  cursor_bound = ground (arith, v.cursor_bound);
  size_bound = ground (arith, v.size_bound);
}

edits_from-InBounds : (es : List Edit) (f : InputField) → InBounds f → InBounds (edits es f)
unfolding edits
edits_from-InBounds [] f v = v
edits_from-InBounds (e ∷ es) f v = edits_from-InBounds es (edit e f) (edit-InBounds e f v)

-- After any edits of a new field: the text is at most 65536 bytes long, and the cursor is not past
-- its end.
pub edits-InBounds : (es : List Edit) → InBounds (edits es new_field)
edits-InBounds es =
    edits_from-InBounds es new_field
      (record { cursor_bound = omega arith; size_bound = omega arith })
