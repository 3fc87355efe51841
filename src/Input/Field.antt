-- ===== src/Input/Field.antt =====
-- InputField of clientf/terminal_ui: a text of at most 64 KiB, with a cursor between its characters.
use protected_chat.Prelude.{
  ℕ, Bool, false, List, ◌++◌, ◌+◌, [], true, ◌∷◌, suc, zero, add64, sub64, ltb, leb, if◌then◌else◌,
  ◌==◌, drop, take, length, Bytes,
}
use protected_chat.Screen.Utf8.{continuation}

pub record InputField : Type 0 where
  pub bytes : Bytes
  pub byte_cursor : ℕ
  pub edit_revision : ℕ

abbrev pub max_bytes : ℕ
max_bytes = 65536

abbrev pub new_field : InputField
new_field = record { bytes = []; byte_cursor = 0; edit_revision = 0 }

-- text[index]; the byte at size() is zero.
abbrev pub byte_at : Bytes → ℕ → ℕ
byte_at [] index = 0
byte_at (x ∷ xs) zero = x
byte_at (x ∷ xs) (suc index) = byte_at xs index

-- The loop of previousBoundary
unfoldable pub back_from : Bytes → ℕ → ℕ
back_from text zero = 0
back_from text (suc cursor) =
    let before = back_from text cursor in
    if continuation (byte_at text (suc cursor)) then before else suc cursor

-- previousBoundary
unfoldable pub previous_boundary : Bytes → ℕ → ℕ
previous_boundary text zero = 0
previous_boundary text (suc cursor) = back_from text cursor

-- The loop of nextBoundary, on the bytes that follow the cursor: how far it goes.
unfoldable pub forward : Bytes → ℕ
forward [] = 0
forward (x ∷ rest) = let more = forward rest in if continuation x then suc more else 0

-- nextBoundary
unfoldable pub next_boundary : Bytes → ℕ → ℕ
unfolding forward
next_boundary text cursor =
    if leb (length text) cursor then length text else cursor + 1 + forward (drop (cursor + 1) text)

unfoldable pub insert : Bytes → InputField → Bool × InputField
insert text f = if ltb (sub64 max_bytes (length f.bytes)) (length text) then (false, f) else (
  true,
  record {
    bytes = take f.byte_cursor f.bytes ++ text ++ drop f.byte_cursor f.bytes;
    byte_cursor = add64 f.byte_cursor (length text);
    edit_revision = add64 f.edit_revision 1;
  },
)

unfoldable pub erase_before : InputField → Bool × InputField
unfolding previous_boundary
erase_before f = if f.byte_cursor == 0 then (false, f) else (
  true,
  record {
    bytes = take (previous_boundary f.bytes f.byte_cursor) f.bytes ++ drop f.byte_cursor f.bytes;
    byte_cursor = previous_boundary f.bytes f.byte_cursor;
    edit_revision = add64 f.edit_revision 1;
  },
)

unfoldable pub erase_at : InputField → Bool × InputField
erase_at f = if leb (length f.bytes) f.byte_cursor then (false, f) else (
  true,
  record f {
    bytes = take f.byte_cursor f.bytes ++ drop (next_boundary f.bytes f.byte_cursor) f.bytes;
    edit_revision = add64 f.edit_revision 1;
  },
)

unfoldable pub move_left : InputField → Bool × InputField
move_left f =
    let previous = previous_boundary f.bytes f.byte_cursor in
    if previous == f.byte_cursor then (false, f) else (true, record f { byte_cursor = previous })

unfoldable pub move_right : InputField → Bool × InputField
move_right f =
    let following = next_boundary f.bytes f.byte_cursor in
    if following == f.byte_cursor then (false, f) else (true, record f { byte_cursor = following })

unfoldable pub home : InputField → InputField
home f = record f { byte_cursor = 0 }

unfoldable pub end : InputField → InputField
end f = record f { byte_cursor = length f.bytes }

unfoldable pub clear : InputField → InputField
clear f =
    if length f.bytes == 0
    then f
    else record { bytes = []; byte_cursor = 0; edit_revision = add64 f.edit_revision 1 }

unfoldable pub replace : Bytes → InputField → Bool × InputField
replace text f = if ltb max_bytes (length text) then (false, f) else (
  true,
  record { bytes = text; byte_cursor = length text; edit_revision = add64 f.edit_revision 1 },
)

-- What the interface does with a field.
pub data Edit : Type 0 where
  inserts : Bytes → Edit
  erases_before : Edit
  erases_at : Edit
  moves_left : Edit
  moves_right : Edit
  goes_home : Edit
  goes_end : Edit
  clears : Edit
  replaces : Bytes → Edit

unfoldable pub edit : Edit → InputField → InputField
edit (inserts text) f = (insert text f).1
edit erases_before f = (erase_before f).1
edit erases_at f = (erase_at f).1
edit moves_left f = (move_left f).1
edit moves_right f = (move_right f).1
edit goes_home f = home f
edit goes_end f = end f
edit clears f = clear f
edit (replaces text) f = (replace text f).1

unfoldable pub edits : List Edit → InputField → InputField
edits [] f = f
edits (e ∷ es) f = edits es (edit e f)
