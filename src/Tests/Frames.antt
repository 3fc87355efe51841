-- ===== src/Tests/Frames.antt =====
-- Two lines that come in three pieces, and a stream without a newline.
use protected_chat.Prelude.{
  ℕ, refl, zero, List, ◌≤◌, arith, some, ◌+◌, [], false, ap, suc, map, ◌∷◌, ◌≡◌, ◌++◌, Bytes,
  length,
}
use protected_chat.Session.Frames.Bounds.{read_frame-too_large, Respects, read_frame-bounded}
use protected_chat.Session.Frames.Chunks.{
  Ready, encode_lines, NoNewline, read_frame-line, Reads, ReadsLine, encode_lines-Reads,
}
use protected_chat.Session.Frames.{
  max_inbound_json_bytes, frame, append_received, too_large, requested_bytes, no_error,
  strip_carriage_return, newline_at, Reader, Arrival, read_frame, buffered,
}

abbrev piece : Bytes → Arrival
piece bytes = record { stopping = false; received = bytes; error = no_error }

abbrev pieces : List Arrival
pieces = piece (97 ∷ []) ∷ piece (98 ∷ 13 ∷ 10 ∷ 99 ∷ []) ∷ piece (10 ∷ []) ∷ []

abbrev new_reader : Reader
new_reader = record { receive_buffer = []; end_of_stream_seen = false }

abbrev first_line : Bytes
first_line = 97 ∷ 98 ∷ 13 ∷ []

abbrev second_line : Bytes
second_line = 99 ∷ []

first_line-NoNewline : NoNewline first_line
first_line-NoNewline = (omega arith, (omega arith, (omega arith, tt)))

pieces-Ready : Ready pieces new_reader (encode_lines (first_line ∷ second_line ∷ []) [])
pieces-Ready = record {
  good = ((refl, refl), ((refl, refl), ((refl, refl), tt)));
  open_end = refl;
  holds = refl;
}

read_frame-line_example : ReadsLine pieces new_reader first_line (99 ∷ 10 ∷ [])
read_frame-line_example =
    read_frame-line pieces new_reader first_line (99 ∷ 10 ∷ []) first_line-NoNewline (omega arith)
      pieces-Ready

encode_lines-Reads_example :
    Reads pieces new_reader (map strip_carriage_return (first_line ∷ second_line ∷ []))
encode_lines-Reads_example =
    encode_lines-Reads (first_line ∷ second_line ∷ []) pieces new_reader []
      ((first_line-NoNewline, omega arith), (((omega arith, tt), omega arith), tt)) pieces-Ready

-- A letter that is repeated.
repeated : ℕ → Bytes
repeated zero = []
repeated (suc n) = 97 ∷ repeated n

abbrev flood : Reader
flood = record { receive_buffer = repeated 65537; end_of_stream_seen = false }

repeated-NoNewline : (n : ℕ) → NoNewline (repeated n)
unfolding repeated
repeated-NoNewline zero = tt
repeated-NoNewline (suc n) = (omega arith, repeated-NoNewline n)

length-repeated : (n : ℕ) → length (repeated n) ≡ n
unfolding repeated
length-repeated zero = refl
length-repeated (suc n) = ap suc (length-repeated n)

flood-Ready : Ready [] flood (repeated 65537 ++ [])
flood-Ready = record { good = tt; open_end = refl; holds = refl }

read_frame-too_large_example :
    (r' : Reader) × (later : List Arrival) × (read_frame [] flood ≡ some (too_large, r', later))
read_frame-too_large_example =
    read_frame-too_large [] flood (repeated 65537) [] (repeated-NoNewline 65537)
      (omega (arith, length-repeated 65537)) flood-Ready

abbrev after_line : Reader
after_line = record { receive_buffer = 99 ∷ []; end_of_stream_seen = false }

read-line :
    read_frame pieces new_reader ≡ some (frame (97 ∷ 98 ∷ []), after_line, piece (10 ∷ []) ∷ [])
unfolding read_frame buffered newline_at append_received strip_carriage_return
read-line = refl

pieces-Respects : Respects pieces 0
unfolding requested_bytes
pieces-Respects = (omega arith, (omega arith, (omega arith, tt)))

read_frame-bounded_example : length after_line.receive_buffer ≤ max_inbound_json_bytes + 1
read_frame-bounded_example =
    read_frame-bounded pieces new_reader after_line (piece (10 ∷ []) ∷ []) (frame (97 ∷ 98 ∷ []))
      pieces-Respects (omega arith) read-line
