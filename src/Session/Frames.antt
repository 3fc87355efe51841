-- ===== src/Session/Frames.antt =====
-- ClientSession::readFrame (serverf/client_session.cpp): frames of a byte stream, each ended by a
-- newline. What the socket gives is a list of arrivals, one for each call of read_some.
pub mod Chunks
pub mod Bounds
use protected_chat.Prelude.{
  ℕ, zero, suc, ◌+◌, ◌-◌, Bool, true, false, Option, none, some, List, [], ◌∷◌, ◌++◌, Bytes, length,
  take, drop, ltb, ◌==◌, min, if◌then◌else◌,
}

pub data FrameReadResult : Type 0 where
  frame : Bytes → FrameReadResult
  end_of_stream incomplete_frame too_large transport_failure : FrameReadResult

-- error_code after read_some
pub data ReadError : Type 0 where
  no_error end_of_file other_error : ReadError

-- One round of the loop: the stopping flag as it is loaded, and what read_some then gives.
pub record Arrival : Type 0 where
  pub stopping : Bool
  pub received : Bytes
  pub error : ReadError

-- The members of a session that only its handler thread uses.
pub record Reader : Type 0 where
  pub receive_buffer : Bytes
  pub end_of_stream_seen : Bool

abbrev pub max_inbound_json_bytes : ℕ
max_inbound_json_bytes = 65536

abbrev pub read_chunk_bytes : ℕ
read_chunk_bytes = 4096

abbrev pub newline : ℕ
newline = 10

abbrev pub carriage_return : ℕ
carriage_return = 13

-- receiveBuffer.find('\n')
unfoldable pub newline_at : Bytes → Option ℕ
newline_at [] = none
newline_at (x ∷ xs) =
    let later = newline_at xs in
    if x == newline then some 0 else elim later [ none ↦ none | some n ↦ some (suc n) ]

-- One carriage return at the end of a frame is dropped.
unfoldable pub strip_carriage_return : Bytes → Bytes
strip_carriage_return [] = []
strip_carriage_return (x ∷ []) = if x == carriage_return then [] else x ∷ []
strip_carriage_return (x ∷ y ∷ rest) = x ∷ strip_carriage_return (y ∷ rest)

abbrev pub is_empty : Bytes → Bool
is_empty [] = true
is_empty (x ∷ xs) = false

-- The head of the loop: what the bytes at hand decide; `none` asks for more.
unfoldable pub buffered : Reader → Option (FrameReadResult × Reader)
buffered r = elim (newline_at r.receive_buffer) [
  | some n ↦
      if ltb max_inbound_json_bytes n
      then some (too_large, r)
      else some (
        frame (strip_carriage_return (take n r.receive_buffer)),
        record r { receive_buffer = drop (suc n) r.receive_buffer },
      )
  | none ↦
      if ltb max_inbound_json_bytes (length r.receive_buffer)
      then some (too_large, r)
      else if r.end_of_stream_seen
      then some (if is_empty r.receive_buffer then end_of_stream else incomplete_frame, r)
      else none
]

-- The bytes that read_some is asked for, beside `size` bytes in the buffer.
unfoldable pub requested_bytes : ℕ → ℕ
requested_bytes size = min read_chunk_bytes (max_inbound_json_bytes + 1 - size)

unfoldable pub append_received : Arrival → Reader → Reader
append_received a r = record r { receive_buffer = r.receive_buffer ++ a.received }

-- readFrame, with the arrivals that are left; `none` while read_some blocks.
unfoldable pub read_frame : List Arrival → Reader → Option (FrameReadResult × Reader × List Arrival)
read_frame [] r = elim (buffered r) [ none ↦ none | some (result, r') ↦ some (result, r', []) ]
read_frame (a ∷ later) r = elim (buffered r) [
  | some (result, r') ↦ some (result, r', a ∷ later)
  | none ↦ elim a.stopping [
    | true ↦ some (transport_failure, r, a ∷ later)
    | false ↦ elim a.error [
      | no_error ↦ read_frame later (append_received a r)
      | end_of_file ↦ read_frame later (record (append_received a r) { end_of_stream_seen = true })
      | other_error ↦ some (transport_failure, append_received a r, later)
    ]
  ]
]
