-- ===== src/Session/Frames/Chunks.antt =====
-- The frames that readFrame returns do not depend on how the socket cuts the stream.
use protected_chat.Prelude.{
  suc, ◌≤◌, ◌≡◌, ◌≢◌, refl, ◌⊎◌, inl, inr, false, none, some, List, [], ◌∷◌, ◌++◌, Bytes, All,
  length, take, drop, arith, ◌∙◌,
}
use mathlib.Core.List.{append_assoc, map}
use native.Mathlib.Nat.{le_trans}
use protected_chat.Session.Frames.{
  no_error, Arrival, newline, newline_at, buffered, read_frame, Reader, max_inbound_json_bytes,
  FrameReadResult, append_received, frame, strip_carriage_return,
}
use protected_chat.Buffer.Calls.{left}

abbrev pub NoNewline : Bytes → Type 0
NoNewline = All (λ x. x ≢ newline)

-- Arrivals without an error, while the session is not stopping.
abbrev pub AllGood : List Arrival → Type 0
AllGood = All (λ a. (a.stopping ≡ false) × (a.error ≡ no_error))

abbrev pub stream : List Arrival → Bytes
stream [] = []
stream (a ∷ later) = a.received ++ stream later

-- Where a line ends in a stream of which the first part is in the buffer.
pub newline_split :
    (buffer rest line after : Bytes)
    → NoNewline line
    → buffer ++ rest ≡ line ++ newline ∷ after
    → ((newline_at buffer ≡ none) × (length buffer ≤ length line) × (rest ≢ []))
      ⊎ ((newline_at buffer ≡ some (length line))
          × (take (length line) buffer ≡ line)
          × (drop (suc (length line)) buffer ++ rest ≡ after))
unfolding newline_at
newline_split [] rest [] after free e = inl (refl, omega arith, λ h. cc)
newline_split [] rest (l ∷ line) after free e = inl (refl, omega arith, λ h. cc)
newline_split (b ∷ buffer) rest [] after free e = inr (ground arith, refl, ground arith)
newline_split (b ∷ buffer) rest (l ∷ line) after free e =
    elim (newline_split buffer rest line after free.1 (ground arith)) [
      | inl h ↦ inl (ground (arith, h), omega (arith, h.1), h.2)
      | inr h ↦ inr (ground (arith, h), ground (arith, h), ground (arith, h))
    ]

-- What a reader that has the whole line in hand returns, and what one without it waits for.
pub buffered_line :
    (r : Reader) (line : Bytes)
    → length line ≤ max_inbound_json_bytes
    → newline_at r.receive_buffer ≡ some (length line)
    → take (length line) r.receive_buffer ≡ line
    → buffered r
      ≡ some (
        frame (strip_carriage_return line),
        record r { receive_buffer = drop (suc (length line)) r.receive_buffer },
      )
unfolding buffered
buffered_line r line fits e t = ground (arith, e, t)

pub buffered_waits :
    (r : Reader)
    → newline_at r.receive_buffer ≡ none
    → length r.receive_buffer ≤ max_inbound_json_bytes
    → r.end_of_stream_seen ≡ false
    → buffered r ≡ none
unfolding buffered
buffered_waits r e fits open_end = ground (arith, e, open_end)

pub read_frame-buffered :
    (arrivals : List Arrival) (r r' : Reader) (result : FrameReadResult)
    → buffered r ≡ some (result, r')
    → read_frame arrivals r ≡ some (result, r', arrivals)
unfolding read_frame
read_frame-buffered [] r r' result e = ground (arith, e)
read_frame-buffered (a ∷ later) r r' result e = ground (arith, e)

pub read_frame-waits :
    (a : Arrival) (later : List Arrival) (r : Reader)
    → buffered r ≡ none
    → a.stopping ≡ false
    → a.error ≡ no_error
    → read_frame (a ∷ later) r ≡ read_frame later (append_received a r)
unfolding read_frame
read_frame-waits a later r e going good = ground (arith, e, going, good)

-- A reader and arrivals that hold `after`, and have met no error.
pub record Ready (arrivals : List Arrival) (r : Reader) (after : Bytes) : Type 0 where
  pub good : AllGood arrivals
  pub open_end : r.end_of_stream_seen ≡ false
  pub holds : r.receive_buffer ++ stream arrivals ≡ after

pub Ready-append_received :
    (a : Arrival) (later : List Arrival) (r : Reader) (after : Bytes)
    → Ready (a ∷ later) r after
    → Ready later (append_received a r) after
unfolding append_received
Ready-append_received a later r after ready = record {
  good = ready.good.1;
  open_end = ready.open_end;
  holds = append_assoc r.receive_buffer a.received (stream later) ∙ ready.holds;
}

-- What readFrame comes to: the frame of `line`, and a reader before what follows.
abbrev pub ReadsLine : List Arrival → Reader → Bytes → Bytes → Type 0
ReadsLine arrivals r line after =
    (r' : Reader) × (later : List Arrival) × (read_frame arrivals r
      ≡ some (frame (strip_carriage_return line), r', later))
    × Ready later r' after

pub line_in_hand :
    (arrivals : List Arrival) (r : Reader) (line after : Bytes)
    → length line ≤ max_inbound_json_bytes
    → Ready arrivals r (line ++ newline ∷ after)
    → newline_at r.receive_buffer ≡ some (length line)
    → take (length line) r.receive_buffer ≡ line
    → drop (suc (length line)) r.receive_buffer ++ stream arrivals ≡ after
    → ReadsLine arrivals r line after
line_in_hand arrivals r line after fits ready at t d = (
  record r { receive_buffer = drop (suc (length line)) r.receive_buffer },
  arrivals,
  read_frame-buffered arrivals r _ _ (buffered_line r line fits at t),
  record { good = ready.good; open_end = ready.open_end; holds = d },
)

-- Whatever the arrivals cut the stream into: if the stream begins with a line of at most 65536
-- bytes and its newline, readFrame returns that line as the frame, without a carriage return at its
-- end, and leaves the reader before what follows.
pub read_frame-line :
    (arrivals : List Arrival) (r : Reader) (line after : Bytes)
    → NoNewline line
    → length line ≤ max_inbound_json_bytes
    → Ready arrivals r (line ++ newline ∷ after)
    → ReadsLine arrivals r line after
read_frame-line [] r line after free fits ready =
    elim (newline_split r.receive_buffer [] line after free ready.holds) [
      | inl h ↦ absurd (h.2 refl)
      | inr h ↦ line_in_hand [] r line after fits ready h.0 h.1 h.2
    ]
read_frame-line (a ∷ later) r line after free fits ready =
    let (r', left, e, rest) =
      read_frame-line later (append_received a r) line after free fits
        (Ready-append_received a later r _ ready) in
    elim (newline_split r.receive_buffer (stream (a ∷ later)) line after free ready.holds) [
      | inl h ↦
          let waits = buffered_waits r h.0 (le_trans h.1 fits) ready.open_end in
          (r', left, read_frame-waits a later r waits ready.good.0.0 ready.good.0.1 ∙ e, rest)
      | inr h ↦ line_in_hand (a ∷ later) r line after fits ready h.0 h.1 h.2
    ]

-- A handler that reads frame after frame.
pub data Reads : List Arrival → Reader → List Bytes → Type 0 where
  nothing : {arrivals : List Arrival} {r : Reader} → Reads arrivals r []
  next :
      {arrivals later : List Arrival} {r r' : Reader} {content : Bytes} {contents : List Bytes}
      → read_frame arrivals r ≡ some (frame content, r', later)
      → Reads later r' contents
      → Reads arrivals r (content ∷ contents)

-- The bytes of the lines, each with its newline.
abbrev pub encode_lines : List Bytes → Bytes → Bytes
encode_lines [] after = after
encode_lines (line ∷ lines) after = line ++ newline ∷ encode_lines lines after

abbrev pub AllLines : List Bytes → Type 0
AllLines = All (λ line. NoNewline line × (length line ≤ max_inbound_json_bytes))

-- Lines of at most 65536 bytes that are sent one after another are read as their frames, each
-- without a carriage return at its end, in order and however the socket cuts the stream.
pub encode_lines-Reads :
    (lines : List Bytes) (arrivals : List Arrival) (r : Reader) (after : Bytes)
    → AllLines lines
    → Ready arrivals r (encode_lines lines after)
    → Reads arrivals r (map strip_carriage_return lines)
encode_lines-Reads [] arrivals r after all ready = nothing
encode_lines-Reads (line ∷ lines) arrivals r after all ready =
    let (r', later, e, rest) =
      read_frame-line arrivals r line (encode_lines lines after) all.0.0 all.0.1 ready in
    next e (encode_lines-Reads lines later r' after all.1 rest)
