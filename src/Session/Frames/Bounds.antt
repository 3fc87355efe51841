-- ===== src/Session/Frames/Bounds.antt =====
-- The receive buffer of a session is bounded, and a line that does not fit in it is refused.
use native.Mathlib.Decide.{dec_le}
use protected_chat.Prelude.{
  arith, refl, ◌+◌, inr, [], suc, ◌≤◌, none, inl, ◌∷◌, ℕ, List, ◌<◌, ap, ◌++◌, ◌≡◌, some, ◌⊎◌,
  Option-cases, length, length-append, Bytes, ◌∙◌, subst, sym, true, length-drop,
}
use protected_chat.Session.Frames.{
  FrameReadResult, read_frame, append_received, Reader, newline_at, too_large, Arrival, buffered,
  max_inbound_json_bytes, requested_bytes,
}
use protected_chat.Session.Frames.Chunks.{
  Ready, NoNewline, buffered_waits, stream, read_frame-waits, read_frame-buffered,
  Ready-append_received,
}
use protected_chat.Buffer.Calls.{left}

-- A stream that begins with bytes that hold no newline: the buffer holds none, or one behind them.
newline_beyond :
    (buffer rest long after : Bytes)
    → NoNewline long
    → buffer ++ rest ≡ long ++ after
    → ((newline_at buffer ≡ none) × (length buffer + length rest ≡ length long + length after))
      ⊎ ((n : ℕ) × (newline_at buffer ≡ some n) × (length long ≤ n))
unfolding newline_at
newline_beyond [] rest long after free e =
    inl (refl, omega (arith, ap length e, length-append long after))
newline_beyond (b ∷ buffer) rest [] after free e = elim (Option-cases (newline_at (b ∷ buffer))) [
  | inl none_found ↦ inl (none_found, omega (arith, ap length e, length-append (b ∷ buffer) rest))
  | inr (n, found) ↦ inr (n, found, omega arith)
]
newline_beyond (b ∷ buffer) rest (l ∷ long) after free e =
    elim (newline_beyond buffer rest long after free.1 (ground arith)) [
      | inl h ↦ inl (ground (arith, h), omega (arith, h.1))
      | inr h ↦ inr (suc h.0, ground (arith, h), omega (arith, h.2))
    ]

buffered-too_large :
    (r : Reader)
    → ((newline_at r.receive_buffer ≡ none) × (max_inbound_json_bytes < length r.receive_buffer))
      ⊎ ((n : ℕ) × (newline_at r.receive_buffer ≡ some n) × (max_inbound_json_bytes < n))
    → buffered r ≡ some (too_large, r)
unfolding buffered
buffered-too_large r (inl h) = ground (arith, h)
buffered-too_large r (inr h) = ground (arith, h)

too_large_now :
    (arrivals : List Arrival) (r : Reader)
    → ((newline_at r.receive_buffer ≡ none) × (max_inbound_json_bytes < length r.receive_buffer))
      ⊎ ((n : ℕ) × (newline_at r.receive_buffer ≡ some n) × (max_inbound_json_bytes < n))
    → (r' : Reader) × (later : List Arrival) × (read_frame arrivals r ≡ some (too_large, r', later))
too_large_now arrivals r h =
    (r, arrivals, read_frame-buffered arrivals r r too_large (buffered-too_large r h))

-- Whatever the arrivals cut the stream into: if its first 65537 bytes or more hold no newline,
-- readFrame returns TooLarge.
pub read_frame-too_large :
    (arrivals : List Arrival) (r : Reader) (long after : Bytes)
    → NoNewline long
    → max_inbound_json_bytes < length long
    → Ready arrivals r (long ++ after)
    → (r' : Reader) × (later : List Arrival) × (read_frame arrivals r ≡ some (too_large, r', later))
read_frame-too_large [] r long after free over ready =
    elim (newline_beyond r.receive_buffer [] long after free ready.holds) [
      | inl h ↦ too_large_now [] r (inl (h.0, omega (arith, h.1)))
      | inr h ↦ too_large_now [] r (inr (h.0, h.1, omega (arith, h.2)))
    ]
read_frame-too_large (a ∷ later) r long after free over ready =
    let (r', left, e) =
      read_frame-too_large later (append_received a r) long after free over
        (Ready-append_received a later r _ ready) in
    elim (newline_beyond r.receive_buffer (stream (a ∷ later)) long after free ready.holds) [
      | inl h ↦ elim (dec_le (length r.receive_buffer) max_inbound_json_bytes) [
        | yes small ↦
            let waits = buffered_waits r h.0 small ready.open_end in
            (r', left, read_frame-waits a later r waits ready.good.0.0 ready.good.0.1 ∙ e)
        | no large ↦ too_large_now (a ∷ later) r (inl (h.0, omega arith))
      ]
      | inr h ↦ too_large_now (a ∷ later) r (inr (h.0, h.1, omega (arith, h.2)))
    ]

-- What the socket promises: read_some gives no more than it is asked for.
abbrev pub Respects : List Arrival → ℕ → Type 0
Respects [] size = Unit
Respects (a ∷ later) size =
    (length a.received ≤ requested_bytes size) × Respects later (size + length a.received)

buffered-bounded :
    (r r' : Reader) (result : FrameReadResult)
    → buffered r ≡ some (result, r')
    → length r'.receive_buffer ≤ length r.receive_buffer
unfolding buffered
buffered-bounded r r' result e = elim (Option-cases (newline_at r.receive_buffer)) [
  | inl none_found ↦ ground (arith, none_found)
  | inr (n, found) ↦ ground (arith, found, length-drop (suc n) r.receive_buffer)
]

-- One arrival that respects the request leaves the buffer within its bound.
append_received-bounded :
    (a : Arrival) (r : Reader)
    → length r.receive_buffer ≤ max_inbound_json_bytes + 1
    → length a.received ≤ requested_bytes (length r.receive_buffer)
    → (length (append_received a r).receive_buffer ≤ max_inbound_json_bytes + 1)
      × (length (append_received a r).receive_buffer ≡ length r.receive_buffer + length a.received)
unfolding append_received requested_bytes
append_received-bounded a r small asked =
    let sum = length-append r.receive_buffer a.received in (omega (arith, sum), sum)

-- A receive buffer of at most 65537 bytes stays so, whatever readFrame returns, if read_some gives no
-- more than it is asked for.
pub read_frame-bounded :
    (arrivals : List Arrival) (r r' : Reader) (later : List Arrival) (result : FrameReadResult)
    → Respects arrivals (length r.receive_buffer)
    → length r.receive_buffer ≤ max_inbound_json_bytes + 1
    → read_frame arrivals r ≡ some (result, r', later)
    → length r'.receive_buffer ≤ max_inbound_json_bytes + 1
unfolding read_frame
read_frame-bounded [] r r' later result respects small e =
    ground (arith, buffered-bounded r r' result)
read_frame-bounded (a ∷ rest) r r' later result respects small e =
    let (bounded, size) = append_received-bounded a r small respects.0 in
    let left = subst (Respects rest) (sym size) respects.1 in
    let ended : Reader = record (append_received a r) { end_of_stream_seen = true } in
    ground (
      arith,
      buffered-bounded r r' result,
      read_frame-bounded rest (append_received a r) r' later result left bounded,
      read_frame-bounded rest ended r' later result left bounded,
      bounded,
    )
