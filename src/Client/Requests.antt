-- ===== src/Client/Requests.antt =====
-- The requests that a client sends by itself: sendJson, startPendingSynchronization,
-- flushAutomaticRequests and enqueueDeliveryAcknowledgement of clientf/client_connection.cpp.
use protected_chat.Prelude.{
  ℕ, zero, suc, Bool, true, false, not, ◌||◌, List, [], ◌∷◌, ◌++◌, none, some, String, Bytes, codes,
  length, is_nil, ltb, if◌then◌else◌, Option,
}
use protected_chat.Prelude.Int.{ℤ, pos}
use protected_chat.Json.{Json}
use protected_chat.Json.Writer.{Writer}
use protected_chat.Routing.Messages.{word}
use protected_chat.Client.State.{
  ClientConnection, ClientFrameKind, ClientSendResult, written, too_large, failed,
  max_outbound_json_bytes, max_automatic_requests, notify_automatic_request, request_stop,
  fail_with, begin_post_authentication, call, value_sent,
}

abbrev pub synchronization_fields : (w : Writer) → ℤ → List (String × w.Value)
synchronization_fields w after =
    ("type", word w "SYNC_PENDING")
    ∷ ("after_message_id", w.integer after)
    ∷ ("limit", w.integer (pos 50))
    ∷ []

-- The request for the page after `after`, up to the watermark of the pages before.
abbrev pub continuation_fields : (w : Writer) → ℤ → ℤ → List (String × w.Value)
continuation_fields w after through =
    ("type", word w "SYNC_PENDING")
    ∷ ("after_message_id", w.integer after)
    ∷ ("through_message_id", w.integer through)
    ∷ ("limit", w.integer (pos 50))
    ∷ []

abbrev pub acknowledgement_fields : (w : Writer) → ℤ → List (String × w.Value)
acknowledgement_fields w id = ("type", word w "DELIVERY_ACK") ∷ ("message_id", w.integer id) ∷ []

abbrev pub acknowledgement : (w : Writer) → ℤ → w.Value
acknowledgement w id = w.object (acknowledgement_fields w id)

module _ (w : Writer) (j : Json) where
  -- What other threads do while the frame handler runs or the receiver waits: they stop the
  -- connection, send a request, flush the automatic ones, or start what follows the authentication.
  pub data Act : Type 0 where
    stop_with : Bytes → Act
    send_request : w.Value → Act
    flush_up_to : ℕ → Act
    start_synchronization begin : Act

  -- The surroundings of a connection: whether the socket takes the whole of a value, the reason for
  -- which another thread stops the connection between sendJson's test and its write, whether the frame
  -- handler throws, and what the other threads do during a call of the frame handler, during the wait
  -- for beginPostAuthentication and during readFrame.
  pub record Surroundings : Type 0 where
    pub takes : ClientConnection w j → w.Value → Bool
    pub interrupts : ClientConnection w j → w.Value → Option Bytes
    pub throws : ClientConnection w j → ClientFrameKind → j.Value → Bool
    pub during : ClientConnection w j → ClientFrameKind → j.Value → List Act
    pub meanwhile : ClientConnection w j → List Act
    pub reading : ClientConnection w j → List Act

  unfoldable pub start_pending_synchronization : ClientConnection w j → Bool × ClientConnection w j
  start_pending_synchronization c =
      if c.pending_synchronization_active
      then (false, c)
      else if ltb (length c.automatic_requests) max_automatic_requests
      then (
        true,
        notify_automatic_request w j (record c {
          automatic_requests =
              c.automatic_requests ++ w.object (synchronization_fields w (pos 0)) ∷ [];
          pending_synchronization_active = true;
          pending_after_message_id = pos 0;
          pending_through_message_id = none;
        }),
      )
      else (false, fail_with w j "Automatic request queue overflow" c)

  unfoldable pub enqueue_delivery_acknowledgement :
      ℤ → ClientConnection w j → Bool × ClientConnection w j
  enqueue_delivery_acknowledgement id c =
      if ltb (length c.automatic_requests) max_automatic_requests
      then (
        true,
        notify_automatic_request w j
            (record c { automatic_requests = c.automatic_requests ++ acknowledgement w id ∷ [] }),
      )
      else (false, fail_with w j "Automatic request queue overflow" c)

  module _ (s : Surroundings) where
    -- What befalls a write that has passed the test of `stopping`: the lock keeps out other writes and
    -- close, but not requestStop.
    unfoldable pub interrupted : Option Bytes → ClientConnection w j → ClientConnection w j
    interrupted none c = c
    interrupted (some reason) c = request_stop w j reason c

    -- The write under the lock.
    unfoldable pub write_encoded :
        w.Value → ClientConnection w j → ClientSendResult × ClientConnection w j
    write_encoded v c =
        if c.stopping || not c.connected || c.closed
        then (failed, c)
        else let c' = interrupted (s.interrupts c v) c in
          if s.takes c' v
          then (written, call w j (value_sent v) c')
          else (failed, request_stop w j (codes "Socket write failed") c')

    unfoldable pub send_json :
        w.Value → ClientConnection w j → ClientSendResult × ClientConnection w j
    unfolding write_encoded
    send_json v c = elim (w.dump_size v) [
      | none ↦ (failed, request_stop w j (codes "Failed to encode outgoing request") c)
      | some size ↦ if ltb max_outbound_json_bytes size then (too_large, c) else write_encoded v c
    ]

    -- What follows the loop of flushAutomaticRequests.
    unfoldable pub flush_end : ClientConnection w j → Bool × ClientConnection w j
    flush_end c =
        if c.stopping
        then (false, c)
        else (true, if is_nil c.automatic_requests then c else notify_automatic_request w j c)

    -- `n` requests may still be flushed.
    unfoldable pub flush_automatic_requests : ℕ → ClientConnection w j → Bool × ClientConnection w j
    unfolding flush_end send_json
    flush_automatic_requests zero c = flush_end c
    flush_automatic_requests (suc n) c = elim c.stopping [
      | true ↦ flush_end c
      | false ↦ elim c.automatic_requests [
        | [] ↦ (true, c)
        | v ∷ rest ↦
            let (result, c') = send_json v (record c { automatic_requests = rest }) in
            elim result [
              | written ↦ flush_automatic_requests n c'
              | too_large ↦ (false, fail_with w j "Automatic request write failed" c')
              | failed ↦ (false, fail_with w j "Automatic request write failed" c')
            ]
      ]
    ]

    unfoldable pub act : Act → ClientConnection w j → ClientConnection w j
    act (stop_with reason) c = request_stop w j reason c
    act (send_request v) c = (send_json v c).1
    act (flush_up_to n) c = (flush_automatic_requests n c).1
    act start_synchronization c = (start_pending_synchronization c).1
    act begin c = begin_post_authentication w j c

    unfoldable pub acts : List Act → ClientConnection w j → ClientConnection w j
    unfolding act
    acts [] c = c
    acts (a ∷ rest) c = acts rest (act a c)
