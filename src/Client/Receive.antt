-- ===== src/Client/Receive.antt =====
-- receiveLoop of clientf/client_connection.cpp. What readFrame gives is a list of results; the loop
-- is recursion on it and is blocked in readFrame where the list ends.
use protected_chat.Prelude.{
  Bool, true, false, not, List, [], ◌∷◌, Option, none, some, Bytes, if◌then◌else◌, String, codes,
}
use protected_chat.Json.{Json}
use protected_chat.Json.Writer.{Writer}
use protected_chat.Client.State.{ClientConnection, emit_diagnostic, request_stop}
use protected_chat.Client.Requests.{Surroundings, acts}
use protected_chat.Client.Dispatch.{dispatch_frame, refuse_authentication}
use protected_chat.Session.Frames.{FrameReadResult}

module _ (w : Writer) (j : Json) where
  -- A result of readFrame that is no frame ends the loop.
  unfoldable pub transport_end :
      String → Bool → String → ClientConnection w j → ClientConnection w j
  transport_end text error reason c =
      request_stop w j (codes reason) (emit_diagnostic w j text error c)

  unfoldable pub stop_by : FrameReadResult → ClientConnection w j → ClientConnection w j
  unfolding transport_end
  stop_by (FrameReadResult.frame text) c = c
  stop_by FrameReadResult.too_large c =
      transport_end "Server frame exceeded the client receive limit" true "Server frame too large" c
  stop_by FrameReadResult.incomplete_frame c =
      transport_end "Server closed during an incomplete frame" true "Incomplete server frame" c
  stop_by FrameReadResult.end_of_stream c =
      if c.stopping
      then c
      else transport_end "Server closed the connection" false "Server closed the connection" c
  stop_by FrameReadResult.transport_failure c =
      if c.stopping then c else transport_end "Socket read failed" true "Socket read failed" c

  -- A frame that holds no JSON.
  unfoldable pub ignore_frame : String → ClientConnection w j → Bool × ClientConnection w j
  ignore_frame text c =
      if c.authenticated
      then (true, emit_diagnostic w j text true c)
      else (false, refuse_authentication w j c)

  -- `parse` is json::parse, with `none` for a discarded value.
  module _ (s : Surroundings w j) (parse : Bytes → Option j.Value) where
    -- waitForPostAuthentication, after what the other threads do meanwhile: `none` where the wait
    -- does not end.
    unfoldable pub wait_for_post_authentication :
        ClientConnection w j → Option Bool × ClientConnection w j
    wait_for_post_authentication c =
        let c' = acts w j s (s.meanwhile c) c in
        (
          if c'.stopping
              then some false
              else if c'.post_authentication_enabled
              then some true
              else none,
          c',
        )

    -- A frame that is dispatched, and the wait that follows.
    unfoldable pub dispatch_and_wait : j.Value → ClientConnection w j → Bool × ClientConnection w j
    unfolding wait_for_post_authentication
    dispatch_and_wait message c =
        let (running, c') = dispatch_frame w j s message c in
        if not running
        then (false, c')
        else if not c'.authenticated
        then (true, c')
        else let (waited, after) = wait_for_post_authentication c' in
          elim waited [ none ↦ (false, after) | some enabled ↦ (enabled, after) ]

    unfoldable pub receive_frame : Bytes → ClientConnection w j → Bool × ClientConnection w j
    unfolding ignore_frame dispatch_and_wait
    receive_frame [] c = ignore_frame "Ignored an empty server frame" c
    receive_frame (x ∷ text) c = elim (parse (x ∷ text)) [
      | none ↦ ignore_frame "Ignored malformed server JSON" c
      | some message ↦ dispatch_and_wait message c
    ]

    unfoldable pub receive_loop : List FrameReadResult → ClientConnection w j → ClientConnection w j
    unfolding receive_frame stop_by
    receive_loop [] c = c
    receive_loop (result ∷ results) c = elim c.stopping [
      | true ↦ c
      | false ↦
          let c' = acts w j s (s.reading c) c in
          elim result [
            | FrameReadResult.frame text ↦
                let (running, after) = receive_frame text c' in
                elim running [ true ↦ receive_loop results after | false ↦ after ]
            | other ↦ stop_by other c'
          ]
    ]
