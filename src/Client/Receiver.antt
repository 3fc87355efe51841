-- ===== src/Client/Receiver.antt =====
-- dispatchFrame and receiveLoop of a ClientConnection as sequences of steps.
use protected_chat.Prelude.{
  true, false, List, [], ◌∷◌, Option, Bytes, elim_bool, elim_option, if_cases, not, ◌&&◌,
}
use protected_chat.Json.{Json, read_string}
use protected_chat.Json.Writer.{Writer}
use protected_chat.Client.Steps.{Reach, Reach-trans, here}
use protected_chat.Client.Requests.{Surroundings}
use protected_chat.Client.Loop.{
  pending_answer-Reach, authentication_answer-Reach, emit_diagnostic-Reach, handle_frame-Reach,
  ignore_frame-Reach, stop_by-Reach, message_event-Reach, refuse_authentication-Reach,
}
use protected_chat.Client.Receive.{
  receive_frame, receive_loop, wait_for_post_authentication, stop_by, dispatch_and_wait,
}
use protected_chat.Session.Frames.{FrameReadResult}
use protected_chat.Client.Runs.{acts-Reach, Runs, fail_with-Reach}
use protected_chat.Client.Dispatch.{
  operation_answer, valid_acknowledgement, authenticated_frame, dispatch_frame, is_operation,
  discovery_fits, is_discovery,
}
use protected_chat.Client.State.{operation_result, ClientConnection}
use protected_chat.Client.Fields.{has_text, has_string, string_is_one_of}
use protected_chat.Client.Envelope.{valid_history_page}

module _ (w : Writer) (j : Json) (s : Surroundings w j) where
  operation_answer-Reach :
      (message : j.Value) (operation : Option Bytes) (c : ClientConnection w j)
      → Runs w j c (operation_answer w j s message operation c)
  unfolding operation_answer
  operation_answer-Reach message operation c =
      if_cases (Runs w j c)
        (is_discovery w j operation && not (discovery_fits w j message operation)) _ _
        (λ _. fail_with-Reach w j c _)
        (λ _.
          if_cases (Runs w j c) (is_operation operation "DELIVERY_ACK") _ _
            (λ _.
              if_cases (Runs w j c) (valid_acknowledgement w j message) _ _ (λ _. here)
                (λ _. fail_with-Reach w j c _))
            (λ _.
              if_cases (Runs w j c) (is_operation operation "SYNC_PENDING") _ _
                (λ _. pending_answer-Reach w j s message c)
                (λ _.
                  if_cases (Runs w j c)
                    (is_operation operation "HISTORY"
                      && has_text j message "status" "SUCCESS"
                      && not (valid_history_page j message))
                    _ _ (λ _. fail_with-Reach w j c _)
                    (λ _. handle_frame-Reach w j s operation_result message c))))

  authenticated_frame-Reach :
      (message : j.Value) (c : ClientConnection w j)
      → Runs w j c (authenticated_frame w j s message c)
  unfolding authenticated_frame
  authenticated_frame-Reach message c =
      if_cases (Runs w j c) (has_text j message "type" "MESSAGE") _ _
        (λ _. message_event-Reach w j s message c)
        (λ _.
          if_cases (Runs w j c)
            (string_is_one_of j message "status" ("SUCCESS" ∷ "FAIL" ∷ [])
              && has_string j message "message")
            _ _ (λ _. operation_answer-Reach message (read_string j message "operation") c)
            (λ _. emit_diagnostic-Reach w j _ true c))

  dispatch_frame-Reach :
      (message : j.Value) (c : ClientConnection w j) → Runs w j c (dispatch_frame w j s message c)
  unfolding dispatch_frame
  dispatch_frame-Reach message c =
      if_cases (Runs w j c) (not (j.is_object message)) _ _
        (λ _.
          if_cases (Runs w j c) c.authenticated _ _ (λ _. emit_diagnostic-Reach w j _ true c)
            (λ _. refuse_authentication-Reach w j c))
        (λ _.
          if_cases (Runs w j c) c.authenticated _ _ (λ _. authenticated_frame-Reach message c)
            (λ _. authentication_answer-Reach w j _ _ c))

  module _ (parse : Bytes → Option j.Value) where
    dispatch_and_wait-Reach :
        (message : j.Value) (c : ClientConnection w j)
        → Runs w j c (dispatch_and_wait w j s parse message c)
    unfolding dispatch_and_wait
    dispatch_and_wait-Reach message c =
        let (running, c') = dispatch_frame w j s message c in
        Reach-trans w j (dispatch_frame-Reach message c) (
          if_cases (Runs w j c') (not running) _ _ (λ _. here)
            (λ _.
              if_cases (Runs w j c') (not c'.authenticated) _ _ (λ _. here)
                (λ _.
                  elim_option (Runs w j c') (wait_for_post_authentication w j s parse c').0 _ _
                    (λ _. acts-Reach w j s _ c') (λ _ _. acts-Reach w j s _ c'))))

    receive_frame-Reach :
        (text : Bytes) (c : ClientConnection w j) → Runs w j c (receive_frame w j s parse text c)
    unfolding receive_frame
    receive_frame-Reach [] c = ignore_frame-Reach w j _ c
    receive_frame-Reach (x ∷ text) c =
        elim_option (Runs w j c) (parse (x ∷ text)) _ _ (λ _. ignore_frame-Reach w j _ c)
          (λ message _. dispatch_and_wait-Reach message c)

    -- What the loop does with a result of readFrame.
    result-Reach :
        (result : FrameReadResult) (results : List FrameReadResult) (c : ClientConnection w j)
        → ((d : ClientConnection w j) → Reach w j d (receive_loop w j s parse results d))
        → Reach w j c (elim result [
          | FrameReadResult.frame text ↦
              let (running, after) = receive_frame w j s parse text c in
              elim running [ true ↦ receive_loop w j s parse results after | false ↦ after ]
          | other ↦ stop_by w j other c
        ])
    result-Reach (FrameReadResult.frame text) results c ih =
        let (running, after) = receive_frame w j s parse text c in
        Reach-trans w j (receive_frame-Reach text c)
          (elim_bool (Reach w j after) running _ _ (λ _. ih after) (λ _. here))
    result-Reach FrameReadResult.too_large results c ih = stop_by-Reach w j _ c
    result-Reach FrameReadResult.incomplete_frame results c ih = stop_by-Reach w j _ c
    result-Reach FrameReadResult.end_of_stream results c ih = stop_by-Reach w j _ c
    result-Reach FrameReadResult.transport_failure results c ih = stop_by-Reach w j _ c

    -- Whatever readFrame gives and whatever the other threads do, the receiver's loop changes the
    -- connection by steps only.
    pub receive_loop-Reach :
        (results : List FrameReadResult) (c : ClientConnection w j)
        → Reach w j c (receive_loop w j s parse results c)
    unfolding receive_loop
    receive_loop-Reach [] c = here
    receive_loop-Reach (result ∷ results) c =
        let ih = receive_loop-Reach results in
        elim_bool (Reach w j c) c.stopping _ _ (λ _. here)
          (λ _.
            Reach-trans w j (acts-Reach w j s (s.reading c) c) (result-Reach result results _ ih))
