-- ===== src/Client/Dispatch.antt =====
-- dispatchFrame of clientf/client_connection.cpp: a frame of the server by its kind. The Boolean says
-- whether the receiver goes on.
use protected_chat.Prelude.{
  Bool, true, false, not, ◌&&◌, ◌||◌, [], ◌∷◌, Option, none, some, String, Bytes, codes, bytes_eq,
  if◌then◌else◌,
}
use protected_chat.Json.{Json, read_string}
use protected_chat.Json.Writer.{Writer}
use protected_chat.Client.Fields.{has_text, has_string, has_positive, string_is_one_of}
use protected_chat.Client.Envelope.{valid_history_page}
use protected_chat.Client.State.{
  ClientConnection, success, rejected, connection_stopped, operation_result, emit_diagnostic,
  fail_with, complete_authentication, request_stop,
}
use protected_chat.Client.Requests.{Surroundings}
use protected_chat.Client.Pending.{handle_frame, process_pending_page, process_delivery_message}
use protected_chat.Client.Discovery.{valid_discovery_response}

-- What a reply says about its operation.
abbrev pub is_operation : Option Bytes → String → Bool
is_operation none name = false
is_operation (some s) name = bytes_eq s (codes name)

module _ (w : Writer) (j : Json) where
  -- A frame before the login that is no answer to it.
  unfoldable pub refuse_authentication : ClientConnection w j → ClientConnection w j
  refuse_authentication c =
      fail_with w j "Invalid authentication response"
        (complete_authentication w j connection_stopped (codes "Invalid authentication response") c)

  unfoldable pub authentication_answer :
      Option Bytes → Option Bytes → ClientConnection w j → Bool × ClientConnection w j
  unfolding refuse_authentication
  authentication_answer none detail c = (false, refuse_authentication c)
  authentication_answer (some status) none c = (false, refuse_authentication c)
  authentication_answer (some status) (some detail) c =
      if bytes_eq status (codes "SUCCESS")
      then (true, complete_authentication w j success detail (record c { authenticated = true }))
      else if bytes_eq status (codes "FAIL")
      then (
        false,
        request_stop w j (codes "Authentication rejected")
            (complete_authentication w j rejected detail c),
      )
      else (false, refuse_authentication c)

  abbrev pub is_discovery : Option Bytes → Bool
  is_discovery none = false
  is_discovery (some name) =
      bytes_eq name (codes "CONTACT_ADD")
      || bytes_eq name (codes "CONTACT_LIST")
      || bytes_eq name (codes "USER_SEARCH")
      || bytes_eq name (codes "GROUP_SEARCH")

  abbrev pub discovery_fits : j.Value → Option Bytes → Bool
  discovery_fits message none = true
  discovery_fits message (some name) = valid_discovery_response j message name

  -- The answer to a DELIVERY_ACK that lets the connection go on.
  unfoldable pub valid_acknowledgement : j.Value → Bool
  valid_acknowledgement message =
      has_text j message "status" "SUCCESS"
      && string_is_one_of j message "code" ("ACKNOWLEDGED" ∷ "ALREADY_ACKNOWLEDGED" ∷ [])
      && has_positive j message "message_id"

  module _ (s : Surroundings w j) where
    -- A page of SYNC_PENDING that is not taken stops the connection.
    unfoldable pub pending_answer : j.Value → ClientConnection w j → Bool × ClientConnection w j
    pending_answer message c =
        if not (has_text j message "status" "SUCCESS")
        then (false, fail_with w j "Pending synchronization failed" c)
        else let (taken, c') = process_pending_page w j s message c in
          if taken
          then (true, c')
          else if c'.stopping
          then (false, c')
          else (false, fail_with w j "Pending synchronization failed" c')

    -- A reply, by the operation that it names.
    unfoldable pub operation_answer :
        j.Value → Option Bytes → ClientConnection w j → Bool × ClientConnection w j
    unfolding valid_acknowledgement pending_answer
    operation_answer message operation c =
        if is_discovery operation && not (discovery_fits message operation)
        then (false, fail_with w j "Invalid discovery response" c)
        else if is_operation operation "DELIVERY_ACK"
        then (if valid_acknowledgement message
            then (true, c)
            else (false, fail_with w j "Automatic delivery acknowledgement failed" c))
        else if is_operation operation "SYNC_PENDING"
        then pending_answer message c
        else if is_operation operation "HISTORY"
            && has_text j message "status" "SUCCESS"
            && not (valid_history_page j message)
        then (false, fail_with w j "Invalid HISTORY response" c)
        else (
          not (s.throws c operation_result message),
          handle_frame w j s operation_result message c,
        )

    -- A MESSAGE event: one that is not taken is ignored, unless the connection stops.
    unfoldable pub message_event : j.Value → ClientConnection w j → Bool × ClientConnection w j
    message_event message c =
        let (taken, c') = process_delivery_message w j s message c in
        if taken
        then (true, c')
        else if c'.stopping
        then (false, c')
        else (true, emit_diagnostic w j "Ignored an invalid MESSAGE event" true c')

    unfoldable pub authenticated_frame :
        j.Value → ClientConnection w j → Bool × ClientConnection w j
    unfolding message_event operation_answer
    authenticated_frame message c =
        if has_text j message "type" "MESSAGE"
        then message_event message c
        else if string_is_one_of j message "status" ("SUCCESS" ∷ "FAIL" ∷ [])
            && has_string j message "message"
        then operation_answer message (read_string j message "operation") c
        else (true, emit_diagnostic w j "Ignored an unrecognized server frame" true c)

    unfoldable pub dispatch_frame : j.Value → ClientConnection w j → Bool × ClientConnection w j
    unfolding authenticated_frame authentication_answer
    dispatch_frame message c =
        if not (j.is_object message)
        then (if c.authenticated
            then (true, emit_diagnostic w j "Ignored a server frame with an invalid shape" true c)
            else (false, refuse_authentication c))
        else if c.authenticated
        then authenticated_frame message c
        else authentication_answer (read_string j message "status")
            (read_string j message "message") c
