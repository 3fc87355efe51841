-- ===== src/Client/State.antt =====
-- The state of a ClientConnection (clientf/client_connection.h), and the calls that change its
-- authentication and its stop. The callbacks that the connection makes and the values that the socket
-- took are kept in `events`, in their order.
use protected_chat.Prelude.{
  ℕ, Bool, true, false, List, [], ◌∷◌, ◌++◌, ◌||◌, Option, none, String, Bytes, codes,
  if◌then◌else◌,
}
use protected_chat.Prelude.Int.{ℤ, pos}
use protected_chat.Json.{Json}
use protected_chat.Json.Writer.{Writer}

pub data AuthenticationResult : Type 0 where
  success rejected connection_stopped : AuthenticationResult

pub data ClientFrameKind : Type 0 where
  message_frame operation_result : ClientFrameKind

pub data ClientSendResult : Type 0 where
  written too_large failed : ClientSendResult

abbrev pub max_outbound_json_bytes : ℕ
max_outbound_json_bytes = 65536

abbrev pub max_automatic_requests : ℕ
max_automatic_requests = 256

module _ (w : Writer) (j : Json) where
  -- A call of the frame handler, the diagnostic handler, the notifier of automatic requests or the
  -- stop handler, with the reason of the stop; or a value that the socket took.
  pub data Event : Type 0 where
    frame_handled : ClientFrameKind → j.Value → Event
    diagnostic : String → Bool → Event
    request_notified : Event
    stop_handled : Bytes → Event
    value_sent : w.Value → Event

  pub record ClientConnection : Type 0 where
    pub automatic_requests : List w.Value
    pub pending_synchronization_active : Bool
    pub pending_after_message_id : ℤ
    pub pending_through_message_id : Option ℤ
    pub authenticated : Bool
    pub stopping : Bool
    pub authentication_complete : Bool
    pub authentication_result : AuthenticationResult
    pub authentication_message : Bytes
    pub recorded_stop_reason : Bytes
    pub post_authentication_enabled : Bool
    pub connected : Bool
    pub closed : Bool
    -- socket.shutdown was called
    pub socket_shut : Bool
    pub events : List Event

  -- The constructor
  unfoldable pub new_connection : ClientConnection
  new_connection = record {
    automatic_requests = [];
    pending_synchronization_active = false;
    pending_after_message_id = pos 0;
    pending_through_message_id = none;
    authenticated = false;
    stopping = false;
    authentication_complete = false;
    authentication_result = connection_stopped;
    authentication_message = [];
    recorded_stop_reason = [];
    post_authentication_enabled = false;
    connected = false;
    closed = false;
    socket_shut = false;
    events = [];
  }

  -- connect, where the resolver and the socket report no error
  unfoldable pub connect : ClientConnection → ClientConnection
  connect c = record c { connected = true }

  unfoldable pub call : Event → ClientConnection → ClientConnection
  call e c = record c { events = c.events ++ e ∷ [] }

  -- emitDiagnostic and notifyAutomaticRequest
  unfoldable pub emit_diagnostic : String → Bool → ClientConnection → ClientConnection
  unfolding call
  emit_diagnostic text error c = call (diagnostic text error) c

  unfoldable pub notify_automatic_request : ClientConnection → ClientConnection
  unfolding call
  notify_automatic_request c = call request_notified c

  unfoldable pub complete_authentication :
      AuthenticationResult → Bytes → ClientConnection → ClientConnection
  complete_authentication result text c = if c.authentication_complete then c else record c {
    authentication_complete = true;
    authentication_result = result;
    authentication_message = text;
  }

  -- What requestStop does where it is the first.
  unfoldable pub first_stop : Bytes → ClientConnection → ClientConnection
  unfolding complete_authentication
  first_stop reason c =
      let c' = complete_authentication connection_stopped reason c in
      record c' {
        stopping = true;
        recorded_stop_reason = reason;
        socket_shut = c.socket_shut || c.connected;
        events = c.events ++ stop_handled reason ∷ [];
      }

  unfoldable pub request_stop : Bytes → ClientConnection → ClientConnection
  unfolding first_stop
  request_stop reason c = if c.stopping then c else first_stop reason c

  -- A diagnostic, and a stop with the same words.
  unfoldable pub fail_with : String → ClientConnection → ClientConnection
  unfolding emit_diagnostic request_stop
  fail_with reason c = request_stop (codes reason) (emit_diagnostic reason true c)

  unfoldable pub begin_post_authentication : ClientConnection → ClientConnection
  begin_post_authentication c = record c { post_authentication_enabled = true }

  -- close
  unfoldable pub close : ClientConnection → ClientConnection
  close c = if c.closed then c else record c { connected = false; closed = true }
