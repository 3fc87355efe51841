-- ===== src/Buffer/Envelope.antt =====
-- How MessageBuffer::receiveValidated (clientf/message_buffer.cpp) reads a delivery envelope.
use protected_chat.Prelude.{Option, none, some, Bytes, bytes_eq, codes, if◌then◌else◌, ◌>>=◌}
use protected_chat.Prelude.Int.{pos}
use protected_chat.Json.{Json, read_positive_integer, read_nonnegative_integer, read_string}
use protected_chat.Buffer.Key.{ConversationKey, private_chat, group_chat, broadcast}
use protected_chat.Buffer.State.{Incoming}

module _ (j : Json) where
  open j use {Value}

  -- The conversation that the kind names; `none` refuses the kind or the group id.
  unfoldable pub envelope_key : Value → Bytes → Bytes → Option ConversationKey
  envelope_key message kind sender =
      if bytes_eq kind (codes "PRIVATE")
      then some (private_chat sender)
      else if bytes_eq kind (codes "GROUP")
      then (do id ← read_positive_integer j message "group_id"; some (group_chat (pos id)))
      else if bytes_eq kind (codes "BROADCAST")
      then some broadcast
      else none

  -- `none` is the refusal by Conflict before the buffer is locked.
  unfoldable pub parse_incoming : Value → Option Incoming
  parse_incoming message = do
    message_id ← read_positive_integer j message "message_id"
    sender_id ← read_positive_integer j message "sender_id"
    created_at ← read_nonnegative_integer j message "created_at"
    kind ← read_string j message "kind"
    sender ← read_string j message "sender"
    content ← read_string j message "content"
    key ← envelope_key message kind sender
    some (record {
      message_id = message_id;
      key = key;
      sender = sender;
      sender_id = sender_id;
      content = content;
      created_at = created_at;
    })
