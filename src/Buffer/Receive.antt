-- ===== src/Buffer/Receive.antt =====
-- The methods of MessageBuffer (clientf/message_buffer.cpp) that open a conversation and store a
-- received message: ensureConversation and receiveValidated.
use protected_chat.Prelude.{
  ℕ, Bool, false, not, ◌&&◌, ◌||◌, none, some, length, ltb, leb, ◌==◌, add64, sub64, u64_max,
  if◌then◌else◌,
}
use protected_chat.Prelude.Map.{Map, find, insert, assign, nat_order}
use protected_chat.Json.{Json}
use protected_chat.Buffer.Key.{ConversationKey, key_order}
use protected_chat.Buffer.Envelope.{parse_incoming}
use protected_chat.Buffer.State.{
  BufferInsertResult, stored, duplicate, capacity_exceeded, conflict, BufferedMessage,
  ConversationData, MessageBuffer, max_conversations, max_messages, max_text_bytes,
  new_conversation, is_none, key_text_bytes, message_text_bytes, insert_record, Incoming,
  same_incoming,
}

unfoldable pub store_ensured : ConversationKey → MessageBuffer → MessageBuffer
store_ensured key b = record b {
  conversations = insert key (new_conversation b.next_handle) b.conversations;
  next_handle = add64 b.next_handle 1;
  retained_text_bytes = add64 b.retained_text_bytes (key_text_bytes key);
  state_version = add64 b.state_version 1;
}

-- ensureConversationLocked
unfoldable pub ensure_conversation :
    ConversationKey → MessageBuffer → BufferInsertResult × MessageBuffer
unfolding store_ensured
ensure_conversation key b =
    if not (is_none (find key b.conversations))
    then (duplicate, b)
    else if leb max_conversations (length b.conversations)
        || ltb (sub64 max_text_bytes b.retained_text_bytes) (key_text_bytes key)
    then (capacity_exceeded, b)
    else if b.next_handle == 0 || ltb max_conversations b.next_handle || b.state_version == u64_max
    then (capacity_exceeded, b)
    else (stored, store_ensured key b)

-- Whether no conversation has the key, and the text bytes that a new conversation costs.
unfoldable pub is_new : MessageBuffer → ConversationKey → Bool
is_new b key = is_none (find key b.conversations)

unfoldable pub new_key_bytes : MessageBuffer → ConversationKey → ℕ
new_key_bytes b key = if is_new b key then key_text_bytes key else 0

unfoldable pub incoming_bytes : MessageBuffer → Incoming → ℕ
unfolding new_key_bytes
incoming_bytes b m = add64 (message_text_bytes m.key m.sender m.content) (new_key_bytes b m.key)

-- The refusal by CapacityExceeded of receiveValidated.
unfoldable pub receive_refused : MessageBuffer → Incoming → Bool
unfolding incoming_bytes
receive_refused b m =
    leb max_messages (add64 (length b.messages_by_id) (if is_none b.reserved_message then 0 else 1))
    || (is_new b m.key && leb max_conversations (length b.conversations))
    || ltb (sub64 (sub64 max_text_bytes b.retained_text_bytes) b.reserved_text_bytes)
        (incoming_bytes b m)
    || b.next_arrival_sequence == 0
    || b.state_version == u64_max

unfoldable pub received_message : MessageBuffer → Incoming → BufferedMessage
received_message b m = record {
  message_id = m.message_id;
  key = m.key;
  sender = m.sender;
  sender_id = some m.sender_id;
  content = m.content;
  created_at = some m.created_at;
  outgoing = false;
  arrival_sequence = b.next_arrival_sequence;
}

-- A conversation with one more record, which nobody has seen.
unfoldable pub add_unread : ConversationData → BufferedMessage → ConversationData
add_unread c m = record c {
  messages = insert_record m c.messages;
  unread_sequences = insert m.arrival_sequence tt c.unread_sequences;
}

unfoldable pub file_received :
    ℕ
    → BufferedMessage
    → Map ConversationKey ConversationData
    → Map ConversationKey ConversationData
unfolding add_unread
file_received handle m conversations = elim (find m.key conversations) [
  | none ↦ insert m.key (add_unread (new_conversation handle) m) conversations
  | some c ↦ assign m.key (add_unread c m) conversations
]

unfoldable pub store_received : MessageBuffer → Incoming → MessageBuffer
unfolding received_message file_received incoming_bytes
store_received b m = record b {
  conversations = file_received b.next_handle (received_message b m) b.conversations;
  messages_by_id = insert m.message_id (received_message b m) b.messages_by_id;
  next_handle = if is_new b m.key then add64 b.next_handle 1 else b.next_handle;
  retained_text_bytes = add64 b.retained_text_bytes (incoming_bytes b m);
  next_arrival_sequence = add64 b.next_arrival_sequence 1;
  state_version = add64 b.state_version 1;
}

-- receiveValidated, from the lock on
unfoldable pub receive_incoming : Incoming → MessageBuffer → BufferInsertResult × MessageBuffer
receive_incoming m b = elim (find m.message_id b.messages_by_id) [
  | some existing ↦ (if same_incoming existing m then duplicate else conflict, b)
  | none ↦ if receive_refused b m then (capacity_exceeded, b) else (stored, store_received b m)
]

-- receiveValidated
unfoldable pub receive_validated :
    (j : Json) → j.Value → MessageBuffer → BufferInsertResult × MessageBuffer
unfolding receive_incoming
receive_validated j message b = elim (parse_incoming j message) [
  | none ↦ (conflict, b)
  | some m ↦ receive_incoming m b
]
