-- ===== src/Buffer/Outgoing.antt =====
-- The methods of MessageBuffer (clientf/message_buffer.cpp) for a message that the user sends: it is
-- reserved before the request, and committed or cancelled by the answer.
use protected_chat.Prelude.{
  ℕ, Bool, true, false, not, ◌&&◌, ◌||◌, Option, none, some, [], ◌∷◌, Bytes, length, ltb, leb, ◌==◌,
  add64, sub64, u64_max, if◌then◌else◌,
}
use protected_chat.Prelude.Int.{ℤ, pos, negsuc}
use protected_chat.Prelude.Map.{find, insert, erase, assign, nat_order}
use protected_chat.Buffer.Key.{ConversationKey, key_order}
use protected_chat.Buffer.State.{
  BufferInsertResult, stored, capacity_exceeded, conflict, BufferedMessage, ConversationData,
  MessageBuffer, max_conversations, max_messages, max_text_bytes, new_conversation, is_none,
  key_text_bytes, message_text_bytes, insert_record, Outcome, returned, thrown,
}
use protected_chat.Buffer.Receive.{is_new, new_key_bytes}

-- The refusal by CapacityExceeded of reserveOutgoing.
unfoldable pub reserve_refused : MessageBuffer → ConversationKey → Bytes → Bytes → Bool
unfolding new_key_bytes
reserve_refused b key sender content =
    leb max_messages (length b.messages_by_id)
    || (is_new b key && leb max_conversations (length b.conversations))
    || ltb (sub64 max_text_bytes b.retained_text_bytes)
        (add64 (message_text_bytes key sender content) (new_key_bytes b key))
    || b.state_version == u64_max

unfoldable pub outgoing_message : ConversationKey → Bytes → Bytes → BufferedMessage
outgoing_message key sender content = record {
  message_id = 0;
  key = key;
  sender = sender;
  sender_id = none;
  content = content;
  created_at = none;
  outgoing = true;
  arrival_sequence = 0;
}

unfoldable pub store_reserved : MessageBuffer → ConversationKey → Bytes → Bytes → MessageBuffer
unfolding outgoing_message new_key_bytes
store_reserved b key sender content = record b {
  conversations =
      if is_new b key
      then insert key (new_conversation b.next_handle) b.conversations
      else b.conversations;
  next_handle = if is_new b key then add64 b.next_handle 1 else b.next_handle;
  retained_text_bytes = add64 b.retained_text_bytes (new_key_bytes b key);
  reserved_message = some (outgoing_message key sender content);
  reserved_conversation_created = is_new b key;
  reserved_text_bytes = message_text_bytes key sender content;
  state_version = add64 b.state_version 1;
}

-- reserveOutgoing
unfoldable pub reserve_outgoing :
    ConversationKey → Bytes → Bytes → MessageBuffer → BufferInsertResult × MessageBuffer
reserve_outgoing key sender content b =
    if not (is_none b.reserved_message)
    then (conflict, b)
    else if reserve_refused b key sender content
    then (capacity_exceeded, b)
    else (stored, store_reserved b key sender content)

-- acceptOutgoing
unfoldable pub accept_outgoing : BufferedMessage → ℕ → ℕ → BufferedMessage
accept_outgoing m id sequence = record m { message_id = id; arrival_sequence = sequence }

unfoldable pub store_committed : MessageBuffer → BufferedMessage → ConversationData → MessageBuffer
store_committed b accepted c = record b {
  conversations =
      assign accepted.key (record c { messages = insert_record accepted c.messages })
        b.conversations;
  messages_by_id = insert accepted.message_id accepted b.messages_by_id;
  retained_text_bytes = add64 b.retained_text_bytes b.reserved_text_bytes;
  reserved_message = none;
  reserved_conversation_created = false;
  reserved_text_bytes = 0;
  next_arrival_sequence = add64 b.next_arrival_sequence 1;
  state_version = add64 b.state_version 1;
}

-- commitOutgoing of a message that is reserved; `conversations.at` throws on a missing key.
unfoldable pub commit_accepted : BufferedMessage → MessageBuffer → Outcome BufferInsertResult
unfolding store_committed
commit_accepted accepted b = elim (find accepted.key b.conversations) [
  | none ↦ thrown (record b { reserved_message = some accepted })
  | some c ↦ returned stored (store_committed b accepted c)
]

unfoldable pub commit_positive : ℕ → BufferedMessage → MessageBuffer → Outcome BufferInsertResult
unfolding commit_accepted accept_outgoing
commit_positive id m b =
    if not (is_none (find id b.messages_by_id))
      || b.next_arrival_sequence == 0
      || b.state_version == u64_max
    then returned conflict b
    else commit_accepted (accept_outgoing m id b.next_arrival_sequence) b

-- commitOutgoing
unfoldable pub commit_outgoing : ℤ → MessageBuffer → Outcome BufferInsertResult
unfolding commit_positive
commit_outgoing id b = elim b.reserved_message [
  | none ↦ returned conflict b
  | some m ↦ elim id [
    | negsuc n ↦ returned conflict b
    | pos n ↦ if n == 0 then returned conflict b else commit_positive n m b
  ]
]

-- Whether cancelOutgoing takes the conversation of the reserved message back.
abbrev is_empty_conversation : Option ConversationData → Bool
is_empty_conversation none = false
is_empty_conversation (some c) = elim c.messages [ [] ↦ true | x ∷ xs ↦ false ]

unfoldable pub takes_back : MessageBuffer → ConversationKey → Bool
takes_back b key =
    b.reserved_conversation_created && is_empty_conversation (find key b.conversations)

unfoldable pub release_reserved : MessageBuffer → ConversationKey → MessageBuffer
release_reserved b key = record b {
  conversations = if takes_back b key then erase key b.conversations else b.conversations;
  next_handle = if takes_back b key then sub64 b.next_handle 1 else b.next_handle;
  retained_text_bytes =
      if takes_back b key
      then sub64 b.retained_text_bytes (key_text_bytes key)
      else b.retained_text_bytes;
  reserved_message = none;
  reserved_conversation_created = false;
  reserved_text_bytes = 0;
  state_version = if b.state_version == u64_max then b.state_version else add64 b.state_version 1;
}

-- cancelOutgoing
unfoldable pub cancel_outgoing : MessageBuffer → MessageBuffer
unfolding release_reserved
cancel_outgoing b = elim b.reserved_message [ none ↦ b | some m ↦ release_reserved b m.key ]
