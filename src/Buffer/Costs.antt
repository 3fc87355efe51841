-- ===== src/Buffer/Costs.antt =====
-- The text bytes of conversations and messages, and what each change of the buffer adds to them.
use protected_chat.Prelude.{
  ℕ, ◌+◌, ◌<◌, ◌≡◌, refl, Option, none, some, List, [], ◌∷◌, Bytes, length, arith, inl, inr,
  Bool-cases, u64_mod, if◌then◌else◌,
}
use protected_chat.Prelude.Map.{find, nat_order}
use protected_chat.Prelude.Map.Sizes.{sum_by, sum_by-insert, sum_by-assign, sum_by-erase}
use protected_chat.Buffer.Key.{ConversationKey, key_order}
use protected_chat.Buffer.State.{
  MessageBuffer, BufferedMessage, ConversationData, Incoming, key_text_bytes, message_text_bytes,
  insert_record, new_conversation,
}
use protected_chat.Buffer.Receive.{
  store_received, received_message, incoming_bytes, new_key_bytes, is_new, add_unread,
}
use protected_chat.Buffer.Outgoing.{
  store_reserved, accept_outgoing, release_reserved, takes_back, outgoing_message,
}
use protected_chat.Buffer.Cases.{file_cases, is_new-none, takes_back-created}
use protected_chat.Buffer.View.{view_conversation, erase_through}

unfoldable pub record_bytes : BufferedMessage → ℕ
record_bytes m = key_text_bytes m.key + length m.sender + length m.content

unfoldable pub conversation_bytes : ConversationKey × ConversationData → ℕ
conversation_bytes (key, c) = key_text_bytes key + sum_by record_bytes c.messages

abbrev pub reserved_bytes : Option BufferedMessage → ℕ
reserved_bytes none = 0
reserved_bytes (some m) = record_bytes m

-- The strings of a call are in memory together, so that their sizes do not wrap.
abbrev pub InMemory : ConversationKey → Bytes → Bytes → Type 0
InMemory key sender content =
    key_text_bytes key + key_text_bytes key + length sender + length content < u64_mod

pub sum_by-insert_record :
    (m : BufferedMessage) (xs : List BufferedMessage)
    → sum_by record_bytes (insert_record m xs) ≡ sum_by record_bytes xs + record_bytes m
unfolding insert_record
sum_by-insert_record m [] = omega arith
sum_by-insert_record m (x ∷ xs) = ground (arith, sum_by-insert_record m xs)

pub message_text_bytes_sum :
    (key : ConversationKey) (sender content : Bytes)
    → InMemory key sender content
    → message_text_bytes key sender content ≡ key_text_bytes key + length sender + length content
unfolding message_text_bytes
message_text_bytes_sum key sender content h = omega arith

pub conversation_bytes-add_unread :
    (key : ConversationKey) (c : ConversationData) (m : BufferedMessage)
    → conversation_bytes (key, add_unread c m) ≡ conversation_bytes (key, c) + record_bytes m
unfolding conversation_bytes add_unread
conversation_bytes-add_unread key c m = omega (arith, sum_by-insert_record m c.messages)

pub bare_bytes :
    (key : ConversationKey) (c : ConversationData)
    → c.messages ≡ []
    → conversation_bytes (key, c) ≡ key_text_bytes key
unfolding conversation_bytes
bare_bytes key c bare = rw bare (omega arith)

pub conversation_bytes-new_conversation :
    (key : ConversationKey) (handle : ℕ)
    → conversation_bytes (key, new_conversation handle) ≡ key_text_bytes key
unfolding conversation_bytes
conversation_bytes-new_conversation key handle = omega arith

pub received_sum :
    (b : MessageBuffer) (m : Incoming)
    → sum_by conversation_bytes (store_received b m).conversations
      ≡ sum_by conversation_bytes b.conversations
        + record_bytes (received_message b m)
        + new_key_bytes b m.key
unfolding store_received received_message new_key_bytes is_new
received_sum b m =
    file_cases
      (λ n.
        sum_by conversation_bytes n
        ≡ sum_by conversation_bytes b.conversations
          + record_bytes (received_message b m)
          + new_key_bytes b m.key)
      b.next_handle (received_message b m) b.conversations
      (λ e. ground (
        arith,
        e,
        sum_by-insert conversation_bytes m.key
            (add_unread (new_conversation b.next_handle) (received_message b m)) b.conversations e,
        conversation_bytes-add_unread m.key (new_conversation b.next_handle) (received_message b m),
        conversation_bytes-new_conversation m.key b.next_handle,
      ))
      (λ c e. ground (
        arith,
        e,
        sum_by-assign conversation_bytes m.key c (add_unread c (received_message b m))
            b.conversations e,
        conversation_bytes-add_unread m.key c (received_message b m),
      ))

pub reserved_sum :
    (b : MessageBuffer) (key : ConversationKey) (sender content : Bytes)
    → sum_by conversation_bytes (store_reserved b key sender content).conversations
      ≡ sum_by conversation_bytes b.conversations + new_key_bytes b key
unfolding store_reserved new_key_bytes
reserved_sum b key sender content = ground (
  arith,
  is_new-none b key,
  sum_by-insert conversation_bytes key (new_conversation b.next_handle) b.conversations,
  conversation_bytes-new_conversation key b.next_handle,
)

pub reserved_cost :
    (b : MessageBuffer) (key : ConversationKey) (sender content : Bytes)
    → InMemory key sender content
    → (message_text_bytes key sender content ≡ record_bytes (outgoing_message key sender content))
      × (message_text_bytes key sender content + new_key_bytes b key < u64_mod)
unfolding record_bytes outgoing_message new_key_bytes
reserved_cost b key sender content small =
    ground (arith, message_text_bytes_sum key sender content small)

pub conversation_bytes-insert_record :
    (key : ConversationKey) (c : ConversationData) (m : BufferedMessage)
    → conversation_bytes (key, record c { messages = insert_record m c.messages })
      ≡ conversation_bytes (key, c) + record_bytes m
unfolding conversation_bytes
conversation_bytes-insert_record key c m = omega (arith, sum_by-insert_record m c.messages)

pub record_bytes-accept_outgoing :
    (m : BufferedMessage) (n sequence : ℕ)
    → record_bytes (accept_outgoing m n sequence) ≡ record_bytes m
unfolding record_bytes accept_outgoing
record_bytes-accept_outgoing m n sequence = refl

pub released_sum :
    (b : MessageBuffer) (key : ConversationKey)
    → sum_by conversation_bytes (release_reserved b key).conversations
        + (if takes_back b key then key_text_bytes key else 0)
      ≡ sum_by conversation_bytes b.conversations
unfolding release_reserved
released_sum b key = elim (Bool-cases (takes_back b key)) [
  | inl e ↦
      let (c, found, bare) = takes_back-created b key e in
      rw e (
        omega (
          arith,
          sum_by-erase conversation_bytes key c b.conversations found,
          bare_bytes key c bare,
        ))
  | inr e ↦ rw e (omega arith)
]

pub incoming_cost :
    (b : MessageBuffer) (m : Incoming)
    → InMemory m.key m.sender m.content
    → incoming_bytes b m ≡ record_bytes (received_message b m) + new_key_bytes b m.key
unfolding incoming_bytes record_bytes received_message new_key_bytes
incoming_cost b m small = ground (arith, message_text_bytes_sum m.key m.sender m.content small)

pub viewed_sum :
    (b : MessageBuffer) (key : ConversationKey) (through : ℕ) (c : ConversationData)
    → find key b.conversations ≡ some c
    → sum_by conversation_bytes (view_conversation key through c b).conversations
      ≡ sum_by conversation_bytes b.conversations
unfolding view_conversation
viewed_sum b key through c e =
    let seen = record c { unread_sequences = erase_through through c.unread_sequences } in
    let same : conversation_bytes (key, seen) ≡ conversation_bytes (key, c) =
      unfold conversation_bytes in refl in
    omega (arith, sum_by-assign conversation_bytes key c seen b.conversations e, same)
