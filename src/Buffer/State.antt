-- ===== src/Buffer/State.antt =====
-- The state of MessageBuffer (clientf/message_buffer.h) and the helpers of its methods. Stored
-- messages are immutable, so the pointers that the index and a conversation share are values. The
-- reserved index node holds the reserved message itself, and has no field of its own.
use protected_chat.Prelude.{
  ℕ, ◌*◌, Bool, true, false, not, ◌&&◌, Option, none, some, List, [], ◌∷◌, Bytes, bytes_eq, length,
  ltb, ◌==◌, add64, if◌then◌else◌,
}
use protected_chat.Prelude.Map.{Map}
use protected_chat.Buffer.Key.{
  ConversationKey, ConversationKind, private_kind, group_kind, broadcast_kind, key_eq,
}

pub data BufferInsertResult : Type 0 where
  stored duplicate capacity_exceeded conflict : BufferInsertResult

pub record BufferedMessage : Type 0 where
  pub message_id : ℕ
  pub key : ConversationKey
  pub sender : Bytes
  pub sender_id : Option ℕ
  pub content : Bytes
  pub created_at : Option ℕ
  pub outgoing : Bool
  pub arrival_sequence : ℕ

-- std::set<std::uint64_t> is a map with nothing at its keys.
pub record ConversationData : Type 0 where
  pub handle : ℕ
  pub messages : List BufferedMessage
  pub unread_sequences : Map ℕ (Unit {0})

pub record MessageBuffer : Type 0 where
  pub conversations : Map ConversationKey ConversationData
  pub messages_by_id : Map ℕ BufferedMessage
  pub reserved_message : Option BufferedMessage
  pub reserved_conversation_created : Bool
  pub retained_text_bytes : ℕ
  pub reserved_text_bytes : ℕ
  pub next_handle : ℕ
  pub next_arrival_sequence : ℕ
  pub state_version : ℕ

abbrev pub max_conversations : ℕ
max_conversations = 256

abbrev pub max_messages : ℕ
max_messages = 4096

abbrev pub max_text_bytes : ℕ
max_text_bytes = 16 * 1024 * 1024

abbrev pub empty_buffer : MessageBuffer
empty_buffer = record {
  conversations = [];
  messages_by_id = [];
  reserved_message = none;
  reserved_conversation_created = false;
  retained_text_bytes = 0;
  reserved_text_bytes = 0;
  next_handle = 1;
  next_arrival_sequence = 1;
  state_version = 0;
}

abbrev pub new_conversation : ℕ → ConversationData
new_conversation handle = record { handle = handle; messages = []; unread_sequences = [] }

abbrev pub is_none : {A : Type 0} → Option A → Bool
is_none none = true
is_none (some a) = false

-- A string's size() of a private key; the other kinds retain no text.
key_kind_bytes : ConversationKind → Bytes → ℕ
key_kind_bytes private_kind username = length username
key_kind_bytes group_kind username = 0
key_kind_bytes broadcast_kind username = 0

unfoldable pub key_text_bytes : ConversationKey → ℕ
unfolding key_kind_bytes
key_text_bytes key = key_kind_bytes key.kind key.username

unfoldable pub message_text_bytes : ConversationKey → Bytes → Bytes → ℕ
message_text_bytes key sender content =
    add64 (add64 (key_text_bytes key) (length sender)) (length content)

-- std::lower_bound by message id, and insertion at that position.
unfoldable pub insert_record : BufferedMessage → List BufferedMessage → List BufferedMessage
insert_record m [] = m ∷ []
insert_record m (x ∷ xs) =
    let rest = insert_record m xs in if ltb x.message_id m.message_id then x ∷ rest else m ∷ x ∷ xs

-- What an accepted delivery envelope carries.
pub record Incoming : Type 0 where
  pub message_id : ℕ
  pub key : ConversationKey
  pub sender : Bytes
  pub sender_id : ℕ
  pub content : Bytes
  pub created_at : ℕ

abbrev holds : Option ℕ → ℕ → Bool
holds none n = false
holds (some m) n = m == n

unfoldable pub same_incoming : BufferedMessage → Incoming → Bool
same_incoming existing m =
    not existing.outgoing
    && key_eq existing.key m.key
    && bytes_eq existing.sender m.sender
    && holds existing.sender_id m.sender_id
    && bytes_eq existing.content m.content
    && holds existing.created_at m.created_at

-- A call that returns, or that leaves the method by an exception.
pub data Outcome (A : Type 0) : Type 0 where
  returned : A → MessageBuffer → Outcome A
  thrown : MessageBuffer → Outcome A
