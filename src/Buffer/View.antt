-- ===== src/Buffer/View.antt =====
-- The methods of MessageBuffer (clientf/message_buffer.cpp) by which the screen reads it:
-- snapshot, markViewed and version.
use protected_chat.Prelude.{
  ℕ, Bool, true, false, Option, none, some, List, [], ◌∷◌, map, length, ltb, ◌==◌, add64, u64_max,
  if◌then◌else◌, max,
}
use protected_chat.Prelude.Map.{Map, find, assign}
use protected_chat.Buffer.Key.{ConversationKey, key_order}
use protected_chat.Buffer.State.{
  BufferedMessage, ConversationData, MessageBuffer, Outcome, returned, thrown,
}

pub record ConversationSummary : Type 0 where
  pub key : ConversationKey
  pub handle : ℕ
  pub message_count : ℕ
  pub unread_count : ℕ
  pub latest_unread_sequence : ℕ

pub record BufferSnapshot : Type 0 where
  pub version : ℕ
  pub summaries : List ConversationSummary
  pub messages : List BufferedMessage
  pub maximum_arrival_sequence : ℕ

-- unread.empty() ? 0 : *unread.rbegin()
unfoldable pub latest : Map ℕ (Unit {0}) → ℕ
latest [] = 0
latest ((n, _) ∷ []) = n
latest ((n, _) ∷ (k, u) ∷ rest) = latest ((k, u) ∷ rest)

unfoldable pub summary : ConversationKey × ConversationData → ConversationSummary
unfolding latest
summary (key, c) = record {
  key = key;
  handle = c.handle;
  message_count = length c.messages;
  unread_count = length c.unread_sequences;
  latest_unread_sequence = latest c.unread_sequences;
}

unfoldable pub maximum_arrival : ℕ → List BufferedMessage → ℕ
maximum_arrival highest [] = highest
maximum_arrival highest (m ∷ ms) = maximum_arrival (max highest m.arrival_sequence) ms

unfoldable pub active_messages : MessageBuffer → Option ConversationKey → List BufferedMessage
active_messages b none = []
active_messages b (some key) = elim (find key b.conversations) [ none ↦ [] | some c ↦ c.messages ]

unfoldable pub snapshot : MessageBuffer → Option ConversationKey → BufferSnapshot
unfolding summary maximum_arrival active_messages
snapshot b active = record {
  version = b.state_version;
  summaries = map summary b.conversations;
  messages = active_messages b active;
  maximum_arrival_sequence = maximum_arrival 0 (active_messages b active);
}

-- Whether upper_bound is begin: no unread sequence is at most `through`.
unfoldable pub nothing_viewed : ℕ → Map ℕ (Unit {0}) → Bool
nothing_viewed through [] = true
nothing_viewed through ((n, _) ∷ rest) = ltb through n

-- erase(begin, upper_bound(through))
unfoldable pub erase_through : ℕ → Map ℕ (Unit {0}) → Map ℕ (Unit {0})
erase_through through [] = []
erase_through through ((n, u) ∷ rest) =
    let later = erase_through through rest in if ltb through n then (n, u) ∷ rest else later

unfoldable pub view_conversation :
    ConversationKey → ℕ → ConversationData → MessageBuffer → MessageBuffer
view_conversation key through c b = record b {
  conversations =
      assign key (record c { unread_sequences = erase_through through c.unread_sequences })
        b.conversations;
}

-- markViewed: the version is tested after the sequences are erased.
unfoldable pub mark_viewed : ConversationKey → ℕ → MessageBuffer → Outcome Bool
mark_viewed key through b = elim (find key b.conversations) [
  | none ↦ returned false b
  | some c ↦
      if nothing_viewed through c.unread_sequences
      then returned false b
      else if b.state_version == u64_max
      then thrown (view_conversation key through c b)
      else returned true
          (record (view_conversation key through c b) { state_version = add64 b.state_version 1 })
]
