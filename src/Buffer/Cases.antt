-- ===== src/Buffer/Cases.antt =====
-- The branches of the buffer's methods: what has been tested where a call changes the buffer. Any
-- other branch leaves it as it was.
use protected_chat.Prelude.{
  ℕ, ◌+◌, ◌≤◌, ◌<◌, ◌≡◌, ◌≢◌, refl, Bool, true, false, Option, none, some, [], Bytes, length, arith,
  sub64, add64, u64_max, u64_mod, ◌%◌, ◌==◌, not, ltb, leb, ◌||◌, inl, inr, Option-cases, if_cases,
  if◌then◌else◌,
}
use protected_chat.Prelude.Int.{ℤ, pos, negsuc}
use protected_chat.Prelude.Map.{Map, find, insert, assign, nat_order}
use protected_chat.Buffer.Receive.{
  ensure_conversation, store_ensured, receive_incoming, receive_refused, incoming_bytes,
  new_key_bytes, store_received, is_new, file_received, add_unread,
}
use protected_chat.Buffer.Outgoing.{
  reserve_outgoing, reserve_refused, store_reserved, commit_outgoing, commit_accepted,
  accept_outgoing, cancel_outgoing, release_reserved, takes_back,
}
use protected_chat.Buffer.Key.{ConversationKey, key_order}
use protected_chat.Buffer.State.{
  MessageBuffer, BufferedMessage, ConversationData, Incoming, is_none, new_conversation,
  max_conversations, max_messages, max_text_bytes, key_text_bytes, message_text_bytes, Outcome,
  returned, thrown, BufferInsertResult, conflict,
}
use protected_chat.Buffer.View.{mark_viewed, nothing_viewed, view_conversation}

pub none_of_is_none : {A : Type 0} (o : Option A) → is_none o ≡ true → o ≡ none
none_of_is_none none h = refl
none_of_is_none (some a) h = cc

pub record EnsureGuard (key : ConversationKey) (b : MessageBuffer) : Type 0 where
  pub fresh : find key b.conversations ≡ none
  pub room : length b.conversations < max_conversations
  pub fits : key_text_bytes key ≤ sub64 max_text_bytes b.retained_text_bytes
  pub handle_set : 0 < b.next_handle
  pub handle_bound : b.next_handle ≤ max_conversations
  pub version : b.state_version ≢ u64_max

ensure_guard :
    (key : ConversationKey) (b : MessageBuffer)
    → not (is_none (find key b.conversations)) ≡ false
    → (leb max_conversations (length b.conversations)
        || ltb (sub64 max_text_bytes b.retained_text_bytes) (key_text_bytes key))
      ≡ false
    → (b.next_handle == 0 || ltb max_conversations b.next_handle || b.state_version == u64_max)
      ≡ false
    → EnsureGuard key b
ensure_guard key b new room counters = record {
  fresh = none_of_is_none (find key b.conversations) (ground arith);
  room = ground arith;
  fits = ground arith;
  handle_set = ground arith;
  handle_bound = ground arith;
  version = ground arith;
}

pub ensure_cases {ℓ} :
    (P : MessageBuffer → Type ℓ) (key : ConversationKey) (b : MessageBuffer)
    → P b
    → (EnsureGuard key b → P (store_ensured key b))
    → P (ensure_conversation key b).1
unfolding ensure_conversation
ensure_cases P key b same change =
    if_cases (λ (r : BufferInsertResult × MessageBuffer). P r.1) _ _ _ (λ _. same)
      (λ new.
        if_cases (λ (r : BufferInsertResult × MessageBuffer). P r.1) _ _ _ (λ _. same)
          (λ room.
            if_cases (λ (r : BufferInsertResult × MessageBuffer). P r.1) _ _ _ (λ _. same)
              (λ counters. change (ensure_guard key b new room counters))))

pub record ReceiveGuard (m : Incoming) (b : MessageBuffer) : Type 0 where
  pub fresh : find m.message_id b.messages_by_id ≡ none
  pub messages_room :
      (length b.messages_by_id + (if is_none b.reserved_message then 0 else 1)) % u64_mod
      < max_messages
  pub room : is_new b m.key ≡ true → length b.conversations < max_conversations
  pub fits :
      incoming_bytes b m ≤ sub64 (sub64 max_text_bytes b.retained_text_bytes) b.reserved_text_bytes
  pub sequence : b.next_arrival_sequence ≢ 0
  pub version : b.state_version ≢ u64_max

receive_guard :
    (m : Incoming) (b : MessageBuffer)
    → find m.message_id b.messages_by_id ≡ none
    → receive_refused b m ≡ false
    → ReceiveGuard m b
unfolding receive_refused
receive_guard m b fresh taken = record {
  fresh = fresh;
  messages_room = ground arith;
  room = ground arith;
  fits = ground arith;
  sequence = ground arith;
  version = ground arith;
}

pub receive_cases {ℓ} :
    (P : MessageBuffer → Type ℓ) (m : Incoming) (b : MessageBuffer)
    → P b
    → (ReceiveGuard m b → P (store_received b m))
    → P (receive_incoming m b).1
unfolding receive_incoming
receive_cases P m b same change = elim (Option-cases (find m.message_id b.messages_by_id)) [
  | inl e ↦
      rw (e, receive_incoming)
        (if_cases (λ (r : BufferInsertResult × MessageBuffer). P r.1) (receive_refused b m) _ _
          (λ _. same) (λ taken. change (receive_guard m b e taken)))
  | inr (existing, e) ↦ rw (e, receive_incoming) same
]

pub record ReserveGuard (key : ConversationKey) (sender content : Bytes) (b : MessageBuffer)
    : Type 0 where
  pub free : b.reserved_message ≡ none
  pub messages_room : length b.messages_by_id < max_messages
  pub room : is_new b key ≡ true → length b.conversations < max_conversations
  pub fits :
      add64 (message_text_bytes key sender content) (new_key_bytes b key)
      ≤ sub64 max_text_bytes b.retained_text_bytes
  pub version : b.state_version ≢ u64_max

reserve_guard :
    (key : ConversationKey) (sender content : Bytes) (b : MessageBuffer)
    → not (is_none b.reserved_message) ≡ false
    → reserve_refused b key sender content ≡ false
    → ReserveGuard key sender content b
unfolding reserve_refused
reserve_guard key sender content b free taken = record {
  free = none_of_is_none b.reserved_message (ground arith);
  messages_room = ground arith;
  room = ground arith;
  fits = ground arith;
  version = ground arith;
}

pub reserve_cases {ℓ} :
    (P : MessageBuffer → Type ℓ) (key : ConversationKey) (sender content : Bytes)
    (b : MessageBuffer)
    → P b
    → (ReserveGuard key sender content b → P (store_reserved b key sender content))
    → P (reserve_outgoing key sender content b).1
unfolding reserve_outgoing
reserve_cases P key sender content b same change =
    if_cases (λ (r : BufferInsertResult × MessageBuffer). P r.1) _ _ _ (λ _. same)
      (λ free.
        if_cases (λ (r : BufferInsertResult × MessageBuffer). P r.1) _ _ _ (λ _. same)
          (λ taken. change (reserve_guard key sender content b free taken)))

pub record CommitGuard (id : ℕ) (m : BufferedMessage) (b : MessageBuffer) : Type 0 where
  pub reserved : b.reserved_message ≡ some m
  pub positive : 0 < id
  pub fresh : find id b.messages_by_id ≡ none
  pub sequence : b.next_arrival_sequence ≢ 0
  pub version : b.state_version ≢ u64_max

pub commit_cases {ℓ} :
    (P : Outcome BufferInsertResult → Type ℓ) (id : ℤ) (b : MessageBuffer)
    → P (returned conflict b)
    → ((n : ℕ) (m : BufferedMessage)
        → CommitGuard n m b
        → P (commit_accepted (accept_outgoing m n b.next_arrival_sequence) b))
    → P (commit_outgoing id b)
unfolding commit_outgoing
commit_cases P (negsuc n) b same change = elim (Option-cases b.reserved_message) [
  | inl e ↦ rw (e, commit_outgoing) same
  | inr (m, e) ↦ rw (e, commit_outgoing) same
]
commit_cases P (pos n) b same change = elim (Option-cases b.reserved_message) [
  | inl e ↦ rw (e, commit_outgoing) same
  | inr (m, e) ↦
      rw (e, commit_outgoing)
        (if_cases P (n == 0) _ _ (λ _. same)
          (λ positive.
            if_cases P _ _ _ (λ _. same)
              (λ taken. change n m (record {
                reserved = e;
                positive = ground arith;
                fresh = none_of_is_none (find n b.messages_by_id) (ground arith);
                sequence = ground arith;
                version = ground arith;
              }))))
]

pub cancel_cases {ℓ} :
    (P : MessageBuffer → Type ℓ) (b : MessageBuffer)
    → (b.reserved_message ≡ none → P b)
    → ((m : BufferedMessage) → b.reserved_message ≡ some m → P (release_reserved b m.key))
    → P (cancel_outgoing b)
unfolding cancel_outgoing
cancel_cases P b same change = elim (Option-cases b.reserved_message) [
  | inl e ↦ rw (e, cancel_outgoing) (same e)
  | inr (m, e) ↦ rw (e, cancel_outgoing) (change m e)
]

pub view_cases {ℓ} :
    (P : Outcome Bool → Type ℓ) (key : ConversationKey) (through : ℕ) (b : MessageBuffer)
    → P (returned false b)
    → ((c : ConversationData)
        → find key b.conversations ≡ some c
        → nothing_viewed through c.unread_sequences ≡ false
        → b.state_version ≡ u64_max
        → P (thrown (view_conversation key through c b)))
    → ((c : ConversationData)
        → find key b.conversations ≡ some c
        → nothing_viewed through c.unread_sequences ≡ false
        → b.state_version ≢ u64_max
        → P (
            returned true (record (view_conversation key through c b) {
              state_version = add64 b.state_version 1;
            })))
    → P (mark_viewed key through b)
unfolding mark_viewed
view_cases P key through b same full change = elim (Option-cases (find key b.conversations)) [
  | inl e ↦ rw (e, mark_viewed) same
  | inr (c, e) ↦
      rw (e, mark_viewed)
        (if_cases P (nothing_viewed through c.unread_sequences) _ _ (λ _. same)
          (λ some_viewed.
            if_cases P (b.state_version == u64_max) _ _
              (λ at_end. full c e some_viewed (ground arith))
              (λ before. change c e some_viewed (ground arith))))
]

-- Where a received message is filed: in a new conversation, or in the one that is there.
pub file_cases {ℓ} :
    (P : Map ConversationKey ConversationData → Type ℓ) (handle : ℕ) (m : BufferedMessage)
    (conversations : Map ConversationKey ConversationData)
    → (find m.key conversations ≡ none
        → P (insert m.key (add_unread (new_conversation handle) m) conversations))
    → ((c : ConversationData)
        → find m.key conversations ≡ some c
        → P (assign m.key (add_unread c m) conversations))
    → P (file_received handle m conversations)
unfolding file_received
file_cases P handle m conversations absent present =
    elim (Option-cases (find m.key conversations)) [
      | inl e ↦ rw (e, file_received) (absent e)
      | inr (c, e) ↦ rw (e, file_received) (present c e)
    ]

pub is_new-none :
    (b : MessageBuffer) (key : ConversationKey)
    → is_new b key ≡ true
    → find key b.conversations ≡ none
unfolding is_new
is_new-none b key h = none_of_is_none (find key b.conversations) h

-- What holds of a conversation that is taken back.
pub takes_back-created :
    (b : MessageBuffer) (key : ConversationKey)
    → takes_back b key ≡ true
    → (c : ConversationData) × (find key b.conversations ≡ some c) × (c.messages ≡ [])
unfolding takes_back
takes_back-created b key h = elim (Option-cases (find key b.conversations)) [
  | inl e ↦ absurd (ground arith)
  | inr (c, e) ↦ (c, e, ground arith)
]
