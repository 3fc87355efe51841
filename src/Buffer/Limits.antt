-- ===== src/Buffer/Limits.antt =====
-- The buffer's maps stay ordered and within their limits, and the conversation of a reserved
-- message is always there.
use protected_chat.Prelude.{
  ℕ, ◌+◌, ◌≤◌, ◌≡◌, refl, subst, Option, none, some, List, Bytes, length, arith, inl, inr,
  Option-cases,
}
use protected_chat.Prelude.Int.{ℤ}
use protected_chat.Prelude.Map.{find, Sorted, nat_order}
use protected_chat.Prelude.Map.Sorts.{insert-Sorted}
use protected_chat.Prelude.Map.Sizes.{length-insert}
use protected_chat.Buffer.Receive.{store_ensured, store_received, received_message}
use protected_chat.Buffer.Outgoing.{
  store_reserved, store_committed, accept_outgoing, commit_accepted, release_reserved,
  commit_outgoing,
}
use protected_chat.Buffer.Calls.{
  Call, ensures, receives, reserves, commits, cancels, views, step, run, run_induction, left,
}
use protected_chat.Buffer.Cases.{
  EnsureGuard, ensure_cases, ReceiveGuard, receive_cases, ReserveGuard, reserve_cases, CommitGuard,
  commit_cases, cancel_cases, view_cases,
}
use protected_chat.Buffer.Key.{ConversationKey, key_order}
use protected_chat.Buffer.State.{
  Outcome, thrown, MessageBuffer, BufferedMessage, ConversationData, Incoming, new_conversation,
  stored, returned, max_conversations, max_messages, empty_buffer,
}
use protected_chat.Buffer.View.{view_conversation}
use protected_chat.Buffer.Grows.{
  HasHome, HasHome-Grows, insert-Update, assign-Update, received-Update, reserved-Update,
  reserved_home, released_map,
}

abbrev pub reserved_count : Option BufferedMessage → ℕ
reserved_count none = 0
reserved_count (some m) = 1

pub record IsOrdered (b : MessageBuffer) : Type 0 where
  pub conversations_sorted : Sorted b.conversations
  pub ids_sorted : Sorted b.messages_by_id
  pub conversations_bound : length b.conversations ≤ max_conversations
  pub messages_bound : length b.messages_by_id + reserved_count b.reserved_message ≤ max_messages
  pub home : HasHome b.conversations b.reserved_message

module _ (b : MessageBuffer) (v : IsOrdered b) where
  ensured-IsOrdered : (key : ConversationKey) → EnsureGuard key b → IsOrdered (store_ensured key b)
  unfolding store_ensured
  ensured-IsOrdered key g =
      let u = insert-Update key b.conversations (new_conversation b.next_handle) g.fresh in
      record {
        conversations_sorted = u.sorted v.conversations_sorted;
        ids_sorted = v.ids_sorted;
        conversations_bound = omega (arith, u.size, g.room);
        messages_bound = v.messages_bound;
        home = HasHome-Grows b.conversations _ b.reserved_message u.grows v.home;
      }

  received-IsOrdered : (m : Incoming) → ReceiveGuard m b → IsOrdered (store_received b m)
  unfolding store_received
  received-IsOrdered m g =
      let u = received-Update b m in
      record {
        conversations_sorted = u.sorted v.conversations_sorted;
        ids_sorted = insert-Sorted m.message_id _ b.messages_by_id v.ids_sorted;
        conversations_bound = ground (arith, u.size, g.room, v.conversations_bound);
        messages_bound = ground (
          arith,
          length-insert m.message_id (received_message b m) b.messages_by_id g.fresh,
          g.messages_room,
          v.messages_bound,
        );
        home = HasHome-Grows b.conversations _ b.reserved_message u.grows v.home;
      }

  reserved-IsOrdered :
      (key : ConversationKey) (sender content : Bytes)
      → ReserveGuard key sender content b
      → IsOrdered (store_reserved b key sender content)
  unfolding store_reserved
  reserved-IsOrdered key sender content g =
      let u = reserved-Update b key sender content in
      record {
        conversations_sorted = u.sorted v.conversations_sorted;
        ids_sorted = v.ids_sorted;
        conversations_bound = ground (arith, u.size, g.room, v.conversations_bound);
        messages_bound = omega (arith, g.messages_room);
        home = reserved_home b key sender content;
      }

  committed-IsOrdered :
      (n : ℕ) (m : BufferedMessage) (c : ConversationData)
      → CommitGuard n m b
      → find m.key b.conversations ≡ some c
      → IsOrdered (store_committed b (accept_outgoing m n b.next_arrival_sequence) c)
  unfolding store_committed accept_outgoing
  committed-IsOrdered n m c g e =
      let u = assign-Update m.key b.conversations c _ e in
      record {
        conversations_sorted = u.sorted v.conversations_sorted;
        ids_sorted = insert-Sorted n _ b.messages_by_id v.ids_sorted;
        conversations_bound = omega (arith, u.size, v.conversations_bound);
        messages_bound = ground (
          arith,
          length-insert n (accept_outgoing m n b.next_arrival_sequence) b.messages_by_id g.fresh,
          g.reserved,
          v.messages_bound,
        );
        home = tt;
      }

  released-IsOrdered : (m : BufferedMessage) → IsOrdered (release_reserved b m.key)
  unfolding release_reserved
  released-IsOrdered m = record {
    conversations_sorted = (released_map b m.key v.conversations_sorted).0;
    ids_sorted = v.ids_sorted;
    conversations_bound =
        omega (arith, (released_map b m.key v.conversations_sorted).1, v.conversations_bound);
    messages_bound = omega (arith, v.messages_bound);
    home = tt;
  }

  viewed-IsOrdered :
      (key : ConversationKey) (through version : ℕ) (c : ConversationData)
      → find key b.conversations ≡ some c
      → IsOrdered (record (view_conversation key through c b) { state_version = version })
  unfolding view_conversation
  viewed-IsOrdered key through version c e =
      let u = assign-Update key b.conversations c _ e in
      record {
        conversations_sorted = u.sorted v.conversations_sorted;
        ids_sorted = v.ids_sorted;
        conversations_bound = omega (arith, u.size, v.conversations_bound);
        messages_bound = v.messages_bound;
        home = HasHome-Grows b.conversations _ b.reserved_message u.grows v.home;
      }

pub home_found :
    (b : MessageBuffer) (m : BufferedMessage)
    → IsOrdered b
    → b.reserved_message ≡ some m
    → (c : ConversationData) × (find m.key b.conversations ≡ some c)
home_found b m v e =
    let home = subst (HasHome b.conversations) e v.home in
    elim (Option-cases (find m.key b.conversations)) [
      | inl missing ↦ absurd (ground arith)
      | inr found ↦ found
    ]

-- With the home there, a commit stores the message and does not throw.
pub commit_accepted-stored :
    (n : ℕ) (m : BufferedMessage) (b : MessageBuffer)
    → IsOrdered b
    → CommitGuard n m b
    → (c : ConversationData) × (find m.key b.conversations ≡ some c)
      × (commit_accepted (accept_outgoing m n b.next_arrival_sequence) b
          ≡ returned stored (store_committed b (accept_outgoing m n b.next_arrival_sequence) c))
unfolding commit_accepted accept_outgoing
commit_accepted-stored n m b v g =
    let (c, e) = home_found b m v g.reserved in (c, e, rw (e, commit_accepted) refl)

commit_accepted-IsOrdered :
    (n : ℕ) (m : BufferedMessage) (b : MessageBuffer)
    → IsOrdered b
    → CommitGuard n m b
    → IsOrdered (left (commit_accepted (accept_outgoing m n b.next_arrival_sequence) b))
commit_accepted-IsOrdered n m b v g =
    let (c, found, e) = commit_accepted-stored n m b v g in
    rw e (committed-IsOrdered b v n m c g found)

pub step-IsOrdered : (c : Call) (b : MessageBuffer) → IsOrdered b → IsOrdered (step c b)
unfolding step view_conversation
step-IsOrdered (ensures key) b v = ensure_cases IsOrdered key b v (ensured-IsOrdered b v key)
step-IsOrdered (receives m) b v = receive_cases IsOrdered m b v (received-IsOrdered b v m)
step-IsOrdered (reserves key sender content) b v =
    reserve_cases IsOrdered key sender content b v (reserved-IsOrdered b v key sender content)
step-IsOrdered (commits id) b v =
    commit_cases (λ r. IsOrdered (left r)) id b v (λ n m g. commit_accepted-IsOrdered n m b v g)
step-IsOrdered cancels b v = cancel_cases IsOrdered b (λ _. v) (λ m _. released-IsOrdered b v m)
step-IsOrdered (views key through) b v =
    view_cases (λ r. IsOrdered (left r)) key through b v
      (λ c e _ _. viewed-IsOrdered b v key through b.state_version c e)
      (λ c e _ _. viewed-IsOrdered b v key through _ c e)

pub IsOrdered-empty : IsOrdered empty_buffer
IsOrdered-empty = record {
  conversations_sorted = tt;
  ids_sorted = tt;
  conversations_bound = omega arith;
  messages_bound = omega arith;
  home = tt;
}

-- After any calls on a new buffer: the conversations and the index are in ascending order without
-- repetition, there are at most 256 conversations, the stored messages and the reserved one are at
-- most 4096, and the conversation of the reserved message exists.
pub run-IsOrdered : (cs : List Call) → IsOrdered (run cs empty_buffer)
run-IsOrdered cs = run_induction IsOrdered step-IsOrdered cs empty_buffer IsOrdered-empty

abbrev pub Returns : {A : Type 0} → Outcome A → Type 0
Returns (returned a b) = Unit
Returns (thrown b) = ⊥

-- In a buffer that calls on a new one have made, commitOutgoing finds the conversation of the
-- reserved message: `conversations.at` does not throw.
pub commit-Returns : (cs : List Call) (id : ℤ) → Returns (commit_outgoing id (run cs empty_buffer))
commit-Returns cs id =
    commit_cases Returns id (run cs empty_buffer) tt
      λ n m g. rw (commit_accepted-stored n m _ (run-IsOrdered cs) g).2 tt
