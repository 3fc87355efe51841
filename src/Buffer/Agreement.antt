-- ===== src/Buffer/Agreement.antt =====
-- After any calls the index by message id and the conversations agree.
use protected_chat.Prelude.{
  ℕ, ◌+◌, ◌≡◌, length, some, arith, Bool-cases, ap, inl, inr, none, refl, [], Bytes, List,
}
use protected_chat.Prelude.Map.{nat_order, find, insert, Map}
use protected_chat.Prelude.Map.Sizes.{
  sum_by, sum_by-insert, sum_by-assign, sum_by-erase, length-insert,
}
use protected_chat.Buffer.State.{
  ConversationData, new_conversation, Incoming, MessageBuffer, BufferedMessage, insert_record,
  empty_buffer,
}
use protected_chat.Buffer.Cases.{
  file_cases, ReceiveGuard, EnsureGuard, is_new-none, takes_back-created, receive_cases,
  commit_cases, reserve_cases, view_cases, cancel_cases, CommitGuard, ensure_cases,
}
use protected_chat.Prelude.Map.Entries.{Every-insert, Every, Every-assign, Every-erase}
use protected_chat.Buffer.Receive.{
  store_received, received_message, store_ensured, is_new, add_unread,
}
use protected_chat.Buffer.Key.{key_order, ConversationKey}
use protected_chat.Buffer.Filing.{
  Filed, length-insert_record, erase_through-Sorted, Filed-insert_record, Filed-insert,
  Filed-new_conversation,
}
use protected_chat.Buffer.Outgoing.{
  store_reserved, release_reserved, takes_back, store_committed, accept_outgoing, commit_accepted,
}
use protected_chat.Buffer.Limits.{
  IsOrdered, IsOrdered-empty, step-IsOrdered, commit_accepted-stored,
}
use protected_chat.Prelude.Map.Sorts.{insert-Sorted}
use protected_chat.Buffer.View.{view_conversation, erase_through}
use protected_chat.Buffer.Calls.{
  receives, left, step, ensures, views, Call, reserves, cancels, run, run_induction, commits,
}

message_count : ConversationKey × ConversationData → ℕ
message_count (key, c) = length c.messages

pub total_messages : Map ConversationKey ConversationData → ℕ
unfolding message_count
total_messages conversations = sum_by message_count conversations

pub record IsFiled (b : MessageBuffer) : Type 0 where
  pub filed : Every (Filed b.messages_by_id) b.conversations
  pub counted : total_messages b.conversations ≡ length b.messages_by_id

message_count-new_conversation :
    (key : ConversationKey) (handle : ℕ) → message_count (key, new_conversation handle) ≡ 0
unfolding message_count
message_count-new_conversation key handle = refl

message_count-add_unread :
    (key : ConversationKey) (c : ConversationData) (m : BufferedMessage)
    → message_count (key, add_unread c m) ≡ message_count (key, c) + 1
unfolding message_count add_unread
message_count-add_unread key c m = length-insert_record m c.messages

received_count :
    (b : MessageBuffer) (m : Incoming)
    → total_messages (store_received b m).conversations ≡ total_messages b.conversations + 1
unfolding store_received total_messages
received_count b m =
    file_cases (λ n. sum_by message_count n ≡ sum_by message_count b.conversations + 1)
      b.next_handle r b.conversations
      (λ e. omega (
        arith,
        sum_by-insert message_count r.key (add_unread c r) b.conversations e,
        message_count-add_unread r.key c r,
        message_count-new_conversation r.key b.next_handle,
      ))
      (λ d e. omega (
        arith,
        sum_by-assign message_count r.key d (add_unread d r) b.conversations e,
        message_count-add_unread r.key d r,
      ))
  where
    r : BufferedMessage
    r = received_message b m

    c : ConversationData
    c = new_conversation b.next_handle

module _ (b : MessageBuffer) (v : IsFiled b) where
  ensured-IsFiled : (key : ConversationKey) → EnsureGuard key b → IsFiled (store_ensured key b)
  unfolding store_ensured total_messages
  ensured-IsFiled key g =
      let c = new_conversation b.next_handle in
      record {
        filed =
            Every-insert (Filed b.messages_by_id) key c b.conversations g.fresh
              (Filed-new_conversation b.messages_by_id key b.next_handle) v.filed;
        counted =
            omega (arith, sum_by-insert message_count key c b.conversations g.fresh, v.counted);
      }

  received-IsFiled : (m : Incoming) → ReceiveGuard m b → IsFiled (store_received b m)
  unfolding store_received total_messages received_message add_unread
  received-IsFiled m g =
      let r = received_message b m in
      let ids = insert m.message_id r b.messages_by_id in
      let kept =
        λ (k : ConversationKey) (c : ConversationData) (e : find k b.conversations ≡ some c).
          Filed-insert b.messages_by_id r g.fresh k c (v.filed k c e) in
      record {
        filed =
            file_cases (Every (Filed ids)) b.next_handle r b.conversations
              (λ e.
                let c = new_conversation b.next_handle in
                Every-insert (Filed ids) m.key (add_unread c r) b.conversations e
                  (Filed-insert_record b.messages_by_id r g.fresh c _
                    (Filed-new_conversation b.messages_by_id m.key b.next_handle)
                    (insert-Sorted b.next_arrival_sequence tt [] tt))
                  kept)
              (λ c e.
                Every-assign (Filed ids) m.key c (add_unread c r) b.conversations e
                  (Filed-insert_record b.messages_by_id r g.fresh c _ (v.filed m.key c e) (
                    insert-Sorted b.next_arrival_sequence tt c.unread_sequences
                      (v.filed m.key c e).unread_sorted))
                  kept);
        counted = omega (
          arith,
          received_count b m,
          length-insert m.message_id r b.messages_by_id g.fresh,
          v.counted,
        );
      }

  reserved-IsFiled :
      (key : ConversationKey) (sender content : Bytes)
      → IsFiled (store_reserved b key sender content)
  unfolding store_reserved total_messages
  reserved-IsFiled key sender content = elim (Bool-cases (is_new b key)) [
    | inl e ↦
        let c = new_conversation b.next_handle in
        let fresh = is_new-none b key e in
        record {
          filed = rw e (
              Every-insert (Filed b.messages_by_id) key c b.conversations fresh
                (Filed-new_conversation b.messages_by_id key b.next_handle) v.filed);
          counted =
              rw e
                (omega (arith, sum_by-insert message_count key c b.conversations fresh, v.counted));
        }
    | inr e ↦ record { filed = rw e v.filed; counted = rw e v.counted }
  ]

  committed-IsFiled :
      (accepted : BufferedMessage) (c : ConversationData)
      → find accepted.message_id b.messages_by_id ≡ none
      → find accepted.key b.conversations ≡ some c
      → IsFiled (store_committed b accepted c)
  unfolding store_committed total_messages message_count
  committed-IsFiled accepted c fresh e =
      let f = v.filed accepted.key c e in
      let more = record c { messages = insert_record accepted c.messages } in
      record {
        filed =
            Every-assign (Filed (insert accepted.message_id accepted b.messages_by_id)) accepted.key
              c more b.conversations e
              (Filed-insert_record b.messages_by_id accepted fresh c c.unread_sequences f
                f.unread_sorted)
              (λ k d there. Filed-insert b.messages_by_id accepted fresh k d (v.filed k d there));
        counted = omega (
          arith,
          sum_by-assign message_count accepted.key c more b.conversations e,
          length-insert_record accepted c.messages,
          length-insert accepted.message_id accepted b.messages_by_id fresh,
          v.counted,
        );
      }

  released-IsFiled : IsOrdered b → (m : BufferedMessage) → IsFiled (release_reserved b m.key)
  unfolding release_reserved total_messages message_count
  released-IsFiled o m = elim (Bool-cases (takes_back b m.key)) [
    | inl e ↦
        let (c, found, bare) = takes_back-created b m.key e in
        record {
          filed = rw e (
              Every-erase (Filed b.messages_by_id) m.key b.conversations o.conversations_sorted
                v.filed);
          counted = rw e (
              omega (
                arith,
                sum_by-erase message_count m.key c b.conversations found,
                ap length bare,
                v.counted,
              ));
        }
    | inr e ↦ record { filed = rw e v.filed; counted = rw e v.counted }
  ]

  viewed-IsFiled :
      (key : ConversationKey) (through version : ℕ) (c : ConversationData)
      → find key b.conversations ≡ some c
      → IsFiled (record (view_conversation key through c b) { state_version = version })
  unfolding view_conversation total_messages message_count
  viewed-IsFiled key through version c e =
      let f = v.filed key c e in
      let seen = record c { unread_sequences = erase_through through c.unread_sequences } in
      record {
        filed =
            Every-assign (Filed b.messages_by_id) key c seen b.conversations e
              (record {
                indexed = f.indexed;
                ascending = f.ascending;
                unread_sorted = erase_through-Sorted through c.unread_sequences f.unread_sorted;
              })
              v.filed;
        counted =
            omega (arith, sum_by-assign message_count key c seen b.conversations e, v.counted);
      }

commit-IsFiled :
    (n : ℕ) (m : BufferedMessage) (b : MessageBuffer)
    → IsOrdered b
    → IsFiled b
    → CommitGuard n m b
    → IsFiled (left (commit_accepted (accept_outgoing m n b.next_arrival_sequence) b))
unfolding accept_outgoing
commit-IsFiled n m b o v g =
    let (c, found, e) = commit_accepted-stored n m b o g in
    rw e (committed-IsFiled b v (accept_outgoing m n b.next_arrival_sequence) c g.fresh found)

step-IsFiled : (c : Call) (b : MessageBuffer) → IsOrdered b → IsFiled b → IsFiled (step c b)
unfolding step view_conversation
step-IsFiled (ensures key) b o v = ensure_cases IsFiled key b v (ensured-IsFiled b v key)
step-IsFiled (receives m) b o v = receive_cases IsFiled m b v (received-IsFiled b v m)
step-IsFiled (reserves key sender content) b o v =
    reserve_cases IsFiled key sender content b v (λ _. reserved-IsFiled b v key sender content)
step-IsFiled (commits id) b o v =
    commit_cases (λ r. IsFiled (left r)) id b v (λ n m g. commit-IsFiled n m b o v g)
step-IsFiled cancels b o v = cancel_cases IsFiled b (λ _. v) (λ m _. released-IsFiled b v o m)
step-IsFiled (views key through) b o v =
    view_cases (λ r. IsFiled (left r)) key through b v
      (λ c e _ _. viewed-IsFiled b v key through b.state_version c e)
      (λ c e _ _. viewed-IsFiled b v key through _ c e)

IsFiled-empty : IsFiled empty_buffer
unfolding find total_messages
IsFiled-empty = record { filed = λ k c e. cc; counted = refl }

keeps_both :
    (c : Call) (b : MessageBuffer)
    → IsOrdered b × IsFiled b
    → IsOrdered (step c b) × IsFiled (step c b)
keeps_both c b h = (step-IsOrdered c b h.0, step-IsFiled c b h.0 h.1)

-- After any calls on a new buffer: every message of a conversation carries the conversation's key
-- and is what the index holds under its id, the ids ascend strictly along each conversation, the
-- unread sequences of each are in order, and the conversations hold as many messages as the index.
pub run-IsFiled : (cs : List Call) → IsFiled (run cs empty_buffer)
run-IsFiled cs =
    (run_induction (λ b. IsOrdered b × IsFiled b) keeps_both cs empty_buffer
      (IsOrdered-empty, IsFiled-empty)).1
