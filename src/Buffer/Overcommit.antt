-- ===== src/Buffer/Overcommit.antt =====
-- Two faults of the buffer's bookkeeping around a reservation: ensureConversation does not count the
-- reserved bytes, and cancelOutgoing gives back a handle that is not the last one.
use protected_chat.Prelude.{
  ℕ, ◌+◌, ◌<◌, ◌≡◌, ◌^◌, some, ◌≤◌, true, Bytes, u64_mod, sub64, arith, sym, none, ◌∙◌, subst,
  add64, ap, u64_max, length, ◌≢◌,
}
use protected_chat.Buffer.State.{
  MessageBuffer, ConversationData, stored, max_text_bytes, Incoming, key_text_bytes,
  new_conversation, BufferedMessage, max_conversations,
}
use protected_chat.Buffer.Receive.{
  is_new, ensure_conversation, receive_incoming, received_message, store_received, file_received,
  add_unread, store_ensured,
}
use protected_chat.Buffer.Outgoing.{reserve_outgoing, cancel_outgoing, store_reserved, takes_back}
use protected_chat.Prelude.Map.{
  nat_order, find, find-insert_self, Sorted, erase, find-insert_ne, insert,
}
use protected_chat.Buffer.Key.{key_order, ConversationKey}
use protected_chat.Buffer.Limits.{IsOrdered}
use protected_chat.Buffer.Cases.{is_new-none}
use protected_chat.Prelude.Map.Sorts.{insert-Sorted, find-erase_ne}
use protected_chat.Buffer.Grows.{Conversations}
use protected_chat.Buffer.Delivery.{receive-stored}

-- While bytes are reserved, ensureConversation takes a new key that fits beside the retained text but
-- not beside the reserved text too, where there is room for a conversation and the counters are not
-- at their ends. The two counters then pass the limit of 16 MiB, and the room that receiveValidated
-- computes from them wraps round to at least 2 ^ 63 bytes.
pub ensure_overcommits :
    (key : ConversationKey) (b : MessageBuffer)
    → find key b.conversations ≡ none
    → length b.conversations < max_conversations
    → 0 < b.next_handle
    → b.next_handle ≤ max_conversations
    → b.state_version ≢ u64_max
    → b.retained_text_bytes + key_text_bytes key ≤ max_text_bytes
    → b.retained_text_bytes + b.reserved_text_bytes ≤ max_text_bytes
    → max_text_bytes < b.retained_text_bytes + b.reserved_text_bytes + key_text_bytes key
    → let (result, c) = ensure_conversation key b in
      (result ≡ stored)
      × (max_text_bytes < c.retained_text_bytes + c.reserved_text_bytes)
      × (2 ^ 63 ≤ sub64 (sub64 max_text_bytes c.retained_text_bytes) c.reserved_text_bytes)
unfolding ensure_conversation store_ensured
ensure_overcommits key b new room handle_set handle_bound version fits within past = ground arith

reserve-stored :
    (key : ConversationKey) (sender content : Bytes) (b c : MessageBuffer)
    → reserve_outgoing key sender content b ≡ (stored, c)
    → c ≡ store_reserved b key sender content
unfolding reserve_outgoing
reserve-stored key sender content b c h = ground arith

file_received-new :
    (handle : ℕ) (m : BufferedMessage) (conversations : Conversations)
    → find m.key conversations ≡ none
    → file_received handle m conversations
      ≡ insert m.key (add_unread (new_conversation handle) m) conversations
unfolding file_received
file_received-new handle m conversations e = rw (e, file_received)

-- What is left of two new conversations when the first of them is taken back.
module _ (key other : ConversationKey) (m : Conversations) (u v : ConversationData)
    (sorted : Sorted m) (new : find key m ≡ none)
    (also_new : find other (insert key u m) ≡ none) where
  different : other ≡ key → ⊥
  different same = cc (also_new, same, find-insert_self key u m new)

  first_found : find key (insert other v (insert key u m)) ≡ some u
  first_found =
      find-insert_ne key other v (insert key u m) (λ e. different (sym e))
      ∙ find-insert_self key u m new

  second_found : find other (erase key (insert other v (insert key u m))) ≡ some v
  second_found =
      find-erase_ne other key (insert other v (insert key u m))
        (insert-Sorted other v (insert key u m) (insert-Sorted key u m sorted)) different
      ∙ find-insert_self other v (insert key u m) also_new

module _ (key : ConversationKey) (sender content : Bytes) (m : Incoming) (b : MessageBuffer)
    (v : IsOrdered b) (new : is_new b key ≡ true)
    (also_new : is_new (store_reserved b key sender content) m.key ≡ true) where
  abbrev x : MessageBuffer
  x = store_reserved b key sender content

  abbrev second : ConversationData
  second = add_unread (new_conversation (add64 b.next_handle 1)) (received_message x m)

  with_first : x.conversations ≡ insert key (new_conversation b.next_handle) b.conversations
  unfolding store_reserved
  with_first = rw new

  second_new : find m.key (insert key (new_conversation b.next_handle) b.conversations) ≡ none
  second_new = subst (λ n. find m.key n ≡ none) with_first (is_new-none x m.key also_new)

  handle_x : x.next_handle ≡ add64 b.next_handle 1
  unfolding store_reserved
  handle_x = rw new

  with_both :
      (store_received x m).conversations
      ≡ insert m.key second (insert key (new_conversation b.next_handle) b.conversations)
  unfolding store_received received_message
  with_both =
      file_received-new x.next_handle (received_message x m) x.conversations
        (is_new-none x m.key also_new)
      ∙ rw (with_first, handle_x)

  both_taken_back : takes_back (store_received x m) key ≡ true
  unfolding takes_back store_received store_reserved
  both_taken_back = ground (
    arith,
    new,
    with_both,
    first_found key m.key b.conversations (new_conversation b.next_handle) second
        v.conversations_sorted (is_new-none b key new) second_new,
  )

  handle_after :
      b.next_handle + 2 < u64_mod
      → (cancel_outgoing (store_received x m)).next_handle ≡ add64 b.next_handle 1
  unfolding cancel_outgoing store_received store_reserved
  handle_after small = ground (arith, new, also_new, both_taken_back, handle_x)

  second_stays : find m.key (cancel_outgoing (store_received x m)).conversations ≡ some second
  unfolding cancel_outgoing store_received store_reserved
  second_stays = ground (
    arith,
    new,
    both_taken_back,
    with_both,
    second_found key m.key b.conversations (new_conversation b.next_handle) second
        v.conversations_sorted (is_new-none b key new) second_new,
  )

-- A reservation opens a conversation, a message opens another, and the reservation is cancelled:
-- the next handle is then the one that the message's conversation has.
pub cancel_reuses_handle :
    (key : ConversationKey) (sender content : Bytes) (m : Incoming) (b c d : MessageBuffer)
    → IsOrdered b
    → b.next_handle + 2 < u64_mod
    → is_new b key ≡ true
    → reserve_outgoing key sender content b ≡ (stored, c)
    → is_new c m.key ≡ true
    → receive_incoming m c ≡ (stored, d)
    → (e : ConversationData) × (find m.key (cancel_outgoing d).conversations ≡ some e)
      × (e.handle ≡ (cancel_outgoing d).next_handle)
unfolding add_unread
cancel_reuses_handle key sender content m b c d v small new reserved other received =
    let as_reserved = reserve-stored key sender content b c reserved in
    let also_new = subst (λ y. is_new y m.key ≡ true) as_reserved other in
    let as_received =
      (receive-stored m c d received).2 ∙ ap (λ y. store_received y m) as_reserved in
    (
      second key sender content m b v new also_new,
      rw as_received (second_stays key sender content m b v new also_new),
      rw as_received (sym (handle_after key sender content m b v new also_new small)),
    )
