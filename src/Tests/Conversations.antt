-- ===== src/Tests/Conversations.antt =====
-- Ali's message buffer: a message from Sara, one to her, and one from Reza.
use protected_chat.Prelude.{
  [], refl, ◌≡◌, List, ◌∷◌, codes, ◌<◌, some, true, ◌^◌, ◌+◌, arith, ◌≤◌, sub64, none, bytes_lt,
  if◌then◌else◌, leb, ℕ, suc, ◌≢◌, zero, Bytes, u64_max, length,
}
use protected_chat.Buffer.Handles.{IsNumbered, AllSendToOpen, run-IsNumbered}
use protected_chat.Buffer.Key.{ConversationKey, private_chat, key_order, key_eq, key_lt}
use protected_chat.Buffer.Calls.{step, views, Call, commits, receives, run, left}
use protected_chat.Buffer.Receive.{
  is_new, receive_incoming, receive_refused, ensure_conversation, store_received, file_received,
  add_unread, received_message, new_key_bytes,
}
use protected_chat.Buffer.Agreement.{run-IsFiled, IsFiled}
use protected_chat.Buffer.Accounting.{AllAllowed, run-IsAccounted, IsAccounted}
use protected_chat.Buffer.Outgoing.{
  cancel_outgoing, commit_outgoing, reserve_outgoing, reserve_refused, store_reserved,
}
use protected_chat.Buffer.Calls.{reserves}
use protected_chat.Buffer.State.{
  empty_buffer, MessageBuffer, Incoming, stored, duplicate, ConversationData, message_text_bytes,
  max_text_bytes, key_text_bytes, new_conversation,
}
use protected_chat.Buffer.Reservation.{cancel-reserve}
use protected_chat.Buffer.Limits.{
  commit-Returns, run-IsOrdered, IsOrdered, Returns, IsOrdered-empty,
}
use protected_chat.Prelude.Int.{pos}
use protected_chat.Buffer.Delivery.{receive_again}
use protected_chat.Prelude.Map.{find, insert, nat_order}
use protected_chat.Buffer.Overcommit.{cancel_reuses_handle, ensure_overcommits}
use protected_chat.Session.Registry.{bytes_order}
use protected_chat.Buffer.Unread.{seen_through, mark_viewed_lem}
use protected_chat.Buffer.View.{mark_viewed}

abbrev sara : ConversationKey
sara = private_chat (codes "sara")

abbrev reza : ConversationKey
reza = private_chat (codes "reza")

sara-bytes : key_text_bytes sara ≡ 4
unfolding key_text_bytes
sara-bytes = refl

reza-bytes : key_text_bytes reza ≡ 4
unfolding key_text_bytes
reza-bytes = refl

abbrev hello : Incoming
hello = record {
  message_id = 7;
  key = sara;
  sender = codes "sara";
  sender_id = 2;
  content = codes "hello";
  created_at = 1700;
}

abbrev good_day : Incoming
good_day = record {
  message_id = 9;
  key = reza;
  sender = codes "reza";
  sender_id = 3;
  content = codes "good day";
  created_at = 1800;
}

abbrev evening : List Call
evening =
    receives hello
    ∷ reserves sara (codes "ali") (codes "hi")
    ∷ commits (pos 8)
    ∷ views sara 1
    ∷ receives good_day
    ∷ []

run-IsOrdered_example : IsOrdered (run evening empty_buffer)
run-IsOrdered_example = run-IsOrdered evening

commit-Returns_example :
    Returns
      (commit_outgoing (pos 8) (run (reserves sara (codes "ali") (codes "hi") ∷ []) empty_buffer))
commit-Returns_example = commit-Returns (reserves sara (codes "ali") (codes "hi") ∷ []) (pos 8)

run-IsFiled_example : IsFiled (run evening empty_buffer)
run-IsFiled_example = run-IsFiled evening

evening-AllAllowed : AllAllowed evening empty_buffer
evening-AllAllowed = (
  omega (arith, sara-bytes),
  (omega (arith, sara-bytes), (tt, (tt, (omega (arith, reza-bytes), tt)))),
)

run-IsAccounted_example : IsAccounted (run evening empty_buffer)
run-IsAccounted_example = run-IsAccounted evening evening-AllAllowed

evening-AllSendToOpen : AllSendToOpen evening empty_buffer
unfolding step receive_incoming find receive_refused is_new message_text_bytes key_text_bytes
    store_received file_received insert key_lt bytes_lt
evening-AllSendToOpen = (tt, (refl, (tt, (tt, (tt, tt)))))

run-IsNumbered_example : IsNumbered (run evening empty_buffer)
run-IsNumbered_example = run-IsNumbered evening evening-AllSendToOpen

abbrev with_hello : MessageBuffer
with_hello = (receive_incoming hello empty_buffer).1

hello-stored : receive_incoming hello empty_buffer ≡ (stored, with_hello)
unfolding receive_incoming find receive_refused is_new message_text_bytes key_text_bytes
hello-stored = refl

-- What comes between the two deliveries of Sara's message.
abbrev between : List Call
between = reserves sara (codes "ali") (codes "hi") ∷ commits (pos 8) ∷ receives good_day ∷ []

receive_again_example :
    receive_incoming hello (run between with_hello) ≡ (duplicate, run between with_hello)
receive_again_example = receive_again between hello empty_buffer with_hello hello-stored

abbrev with_reserved : MessageBuffer
with_reserved = (reserve_outgoing sara (codes "ali") (codes "hi") empty_buffer).1

hi-reserved :
    reserve_outgoing sara (codes "ali") (codes "hi") empty_buffer ≡ (stored, with_reserved)
unfolding reserve_outgoing reserve_refused is_new find message_text_bytes key_text_bytes
hi-reserved = refl

cancel-reserve_example : record (cancel_outgoing with_reserved) { state_version = 0 } ≡ empty_buffer
cancel-reserve_example =
    cancel-reserve sara (codes "ali") (codes "hi") empty_buffer with_reserved
      (record { free = refl; not_created = refl; no_bytes = refl })
      (record { retained_word = omega arith; handle_word = omega arith })
      (omega (arith, sara-bytes)) hi-reserved

-- A text of the given length.
unfoldable letters : ℕ → Bytes
letters zero = []
letters (suc n) = 97 ∷ letters n

length-letters : (n : ℕ) → length (letters n) ≡ n
unfolding letters
length-letters zero = refl
length-letters (suc n) = omega (arith, length-letters n)

-- A message to Sara is reserved that fills the 16 MiB, and then Reza's key comes.
abbrev long_text : Bytes
long_text = letters 16777208

abbrev filled : MessageBuffer
filled = run (reserves sara [] long_text ∷ []) empty_buffer

sara_new : is_new empty_buffer sara ≡ true
unfolding is_new find
sara_new = refl

filled-stored : filled ≡ store_reserved empty_buffer sara [] long_text
unfolding run step reserve_outgoing reserve_refused new_key_bytes message_text_bytes
filled-stored = ground (arith, sara_new, sara-bytes, length-letters 16777208)

filled_counters :
    (filled.retained_text_bytes ≡ 4)
    × (filled.reserved_text_bytes ≡ 16777212)
    × (filled.next_handle ≡ 2)
    × (filled.state_version ≡ 1)
unfolding store_reserved new_key_bytes message_text_bytes
filled_counters = rw filled-stored (ground (arith, sara_new, sara-bytes, length-letters 16777208))

filled_conversations : (find reza filled.conversations ≡ none) × (length filled.conversations ≡ 1)
unfolding store_reserved is_new find insert key_lt bytes_lt
filled_conversations = rw filled-stored (refl, refl)

filled_version : filled.state_version ≢ u64_max
filled_version = omega (arith, filled_counters)

ensure_overcommits_example :
    let (result, c) = ensure_conversation reza filled in
    (result ≡ stored)
    × (max_text_bytes < c.retained_text_bytes + c.reserved_text_bytes)
    × (2 ^ 63 ≤ sub64 (sub64 max_text_bytes c.retained_text_bytes) c.reserved_text_bytes)
ensure_overcommits_example =
    ensure_overcommits reza filled filled_conversations.0 (omega (arith, filled_conversations))
      (omega (arith, filled_counters)) (omega (arith, filled_counters)) filled_version
      (omega (arith, filled_counters, reza-bytes)) (omega (arith, filled_counters))
      (omega (arith, filled_counters, reza-bytes))

-- A new conversation with Sara is reserved, and Reza's message opens another.
abbrev both_open : MessageBuffer
both_open = (receive_incoming good_day with_reserved).1

both_open-stored : receive_incoming good_day with_reserved ≡ (stored, both_open)
unfolding receive_incoming find receive_refused is_new message_text_bytes key_text_bytes
    reserve_outgoing reserve_refused store_reserved insert key_lt bytes_lt
both_open-stored = refl

sara-new : is_new empty_buffer sara ≡ true
unfolding is_new find
sara-new = refl

reza-new : is_new with_reserved reza ≡ true
unfolding is_new find message_text_bytes key_text_bytes reserve_outgoing reserve_refused
    store_reserved insert key_lt bytes_lt
reza-new = refl

cancel_reuses_handle_example :
    (e : ConversationData) × (find reza (cancel_outgoing both_open).conversations ≡ some e)
    × (e.handle ≡ (cancel_outgoing both_open).next_handle)
cancel_reuses_handle_example =
    cancel_reuses_handle sara (codes "ali") (codes "hi") good_day empty_buffer with_reserved
      both_open IsOrdered-empty (omega arith) sara-new hi-reserved reza-new both_open-stored

abbrev one_message : List Call
one_message = receives hello ∷ []

abbrev unseen : ConversationData
unseen = add_unread (new_conversation 1) (received_message empty_buffer hello)

unseen-found : find sara (run one_message empty_buffer).conversations ≡ some unseen
unfolding run step receive_incoming find receive_refused is_new message_text_bytes key_text_bytes
    store_received file_received insert key_lt bytes_lt
unseen-found = refl

mark_viewed_example :
    let b = run one_message empty_buffer in
    let b' = left (mark_viewed sara 1 b) in
    (find reza b'.conversations
      ≡ (if key_eq reza sara then some (seen_through 1 unseen) else find reza b.conversations))
    × (find 1 (seen_through 1 unseen).unread_sequences
        ≡ (if leb 1 1 then none else find 1 unseen.unread_sequences))
    × (b'.messages_by_id ≡ b.messages_by_id)
mark_viewed_example = mark_viewed_lem one_message sara reza 1 1 unseen unseen-found
