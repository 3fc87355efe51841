-- ===== src/Buffer/Handles.antt =====
-- The numbers that conversations get, by which the notification screen names them.
use protected_chat.Prelude.{
  ℕ, ◌+◌, ◌≤◌, ◌≡◌, refl, none, some, length, arith, Bytes, false, List, ◌∷◌, [],
}
use protected_chat.Prelude.Map.{find, insert, assign, nat_order}
use protected_chat.Prelude.Map.Sizes.{length-insert, length-assign}
use protected_chat.Prelude.Map.Entries.{Every, Every-insert, Every-assign}
use protected_chat.Buffer.Key.{ConversationKey, key_order}
use protected_chat.Buffer.State.{
  ConversationData, Incoming, BufferedMessage, insert_record, MessageBuffer, empty_buffer,
  new_conversation,
}
use protected_chat.Buffer.Grows.{Conversations, received-Update}
use protected_chat.Buffer.Cases.{
  ReceiveGuard, reserve_cases, ensure_cases, file_cases, view_cases, CommitGuard, receive_cases,
  commit_cases, EnsureGuard, cancel_cases,
}
use protected_chat.Buffer.Outgoing.{
  commit_accepted, accept_outgoing, store_reserved, store_committed, takes_back, release_reserved,
}
use protected_chat.Buffer.View.{view_conversation, erase_through}
use protected_chat.Buffer.Calls.{
  reserves, ensures, views, Call, receives, step, commits, cancels, run, left,
}
use protected_chat.Buffer.Limits.{
  IsOrdered, IsOrdered-empty, commit_accepted-stored, step-IsOrdered,
}
use protected_chat.Buffer.Receive.{
  store_ensured, is_new, received_message, add_unread, store_received,
}

-- Every number is from 1 to `count`, and no two conversations have the same.
pub record Numbered (count : ℕ) (m : Conversations) : Type 0 where
  pub size : length m ≡ count
  pub below : Every (λ (k : ConversationKey) (c : ConversationData). c.handle ≤ count) m
  pub distinct :
      Every
        (λ (i : ConversationKey) (c : ConversationData).
          Every (λ (k : ConversationKey) (d : ConversationData). c.handle ≡ d.handle → i ≡ k) m)
        m

module _ (count : ℕ) (k : ConversationKey) (m : Conversations) (h : Numbered count m) where
  -- The next number goes to a new conversation.
  insert-Numbered :
      (v : ConversationData)
      → find k m ≡ none
      → v.handle ≡ count + 1
      → Numbered (count + 1) (insert k v m)
  insert-Numbered v fresh e = record {
    size = omega (arith, length-insert k v m fresh, h.size);
    below =
        Every-insert (λ _ c. c.handle ≤ count + 1) k v m fresh (omega arith)
          (λ i c found. omega (arith, h.below i c found));
    distinct =
        Every-insert _ k v m fresh
          (Every-insert (λ j d. v.handle ≡ d.handle → k ≡ j) k v m fresh (λ _. refl)
            (λ j d found same. absurd (omega (arith, h.below j d found))))
          (λ i c found.
            Every-insert (λ j d. c.handle ≡ d.handle → i ≡ j) k v m fresh
              (λ same. absurd (omega (arith, h.below i c found))) (h.distinct i c found));
  }

  assign-Numbered :
      (u v : ConversationData)
      → find k m ≡ some u
      → v.handle ≡ u.handle
      → Numbered count (assign k v m)
  assign-Numbered u v found e = record {
    size = omega (arith, length-assign k v m, h.size);
    below =
        Every-assign (λ _ c. c.handle ≤ count) k u v m found (omega (arith, h.below k u found))
          h.below;
    distinct =
        Every-assign _ k u v m found
          (Every-assign (λ j d. v.handle ≡ d.handle → k ≡ j) k u v m found (λ _. refl)
            (λ j d there same. h.distinct k u found j d there (omega arith)))
          (λ i c there.
            Every-assign (λ j d. c.handle ≡ d.handle → i ≡ j) k u v m found
              (λ same. h.distinct i c there k u found (omega arith)) (h.distinct i c there));
  }

pub record IsNumbered (b : MessageBuffer) : Type 0 where
  pub numbered : Numbered (length b.conversations) b.conversations
  pub next : b.next_handle ≡ length b.conversations + 1
  pub kept : b.reserved_conversation_created ≡ false

-- The user interface opens a conversation before a message is sent to it.
abbrev pub SendsToOpen : Call → MessageBuffer → Type 0
SendsToOpen (reserves key sender content) b = is_new b key ≡ false
SendsToOpen (ensures key) b = Unit
SendsToOpen (receives m) b = Unit
SendsToOpen (commits id) b = Unit
SendsToOpen cancels b = Unit
SendsToOpen (views key through) b = Unit

module _ (b : MessageBuffer) (o : IsOrdered b) (v : IsNumbered b) where
  recount : (n : ℕ) (m : Conversations) → Numbered n m → Numbered (length m) m
  recount n m h = rw h.size h

  grown :
      (k : ConversationKey) (c : ConversationData)
      → find k b.conversations ≡ none
      → c.handle ≡ b.next_handle
      → Numbered (length (insert k c b.conversations)) (insert k c b.conversations)
  grown k c fresh e =
      recount _ _
        (insert-Numbered _ k b.conversations v.numbered c fresh (omega (arith, e, v.next)))

  written :
      (k : ConversationKey) (u c : ConversationData)
      → find k b.conversations ≡ some u
      → c.handle ≡ u.handle
      → Numbered (length (assign k c b.conversations)) (assign k c b.conversations)
  written k u c found e = recount _ _ (assign-Numbered _ k b.conversations v.numbered u c found e)

  ensured-IsNumbered :
      (key : ConversationKey) → EnsureGuard key b → IsNumbered (store_ensured key b)
  unfolding store_ensured
  ensured-IsNumbered key g = record {
    numbered = grown key (new_conversation b.next_handle) g.fresh refl;
    next = omega (
      arith,
      length-insert key (new_conversation b.next_handle) b.conversations g.fresh,
      v.next,
      g.room,
    );
    kept = v.kept;
  }

  received-IsNumbered : (m : Incoming) → ReceiveGuard m b → IsNumbered (store_received b m)
  unfolding store_received
  received-IsNumbered m g = record {
    numbered =
        file_cases (λ n. Numbered (length n) n) b.next_handle (received_message b m) b.conversations
          (λ e. grown _ _ e (unfold add_unread in refl))
          (λ c e. written _ c _ e (unfold add_unread in refl));
    next = ground (arith, (received-Update b m).size, v.next, g.room, o.conversations_bound);
    kept = v.kept;
  }

  reserved-IsNumbered :
      (key : ConversationKey) (sender content : Bytes)
      → is_new b key ≡ false
      → IsNumbered (store_reserved b key sender content)
  unfolding store_reserved
  reserved-IsNumbered key sender content old =
      rw old (record { numbered = v.numbered; next = v.next; kept = refl })

  committed-IsNumbered :
      (accepted : BufferedMessage) (c : ConversationData)
      → find accepted.key b.conversations ≡ some c
      → IsNumbered (store_committed b accepted c)
  unfolding store_committed
  committed-IsNumbered accepted c e = record {
    numbered = written accepted.key c _ e refl;
    next = omega (
      arith,
      length-assign accepted.key (record c { messages = insert_record accepted c.messages })
          b.conversations,
      v.next,
    );
    kept = refl;
  }

  released-IsNumbered : (m : BufferedMessage) → IsNumbered (release_reserved b m.key)
  unfolding release_reserved takes_back
  released-IsNumbered m = rw v.kept (record { numbered = v.numbered; next = v.next; kept = refl })

  viewed-IsNumbered :
      (key : ConversationKey) (through version : ℕ) (c : ConversationData)
      → find key b.conversations ≡ some c
      → IsNumbered (record (view_conversation key through c b) { state_version = version })
  unfolding view_conversation
  viewed-IsNumbered key through version c e = record {
    numbered = written key c _ e refl;
    next = omega (
      arith,
      length-assign key (record c { unread_sequences = erase_through through c.unread_sequences })
          b.conversations,
      v.next,
    );
    kept = v.kept;
  }

commit-IsNumbered :
    (n : ℕ) (m : BufferedMessage) (b : MessageBuffer)
    → IsOrdered b
    → IsNumbered b
    → CommitGuard n m b
    → IsNumbered (left (commit_accepted (accept_outgoing m n b.next_arrival_sequence) b))
unfolding accept_outgoing
commit-IsNumbered n m b o v g =
    let (c, found, e) = commit_accepted-stored n m b o g in
    rw e (committed-IsNumbered b o v (accept_outgoing m n b.next_arrival_sequence) c found)

step-IsNumbered :
    (c : Call) (b : MessageBuffer)
    → SendsToOpen c b
    → IsOrdered b
    → IsNumbered b
    → IsNumbered (step c b)
unfolding step view_conversation
step-IsNumbered (ensures key) b a o v =
    ensure_cases IsNumbered key b v (ensured-IsNumbered b o v key)
step-IsNumbered (receives m) b a o v = receive_cases IsNumbered m b v (received-IsNumbered b o v m)
step-IsNumbered (reserves key sender content) b a o v =
    reserve_cases IsNumbered key sender content b v
      (λ g. reserved-IsNumbered b o v key sender content a)
step-IsNumbered (commits id) b a o v =
    commit_cases (λ r. IsNumbered (left r)) id b v (λ n m g. commit-IsNumbered n m b o v g)
step-IsNumbered cancels b a o v =
    cancel_cases IsNumbered b (λ _. v) (λ m _. released-IsNumbered b o v m)
step-IsNumbered (views key through) b a o v =
    view_cases (λ r. IsNumbered (left r)) key through b v
      (λ c e _ _. viewed-IsNumbered b o v key through b.state_version c e)
      (λ c e _ _. viewed-IsNumbered b o v key through _ c e)

-- Every reservation of the sequence is for a conversation that is there.
abbrev pub AllSendToOpen : List Call → MessageBuffer → Type 0
AllSendToOpen [] b = Unit
AllSendToOpen (c ∷ cs) b = SendsToOpen c b × AllSendToOpen cs (step c b)

run-IsNumbered_from :
    (cs : List Call) (b : MessageBuffer)
    → AllSendToOpen cs b
    → IsOrdered b
    → IsNumbered b
    → IsNumbered (run cs b)
unfolding run
run-IsNumbered_from [] b a o v = v
run-IsNumbered_from (c ∷ cs) b a o v =
    run-IsNumbered_from cs (step c b) a.1 (step-IsOrdered c b o) (step-IsNumbered c b a.0 o v)

IsNumbered-empty : IsNumbered empty_buffer
unfolding find
IsNumbered-empty = record {
  numbered = record { size = refl; below = λ k c e. cc; distinct = λ i c e. cc };
  next = refl;
  kept = refl;
}

-- After any calls on a new buffer in which every reservation is for a conversation that is there:
-- the handles of the conversations are from 1 to their number, no two have the same, and the next
-- handle is one more than their number.
pub run-IsNumbered :
    (cs : List Call) → AllSendToOpen cs empty_buffer → IsNumbered (run cs empty_buffer)
run-IsNumbered cs a = run-IsNumbered_from cs empty_buffer a IsOrdered-empty IsNumbered-empty
