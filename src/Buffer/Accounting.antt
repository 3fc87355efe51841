-- ===== src/Buffer/Accounting.antt =====
-- The text that the buffer retains, counted over its conversations, against its counters.
use protected_chat.Prelude.{
  ℕ, ◌+◌, ◌≤◌, ◌≡◌, refl, none, some, List, [], ◌∷◌, Bytes, arith, inl, inr, Bool-cases,
}
use protected_chat.Prelude.Map.{find, nat_order}
use protected_chat.Prelude.Map.Sizes.{sum_by, sum_by-insert, sum_by-assign}
use protected_chat.Buffer.Key.{ConversationKey, key_order}
use protected_chat.Buffer.State.{
  MessageBuffer, BufferedMessage, ConversationData, Incoming, insert_record, max_text_bytes,
  new_conversation, empty_buffer,
}
use protected_chat.Buffer.Receive.{store_ensured, store_received}
use protected_chat.Buffer.Outgoing.{
  store_reserved, store_committed, accept_outgoing, release_reserved, takes_back, commit_accepted,
}
use protected_chat.Buffer.Cases.{
  EnsureGuard, ensure_cases, ReceiveGuard, receive_cases, ReserveGuard, reserve_cases, CommitGuard,
  commit_cases, cancel_cases, view_cases,
}
use protected_chat.Buffer.Calls.{
  Call, ensures, receives, reserves, commits, cancels, views, step, run, left,
}
use protected_chat.Buffer.View.{view_conversation}
use protected_chat.Buffer.Limits.{
  IsOrdered, step-IsOrdered, commit_accepted-stored, IsOrdered-empty,
}
use protected_chat.Buffer.Costs.{
  record_bytes, conversation_bytes, reserved_bytes, InMemory, conversation_bytes-new_conversation,
  received_sum, reserved_sum, reserved_cost, conversation_bytes-insert_record,
  record_bytes-accept_outgoing, released_sum, incoming_cost, viewed_sum,
}

pub record IsAccounted (b : MessageBuffer) : Type 0 where
  pub retained : b.retained_text_bytes ≡ sum_by conversation_bytes b.conversations
  pub reserved : b.reserved_text_bytes ≡ reserved_bytes b.reserved_message
  pub budget : b.retained_text_bytes + b.reserved_text_bytes ≤ max_text_bytes

module _ (b : MessageBuffer) (v : IsAccounted b) where
  ensured-IsAccounted :
      (key : ConversationKey)
      → b.reserved_message ≡ none
      → EnsureGuard key b
      → IsAccounted (store_ensured key b)
  unfolding store_ensured
  ensured-IsAccounted key free g =
      let grown =
        sum_by-insert conversation_bytes key (new_conversation b.next_handle) b.conversations
          g.fresh in
      let rest = conversation_bytes-new_conversation key b.next_handle in
      let nothing : b.reserved_text_bytes ≡ 0 = ground (arith, v.reserved) in
      record {
        retained = omega (arith, grown, rest, nothing, v.retained, v.budget, g.fits);
        reserved = v.reserved;
        budget = omega (arith, nothing, v.budget, g.fits);
      }

  received-IsAccounted :
      (m : Incoming)
      → InMemory m.key m.sender m.content
      → ReceiveGuard m b
      → IsAccounted (store_received b m)
  unfolding store_received
  received-IsAccounted m small g =
      let cost = incoming_cost b m small in
      record {
        retained = omega (arith, received_sum b m, cost, v.retained, v.budget, g.fits);
        reserved = v.reserved;
        budget = omega (arith, v.budget, g.fits);
      }

  reserved-IsAccounted :
      (key : ConversationKey) (sender content : Bytes)
      → InMemory key sender content
      → ReserveGuard key sender content b
      → IsAccounted (store_reserved b key sender content)
  unfolding store_reserved
  reserved-IsAccounted key sender content small g =
      let cost = reserved_cost b key sender content small in
      let sum = reserved_sum b key sender content in
      record {
        retained = omega (arith, sum, cost, v.retained, v.budget, g.fits);
        reserved = cost.0;
        budget = omega (arith, cost, v.retained, v.budget, g.fits);
      }

  committed-IsAccounted :
      (n : ℕ) (m : BufferedMessage) (c : ConversationData)
      → CommitGuard n m b
      → find m.key b.conversations ≡ some c
      → IsAccounted (store_committed b (accept_outgoing m n b.next_arrival_sequence) c)
  unfolding store_committed accept_outgoing
  committed-IsAccounted n m c g e =
      let accepted = accept_outgoing m n b.next_arrival_sequence in
      let sum =
        sum_by-assign conversation_bytes m.key c
          (record c { messages = insert_record accepted c.messages }) b.conversations e in
      let more = conversation_bytes-insert_record m.key c accepted in
      let same = record_bytes-accept_outgoing m n b.next_arrival_sequence in
      let held : b.reserved_text_bytes ≡ record_bytes m = ground (arith, v.reserved, g.reserved) in
      record {
        retained = omega (arith, sum, more, same, held, v.retained, v.budget);
        reserved = refl;
        budget = omega (arith, held, v.retained, v.budget);
      }

  released-IsAccounted : (m : BufferedMessage) → IsAccounted (release_reserved b m.key)
  unfolding release_reserved
  released-IsAccounted m = elim (Bool-cases (takes_back b m.key)) [
    | inl e ↦
        let sum = released_sum b m.key in
        record {
          retained = ground (arith, e, sum, v.retained, v.budget);
          reserved = refl;
          budget = ground (arith, e, sum, v.retained, v.budget);
        }
    | inr e ↦
        let sum = released_sum b m.key in
        record {
          retained = ground (arith, e, sum, v.retained, v.budget);
          reserved = refl;
          budget = ground (arith, e, v.retained, v.budget);
        }
  ]

  viewed-IsAccounted :
      (key : ConversationKey) (through version : ℕ) (c : ConversationData)
      → find key b.conversations ≡ some c
      → IsAccounted (record (view_conversation key through c b) { state_version = version })
  unfolding view_conversation
  viewed-IsAccounted key through version c e = record {
    retained = omega (arith, viewed_sum b key through c e, v.retained);
    reserved = v.reserved;
    budget = v.budget;
  }

-- What a call must observe for the counters to hold: its strings are in memory together, and no
-- conversation is opened by ensureConversation while a message is reserved.
abbrev pub Allowed : Call → MessageBuffer → Type 0
Allowed (ensures key) b = b.reserved_message ≡ none
Allowed (receives m) b = InMemory m.key m.sender m.content
Allowed (reserves key sender content) b = InMemory key sender content
Allowed (commits id) b = Unit
Allowed cancels b = Unit
Allowed (views key through) b = Unit

commit-IsAccounted :
    (n : ℕ) (m : BufferedMessage) (b : MessageBuffer)
    → IsOrdered b
    → IsAccounted b
    → CommitGuard n m b
    → IsAccounted (left (commit_accepted (accept_outgoing m n b.next_arrival_sequence) b))
commit-IsAccounted n m b o v g =
    let (c, found, e) = commit_accepted-stored n m b o g in
    rw e (committed-IsAccounted b v n m c g found)

pub step-IsAccounted :
    (c : Call) (b : MessageBuffer)
    → Allowed c b
    → IsOrdered b
    → IsAccounted b
    → IsAccounted (step c b)
unfolding step view_conversation
step-IsAccounted (ensures key) b a o v =
    ensure_cases IsAccounted key b v (ensured-IsAccounted b v key a)
step-IsAccounted (receives m) b a o v =
    receive_cases IsAccounted m b v (received-IsAccounted b v m a)
step-IsAccounted (reserves key sender content) b a o v =
    reserve_cases IsAccounted key sender content b v (reserved-IsAccounted b v key sender content a)
step-IsAccounted (commits id) b a o v =
    commit_cases (λ r. IsAccounted (left r)) id b v (λ n m g. commit-IsAccounted n m b o v g)
step-IsAccounted cancels b a o v =
    cancel_cases IsAccounted b (λ _. v) (λ m _. released-IsAccounted b v m)
step-IsAccounted (views key through) b a o v =
    view_cases (λ r. IsAccounted (left r)) key through b v
      (λ c e _ _. viewed-IsAccounted b v key through b.state_version c e)
      (λ c e _ _. viewed-IsAccounted b v key through _ c e)

-- Every call of the sequence observes its condition in the buffer that it meets.
abbrev pub AllAllowed : List Call → MessageBuffer → Type 0
AllAllowed [] b = Unit
AllAllowed (c ∷ cs) b = Allowed c b × AllAllowed cs (step c b)

run-IsAccounted_from :
    (cs : List Call) (b : MessageBuffer)
    → AllAllowed cs b
    → IsOrdered b
    → IsAccounted b
    → IsAccounted (run cs b)
unfolding run
run-IsAccounted_from [] b a o v = v
run-IsAccounted_from (c ∷ cs) b a o v =
    run-IsAccounted_from cs (step c b) a.1 (step-IsOrdered c b o) (step-IsAccounted c b a.0 o v)

IsAccounted-empty : IsAccounted empty_buffer
IsAccounted-empty = record { retained = refl; reserved = refl; budget = omega arith }

-- After any calls on a new buffer whose strings are in memory together, and of which none opens a
-- conversation by ensureConversation while a message is reserved: the retained counter is the
-- text of the conversations' keys and of their messages, the reserved counter is that of the
-- reserved message, and the two together are at most 16 MiB.
pub run-IsAccounted :
    (cs : List Call) → AllAllowed cs empty_buffer → IsAccounted (run cs empty_buffer)
run-IsAccounted cs a = run-IsAccounted_from cs empty_buffer a IsOrdered-empty IsAccounted-empty
