-- ===== src/Buffer/Delivery.antt =====
-- What receiveValidated does with a message that was stored before, and why: no call takes an entry
-- out of the index of messages.
use protected_chat.Prelude.{
  ◌≡◌, refl, true, false, none, arith, bytes_eq_refl, ℕ, List, some, subst, sym, ◌∙◌, elim_option,
}
use protected_chat.Prelude.Map.{find, nat_order, find-insert_self, Map, insert, find-insert_ne}
use protected_chat.Buffer.Key.{key_order, key_eq_iff}
use protected_chat.Buffer.State.{
  stored, duplicate, MessageBuffer, Incoming, same_incoming, Outcome, BufferedMessage,
  BufferInsertResult,
}
use protected_chat.Buffer.Receive.{
  receive_incoming, receive_refused, store_received, received_message, store_ensured,
}
use protected_chat.Buffer.Outgoing.{
  store_reserved, commit_accepted, store_committed, accept_outgoing, release_reserved,
}
use protected_chat.Buffer.Cases.{
  commit_cases, ensure_cases, view_cases, CommitGuard, reserve_cases, receive_cases, cancel_cases,
}
use protected_chat.Buffer.View.{view_conversation}
use protected_chat.Buffer.Calls.{
  Call, ensures, receives, reserves, commits, cancels, views, step, run, run_induction, left,
}

same_incoming-received :
    (b : MessageBuffer) (m : Incoming) → same_incoming (received_message b m) m ≡ true
unfolding same_incoming received_message
same_incoming-received b m =
    ground (arith, (key_eq_iff m.key m.key).1 refl, bytes_eq_refl m.sender, bytes_eq_refl m.content)

-- The branch that a stored message took.
pub receive-stored :
    (m : Incoming) (b c : MessageBuffer)
    → receive_incoming m b ≡ (stored, c)
    → (find m.message_id b.messages_by_id ≡ none)
      × (receive_refused b m ≡ false)
      × (c ≡ store_received b m)
unfolding receive_incoming
receive-stored m b c h = (ground arith, ground arith, ground arith)

-- Whatever is called, an entry of the index stays as it is.
module _ (id : ℕ) (x : BufferedMessage) where
  abbrev Indexed : MessageBuffer → Type 0
  Indexed b = find id b.messages_by_id ≡ some x

  insert-Indexed :
      (n : ℕ) (y : BufferedMessage) (m : Map ℕ BufferedMessage)
      → find n m ≡ none
      → find id m ≡ some x
      → find id (insert n y m) ≡ some x
  insert-Indexed n y m fresh h = find-insert_ne id n y m (λ e. cc (fresh, h, e)) ∙ h

  commit-Indexed :
      (n : ℕ) (m : BufferedMessage) (b : MessageBuffer)
      → CommitGuard n m b
      → Indexed b
      → Indexed (left (commit_accepted (accept_outgoing m n b.next_arrival_sequence) b))
  unfolding accept_outgoing store_committed commit_accepted
  commit-Indexed n m b g h =
      let accepted = accept_outgoing m n b.next_arrival_sequence in
      elim_option (λ (o : Outcome BufferInsertResult). Indexed (left o))
        (find accepted.key b.conversations) _ _ (λ _. h)
        (λ c _. insert-Indexed n accepted b.messages_by_id g.fresh h)

  step-Indexed : (c : Call) (b : MessageBuffer) → Indexed b → Indexed (step c b)
  unfolding step store_ensured store_received store_reserved release_reserved view_conversation
  step-Indexed (ensures key) b h = ensure_cases Indexed key b h (λ _. h)
  step-Indexed (receives m) b h =
      receive_cases Indexed m b h
        (λ g. insert-Indexed m.message_id (received_message b m) b.messages_by_id g.fresh h)
  step-Indexed (reserves key sender content) b h =
      reserve_cases Indexed key sender content b h (λ _. h)
  step-Indexed (commits n) b h =
      commit_cases (λ o. Indexed (left o)) n b h (λ k m g. commit-Indexed k m b g h)
  step-Indexed cancels b h = cancel_cases Indexed b (λ _. h) (λ _ _. h)
  step-Indexed (views key through) b h =
      view_cases (λ o. Indexed (left o)) key through b h (λ _ _ _ _. h) (λ _ _ _ _. h)

stored-Indexed :
    (m : Incoming) (b : MessageBuffer)
    → find m.message_id b.messages_by_id ≡ none
    → Indexed m.message_id (received_message b m) (store_received b m)
unfolding store_received
stored-Indexed m b fresh =
    find-insert_self m.message_id (received_message b m) b.messages_by_id fresh

duplicate_again :
    (m : Incoming) (b c : MessageBuffer)
    → Indexed m.message_id (received_message b m) c
    → receive_incoming m c ≡ (duplicate, c)
unfolding receive_incoming
duplicate_again m b c h = ground (arith, h, same_incoming-received b m)

-- A message that was stored is a duplicate where it comes again in the same words, whatever calls
-- come in between, and the buffer does not change.
pub receive_again :
    (cs : List Call) (m : Incoming) (b c : MessageBuffer)
    → receive_incoming m b ≡ (stored, c)
    → receive_incoming m (run cs c) ≡ (duplicate, run cs c)
receive_again cs m b c h =
    let (fresh, _, e) = receive-stored m b c h in
    let kept = run_induction _ (step-Indexed m.message_id (received_message b m)) cs in
    duplicate_again m b (run cs c) (
      kept c
        (subst (Indexed m.message_id (received_message b m)) (sym e) (stored-Indexed m b fresh)))
