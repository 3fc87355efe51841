-- ===== src/Buffer/Unread.antt =====
-- What markViewed leaves unread.
use protected_chat.Prelude.{
  ℕ, ◌≡◌, ◌∷◌, [], some, arith, List, none, leb, if◌then◌else◌, inl, true, refl, inr,
}
use protected_chat.Buffer.State.{empty_buffer, ConversationData, MessageBuffer}
use protected_chat.Buffer.Key.{ConversationKey, key_order, key_eq, key_eq_iff}
use protected_chat.Prelude.Map.{
  nat_order, Map, find_below, find_least, Sorted, find, find-assign_self, find-assign_ne, assign,
}
use protected_chat.Buffer.Calls.{Call, left, run}
use protected_chat.Prelude.Map.Sorts.{Ascends-Sorted}
use protected_chat.Buffer.View.{nothing_viewed, erase_through, mark_viewed, view_conversation}
use protected_chat.Prelude.Map.Entries.{key_cases}
use protected_chat.Buffer.Agreement.{run-IsFiled}

find-erase_through :
    (through n : ℕ) (s : Map ℕ (Unit {0}))
    → Sorted s
    → find n (erase_through through s) ≡ (if leb n through then none else find n s)
unfolding find erase_through
find-erase_through through n [] a = ground arith
find-erase_through through n ((k, u) ∷ s) a = ground (
  arith,
  find-erase_through through n s (Ascends-Sorted k s a),
  find_below n k s,
  find_least k s a,
)

erase_through-eq_self :
    (through : ℕ) (s : Map ℕ (Unit {0}))
    → nothing_viewed through s ≡ true
    → erase_through through s ≡ s
unfolding erase_through nothing_viewed
erase_through-eq_self through [] h = refl
erase_through-eq_self through ((k, u) ∷ s) h = rw h

find-assign_at :
    {V : Type 0} (other key : ConversationKey) (u v : V) (m : Map ConversationKey V)
    → find key m ≡ some u
    → find other (assign key v m) ≡ (if key_eq other key then some v else find other m)
find-assign_at other key u v m found = elim (key_cases other key) [
  | inl same ↦ rw (same, (key_eq_iff key key).1 refl) (find-assign_self key u v m found)
  | inr different ↦
      ground (arith, find-assign_ne other key v m different, different, (key_eq_iff other key).0)
]

-- The conversation after its unread sequences up to `through` are gone.
abbrev pub seen_through : ℕ → ConversationData → ConversationData
seen_through through c = record c { unread_sequences = erase_through through c.unread_sequences }

viewed_find :
    (b : MessageBuffer) (key other : ConversationKey) (through : ℕ) (c : ConversationData)
    → find key b.conversations ≡ some c
    → find other (left (mark_viewed key through b)).conversations
      ≡ (if key_eq other key then some (seen_through through c) else find other b.conversations)
unfolding mark_viewed view_conversation
viewed_find b key other through c found = ground (
  arith,
  found,
  find-assign_at other key c (seen_through through c) b.conversations found,
  erase_through-eq_self through c.unread_sequences,
  (key_eq_iff other key).0,
)

viewed_index :
    (b : MessageBuffer) (key : ConversationKey) (through : ℕ)
    → (left (mark_viewed key through b)).messages_by_id ≡ b.messages_by_id
unfolding mark_viewed view_conversation
viewed_index b key through = ground arith

-- In a buffer that calls on a new one have made, where the conversation `key` is `c`: after
-- markViewed, whether it returns or throws, that conversation is `c` without the unread sequences
-- up to `through`, of which just those above `through` are left; every other conversation and the
-- index are as before.
pub mark_viewed_lem :
    (cs : List Call) (key other : ConversationKey) (through n : ℕ) (c : ConversationData)
    → find key (run cs empty_buffer).conversations ≡ some c
    → let b = run cs empty_buffer in
      let b' = left (mark_viewed key through b) in
      (find other b'.conversations
        ≡ (if key_eq other key then some (seen_through through c) else find other b.conversations))
      × (find n (seen_through through c).unread_sequences
          ≡ (if leb n through then none else find n c.unread_sequences))
      × (b'.messages_by_id ≡ b.messages_by_id)
mark_viewed_lem cs key other through n c found = (
  viewed_find _ key other through c found,
  find-erase_through through n c.unread_sequences
      ((run-IsFiled cs).filed key c found).unread_sorted,
  viewed_index _ key through,
)
