-- ===== src/Buffer/Filing.antt =====
-- The index by message id and the conversations hold the same messages, each conversation in the
-- order of the ids.
use protected_chat.Prelude.{
  ℕ, ◌+◌, ◌<◌, ◌≡◌, [], refl, inl, none, some, arith, inr, ◌∷◌, List, ◌∙◌, Bool-cases, ltb, length,
  All,
}
use protected_chat.Prelude.Map.{
  find-insert_ne, insert, find, Map, Sorted, Ascends, find-insert_self, Ascends-mono, nat_order,
}
use protected_chat.Buffer.View.{erase_through}
use protected_chat.Buffer.State.{BufferedMessage, ConversationData, new_conversation, insert_record}
use protected_chat.Buffer.Key.{ConversationKey, key_order}
use protected_chat.Prelude.Map.Sorts.{Ascends-Sorted}

-- The ids ascend strictly along the list, from above `n`.
abbrev pub Above : ℕ → List BufferedMessage → Type 0
Above n [] = Unit
Above n (m ∷ ms) = (n < m.message_id) × Above m.message_id ms

abbrev pub Ascending : List BufferedMessage → Type 0
Ascending [] = Unit
Ascending (m ∷ ms) = Above m.message_id ms

abbrev OtherIds : ℕ → List BufferedMessage → Type 0
OtherIds n = All (λ m. m.message_id ≡ n → ⊥)

Above-insert_record :
    (n : ℕ) (m : BufferedMessage) (xs : List BufferedMessage)
    → n < m.message_id
    → OtherIds m.message_id xs
    → Above n xs
    → Above n (insert_record m xs)
unfolding insert_record
Above-insert_record n m [] h other a = (h, tt)
Above-insert_record n m (x ∷ xs) h other a =
    ground (arith, Above-insert_record x.message_id m xs, other.0)

Ascending-insert_record :
    (m : BufferedMessage) (xs : List BufferedMessage)
    → OtherIds m.message_id xs
    → Ascending xs
    → Ascending (insert_record m xs)
unfolding insert_record
Ascending-insert_record m [] other a = tt
Ascending-insert_record m (x ∷ xs) other a =
    ground (arith, Above-insert_record x.message_id m xs, other.0)

All-insert_record :
    (P : BufferedMessage → Type 0) (m : BufferedMessage) (xs : List BufferedMessage)
    → P m
    → All P xs
    → All P (insert_record m xs)
unfolding insert_record
All-insert_record P m [] p a = (p, tt)
All-insert_record P m (x ∷ xs) p a = elim (Bool-cases (ltb x.message_id m.message_id)) [
  | inl e ↦ rw e (a.0, All-insert_record P m xs p a.1)
  | inr e ↦ rw e (p, a)
]

pub length-insert_record :
    (m : BufferedMessage) (xs : List BufferedMessage) → length (insert_record m xs) ≡ length xs + 1
unfolding insert_record
length-insert_record m [] = omega arith
length-insert_record m (x ∷ xs) = ground (arith, length-insert_record m xs)

-- A message of the conversation `k`, found in the index under its id.
abbrev pub FiledUnder : Map ℕ BufferedMessage → ConversationKey → BufferedMessage → Type 0
FiledUnder ids k m = (m.key ≡ k) × (find m.message_id ids ≡ some m)

pub record Filed (ids : Map ℕ BufferedMessage) (k : ConversationKey) (c : ConversationData)
    : Type 0 where
  pub indexed : All (FiledUnder ids k) c.messages
  pub ascending : Ascending c.messages
  pub unread_sorted : Sorted c.unread_sequences

FiledUnder-OtherIds :
    (ids : Map ℕ BufferedMessage) (k : ConversationKey) (n : ℕ) (xs : List BufferedMessage)
    → find n ids ≡ none
    → All (FiledUnder ids k) xs
    → OtherIds n xs
FiledUnder-OtherIds ids k n [] fresh a = tt
FiledUnder-OtherIds ids k n (x ∷ xs) fresh a =
    ((λ e. cc (a.0.1, e, fresh)), FiledUnder-OtherIds ids k n xs fresh a.1)

FiledUnder-insert :
    (ids : Map ℕ BufferedMessage) (k : ConversationKey) (n : ℕ) (m : BufferedMessage)
    (xs : List BufferedMessage)
    → OtherIds n xs
    → All (FiledUnder ids k) xs
    → All (FiledUnder (insert n m ids) k) xs
FiledUnder-insert ids k n m [] other a = tt
FiledUnder-insert ids k n m (x ∷ xs) other a = (
  (a.0.0, find-insert_ne x.message_id n m ids other.0 ∙ a.0.1),
  FiledUnder-insert ids k n m xs other.1 a.1,
)

module _ (ids : Map ℕ BufferedMessage) (m : BufferedMessage)
    (fresh : find m.message_id ids ≡ none) where
  -- A new entry of the index leaves the other conversations filed.
  pub Filed-insert :
      (k : ConversationKey) (c : ConversationData)
      → Filed ids k c
      → Filed (insert m.message_id m ids) k c
  Filed-insert k c f = record {
    indexed =
        FiledUnder-insert ids k m.message_id m c.messages
          (FiledUnder-OtherIds ids k m.message_id c.messages fresh f.indexed) f.indexed;
    ascending = f.ascending;
    unread_sorted = f.unread_sorted;
  }

  -- The message itself is filed in the conversation of its key.
  pub Filed-insert_record :
      (c : ConversationData) (unread : Map ℕ (Unit {0}))
      → Filed ids m.key c
      → Sorted unread
      → Filed
          (insert m.message_id m ids)
          m.key
          (record c { messages = insert_record m c.messages; unread_sequences = unread })
  Filed-insert_record c unread f s =
      let other = FiledUnder-OtherIds ids m.key m.message_id c.messages fresh f.indexed in
      record {
        indexed =
            All-insert_record _ m c.messages (refl, find-insert_self m.message_id m ids fresh)
              (FiledUnder-insert ids m.key m.message_id m c.messages other f.indexed);
        ascending = Ascending-insert_record m c.messages other f.ascending;
        unread_sorted = s;
      }

pub Filed-new_conversation :
    (ids : Map ℕ BufferedMessage) (k : ConversationKey) (handle : ℕ)
    → Filed ids k (new_conversation handle)
Filed-new_conversation ids k handle = record { indexed = tt; ascending = tt; unread_sorted = tt }

erase_through-Ascends :
    (n through : ℕ) (s : Map ℕ (Unit {0})) → Ascends n s → Ascends n (erase_through through s)
unfolding erase_through
erase_through-Ascends n through [] a = tt
erase_through-Ascends n through ((k, u) ∷ s) a =
    ground
      (arith, erase_through-Ascends k through s a.1, Ascends-mono n k (erase_through through s))

pub erase_through-Sorted :
    (through : ℕ) (s : Map ℕ (Unit {0})) → Sorted s → Sorted (erase_through through s)
unfolding erase_through
erase_through-Sorted through [] a = tt
erase_through-Sorted through ((k, u) ∷ s) a =
    ground (arith, erase_through-Sorted through s (Ascends-Sorted k s a))
