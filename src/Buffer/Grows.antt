-- ===== src/Buffer/Grows.antt =====
-- How the calls on the buffer change its map of conversations: it grows by an entry, or not, and
-- only cancelOutgoing takes one away.
use protected_chat.Prelude.{
  ℕ, ◌+◌, ◌≤◌, ◌≡◌, Bool, true, false, Option, none, some, Bytes, length, arith, inl, inr,
  Bool-cases,
}
use protected_chat.Prelude.Map.{
  Map, find, insert, assign, Sorted, nat_order, find-insert_self, find-insert_ne, find-assign_self,
  find-assign_ne,
}
use protected_chat.Prelude.Map.Sorts.{insert-Sorted, assign-Sorted, erase-Sorted}
use protected_chat.Prelude.Map.Sizes.{length-insert, length-assign, length-erase}
use protected_chat.Prelude.Map.Entries.{key_cases}
use protected_chat.Buffer.Receive.{store_received, received_message, is_new}
use protected_chat.Buffer.Outgoing.{store_reserved, release_reserved, takes_back}
use protected_chat.Buffer.Cases.{file_cases, is_new-none, takes_back-created}
use protected_chat.Buffer.Key.{ConversationKey, key_order}
use protected_chat.Buffer.State.{
  MessageBuffer, BufferedMessage, ConversationData, Incoming, is_none,
}

-- The conversation of the reserved message is there.
abbrev pub HasHome : Map ConversationKey ConversationData → Option BufferedMessage → Type 0
HasHome conversations none = Unit
HasHome conversations (some m) = is_none (find m.key conversations) ≡ false

abbrev pub Conversations : Type 0
Conversations = Map ConversationKey ConversationData

-- Every key that is there stays there.
abbrev pub Grows : Conversations → Conversations → Type 0
Grows m n = (i : ConversationKey) → is_none (find i m) ≡ false → is_none (find i n) ≡ false

pub HasHome-Grows :
    (m n : Conversations) (r : Option BufferedMessage) → Grows m n → HasHome m r → HasHome n r
HasHome-Grows m n none grows h = tt
HasHome-Grows m n (some x) grows h = grows x.key h

-- A map of conversations that an update has grown by `extra` entries.
pub record Update (m n : Conversations) (extra : ℕ) : Type 0 where
  pub sorted : Sorted m → Sorted n
  pub size : length n ≡ length m + extra
  pub grows : Grows m n

module _ (k : ConversationKey) (m : Conversations) where
  pub insert-Update : (v : ConversationData) → find k m ≡ none → Update m (insert k v m) 1
  insert-Update v fresh = record {
    sorted = insert-Sorted k v m;
    size = length-insert k v m fresh;
    grows = λ i h. elim (key_cases i k) [
      | inl same ↦ cc (h, same, fresh)
      | inr other ↦ rw (find-insert_ne i k v m other) h
    ];
  }

  pub assign-Update : (u v : ConversationData) → find k m ≡ some u → Update m (assign k v m) 0
  assign-Update u v found = record {
    sorted = assign-Sorted k v m;
    size = omega (arith, length-assign k v m);
    grows = λ i h. elim (key_cases i k) [
      | inl same ↦ rw (same, find-assign_self k u v m found)
      | inr other ↦ rw (find-assign_ne i k v m other) h
    ];
  }

pub same-Update : (m : Conversations) → Update m m 0
same-Update m = record { sorted = λ s. s; size = omega arith; grows = λ i h. h }

abbrev pub one_if : Bool → ℕ
one_if true = 1
one_if false = 0

pub received-Update :
    (b : MessageBuffer) (m : Incoming)
    → Update b.conversations (store_received b m).conversations (one_if (is_new b m.key))
unfolding store_received received_message is_new
received-Update b m =
    file_cases (λ n. Update b.conversations n (one_if (is_new b m.key))) _ _ b.conversations
      (λ e. rw (e, is_new) (insert-Update m.key b.conversations _ e))
      (λ c e. rw (e, is_new) (assign-Update m.key b.conversations c _ e))

pub reserved-Update :
    (b : MessageBuffer) (key : ConversationKey) (sender content : Bytes)
    → Update b.conversations
        (store_reserved b key sender content).conversations
        (one_if (is_new b key))
unfolding store_reserved
reserved-Update b key sender content = elim (Bool-cases (is_new b key)) [
  | inl e ↦ rw e (insert-Update key b.conversations _ (is_new-none b key e))
  | inr e ↦ rw e (same-Update b.conversations)
]

pub reserved_home :
    (b : MessageBuffer) (key : ConversationKey) (sender content : Bytes)
    → is_none (find key (store_reserved b key sender content).conversations) ≡ false
unfolding store_reserved
reserved_home b key sender content = elim (Bool-cases (is_new b key)) [
  | inl e ↦ rw (e, find-insert_self key _ b.conversations (is_new-none b key e))
  | inr e ↦ rw e (unfold is_new in e)
]

pub released_map :
    (b : MessageBuffer) (key : ConversationKey)
    → Sorted b.conversations
    → Sorted (release_reserved b key).conversations
      × (length (release_reserved b key).conversations ≤ length b.conversations)
unfolding release_reserved
released_map b key s = elim (Bool-cases (takes_back b key)) [
  | inl e ↦
      let (c, found, _) = takes_back-created b key e in
      rw e (
        erase-Sorted key b.conversations s,
        omega (arith, length-erase key c b.conversations found),
      )
  | inr e ↦ rw e (s, omega arith)
]
