-- ===== src/Buffer/Reservation.antt =====
-- Reserving room for an outgoing message and giving it back.
use protected_chat.Prelude.{ℕ, ◌≡◌, ◌<◌, false, none, Bytes, arith, add64, sub64, u64_mod}
use protected_chat.Prelude.Map.{nat_order, find-insert_self, erase-insert}
use protected_chat.Buffer.Key.{ConversationKey, key_order}
use protected_chat.Buffer.Cases.{is_new-none}
use protected_chat.Buffer.State.{stored, MessageBuffer, key_text_bytes, new_conversation}
use protected_chat.Buffer.Receive.{is_new, new_key_bytes}
use protected_chat.Buffer.Outgoing.{reserve_outgoing, store_reserved, cancel_outgoing, takes_back}

-- No reservation, and its fields at rest.
pub record IsIdle (b : MessageBuffer) : Type 0 where
  pub free : b.reserved_message ≡ none
  pub not_created : b.reserved_conversation_created ≡ false
  pub no_bytes : b.reserved_text_bytes ≡ 0

-- The members are 64-bit words.
pub record IsWord (b : MessageBuffer) : Type 0 where
  pub retained_word : b.retained_text_bytes < u64_mod
  pub handle_word : b.next_handle < u64_mod

sub64-add64 : (x y : ℕ) → x < u64_mod → y < u64_mod → sub64 (add64 x y) y ≡ x
sub64-add64 x y h k = omega arith

takes_back-reserved :
    (b : MessageBuffer) (key : ConversationKey) (sender content : Bytes)
    → takes_back (store_reserved b key sender content) key ≡ is_new b key
unfolding takes_back store_reserved
takes_back-reserved b key sender content = ground (
  arith,
  find-insert_self key (new_conversation b.next_handle) b.conversations,
  is_new-none b key,
)

-- After a reservation that found room, cancelling it restores the buffer but for its version.
pub cancel-reserve :
    (key : ConversationKey) (sender content : Bytes) (b c : MessageBuffer)
    → IsIdle b
    → IsWord b
    → key_text_bytes key < u64_mod
    → reserve_outgoing key sender content b ≡ (stored, c)
    → record (cancel_outgoing c) { state_version = b.state_version } ≡ b
unfolding reserve_outgoing store_reserved cancel_outgoing new_key_bytes
cancel-reserve key sender content b c idle word small h = ground (
  arith,
  takes_back-reserved b key sender content,
  is_new-none b key,
  erase-insert key (new_conversation b.next_handle) b.conversations,
  idle.free,
  idle.not_created,
  idle.no_bytes,
  word.retained_word,
  word.handle_word,
)
