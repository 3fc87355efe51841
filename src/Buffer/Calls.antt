-- ===== src/Buffer/Calls.antt =====
-- A client of MessageBuffer as the sequence of its calls. Each call holds the mutex to its end, so
-- the threads that share the buffer make such a sequence.
use protected_chat.Prelude.{ℕ, List, [], ◌∷◌, Bytes}
use protected_chat.Prelude.Int.{ℤ}
use protected_chat.Buffer.Receive.{ensure_conversation, receive_incoming}
use protected_chat.Buffer.Outgoing.{reserve_outgoing, commit_outgoing, cancel_outgoing}
use protected_chat.Buffer.Key.{ConversationKey}
use protected_chat.Buffer.State.{MessageBuffer, Incoming, Outcome, returned, thrown}
use protected_chat.Buffer.View.{mark_viewed}

pub data Call : Type 0 where
  ensures : ConversationKey → Call
  receives : Incoming → Call
  reserves : ConversationKey → Bytes → Bytes → Call
  commits : ℤ → Call
  cancels : Call
  views : ConversationKey → ℕ → Call

-- The buffer that a call leaves behind, by an exception too.
abbrev pub left : {A : Type 0} → Outcome A → MessageBuffer
left (returned a b) = b
left (thrown b) = b

unfoldable pub step : Call → MessageBuffer → MessageBuffer
step (ensures key) b = (ensure_conversation key b).1
step (receives m) b = (receive_incoming m b).1
step (reserves key sender content) b = (reserve_outgoing key sender content b).1
step (commits id) b = left (commit_outgoing id b)
step cancels b = cancel_outgoing b
step (views key through) b = left (mark_viewed key through b)

unfoldable pub run : List Call → MessageBuffer → MessageBuffer
run [] b = b
run (c ∷ cs) b = run cs (step c b)

module _ {ℓ} (P : MessageBuffer → Type ℓ)
    (keeps : (c : Call) (b : MessageBuffer) → P b → P (step c b)) where
  pub run_induction : (cs : List Call) (b : MessageBuffer) → P b → P (run cs b)
  unfolding run
  run_induction [] b p = p
  run_induction (c ∷ cs) b p = run_induction cs (step c b) (keeps c b p)
