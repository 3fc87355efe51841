-- ===== src/Client/Steps.antt =====
-- The changes that a ClientConnection goes through, as a step relation: every method is a sequence of
-- these.
use protected_chat.Prelude.{
  ◌+◌, ◌≤◌, ◌<◌, ◌≡◌, Bool, true, false, List, [], ◌∷◌, ◌++◌, none, Bytes, length, if◌then◌else◌,
}
use protected_chat.Prelude.Int.{ℤ, pos, leb_ℤ}
use protected_chat.Json.{Json}
use protected_chat.Json.Writer.{Writer}
use protected_chat.Client.State.{
  ClientConnection, AuthenticationResult, Event, frame_handled, diagnostic, request_notified,
  stop_handled, value_sent, success, call, complete_authentication, request_stop,
  begin_post_authentication, max_automatic_requests, value_sent,
}
use protected_chat.Client.Requests.{acknowledgement, synchronization_fields}
use protected_chat.Client.Pending.{PageHead, queue_page}

module _ (w : Writer) (j : Json) where
  -- Whether an entry of the log is a call of the frame handler, the diagnostic handler or the notifier.
  abbrev pub is_callback : Event w j → Bool
  is_callback (frame_handled kind message) = true
  is_callback (diagnostic text error) = true
  is_callback request_notified = true
  is_callback (stop_handled reason) = false
  is_callback (value_sent v) = false

  pub data Step : ClientConnection w j → ClientConnection w j → Type 0 where
    calls :
        (c : ClientConnection w j) (e : Event w j) → is_callback e ≡ true → Step c (call w j e c)
    completes :
        (c : ClientConnection w j) (result : AuthenticationResult) (text : Bytes)
        → Step c (complete_authentication w j result text c)
    logs_in :
        (c : ClientConnection w j) (text : Bytes)
        → Step c (complete_authentication w j success text (record c { authenticated = true }))
    stops : (c : ClientConnection w j) (reason : Bytes) → Step c (request_stop w j reason c)
    begins : (c : ClientConnection w j) → Step c (begin_post_authentication w j c)
    starts :
        (c : ClientConnection w j)
        → length c.automatic_requests < max_automatic_requests
        → Step c (record c {
          automatic_requests =
              c.automatic_requests ++ w.object (synchronization_fields w (pos 0)) ∷ [];
          pending_synchronization_active = true;
          pending_after_message_id = pos 0;
          pending_through_message_id = none;
        })
    acknowledges :
        (c : ClientConnection w j) (id : ℤ)
        → length c.automatic_requests < max_automatic_requests
        → Step c
            (record c { automatic_requests = c.automatic_requests ++ acknowledgement w id ∷ [] })
    turns :
        (c : ClientConnection w j) (head : PageHead) (ids : List ℤ)
        → leb_ℤ (pos 0) head.following ≡ true
        → length c.automatic_requests + (length ids + (if head.more then 1 else 0))
          ≤ max_automatic_requests
        → Step c (queue_page w j head ids c)
    takes :
        (c : ClientConnection w j) (v : w.Value) (rest : List w.Value)
        → c.automatic_requests ≡ v ∷ rest
        → Step c (record c { automatic_requests = rest })
    sends :
        (c : ClientConnection w j) (v : w.Value)
        → c.stopping ≡ false
        → c.connected ≡ true
        → Step c (call w j (value_sent v) c)
    -- Another thread stops the connection between the test and the write.
    sends_late :
        (c : ClientConnection w j) (v : w.Value) (reason : Bytes)
        → c.stopping ≡ false
        → Step c (call w j (value_sent v) (request_stop w j reason c))

  pub data Reach (c : ClientConnection w j) : ClientConnection w j → Type 0 where
    here : Reach c c
    next : {d e : ClientConnection w j} → Reach c d → Step d e → Reach c e

  pub Reach-trans : {c d e : ClientConnection w j} → Reach c d → Reach d e → Reach c e
  Reach-trans r here = r
  Reach-trans r (next q st) = next (Reach-trans r q) st

  pub one : {c d : ClientConnection w j} → Step c d → Reach c d
  one st = next here st
