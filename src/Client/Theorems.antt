-- ===== src/Client/Theorems.antt =====
-- A client's receiver from the start of the connection to its end.
use protected_chat.Prelude.{List, Option, Bytes}
use protected_chat.Json.{Json}
use protected_chat.Json.Writer.{Writer}
use protected_chat.Client.State.{ClientConnection}
use protected_chat.Client.Requests.{Surroundings, Act, acts}
use protected_chat.Client.Receive.{receive_loop}
use protected_chat.Client.Receiver.{receive_loop-Reach}
use protected_chat.Client.Invariant.{IsConsistent, Reach-IsConsistent}
use protected_chat.Client.Once.{IsLater, Reach-IsLater, Reach-IsOrderly, IsOrderly}
use protected_chat.Session.Frames.{FrameReadResult}
use protected_chat.Client.Steps.{Reach-trans}
use protected_chat.Client.Runs.{acts-Reach}

module _ (w : Writer) (j : Json) (s : Surroundings w j) (parse : Bytes → Option j.Value)
    (results : List FrameReadResult) (c : ClientConnection w j) where
  -- Whatever frames the server sends and whatever the other threads do meanwhile, the receiver keeps
  -- a consistent connection consistent: at most 256 automatic requests wait, a login or a stop has
  -- given the login its outcome, and the cursor of the synchronization is not negative and is reset
  -- while none is under way.
  pub receive_loop-IsConsistent :
      IsConsistent w j c → IsConsistent w j (receive_loop w j s parse results c)
  receive_loop-IsConsistent h = Reach-IsConsistent w j h (receive_loop-Reach w j s parse results c)

  -- From an orderly connection, as a new one is, the log of callbacks and of written values stays
  -- orderly, whatever frames the server sends, whatever the other threads do meanwhile and whatever
  -- they do after the receiver has ended: it holds one stop where the connection is stopping and none
  -- where it is not, the stop has the recorded reason, and at most one value is written after the
  -- stop, as one write may be under way. The outcome of a login that has one, the stop with its reason,
  -- and that the client is logged in do not change.
  pub receive_loop-IsOrderly :
      (later : List (Act w j))
      → IsOrderly w j c
      → let d = acts w j s later (receive_loop w j s parse results c) in
        IsOrderly w j d × IsLater w j c d
  receive_loop-IsOrderly later h =
      let reached =
        Reach-trans w j (receive_loop-Reach w j s parse results c) (acts-Reach w j s later _) in
      (Reach-IsOrderly w j h reached, Reach-IsLater w j reached)
