-- ===== src/Client/Once.antt =====
-- What is settled once on a ClientConnection: the outcome of the login, and the stop.
use protected_chat.Prelude.{
  ◌≡◌, true, arith, none, List, [], some, false, Bool, Option, ◌∷◌, if◌then◌else◌, Bytes, refl, inr,
  inl, ◌++◌, Option-cases, if_cases, ◌∙◌,
}
use protected_chat.Json.{Json}
use protected_chat.Json.Writer.{Writer}
use protected_chat.Client.State.{
  ClientConnection, frame_handled, diagnostic, request_notified, stop_handled, value_sent, call,
  complete_authentication, request_stop, begin_post_authentication, first_stop, Event,
  new_connection, connect,
}
use protected_chat.Client.Steps.{
  Step, Reach, here, next, calls, completes, logs_in, stops, begins, starts, acknowledges, turns,
  takes, sends, sends_late, is_callback,
}

-- What the log of a connection has told of its stop: that there was one, for this reason, and whether
-- a value was written after it.
pub data Progress : Type 0 where
  running : Progress
  stopped : Bytes → Bool → Progress

module _ (w : Writer) (j : Json) where
  -- One more entry of the log. There is one stop, and at most one value after it.
  abbrev pub advance : Event w j → Progress → Option Progress
  advance (stop_handled reason) running = some (stopped reason false)
  advance (stop_handled reason) (stopped first late) = none
  advance (value_sent v) running = some running
  advance (value_sent v) (stopped first false) = some (stopped first true)
  advance (value_sent v) (stopped first true) = none
  advance (frame_handled kind message) p = some p
  advance (diagnostic text error) p = some p
  advance request_notified p = some p

  unfoldable pub progress : Progress → List (Event w j) → Option Progress
  progress p [] = some p
  progress p (e ∷ events) = elim (advance e p) [ none ↦ none | some q ↦ progress q events ]

  -- What the log should tell.
  abbrev pub told : ClientConnection w j → Bool → Progress
  told c late = if c.stopping then stopped c.recorded_stop_reason late else running

  -- The log holds a stop exactly where the connection is stopping, with the recorded reason.
  abbrev pub IsOrderly : ClientConnection w j → Type 0
  IsOrderly c = (late : Bool) × (progress running c.events ≡ some (told c late))

  progress-append :
      (e : Event w j) (events : List (Event w j)) (p q : Progress)
      → progress p events ≡ some q
      → progress p (events ++ e ∷ []) ≡ advance e q
  unfolding progress
  progress-append e [] p q h = ground (arith, h)
  progress-append e (x ∷ events) p q h = elim (Option-cases (advance x p)) [
    | inl none_left ↦ absurd (ground (arith, h, none_left))
    | inr (next_one, found) ↦
        rw (found, progress) (progress-append e events next_one q (ground (arith, h, found)))
  ]

  advance_callback :
      (e : Event w j) (p : Progress) → is_callback w j e ≡ true → advance e p ≡ some p
  advance_callback (frame_handled kind message) p h = refl
  advance_callback (diagnostic text error) p h = refl
  advance_callback request_notified p h = refl
  advance_callback (stop_handled reason) p h = absurd (ground (arith, h))
  advance_callback (value_sent v) p h = absurd (ground (arith, h))

  module _ (c : ClientConnection w j) (h : IsOrderly c) where
    -- What one more entry makes of the log.
    logged : (e : Event w j) → progress running (c.events ++ e ∷ []) ≡ advance e (told c h.0)
    logged e = progress-append e c.events running (told c h.0) h.1

    first_stop-IsOrderly :
        (reason : Bytes)
        → c.stopping ≡ false
        → progress running (c.events ++ stop_handled reason ∷ []) ≡ some (stopped reason false)
    first_stop-IsOrderly reason going = logged (stop_handled reason) ∙ rw going refl

    request_stop-IsOrderly : (reason : Bytes) → IsOrderly (request_stop w j reason c)
    unfolding request_stop first_stop
    request_stop-IsOrderly reason =
        if_cases IsOrderly c.stopping _ _ (λ _. h)
          (λ going. (false, first_stop-IsOrderly reason going))

    late-IsOrderly :
        (v : w.Value) (reason : Bytes)
        → c.stopping ≡ false
        → IsOrderly (call w j (value_sent v) (request_stop w j reason c))
    unfolding call request_stop first_stop
    late-IsOrderly v reason going =
        rw (going, request_stop)
          (
            true,
            progress-append (value_sent v) (c.events ++ stop_handled reason ∷ []) running
                (stopped reason false) (first_stop-IsOrderly reason going),
          )

  Step-IsOrderly : {c d : ClientConnection w j} → Step w j c d → IsOrderly c → IsOrderly d
  unfolding call complete_authentication request_stop first_stop begin_post_authentication
  Step-IsOrderly (calls c e callback) h =
      (h.0, logged c h e ∙ advance_callback e (told c h.0) callback)
  Step-IsOrderly (completes c result text) h = (h.0, ground (arith, h.1))
  Step-IsOrderly (logs_in c text) h = (h.0, ground (arith, h.1))
  Step-IsOrderly (stops c reason) h = request_stop-IsOrderly c h reason
  Step-IsOrderly (begins c) h = h
  Step-IsOrderly (starts c room) h = h
  Step-IsOrderly (acknowledges c id room) h = h
  Step-IsOrderly (turns c head ids above room) h = h
  Step-IsOrderly (takes c v rest e) h = h
  Step-IsOrderly (sends c v going joined) h = (h.0, logged c h (value_sent v) ∙ rw going refl)
  Step-IsOrderly (sends_late c v reason going) h = late-IsOrderly c h v reason going

  pub Reach-IsOrderly : {c d : ClientConnection w j} → IsOrderly c → Reach w j c d → IsOrderly d
  Reach-IsOrderly h here = h
  Reach-IsOrderly h (next r st) = Step-IsOrderly st (Reach-IsOrderly h r)

  pub connect-IsOrderly : IsOrderly (connect w j (new_connection w j))
  unfolding connect new_connection progress
  connect-IsOrderly = (false, refl)

  -- `d` comes after `c`.
  pub record IsLater (c d : ClientConnection w j) : Type 0 where
    pub outcome :
        c.authentication_complete ≡ true
        → (d.authentication_complete ≡ true)
          × (d.authentication_result ≡ c.authentication_result)
          × (d.authentication_message ≡ c.authentication_message)
    pub stopped_for :
        c.stopping ≡ true → (d.stopping ≡ true) × (d.recorded_stop_reason ≡ c.recorded_stop_reason)
    pub logged_in : c.authenticated ≡ true → d.authenticated ≡ true

  Step-IsLater : {c d : ClientConnection w j} → Step w j c d → IsLater c d
  unfolding call complete_authentication request_stop first_stop begin_post_authentication
  Step-IsLater (calls c e callback) = ground arith
  Step-IsLater (completes c result text) = ground arith
  Step-IsLater (logs_in c text) = ground arith
  Step-IsLater (stops c reason) = ground arith
  Step-IsLater (begins c) = ground arith
  Step-IsLater (starts c room) = ground arith
  Step-IsLater (acknowledges c id room) = ground arith
  Step-IsLater (turns c head ids above room) = ground arith
  Step-IsLater (takes c v rest e) = ground arith
  Step-IsLater (sends c v going joined) = ground arith
  Step-IsLater (sends_late c v reason going) = ground arith

  IsLater-trans : {c d e : ClientConnection w j} → IsLater c d → IsLater d e → IsLater c e
  IsLater-trans h k = ground (arith, h, k)

  pub Reach-IsLater : {c d : ClientConnection w j} → Reach w j c d → IsLater c d
  Reach-IsLater here = ground arith
  Reach-IsLater (next r st) = IsLater-trans (Reach-IsLater r) (Step-IsLater st)
