-- ===== src/Client/Loop.antt =====
-- The receiver of a ClientConnection as a sequence of steps.
use protected_chat.Prelude.{
  ◌≡◌, Bool, true, List, [], ◌∷◌, none, some, Option, arith, if◌then◌else◌, if_cases, elim_option,
  elim_bool, leb→le, leb, is_nil, length, Bytes, bytes_eq, codes, ◌+◌, String, not, ◌||◌, refl,
}
use protected_chat.Json.{Json}
use protected_chat.Json.Writer.{Writer}
use protected_chat.Client.Steps.{
  Reach, Reach-trans, one, next, calls, here, turns, stops, completes, logs_in,
}
use protected_chat.Client.Fields.{array_field, has_text}
use protected_chat.Client.Envelope.{valid_delivery_envelope}
use protected_chat.Client.Dispatch.{
  refuse_authentication, pending_answer, authentication_answer, message_event,
}
use protected_chat.Client.State.{
  max_automatic_requests, emit_diagnostic, ClientFrameKind, message_frame, ClientConnection,
  request_stop, call, frame_handled,
}
use protected_chat.Client.Receive.{stop_by, ignore_frame}
use protected_chat.Client.Pending.{
  process_accepted, finish_pending_page, process_pending_page, PageHead, queue_page,
  process_delivery_message, handle_records, page_head, accepted_ids, handle_frame,
}
use protected_chat.Client.Runs.{
  notify_automatic_request-Reach, Runs, acts-Reach, fail_with-Reach,
  enqueue_delivery_acknowledgement-Reach,
}
use protected_chat.Prelude.Int.{leb_ℤ, pos, ℤ}
use protected_chat.Session.Frames.{FrameReadResult}
use protected_chat.Client.Requests.{Surroundings, acts}

module _ (w : Writer) (j : Json) where
  page_head-following :
      (message : j.Value) (head : PageHead)
      → page_head w j message ≡ some head
      → leb_ℤ (pos 0) head.following ≡ true
  unfolding page_head
  page_head-following message head e = ground (arith, e)

  finish_pending_page-Reach :
      (head : PageHead) (ids : List ℤ) (c : ClientConnection w j)
      → leb_ℤ (pos 0) head.following ≡ true
      → Runs w j c (finish_pending_page w j head ids c)
  unfolding finish_pending_page
  finish_pending_page-Reach head ids c above =
      if_cases (Runs w j c)
        (leb (length c.automatic_requests + (length ids + (if head.more then 1 else 0)))
          max_automatic_requests)
        _ _
        (λ room. Reach-trans w j (one w j (turns c head ids above (leb→le _ _ room))) (
          if_cases (Reach w j (queue_page w j head ids c)) (not (is_nil ids) || head.more) _ _
            (λ _. notify_automatic_request-Reach w j _) (λ _. here)))
        (λ _. fail_with-Reach w j c _)

  pub refuse_authentication-Reach :
      (c : ClientConnection w j) → Reach w j c (refuse_authentication w j c)
  unfolding refuse_authentication
  refuse_authentication-Reach c =
      Reach-trans w j (one w j (completes c _ _)) (fail_with-Reach w j _ _)

  pub emit_diagnostic-Reach :
      (text : String) (error : Bool) (c : ClientConnection w j)
      → Reach w j c (emit_diagnostic w j text error c)
  unfolding emit_diagnostic
  emit_diagnostic-Reach text error c = one w j (calls c _ refl)

  pub authentication_answer-Reach :
      (status detail : Option Bytes) (c : ClientConnection w j)
      → Runs w j c (authentication_answer w j status detail c)
  unfolding authentication_answer
  authentication_answer-Reach none detail c = refuse_authentication-Reach c
  authentication_answer-Reach (some status) none c = refuse_authentication-Reach c
  authentication_answer-Reach (some status) (some detail) c =
      if_cases (Runs w j c) (bytes_eq status (codes "SUCCESS")) _ _
        (λ _. one w j (logs_in c detail))
        (λ _.
          if_cases (Runs w j c) (bytes_eq status (codes "FAIL")) _ _
            (λ _. next (next here (completes c _ _)) (stops _ _))
            (λ _. refuse_authentication-Reach c))

  stops_after :
      (text : String) (error : Bool) (reason : Bytes) (c : ClientConnection w j)
      → Reach w j c (request_stop w j reason (emit_diagnostic w j text error c))
  stops_after text error reason c =
      Reach-trans w j (emit_diagnostic-Reach text error c) (one w j (stops _ _))

  pub stop_by-Reach :
      (result : FrameReadResult) (c : ClientConnection w j) → Reach w j c (stop_by w j result c)
  unfolding stop_by
  stop_by-Reach (FrameReadResult.frame text) c = here
  stop_by-Reach FrameReadResult.too_large c = stops_after _ _ _ c
  stop_by-Reach FrameReadResult.incomplete_frame c = stops_after _ _ _ c
  stop_by-Reach FrameReadResult.end_of_stream c =
      if_cases (Reach w j c) c.stopping _ _ (λ _. here) (λ _. stops_after _ _ _ c)
  stop_by-Reach FrameReadResult.transport_failure c =
      if_cases (Reach w j c) c.stopping _ _ (λ _. here) (λ _. stops_after _ _ _ c)

  pub ignore_frame-Reach :
      (text : String) (c : ClientConnection w j) → Runs w j c (ignore_frame w j text c)
  unfolding ignore_frame
  ignore_frame-Reach text c =
      if_cases (Runs w j c) c.authenticated _ _ (λ _. emit_diagnostic-Reach text true c)
        (λ _. refuse_authentication-Reach c)

  module _ (s : Surroundings w j) where
    pub handle_frame-Reach :
        (kind : ClientFrameKind) (message : j.Value) (c : ClientConnection w j)
        → Reach w j c (handle_frame w j s kind message c)
    unfolding handle_frame
    handle_frame-Reach kind message c =
        let c' = acts w j s (s.during c kind message) (call w j (frame_handled kind message) c) in
        Reach-trans w j (Reach-trans w j (one w j (calls c _ refl)) (acts-Reach w j s _ _)) (
          if_cases (Reach w j c') (s.throws c kind message) _ _ (λ _. fail_with-Reach w j c' _)
            (λ _. here))

    handle_records-Reach :
        (records : List j.Value) (c : ClientConnection w j)
        → Runs w j c (handle_records w j s records c)
    unfolding handle_records
    handle_records-Reach [] c = here
    handle_records-Reach (r ∷ records) c =
        let c' = handle_frame w j s message_frame r c in
        let ih = handle_records-Reach records c' in
        Reach-trans w j (handle_frame-Reach message_frame r c)
          (elim_bool (Runs w j c') c'.stopping _ _ (λ _. here) (λ _. ih))

    process_accepted-Reach :
        (head : PageHead) (records : List j.Value) (ids : List ℤ) (c : ClientConnection w j)
        → leb_ℤ (pos 0) head.following ≡ true
        → Runs w j c (process_accepted w j s head records ids c)
    unfolding process_accepted
    process_accepted-Reach head records ids c above =
        let (running, c') = handle_records w j s records c in
        Reach-trans w j (handle_records-Reach records c) (
          if_cases (Runs w j c') running _ _ (λ _. finish_pending_page-Reach head ids c' above)
            (λ _. here))

    process_pending_page-Reach :
        (message : j.Value) (c : ClientConnection w j)
        → Runs w j c (process_pending_page w j s message c)
    unfolding process_pending_page
    process_pending_page-Reach message c =
        elim_option (Runs w j c) (page_head w j message) _ _ (λ _. here)
          (λ head e.
            elim_option (Runs w j c) (array_field j message "messages") _ _ (λ _. here)
              (λ records _.
                elim_option (Runs w j c) (accepted_ids w j c head records) _ _ (λ _. here)
                  (λ ids _.
                    process_accepted-Reach head records ids c
                      (page_head-following message head e))))

    process_delivery_message-Reach :
        (message : j.Value) (c : ClientConnection w j)
        → Runs w j c (process_delivery_message w j s message c)
    unfolding process_delivery_message
    process_delivery_message-Reach message c =
        if_cases (Runs w j c) (not (valid_delivery_envelope j message)) _ _ (λ _. here)
          (λ _.
            let c' = handle_frame w j s message_frame message c in
            Reach-trans w j (handle_frame-Reach message_frame message c) (
              if_cases (Runs w j c') c'.stopping _ _ (λ _. here)
                (λ _. enqueue_delivery_acknowledgement-Reach w j c' _)))

    pub pending_answer-Reach :
        (message : j.Value) (c : ClientConnection w j) → Runs w j c (pending_answer w j s message c)
    unfolding pending_answer
    pending_answer-Reach message c =
        if_cases (Runs w j c) (not (has_text j message "status" "SUCCESS")) _ _
          (λ _. fail_with-Reach w j c _)
          (λ _.
            let (taken, c') = process_pending_page w j s message c in
            Reach-trans w j (process_pending_page-Reach message c) (
              if_cases (Runs w j c') taken _ _ (λ _. here)
                (λ _.
                  if_cases (Runs w j c') c'.stopping _ _ (λ _. here)
                    (λ _. fail_with-Reach w j c' _))))

    pub message_event-Reach :
        (message : j.Value) (c : ClientConnection w j) → Runs w j c (message_event w j s message c)
    unfolding message_event
    message_event-Reach message c =
        let (taken, c') = process_delivery_message w j s message c in
        Reach-trans w j (process_delivery_message-Reach message c) (
          if_cases (Runs w j c') taken _ _ (λ _. here)
            (λ _.
              if_cases (Runs w j c') c'.stopping _ _ (λ _. here)
                (λ _. emit_diagnostic-Reach _ true c')))
