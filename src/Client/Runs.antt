-- ===== src/Client/Runs.antt =====
-- The methods of a ClientConnection as sequences of steps.
use protected_chat.Prelude.{
  ℕ, zero, suc, ◌≡◌, Bool, true, false, List, [], ◌∷◌, arith, elim_option, elim_bool, if_cases, not,
  String, ◌||◌, ltb→lt, elim_list, ltb, is_nil, length, none, some, Option, codes, Bytes,
  if◌then◌else◌, refl,
}
use protected_chat.Json.{Json}
use protected_chat.Json.Writer.{Writer}
use protected_chat.Client.Steps.{
  Reach, Reach-trans, one, next, calls, here, acknowledges, stops, starts, takes, sends, begins,
  sends_late,
}
use protected_chat.Prelude.Int.{ℤ}
use protected_chat.Client.State.{
  max_automatic_requests, written, failed, max_outbound_json_bytes, ClientSendResult, too_large,
  fail_with, notify_automatic_request, ClientConnection, call, request_stop, value_sent,
}
use protected_chat.Client.Requests.{
  stop_with, send_request, flush_up_to, start_synchronization, begin, act, write_encoded, flush_end,
  send_json, flush_automatic_requests, enqueue_delivery_acknowledgement, acts,
  start_pending_synchronization, Surroundings, Act, interrupted,
}

module _ (w : Writer) (j : Json) where
  pub fail_with-Reach :
      (c : ClientConnection w j) (reason : String) → Reach w j c (fail_with w j reason c)
  unfolding fail_with
  fail_with-Reach c reason = next (next here (calls c _ refl)) (stops _ _)

  pub notify_automatic_request-Reach :
      (c : ClientConnection w j) → Reach w j c (notify_automatic_request w j c)
  unfolding notify_automatic_request
  notify_automatic_request-Reach c = one w j (calls c _ refl)

  -- The state that an operation leaves is reached.
  abbrev pub Runs : {A : Type 0} → ClientConnection w j → A × ClientConnection w j → Type 0
  Runs c r = Reach w j c r.1

  start_pending_synchronization-Reach :
      (c : ClientConnection w j) → Runs c (start_pending_synchronization w j c)
  unfolding start_pending_synchronization
  start_pending_synchronization-Reach c =
      if_cases (Runs c) c.pending_synchronization_active _ _ (λ _. here)
        (λ _.
          if_cases (Runs c) (ltb (length c.automatic_requests) max_automatic_requests) _ _
            (λ room.
              Reach-trans w j (one w j (starts c (ltb→lt _ _ room)))
                (notify_automatic_request-Reach _))
            (λ _. fail_with-Reach c _))

  pub enqueue_delivery_acknowledgement-Reach :
      (c : ClientConnection w j) (id : ℤ) → Runs c (enqueue_delivery_acknowledgement w j id c)
  unfolding enqueue_delivery_acknowledgement
  enqueue_delivery_acknowledgement-Reach c id =
      if_cases (Runs c) (ltb (length c.automatic_requests) max_automatic_requests) _ _
        (λ room.
          Reach-trans w j (one w j (acknowledges c id (ltb→lt _ _ room)))
            (notify_automatic_request-Reach _))
        (λ _. fail_with-Reach c _)

  module _ (s : Surroundings w j) where
    open_of : (a b d : Bool) → (a || not b || d) ≡ false → (a ≡ false) × (b ≡ true)
    open_of a b d h = ground arith

    unstopped-Reach :
        (v : w.Value) (interrupt : Option Bytes) (c : ClientConnection w j)
        → c.stopping ≡ false
        → c.connected ≡ true
        → Runs {A = ClientSendResult} c (
            let c' = interrupted w j s interrupt c in
            if s.takes c' v
            then (written, call w j (value_sent v) c')
            else (failed, request_stop w j (codes "Socket write failed") c'))
    unfolding interrupted
    unstopped-Reach v none c going joined =
        if_cases (Runs c) (s.takes c v) _ _ (λ _. one w j (sends c v going joined))
          (λ _. one w j (stops c _))
    unstopped-Reach v (some reason) c going joined =
        let c' = request_stop w j reason c in
        if_cases (Runs c) (s.takes c' v) _ _ (λ _. one w j (sends_late c v reason going))
          (λ _. next (one w j (stops c reason)) (stops c' _))

    write_encoded-Reach :
        (v : w.Value) (c : ClientConnection w j) → Runs c (write_encoded w j s v c)
    unfolding write_encoded
    write_encoded-Reach v c =
        if_cases (Runs c) (c.stopping || not c.connected || c.closed) _ _ (λ _. here)
          (λ h.
            let live = open_of c.stopping c.connected c.closed h in
            unstopped-Reach v (s.interrupts c v) c live.0 live.1)

    send_json-Reach : (v : w.Value) (c : ClientConnection w j) → Runs c (send_json w j s v c)
    unfolding send_json
    send_json-Reach v c =
        elim_option (Runs c) (w.dump_size v) _ _ (λ _. one w j (stops c _))
          (λ size _.
            if_cases (Runs c) (ltb max_outbound_json_bytes size) _ _ (λ _. here)
              (λ _. write_encoded-Reach v c))

    flush_end-Reach : (c : ClientConnection w j) → Runs c (flush_end w j s c)
    unfolding flush_end
    flush_end-Reach c =
        if_cases (Runs c) c.stopping _ _ (λ _. here)
          (λ _.
            if_cases (Reach w j c) (is_nil c.automatic_requests) _ _ (λ _. here)
              (λ _. notify_automatic_request-Reach c))

    flushed :
        (n : ℕ) (c : ClientConnection w j) (result : ClientSendResult)
        → ((d : ClientConnection w j) → Runs d (flush_automatic_requests w j s n d))
        → Runs {A = Bool} c (elim result [
          | written ↦ flush_automatic_requests w j s n c
          | too_large ↦ (false, fail_with w j "Automatic request write failed" c)
          | failed ↦ (false, fail_with w j "Automatic request write failed" c)
        ])
    flushed n c written ih = ih c
    flushed n c too_large ih = fail_with-Reach c _
    flushed n c failed ih = fail_with-Reach c _

    flush_automatic_requests-Reach :
        (n : ℕ) (c : ClientConnection w j) → Runs c (flush_automatic_requests w j s n c)
    unfolding flush_automatic_requests
    flush_automatic_requests-Reach zero c = flush_end-Reach c
    flush_automatic_requests-Reach (suc n) c =
        let ih = flush_automatic_requests-Reach n in
        elim_bool (Runs c) c.stopping _ _ (λ _. flush_end-Reach c)
          (λ _.
            elim_list (Runs c) c.automatic_requests _ _ (λ _. here)
              (λ v rest e.
                let taken = record c { automatic_requests = rest } in
                let sent = send_json w j s v taken in
                Reach-trans w j (one w j (takes c v rest e))
                  (Reach-trans w j (send_json-Reach v taken) (flushed n sent.1 sent.0 ih))))

    act-Reach : (a : Act w j) (c : ClientConnection w j) → Reach w j c (act w j s a c)
    unfolding act
    act-Reach (stop_with reason) c = one w j (stops c reason)
    act-Reach (send_request v) c = send_json-Reach v c
    act-Reach (flush_up_to n) c = flush_automatic_requests-Reach n c
    act-Reach start_synchronization c = start_pending_synchronization-Reach c
    act-Reach begin c = one w j (begins c)

    pub acts-Reach : (l : List (Act w j)) (c : ClientConnection w j) → Reach w j c (acts w j s l c)
    unfolding acts
    acts-Reach [] c = here
    acts-Reach (a ∷ rest) c = Reach-trans w j (act-Reach a c) (acts-Reach rest (act w j s a c))
