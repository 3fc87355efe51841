-- ===== src/Routing/Delivered.antt =====
-- deliverCommittedMessage reaches every recipient that is ready, once, and nobody else.
use protected_chat.Prelude.{
  ℕ, ◌≡◌, sym, ap, subst, ◌∙◌, arith, Bool, true, false, some, ◌++◌, Bytes, elim_option,
}
use mathlib.Core.List.{append-nil}
use protected_chat.Json.Writer.{Writer}
use protected_chat.Session.Registry.{
  Sessions, SendResult, written, failed, send_json, find_ready, request_stop, remove_if_same,
  bytes_order,
}
use protected_chat.Routing.Narrowing.{
  Narrowed, Narrowed-trans, find_ready-Narrowed, remove_if_same-Narrowed, send_json-Narrowed,
  request_stop-Narrowed,
}
use protected_chat.Routing.Database.{Database, RecipientRoute}
use protected_chat.Routing.Deliveries.{World, write, deliver_to, is_given, write_to}
use protected_chat.Routing.Recipients.{OwnNames, reached, sent_to, find_ready-some, find_ready-none}
use protected_chat.Prelude.Map.{find, Sorted}

by_result :
    {w : Writer} {db : Database} (name : Bytes) (u : Sessions) (after : World w db)
    (result : SendResult) {stopped : Sessions}
    → Narrowed name u after.sessions
    → Narrowed name after.sessions stopped
    → Narrowed name u (
        World.sessions
          (elim result [ written ↦ after | failed ↦ record after { sessions = stopped } ]))
by_result name u after written h k = h
by_result name u after failed h k = Narrowed-trans name u _ _ h k

module _ (w : Writer) (db : Database) (takes : ℕ → w.Value → Bool) (envelope : w.Value) where
  pub write-sessions :
      (t : ℕ) (world : World w db)
      → (write w db takes t envelope world).1.sessions
        ≡ (send_json (is_given (w.dump_size envelope)) (takes t envelope) t world.sessions).1
  unfolding write
  write-sessions t world = ground arith

  pub write-Narrowed :
      (name : Bytes) (t : ℕ) (world : World w db)
      → OwnNames world.sessions
      → (world.sessions.session t).username ≡ name
      → Narrowed name world.sessions (write w db takes t envelope world).1.sessions
  write-Narrowed name t world own e =
      subst (Narrowed name world.sessions) (sym (write-sessions t world)) (
        send_json-Narrowed name (is_given (w.dump_size envelope)) (takes t envelope) t
          world.sessions own.0 e)

  stopped-Narrowed :
      (name : Bytes) (t : ℕ) (u : Sessions)
      → Sorted u.registry
      → (u.session t).username ≡ name
      → Narrowed name u (remove_if_same name t (request_stop t u)).1
  stopped-Narrowed name t u h e =
      let stopped = request_stop-Narrowed name t u h e in
      Narrowed-trans name u _ _ stopped (remove_if_same-Narrowed name t _ stopped.sorted)

  write_to-Narrowed :
      (name : Bytes) (t : ℕ) (world : World w db)
      → OwnNames world.sessions
      → (world.sessions.session t).username ≡ name
      → Narrowed name world.sessions (write_to w db takes envelope name t world).sessions
  unfolding write_to
  write_to-Narrowed name t world own e =
      let (result, after) = write w db takes t envelope world in
      let written_out = write-Narrowed name t world own e in
      by_result name world.sessions after result written_out
        (stopped-Narrowed name t after.sessions written_out.sorted (written_out.username t ∙ e))

  write_to-sent :
      (name : Bytes) (t : ℕ) (world : World w db)
      → find name world.sessions.registry ≡ some t
      → (world.sessions.session t).ready ≡ true
      → (world.sessions.session t).stopping ≡ false
      → (write_to w db takes envelope name t world).sent
        ≡ world.sent ++ sent_to w takes envelope (reached w takes envelope world.sessions name)
  unfolding write_to write send_json reached
  write_to-sent name t world e ready running = ground (arith, append-nil world.sent)

  pub deliver_to-Narrowed :
      (route : RecipientRoute) (world : World w db)
      → OwnNames world.sessions
      → Narrowed route.username world.sessions (deliver_to w db takes envelope route world).sessions
  unfolding deliver_to
  deliver_to-Narrowed route world own =
      let u = world.sessions in
      let name = route.username in
      elim_option (λ (x : World w db). Narrowed name u x.sessions) (find_ready name u).0 _ _
        (λ _. find_ready-Narrowed name u own.0)
        (λ t found.
          let facts = find_ready-some w takes envelope name u t found in
          let looked : World w db = record world { sessions = (find_ready name u).1 } in
          let same : (find_ready name u).1 ≡ u = facts.1 in
          Narrowed-trans name u _ _ (find_ready-Narrowed name u own.0) (
            write_to-Narrowed name t looked (subst OwnNames (sym same) own)
              (ap (λ (x : Sessions). (x.session t).username) same ∙ own.1 name t facts.0)))

  pub deliver_to-sent :
      (route : RecipientRoute) (world : World w db)
      → (deliver_to w db takes envelope route world).sent
        ≡ world.sent
          ++ sent_to w takes envelope (reached w takes envelope world.sessions route.username)
  unfolding deliver_to
  deliver_to-sent route world =
      let u = world.sessions in
      let name = route.username in
      elim_option
        (λ (x : World w db).
          x.sent ≡ world.sent ++ sent_to w takes envelope (reached w takes envelope u name))
        (find_ready name u).0 _ _
        (λ absent.
          rw (find_ready-none w takes envelope name u absent) (sym (append-nil world.sent)))
        (λ t found.
          let facts = find_ready-some w takes envelope name u t found in
          let looked = record world { sessions = (find_ready name u).1 } in
          let same : (find_ready name u).1 ≡ u = facts.1 in
          write_to-sent name t looked (ap (λ (x : Sessions). find name x.registry) same ∙ facts.0)
            (ap (λ (x : Sessions). (x.session t).ready) same ∙ facts.2)
            (ap (λ (x : Sessions). (x.session t).stopping) same ∙ facts.3)
          ∙ ap
              (λ (x : Sessions).
                world.sent ++ sent_to w takes envelope (reached w takes envelope x name))
              same)
