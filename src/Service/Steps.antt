-- ===== src/Service/Steps.antt =====
-- What the requests do to the sessions, as the changes of Service/Changes, and these as steps of the
-- handlers' interleaving (Session/Handlers).
use protected_chat.Prelude.{
  ℕ, ◌≡◌, sym, subst, Bool, List, [], ◌∷◌, Bytes, elim_option, some, arith,
}
use protected_chat.Json.Writer.{Writer}
use protected_chat.Session.Registry.{
  Sessions, SendResult, written, failed, find_ready, request_stop, remove_if_same,
}
use protected_chat.Session.Handlers.{
  Server, Phase, Reach, here, next, sends, stops, looks_up, drops,
}
use protected_chat.Routing.Database.{Database, RecipientRoute, AcceptedMessage}
use protected_chat.Routing.Deliveries.{
  World, write, write_to, deliver_to, deliver_all, deliver_committed_message, committed_envelope,
}
use protected_chat.Routing.Delivered.{write-sessions}
use protected_chat.Service.Changes.{
  Change, Changes, unchanged, followed, Changes-trans, answers, misses, delivers, gives_up,
  try_send, attempt, request_stop-stopping,
}

Reach-trans : {a b c : Server} → Reach a b → Reach b c → Reach a c
Reach-trans r here = r
Reach-trans r (next q st) = next (Reach-trans r q) st

module _ (phase : ℕ → Phase) (w : Writer) (takes : ℕ → w.Value → Bool) (s : ℕ) where
  -- The sessions `v` are reached from `u`, where no handler moves on.
  abbrev pub Reaches : Sessions → Sessions → Type 0
  Reaches u v =
      Reach (record { sessions = u; phase = phase }) (record { sessions = v; phase = phase })

  Change-Reaches : (u x : Sessions) → Change w takes s u x → Reaches u x
  Change-Reaches u _ (answers v) = next here (sends s _ _)
  Change-Reaches u _ (misses name absent) = next here (looks_up name)
  Change-Reaches u _ (delivers name t v ready taken) =
      next (next here (looks_up name)) (sends t _ _)
  Change-Reaches u _ (gives_up name t v ready lost) =
      next (next (next (next here (looks_up name)) (sends t _ _)) (stops t))
        (drops name t (request_stop-stopping t (attempt w takes name t v u).1))

  pub Changes-Reaches : {u x : Sessions} → Changes w takes s u x → Reaches u x
  Changes-Reaches unchanged = here
  Changes-Reaches (followed h c) = Reach-trans (Changes-Reaches h) (Change-Reaches _ _ c)

module _ (w : Writer) (db : Database) (takes : ℕ → w.Value → Bool) (s : ℕ) where
  -- What an operation leaves of the sessions, where `s` made the request.
  abbrev pub Serves : {A : Type 0} → World w db → A × World w db → Type 0
  Serves world r = Changes w takes s world.sessions r.1.sessions

  pub write-Serves : (v : w.Value) (world : World w db) → Serves world (write w db takes s v world)
  write-Serves v world =
      subst (Changes w takes s world.sessions) (sym (write-sessions w db takes v s world))
        (followed unchanged (answers v))

  by_result :
      (u : Sessions) (after : World w db) (name : Bytes) (t : ℕ) (v : w.Value) (result : SendResult)
      → (find_ready name u).0 ≡ some t
      → (attempt w takes name t v u).0 ≡ result
      → (attempt w takes name t v u).1 ≡ after.sessions
      → Changes w takes s u (
          World.sessions (elim result [
            | written ↦ after
            | failed ↦ record after {
              sessions = (remove_if_same name t (request_stop t after.sessions)).1;
            }
          ]))
  by_result u after name t v written ready taken e =
      subst (Changes w takes s u) e (followed unchanged (delivers name t v ready taken))
  by_result u after name t v failed ready lost e =
      subst (λ x. Changes w takes s u (remove_if_same name t (request_stop t x)).1) e
        (followed unchanged (gives_up name t v ready lost))

  write-result :
      (t : ℕ) (v : w.Value) (world : World w db)
      → (try_send w takes t v world.sessions).0 ≡ (write w db takes t v world).0
  unfolding write
  write-result t v world = ground arith

  write_to-Changes :
      (v : w.Value) (name : Bytes) (t : ℕ) (world : World w db)
      → (find_ready name world.sessions).0 ≡ some t
      → Changes w takes s world.sessions
          (write_to w db takes v name t
            (record world { sessions = (find_ready name world.sessions).1 })).sessions
  unfolding write_to
  write_to-Changes v name t world ready =
      let looked : World w db = record world { sessions = (find_ready name world.sessions).1 } in
      let (result, after) = write w db takes t v looked in
      by_result world.sessions after name t v result ready (write-result t v looked)
        (sym (write-sessions w db takes v t looked))

  deliver_to-Changes :
      (v : w.Value) (route : RecipientRoute) (world : World w db)
      → Changes w takes s world.sessions (deliver_to w db takes v route world).sessions
  unfolding deliver_to
  deliver_to-Changes v route world =
      elim_option (λ (x : World w db). Changes w takes s world.sessions x.sessions)
        (find_ready route.username world.sessions).0 _ _
        (λ absent. followed unchanged (misses route.username absent))
        (λ t ready. write_to-Changes v route.username t world ready)

  deliver_all-Changes :
      (v : w.Value) (routes : List RecipientRoute) (world : World w db)
      → Changes w takes s world.sessions (deliver_all w db takes v routes world).sessions
  unfolding deliver_all
  deliver_all-Changes v [] world = unchanged
  deliver_all-Changes v (route ∷ routes) world =
      Changes-trans w takes s (deliver_to-Changes v route world)
        (deliver_all-Changes v routes (deliver_to w db takes v route world))

  pub deliver_committed_message-Changes :
      (message : AcceptedMessage) (world : World w db)
      → Changes w takes s world.sessions
          (deliver_committed_message w db takes message world).sessions
  unfolding deliver_committed_message
  deliver_committed_message-Changes message world =
      elim_option (λ (x : World w db). Changes w takes s world.sessions x.sessions)
        (committed_envelope w db takes message.message) _ _ (λ _. unchanged)
        (λ v _. deliver_all-Changes v message.recipients world)
