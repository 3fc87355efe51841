-- ===== src/Routing/Acceptance.antt =====
-- What an accepted message sends (finishAcceptance and deliverCommittedMessage of
-- serverf/durable_routing.cpp).
use protected_chat.Prelude.{
  ℕ, ◌≡◌, refl, sym, ◌∙◌, arith, some, List, [], ◌∷◌, ◌++◌, Bytes, All, Bool, String,
}
use mathlib.Core.List.{append_assoc, append-nil}
use protected_chat.Json.Writer.{Writer}
use protected_chat.Session.Registry.{Sessions, bytes_order}
use protected_chat.Routing.Narrowing.{Narrowed}
use protected_chat.Routing.Database.{Database, RecipientRoute, AcceptedMessage}
use protected_chat.Routing.Deliveries.{
  World, deliver_to, deliver_all, deliver_committed_message, committed_envelope, write,
}
use protected_chat.Routing.Recipients.{
  OwnNames, reached, sent_to, deliveries, reached-Narrowed, Narrowed-OwnNames,
}
use protected_chat.Routing.Delivered.{deliver_to-Narrowed, deliver_to-sent, write-Narrowed}
use protected_chat.Json.{Json}
use protected_chat.Routing.Handlers.{reply_and_deliver, acceptance_reply}

-- The recipients' names differ.
abbrev pub Distinct : List RecipientRoute → Type 0
Distinct [] = Unit
Distinct (route ∷ routes) =
    All (λ (r : RecipientRoute). r.username ≡ route.username → ⊥) routes × Distinct routes

module _ (w : Writer) (db : Database) (takes : ℕ → w.Value → Bool) where
  deliveries-Narrowed :
      (envelope : w.Value) (name : Bytes) (routes : List RecipientRoute) (u v : Sessions)
      → OwnNames u
      → Narrowed name u v
      → All (λ (r : RecipientRoute). r.username ≡ name → ⊥) routes
      → deliveries w takes envelope v routes ≡ deliveries w takes envelope u routes
  unfolding deliveries
  deliveries-Narrowed envelope name [] u v own h ne = refl
  deliveries-Narrowed envelope name (route ∷ routes) u v own h ne = ground (
    arith,
    reached-Narrowed w takes envelope name route.username u v own h ne.0,
    deliveries-Narrowed envelope name routes u v own h ne.1,
  )

  deliver_all-sent :
      (envelope : w.Value) (routes : List RecipientRoute) (world : World w db)
      → OwnNames world.sessions
      → Distinct routes
      → (deliver_all w db takes envelope routes world).sent
        ≡ world.sent ++ deliveries w takes envelope world.sessions routes
  unfolding deliver_all deliveries
  deliver_all-sent envelope [] world own distinct = sym (append-nil world.sent)
  deliver_all-sent envelope (route ∷ routes) world own distinct =
      let after = deliver_to w db takes envelope route world in
      let narrowed = deliver_to-Narrowed w db takes envelope route world own in
      let here =
        sent_to w takes envelope (reached w takes envelope world.sessions route.username) in
      deliver_all-sent envelope routes after
        (Narrowed-OwnNames w takes envelope route.username world.sessions after.sessions own
          narrowed)
        distinct.1
      ∙ rw
          (
            deliver_to-sent w db takes envelope route world,
            deliveries-Narrowed envelope route.username routes world.sessions after.sessions own
                narrowed distinct.0,
          )
          (append_assoc world.sent here (deliveries w takes envelope world.sessions routes))

  deliver_committed_message-sent :
      (message : AcceptedMessage) (envelope : w.Value) (world : World w db)
      → committed_envelope w db takes message.message ≡ some envelope
      → OwnNames world.sessions
      → Distinct message.recipients
      → (deliver_committed_message w db takes message world).sent
        ≡ world.sent ++ deliveries w takes envelope world.sessions message.recipients
  unfolding deliver_committed_message
  deliver_committed_message-sent message envelope world e own distinct =
      ground (arith, e, deliver_all-sent envelope message.recipients world own distinct)

  module _ (j : Json) (s : ℕ) (operation : String) (message : AcceptedMessage)
      (world : World w db) where
    -- The server after the sender's reply.
    abbrev pub replied : World w db
    replied = (write w db takes s (acceptance_reply w j db takes s operation message) world).1

    -- Where every registered session is of the user under whose name it stands, the recipients of an
    -- accepted message differ and its envelope can be represented: the reply to the sender is written
    -- first, and then the envelope is written, in the order of the recipients, exactly once to each
    -- recipient whose registered session is ready, neither stopping nor closed, and whose socket takes
    -- it, and to nobody else; a write that fails keeps none of the others from theirs.
    pub reply_and_deliver-sent :
        (envelope : w.Value)
        → committed_envelope w db takes message.message ≡ some envelope
        → OwnNames world.sessions
        → Distinct message.recipients
        → (reply_and_deliver w j db takes s operation message world).1.sent
          ≡ replied.sent ++ deliveries w takes envelope replied.sessions message.recipients
    unfolding reply_and_deliver
    reply_and_deliver-sent envelope e own distinct =
        let name = (world.sessions.session s).username in
        let narrowed =
          write-Narrowed w db takes (acceptance_reply w j db takes s operation message) name s world
            own refl in
        deliver_committed_message-sent message envelope replied e
          (Narrowed-OwnNames w takes envelope name world.sessions replied.sessions own narrowed)
          distinct
