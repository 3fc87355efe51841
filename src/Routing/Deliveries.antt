-- ===== src/Routing/Deliveries.antt =====
-- What durable routing writes (serverf/durable_routing.cpp): writeResponse, writeFailure and
-- deliverCommittedMessage, over the sessions, the registry and the tables.
use protected_chat.Prelude.{
  ℕ, Bool, true, false, Option, none, some, List, [], ◌∷◌, ◌++◌, String, ltb, if◌then◌else◌, Bytes,
}
use protected_chat.Prelude.Int.{ℤ}
use protected_chat.Json.Writer.{Writer}
use protected_chat.Session.Registry.{
  Sessions, SendResult, written, failed, send_json, find_ready, request_stop, remove_if_same,
}
use protected_chat.Routing.Messages.{DeliveryMessage, delivery_envelope}
use protected_chat.Routing.Page.{maximum_response_bytes, failure, failure_of}
use protected_chat.Routing.Database.{Database, RecipientRoute, AcceptedMessage}

pub data DurableRequestResult : Type 0 where
  not_handled handled stop : DurableRequestResult

abbrev pub is_given : {A : Type 0} → Option A → Bool
is_given none = false
is_given (some a) = true

module _ (w : Writer) (db : Database) where
  -- The server as a request finds it: the sessions and the registry, the tables, and what the sockets
  -- took, in order.
  pub record World : Type 0 where
    pub sessions : Sessions
    pub tables : db.Tables
    pub sent : List (ℕ × w.Value)

  -- `takes` is whether a session's socket takes the whole of a value.
  module _ (takes : ℕ → w.Value → Bool) where
    unfoldable pub write : ℕ → w.Value → World → SendResult × World
    write s v world =
        let (result, sessions) =
          send_json (is_given (w.dump_size v)) (takes s v) s world.sessions in
        elim result [
          | written ↦
              (written, record world { sessions = sessions; sent = world.sent ++ (s, v) ∷ [] })
          | failed ↦ (failed, record world { sessions = sessions })
        ]

    abbrev pub result_of : SendResult → DurableRequestResult
    result_of written = handled
    result_of failed = stop

    unfoldable pub write_response : ℕ → w.Value → World → DurableRequestResult × World
    unfolding write
    write_response s v world = let (result, after) = write s v world in (result_of result, after)

    unfoldable pub write_failure :
        ℕ → String → String → String → World → DurableRequestResult × World
    unfolding write_response
    write_failure s operation code message world =
        write_response s (failure w operation code message) world

    unfoldable pub write_failure_of :
        ℕ → String → String → String → ℤ → World → DurableRequestResult × World
    unfolding write_response
    write_failure_of s operation code message id world =
        write_response s (failure_of w operation code message id) world

    -- A recipient whose session is ready: a session that does not take the envelope is stopped and
    -- taken out of the registry.
    unfoldable pub write_to : w.Value → Bytes → ℕ → World → World
    unfolding write
    write_to envelope name target world =
        let (result, after) = write target envelope world in
        elim result [
          | written ↦ after
          | failed ↦ record after {
            sessions = (remove_if_same name target (request_stop target after.sessions)).1;
          }
        ]

    -- The loop's body: one recipient.
    unfoldable pub deliver_to : w.Value → RecipientRoute → World → World
    unfolding write_to
    deliver_to envelope route world =
        let (found, sessions) = find_ready route.username world.sessions in
        let looked = record world { sessions = sessions } in
        elim found [ none ↦ looked | some target ↦ write_to envelope route.username target looked ]

    unfoldable pub deliver_all : w.Value → List RecipientRoute → World → World
    unfolding deliver_to
    deliver_all envelope [] world = world
    deliver_all envelope (route ∷ routes) world =
        deliver_all envelope routes (deliver_to envelope route world)

    -- The envelope of an accepted message, where it can be represented.
    unfoldable pub committed_envelope : DeliveryMessage → Option w.Value
    committed_envelope message = elim (delivery_envelope w message) [
      | none ↦ none
      | some envelope ↦ elim (w.dump_size envelope) [
        | none ↦ none
        | some size ↦ if ltb maximum_response_bytes size then none else some envelope
      ]
    ]

    unfoldable pub deliver_committed_message : AcceptedMessage → World → World
    unfolding deliver_all committed_envelope
    deliver_committed_message accepted world = elim (committed_envelope accepted.message) [
      | none ↦ world
      | some envelope ↦ deliver_all envelope accepted.recipients world
    ]
