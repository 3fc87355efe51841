-- ===== src/Service/Durable.antt =====
-- The acceptance of a message and its deliveries, as changes of the sessions.
use protected_chat.Prelude.{ℕ, Bool, Option, none, some, String}
use protected_chat.Json.{Json}
use protected_chat.Json.Writer.{Writer}
use protected_chat.Routing.Database.{
  Database, Outcome, returned, invalid_argument, runtime_error, AcceptedMessage,
  MessageAcceptanceResult, MessageAcceptanceStatus, accepted, sender_not_found, recipient_not_found,
  self_message_not_allowed, group_not_found, sender_not_member,
}
use protected_chat.Routing.Deliveries.{World, write_response, write_failure}
use protected_chat.Service.Changes.{Changes-trans}
use protected_chat.Service.Steps.{Serves, write-Serves, deliver_committed_message-Changes}
use protected_chat.Routing.Handlers.{
  acceptance_failure, finish_call, reply_and_deliver, finish_acceptance,
}

module _ (w : Writer) (j : Json) (db : Database) (takes : ℕ → w.Value → Bool) (s : ℕ) where
  abbrev pub Keeps : {A : Type 0} → World w db → A × World w db → Type 0
  Keeps world r = Serves w db takes s world r

  acceptance_failure-Serves :
      (operation : String) (status : MessageAcceptanceStatus) (world : World w db)
      → Keeps world (acceptance_failure w j db takes s operation status world)
  unfolding acceptance_failure write_failure write_response
  acceptance_failure-Serves operation accepted world = write-Serves w db takes s _ world
  acceptance_failure-Serves operation sender_not_found world = write-Serves w db takes s _ world
  acceptance_failure-Serves operation recipient_not_found world = write-Serves w db takes s _ world
  acceptance_failure-Serves operation self_message_not_allowed world =
      write-Serves w db takes s _ world
  acceptance_failure-Serves operation group_not_found world = write-Serves w db takes s _ world
  acceptance_failure-Serves operation sender_not_member world = write-Serves w db takes s _ world

  reply_and_deliver-Serves :
      (operation : String) (message : AcceptedMessage) (world : World w db)
      → Keeps world (reply_and_deliver w j db takes s operation message world)
  unfolding reply_and_deliver
  reply_and_deliver-Serves operation message world =
      Changes-trans w takes s (write-Serves w db takes s _ world)
        (deliver_committed_message-Changes w db takes s message _)

  accepted-Serves :
      (operation : String) (message : Option AcceptedMessage) (world : World w db)
      → Keeps world (
          finish_acceptance w j db takes s operation
            (record { status = accepted; accepted_message = message })
            world)
  unfolding finish_acceptance write_failure write_response
  accepted-Serves operation none world = write-Serves w db takes s _ world
  accepted-Serves operation (some message) world = reply_and_deliver-Serves operation message world

  finish_acceptance-Serves :
      (operation : String) (status : MessageAcceptanceStatus) (message : Option AcceptedMessage)
      (world : World w db)
      → Keeps world (
          finish_acceptance w j db takes s operation
            (record { status = status; accepted_message = message })
            world)
  unfolding finish_acceptance
  finish_acceptance-Serves operation accepted message world =
      accepted-Serves operation message world
  finish_acceptance-Serves operation sender_not_found message world =
      acceptance_failure-Serves operation sender_not_found world
  finish_acceptance-Serves operation recipient_not_found message world =
      acceptance_failure-Serves operation recipient_not_found world
  finish_acceptance-Serves operation self_message_not_allowed message world =
      acceptance_failure-Serves operation self_message_not_allowed world
  finish_acceptance-Serves operation group_not_found message world =
      acceptance_failure-Serves operation group_not_found world
  finish_acceptance-Serves operation sender_not_member message world =
      acceptance_failure-Serves operation sender_not_member world

  pub finish_call-Serves :
      (operation : String) (outcome : Outcome MessageAcceptanceResult) (tables : db.Tables)
      (world : World w db)
      → Keeps world (finish_call w j db takes s operation (outcome, tables) world)
  unfolding finish_call write_failure write_response
  finish_call-Serves operation (returned result) tables world =
      finish_acceptance-Serves operation result.status result.accepted_message
        (record world { tables = tables })
  finish_call-Serves operation invalid_argument tables world =
      write-Serves w db takes s _ (record world { tables = tables })
  finish_call-Serves operation runtime_error tables world =
      write-Serves w db takes s _ (record world { tables = tables })
