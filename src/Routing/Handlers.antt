-- ===== src/Routing/Handlers.antt =====
-- handleDurableRequest of serverf/durable_routing.cpp and the handlers that it chooses from.
use protected_chat.Prelude.{
  ℕ, Bool, not, none, some, [], ◌∷◌, String, Bytes, codes, bytes_eq, length, if◌then◌else◌,
}
use protected_chat.Prelude.Int.{ℤ, pos}
use protected_chat.Json.{Json, contains_only_fields, read_signed_integer, read_string}
use protected_chat.Json.Writer.{Writer}
use protected_chat.Routing.Messages.{word, kind_text, MessagePageResult}
use protected_chat.Routing.Page.{page_reply}
use protected_chat.Routing.Database.{
  Database, Outcome, returned, invalid_argument, runtime_error, AcceptedMessage,
  MessageAcceptanceResult, MessageAcceptanceStatus, accepted, sender_not_found, recipient_not_found,
  self_message_not_allowed, group_not_found, sender_not_member, AcknowledgementResult, acknowledged,
  already_acknowledged, not_found_or_not_recipient,
}
use protected_chat.Routing.Requests.{read_page_request, read_non_empty_string, positive}
use protected_chat.Routing.Deliveries.{
  World, DurableRequestResult, not_handled, result_of, write, write_response, write_failure,
  write_failure_of, deliver_committed_message,
}

module _ (w : Writer) (j : Json) (db : Database) (takes : ℕ → w.Value → Bool) (s : ℕ) where
  abbrev Answer : Type 0
  Answer = DurableRequestResult × World w db

  -- session->authenticatedUsername()
  abbrev pub user : World w db → Bytes
  user world = (world.sessions.session s).username

  abbrev refuse : String → String → String → World w db → Answer
  refuse operation code message world = write_failure w db takes s operation code message world

  abbrev invalid : String → World w db → Answer
  invalid operation world = refuse operation "INVALID_REQUEST" "Invalid request" world

  abbrev database_error : String → World w db → Answer
  database_error operation world =
      refuse operation "DATABASE_ERROR" "Database operation failed" world

  unfoldable pub acceptance_failure : String → MessageAcceptanceStatus → World w db → Answer
  acceptance_failure operation sender_not_found world =
      refuse operation "SENDER_NOT_FOUND" "Sender not found" world
  acceptance_failure operation recipient_not_found world =
      refuse operation "RECIPIENT_NOT_FOUND" "Recipient not found" world
  acceptance_failure operation self_message_not_allowed world =
      refuse operation "SELF_MESSAGE_NOT_ALLOWED" "Self-messaging is not allowed" world
  acceptance_failure operation group_not_found world =
      refuse operation "GROUP_NOT_FOUND" "Group not found" world
  acceptance_failure operation sender_not_member world =
      refuse operation "SENDER_NOT_MEMBER" "Sender is not a group member" world
  acceptance_failure operation accepted world = database_error operation world

  abbrev pub acceptance_reply : String → AcceptedMessage → w.Value
  acceptance_reply operation message = w.object (
      ("status", word w "SUCCESS")
      ∷ ("operation", word w operation)
      ∷ ("code", word w "ACCEPTED")
      ∷ ("message", word w "Message accepted")
      ∷ ("message_id", w.integer message.message.message.id)
      ∷ ("kind", word w (kind_text message.message.message.kind))
      ∷ ("recipient_count", w.integer (pos (length message.recipients)))
      ∷ [])

  -- The sender's reply, and the deliveries after it.
  unfoldable pub reply_and_deliver : String → AcceptedMessage → World w db → Answer
  reply_and_deliver operation message world =
      let (result, after) = write w db takes s (acceptance_reply operation message) world in
      (result_of w db takes result, deliver_committed_message w db takes message after)

  unfoldable pub finish_acceptance : String → MessageAcceptanceResult → World w db → Answer
  unfolding acceptance_failure reply_and_deliver
  finish_acceptance operation result world = elim result.status [
    | accepted ↦ elim result.accepted_message [
      | none ↦ database_error operation world
      | some message ↦ reply_and_deliver operation message world
    ]
    | refused ↦ acceptance_failure operation refused world
  ]

  -- What the handlers make of an acceptance, or of what it throws.
  unfoldable pub finish_call :
      String → Outcome MessageAcceptanceResult × db.Tables → World w db → Answer
  unfolding finish_acceptance
  finish_call operation (returned result, tables) world =
      finish_acceptance operation result (record world { tables = tables })
  finish_call operation (invalid_argument, tables) world =
      invalid operation (record world { tables = tables })
  finish_call operation (runtime_error, tables) world =
      database_error operation (record world { tables = tables })

  unfoldable pub handle_private : j.Value → World w db → Answer
  unfolding finish_call
  handle_private request world =
      if not (contains_only_fields j request ("type" ∷ "receiver" ∷ "content" ∷ []))
      then invalid "PRIVATE" world
      else elim (read_non_empty_string j request "receiver") [
        | none ↦ invalid "PRIVATE" world
        | some receiver ↦ elim (read_non_empty_string j request "content") [
          | none ↦ invalid "PRIVATE" world
          | some content ↦
              finish_call "PRIVATE"
                (db.accept_private_message (user world) receiver content world.tables) world
        ]
      ]

  unfoldable pub handle_group : j.Value → World w db → Answer
  unfolding finish_call
  handle_group request world =
      if not (contains_only_fields j request ("type" ∷ "group_id" ∷ "content" ∷ []))
      then invalid "GROUP" world
      else elim (positive (read_signed_integer j request "group_id")) [
        | none ↦ invalid "GROUP" world
        | some group_id ↦ elim (read_non_empty_string j request "content") [
          | none ↦ invalid "GROUP" world
          | some content ↦
              finish_call "GROUP"
                (db.accept_group_message (user world) group_id content world.tables) world
        ]
      ]

  unfoldable pub handle_broadcast : j.Value → World w db → Answer
  unfolding finish_call
  handle_broadcast request world =
      if not (contains_only_fields j request ("type" ∷ "content" ∷ []))
      then invalid "BROADCAST" world
      else elim (read_non_empty_string j request "content") [
        | none ↦ invalid "BROADCAST" world
        | some content ↦
            finish_call "BROADCAST" (db.accept_broadcast_message (user world) content world.tables)
              world
      ]

  abbrev acknowledgement_reply : String → String → ℤ → w.Value
  acknowledgement_reply code message id = w.object (
      ("status", word w "SUCCESS")
      ∷ ("operation", word w "DELIVERY_ACK")
      ∷ ("code", word w code)
      ∷ ("message", word w message)
      ∷ ("message_id", w.integer id)
      ∷ [])

  unfoldable pub finish_acknowledgement : ℤ → Outcome AcknowledgementResult → World w db → Answer
  finish_acknowledgement id (returned not_found_or_not_recipient) world =
      write_failure_of w db takes s "DELIVERY_ACK" "NOT_FOUND_OR_NOT_RECIPIENT"
        "Message is not available for acknowledgement" id world
  finish_acknowledgement id (returned acknowledged) world =
      write_response w db takes s (acknowledgement_reply "ACKNOWLEDGED" "Delivery acknowledged" id)
        world
  finish_acknowledgement id (returned already_acknowledged) world =
      write_response w db takes s
        (acknowledgement_reply "ALREADY_ACKNOWLEDGED" "Delivery already acknowledged" id) world
  finish_acknowledgement id invalid_argument world = invalid "DELIVERY_ACK" world
  finish_acknowledgement id runtime_error world =
      write_failure_of w db takes s "DELIVERY_ACK" "DATABASE_ERROR" "Database operation failed" id
        world

  unfoldable pub handle_acknowledgement : j.Value → World w db → Answer
  unfolding finish_acknowledgement
  handle_acknowledgement request world =
      if not (contains_only_fields j request ("type" ∷ "message_id" ∷ []))
      then invalid "DELIVERY_ACK" world
      else elim (positive (read_signed_integer j request "message_id")) [
        | none ↦ invalid "DELIVERY_ACK" world
        | some id ↦
            let (outcome, tables) = db.acknowledge_delivery (user world) id world.tables in
            finish_acknowledgement id outcome (record world { tables = tables })
      ]

  unfoldable pub finish_page_call :
      String → String → String → ℤ → Outcome MessagePageResult → World w db → Answer
  finish_page_call operation code description after (returned page) world =
      write_response w db takes s (page_reply w operation code description after page) world
  finish_page_call operation code description after invalid_argument world = invalid operation world
  finish_page_call operation code description after runtime_error world =
      database_error operation world

  -- handlePage, for the pending messages and for the history
  unfoldable pub handle_pending : j.Value → World w db → Answer
  unfolding finish_page_call
  handle_pending request world = elim (read_page_request j request) [
    | none ↦ invalid "SYNC_PENDING" world
    | some r ↦
        let (outcome, tables) =
          db.get_pending_delivery_page (user world) r.after_message_id r.through_message_id r.limit
            world.tables in
        finish_page_call "SYNC_PENDING" "PENDING_PAGE" "Pending messages" r.after_message_id outcome
          (record world { tables = tables })
  ]

  unfoldable pub handle_history : j.Value → World w db → Answer
  unfolding finish_page_call
  handle_history request world = elim (read_page_request j request) [
    | none ↦ invalid "HISTORY" world
    | some r ↦
        let (outcome, tables) =
          db.get_history_delivery_page (user world) r.after_message_id r.through_message_id r.limit
            world.tables in
        finish_page_call "HISTORY" "HISTORY_PAGE" "Authorized history" r.after_message_id outcome
          (record world { tables = tables })
  ]

  unfoldable pub handle_operation : Bytes → j.Value → World w db → Answer
  unfolding handle_private handle_group handle_broadcast handle_acknowledgement handle_pending
      handle_history
  handle_operation operation request world =
      if bytes_eq operation (codes "PRIVATE")
      then handle_private request world
      else if bytes_eq operation (codes "GROUP")
      then handle_group request world
      else if bytes_eq operation (codes "BROADCAST")
      then handle_broadcast request world
      else if bytes_eq operation (codes "DELIVERY_ACK")
      then handle_acknowledgement request world
      else if bytes_eq operation (codes "SYNC_PENDING")
      then handle_pending request world
      else if bytes_eq operation (codes "HISTORY")
      then handle_history request world
      else (not_handled, world)

  unfoldable pub handle_durable_request : j.Value → World w db → Answer
  unfolding handle_operation
  handle_durable_request request world = elim (read_string j request "type") [
    | none ↦ (not_handled, world)
    | some operation ↦ handle_operation operation request world
  ]
