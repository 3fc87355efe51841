-- ===== src/Agreement/Handled.antt =====
-- What the server does with the requests that the client sends by itself.
use protected_chat.Prelude.{
  ℕ, ◌≡◌, refl, arith, Bool, true, false, [], ◌∷◌, none, some, Option, Bytes, codes, ap, ◌∙◌,
  bytes_eq,
}
use protected_chat.Prelude.Int.{ℤ, pos, ltb_ℤ}
use protected_chat.Json.{Json, read_string, read_signed_integer, contains_only_fields}
use protected_chat.Json.Writer.{Writer}
use protected_chat.Json.Wire.{Wire, contains_only_fields-object, names_allowed, read_string-object}
use protected_chat.Agreement.Reads.{AtLeast, read_written}
use protected_chat.Agreement.Requests.{synchronization_read, continuation_read, positive-AtLeast}
use protected_chat.Client.Requests.{
  synchronization_fields, continuation_fields, acknowledgement_fields,
}
use protected_chat.Routing.Database.{Database}
use protected_chat.Routing.Deliveries.{World, DurableRequestResult}
use protected_chat.Routing.Handlers.{
  handle_durable_request, handle_operation, handle_pending, handle_acknowledgement,
  finish_page_call, finish_acknowledgement, user,
}
use protected_chat.Routing.Requests.{read_page_request, positive}

module _ (w : Writer) (j : Json) (db : Database) (takes : ℕ → w.Value → Bool) (s : ℕ)
    (world : World w db) where
  dispatched :
      (request : j.Value) (operation : Bytes)
      → read_string j request "type" ≡ some operation
      → handle_durable_request w j db takes s request world
        ≡ handle_operation w j db takes s operation request world
  unfolding handle_durable_request
  dispatched request operation e = ground (arith, e)

  -- The answer to a request for pending messages.
  abbrev pub pending_answer : ℤ → Option ℤ → DurableRequestResult × World w db
  pending_answer after through =
      let (outcome, tables) =
        db.get_pending_delivery_page (user w j db takes s world) after through 50 world.tables in
      finish_page_call w j db takes s "SYNC_PENDING" "PENDING_PAGE" "Pending messages" after outcome
        (record world { tables = tables })

  handle_pending_read :
      (request : j.Value) (after : ℤ) (through : Option ℤ)
      → read_page_request j request
        ≡ some (record { after_message_id = after; through_message_id = through; limit = 50 })
      → handle_pending w j db takes s request world ≡ pending_answer after through
  unfolding handle_pending
  handle_pending_read request after through e = ground (arith, e)

  abbrev pub acknowledgement_answer : ℤ → DurableRequestResult × World w db
  acknowledgement_answer id =
      let (outcome, tables) = db.acknowledge_delivery (user w j db takes s world) id world.tables in
      finish_acknowledgement w j db takes s id outcome (record world { tables = tables })

  handle_acknowledgement_read :
      (request : j.Value) (id : ℤ)
      → contains_only_fields j request ("type" ∷ "message_id" ∷ []) ≡ true
      → positive (read_signed_integer j request "message_id") ≡ some id
      → handle_acknowledgement w j db takes s request world ≡ acknowledgement_answer id
  unfolding handle_acknowledgement
  handle_acknowledgement_read request id e h = ground (arith, e, h)

  by_operation_pending :
      (request : j.Value)
      → handle_operation w j db takes s (codes "SYNC_PENDING") request world
        ≡ handle_pending w j db takes s request world
  unfolding handle_operation bytes_eq
  by_operation_pending request = refl

  by_operation_acknowledgement :
      (request : j.Value)
      → handle_operation w j db takes s (codes "DELIVERY_ACK") request world
        ≡ handle_acknowledgement w j db takes s request world
  unfolding handle_operation bytes_eq
  by_operation_acknowledgement request = refl

  module _ (wire : Wire w j) where
    -- The first request of a synchronization reaches the database, for the page after 0 with no
    -- watermark and at most 50 messages.
    pub handle_durable_request-synchronization :
        handle_durable_request w j db takes s
          (wire.parsed (w.object (synchronization_fields w (pos 0))))
          world
        ≡ pending_answer (pos 0) none
    handle_durable_request-synchronization =
        let fields = synchronization_fields w (pos 0) in
        let request = wire.parsed (w.object fields) in
        dispatched request (codes "SYNC_PENDING")
          (read_string-object w j wire fields "type" (codes "SYNC_PENDING") refl)
        ∙ by_operation_pending request
        ∙ handle_pending_read request (pos 0) none (synchronization_read w j wire)

    -- The request that the client queues for a page that follows, with a cursor that is not negative
    -- and not above the watermark, reaches the database with this cursor, this watermark and at most
    -- 50 messages.
    pub handle_durable_request-continuation :
        (after through : ℤ)
        → AtLeast 0 after
        → AtLeast 0 through
        → ltb_ℤ through after ≡ false
        → handle_durable_request w j db takes s
            (wire.parsed (w.object (continuation_fields w after through)))
            world
          ≡ pending_answer after (some through)
    handle_durable_request-continuation after through h k above =
        let fields = continuation_fields w after through in
        let request = wire.parsed (w.object fields) in
        dispatched request (codes "SYNC_PENDING")
          (read_string-object w j wire fields "type" (codes "SYNC_PENDING") refl)
        ∙ by_operation_pending request
        ∙ handle_pending_read request after (some through)
            (continuation_read w j wire after through h k above)

    -- The acknowledgement that the client queues for a message with a positive id acknowledges this
    -- message in the database, for the user of the session.
    pub handle_durable_request-acknowledgement :
        (id : ℤ)
        → AtLeast 1 id
        → handle_durable_request w j db takes s
            (wire.parsed (w.object (acknowledgement_fields w id)))
            world
          ≡ acknowledgement_answer id
    unfolding names_allowed bytes_eq
    handle_durable_request-acknowledgement id h =
        let fields = acknowledgement_fields w id in
        let request = wire.parsed (w.object fields) in
        dispatched request (codes "DELIVERY_ACK")
          (read_string-object w j wire fields "type" (codes "DELIVERY_ACK") refl)
        ∙ by_operation_acknowledgement request
        ∙ handle_acknowledgement_read request id
            (contains_only_fields-object w j wire fields ("type" ∷ "message_id" ∷ []) refl)
            (ap positive (read_written w j wire fields "message_id" 1 id refl h)
              ∙ positive-AtLeast id h)
