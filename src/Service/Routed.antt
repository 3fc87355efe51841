-- ===== src/Service/Routed.antt =====
-- What the handlers of durable routing do to the sessions and the registry.
use protected_chat.Prelude.{
  ℕ, Bool, [], ◌∷◌, String, Bytes, elim_option, if_cases, bytes_eq, codes, not,
}
use protected_chat.Session.Registry.{bytes_order}
use protected_chat.Json.{Json, read_signed_integer, read_string, contains_only_fields}
use protected_chat.Json.Writer.{Writer}
use protected_chat.Session.Handlers.{Phase}
use protected_chat.Service.Changes.{Changes, unchanged, IsSparing, Changes-IsSparing}
use protected_chat.Routing.Database.{
  Database, Outcome, returned, invalid_argument, runtime_error, AcknowledgementResult, acknowledged,
  already_acknowledged, not_found_or_not_recipient,
}
use protected_chat.Routing.Deliveries.{
  World, write, write_response, write_failure, write_failure_of,
}
use protected_chat.Service.Steps.{Reaches, Changes-Reaches, write-Serves}
use protected_chat.Service.Durable.{Keeps, finish_call-Serves}
use protected_chat.Routing.Requests.{read_page_request, positive, read_non_empty_string}
use protected_chat.Prelude.Int.{ℤ}
use protected_chat.Routing.Handlers.{
  finish_acknowledgement, handle_operation, handle_acknowledgement, handle_pending,
  finish_page_call, handle_durable_request, handle_history, handle_private, handle_group,
  handle_broadcast,
}
use protected_chat.Routing.Messages.{MessagePageResult}
use protected_chat.Prelude.Map.{Sorted}

module _ (w : Writer) (j : Json) (db : Database) (takes : ℕ → w.Value → Bool) (s : ℕ) where
  abbrev Stepped : {A : Type 0} → World w db → A × World w db → Type 0
  Stepped world r = Keeps w j db takes s world r

  abbrev said : (v : w.Value) (world : World w db) → Stepped world (write w db takes s v world)
  said v world = write-Serves w db takes s v world

  handle_private-Serves :
      (request : j.Value) (world : World w db)
      → Stepped world (handle_private w j db takes s request world)
  unfolding handle_private write_failure write_response
  handle_private-Serves request world =
      if_cases (Stepped world)
        (not (contains_only_fields j request ("type" ∷ "receiver" ∷ "content" ∷ []))) _ _
        (λ _. said _ world)
        (λ _.
          elim_option (Stepped world) (read_non_empty_string j request "receiver") _ _
            (λ _. said _ world)
            (λ receiver _.
              elim_option (Stepped world) (read_non_empty_string j request "content") _ _
                (λ _. said _ world)
                (λ content _. finish_call-Serves w j db takes s "PRIVATE" _ _ world)))

  handle_group-Serves :
      (request : j.Value) (world : World w db)
      → Stepped world (handle_group w j db takes s request world)
  unfolding handle_group write_failure write_response
  handle_group-Serves request world =
      if_cases (Stepped world)
        (not (contains_only_fields j request ("type" ∷ "group_id" ∷ "content" ∷ []))) _ _
        (λ _. said _ world)
        (λ _.
          elim_option (Stepped world) (positive (read_signed_integer j request "group_id")) _ _
            (λ _. said _ world)
            (λ id _.
              elim_option (Stepped world) (read_non_empty_string j request "content") _ _
                (λ _. said _ world)
                (λ content _. finish_call-Serves w j db takes s "GROUP" _ _ world)))

  handle_broadcast-Serves :
      (request : j.Value) (world : World w db)
      → Stepped world (handle_broadcast w j db takes s request world)
  unfolding handle_broadcast write_failure write_response
  handle_broadcast-Serves request world =
      if_cases (Stepped world) (not (contains_only_fields j request ("type" ∷ "content" ∷ []))) _ _
        (λ _. said _ world)
        (λ _.
          elim_option (Stepped world) (read_non_empty_string j request "content") _ _
            (λ _. said _ world)
            (λ content _. finish_call-Serves w j db takes s "BROADCAST" _ _ world))

  finish_acknowledgement-Serves :
      (id : ℤ) (outcome : Outcome AcknowledgementResult) (world : World w db)
      → Stepped world (finish_acknowledgement w j db takes s id outcome world)
  unfolding finish_acknowledgement write_failure write_failure_of write_response
  finish_acknowledgement-Serves id (returned acknowledged) world = said _ world
  finish_acknowledgement-Serves id (returned already_acknowledged) world = said _ world
  finish_acknowledgement-Serves id (returned not_found_or_not_recipient) world = said _ world
  finish_acknowledgement-Serves id invalid_argument world = said _ world
  finish_acknowledgement-Serves id runtime_error world = said _ world

  handle_acknowledgement-Serves :
      (request : j.Value) (world : World w db)
      → Stepped world (handle_acknowledgement w j db takes s request world)
  unfolding handle_acknowledgement write_failure write_response
  handle_acknowledgement-Serves request world =
      if_cases (Stepped world) (not (contains_only_fields j request ("type" ∷ "message_id" ∷ []))) _
        _ (λ _. said _ world)
        (λ _.
          elim_option (Stepped world) (positive (read_signed_integer j request "message_id")) _ _
            (λ _. said _ world) (λ id _. finish_acknowledgement-Serves id _ _))

  finish_page_call-Serves :
      (operation code description : String) (after : ℤ) (outcome : Outcome MessagePageResult)
      (world : World w db)
      → Stepped world
          (finish_page_call w j db takes s operation code description after outcome world)
  unfolding finish_page_call write_failure write_response
  finish_page_call-Serves operation code description after (returned page) world = said _ world
  finish_page_call-Serves operation code description after invalid_argument world = said _ world
  finish_page_call-Serves operation code description after runtime_error world = said _ world

  handle_pending-Serves :
      (request : j.Value) (world : World w db)
      → Stepped world (handle_pending w j db takes s request world)
  unfolding handle_pending write_failure write_response
  handle_pending-Serves request world =
      elim_option (Stepped world) (read_page_request j request) _ _ (λ _. said _ world)
        (λ r _. finish_page_call-Serves _ _ _ _ _ _)

  handle_history-Serves :
      (request : j.Value) (world : World w db)
      → Stepped world (handle_history w j db takes s request world)
  unfolding handle_history write_failure write_response
  handle_history-Serves request world =
      elim_option (Stepped world) (read_page_request j request) _ _ (λ _. said _ world)
        (λ r _. finish_page_call-Serves _ _ _ _ _ _)

  handle_operation-Serves :
      (operation : Bytes) (request : j.Value) (world : World w db)
      → Stepped world (handle_operation w j db takes s operation request world)
  unfolding handle_operation
  handle_operation-Serves operation request world =
      if_cases (Stepped world) (bytes_eq operation (codes "PRIVATE")) _ _
        (λ _. handle_private-Serves request world)
        (λ _.
          if_cases (Stepped world) (bytes_eq operation (codes "GROUP")) _ _
            (λ _. handle_group-Serves request world)
            (λ _.
              if_cases (Stepped world) (bytes_eq operation (codes "BROADCAST")) _ _
                (λ _. handle_broadcast-Serves request world)
                (λ _.
                  if_cases (Stepped world) (bytes_eq operation (codes "DELIVERY_ACK")) _ _
                    (λ _. handle_acknowledgement-Serves request world)
                    (λ _.
                      if_cases (Stepped world) (bytes_eq operation (codes "SYNC_PENDING")) _ _
                        (λ _. handle_pending-Serves request world)
                        (λ _.
                          if_cases (Stepped world) (bytes_eq operation (codes "HISTORY")) _ _
                            (λ _. handle_history-Serves request world) (λ _. unchanged))))))

  request_changes :
      (request : j.Value) (world : World w db)
      → Stepped world (handle_durable_request w j db takes s request world)
  unfolding handle_durable_request
  request_changes request world =
      elim_option (Stepped world) (read_string j request "type") _ _ (λ _. unchanged)
        (λ operation _. handle_operation-Serves operation request world)

  -- Whatever the database answers, and in a registry whose keys ascend: a request that durable routing
  -- handles changes the sessions and the registry only by answers to the session that made it, by
  -- lookups that find no ready recipient, by deliveries that were written, and by the stop and then the
  -- removal of a ready recipient whose write failed; these are steps of the handlers' interleaving, in
  -- which no handler moves on. An open session is stopped only where some value was refused: the
  -- library cannot encode it or the session's socket does not take the whole of it. A registered
  -- session that is not stopping afterwards is still registered.
  pub handle_durable_request-Serves :
      (phase : ℕ → Phase) (request : j.Value) (world : World w db)
      → Sorted world.sessions.registry
      → let after = (handle_durable_request w j db takes s request world).1.sessions in
        Changes w takes s world.sessions after
        × Reaches phase w takes s world.sessions after
        × IsSparing w takes world.sessions after
  handle_durable_request-Serves phase request world h =
      let made = request_changes request world in
      (made, Changes-Reaches phase w takes s made, Changes-IsSparing w takes s h made)
