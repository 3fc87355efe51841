-- ===== src/Tests/Deliveries.antt =====
-- A server with two users, and the requests of one of them.
use protected_chat.Prelude.{
  ℕ, Bool, true, false, some, List, [], ◌∷◌, Bytes, codes, ◌≡◌, refl, arith, ◌==◌, if◌then◌else◌,
  ◌++◌, bytes_lt_total, bytes_lt, none, bytes_eq,
}
use protected_chat.Prelude.Int.{ℤ, pos}
use protected_chat.Session.Registry.{
  Sessions, bytes_order, find_ready, remove_if_same, send_json, request_stop,
}
use protected_chat.Routing.Database.{
  invalid_argument, Database, returned, accepted, acknowledged, AcceptedMessage,
}
use protected_chat.Routing.Deliveries.{
  World, committed_envelope, write_to, deliver_to, deliver_all, deliver_committed_message, write,
}
use protected_chat.Routing.Acceptance.{replied, reply_and_deliver-sent}
use protected_chat.Routing.Recipients.{deliveries, OwnNames}
use protected_chat.Agreement.Handled.{
  pending_answer, acknowledgement_answer, handle_durable_request-continuation,
  handle_durable_request-acknowledgement,
}
use protected_chat.Tests.Pages.{greeting, page}
use protected_chat.Tests.Values.{Value, reader, wire, writer}
use protected_chat.Client.Requests.{continuation_fields, acknowledgement_fields}
use protected_chat.Routing.Handlers.{
  reply_and_deliver, handle_durable_request, handle_private, finish_acceptance, handle_operation,
  finish_call,
}
use protected_chat.Prelude.Map.{find, erase}
use protected_chat.Routing.Messages.{delivery_envelope, common_fields}
use protected_chat.Discovery.Page.{entry_page, EntryPage, contact_value, response_fits}
use protected_chat.Agreement.Listings.{
  Listing, listing_page, listing_page-valid_discovery_response, operation_of, listing_value,
  contacts,
}
use protected_chat.Client.Discovery.{valid_discovery_response}
use protected_chat.Session.Handlers.{admitted}
use protected_chat.Service.Steps.{Reaches}
use protected_chat.Service.Routed.{handle_durable_request-Serves}
use protected_chat.Service.Changes.{IsSparing, Changes}
use protected_chat.Json.{read_string, contains_only_fields}
use protected_chat.Routing.Requests.{read_non_empty_string}

abbrev to_bob : AcceptedMessage
to_bob = record {
  message = greeting;
  recipients = record { user_id = pos 2; username = codes "bob" } ∷ [];
}

-- The tables hold the ids that were acknowledged.
abbrev database : Database
database = record {
  Tables = List ℤ;
  accept_private_message = λ user receiver content tables.
      (returned (record { status = accepted; accepted_message = some to_bob }), tables);
  accept_group_message = λ user group_id content tables.
      (returned (record { status = accepted; accepted_message = some to_bob }), tables);
  accept_broadcast_message = λ user content tables.
      (returned (record { status = accepted; accepted_message = some to_bob }), tables);
  acknowledge_delivery = λ user id tables. (returned acknowledged, id ∷ tables);
  get_pending_delivery_page = λ user after through limit tables. (returned page, tables);
  get_history_delivery_page = λ user after through limit tables. (returned page, tables);
  add_contact = λ user name tables. (invalid_argument, tables);
  list_contacts = λ user after limit tables. (invalid_argument, tables);
  search_users = λ user query after limit tables. (invalid_argument, tables);
  search_groups = λ user query after limit tables. (invalid_argument, tables);
  create_group = λ user name tables. (invalid_argument, tables);
  join_group = λ user id tables. (invalid_argument, tables);
  list_groups_for_user = λ user after limit tables. (invalid_argument, tables);
}

abbrev sessions : Sessions
sessions = record {
  session = λ s. record {
    username = if s == 0 then codes "ann" else codes "bob";
    ready = true;
    stopping = false;
    closed = false;
  };
  registry = (codes "ann", 0) ∷ (codes "bob", 1) ∷ [];
}

abbrev world : World writer database
world = record { sessions = sessions; tables = []; sent = [] }

abbrev takes : ℕ → Value → Bool
takes s v = true

handle_durable_request-continuation_example :
    handle_durable_request writer reader database takes 1
      (wire.parsed (writer.object (continuation_fields writer (pos 7) (pos 9))))
      world
    ≡ pending_answer writer reader database takes 1 world (pos 7) (some (pos 9))
handle_durable_request-continuation_example =
    handle_durable_request-continuation writer reader database takes 1 world wire (pos 7) (pos 9)
      (omega arith, omega arith) (omega arith, omega arith) refl

handle_durable_request-acknowledgement_example :
    handle_durable_request writer reader database takes 1
      (wire.parsed (writer.object (acknowledgement_fields writer (pos 7))))
      world
    ≡ acknowledgement_answer writer reader database takes 1 world (pos 7)
handle_durable_request-acknowledgement_example =
    handle_durable_request-acknowledgement writer reader database takes 1 world wire (pos 7)
      (omega arith, omega arith)

sessions_own :
    (n : Bytes) (s : ℕ) → find n sessions.registry ≡ some s → (sessions.session s).username ≡ n
unfolding find
sessions_own n s e =
    ground (arith, e, bytes_lt_total n (codes "ann"), bytes_lt_total n (codes "bob"))

sessions_OwnNames : OwnNames sessions
unfolding bytes_lt
sessions_OwnNames = ((refl, tt), sessions_own)

abbrev envelope : Value
envelope = writer.object (common_fields writer greeting)

represented : committed_envelope writer database takes greeting ≡ some envelope
unfolding committed_envelope delivery_envelope
represented = refl

reply_and_deliver-sent_example :
    (reply_and_deliver writer reader database takes 0 "PRIVATE" to_bob world).1.sent
    ≡ (replied writer database takes reader 0 "PRIVATE" to_bob world).sent
      ++ deliveries writer takes envelope
          (replied writer database takes reader 0 "PRIVATE" to_bob world).sessions
          to_bob.recipients
reply_and_deliver-sent_example =
    reply_and_deliver-sent writer database takes reader 0 "PRIVATE" to_bob world envelope
      represented sessions_OwnNames (tt, tt)

-- A page of two contacts.
abbrev found : Listing
found = contacts (
    record { id = pos 3; username = codes "eve" }
    ∷ record { id = pos 5; username = codes "joe" }
    ∷ [])

abbrev contacts_page : EntryPage writer
contacts_page = record {
  records =
      contact_value writer (record { id = pos 3; username = codes "eve" })
      ∷ contact_value writer (record { id = pos 5; username = codes "joe" })
      ∷ [];
  following = pos 5;
  has_more = false;
}

found_page : listing_page writer reader wire found (pos 0) false ≡ some contacts_page
unfolding entry_page response_fits
found_page = refl

listing_page-valid_discovery_response_example :
    valid_discovery_response reader
      (wire.parsed (listing_value writer reader wire found contacts_page))
      (codes (operation_of found))
    ≡ true
listing_page-valid_discovery_response_example =
    listing_page-valid_discovery_response writer reader wire found (pos 0) false contacts_page
      (
        (omega arith, omega arith),
        ((omega arith, omega arith), refl, ((omega arith, omega arith), refl, tt)),
        omega arith,
      )
      found_page

abbrev to_send : Value
to_send = writer.object (
    ("type", writer.text (codes "PRIVATE"))
    ∷ ("receiver", writer.text (codes "bob"))
    ∷ ("content", writer.text (codes "hi"))
    ∷ [])

-- Bob's socket does not take the delivery.
abbrev ann_takes : ℕ → Value → Bool
ann_takes s v = s == 0

-- Bob is then out of the registry.
bob_removed :
    find
      (codes "bob")
      (handle_durable_request writer reader database ann_takes 0 to_send world).1.sessions.registry
    ≡ none
unfolding handle_durable_request handle_operation handle_private finish_call finish_acceptance
    reply_and_deliver write deliver_committed_message committed_envelope delivery_envelope
    deliver_all deliver_to write_to find_ready send_json request_stop remove_if_same find erase
    read_string contains_only_fields read_non_empty_string bytes_eq bytes_lt
bob_removed = refl

handle_durable_request-Serves_example :
    let after =
      (handle_durable_request writer reader database ann_takes 0 to_send world).1.sessions in
    Changes writer ann_takes 0 sessions after
    × Reaches (λ s. admitted) writer ann_takes 0 sessions after
    × IsSparing writer ann_takes sessions after
handle_durable_request-Serves_example =
    handle_durable_request-Serves writer reader database ann_takes 0 (λ s. admitted) to_send world
      sessions_OwnNames.0
