-- ===== src/Service/Requests.antt =====
-- readJsonRequest and processMessages of server.cpp: the requests of one session, in turn. What
-- readFrame gives and what other threads do to the sessions and the tables meanwhile is a list of
-- turns; the loop is recursion on it.
use protected_chat.Prelude.{
  ℕ, Bool, true, false, not, Option, none, some, List, [], ◌∷◌, Bytes, codes, bytes_eq,
  if◌then◌else◌,
}
use protected_chat.Json.{Json}
use protected_chat.Json.Writer.{Writer}
use protected_chat.Session.Frames.{FrameReadResult}
use protected_chat.Session.Registry.{request_stop}
use protected_chat.Routing.Database.{Database}
use protected_chat.Routing.Requests.{read_non_empty_string}
use protected_chat.Routing.Deliveries.{World, DurableRequestResult}
use protected_chat.Routing.Handlers.{handle_durable_request}
use protected_chat.Discovery.Handlers.{DiscoveryRequestResult}
use protected_chat.Discovery.Search.{handle_discovery_request}
use protected_chat.Service.Groups.{
  is_ascii_whitespace_only, send_failure, process_group_create, process_group_join,
  process_group_list,
}

pub data RequestReadResult (V : Type 0) : Type 0 where
  request : V → RequestReadResult V
  invalid_complete_frame frame_too_large connection_closed : RequestReadResult V

pub record Turn (w : Writer) (db : Database) : Type 0 where
  pub result : FrameReadResult
  pub meanwhile : World w db → World w db

module _ (w : Writer) (j : Json) (db : Database) (takes : ℕ → w.Value → Bool) (s : ℕ)
    (parse : Bytes → Option j.Value) where
  abbrev Goes : Type 0
  Goes = Bool × World w db

  -- readJsonRequest, where `parse` is json::parse with `none` for a discarded value
  unfoldable pub read_json_request : FrameReadResult → RequestReadResult j.Value
  read_json_request FrameReadResult.too_large = frame_too_large
  read_json_request FrameReadResult.end_of_stream = connection_closed
  read_json_request FrameReadResult.incomplete_frame = connection_closed
  read_json_request FrameReadResult.transport_failure = connection_closed
  read_json_request (FrameReadResult.frame text) =
      if is_ascii_whitespace_only text
      then invalid_complete_frame
      else elim (parse text) [ none ↦ invalid_complete_frame | some value ↦ request value ]

  -- What the durable routing and discovery leave.
  unfoldable pub process_group_request : Bytes → j.Value → World w db → Goes
  process_group_request type value world =
      if bytes_eq type (codes "GROUP_CREATE")
      then process_group_create w j db takes s value world
      else if bytes_eq type (codes "GROUP_JOIN")
      then process_group_join w j db takes s value world
      else if bytes_eq type (codes "GROUP_LIST")
      then process_group_list w j db takes s value world
      else send_failure w j db takes s "Invalid message type" world

  unfoldable pub process_discovery : Bytes → j.Value → World w db → Goes
  unfolding process_group_request
  process_discovery type value world =
      let (result, after) = handle_discovery_request w j db takes s value world in
      elim result [
        | DiscoveryRequestResult.stop ↦ (false, after)
        | DiscoveryRequestResult.handled ↦ (true, after)
        | DiscoveryRequestResult.not_handled ↦ process_group_request type value after
      ]

  unfoldable pub process_durable : Bytes → j.Value → World w db → Goes
  unfolding process_discovery
  process_durable type value world =
      let (result, after) = handle_durable_request w j db takes s value world in
      elim result [
        | DurableRequestResult.stop ↦ (false, after)
        | DurableRequestResult.handled ↦ (true, after)
        | DurableRequestResult.not_handled ↦ process_discovery type value after
      ]

  -- One request; the Boolean says whether the loop goes on.
  unfoldable pub process_request : j.Value → World w db → Goes
  unfolding process_durable
  process_request value world =
      if not (j.is_object value)
      then send_failure w j db takes s "Invalid request" world
      else elim (read_non_empty_string j value "type") [
        | none ↦ send_failure w j db takes s "Invalid message type" world
        | some type ↦
            if bytes_eq type (codes "EXIT")
            then (false, world)
            else process_durable type value world
      ]

  unfoldable pub process_read : RequestReadResult j.Value → World w db → Goes
  unfolding process_request
  process_read (request value) world = process_request value world
  process_read invalid_complete_frame world = send_failure w j db takes s "Invalid request" world
  process_read frame_too_large world =
      let after = (send_failure w j db takes s "Frame too large" world).1 in
      (false, record after { sessions = request_stop s after.sessions })
  process_read connection_closed world = (false, world)

  unfoldable pub process_messages : List (Turn w db) → World w db → World w db
  unfolding process_read read_json_request
  process_messages [] world = world
  process_messages (turn ∷ turns) world = elim (world.sessions.session s).stopping [
    | true ↦ world
    | false ↦
        let (goes_on, after) =
          process_read (read_json_request turn.result) (turn.meanwhile world) in
        elim goes_on [ true ↦ process_messages turns after | false ↦ after ]
  ]
