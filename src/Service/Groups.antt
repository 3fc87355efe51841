-- ===== src/Service/Groups.antt =====
-- processGroupCreate, processGroupJoin and processGroupList of server.cpp.
use protected_chat.Prelude.{
  ℕ, Bool, true, false, not, ◌&&◌, ◌||◌, Option, none, some, List, [], ◌∷◌, ◌++◌, String, Bytes,
  is_nil, length, ltb, leb, ◌==◌, if◌then◌else◌,
}
use protected_chat.Prelude.Int.{ℤ, pos, negsuc}
use protected_chat.Json.{Json, contains_only_fields, read_signed_integer}
use protected_chat.Json.Writer.{Writer}
use protected_chat.Routing.Messages.{word}
use protected_chat.Routing.Requests.{nonnegative, positive, read_non_empty_string}
use protected_chat.Routing.Database.{Database, Outcome, returned, invalid_argument, runtime_error}
use protected_chat.Routing.Deliveries.{World, write}
use protected_chat.Discovery.Results.{
  GroupSummary, GroupCreationResult, GroupJoinResult, GroupListResult, created, duplicate_name,
  creator_not_found, joined, already_member, group_missing, user_missing, listed, list_user_missing,
}
use protected_chat.Session.Handlers.{is_written}

abbrev pub max_client_response_json_bytes : ℕ
max_client_response_json_bytes = 1048576

abbrev pub max_group_list_limit : ℕ
max_group_list_limit = 100

abbrev pub is_blank : ℕ → Bool
is_blank c = c == 32 || c == 9 || c == 13 || c == 10 || c == 12 || c == 11

-- isAsciiWhitespaceOnly, and isWhitespaceOnly in the locale "C"
unfoldable pub is_ascii_whitespace_only : Bytes → Bool
is_ascii_whitespace_only [] = true
is_ascii_whitespace_only (c ∷ text) = is_blank c && is_ascii_whitespace_only text

abbrev group_limit_of : Option ℤ → Option ℕ
group_limit_of none = none
group_limit_of (some (negsuc n)) = none
group_limit_of (some (pos n)) = if ltb 0 n && leb n max_group_list_limit then some n else none

module _ (w : Writer) where
  abbrev pub failure_message : String → w.Value
  failure_message message = w.object (("status", word w "FAIL") ∷ ("message", word w message) ∷ [])

  abbrev pub group_outcome : String → String → String → String → w.Value
  group_outcome status message operation outcome = w.object (
      ("status", word w status)
      ∷ ("message", word w message)
      ∷ ("operation", word w operation)
      ∷ ("outcome", word w outcome)
      ∷ [])

  -- What of the list changes while it grows.
  pub record GroupPage : Type 0 where
    pub records : List w.Value
    pub has_more : Bool
    pub following : ℤ

  abbrev pub group_list_value : GroupPage → w.Value
  group_list_value r = w.object (
      ("status", word w "SUCCESS")
      ∷ ("message", word w "Groups listed")
      ∷ ("operation", word w "GROUP_LIST")
      ∷ ("groups", w.array r.records)
      ∷ ("has_more", w.boolean r.has_more)
      ∷ ("next_after_group_id", w.integer r.following)
      ∷ [])

  abbrev pub group_candidate : Bool → List GroupSummary → GroupPage → GroupSummary → GroupPage
  group_candidate more rest r group = record {
    records =
        r.records ++ w.object (("id", w.integer group.id) ∷ ("name", w.text group.name) ∷ []) ∷ [];
    has_more = not (is_nil rest) || more;
    following = group.id;
  }

  -- A response, the failure of a record that is too large, or an exception of dump.
  pub data GroupListBuild : Type 0 where
    built : GroupPage → GroupListBuild
    record_too_large cannot_encode : GroupListBuild

  -- buildGroupListResponse
  unfoldable pub build_group_list_response : Bool → List GroupSummary → GroupPage → GroupListBuild
  build_group_list_response more [] r = built r
  build_group_list_response more (group ∷ rest) r =
      elim (w.dump_size (group_list_value (group_candidate more rest r group))) [
        | none ↦ cannot_encode
        | some size ↦ elim (ltb max_client_response_json_bytes size) [
          | true ↦
              if is_nil r.records then record_too_large else built (record r { has_more = true })
          | false ↦ build_group_list_response more rest (group_candidate more rest r group)
        ]
      ]

module _ (w : Writer) (j : Json) (db : Database) (takes : ℕ → w.Value → Bool) (s : ℕ) where
  abbrev Sent : Type 0
  Sent = Bool × World w db

  -- session->sendJson(...) == SendResult::Written
  unfoldable pub send : w.Value → World w db → Sent
  send v world = let (result, after) = write w db takes s v world in (is_written result, after)

  unfoldable pub send_failure : String → World w db → Sent
  unfolding send
  send_failure message world = send (failure_message w message) world

  unfoldable pub finish_create : Outcome GroupCreationResult → World w db → Sent
  finish_create invalid_argument world = send_failure "Invalid group name" world
  finish_create runtime_error world = send_failure "Database error" world
  finish_create (returned result) world = elim result.status [
    | duplicate_name ↦
        send (group_outcome w "FAIL" "Group name exists" "GROUP_CREATE" "DUPLICATE_NAME") world
    | creator_not_found ↦
        send
          (group_outcome w "FAIL" "Authenticated account not found" "GROUP_CREATE"
            "CREATOR_NOT_FOUND")
          world
    | created ↦ elim result.group [
      | none ↦ send_failure "Database error" world
      | some group ↦
          send
            (w.object (
              ("status", word w "SUCCESS")
              ∷ ("message", word w "Group created")
              ∷ ("operation", word w "GROUP_CREATE")
              ∷ ("outcome", word w "CREATED")
              ∷ ("group", w.object (("id", w.integer group.id) ∷ ("name", w.text group.name) ∷ []))
              ∷ []))
            world
    ]
  ]

  unfoldable pub process_group_create : j.Value → World w db → Sent
  unfolding finish_create
  process_group_create request world =
      if not (contains_only_fields j request ("type" ∷ "name" ∷ []))
      then send_failure "Invalid group name" world
      else elim (read_non_empty_string j request "name") [
        | none ↦ send_failure "Invalid group name" world
        | some name ↦
            if ltb 128 (length name) || is_ascii_whitespace_only name
            then send_failure "Invalid group name" world
            else let (outcome, tables) =
                db.create_group (world.sessions.session s).username name world.tables in
              finish_create outcome (record world { tables = tables })
      ]

  abbrev join_success : String → String → ℤ → w.Value
  join_success message outcome id = w.object (
      ("status", word w "SUCCESS")
      ∷ ("message", word w message)
      ∷ ("operation", word w "GROUP_JOIN")
      ∷ ("outcome", word w outcome)
      ∷ ("group_id", w.integer id)
      ∷ [])

  unfoldable pub finish_join : ℤ → Outcome GroupJoinResult → World w db → Sent
  finish_join id invalid_argument world = send_failure "Invalid group ID" world
  finish_join id runtime_error world = send_failure "Database error" world
  finish_join id (returned group_missing) world =
      send (group_outcome w "FAIL" "Group not found" "GROUP_JOIN" "GROUP_NOT_FOUND") world
  finish_join id (returned user_missing) world =
      send (group_outcome w "FAIL" "Authenticated account not found" "GROUP_JOIN" "USER_NOT_FOUND")
        world
  finish_join id (returned joined) world = send (join_success "Group joined" "JOINED" id) world
  finish_join id (returned already_member) world =
      send (join_success "Already a member" "ALREADY_MEMBER" id) world

  unfoldable pub process_group_join : j.Value → World w db → Sent
  unfolding finish_join
  process_group_join request world =
      if not (contains_only_fields j request ("type" ∷ "group_id" ∷ []))
      then send_failure "Invalid group ID" world
      else elim (positive (read_signed_integer j request "group_id")) [
        | none ↦ send_failure "Invalid group ID" world
        | some id ↦
            let (outcome, tables) =
              db.join_group (world.sessions.session s).username id world.tables in
            finish_join id outcome (record world { tables = tables })
      ]

  unfoldable pub write_group_list : GroupListBuild w → World w db → Sent
  write_group_list (built r) world = send (group_list_value w r) world
  write_group_list record_too_large world = send_failure "Group record exceeds response limit" world
  write_group_list cannot_encode world = send_failure "Group data cannot be encoded" world

  unfoldable pub finish_group_list : ℤ → Outcome GroupListResult → World w db → Sent
  unfolding write_group_list
  finish_group_list after invalid_argument world = send_failure "Invalid group list request" world
  finish_group_list after runtime_error world = send_failure "Database error" world
  finish_group_list after (returned result) world = elim result.status [
    | list_user_missing ↦
        send
          (group_outcome w "FAIL" "Authenticated account not found" "GROUP_LIST" "USER_NOT_FOUND")
          world
    | listed ↦
        write_group_list
          (build_group_list_response w result.has_more result.groups
            (record { records = []; has_more = result.has_more; following = after }))
          world
  ]

  unfoldable pub read_group_cursor : j.Value → Option ℤ
  read_group_cursor request = elim (j.find request "after_group_id") [
    | none ↦ some (pos 0)
    | some found ↦ nonnegative (read_signed_integer j request "after_group_id")
  ]

  unfoldable pub read_group_limit : j.Value → Option ℕ
  read_group_limit request = elim (j.find request "limit") [
    | none ↦ some 50
    | some found ↦ group_limit_of (read_signed_integer j request "limit")
  ]

  unfoldable pub process_group_list : j.Value → World w db → Sent
  unfolding finish_group_list
  process_group_list request world =
      if not (contains_only_fields j request ("type" ∷ "after_group_id" ∷ "limit" ∷ []))
      then send_failure "Invalid group list request" world
      else elim (read_group_cursor request) [
        | none ↦ send_failure "Invalid group list cursor" world
        | some after ↦ elim (read_group_limit request) [
          | none ↦ send_failure "Invalid group list limit" world
          | some limit ↦
              let (outcome, tables) =
                db.list_groups_for_user (world.sessions.session s).username after limit
                  world.tables in
              finish_group_list after outcome (record world { tables = tables })
        ]
      ]
