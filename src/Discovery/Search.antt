-- ===== src/Discovery/Search.antt =====
-- processUserSearch, processGroupSearch and handleDiscoveryRequest of serverf/discovery_protocol.cpp.
use protected_chat.Prelude.{
  ℕ, Bool, not, none, some, [], ◌∷◌, Bytes, codes, bytes_eq, if◌then◌else◌,
}
use protected_chat.Prelude.Int.{ℤ}
use protected_chat.Json.{Json, contains_only_fields, read_string}
use protected_chat.Json.Writer.{Writer}
use protected_chat.Routing.Database.{Database, Outcome, returned, invalid_argument, runtime_error}
use protected_chat.Routing.Deliveries.{World}
use protected_chat.Discovery.Results.{UserSearchResult, GroupSearchResult}
use protected_chat.Discovery.Page.{users_kind, groups_kind}
use protected_chat.Discovery.Handlers.{
  DiscoveryRequestResult, not_handled, read_page_arguments, invalid_request, database_failure,
  write_entries, process_contact_add, process_contact_list,
}

module _ (w : Writer) (j : Json) (db : Database) (takes : ℕ → w.Value → Bool) (s : ℕ) where
  abbrev Reply : Type 0
  Reply = DiscoveryRequestResult × World w db

  unfoldable pub finish_user_search : Bytes → ℤ → Outcome UserSearchResult → World w db → Reply
  finish_user_search query after (returned result) world =
      write_entries w j db takes s (users_kind w query) result.status after result.users
        result.has_more world
  finish_user_search query after invalid_argument world =
      invalid_request w j db takes s "USER_SEARCH" world
  finish_user_search query after runtime_error world =
      database_failure w j db takes s "USER_SEARCH" world

  unfoldable pub process_user_search : j.Value → World w db → Reply
  unfolding finish_user_search
  process_user_search request world =
      if not (contains_only_fields j request ("type" ∷ "query" ∷ "after_user_id" ∷ "limit" ∷ []))
      then invalid_request w j db takes s "USER_SEARCH" world
      else elim (read_string j request "query") [
        | none ↦ invalid_request w j db takes s "USER_SEARCH" world
        | some query ↦ elim (read_page_arguments j request "after_user_id") [
          | none ↦ invalid_request w j db takes s "USER_SEARCH" world
          | some (after, limit) ↦
              let (outcome, tables) =
                db.search_users (world.sessions.session s).username query after limit
                  world.tables in
              finish_user_search query after outcome (record world { tables = tables })
        ]
      ]

  unfoldable pub finish_group_search : Bytes → ℤ → Outcome GroupSearchResult → World w db → Reply
  finish_group_search query after (returned result) world =
      write_entries w j db takes s (groups_kind w query) result.status after result.groups
        result.has_more world
  finish_group_search query after invalid_argument world =
      invalid_request w j db takes s "GROUP_SEARCH" world
  finish_group_search query after runtime_error world =
      database_failure w j db takes s "GROUP_SEARCH" world

  unfoldable pub process_group_search : j.Value → World w db → Reply
  unfolding finish_group_search
  process_group_search request world =
      if not (contains_only_fields j request ("type" ∷ "query" ∷ "after_group_id" ∷ "limit" ∷ []))
      then invalid_request w j db takes s "GROUP_SEARCH" world
      else elim (read_string j request "query") [
        | none ↦ invalid_request w j db takes s "GROUP_SEARCH" world
        | some query ↦ elim (read_page_arguments j request "after_group_id") [
          | none ↦ invalid_request w j db takes s "GROUP_SEARCH" world
          | some (after, limit) ↦
              let (outcome, tables) =
                db.search_groups (world.sessions.session s).username query after limit
                  world.tables in
              finish_group_search query after outcome (record world { tables = tables })
        ]
      ]

  unfoldable pub discover : Bytes → j.Value → World w db → Reply
  unfolding process_user_search process_group_search
  discover operation request world =
      if bytes_eq operation (codes "CONTACT_ADD")
      then process_contact_add w j db takes s request world
      else if bytes_eq operation (codes "CONTACT_LIST")
      then process_contact_list w j db takes s request world
      else if bytes_eq operation (codes "USER_SEARCH")
      then process_user_search request world
      else if bytes_eq operation (codes "GROUP_SEARCH")
      then process_group_search request world
      else (not_handled, world)

  unfoldable pub handle_discovery_request : j.Value → World w db → Reply
  unfolding discover
  handle_discovery_request request world =
      if not (j.is_object request)
      then (not_handled, world)
      else elim (read_string j request "type") [
        | none ↦ (not_handled, world)
        | some operation ↦ discover operation request world
      ]
