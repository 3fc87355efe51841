-- ===== src/Discovery/Handlers.antt =====
-- processContactAdd and processContactList of serverf/discovery_protocol.cpp, and how requests are read.
use protected_chat.Prelude.{
  ℕ, Bool, not, ◌&&◌, Option, none, some, List, [], ◌∷◌, String, leb, if◌then◌else◌,
}
use protected_chat.Prelude.Int.{ℤ, pos, negsuc}
use protected_chat.Json.{Json, contains_only_fields, read_signed_integer, read_string}
use protected_chat.Json.Writer.{Writer}
use protected_chat.Routing.Messages.{word}
use protected_chat.Routing.Page.{failure}
use protected_chat.Routing.Requests.{nonnegative}
use protected_chat.Routing.Database.{Database, Outcome, returned, invalid_argument, runtime_error}
use protected_chat.Routing.Deliveries.{World, write}
use protected_chat.Session.Registry.{SendResult, written, failed}
use protected_chat.Discovery.Results.{
  ContactAddResult, ContactListResult, ContactAddStatus, DiscoveryReadStatus, UserSummary, added,
  already_contact, owner_not_found, contact_not_found, self_contact_not_allowed, read_ready,
  actor_not_found,
}
use protected_chat.Discovery.Page.{
  PageKind, contact_value, response_fits, entry_page, page_value, contacts_kind,
}

pub data DiscoveryRequestResult : Type 0 where
  not_handled handled stop : DiscoveryRequestResult

abbrev pub default_entry_limit : ℕ
default_entry_limit = 50

abbrev pub maximum_entry_limit : ℕ
maximum_entry_limit = 100

abbrev entry_limit_of : Option ℤ → Option ℕ
entry_limit_of none = none
entry_limit_of (some (negsuc n)) = none
entry_limit_of (some (pos n)) = if leb 1 n && leb n maximum_entry_limit then some n else none

module _ (j : Json) where
  unfoldable pub read_cursor : j.Value → String → Option ℤ
  read_cursor request cursor_field = elim (j.find request cursor_field) [
    | none ↦ some (pos 0)
    | some found ↦ nonnegative (read_signed_integer j request cursor_field)
  ]

  unfoldable pub read_entry_limit : j.Value → Option ℕ
  read_entry_limit request = elim (j.find request "limit") [
    | none ↦ some default_entry_limit
    | some found ↦ entry_limit_of (read_signed_integer j request "limit")
  ]

  -- readPageArguments: the cursor and the limit
  unfoldable pub read_page_arguments : j.Value → String → Option (ℤ × ℕ)
  unfolding read_cursor read_entry_limit
  read_page_arguments request cursor_field = elim (read_cursor request cursor_field) [
    | none ↦ none
    | some cursor ↦ elim (read_entry_limit request) [
      | none ↦ none
      | some limit ↦ some (cursor, limit)
    ]
  ]

module _ (w : Writer) (j : Json) (db : Database) (takes : ℕ → w.Value → Bool) (s : ℕ) where
  abbrev pub Answer : Type 0
  Answer = DiscoveryRequestResult × World w db

  abbrev discovery_result : SendResult → DiscoveryRequestResult
  discovery_result written = handled
  discovery_result failed = stop

  unfoldable pub respond : w.Value → World w db → Answer
  respond response world =
      let (result, after) = write w db takes s response world in (discovery_result result, after)

  abbrev fail : String → String → String → World w db → Answer
  fail operation code message world = respond (failure w operation code message) world

  abbrev pub invalid_request : String → World w db → Answer
  invalid_request operation world = fail operation "INVALID_REQUEST" "Invalid request" world

  abbrev unrepresentable : String → World w db → Answer
  unrepresentable operation world =
      fail operation "RECORD_UNREPRESENTABLE"
        "Stored record cannot be represented within response limits" world

  abbrev pub database_failure : String → World w db → Answer
  database_failure operation world =
      fail operation "DATABASE_ERROR" "Database operation failed" world

  abbrev actor_unavailable : String → World w db → Answer
  actor_unavailable operation world =
      fail operation "ACTOR_NOT_FOUND" "Authenticated user is unavailable" world

  abbrev pub contact_response : String → String → UserSummary → w.Value
  contact_response code message contact = w.object (
      ("status", word w "SUCCESS")
      ∷ ("operation", word w "CONTACT_ADD")
      ∷ ("code", word w code)
      ∷ ("message", word w message)
      ∷ ("contact", contact_value w contact)
      ∷ [])

  abbrev write_contact : String → String → Option UserSummary → World w db → Answer
  write_contact code message none world = database_failure "CONTACT_ADD" world
  write_contact code message (some contact) world =
      elim (response_fits w (contact_response code message contact)) [
        | none ↦ unrepresentable "CONTACT_ADD" world
        | some fits ↦
            if fits
            then respond (contact_response code message contact) world
            else unrepresentable "CONTACT_ADD" world
      ]

  unfoldable pub finish_contact_add : ContactAddStatus → Option UserSummary → World w db → Answer
  finish_contact_add owner_not_found contact world = actor_unavailable "CONTACT_ADD" world
  finish_contact_add contact_not_found contact world =
      fail "CONTACT_ADD" "CONTACT_NOT_FOUND" "Contact user does not exist" world
  finish_contact_add self_contact_not_allowed contact world =
      fail "CONTACT_ADD" "SELF_CONTACT_NOT_ALLOWED" "You cannot add yourself as a contact" world
  finish_contact_add added contact world = write_contact "ADDED" "Contact added" contact world
  finish_contact_add already_contact contact world =
      write_contact "ALREADY_CONTACT" "User is already a contact" contact world

  unfoldable pub finish_add_call : Outcome ContactAddResult → World w db → Answer
  unfolding finish_contact_add
  finish_add_call (returned result) world = finish_contact_add result.status result.contact world
  finish_add_call invalid_argument world = invalid_request "CONTACT_ADD" world
  finish_add_call runtime_error world = database_failure "CONTACT_ADD" world

  unfoldable pub process_contact_add : j.Value → World w db → Answer
  unfolding finish_add_call
  process_contact_add request world =
      if not (contains_only_fields j request ("type" ∷ "username" ∷ []))
      then invalid_request "CONTACT_ADD" world
      else elim (read_string j request "username") [
        | none ↦ invalid_request "CONTACT_ADD" world
        | some username ↦
            let (outcome, tables) =
              db.add_contact (world.sessions.session s).username username world.tables in
            finish_add_call outcome (record world { tables = tables })
      ]

  -- The answer with a page of entries, or a failure.
  unfoldable pub write_entries :
      {A : Type 0} → PageKind w A → DiscoveryReadStatus → ℤ → List A → Bool → World w db → Answer
  write_entries k actor_not_found after entries more world = actor_unavailable k.operation world
  write_entries k read_ready after entries more world = elim (entry_page w k after entries more) [
    | none ↦ unrepresentable k.operation world
    | some r ↦ respond (page_value w k r) world
  ]

  unfoldable pub finish_list : ℤ → Outcome ContactListResult → World w db → Answer
  unfolding write_entries
  finish_list after (returned result) world =
      write_entries (contacts_kind w) result.status after result.contacts result.has_more world
  finish_list after invalid_argument world = invalid_request "CONTACT_LIST" world
  finish_list after runtime_error world = database_failure "CONTACT_LIST" world

  unfoldable pub process_contact_list : j.Value → World w db → Answer
  unfolding finish_list
  process_contact_list request world =
      if not (contains_only_fields j request ("type" ∷ "after_user_id" ∷ "limit" ∷ []))
      then invalid_request "CONTACT_LIST" world
      else elim (read_page_arguments j request "after_user_id") [
        | none ↦ invalid_request "CONTACT_LIST" world
        | some (after, limit) ↦
            let (outcome, tables) =
              db.list_contacts (world.sessions.session s).username after limit world.tables in
            finish_list after outcome (record world { tables = tables })
      ]
