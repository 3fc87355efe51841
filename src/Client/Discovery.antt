-- ===== src/Client/Discovery.antt =====
-- The validators of discovery responses in clientf/client_connection.cpp.
use protected_chat.Prelude.{
  Bool, true, false, not, ◌&&◌, List, [], ◌∷◌, Option, none, some, String, Bytes, codes, bytes_eq,
  length, leb, if◌then◌else◌,
}
use protected_chat.Prelude.Int.{ℤ, pos, leb_ℤ}
use protected_chat.Buffer.Key.{eq_ℤ}
use protected_chat.Json.{Json, contains_only_fields, read_signed_integer}
use protected_chat.Client.Fields.{
  has_text, has_boolean, has_string, has_positive, string_is_one_of, array_field, field_is,
  is_nonnegative,
}

abbrev pub failure_fields : List String
failure_fields = "status" ∷ "operation" ∷ "code" ∷ "message" ∷ []

abbrev pub failure_codes : Bool → List String
failure_codes adding =
    if adding
    then "INVALID_REQUEST" ∷ "ACTOR_NOT_FOUND" ∷ "CONTACT_NOT_FOUND" ∷ "SELF_CONTACT_NOT_ALLOWED"
      ∷ "DATABASE_ERROR" ∷ "RECORD_UNREPRESENTABLE" ∷ []
    else "INVALID_REQUEST" ∷ "ACTOR_NOT_FOUND" ∷ "DATABASE_ERROR" ∷ "RECORD_UNREPRESENTABLE" ∷ []

abbrev pub summary_fields : Bool → List String
summary_fields include_contact_flag =
    if include_contact_flag
    then "user_id" ∷ "username" ∷ "is_contact" ∷ []
    else "user_id" ∷ "username" ∷ []

abbrev pub contact_fields : List String
contact_fields = "status" ∷ "operation" ∷ "code" ∷ "message" ∷ "contact" ∷ []

abbrev pub contacts_fields : List String
contacts_fields =
    "status" ∷ "operation" ∷ "code" ∷ "message" ∷ "contacts" ∷ "next_after_user_id" ∷ "has_more"
    ∷ []

abbrev pub users_fields : List String
users_fields =
    "status" ∷ "operation" ∷ "code" ∷ "message" ∷ "query" ∷ "users" ∷ "next_after_user_id"
    ∷ "has_more" ∷ []

abbrev pub groups_fields : List String
groups_fields =
    "status" ∷ "operation" ∷ "code" ∷ "message" ∷ "query" ∷ "groups" ∷ "next_after_group_id"
    ∷ "has_more" ∷ []

abbrev pub group_fields : List String
group_fields = "group_id" ∷ "name" ∷ "is_member" ∷ []

module _ (j : Json) where
  -- validDiscoveryFailure, where the operation is CONTACT_ADD or not
  unfoldable pub valid_discovery_failure : j.Value → String → Bool
  valid_discovery_failure message operation =
      contains_only_fields j message failure_fields
      && has_text j message "status" "FAIL"
      && has_text j message "operation" operation
      && has_string j message "message"
      && string_is_one_of j message "code"
          (failure_codes (bytes_eq (codes operation) (codes "CONTACT_ADD")))

  unfoldable pub valid_user_summary : j.Value → Bool → Bool
  valid_user_summary user include_contact_flag =
      j.is_object user
      && contains_only_fields j user (summary_fields include_contact_flag)
      && has_positive j user "user_id"
      && has_string j user "username"
      && (if include_contact_flag then has_boolean j user "is_contact" else true)

  -- The test of a group in validGroupSearchResponse, but for the order of the ids.
  unfoldable pub valid_group_summary : j.Value → Bool
  valid_group_summary group =
      j.is_object group
      && contains_only_fields j group group_fields
      && has_string j group "name"
      && has_boolean j group "is_member"

  -- The loop over the entries of a page: the last id, where every entry passes its test and the ids
  -- ascend from `previous`.
  unfoldable pub ascending_entries : (j.Value → Bool) → String → ℤ → List j.Value → Option ℤ
  ascending_entries valid id_field previous [] = some previous
  ascending_entries valid id_field previous (entry ∷ entries) =
      if not (valid entry) then none else elim (read_signed_integer j entry id_field) [
        | none ↦ none
        | some id ↦ elim (leb_ℤ id previous) [
          | true ↦ none
          | false ↦ ascending_entries valid id_field id entries
        ]
      ]

  -- entries->empty() || next == previous, after the loop
  abbrev pub cursor_fits : Option ℤ → List j.Value → Option ℤ → Bool
  cursor_fits next entries none = false
  cursor_fits next [] (some last) = true
  cursor_fits none (e ∷ entries) (some last) = false
  cursor_fits (some next) (e ∷ entries) (some last) = eq_ℤ next last

  abbrev pub entries_fit : (j.Value → Bool) → String → Option ℤ → Option (List j.Value) → Bool
  entries_fit valid id_field next none = false
  entries_fit valid id_field next (some entries) =
      leb (length entries) 100
      && is_nonnegative next
      && cursor_fits next entries (ascending_entries valid id_field (pos 0) entries)

  -- What the responses with a page have in common.
  unfoldable pub valid_page :
      String → String → List String → String → (j.Value → Bool) → String → String → j.Value → Bool
  unfolding ascending_entries
  valid_page operation code allowed field valid id_field next_field message =
      contains_only_fields j message allowed
      && has_text j message "status" "SUCCESS"
      && has_text j message "operation" operation
      && has_text j message "code" code
      && has_string j message "message"
      && has_boolean j message "has_more"
      && entries_fit valid id_field (read_signed_integer j message next_field)
          (array_field j message field)

  unfoldable pub valid_contact_add_response : j.Value → Bool
  valid_contact_add_response message =
      if has_text j message "status" "FAIL"
      then valid_discovery_failure message "CONTACT_ADD"
      else contains_only_fields j message contact_fields
        && has_text j message "status" "SUCCESS"
        && has_text j message "operation" "CONTACT_ADD"
        && string_is_one_of j message "code" ("ADDED" ∷ "ALREADY_CONTACT" ∷ [])
        && has_string j message "message"
        && field_is j message "contact" (λ contact. valid_user_summary contact false)

  unfoldable pub valid_contact_list_response : j.Value → Bool
  valid_contact_list_response message =
      if has_text j message "status" "FAIL"
      then valid_discovery_failure message "CONTACT_LIST"
      else valid_page "CONTACT_LIST" "CONTACTS_PAGE" contacts_fields "contacts"
          (λ contact. valid_user_summary contact false) "user_id" "next_after_user_id" message

  unfoldable pub valid_user_search_response : j.Value → Bool
  valid_user_search_response message =
      if has_text j message "status" "FAIL"
      then valid_discovery_failure message "USER_SEARCH"
      else has_string j message "query"
        && valid_page "USER_SEARCH" "USERS_PAGE" users_fields "users"
            (λ user. valid_user_summary user true) "user_id" "next_after_user_id" message

  unfoldable pub valid_group_search_response : j.Value → Bool
  unfolding valid_group_summary
  valid_group_search_response message =
      if has_text j message "status" "FAIL"
      then valid_discovery_failure message "GROUP_SEARCH"
      else has_string j message "query"
        && valid_page "GROUP_SEARCH" "GROUPS_PAGE" groups_fields "groups" valid_group_summary
            "group_id" "next_after_group_id" message

  unfoldable pub valid_discovery_response : j.Value → Bytes → Bool
  unfolding valid_contact_add_response valid_contact_list_response valid_user_search_response
      valid_group_search_response
  valid_discovery_response message operation =
      if bytes_eq operation (codes "CONTACT_ADD")
      then valid_contact_add_response message
      else if bytes_eq operation (codes "CONTACT_LIST")
      then valid_contact_list_response message
      else if bytes_eq operation (codes "USER_SEARCH")
      then valid_user_search_response message
      else if bytes_eq operation (codes "GROUP_SEARCH")
      then valid_group_search_response message
      else true
