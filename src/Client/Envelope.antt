-- ===== src/Client/Envelope.antt =====
-- validDeliveryEnvelope and validHistoryPage of clientf/client_connection.cpp.
use protected_chat.Prelude.{
  Bool, false, true, Option, not, ◌∷◌, [], none, ◌&&◌, ◌||◌, List, some, String, if◌then◌else◌,
}
use protected_chat.Json.{Json, read_signed_integer, contains_only_fields}
use protected_chat.Client.Fields.{
  has_text, string_is_one_of, has_positive, has_nonempty_string, has_boolean, has_nonnegative,
  array_field, has_string, lacks,
}
use protected_chat.Prelude.Int.{leb_ℤ, pos, ltb_ℤ, ℤ}
use protected_chat.Buffer.Key.{eq_ℤ}

abbrev pub envelope_fields : Bool → List String
envelope_fields is_group =
    if is_group
    then "type" ∷ "message_id" ∷ "kind" ∷ "sender_id" ∷ "sender" ∷ "group_id" ∷ "content"
      ∷ "created_at" ∷ []
    else "type" ∷ "message_id" ∷ "kind" ∷ "sender_id" ∷ "sender" ∷ "content" ∷ "created_at" ∷ []

abbrev pub page_fields : List String
page_fields =
    "status" ∷ "operation" ∷ "code" ∷ "message" ∷ "messages" ∷ "through_message_id"
    ∷ "next_after_message_id" ∷ "has_more" ∷ []

module _ (j : Json) where
  unfoldable pub valid_delivery_envelope : j.Value → Bool
  valid_delivery_envelope message =
      let is_group = has_text j message "kind" "GROUP" in
      contains_only_fields j message (envelope_fields is_group)
      && has_text j message "type" "MESSAGE"
      && has_nonempty_string j message "sender"
      && has_nonempty_string j message "content"
      && string_is_one_of j message "kind" ("PRIVATE" ∷ "GROUP" ∷ "BROADCAST" ∷ [])
      && has_positive j message "message_id"
      && has_positive j message "sender_id"
      && has_nonnegative j message "created_at"
      && (if is_group then has_positive j message "group_id" else lacks j message "group_id")

  -- One record of a page: its id, if the record is an envelope and the id lies above `previous` and
  -- not above `through`.
  unfoldable pub page_record : ℤ → ℤ → j.Value → Option ℤ
  page_record through previous record_value =
      if not (valid_delivery_envelope record_value)
      then none
      else elim (read_signed_integer j record_value "message_id") [
        | none ↦ none
        | some id ↦ if leb_ℤ id previous || ltb_ℤ through id then none else some id
      ]

  -- The loop over the records: the last id, where every record passes.
  unfoldable pub page_records : ℤ → ℤ → List j.Value → Option ℤ
  unfolding page_record
  page_records through previous [] = some previous
  page_records through previous (r ∷ records) = elim (page_record through previous r) [
    | none ↦ none
    | some id ↦ page_records through id records
  ]

  -- What follows the loop of validHistoryPage.
  abbrev pub cursor_agrees : ℤ → List j.Value → Option ℤ → Bool
  cursor_agrees next records none = false
  cursor_agrees next [] (some last) = true
  cursor_agrees next (r ∷ records) (some last) = eq_ℤ next last

  abbrev pub bounds_agree : Option ℤ → Option ℤ → Option (List j.Value) → Bool
  bounds_agree (some through) (some next) (some records) =
      leb_ℤ (pos 0) through
      && leb_ℤ (pos 0) next
      && leb_ℤ next through
      && cursor_agrees next records (page_records through (pos 0) records)
  bounds_agree through next records = false

  unfoldable pub valid_history_page : j.Value → Bool
  valid_history_page message =
      contains_only_fields j message page_fields
      && has_text j message "status" "SUCCESS"
      && has_text j message "operation" "HISTORY"
      && has_text j message "code" "HISTORY_PAGE"
      && has_string j message "message"
      && has_boolean j message "has_more"
      && bounds_agree (read_signed_integer j message "through_message_id")
          (read_signed_integer j message "next_after_message_id") (array_field j message "messages")
