-- ===== src/Routing/Messages.antt =====
-- What the database hands to the server (database.h), and deliveryEnvelope of
-- serverf/durable_routing.cpp.
use protected_chat.Prelude.{Bool, none, Option, String, [], some, List, ◌∷◌, ◌++◌, codes, Bytes}
use protected_chat.Json.Writer.{Writer}
use protected_chat.Prelude.Int.{ℤ}

pub data DurableMessageKind : Type 0 where
  private_message group_message broadcast_message : DurableMessageKind

pub record StoredMessage : Type 0 where
  pub id : ℤ
  pub kind : DurableMessageKind
  pub sender_id : ℤ
  pub group_id : Option ℤ
  pub content : Bytes
  pub created_at : ℤ

pub record DeliveryMessage : Type 0 where
  pub message : StoredMessage
  pub sender_username : Bytes

pub data MessagePageStatus : Type 0 where
  page_ready page_user_not_found : MessagePageStatus

pub record MessagePageResult : Type 0 where
  pub status : MessagePageStatus
  pub messages : List DeliveryMessage
  pub through_message_id : ℤ
  pub has_more : Bool

-- kindText
abbrev pub kind_text : DurableMessageKind → String
kind_text private_message = "PRIVATE"
kind_text group_message = "GROUP"
kind_text broadcast_message = "BROADCAST"

module _ (w : Writer) where
  abbrev pub word : String → w.Value
  word s = w.text (codes s)

  abbrev pub common_fields : DeliveryMessage → List (String × w.Value)
  common_fields d =
      ("type", word "MESSAGE")
      ∷ ("message_id", w.integer d.message.id)
      ∷ ("kind", word (kind_text d.message.kind))
      ∷ ("sender_id", w.integer d.message.sender_id)
      ∷ ("sender", w.text d.sender_username)
      ∷ ("content", w.text d.message.content)
      ∷ ("created_at", w.integer d.message.created_at)
      ∷ []

  -- envelope["group_id"], of a group's message; `none` where the stored message lacks it and the
  -- function throws.
  abbrev pub group_field : DurableMessageKind → Option ℤ → Option (List (String × w.Value))
  group_field private_message group_id = some []
  group_field broadcast_message group_id = some []
  group_field group_message none = none
  group_field group_message (some id) = some (("group_id", w.integer id) ∷ [])

  -- deliveryEnvelope
  unfoldable pub delivery_envelope : DeliveryMessage → Option w.Value
  delivery_envelope d = elim (group_field d.message.kind d.message.group_id) [
    | none ↦ none
    | some group ↦ some (w.object (common_fields d ++ group))
  ]
