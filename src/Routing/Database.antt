-- ===== src/Routing/Database.antt =====
-- What the requests ask of the database (database.h): the results of its calls, and the calls as
-- an interface over the tables. The calls are made under the database's own lock.
use protected_chat.Prelude.{ℕ, Option, List, Bytes}
use protected_chat.Prelude.Int.{ℤ}
use protected_chat.Discovery.Results.{
  GroupCreationResult, GroupJoinResult, GroupListResult, ContactAddResult, ContactListResult,
  UserSearchResult, GroupSearchResult,
}
use protected_chat.Routing.Messages.{DeliveryMessage, MessagePageResult}

pub data AcknowledgementResult : Type 0 where
  acknowledged already_acknowledged not_found_or_not_recipient : AcknowledgementResult

pub data MessageAcceptanceStatus : Type 0 where
  accepted sender_not_found recipient_not_found self_message_not_allowed group_not_found
        sender_not_member :
      MessageAcceptanceStatus

pub record RecipientRoute : Type 0 where
  pub user_id : ℤ
  pub username : Bytes

pub record AcceptedMessage : Type 0 where
  pub message : DeliveryMessage
  pub recipients : List RecipientRoute

pub record MessageAcceptanceResult : Type 0 where
  pub status : MessageAcceptanceStatus
  pub accepted_message : Option AcceptedMessage

-- A call of the database returns or throws.
pub data Outcome (A : Type 0) : Type 0 where
  returned : A → Outcome A
  invalid_argument runtime_error : Outcome A

pub record Database : Type 1 where
  pub Tables : Type 0
  pub accept_private_message :
      Bytes → Bytes → Bytes → Tables → Outcome MessageAcceptanceResult × Tables
  pub accept_group_message : Bytes → ℤ → Bytes → Tables → Outcome MessageAcceptanceResult × Tables
  pub accept_broadcast_message : Bytes → Bytes → Tables → Outcome MessageAcceptanceResult × Tables
  pub acknowledge_delivery : Bytes → ℤ → Tables → Outcome AcknowledgementResult × Tables
  pub get_pending_delivery_page :
      Bytes → ℤ → Option ℤ → ℕ → Tables → Outcome MessagePageResult × Tables
  pub get_history_delivery_page :
      Bytes → ℤ → Option ℤ → ℕ → Tables → Outcome MessagePageResult × Tables
  pub add_contact : Bytes → Bytes → Tables → Outcome ContactAddResult × Tables
  pub list_contacts : Bytes → ℤ → ℕ → Tables → Outcome ContactListResult × Tables
  pub search_users : Bytes → Bytes → ℤ → ℕ → Tables → Outcome UserSearchResult × Tables
  pub search_groups : Bytes → Bytes → ℤ → ℕ → Tables → Outcome GroupSearchResult × Tables
  pub create_group : Bytes → Bytes → Tables → Outcome GroupCreationResult × Tables
  pub join_group : Bytes → ℤ → Tables → Outcome GroupJoinResult × Tables
  pub list_groups_for_user : Bytes → ℤ → ℕ → Tables → Outcome GroupListResult × Tables
