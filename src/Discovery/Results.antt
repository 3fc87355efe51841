-- ===== src/Discovery/Results.antt =====
-- What the database answers to discovery and to the requests of groups (database.h).
use protected_chat.Prelude.{Bool, Option, List, Bytes}
use protected_chat.Prelude.Int.{ℤ}

pub data ContactAddStatus : Type 0 where
  added already_contact owner_not_found contact_not_found self_contact_not_allowed :
      ContactAddStatus

pub data DiscoveryReadStatus : Type 0 where
  read_ready actor_not_found : DiscoveryReadStatus

pub record GroupSummary : Type 0 where
  pub id : ℤ
  pub name : Bytes

pub record UserSummary : Type 0 where
  pub id : ℤ
  pub username : Bytes

pub record UserSearchEntry : Type 0 where
  pub user : UserSummary
  pub is_contact : Bool

pub record GroupSearchEntry : Type 0 where
  pub group : GroupSummary
  pub is_member : Bool

pub record ContactAddResult : Type 0 where
  pub status : ContactAddStatus
  pub contact : Option UserSummary

pub record ContactListResult : Type 0 where
  pub status : DiscoveryReadStatus
  pub contacts : List UserSummary
  pub has_more : Bool

pub record UserSearchResult : Type 0 where
  pub status : DiscoveryReadStatus
  pub users : List UserSearchEntry
  pub has_more : Bool

pub record GroupSearchResult : Type 0 where
  pub status : DiscoveryReadStatus
  pub groups : List GroupSearchEntry
  pub has_more : Bool

pub data GroupCreationStatus : Type 0 where
  created duplicate_name creator_not_found : GroupCreationStatus

pub data GroupJoinResult : Type 0 where
  joined already_member group_missing user_missing : GroupJoinResult

pub data GroupListStatus : Type 0 where
  listed list_user_missing : GroupListStatus

pub record GroupCreationResult : Type 0 where
  pub status : GroupCreationStatus
  pub group : Option GroupSummary

pub record GroupListResult : Type 0 where
  pub status : GroupListStatus
  pub groups : List GroupSummary
  pub has_more : Bool
