-- ===== src/Discovery/Page.antt =====
-- The pages that serverf/discovery_protocol.cpp writes. processContactList, processUserSearch and
-- processGroupSearch fill them by the same loop, over entries of their own.
use protected_chat.Prelude.{
  Bool, true, false, not, ◌||◌, Option, none, some, List, [], ◌∷◌, ◌++◌, String, Bytes, is_nil, leb,
  if◌then◌else◌,
}
use protected_chat.Prelude.Int.{ℤ}
use protected_chat.Json.Writer.{Writer}
use protected_chat.Routing.Messages.{word}
use protected_chat.Routing.Page.{maximum_response_bytes}
use protected_chat.Discovery.Results.{UserSummary, UserSearchEntry, GroupSearchEntry}

module _ (w : Writer) where
  abbrev pub contact_value : UserSummary → w.Value
  contact_value contact =
      w.object (("user_id", w.integer contact.id) ∷ ("username", w.text contact.username) ∷ [])

  abbrev pub user_value : UserSearchEntry → w.Value
  user_value entry = w.object (
      ("user_id", w.integer entry.user.id)
      ∷ ("username", w.text entry.user.username)
      ∷ ("is_contact", w.boolean entry.is_contact)
      ∷ [])

  abbrev pub group_value : GroupSearchEntry → w.Value
  group_value entry = w.object (
      ("group_id", w.integer entry.group.id)
      ∷ ("name", w.text entry.group.name)
      ∷ ("is_member", w.boolean entry.is_member)
      ∷ [])

  -- responseFits; `none` where dump throws
  unfoldable pub response_fits : w.Value → Option Bool
  response_fits response = elim (w.dump_size response) [
    | none ↦ none
    | some size ↦ some (leb size maximum_response_bytes)
  ]

  -- What of a response changes while it grows.
  pub record EntryPage : Type 0 where
    pub records : List w.Value
    pub following : ℤ
    pub has_more : Bool

  -- What the handlers differ in: the words of the response, the fields that hold the query, the
  -- entries and the cursor, and how an entry is written.
  pub record PageKind (A : Type 0) : Type 0 where
    pub operation : String
    pub code : String
    pub description : String
    pub query : List (String × w.Value)
    pub entries_field : String
    pub cursor_field : String
    pub id : A → ℤ
    pub value : A → w.Value

  module _ {A : Type 0} (k : PageKind A) where
    abbrev pub page_fields_of : EntryPage → List (String × w.Value)
    page_fields_of r =
        ("status", word w "SUCCESS")
        ∷ ("operation", word w k.operation)
        ∷ ("code", word w k.code)
        ∷ ("message", word w k.description)
        ∷ (k.entries_field, w.array r.records)
        ∷ (k.cursor_field, w.integer r.following)
        ∷ ("has_more", w.boolean r.has_more)
        ∷ k.query

    abbrev pub page_value : EntryPage → w.Value
    page_value r = w.object (page_fields_of r)

    -- The candidate that holds the entry `a`, where `rest` follows in the database's page.
    abbrev pub entry_candidate : Bool → List A → EntryPage → A → EntryPage
    entry_candidate more rest r a = record {
      records = r.records ++ k.value a ∷ [];
      following = k.id a;
      has_more = not (is_nil rest) || more;
    }

    -- The loop; `none` is the failure RECORD_UNREPRESENTABLE.
    unfoldable pub add_entries : Bool → List A → EntryPage → Option EntryPage
    add_entries more [] r = some r
    add_entries more (a ∷ rest) r =
        elim (response_fits (page_value (entry_candidate more rest r a))) [
          | none ↦ none
          | some fits ↦ elim fits [
            | true ↦ add_entries more rest (entry_candidate more rest r a)
            | false ↦ if is_nil r.records then none else some (record r { has_more = true })
          ]
        ]

    unfoldable pub entry_page : ℤ → List A → Bool → Option EntryPage
    unfolding add_entries
    entry_page after entries more =
        add_entries more entries (record { records = []; following = after; has_more = more })

  abbrev pub contacts_kind : PageKind UserSummary
  contacts_kind = record {
    operation = "CONTACT_LIST";
    code = "CONTACTS_PAGE";
    description = "Contacts";
    query = [];
    entries_field = "contacts";
    cursor_field = "next_after_user_id";
    id = λ contact. contact.id;
    value = contact_value;
  }

  abbrev pub users_kind : Bytes → PageKind UserSearchEntry
  users_kind query = record {
    operation = "USER_SEARCH";
    code = "USERS_PAGE";
    description = "User search results";
    query = ("query", w.text query) ∷ [];
    entries_field = "users";
    cursor_field = "next_after_user_id";
    id = λ entry. entry.user.id;
    value = user_value;
  }

  abbrev pub groups_kind : Bytes → PageKind GroupSearchEntry
  groups_kind query = record {
    operation = "GROUP_SEARCH";
    code = "GROUPS_PAGE";
    description = "Group search results";
    query = ("query", w.text query) ∷ [];
    entries_field = "groups";
    cursor_field = "next_after_group_id";
    id = λ entry. entry.group.id;
    value = group_value;
  }
