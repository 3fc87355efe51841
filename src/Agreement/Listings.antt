-- ===== src/Agreement/Listings.antt =====
-- Every page of contacts, of users and of groups that the server writes is valid for the client.
use protected_chat.Prelude.{
  ◌≤◌, ◌≡◌, refl, arith, Bool, true, false, List, Option, some, String, Bytes, length, bytes_eq,
  codes,
}
use protected_chat.Prelude.Int.{ℤ}
use protected_chat.Json.{Json}
use protected_chat.Json.Writer.{Writer}
use protected_chat.Json.Wire.{Wire, names_allowed}
use protected_chat.Agreement.Reads.{AtLeast, text_written, string_written}
use protected_chat.Agreement.Entries.{AscendsAbove, valid_page-entry_page}
use protected_chat.Agreement.Discovery.{contacts_read, users_read, groups_read}
use protected_chat.Client.Discovery.{
  valid_user_summary, valid_contact_list_response, contacts_fields, valid_group_summary,
  valid_discovery_response, users_fields, valid_group_search_response, groups_fields,
  valid_user_search_response,
}
use protected_chat.Discovery.Results.{UserSummary, UserSearchEntry, GroupSearchEntry}
use protected_chat.Discovery.Page.{
  EntryPage, PageKind, contacts_kind, users_kind, groups_kind, entry_page, page_value,
  page_fields_of,
}
use protected_chat.Client.Fields.{has_text}

-- What the database found, and for which query.
pub data Listing : Type 0 where
  contacts : List UserSummary → Listing
  users : Bytes → List UserSearchEntry → Listing
  groups : Bytes → List GroupSearchEntry → Listing

abbrev pub operation_of : Listing → String
operation_of (contacts l) = "CONTACT_LIST"
operation_of (users query l) = "USER_SEARCH"
operation_of (groups query l) = "GROUP_SEARCH"

module _ (w : Writer) (j : Json) (wire : Wire w j) where
  -- The page that the server makes of it.
  abbrev pub listing_page : Listing → ℤ → Bool → Option (EntryPage w)
  listing_page (contacts l) after more = entry_page w (contacts_kind w) after l more
  listing_page (users query l) after more = entry_page w (users_kind w query) after l more
  listing_page (groups query l) after more = entry_page w (groups_kind w query) after l more

  abbrev pub listing_value : Listing → EntryPage w → w.Value
  listing_value (contacts l) r = page_value w (contacts_kind w) r
  listing_value (users query l) r = page_value w (users_kind w query) r
  listing_value (groups query l) r = page_value w (groups_kind w query) r

  -- At most 100 entries, whose ids ascend above the cursor.
  abbrev FitsKind : {A : Type 0} → PageKind w A → ℤ → List A → Type 0
  FitsKind k after l = AtLeast 0 after × AscendsAbove w k after l × (length l ≤ 100)

  abbrev pub IsListing : Listing → ℤ → Type 0
  IsListing (contacts l) after = FitsKind (contacts_kind w) after l
  IsListing (users query l) after = FitsKind (users_kind w query) after l
  IsListing (groups query l) after = FitsKind (groups_kind w query) after l

  not_failed :
      {A : Type 0} (k : PageKind w A) (r : EntryPage w)
      → has_text j (wire.parsed (page_value w k r)) "status" "FAIL" ≡ false
  unfolding bytes_eq
  not_failed k r = text_written w j wire (page_fields_of w k r) "status" "SUCCESS" "FAIL" refl

  contacts_valid :
      (l : List UserSummary) (after : ℤ) (more : Bool) (r : EntryPage w)
      → IsListing (contacts l) after
      → listing_page (contacts l) after more ≡ some r
      → valid_contact_list_response j (wire.parsed (listing_value (contacts l) r)) ≡ true
  unfolding valid_contact_list_response names_allowed bytes_eq
  contacts_valid l after more r (low, ascends, short) e = ground (
    arith,
    not_failed (contacts_kind w) r,
    valid_page-entry_page w j wire (contacts_kind w) (λ v. valid_user_summary j v false) "user_id"
        (contacts_read w j wire) after l more r contacts_fields low ascends short e
        (refl, refl, refl, refl) refl,
  )

  users_valid :
      (query : Bytes) (l : List UserSearchEntry) (after : ℤ) (more : Bool) (r : EntryPage w)
      → IsListing (users query l) after
      → listing_page (users query l) after more ≡ some r
      → valid_user_search_response j (wire.parsed (listing_value (users query l) r)) ≡ true
  unfolding valid_user_search_response names_allowed bytes_eq
  users_valid query l after more r (low, ascends, short) e =
      let k = users_kind w query in
      ground (
        arith,
        not_failed k r,
        string_written w j wire (page_fields_of w k r) "query" query refl,
        valid_page-entry_page w j wire k (λ v. valid_user_summary j v true) "user_id"
            (users_read w j wire query) after l more r users_fields low ascends short e
            (refl, refl, refl, refl) refl,
      )

  groups_valid :
      (query : Bytes) (l : List GroupSearchEntry) (after : ℤ) (more : Bool) (r : EntryPage w)
      → IsListing (groups query l) after
      → listing_page (groups query l) after more ≡ some r
      → valid_group_search_response j (wire.parsed (listing_value (groups query l) r)) ≡ true
  unfolding valid_group_search_response names_allowed bytes_eq
  groups_valid query l after more r (low, ascends, short) e =
      let k = groups_kind w query in
      ground (
        arith,
        not_failed k r,
        string_written w j wire (page_fields_of w k r) "query" query refl,
        valid_page-entry_page w j wire k (valid_group_summary j) "group_id"
            (groups_read w j wire query) after l more r groups_fields low ascends short e
            (refl, refl, refl, refl) refl,
      )

  -- Where the database finds at most 100 contacts, users or groups with ids that ascend above the
  -- request's cursor, and the server answers with a page: the client takes what it receives as a valid
  -- response to the operation.
  pub listing_page-valid_discovery_response :
      (found : Listing) (after : ℤ) (more : Bool) (r : EntryPage w)
      → IsListing found after
      → listing_page found after more ≡ some r
      → valid_discovery_response j
          (wire.parsed (listing_value found r))
          (codes (operation_of found))
        ≡ true
  unfolding valid_discovery_response bytes_eq
  listing_page-valid_discovery_response (contacts l) after more r h e =
      contacts_valid l after more r h e
  listing_page-valid_discovery_response (users query l) after more r h e =
      users_valid query l after more r h e
  listing_page-valid_discovery_response (groups query l) after more r h e =
      groups_valid query l after more r h e
