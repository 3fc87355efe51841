-- ===== src/Agreement/Discovery.antt =====
-- The pages of contacts, users and groups that the server writes, under the client's
-- validDiscoveryResponse.
use protected_chat.Prelude.{refl, arith, true, false, [], ◌∷◌, Bytes, bytes_eq}
use protected_chat.Json.{Json}
use protected_chat.Json.Writer.{Writer}
use protected_chat.Json.Wire.{Wire, names_allowed, contains_only_fields-object}
use protected_chat.Agreement.Reads.{read_written, string_written, boolean_written, positive_written}
use protected_chat.Agreement.Entries.{EntriesRead}
use protected_chat.Client.Discovery.{
  valid_user_summary, valid_group_summary, summary_fields, group_fields,
}
use protected_chat.Discovery.Page.{contacts_kind, users_kind, groups_kind}

module _ (w : Writer) (j : Json) (wire : Wire w j) where
  pub contacts_read :
      EntriesRead w j wire (contacts_kind w) (λ v. valid_user_summary j v false) "user_id"
  unfolding valid_user_summary names_allowed bytes_eq
  contacts_read a h =
      let fields = ("user_id", w.integer a.id) ∷ ("username", w.text a.username) ∷ [] in
      (
        ground (
          arith,
          wire.object_is_object fields,
          contains_only_fields-object w j wire fields (summary_fields false) refl,
          positive_written w j wire fields "user_id" a.id refl h,
          string_written w j wire fields "username" a.username refl,
        ),
        read_written w j wire fields "user_id" 1 a.id refl h,
      )

  pub users_read :
      (query : Bytes)
      → EntriesRead w j wire (users_kind w query) (λ v. valid_user_summary j v true) "user_id"
  unfolding valid_user_summary names_allowed bytes_eq
  users_read query a h =
      let fields =
        ("user_id", w.integer a.user.id)
        ∷ ("username", w.text a.user.username)
        ∷ ("is_contact", w.boolean a.is_contact)
        ∷ [] in
      (
        ground (
          arith,
          wire.object_is_object fields,
          contains_only_fields-object w j wire fields (summary_fields true) refl,
          positive_written w j wire fields "user_id" a.user.id refl h,
          string_written w j wire fields "username" a.user.username refl,
          boolean_written w j wire fields "is_contact" a.is_contact refl,
        ),
        read_written w j wire fields "user_id" 1 a.user.id refl h,
      )

  pub groups_read :
      (query : Bytes)
      → EntriesRead w j wire (groups_kind w query) (valid_group_summary j) "group_id"
  unfolding valid_group_summary names_allowed bytes_eq
  groups_read query a h =
      let fields =
        ("group_id", w.integer a.group.id)
        ∷ ("name", w.text a.group.name)
        ∷ ("is_member", w.boolean a.is_member)
        ∷ [] in
      (
        ground (
          arith,
          wire.object_is_object fields,
          contains_only_fields-object w j wire fields group_fields refl,
          string_written w j wire fields "name" a.group.name refl,
          boolean_written w j wire fields "is_member" a.is_member refl,
        ),
        read_written w j wire fields "group_id" 1 a.group.id refl h,
      )
