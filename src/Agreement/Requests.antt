-- ===== src/Agreement/Requests.antt =====
-- The requests that the client sends by itself, as the server's durable routing handles them.
use protected_chat.Prelude.{
  ◌≡◌, refl, arith, true, false, List, none, some, String, bytes_eq, Option,
}
use protected_chat.Prelude.Int.{ℤ, pos, negsuc, ltb_ℤ}
use protected_chat.Json.{Json}
use protected_chat.Json.Writer.{Writer, lookup}
use protected_chat.Json.Wire.{Wire, contains_only_fields-object, names_allowed}
use protected_chat.Agreement.Reads.{AtLeast, read_written}
use protected_chat.Client.Requests.{synchronization_fields, continuation_fields}
use protected_chat.Routing.Requests.{
  read_through, nonnegative, page_request_fields, read_limit, read_after, read_page_request,
  positive,
}

nonnegative-AtLeast : (z : ℤ) → AtLeast 0 z → nonnegative (some z) ≡ some z
nonnegative-AtLeast (pos n) h = ground arith
nonnegative-AtLeast (negsuc n) h = absurd h

pub positive-AtLeast : (z : ℤ) → AtLeast 1 z → positive (some z) ≡ some z
positive-AtLeast (pos n) h = ground (arith, h)
positive-AtLeast (negsuc n) h = absurd h

module _ (w : Writer) (j : Json) (wire : Wire w j) where
  module _ (fields : List (String × w.Value)) where
    abbrev got : j.Value
    got = wire.parsed (w.object fields)

    read_after_written :
        (z : ℤ)
        → lookup "after_message_id" fields ≡ some (w.integer z)
        → AtLeast 0 z
        → read_after j got ≡ some z
    unfolding read_after
    read_after_written z e h = ground (
      arith,
      wire.object_find fields "after_message_id",
      e,
      read_written w j wire fields "after_message_id" 0 z e h,
      nonnegative-AtLeast z h,
    )

    read_through_written :
        (z after : ℤ)
        → lookup "through_message_id" fields ≡ some (w.integer z)
        → AtLeast 0 z
        → ltb_ℤ z after ≡ false
        → read_through j got after ≡ some (some z)
    unfolding read_through
    read_through_written z after e h above = ground (
      arith,
      wire.object_find fields "through_message_id",
      e,
      read_written w j wire fields "through_message_id" 0 z e h,
      nonnegative-AtLeast z h,
      above,
    )

    read_through_absent :
        lookup "through_message_id" fields ≡ none → read_through j got (pos 0) ≡ some none
    unfolding read_through
    read_through_absent e = ground (arith, wire.object_find fields "through_message_id", e)

    read_limit_written :
        lookup "limit" fields ≡ some (w.integer (pos 50)) → read_limit j got ≡ some 50
    unfolding read_limit
    read_limit_written e = ground (
      arith,
      wire.object_find fields "limit",
      e,
      read_written w j wire fields "limit" 0 (pos 50) e (omega arith, omega arith),
    )

    page_request_written :
        (after : ℤ) (through : Option ℤ)
        → names_allowed fields page_request_fields ≡ true
        → read_after j got ≡ some after
        → read_through j got after ≡ some through
        → lookup "limit" fields ≡ some (w.integer (pos 50))
        → read_page_request j got
          ≡ some (record { after_message_id = after; through_message_id = through; limit = 50 })
    unfolding read_page_request
    page_request_written after through names after_read through_read e = ground (
      arith,
      contains_only_fields-object w j wire fields page_request_fields names,
      after_read,
      through_read,
      read_limit_written e,
    )

  pub synchronization_read :
      read_page_request j (wire.parsed (w.object (synchronization_fields w (pos 0))))
      ≡ some (record { after_message_id = pos 0; through_message_id = none; limit = 50 })
  unfolding names_allowed bytes_eq
  synchronization_read =
      let fields = synchronization_fields w (pos 0) in
      page_request_written fields (pos 0) none refl
        (read_after_written fields (pos 0) refl (omega arith, omega arith))
        (read_through_absent fields refl) refl

  pub continuation_read :
      (after through : ℤ)
      → AtLeast 0 after
      → AtLeast 0 through
      → ltb_ℤ through after ≡ false
      → read_page_request j (wire.parsed (w.object (continuation_fields w after through)))
        ≡ some (record { after_message_id = after; through_message_id = some through; limit = 50 })
  unfolding names_allowed bytes_eq
  continuation_read after through h k above =
      let fields = continuation_fields w after through in
      page_request_written fields after (some through) refl (read_after_written fields after refl h)
        (read_through_written fields through after refl k above) refl
