-- ===== src/Agreement/Envelope.antt =====
-- The envelope that the server makes of a stored message, under the client's validDeliveryEnvelope.
use protected_chat.Prelude.{
  Bool, Option, ◌∷◌, true, List, String, [], ◌≡◌, some, ◌++◌, arith, ◌≢◌, none, refl, codes,
  bytes_eq_refl, if◌then◌else◌, ◌∙◌, ap, false, bytes_eq,
}
use protected_chat.Json.{Json, read_signed_integer, one_of}
use protected_chat.Json.Writer.{Writer}
use protected_chat.Json.Wire.{Wire, contains_only_fields-object, names_allowed}
use protected_chat.Routing.Messages.{
  private_message, group_message, broadcast_message, DeliveryMessage, DurableMessageKind,
  common_fields, kind_text, group_field, delivery_envelope,
}
use protected_chat.Client.Envelope.{valid_delivery_envelope, envelope_fields}
use protected_chat.Agreement.Reads.{
  nonempty_written, positive_written, AtLeast, text_written, nonnegative_written, among_written,
  read_written, lacks_written,
}
use protected_chat.Prelude.Int.{ℤ}
use protected_chat.Client.Fields.{lacks, has_positive, string_is_one_of, has_text}

-- The group id that a message of the kind has.
abbrev pub GroupFits : DurableMessageKind → Option ℤ → Type 0
GroupFits group_message none = ⊥
GroupFits group_message (some id) = AtLeast 1 id
GroupFits private_message group_id = Unit
GroupFits broadcast_message group_id = Unit

-- A message as the tables hold it.
pub record Deliverable (d : DeliveryMessage) : Type 0 where
  pub id : AtLeast 1 d.message.id
  pub sender_id : AtLeast 1 d.message.sender_id
  pub created_at : AtLeast 0 d.message.created_at
  pub sender : d.sender_username ≢ []
  pub content : d.message.content ≢ []
  pub group : GroupFits d.message.kind d.message.group_id

module _ (w : Writer) (j : Json) (wire : Wire w j) (d : DeliveryMessage) (ok : Deliverable d) where
  -- The envelope with the fields `group` beside those that every envelope has.
  abbrev fields_with : List (String × w.Value) → List (String × w.Value)
  fields_with group = common_fields w d ++ group

  module _ (group : List (String × w.Value)) (is_group : Bool) where
    common_valid :
        has_text j (wire.parsed (w.object (fields_with group))) "kind" "GROUP" ≡ is_group
        → names_allowed (fields_with group) (envelope_fields is_group) ≡ true
        → string_is_one_of j
            (wire.parsed (w.object (fields_with group)))
            "kind"
            ("PRIVATE" ∷ "GROUP" ∷ "BROADCAST" ∷ [])
          ≡ true
        → (if is_group
            then has_positive j (wire.parsed (w.object (fields_with group))) "group_id"
            else lacks j (wire.parsed (w.object (fields_with group))) "group_id")
          ≡ true
        → valid_delivery_envelope j (wire.parsed (w.object (fields_with group))) ≡ true
    unfolding valid_delivery_envelope
    common_valid kind names among last =
        let fields = fields_with group in
        ground (
          arith,
          kind,
          contains_only_fields-object w j wire fields (envelope_fields is_group) names,
          text_written w j wire fields "type" "MESSAGE" "MESSAGE" refl,
          bytes_eq_refl (codes "MESSAGE"),
          nonempty_written w j wire fields "sender" d.sender_username refl ok.sender,
          nonempty_written w j wire fields "content" d.message.content refl ok.content,
          among,
          positive_written w j wire fields "message_id" d.message.id refl ok.id,
          positive_written w j wire fields "sender_id" d.message.sender_id refl ok.sender_id,
          nonnegative_written w j wire fields "created_at" d.message.created_at refl ok.created_at,
          last,
        )

  -- What the client reads of the envelope.
  abbrev pub Accepted : w.Value → Type 0
  Accepted v =
      (delivery_envelope w d ≡ some v)
      × (valid_delivery_envelope j (wire.parsed v) ≡ true)
      × (read_signed_integer j (wire.parsed v) "message_id" ≡ some d.message.id)

  id_read :
      (group : List (String × w.Value))
      → read_signed_integer j (wire.parsed (w.object (fields_with group))) "message_id"
        ≡ some d.message.id
  id_read group = read_written w j wire (fields_with group) "message_id" 1 d.message.id refl ok.id

  kind_is :
      (group : List (String × w.Value)) (kind : DurableMessageKind)
      → d.message.kind ≡ kind
      → has_text j (wire.parsed (w.object (fields_with group))) "kind" "GROUP"
        ≡ bytes_eq (codes (kind_text kind)) (codes "GROUP")
  kind_is group kind e =
      text_written w j wire (fields_with group) "kind" (kind_text d.message.kind) "GROUP" refl
      ∙ ap (λ k. bytes_eq (codes (kind_text k)) (codes "GROUP")) e

  kind_among :
      (group : List (String × w.Value)) (kind : DurableMessageKind)
      → d.message.kind ≡ kind
      → string_is_one_of j
          (wire.parsed (w.object (fields_with group)))
          "kind"
          ("PRIVATE" ∷ "GROUP" ∷ "BROADCAST" ∷ [])
        ≡ one_of (codes (kind_text kind)) ("PRIVATE" ∷ "GROUP" ∷ "BROADCAST" ∷ [])
  kind_among group kind e =
      among_written w j wire (fields_with group) "kind" (kind_text d.message.kind)
        ("PRIVATE" ∷ "GROUP" ∷ "BROADCAST" ∷ []) refl
      ∙ ap (λ k. one_of (codes (kind_text k)) ("PRIVATE" ∷ "GROUP" ∷ "BROADCAST" ∷ [])) e

  written :
      (kind : DurableMessageKind) (group : List (String × w.Value))
      → d.message.kind ≡ kind
      → group_field w d.message.kind d.message.group_id ≡ some group
      → delivery_envelope w d ≡ some (w.object (fields_with group))
  unfolding delivery_envelope
  written kind group e g = ground (arith, g)

  by_kind :
      (kind : DurableMessageKind) (group_id : Option ℤ)
      → d.message.kind ≡ kind
      → d.message.group_id ≡ group_id
      → GroupFits kind group_id
      → (v : w.Value) × Accepted v
  unfolding bytes_eq names_allowed
  by_kind private_message group_id e g fits = (
    w.object (fields_with []),
    (
      written private_message [] e (rw e refl),
      common_valid [] false (kind_is [] private_message e) refl (kind_among [] private_message e)
          (lacks_written w j wire (fields_with []) "group_id" refl),
      id_read [],
    ),
  )
  by_kind broadcast_message group_id e g fits = (
    w.object (fields_with []),
    (
      written broadcast_message [] e (rw e refl),
      common_valid [] false (kind_is [] broadcast_message e) refl
          (kind_among [] broadcast_message e)
          (lacks_written w j wire (fields_with []) "group_id" refl),
      id_read [],
    ),
  )
  by_kind group_message none e g fits = absurd fits
  by_kind group_message (some id) e g fits =
      let group = ("group_id", w.integer id) ∷ [] in
      (
        w.object (fields_with group),
        (
          written group_message group e (rw (e, g) refl),
          common_valid group true (kind_is group group_message e) refl
              (kind_among group group_message e)
              (positive_written w j wire (fields_with group) "group_id" id refl fits),
          id_read group,
        ),
      )

-- For a stored message with positive ids below 2 ^ 63, a sender's name and a content that are not
-- empty, and a group id where it is of a group: deliveryEnvelope does not throw, and the client takes
-- what it receives of the envelope as valid, with the message's id.
pub delivery_envelope-Accepted :
    (w : Writer) (j : Json) (wire : Wire w j) (d : DeliveryMessage) (ok : Deliverable d)
    → (v : w.Value) × Accepted w j wire d ok v
delivery_envelope-Accepted w j wire d ok =
    by_kind w j wire d ok d.message.kind d.message.group_id refl refl ok.group
