-- ===== src/Agreement/Pending.antt =====
-- A page of pending messages that the server writes, under the client's processPendingPage.
use protected_chat.Prelude.{
  ◌≡◌, refl, arith, Bool, true, false, not, ◌&&◌, ◌||◌, List, [], ◌∷◌, map, some, String, is_nil,
  bytes_eq_refl, codes, ◌⊎◌, ◌++◌,
}
use protected_chat.Prelude.Int.{ℤ, ltb_ℤ}
use protected_chat.Json.{Json}
use protected_chat.Json.Writer.{Writer}
use protected_chat.Json.Wire.{Wire, contains_only_fields-object}
use protected_chat.Agreement.History.{
  IsPage, AscendsTo, AscendsTo-bound, page_record-Accepted, kept, kept-AscendsTo, prefix, next_fits,
  eq_ℤ_refl, AtLeast-leb, response_names,
}
use protected_chat.Routing.Page.{response_fields, page_response, PageResponse}
use protected_chat.Client.Envelope.{page_fields}
use protected_chat.Agreement.Reads.{read_written, boolean_written, text_written, array_written}
use protected_chat.Routing.Prefix.{last_id, Envelopes}
use protected_chat.Client.Pending.{
  last_of, PageHead, page_ids, page_head, process_pending_page, accepted_ids, process_accepted,
  agrees,
}
use protected_chat.Routing.Messages.{DeliveryMessage, MessagePageResult}
use protected_chat.Client.Requests.{Surroundings}
use protected_chat.Client.Accepted.{process_pending_page-accepted}
use protected_chat.Client.State.{ClientConnection}

abbrev pub id_of : DeliveryMessage → ℤ
id_of d = d.message.id

last_of-last_id :
    (after : ℤ) (messages : List DeliveryMessage)
    → last_of after (map id_of messages) ≡ last_id after messages
last_of-last_id after [] = refl
last_of-last_id after (d ∷ messages) = last_of-last_id d.message.id messages

is_nil-map : (messages : List DeliveryMessage) → is_nil (map id_of messages) ≡ is_nil messages
is_nil-map [] = refl
is_nil-map (d ∷ messages) = refl

AscendsTo-below_end :
    (through previous : ℤ) (messages : List DeliveryMessage)
    → AscendsTo through previous messages
    → ltb_ℤ through previous ≡ false
AscendsTo-below_end through previous messages h =
    ground (arith, AscendsTo-bound through previous messages h)

no_stall :
    (more : Bool) (messages delivered cut : List DeliveryMessage) (has_more : Bool)
    → delivered ++ cut ≡ messages
    → has_more ≡ (more || not (is_nil cut))
    → (is_nil cut ≡ true) ⊎ (is_nil delivered ≡ false)
    → (more ≡ true → is_nil messages ≡ false)
    → (has_more && is_nil (map id_of delivered)) ≡ false
no_stall more messages (d ∷ delivered) cut has_more whole e some_kept h = ground arith
no_stall more messages [] [] has_more whole e some_kept h = ground (arith, whole, e, h)
no_stall more messages [] (d ∷ cut) has_more whole e some_kept h = ground (arith, some_kept)

module _ (w : Writer) (j : Json) (wire : Wire w j) (through : ℤ) where
  page_ids-Envelopes :
      (previous : ℤ) (messages : List DeliveryMessage) (vs : List w.Value)
      → AscendsTo through previous messages
      → Envelopes w messages vs
      → page_ids w j through previous (map wire.parsed vs) ≡ some (map id_of messages)
  unfolding page_ids
  page_ids-Envelopes previous [] [] h e = refl
  page_ids-Envelopes previous [] (v ∷ vs) h e = absurd e
  page_ids-Envelopes previous (d ∷ messages) [] h e = absurd e
  page_ids-Envelopes previous (d ∷ messages) (v ∷ vs) h e =
      let bound = AscendsTo-bound through d.message.id messages h.2 in
      ground (
        arith,
        page_record-Accepted w j wire through previous d v h.0 e.0 h.1 bound,
        page_ids-Envelopes d.message.id messages vs h.2 e.1,
      )

  module _ (description : String) (after : ℤ) (page : MessagePageResult) (r : PageResponse w)
      (is_page : IsPage through after page)
      (e : page_response w "SYNC_PENDING" "PENDING_PAGE" description through after page
        ≡ some r) where
    abbrev sent_fields : List (String × w.Value)
    sent_fields = response_fields w "SYNC_PENDING" "PENDING_PAGE" description through r

    -- What the client receives.
    abbrev pub received : j.Value
    received = wire.parsed (w.object sent_fields)

    -- The messages that the page delivers.
    abbrev pub delivered : List DeliveryMessage
    delivered =
        kept w j wire through "SYNC_PENDING" "PENDING_PAGE" description after page r is_page e

    abbrev pub head : PageHead
    head = record { through = through; following = r.next_after_message_id; more = r.has_more }

    head_read : page_head w j received ≡ some head
    unfolding page_head
    head_read =
        let cursor =
          next_fits w j wire through "SYNC_PENDING" "PENDING_PAGE" description after page r is_page
            e in
        ground (
          arith,
          contains_only_fields-object w j wire sent_fields page_fields
              (response_names w "SYNC_PENDING" "PENDING_PAGE" description through r),
          text_written w j wire sent_fields "code" "PENDING_PAGE" "PENDING_PAGE" refl,
          bytes_eq_refl (codes "PENDING_PAGE"),
          boolean_written w j wire sent_fields "has_more" r.has_more refl,
          wire.object_find sent_fields "has_more",
          wire.boolean_get_boolean r.has_more,
          read_written w j wire sent_fields "through_message_id" 0 through refl is_page.end_fits,
          read_written w j wire sent_fields "next_after_message_id" 0 r.next_after_message_id refl
              cursor,
          AtLeast-leb through is_page.end_fits,
          AtLeast-leb r.next_after_message_id cursor,
        )

    -- The connection waits for the page after `after`.
    pub record IsExpecting (c : ClientConnection w j) : Type 0 where
      pub active : c.pending_synchronization_active ≡ true
      pub cursor : c.pending_after_message_id ≡ after
      pub watermark : agrees c.pending_through_message_id through ≡ true

    -- A page that is empty says that no more follow.
    abbrev pub HasProgress : Type 0
    HasProgress = page.has_more ≡ true → is_nil page.messages ≡ false

    progress : HasProgress → (r.has_more && is_nil (map id_of delivered)) ≡ false
    progress h =
        let facts =
          prefix w j wire through "SYNC_PENDING" "PENDING_PAGE" description after page r is_page
            e in
        no_stall page.has_more page.messages delivered facts.0 r.has_more facts.1 facts.4 facts.5 h

    ids_accepted :
        (c : ClientConnection w j)
        → IsExpecting c
        → HasProgress
        → accepted_ids w j c head (map wire.parsed r.records) ≡ some (map id_of delivered)
    unfolding accepted_ids
    ids_accepted c expecting more =
        let facts =
          prefix w j wire through "SYNC_PENDING" "PENDING_PAGE" description after page r is_page
            e in
        let ascends =
          kept-AscendsTo w j wire through "SYNC_PENDING" "PENDING_PAGE" description after page r
            is_page e in
        ground (
          arith,
          expecting,
          AscendsTo-below_end through after delivered ascends,
          page_ids-Envelopes after delivered r.records ascends facts.2,
          last_of-last_id after delivered,
          facts.3,
          eq_ℤ_refl (last_id after delivered),
          progress more,
        )

    pub processed :
        (s : Surroundings w j) (c : ClientConnection w j)
        → IsExpecting c
        → HasProgress
        → process_pending_page w j s received c
          ≡ process_accepted w j s head (map wire.parsed r.records) (map id_of delivered) c
    processed s c expecting more =
        process_pending_page-accepted w j s received c head (map wire.parsed r.records)
          (map id_of delivered) head_read
          (array_written w j wire sent_fields "messages" r.records refl)
          (ids_accepted c expecting more)
