-- ===== src/Agreement/History.antt =====
-- A page of messages that the server writes, under the client's validHistoryPage.
use protected_chat.Prelude.{
  List, refl, ◌++◌, ◌∷◌, map, ◌≡◌, [], some, true, arith, sym, subst, String, ap, ◌∙◌, ℕ,
  bytes_eq_refl, codes, bytes_eq,
}
use protected_chat.Json.{Json, read_signed_integer}
use protected_chat.Json.Writer.{Writer}
use protected_chat.Json.Wire.{Wire, names_allowed, contains_only_fields-object}
use protected_chat.Routing.Messages.{
  DeliveryMessage, delivery_envelope, page_ready, MessagePageResult,
}
use protected_chat.Agreement.Envelope.{Deliverable, delivery_envelope-Accepted}
use protected_chat.Prelude.Int.{ltb_ℤ, ℤ, leb_ℤ, pos, negsuc}
use protected_chat.Routing.Prefix.{last_id, Envelopes, PrefixOf, page_response-PrefixOf}
use protected_chat.Client.Envelope.{
  page_record, page_records, bounds_agree, cursor_agrees, page_fields, valid_history_page,
}
use protected_chat.Routing.Page.{response_value, response_fields, page_response, PageResponse}
use protected_chat.Agreement.Reads.{
  AtLeast, boolean_written, string_written, read_written, text_written, array_written,
}
use protected_chat.Client.Fields.{array_field}
use protected_chat.Buffer.Key.{eq_ℤ}

-- The messages of a page as the database gives them: their ids ascend, above `previous` and not above
-- `through`.
abbrev pub AscendsTo : ℤ → ℤ → List DeliveryMessage → Type 0
AscendsTo through previous [] = leb_ℤ previous through ≡ true
AscendsTo through previous (d ∷ messages) =
    Deliverable d × (ltb_ℤ previous d.message.id ≡ true) × AscendsTo through d.message.id messages

pub AscendsTo-bound :
    (through previous : ℤ) (messages : List DeliveryMessage)
    → AscendsTo through previous messages
    → leb_ℤ previous through ≡ true
AscendsTo-bound through previous [] h = h
AscendsTo-bound through previous (d ∷ messages) h =
    ground (arith, h.1, AscendsTo-bound through d.message.id messages h.2)

-- A first part of such a page is one too.
AscendsTo-prefix :
    (through previous : ℤ) (kept cut : List DeliveryMessage)
    → AscendsTo through previous (kept ++ cut)
    → AscendsTo through previous kept
AscendsTo-prefix through previous [] cut h = AscendsTo-bound through previous cut h
AscendsTo-prefix through previous (d ∷ kept) cut h =
    (h.0, h.1, AscendsTo-prefix through d.message.id kept cut h.2)

last_id-bound :
    (through previous : ℤ) (messages : List DeliveryMessage)
    → AscendsTo through previous messages
    → (leb_ℤ previous (last_id previous messages) ≡ true)
      × (leb_ℤ (last_id previous messages) through ≡ true)
last_id-bound through previous [] h = (ground arith, h)
last_id-bound through previous (d ∷ messages) h =
    let rest = last_id-bound through d.message.id messages h.2 in
    (ground (arith, h.1, rest), rest.1)

AscendsTo-below :
    (through lower previous : ℤ) (messages : List DeliveryMessage)
    → leb_ℤ lower previous ≡ true
    → AscendsTo through previous messages
    → AscendsTo through lower messages
AscendsTo-below through lower previous [] below h = ground (arith, below, h)
AscendsTo-below through lower previous (d ∷ messages) below h =
    (h.0, ground (arith, below, h.1), h.2)

AtLeast-between :
    (low : ℕ) (a z t : ℤ)
    → AtLeast low a
    → AtLeast 0 t
    → leb_ℤ a z ≡ true
    → leb_ℤ z t ≡ true
    → AtLeast low z
AtLeast-between low (pos a) (pos n) (pos t) h k above below =
    (ground (arith, h, above), ground (arith, k, below))
AtLeast-between low (pos a) (negsuc n) (pos t) h k above below = ground (arith, above)
AtLeast-between low (negsuc a) z t h k above below = absurd h
AtLeast-between low (pos a) z (negsuc t) h k above below = absurd k

pub AtLeast-leb : (z : ℤ) → AtLeast 0 z → leb_ℤ (pos 0) z ≡ true
AtLeast-leb (pos n) h = ground arith
AtLeast-leb (negsuc n) h = absurd h

pub eq_ℤ_refl : (z : ℤ) → eq_ℤ z z ≡ true
eq_ℤ_refl (pos n) = ground arith
eq_ℤ_refl (negsuc n) = ground arith

-- A page as the database answers it, for a cursor `after`.
pub record IsPage (through after : ℤ) (page : MessagePageResult) : Type 0 where
  pub ready : page.status ≡ page_ready
  pub ends_at : page.through_message_id ≡ through
  pub cursor : AtLeast 0 after
  pub end_fits : AtLeast 0 through
  pub ascends : AscendsTo through after page.messages

module _ (w : Writer) (j : Json) (wire : Wire w j) (through : ℤ) where
  pub page_record-Accepted :
      (previous : ℤ) (d : DeliveryMessage) (v : w.Value)
      → Deliverable d
      → delivery_envelope w d ≡ some v
      → ltb_ℤ previous d.message.id ≡ true
      → leb_ℤ d.message.id through ≡ true
      → page_record j through previous (wire.parsed v) ≡ some d.message.id
  unfolding page_record
  page_record-Accepted previous d v ok e above within =
      let (v', (accepted, valid, id)) = delivery_envelope-Accepted w j wire d ok in
      let same : v' ≡ v = ground (arith, accepted, e) in
      ground (arith, same, valid, id, above, within)

  pub page_records-Envelopes :
      (previous : ℤ) (kept : List DeliveryMessage) (vs : List w.Value)
      → AscendsTo through previous kept
      → Envelopes w kept vs
      → page_records j through previous (map wire.parsed vs) ≡ some (last_id previous kept)
  unfolding page_records
  page_records-Envelopes previous [] [] h e = refl
  page_records-Envelopes previous [] (v ∷ vs) h e = absurd e
  page_records-Envelopes previous (d ∷ kept) [] h e = absurd e
  page_records-Envelopes previous (d ∷ kept) (v ∷ vs) h e =
      let bound = AscendsTo-bound through d.message.id kept h.2 in
      ground (
        arith,
        page_record-Accepted previous d v h.0 e.0 h.1 bound,
        page_records-Envelopes d.message.id kept vs h.2 e.1,
      )

  cursor_agrees-Envelopes :
      (after following : ℤ) (kept : List DeliveryMessage) (vs : List w.Value)
      → AscendsTo through (pos 0) kept
      → Envelopes w kept vs
      → following ≡ last_id after kept
      → cursor_agrees j following
          (map wire.parsed vs)
          (page_records j through (pos 0) (map wire.parsed vs))
        ≡ true
  unfolding page_records
  cursor_agrees-Envelopes after following [] [] h e same = refl
  cursor_agrees-Envelopes after following [] (v ∷ vs) h e same = absurd e
  cursor_agrees-Envelopes after following (d ∷ kept) [] h e same = absurd e
  cursor_agrees-Envelopes after following (d ∷ kept) (v ∷ vs) h e same =
      subst (λ o. cursor_agrees j following (map wire.parsed (v ∷ vs)) o ≡ true)
        (sym (page_records-Envelopes (pos 0) (d ∷ kept) (v ∷ vs) h e))
        (ap (λ z. eq_ℤ z (last_id d.message.id kept)) same ∙ eq_ℤ_refl (last_id d.message.id kept))

  module _ (operation code description : String) (after : ℤ) (page : MessagePageResult)
      (r : PageResponse w) (is_page : IsPage through after page)
      (e : page_response w operation code description through after page ≡ some r) where
    abbrev pub fields : List (String × w.Value)
    fields = response_fields w operation code description through r

    abbrev pub reply : j.Value
    reply = wire.parsed (response_value w operation code description through r)

    abbrev pub kept : List DeliveryMessage
    kept = (page_response-PrefixOf w operation code description through after page r e).0

    abbrev pub prefix : PrefixOf w operation code description through after page kept r
    prefix = (page_response-PrefixOf w operation code description through after page r e).1

    pub kept-AscendsTo : AscendsTo through after kept
    kept-AscendsTo =
        AscendsTo-prefix through after kept prefix.0
          (subst (AscendsTo through after) (sym prefix.1) is_page.ascends)

    pub next_bound :
        (leb_ℤ after r.next_after_message_id ≡ true)
        × (leb_ℤ r.next_after_message_id through ≡ true)
    next_bound =
        let bound = last_id-bound through after kept kept-AscendsTo in
        ground (arith, bound, prefix.3)

    pub next_fits : AtLeast 0 r.next_after_message_id
    next_fits =
        AtLeast-between 0 after r.next_after_message_id through is_page.cursor is_page.end_fits
          next_bound.0 next_bound.1

    bounds_accepted :
        bounds_agree j
          (read_signed_integer j reply "through_message_id")
          (read_signed_integer j reply "next_after_message_id")
          (array_field j reply "messages")
        ≡ true
    bounds_accepted =
        let records = map wire.parsed r.records in
        let agrees =
          cursor_agrees-Envelopes after r.next_after_message_id kept r.records
            (AscendsTo-below through (pos 0) after kept (AtLeast-leb after is_page.cursor)
              kept-AscendsTo)
            prefix.2 prefix.3 in
        ground (
          arith,
          read_written w j wire fields "through_message_id" 0 through refl is_page.end_fits,
          read_written w j wire fields "next_after_message_id" 0 r.next_after_message_id refl
              next_fits,
          array_written w j wire fields "messages" r.records refl,
          AtLeast-leb through is_page.end_fits,
          AtLeast-leb r.next_after_message_id next_fits,
          next_bound,
          agrees,
        )

pub response_names :
    (w : Writer) (operation code description : String) (through : ℤ) (r : PageResponse w)
    → names_allowed (response_fields w operation code description through r) page_fields ≡ true
unfolding names_allowed bytes_eq
response_names w operation code description through r = refl

-- For a page of the database whose ids ascend from the request's cursor to the watermark and whose
-- messages are deliverable: where writePage answers HISTORY with a page, the client takes what it
-- receives as a valid page.
pub page_response-valid_history_page :
    (w : Writer) (j : Json) (wire : Wire w j) (through after : ℤ) (page : MessagePageResult)
    (description : String) (r : PageResponse w)
    → IsPage through after page
    → page_response w "HISTORY" "HISTORY_PAGE" description through after page ≡ some r
    → valid_history_page j
        (wire.parsed (response_value w "HISTORY" "HISTORY_PAGE" description through r))
      ≡ true
unfolding valid_history_page
page_response-valid_history_page w j wire through after page description r is_page e =
    let fields = response_fields w "HISTORY" "HISTORY_PAGE" description through r in
    ground (
      arith,
      contains_only_fields-object w j wire fields page_fields
          (response_names w "HISTORY" "HISTORY_PAGE" description through r),
      text_written w j wire fields "status" "SUCCESS" "SUCCESS" refl,
      text_written w j wire fields "operation" "HISTORY" "HISTORY" refl,
      text_written w j wire fields "code" "HISTORY_PAGE" "HISTORY_PAGE" refl,
      bytes_eq_refl (codes "SUCCESS"),
      bytes_eq_refl (codes "HISTORY"),
      bytes_eq_refl (codes "HISTORY_PAGE"),
      string_written w j wire fields "message" (codes description) refl,
      boolean_written w j wire fields "has_more" r.has_more refl,
      bounds_accepted w j wire through "HISTORY" "HISTORY_PAGE" description after page r is_page e,
    )
