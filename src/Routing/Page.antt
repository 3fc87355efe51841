-- ===== src/Routing/Page.antt =====
-- writePage of serverf/durable_routing.cpp: the answer to SYNC_PENDING and HISTORY.
use protected_chat.Prelude.{
  ℕ, Bool, false, String, some, Option, true, ◌++◌, ◌||◌, List, ◌∷◌, [], none, ltb, is_nil,
  if◌then◌else◌,
}
use protected_chat.Json.Writer.{Writer}
use protected_chat.Routing.Messages.{
  word, delivery_envelope, MessagePageResult, DeliveryMessage, page_user_not_found, page_ready,
}
use protected_chat.Prelude.Int.{ℤ}

abbrev pub maximum_response_bytes : ℕ
maximum_response_bytes = 1048576

module _ (w : Writer) where
  -- The response as it grows: the envelopes in "messages", and the fields that change.
  pub record PageResponse : Type 0 where
    pub records : List w.Value
    pub next_after_message_id : ℤ
    pub has_more : Bool

  -- The answer of writeFailure, without a message id and with one
  unfoldable pub failure : String → String → String → w.Value
  failure operation code message = w.object (
      ("status", word w "FAIL")
      ∷ ("operation", word w operation)
      ∷ ("code", word w code)
      ∷ ("message", word w message)
      ∷ [])

  unfoldable pub failure_of : String → String → String → ℤ → w.Value
  failure_of operation code message message_id = w.object (
      ("status", word w "FAIL")
      ∷ ("operation", word w operation)
      ∷ ("code", word w code)
      ∷ ("message", word w message)
      ∷ ("message_id", w.integer message_id)
      ∷ [])

  module _ (operation code description : String) (through : ℤ) where
    abbrev pub response_fields : PageResponse → List (String × w.Value)
    response_fields r =
        ("status", word w "SUCCESS")
        ∷ ("operation", word w operation)
        ∷ ("code", word w code)
        ∷ ("message", word w description)
        ∷ ("messages", w.array r.records)
        ∷ ("through_message_id", w.integer through)
        ∷ ("next_after_message_id", w.integer r.next_after_message_id)
        ∷ ("has_more", w.boolean r.has_more)
        ∷ []

    abbrev pub response_value : PageResponse → w.Value
    response_value r = w.object (response_fields r)

    -- response.dump().size() > MaximumResponseBytes; `none` where dump throws
    unfoldable pub too_large : PageResponse → Option Bool
    too_large r = elim (w.dump_size (response_value r)) [
      | none ↦ none
      | some size ↦ some (ltb maximum_response_bytes size)
    ]

    abbrev pub candidate : PageResponse → DeliveryMessage → w.Value → PageResponse
    candidate r d envelope = record {
      records = r.records ++ envelope ∷ [];
      next_after_message_id = d.message.id;
      has_more = true;
    }

    -- The loop over the page's messages: the response that is left, and omittedRecord. The failure
    -- RECORD_UNREPRESENTABLE is `none`.
    unfoldable pub add_records : List DeliveryMessage → PageResponse → Option (PageResponse × Bool)
    add_records [] r = some (r, false)
    add_records (d ∷ messages) r = elim (delivery_envelope w d) [
      | none ↦ none
      | some envelope ↦ elim (too_large (candidate r d envelope)) [
        | none ↦ none
        | some over ↦ elim over [
          | true ↦ if is_nil r.records then none else some (r, true)
          | false ↦ add_records messages (candidate r d envelope)
        ]
      ]
    ]

    -- What follows the loop.
    unfoldable pub finish_page : Bool → Option (PageResponse × Bool) → Option PageResponse
    finish_page more none = none
    finish_page more (some (r, omitted)) =
        let last = record r { has_more = more || omitted } in
        elim (too_large last) [ none ↦ none | some over ↦ if over then none else some last ]

    unfoldable pub page_response : ℤ → MessagePageResult → Option PageResponse
    unfolding add_records finish_page
    page_response after page = finish_page page.has_more (
        add_records page.messages
          (record { records = []; next_after_message_id = after; has_more = page.has_more }))

  -- What writePage writes.
  unfoldable pub page_reply : String → String → String → ℤ → MessagePageResult → w.Value
  unfolding page_response failure
  page_reply operation code description after page = elim page.status [
    | page_user_not_found ↦ failure operation "USER_NOT_FOUND" "Account not found"
    | page_ready ↦
        elim (page_response operation code description page.through_message_id after page) [
          | none ↦ failure operation "RECORD_UNREPRESENTABLE" "Stored message cannot be represented"
          | some r ↦ response_value operation code description page.through_message_id r
        ]
  ]
