-- ===== src/Client/Pending.antt =====
-- processDeliveryMessage and processPendingPage of clientf/client_connection.cpp.
use protected_chat.Prelude.{
  ◌+◌, Bool, true, false, not, ◌&&◌, ◌||◌, List, [], ◌∷◌, ◌++◌, Option, none, some, map, length,
  is_nil, leb, if◌then◌else◌,
}
use protected_chat.Prelude.Int.{ℤ, pos, leb_ℤ, ltb_ℤ}
use protected_chat.Json.{Json, contains_only_fields, read_signed_integer}
use protected_chat.Json.Writer.{Writer}
use protected_chat.Client.Fields.{has_text, has_boolean, array_field}
use protected_chat.Buffer.Key.{eq_ℤ}
use protected_chat.Client.Envelope.{page_fields, page_record, valid_delivery_envelope}
use protected_chat.Client.State.{
  ClientConnection, ClientFrameKind, message_frame, frame_handled, call, notify_automatic_request,
  fail_with, max_automatic_requests,
}
use protected_chat.Client.Requests.{
  Surroundings, acts, acknowledgement, continuation_fields, enqueue_delivery_acknowledgement,
}

-- What a page says, beside its records.
pub record PageHead : Type 0 where
  pub through : ℤ
  pub following : ℤ
  pub more : Bool

-- A value that was read, where it is not negative.
abbrev nonnegative : Option ℤ → Option ℤ
nonnegative none = none
nonnegative (some z) = if leb_ℤ (pos 0) z then some z else none

abbrev pub last_of : ℤ → List ℤ → ℤ
last_of previous [] = previous
last_of previous (id ∷ ids) = last_of id ids

-- The watermark of the pages before, if there was one.
abbrev pub agrees : Option ℤ → ℤ → Bool
agrees none through = true
agrees (some expected) through = eq_ℤ expected through

abbrev pub or_zero : Option ℤ → ℤ
or_zero none = pos 0
or_zero (some z) = z

abbrev head_of : Option ℤ → Option ℤ → Bool → Option PageHead
head_of (some through) (some following) more =
    some (record { through = through; following = following; more = more })
head_of through following more = none

module _ (w : Writer) (j : Json) where
  abbrev get_flag : Option j.Value → Bool
  get_flag none = false
  get_flag (some found) = j.get_boolean found

  -- The fields of a page, up to the numbers.
  unfoldable pub page_head : j.Value → Option PageHead
  page_head message =
      if contains_only_fields j message page_fields
        && has_text j message "code" "PENDING_PAGE"
        && has_boolean j message "has_more"
      then head_of (nonnegative (read_signed_integer j message "through_message_id"))
          (nonnegative (read_signed_integer j message "next_after_message_id"))
          (get_flag (j.find message "has_more"))
      else none

  -- messageIds: the ids of the records, where every record passes.
  unfoldable pub page_ids : ℤ → ℤ → List j.Value → Option (List ℤ)
  page_ids through previous [] = some []
  page_ids through previous (r ∷ records) = elim (page_record j through previous r) [
    | none ↦ none
    | some id ↦ elim (page_ids through id records) [ none ↦ none | some ids ↦ some (id ∷ ids) ]
  ]

  -- The tests against the synchronization that is under way: the ids of the page where they pass.
  unfoldable pub accepted_ids : ClientConnection w j → PageHead → List j.Value → Option (List ℤ)
  unfolding page_ids
  accepted_ids c head records =
      if not c.pending_synchronization_active
        || not (agrees c.pending_through_message_id head.through)
        || ltb_ℤ head.through c.pending_after_message_id
      then none
      else elim (page_ids head.through c.pending_after_message_id records) [
        | none ↦ none
        | some ids ↦
            if not (eq_ℤ head.following (last_of c.pending_after_message_id ids))
              || (head.more && is_nil ids)
            then none
            else some ids
      ]

  -- What the page adds to the queue.
  abbrev pub page_requests : PageHead → List ℤ → List w.Value
  page_requests head ids =
      map (acknowledgement w) ids
      ++ (if head.more
          then w.object (continuation_fields w head.following head.through) ∷ []
          else [])

  abbrev pub queue_page : PageHead → List ℤ → ClientConnection w j → ClientConnection w j
  queue_page head ids c = record c {
    automatic_requests = c.automatic_requests ++ page_requests head ids;
    pending_synchronization_active = if head.more then true else false;
    pending_after_message_id = if head.more then head.following else pos 0;
    pending_through_message_id = if head.more then some head.through else none;
  }

  unfoldable pub finish_pending_page :
      PageHead → List ℤ → ClientConnection w j → Bool × ClientConnection w j
  finish_pending_page head ids c =
      if leb (length c.automatic_requests + (length ids + (if head.more then 1 else 0)))
        max_automatic_requests
      then (
        true,
        if not (is_nil ids) || head.more
            then notify_automatic_request w j (queue_page head ids c)
            else queue_page head ids c,
      )
      else (false, fail_with w j "Automatic request queue overflow" c)

  module _ (s : Surroundings w j) where
    -- A call of the frame handler, with what other threads do until it returns. Where it throws, the
    -- catch block of receiveLoop stops the connection: no caller of this changes it after that.
    unfoldable pub handle_frame :
        ClientFrameKind → j.Value → ClientConnection w j → ClientConnection w j
    handle_frame kind message c =
        let c' = acts w j s (s.during c kind message) (call w j (frame_handled kind message) c) in
        if s.throws c kind message then fail_with w j "Unexpected receiver failure" c' else c'

    -- The loop over the records: false where the connection stops.
    unfoldable pub handle_records :
        List j.Value → ClientConnection w j → Bool × ClientConnection w j
    handle_records [] c = (not c.stopping, c)
    handle_records (r ∷ records) c =
        let c' = handle_frame message_frame r c in
        elim c'.stopping [ true ↦ (false, c') | false ↦ handle_records records c' ]

    unfoldable pub process_accepted :
        PageHead → List j.Value → List ℤ → ClientConnection w j → Bool × ClientConnection w j
    unfolding handle_records finish_pending_page
    process_accepted head records ids c =
        let (running, c') = handle_records records c in
        if running then finish_pending_page head ids c' else (false, c')

    unfoldable pub process_pending_page :
        j.Value → ClientConnection w j → Bool × ClientConnection w j
    process_pending_page message c = elim (page_head message) [
      | none ↦ (false, c)
      | some head ↦ elim (array_field j message "messages") [
        | none ↦ (false, c)
        | some records ↦ elim (accepted_ids c head records) [
          | none ↦ (false, c)
          | some ids ↦ process_accepted head records ids c
        ]
      ]
    ]

    unfoldable pub process_delivery_message :
        j.Value → ClientConnection w j → Bool × ClientConnection w j
    unfolding handle_frame
    process_delivery_message message c =
        if not (valid_delivery_envelope j message)
        then (false, c)
        else let c' = handle_frame message_frame message c in
          if c'.stopping
          then (false, c')
          else enqueue_delivery_acknowledgement w j
              (or_zero (read_signed_integer j message "message_id")) c'
