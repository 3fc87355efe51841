-- ===== src/Agreement/Synchronization.antt =====
-- One round of the synchronization of pending messages: the server's page and what the client does.
use protected_chat.Prelude.{
  ◌+◌, ◌≤◌, ◌≡◌, arith, Bool, true, List, map, ◌++◌, some, String, length, if◌then◌else◌,
}
use protected_chat.Prelude.Int.{ℤ}
use protected_chat.Json.{Json}
use protected_chat.Json.Writer.{Writer}
use protected_chat.Json.Wire.{Wire}
use protected_chat.Agreement.History.{IsPage}
use protected_chat.Agreement.Pending.{
  head, delivered, received, id_of, IsExpecting, HasProgress, processed,
}
use protected_chat.Client.Requests.{Surroundings}
use protected_chat.Client.State.{ClientConnection, notify_automatic_request, max_automatic_requests}
use protected_chat.Client.Pending.{
  handle_records, process_accepted, process_pending_page, PageHead, page_requests,
}
use protected_chat.Client.Pending.{finish_pending_page}
use protected_chat.Routing.Page.{page_response, PageResponse}
use protected_chat.Routing.Messages.{MessagePageResult}

module _ (w : Writer) (j : Json) where
  -- What the client's queue and its cursor are after a page that it took.
  pub record Turned (before after : ClientConnection w j) (h : PageHead) (ids : List ℤ)
      : Type 0 where
    pub queued : after.automatic_requests ≡ before.automatic_requests ++ page_requests w j h ids
    pub active : after.pending_synchronization_active ≡ h.more
    pub cursor :
        h.more ≡ true
        → (after.pending_after_message_id ≡ h.following)
          × (after.pending_through_message_id ≡ some h.through)

  finish_pending_page-Turned :
      (h : PageHead) (ids : List ℤ) (c : ClientConnection w j)
      → length c.automatic_requests + (length ids + (if h.more then 1 else 0))
        ≤ max_automatic_requests
      → ((finish_pending_page w j h ids c).0 ≡ true)
        × Turned c (finish_pending_page w j h ids c).1 h ids
  unfolding finish_pending_page notify_automatic_request
  finish_pending_page-Turned h ids c room = ground arith

  module _ (wire : Wire w j) (through : ℤ) (description : String) (after : ℤ)
      (page : MessagePageResult) (r : PageResponse w) (is_page : IsPage through after page)
      (e : page_response w "SYNC_PENDING" "PENDING_PAGE" description through after page ≡ some r)
      (s : Surroundings w j) (c : ClientConnection w j) where
    -- The connection after the frame handler was called with each record.
    abbrev pub handled : Bool × ClientConnection w j
    handled = handle_records w j s (map wire.parsed r.records) c

    abbrev pub ids : List ℤ
    ids = map id_of (delivered w j wire through description after page r is_page e)

    abbrev pub page_says : PageHead
    page_says = head w j wire through description after page r is_page e

    abbrev pub taken : Bool × ClientConnection w j
    taken =
        process_pending_page w j s (received w j wire through description after page r is_page e) c

    -- For a page of the database whose ids ascend from the request's cursor to the watermark, whose
    -- messages are deliverable and which is not empty where it says that more follow: where writePage
    -- answers SYNC_PENDING with a page, a client that waits for it, that is not stopped while its frame
    -- handler runs and whose queue has room takes the page. It queues an acknowledgement for each
    -- message of the page, in order, and then, exactly if the page says that more follow, the request
    -- for the next page, with the cursor and the watermark that it keeps.
    pub page_response-process_pending_page :
        IsExpecting w j wire through description after page r is_page e c
        → HasProgress w j wire through description after page r is_page e
        → handled.0 ≡ true
        → length handled.1.automatic_requests + (length ids + (if r.has_more then 1 else 0))
          ≤ max_automatic_requests
        → (taken.0 ≡ true) × Turned handled.1 taken.1 page_says ids
    unfolding process_accepted
    page_response-process_pending_page expecting more running room =
        rw
          (
            processed w j wire through description after page r is_page e s c expecting more,
            running,
          )
          (finish_pending_page-Turned page_says ids handled.1 room)
