-- ===== src/Client/Accepted.antt =====
-- processPendingPage where the page is accepted.
use protected_chat.Prelude.{◌≡◌, List, some, arith}
use protected_chat.Prelude.Int.{ℤ}
use protected_chat.Json.{Json}
use protected_chat.Json.Writer.{Writer}
use protected_chat.Client.Fields.{array_field}
use protected_chat.Client.Pending.{
  PageHead, page_head, accepted_ids, process_accepted, process_pending_page,
}
use protected_chat.Client.Requests.{Surroundings}
use protected_chat.Client.State.{ClientConnection}

module _ (w : Writer) (j : Json) (s : Surroundings w j) (message : j.Value)
    (c : ClientConnection w j) where
  pub process_pending_page-accepted :
      (head : PageHead) (records : List j.Value) (ids : List ℤ)
      → page_head w j message ≡ some head
      → array_field j message "messages" ≡ some records
      → accepted_ids w j c head records ≡ some ids
      → process_pending_page w j s message c ≡ process_accepted w j s head records ids c
  unfolding process_pending_page
  process_pending_page-accepted head records ids head_read records_read accepted =
      ground (arith, head_read, records_read, accepted)
