-- ===== src/Tests/Connections.antt =====
-- A client that logs in and takes a page of pending messages.
use protected_chat.Prelude.{
  true, Option, some, List, [], ◌∷◌, Bytes, codes, ◌≡◌, refl, false, ◌+◌, none, Bool, ◌≤◌, length,
  ap, arith, map, length-append, bytes_eq,
}
use protected_chat.Prelude.Int.{pos}
use protected_chat.Client.State.{
  request_stop, ClientConnection, new_connection, connect, max_automatic_requests, call,
  notify_automatic_request, begin_post_authentication, first_stop, complete_authentication,
}
use protected_chat.Client.Requests.{
  send_json, Surroundings, Act, send_request, stop_with, begin, start_synchronization, acts,
  interrupted, start_pending_synchronization, write_encoded, act,
}
use protected_chat.Client.Receive.{
  receive_loop, wait_for_post_authentication, dispatch_and_wait, receive_frame,
}
use protected_chat.Client.Invariant.{IsConsistent, connect-IsConsistent}
use protected_chat.Client.Once.{IsLater, IsOrderly, connect-IsOrderly, progress, running, stopped}
use protected_chat.Client.Theorems.{receive_loop-IsConsistent, receive_loop-IsOrderly}
use protected_chat.Session.Frames.{FrameReadResult}
use protected_chat.Routing.Page.{page_response, too_large}
use protected_chat.Tests.Pages.{page, response, page_ok}
use protected_chat.Tests.Values.{Value, reader, writer, wire}
use protected_chat.Routing.Messages.{delivery_envelope, DeliveryMessage}
use protected_chat.Agreement.Synchronization.{
  Turned, ids, page_says, page_response-process_pending_page, taken, handled,
}
use protected_chat.Client.Pending.{handle_records, handle_frame}
use protected_chat.Agreement.Pending.{IsExpecting}
use protected_chat.Agreement.Pending.{id_of, delivered}
use protected_chat.Agreement.History.{prefix}
use protected_chat.Client.Invariant.{length-map}
use protected_chat.Client.Dispatch.{authentication_answer, dispatch_frame}
use protected_chat.Json.{read_string}

abbrev login : Value
login =
    writer.object
      (("status", writer.text (codes "SUCCESS")) ∷ ("message", writer.text (codes "Welcome")) ∷ [])

-- The user enables what follows the login, the synchronization starts, and the user stops the
-- connection while a request is written.
abbrev surroundings : Surroundings writer reader
surroundings = record {
  takes = λ c v. true;
  interrupts = λ c v. some (codes "Closed by the user");
  throws = λ c kind message. false;
  during = λ c kind message. [];
  meanwhile = λ c. begin ∷ start_synchronization ∷ send_request login ∷ [];
  reading = λ c. [];
}

abbrev parse : Bytes → Option Value
parse text = some login

abbrev frames : List FrameReadResult
frames = FrameReadResult.frame (codes "login") ∷ FrameReadResult.end_of_stream ∷ []

receive_loop-IsConsistent_example : IsConsistent writer reader (
    receive_loop writer reader surroundings parse frames
      (connect writer reader (new_connection writer reader)))
receive_loop-IsConsistent_example =
    receive_loop-IsConsistent writer reader surroundings parse frames
      (connect writer reader (new_connection writer reader)) (connect-IsConsistent writer reader)

-- After the receiver has ended, the user tries to send, and stops the connection.
abbrev afterwards : List (Act writer reader)
afterwards = send_request login ∷ stop_with (codes "Closed by the user") ∷ send_request login ∷ []

-- The request that was under way is written after the stop, and none of the later ones.
late_request :
    progress writer reader running
      (acts writer reader surroundings afterwards (
        receive_loop writer reader surroundings parse frames
          (connect writer reader (new_connection writer reader)))).events
    ≡ some (stopped (codes "Closed by the user") true)
unfolding progress acts act receive_loop receive_frame dispatch_and_wait
    wait_for_post_authentication dispatch_frame authentication_answer send_json write_encoded
    interrupted request_stop first_stop call complete_authentication begin_post_authentication
    start_pending_synchronization notify_automatic_request connect new_connection read_string
    bytes_eq
late_request = refl

receive_loop-IsOrderly_example :
    let start = connect writer reader (new_connection writer reader) in
    let end =
      acts writer reader surroundings afterwards
        (receive_loop writer reader surroundings parse frames start) in
    IsOrderly writer reader end × IsLater writer reader start end
receive_loop-IsOrderly_example =
    receive_loop-IsOrderly writer reader surroundings parse frames
      (connect writer reader (new_connection writer reader)) afterwards
      (connect-IsOrderly writer reader)

pending_answered :
    page_response writer "SYNC_PENDING" "PENDING_PAGE" "Pending messages" (pos 9) (pos 0) page
    ≡ some response
unfolding page_response delivery_envelope too_large
pending_answered = refl

abbrev waiting : ClientConnection writer reader
waiting = record (new_connection writer reader) {
  automatic_requests = [];
  pending_synchronization_active = true;
  pending_after_message_id = pos 0;
  pending_through_message_id = none;
  stopping = false;
}

waiting_expects :
    IsExpecting writer reader wire
      (pos 9)
      "Pending messages"
      (pos 0)
      page
      response
      page_ok
      pending_answered
      waiting
waiting_expects = record { active = refl; cursor = refl; watermark = refl }

abbrev handled_page : Bool × ClientConnection writer reader
handled_page =
    handled writer reader wire (pos 9) "Pending messages" (pos 0) page response page_ok
      pending_answered surroundings waiting

handled_all : handled_page.0 ≡ true
unfolding handle_records handle_frame call acts
handled_all = refl

queue_empty : length handled_page.1.automatic_requests ≡ 0
unfolding handle_records handle_frame call acts
queue_empty = refl

abbrev sent_messages : List DeliveryMessage
sent_messages =
    delivered writer reader wire (pos 9) "Pending messages" (pos 0) page response page_ok
      pending_answered

sent_at_most_two : length (map id_of sent_messages) ≤ 2
sent_at_most_two =
    let facts =
      prefix writer reader wire (pos 9) "SYNC_PENDING" "PENDING_PAGE" "Pending messages" (pos 0)
        page response page_ok pending_answered in
    omega (
      arith,
      length-map id_of sent_messages,
      length-append sent_messages facts.0,
      ap length facts.1,
    )

room :
    length handled_page.1.automatic_requests
      + (length (
            ids writer reader wire
              (pos 9)
              "Pending messages"
              (pos 0)
              page
              response
              page_ok
              pending_answered
              surroundings
              waiting)
          + 0)
    ≤ max_automatic_requests
room = omega (arith, queue_empty, sent_at_most_two)

page_response-process_pending_page_example :
    ((taken writer reader wire
        (pos 9)
        "Pending messages"
        (pos 0)
        page
        response
        page_ok
        pending_answered
        surroundings
        waiting).0
      ≡ true)
    × Turned writer reader handled_page.1
        (taken writer reader wire
          (pos 9)
          "Pending messages"
          (pos 0)
          page
          response
          page_ok
          pending_answered
          surroundings
          waiting).1
        (page_says writer reader wire
          (pos 9)
          "Pending messages"
          (pos 0)
          page
          response
          page_ok
          pending_answered
          surroundings
          waiting)
        (ids writer reader wire
          (pos 9)
          "Pending messages"
          (pos 0)
          page
          response
          page_ok
          pending_answered
          surroundings
          waiting)
page_response-process_pending_page_example =
    page_response-process_pending_page writer reader wire (pos 9) "Pending messages" (pos 0) page
      response page_ok pending_answered surroundings waiting waiting_expects (λ h. refl) handled_all
      room
