-- ===== src/Tests/Pages.antt =====
-- Two messages of the server on their way to the client.
use protected_chat.Prelude.{◌++◌, true, false, some, none, List, [], ◌∷◌, codes, ◌≡◌, refl, arith}
use protected_chat.Prelude.Int.{pos}
use protected_chat.Routing.Messages.{
  DeliveryMessage, MessagePageResult, private_message, group_message, page_ready, common_fields,
}
use protected_chat.Routing.Page.{PageResponse, page_response, response_value, too_large}
use protected_chat.Routing.Messages.{delivery_envelope}
use protected_chat.Routing.Prefix.{PrefixOf, page_response-PrefixOf}
use protected_chat.Agreement.Envelope.{Accepted, Deliverable, delivery_envelope-Accepted}
use protected_chat.Agreement.History.{IsPage, page_response-valid_history_page}
use protected_chat.Client.Envelope.{valid_history_page}
use protected_chat.Tests.Values.{Value, reader, wire, writer}

abbrev pub greeting : DeliveryMessage
greeting = record {
  message = record {
    id = pos 7;
    kind = private_message;
    sender_id = pos 1;
    group_id = none;
    content = codes "hi";
    created_at = pos 100;
  };
  sender_username = codes "ann";
}

abbrev notice : DeliveryMessage
notice = record {
  message = record {
    id = pos 9;
    kind = group_message;
    sender_id = pos 2;
    group_id = some (pos 4);
    content = codes "ok";
    created_at = pos 101;
  };
  sender_username = codes "bob";
}

abbrev pub page : MessagePageResult
page = record {
  status = page_ready;
  messages = greeting ∷ notice ∷ [];
  through_message_id = pos 9;
  has_more = false;
}

greeting_ok : Deliverable greeting
greeting_ok = record {
  id = ground arith;
  sender_id = ground arith;
  created_at = ground arith;
  sender = λ e. ground (arith, e);
  content = λ e. ground (arith, e);
  group = tt;
}

notice_ok : Deliverable notice
notice_ok = record {
  id = ground arith;
  sender_id = ground arith;
  created_at = ground arith;
  sender = λ e. ground (arith, e);
  content = λ e. ground (arith, e);
  group = ground arith;
}

pub page_ok : IsPage (pos 9) (pos 0) page
page_ok = record {
  ready = refl;
  ends_at = refl;
  cursor = ground arith;
  end_fits = ground arith;
  ascends = (greeting_ok, refl, (notice_ok, refl, refl));
}

abbrev pub response : PageResponse writer
response = record {
  records =
      writer.object (common_fields writer greeting)
      ∷ writer.object (common_fields writer notice ++ ("group_id", writer.integer (pos 4)) ∷ [])
      ∷ [];
  next_after_message_id = pos 9;
  has_more = false;
}

answered :
    page_response writer "HISTORY" "HISTORY_PAGE" "Messages" (pos 9) (pos 0) page ≡ some response
unfolding page_response delivery_envelope too_large
answered = refl

page_response-PrefixOf_example :
    (kept : List DeliveryMessage) × PrefixOf writer "HISTORY" "HISTORY_PAGE" "Messages"
      (pos 9)
      (pos 0)
      page
      kept
      response
page_response-PrefixOf_example =
    page_response-PrefixOf writer "HISTORY" "HISTORY_PAGE" "Messages" (pos 9) (pos 0) page response
      answered

delivery_envelope-Accepted_example : (v : Value) × Accepted writer reader wire notice notice_ok v
delivery_envelope-Accepted_example = delivery_envelope-Accepted writer reader wire notice notice_ok

page_response-valid_history_page_example :
    valid_history_page reader
      (wire.parsed (response_value writer "HISTORY" "HISTORY_PAGE" "Messages" (pos 9) response))
    ≡ true
page_response-valid_history_page_example =
    page_response-valid_history_page writer reader wire (pos 9) (pos 0) page "Messages" response
      page_ok answered
