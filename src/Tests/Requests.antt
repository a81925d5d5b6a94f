-- ===== src/Tests/Requests.antt =====
-- Requests, pages, a WebSocket connection and stream events on the small database.
use leaf_flow_chat.Prelude.{
  ℕ, String, ◌+◌, ◌≡◌, refl, true, false, none, some, Option, [], ◌∷◌, arith, count_p, str_eq,
  if◌then◌else◌,
}
use leaf_flow_chat.Prelude.Dict.{get, string_eq}
use leaf_flow_chat.Domain.{Uuid, Conversation, text}
use leaf_flow_chat.Errors.{ok}
use leaf_flow_chat.Principal.{Principal, is_admin}
use leaf_flow_chat.Sql.Rows.{rows, select_rows}
use leaf_flow_chat.Db.Constraints.{conversation_refused, participant_refused}
use leaf_flow_chat.Db.MessagePages
use leaf_flow_chat.Db.MessagePages.{in_order, belongs}
use leaf_flow_chat.Db.MessagePages.Adjoin.{next, pages_adjoin}
use leaf_flow_chat.Db.Models.{MessageModel}
use leaf_flow_chat.Db.Session.{rollback, in_session, ◌>>=◌}
use leaf_flow_chat.Db.Valid.{IsValid}
use leaf_flow_chat.Services.ConversationService.{get_or_create_topic_conversation}
use leaf_flow_chat.Services.ConversationService.Repeat.{fresh, topic-made, topic_twice}
use leaf_flow_chat.Services.ReadStateService.{mark_read}
use leaf_flow_chat.Services.ReadStateService.Marks.{mark_read_marks}
use leaf_flow_chat.Permissions.{assert_conversation_access, member_or_forbidden, member_or_raise}
use leaf_flow_chat.Db.Conversations.{get_by_id}
use leaf_flow_chat.Db.Participants.{is_participant}
use leaf_flow_chat.Db.ReadStates.{upsert_last_read, update_or_insert}
use leaf_flow_chat.Sql.{unordered}
use leaf_flow_chat.Sql.Laws.{fetch}
use leaf_flow_chat.Db.Models.{ReadStateModel}
use leaf_flow_chat.Db.Constraints.{is_reader, read_state_refused, read_state_taken}
use leaf_flow_chat.Db.Session.{Session, commit}
use leaf_flow_chat.Api.{SendMessageRequest}
use leaf_flow_chat.Workers.LeafEventsConsumer.{Fields, int_field, handle_order_created}
use leaf_flow_chat.Workers.LeafEventsConsumer.Again.{order_created_again}
use leaf_flow_chat.Ws.Manager.{init}
use leaf_flow_chat.Ws.Endpoint.{Hub, inbound, json_text, ws_chat}
use leaf_flow_chat.Tests.Data.{db, session, customer}

abbrev pub greeting : MessageModel
greeting = record {
  id = 30;
  conversation_id = 10;
  sender_kind = "user";
  sender_id = 42;
  type = "text";
  body = some "hello";
  payload = none;
  client_msg_id = 77;
  created_at = 5;
}

abbrev answer : MessageModel
answer = record greeting { id = 31; sender_kind = "admin"; sender_id = 1; created_at = 6 }

pages_adjoin_example :
    let first = MessagePages.page 10 none 1 (answer ∷ greeting ∷ []) in
    count_p (λ _. true) first
      + count_p
          (λ _. true)
          (rows.select (belongs 10 (next none first)) in_order (answer ∷ greeting ∷ []))
    ≡ count_p (λ _. true) (rows.select (belongs 10 none) in_order (answer ∷ greeting ∷ []))
pages_adjoin_example =
    pages_adjoin 10 none (answer ∷ greeting ∷ []) (λ _. true) 1 (λ i. ground arith)

abbrev order_conversation : Conversation
order_conversation = fresh "order" 5 42 session

created : (get_or_create_topic_conversation "order" 5 42 session).0 ≡ ok (order_conversation, true)
unfolding select_rows conversation_refused participant_refused
created = (topic-made "order" 5 42 session refl refl refl).0

topic_twice_example :
    let s' = (get_or_create_topic_conversation "order" 5 42 session).1 in
    get_or_create_topic_conversation "order" 5 43 s' ≡ (ok (order_conversation, false), s')
topic_twice_example = topic_twice "order" 5 42 43 session order_conversation true created

abbrev parse_int : String → Option ℕ
parse_int t = if str_eq t "42" then some 42 else if str_eq t "5" then some 5 else none

abbrev order_fields : Fields
order_fields = ("user_id", "42") ∷ ("order_id", "5") ∷ []

handled : (handle_order_created parse_int order_fields session).0 ≡ ok tt
unfolding handle_order_created int_field get in_session rollback ◌>>=◌
handled = rw created refl

order_created_again_example :
    let s' = (handle_order_created parse_int order_fields session).1 in
    handle_order_created parse_int order_fields s' ≡ (ok tt, s')
order_created_again_example = order_created_again parse_int order_fields session handled

abbrev request_body : SendMessageRequest
request_body = record { client_msg_id = 77; type = text; body = some "hello" }

abbrev hub : Hub
hub = record { session = session; manager = init }

abbrev parse_uuid : String → Option Uuid
parse_uuid t = if str_eq t "10" then some 10 else none

abbrev end : Hub
end =
    ws_chat parse_uuid (λ _. false) 1 customer
      (inbound "subscribe" (("conversation_id", json_text "10") ∷ []) ∷ inbound "ping" [] ∷ []) hub

abbrev pub talking : Session
talking = record session { working = record db { messages = greeting ∷ [] } }

talking-IsValid : IsValid talking.working
talking-IsValid = record {
  conversation_once = λ i. ground arith;
  message_once = λ i. ground arith;
  participant_once = λ i. ground arith;
  read_state_once = λ i. omega arith;
  member_once = λ c k i. ground arith;
  sent_once = λ c k i m. ground arith;
  reader_once = λ c k i. omega arith;
  members_placed = omega arith;
  messages_placed = omega arith;
  readers_placed = omega arith;
  markers_placed = omega arith;
}

seen : (mark_read 10 customer 30 talking).0 ≡ ok tt
unfolding mark_read get_by_id assert_conversation_access member_or_forbidden member_or_raise
    is_participant is_admin upsert_last_read update_or_insert read_state_refused read_state_taken
    commit ◌>>=◌ select_rows
seen = refl

mark_read_marks_example :
    (r : ReadStateModel) × (fetch
        (is_reader 10 "user" 42)
        unordered
        (mark_read 10 customer 30 talking).1.committed.read_states
      ≡ some r)
    × (r.last_read_message_id ≡ some 30)
mark_read_marks_example = mark_read_marks 10 customer 30 talking talking-IsValid seen
