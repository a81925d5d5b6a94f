-- ===== src/Tests/Messages.antt =====
-- Sending, access and validity.
use leaf_flow_chat.Prelude.{
  ℕ, ◌+◌, ◌≡◌, ◌≢◌, ◌⊎◌, refl, ap, Bool, true, false, some, none, [], ◌∷◌, count_p, if◌then◌else◌,
}
use leaf_flow_chat.Domain.{Uuid, Message, text, system}
use leaf_flow_chat.Errors.{integrity_error, ok, err}
use leaf_flow_chat.Sql.{unordered}
use leaf_flow_chat.Sql.Laws.{fetch}
use leaf_flow_chat.Sql.Rows.{rows, select_rows}
use leaf_flow_chat.Principal.{is_admin}
use leaf_flow_chat.Permissions.{assert_conversation_access}
use leaf_flow_chat.Permissions.Access.{may_access, no_conversation, no_member, access_decides}
use leaf_flow_chat.Db.Models.{ConversationModel, MessageModel, OutboxMessageModel}
use leaf_flow_chat.Db.Mappers.MessageMapper
use leaf_flow_chat.Db.Mappers.ConversationMapper
use leaf_flow_chat.Db.Constraints.{is_conversation, message_refused, participant_refused}
use leaf_flow_chat.Db.Session.{Session, rollback, in_session, commit, ◌>>=◌}
use leaf_flow_chat.Db.Valid.{IsValid}
use leaf_flow_chat.Services.MessageService.{send_message}
use leaf_flow_chat.Services.MessageService.Branches.{
  message, key, message_event, send_message-new, send_message-forbidden,
}
use leaf_flow_chat.Services.MessageService.Delivery.{send_message_delivers, send_message_raises}
use leaf_flow_chat.Services.MessageService.Idempotency.{send_message_twice}
use leaf_flow_chat.Permissions.{assert_admin}
use leaf_flow_chat.Db.Conversations.{
  get_by_id, assign, close, update_conversation, touch_last_message_at,
}
use leaf_flow_chat.Db.Messages.{create_if_not_exists, insert_or_nothing, inserted_or_existing}
use leaf_flow_chat.Db.Outbox
use leaf_flow_chat.Services.AdminService.{
  found_or_raise, record_change, join_admin, assign_conversation, close_conversation,
}
use leaf_flow_chat.Services.AdminService.Assign.{is_joined, assigned, assign_conversation_assigns}
use leaf_flow_chat.Db.Participants
use leaf_flow_chat.Db.Participants.{is_participant}
use leaf_flow_chat.Services.AdminService.Change.{close_conversation_closes}
use leaf_flow_chat.Api
use leaf_flow_chat.Api.{success, as_principal, request}
use leaf_flow_chat.Api.Retry.{to_post, post_again}
use leaf_flow_chat.Services.Validity.{here, next, send, Reach-IsValid}
use leaf_flow_chat.Tests.Data.{conversation, db, session, customer, stranger, operator, db-IsValid}

abbrev hello : Message
hello = message 10 customer 77 text (some "hello") session

abbrev after : Session
after = (send_message 10 customer 77 text (some "hello") session).1

access_decides_example :
    (assert_conversation_access stranger
        (some (ConversationMapper.model_to_entity conversation))
        session
      ≡ (
        if may_access db stranger (ConversationMapper.model_to_entity conversation)
            then ok (ConversationMapper.model_to_entity conversation)
            else err no_member,
        session,
      ))
    × (assert_conversation_access stranger none session ≡ (err no_conversation, session))
access_decides_example =
    access_decides stranger (ConversationMapper.model_to_entity conversation) session

send_message_delivers_example :
    ((send_message 10 customer 77 text (some "hello") session).0 ≡ ok (hello, true))
    × (fetch (key 10 customer 77 text (some "hello") session) unordered after.committed.messages
        ≡ some (MessageMapper.entity_to_model hello))
    × (fetch (is_conversation 10) unordered after.committed.conversations
        ≡ some (record conversation { last_message_at = some 2000; updated_at = 1000 }))
    × ((d : Uuid)
        → d ≢ 10
        → fetch (is_conversation d) unordered after.committed.conversations
          ≡ fetch (is_conversation d) unordered db.conversations)
    × ((p : MessageModel → Bool)
        → count_p p after.committed.messages ≡ count_p p (MessageMapper.entity_to_model hello ∷ []))
    × ((p : OutboxMessageModel → Bool)
        → count_p p after.committed.outbox ≡ count_p p (message_event session hello ∷ []))
unfolding select_rows is_admin message_refused
send_message_delivers_example =
    send_message_delivers 10 customer 77 text (some "hello") session conversation db-IsValid refl
      refl refl refl

refused : (send_message 10 stranger 77 text none session).0 ≡ err no_member
unfolding select_rows is_admin
refused =
    ap (λ r. r.0) (send_message-forbidden 10 stranger 77 text none session conversation refl refl)

send_message_raises_example :
    ((no_member ≡ no_conversation) ⊎ ((no_member ≡ no_member) ⊎ (no_member ≡ integrity_error)))
    × ((send_message 10 stranger 77 text none session).1.working ≡ db)
    × ((send_message 10 stranger 77 text none session).1.committed ≡ db)
send_message_raises_example = send_message_raises 10 stranger 77 text none session no_member refused

first : (send_message 10 customer 77 text (some "hello") session).0 ≡ ok (hello, true)
unfolding select_rows is_admin message_refused
first =
    ap (λ r. r.0)
      (send_message-new 10 customer 77 text (some "hello") session conversation refl refl refl refl)

send_message_twice_example :
    let (r, s) = send_message 10 customer 77 system none after in
    (r ≡ ok (hello, false)) × (s.working ≡ after.working) × (s.committed ≡ after.committed)
send_message_twice_example =
    send_message_twice 10 customer 77 text system (some "hello") none session hello true db-IsValid
      first

Reach-IsValid_example :
    IsValid (in_session (send_message 10 customer 77 text (some "hello")) session).1.committed
Reach-IsValid_example =
    Reach-IsValid (next here (send 10 customer 77 text (some "hello"))) db-IsValid

abbrev closed_row : ConversationModel
closed_row = record conversation {
  status = "closed";
  last_message_at = some 2000;
  updated_at = 1000;
}

closed_once :
    (close_conversation 10 operator session).0
    ≡ ok (some (ConversationMapper.model_to_entity closed_row))
unfolding close_conversation assert_admin is_admin get_by_id found_or_raise close
    update_conversation record_change create_if_not_exists insert_or_nothing inserted_or_existing
    message_refused touch_last_message_at Outbox.add commit ◌>>=◌ select_rows
closed_once = refl

close_conversation_closes_example :
    (is_admin operator ≡ true)
    × (some (ConversationMapper.model_to_entity closed_row)
        ≡ some (ConversationMapper.model_to_entity closed_row))
    × (fetch
          (is_conversation 10)
          unordered
          (close_conversation 10 operator session).1.committed.conversations
        ≡ some closed_row)
unfolding select_rows
close_conversation_closes_example =
    close_conversation_closes 10 operator session
      (some (ConversationMapper.model_to_entity closed_row)) conversation db-IsValid refl
      closed_once

abbrev taken_row : ConversationModel
taken_row = record conversation {
  assignee_admin_id = some 1;
  last_message_at = some 2001;
  updated_at = 1000;
}

taken_once :
    (assign_conversation 10 1 operator session).0
    ≡ ok (some (ConversationMapper.model_to_entity taken_row))
unfolding assign_conversation assert_admin is_admin get_by_id found_or_raise assign
    update_conversation join_admin is_participant Participants.add participant_refused record_change
    create_if_not_exists insert_or_nothing inserted_or_existing message_refused
    touch_last_message_at Outbox.add commit ◌>>=◌ select_rows
taken_once = refl

assign_conversation_assigns_example :
    let s' = (assign_conversation 10 1 operator session).1 in
    (is_admin operator ≡ true)
    × (n : ℕ) × (some (ConversationMapper.model_to_entity taken_row)
        ≡ some (ConversationMapper.model_to_entity (assigned 10 1 (2000 + n) 1000 conversation)))
    × (fetch (is_conversation 10) unordered s'.committed.conversations
        ≡ some (assigned 10 1 (2000 + n) 1000 conversation))
    × (is_joined 10 1 s'.committed.participants ≡ true)
unfolding select_rows
assign_conversation_assigns_example =
    assign_conversation_assigns 10 1 operator session
      (some (ConversationMapper.model_to_entity taken_row)) conversation db-IsValid refl taken_once

posted_once :
    (Api.send_message (some customer) 10 (to_post 77 text (some "hello")) session).0 ≡ success hello
unfolding Api.send_message as_principal request in_session rollback ◌>>=◌
posted_once = rw first refl

post_again_example :
    let s' = (Api.send_message (some customer) 10 (to_post 77 text (some "hello")) session).1 in
    let (r, s'') = Api.send_message (some customer) 10 (to_post 77 system none) s' in
    (r ≡ success hello) × (s''.committed ≡ s'.committed)
post_again_example =
    post_again 10 77 text system (some "hello") none session (some customer) hello db-IsValid
      posted_once
