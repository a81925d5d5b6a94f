-- ===== src/Services/MessageService/Branches.antt =====
-- What `send_message` does on each of its branches, as the final session.
use leaf_flow_chat.Prelude.{◌+◌, String, ◌≡◌, Bool, true, false, Option, none, some, arith}
use leaf_flow_chat.Domain.{Uuid, Message, MessageType, kind_value}
use leaf_flow_chat.Errors.{integrity_error, ok, err}
use leaf_flow_chat.Principal.{Principal}
use leaf_flow_chat.Permissions.{assert_conversation_access}
use leaf_flow_chat.Permissions.Access.{may_access, no_conversation, no_member, access_decides}
use leaf_flow_chat.Sql.{Sql, unordered}
use leaf_flow_chat.Sql.Laws.{fetch, is_some-fetch}
use leaf_flow_chat.Db.Models.{Db, ConversationModel, MessageModel, OutboxMessageModel}
use leaf_flow_chat.Db.Mappers.ConversationMapper
use leaf_flow_chat.Db.Mappers.MessageMapper
use leaf_flow_chat.Db.Constraints.{is_conversation, is_sent, exists_row, message_refused}
use leaf_flow_chat.Db.Session.{Session, commit, ◌>>=◌}
use leaf_flow_chat.Db.Conversations.{get_by_id, update_conversation, touch_last_message_at}
use leaf_flow_chat.Db.Messages.{
  create_if_not_exists, insert_or_nothing, inserted_or_existing, existing_or_assert,
  get_by_client_msg_id,
}
use leaf_flow_chat.Db.Outbox
use leaf_flow_chat.Services.MessageService.{send_message, announce, new_message, message_created}

-- the row of `outbox_messages` that announces a message
abbrev pub message_event : Session → Message → OutboxMessageModel
message_event s msg = record {
  id = s.outbox_seq;
  event_type = "chat.message_created";
  payload = message_created msg;
  status = "pending";
  attempts = 0;
  next_retry_at = none;
  created_at = s.server_now;
  updated_at = s.server_now;
}

module _ ⦃sql : Sql⦄ (c : Uuid) (principal : Principal) (m : Uuid) (t : MessageType)
    (body : Option String) (s : Session) where
  abbrev pub message : Message
  message = new_message c principal m t body (s.clock s.ticks) (s.uuids s.drawn)

  -- the session after the two readings of the surroundings
  abbrev pub asked : Session
  asked = record s { ticks = s.ticks + 1; drawn = s.drawn + 1 }

  -- the database with the message, the touched conversation and the event
  abbrev pub sent_db : Db
  sent_db = record s.working {
    messages = sql.insert (MessageMapper.entity_to_model message) s.working.messages;
    conversations =
        sql.update (is_conversation c)
          (λ x. record x { last_message_at = some (s.clock s.ticks); updated_at = s.server_now })
          s.working.conversations;
    outbox = sql.insert (message_event s message) s.working.outbox;
  }

  abbrev pub sent : Session
  sent = record asked { outbox_seq = s.outbox_seq + 1; working = sent_db; committed = sent_db }

  abbrev pub key : MessageModel → Bool
  key = is_sent c (kind_value principal.kind) principal.subject_id m

  pub send_message-new :
      (x : ConversationModel)
      → fetch (is_conversation c) unordered s.working.conversations ≡ some x
      → may_access s.working principal (ConversationMapper.model_to_entity x) ≡ true
      → exists_row key s.working.messages ≡ false
      → message_refused s.working (MessageMapper.entity_to_model message) ≡ false
      → send_message c principal m t body s ≡ (ok (message, true), sent)
  unfolding send_message get_by_id create_if_not_exists insert_or_nothing inserted_or_existing
      announce touch_last_message_at update_conversation Outbox.add commit ◌>>=◌
  send_message-new x found allowed fresh accepted =
      ground (arith, access_decides principal (ConversationMapper.model_to_entity x) s)

  pub send_message-missing :
      fetch (is_conversation c) unordered s.working.conversations ≡ none
      → send_message c principal m t body s ≡ (err no_conversation, s)
  unfolding send_message get_by_id ◌>>=◌ assert_conversation_access
  send_message-missing missing = ground arith

  pub send_message-forbidden :
      (x : ConversationModel)
      → fetch (is_conversation c) unordered s.working.conversations ≡ some x
      → may_access s.working principal (ConversationMapper.model_to_entity x) ≡ false
      → send_message c principal m t body s ≡ (err no_member, s)
  unfolding send_message get_by_id ◌>>=◌
  send_message-forbidden x found denied =
      ground (arith, access_decides principal (ConversationMapper.model_to_entity x) s)

  pub send_message-duplicate :
      (x : ConversationModel) (old : MessageModel)
      → fetch (is_conversation c) unordered s.working.conversations ≡ some x
      → may_access s.working principal (ConversationMapper.model_to_entity x) ≡ true
      → fetch key unordered s.working.messages ≡ some old
      → send_message c principal m t body s ≡ (ok (MessageMapper.model_to_entity old, false), asked)
  unfolding send_message get_by_id create_if_not_exists insert_or_nothing inserted_or_existing
      existing_or_assert get_by_client_msg_id ◌>>=◌
  send_message-duplicate x old found allowed there = ground (
    arith,
    access_decides principal (ConversationMapper.model_to_entity x) s,
    is_some-fetch key unordered s.working.messages,
  )

  pub send_message-refused :
      (x : ConversationModel)
      → fetch (is_conversation c) unordered s.working.conversations ≡ some x
      → may_access s.working principal (ConversationMapper.model_to_entity x) ≡ true
      → exists_row key s.working.messages ≡ false
      → message_refused s.working (MessageMapper.entity_to_model message) ≡ true
      → send_message c principal m t body s ≡ (err integrity_error, asked)
  unfolding send_message get_by_id create_if_not_exists insert_or_nothing ◌>>=◌
  send_message-refused x found allowed fresh refused =
      ground (arith, access_decides principal (ConversationMapper.model_to_entity x) s)
