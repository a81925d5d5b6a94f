-- ===== src/Services/MessageService.antt =====
-- services/message_service.py
pub mod Branches
pub mod Delivery
pub mod Idempotency
use leaf_flow_chat.Prelude.{ℕ, String, Bool, Option, none, List, [], ◌∷◌}
use leaf_flow_chat.Prelude.{if◌then◌else◌}
use leaf_flow_chat.Domain.{
  Uuid, Timestamp, Message, MessageType, kind_value, type_value, Payload, str, int, id, str_or_null,
}
use leaf_flow_chat.Principal.{Principal}
use leaf_flow_chat.Permissions.{assert_conversation_access}
use leaf_flow_chat.Sql.{Sql}
use leaf_flow_chat.Db.Conversations.{get_by_id, touch_last_message_at}
use leaf_flow_chat.Db.Messages.{create_if_not_exists}
use leaf_flow_chat.Db.Cursor.Codec.{Text, Codec}
use leaf_flow_chat.Db.MessagePages
use leaf_flow_chat.Db.Outbox
use leaf_flow_chat.Db.Session.{Action, pure, uuid4, utc_now, commit, ◌>>=◌, ◌>>◌}

abbrev pub message_created : Message → Payload
message_created msg =
    ("message_id", id msg.id)
    ∷ ("conversation_id", id msg.conversation_id)
    ∷ ("sender_kind", str msg.sender_kind)
    ∷ ("sender_id", int msg.sender_id)
    ∷ ("type", str msg.type)
    ∷ ("body", str_or_null msg.body)
    ∷ []

-- The message that `send_message` writes, from the clock and the identifier that it draws.
abbrev pub new_message :
    Uuid → Principal → Uuid → MessageType → Option String → Timestamp → Uuid → Message
new_message conversation_id principal client_msg_id msg_type body now message_id = record {
  id = message_id;
  conversation_id = conversation_id;
  sender_kind = kind_value principal.kind;
  sender_id = principal.subject_id;
  type = type_value msg_type;
  body = body;
  payload = none;
  client_msg_id = client_msg_id;
  created_at = now;
}

module _ ⦃sql : Sql⦄ where
  -- the block under `if created:`
  unfoldable pub announce : Uuid → Message → Action (Unit {0})
  announce conversation_id msg = do
    touch_last_message_at conversation_id msg.created_at
    Outbox.add "chat.message_created" (message_created msg)
    commit

  unfoldable pub send_message :
      Uuid → Principal → Uuid → MessageType → Option String → Action (Message × Bool)
  send_message conversation_id principal client_msg_id msg_type body = do
    conversation ← get_by_id conversation_id
    assert_conversation_access principal conversation
    now ← utc_now
    message_id ← uuid4
    (msg, created) ←
        create_if_not_exists
          (new_message conversation_id principal client_msg_id msg_type body now message_id)
    if created then announce conversation_id msg else pure tt
    pure (msg, created)

  unfoldable pub list_messages :
      ⦃codec : Codec⦄ → Uuid → Principal → Option Text → ℕ → Action (List Message)
  list_messages conversation_id principal cursor limit = do
    conversation ← get_by_id conversation_id
    assert_conversation_access principal conversation
    MessagePages.list_messages conversation_id cursor limit
