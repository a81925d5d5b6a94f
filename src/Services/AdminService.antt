-- ===== src/Services/AdminService.antt =====
-- services/admin_service.py
pub mod Change
pub mod Assign
use leaf_flow_chat.Prelude.{String, ◌<>◌, Option, none, some, List, [], ◌∷◌, str_int, if◌then◌else◌}
use leaf_flow_chat.Domain.{
  Uuid, Timestamp, SubjectId, Conversation, Participant, Message, closed, status_value, admin,
  kind_value, system, type_value, Payload, str, int, id,
}
use leaf_flow_chat.Errors.{app, not_found}
use leaf_flow_chat.Principal.{Principal}
use leaf_flow_chat.Permissions.{assert_admin}
use leaf_flow_chat.Sql.{Sql}
use leaf_flow_chat.Db.Conversations.{
  get_by_id, list_for_admin, ConversationFilterDto, assign, close, touch_last_message_at,
}
use leaf_flow_chat.Db.Cursor.Codec.{Codec}
use leaf_flow_chat.Db.Participants
use leaf_flow_chat.Db.Participants.{is_participant}
use leaf_flow_chat.Db.Messages.{create_if_not_exists}
use leaf_flow_chat.Db.Outbox
use leaf_flow_chat.Db.Session.{Action, pure, raise, uuid4, utc_now, commit, ◌>>=◌, ◌>>◌}

unfoldable pub found_or_raise : Option Conversation → Action Conversation
found_or_raise none = raise (app (not_found "Conversation not found"))
found_or_raise (some conversation) = pure conversation

abbrev pub system_message : Uuid → SubjectId → String → Payload → Timestamp → Uuid → Uuid → Message
system_message conversation_id sender_id body payload now message_id client_msg_id = record {
  id = message_id;
  conversation_id = conversation_id;
  sender_kind = kind_value admin;
  sender_id = sender_id;
  type = type_value system;
  body = some body;
  payload = some payload;
  client_msg_id = client_msg_id;
  created_at = now;
}

abbrev pub new_admin : Uuid → SubjectId → Timestamp → Participant
new_admin conversation_id admin_id now = record {
  conversation_id = conversation_id;
  kind = kind_value admin;
  subject_id = admin_id;
  joined_at = now;
}

module _ ⦃sql : Sql⦄ where
  unfoldable pub list_conversations :
      ⦃codec : Codec⦄ → ConversationFilterDto → Action (List Conversation)
  list_conversations filters = list_for_admin filters

  unfoldable pub get_conversation : Uuid → Action Conversation
  get_conversation conversation_id = do
    conversation ← get_by_id conversation_id
    found_or_raise conversation

  -- the system message, the touch and the event that end both changes
  unfoldable pub record_change :
      Uuid → SubjectId → String → Payload → Payload → Action (Option Conversation)
  record_change conversation_id sender_id body payload event = do
    now ← utc_now
    message_id ← uuid4
    client_msg_id ← uuid4
    create_if_not_exists
        (system_message conversation_id sender_id body payload now message_id client_msg_id)
    touch_last_message_at conversation_id now
    Outbox.add "chat.conversation_updated" event
    commit
    get_by_id conversation_id

  -- `if not is_participant:`
  unfoldable pub join_admin : Uuid → SubjectId → Action (Unit {0})
  join_admin conversation_id admin_id = do
    joined ← is_participant conversation_id (kind_value admin) admin_id
    if joined
        then pure tt
        else do now ← utc_now; Participants.add (new_admin conversation_id admin_id now)

  unfoldable pub assign_conversation : Uuid → SubjectId → Principal → Action (Option Conversation)
  assign_conversation conversation_id admin_id principal = do
    assert_admin principal
    conversation ← get_by_id conversation_id
    found_or_raise conversation
    assign conversation_id (some admin_id)
    join_admin conversation_id admin_id
    record_change conversation_id admin_id
        ("Admin " <> str_int admin_id <> " assigned to conversation")
        (("action", str "assigned") ∷ ("admin_id", int admin_id) ∷ [])
        (("conversation_id", id conversation_id)
          ∷ ("action", str "assigned")
          ∷ ("assignee_admin_id", int admin_id)
          ∷ [])

  unfoldable pub close_conversation : Uuid → Principal → Action (Option Conversation)
  close_conversation conversation_id principal = do
    assert_admin principal
    conversation ← get_by_id conversation_id
    found_or_raise conversation
    close conversation_id
    record_change conversation_id principal.subject_id "Conversation closed"
        (("action", str "closed") ∷ [])
        (("conversation_id", id conversation_id)
          ∷ ("action", str "closed")
          ∷ ("status", str (status_value closed))
          ∷ [])
