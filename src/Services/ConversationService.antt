-- ===== src/Services/ConversationService.antt =====
-- services/conversation_service.py
pub mod Overlap
pub mod Repeat
pub mod Support
use leaf_flow_chat.Prelude.{ℕ, String, Bool, true, false, Option, none, some, List, [], ◌∷◌}
use leaf_flow_chat.Domain.{
  Uuid, Timestamp, SubjectId, Conversation, Participant, opened, status_value, user, kind_value,
  Payload, str, int, id,
}
use leaf_flow_chat.Principal.{Principal}
use leaf_flow_chat.Permissions.{assert_conversation_access}
use leaf_flow_chat.Sql.{Sql}
use leaf_flow_chat.Db.Conversations.{
  get_by_id, get_support_for_user, get_by_topic, list_for_user, create,
}
use leaf_flow_chat.Db.Cursor.Codec.{Text, Codec}
use leaf_flow_chat.Db.Participants
use leaf_flow_chat.Db.Outbox
use leaf_flow_chat.Db.Session.{Action, pure, uuid4, utc_now, commit, ◌>>=◌, ◌>>◌}

abbrev pub new_conversation : String → Option ℕ → Timestamp → Uuid → Conversation
new_conversation topic_type topic_id now conversation_id = record {
  id = conversation_id;
  topic_type = topic_type;
  topic_id = topic_id;
  status = status_value opened;
  assignee_admin_id = none;
  last_message_at = none;
  created_at = now;
  updated_at = now;
}

abbrev pub new_user : Uuid → SubjectId → Timestamp → Participant
new_user conversation_id user_id now = record {
  conversation_id = conversation_id;
  kind = kind_value user;
  subject_id = user_id;
  joined_at = now;
}

module _ ⦃sql : Sql⦄ where
  -- the part after the lookup, for a payload that the caller fills in
  unfoldable pub create_conversation :
      String → Option ℕ → SubjectId → (Uuid → Payload) → Action Conversation
  create_conversation topic_type topic_id user_id payload = do
    now ← utc_now
    conversation_id ← uuid4
    conversation ← create (new_conversation topic_type topic_id now conversation_id)
    Participants.add (new_user conversation.id user_id now)
    Outbox.add "chat.conversation_created" (payload conversation.id)
    commit
    pure conversation

  unfoldable pub existing_or_support : SubjectId → Option Conversation → Action Conversation
  existing_or_support user_id (some existing) = pure existing
  existing_or_support user_id none = create_conversation "support" none user_id (λ conversation_id.
      ("conversation_id", id conversation_id)
      ∷ ("user_id", int user_id)
      ∷ ("topic_type", str "support")
      ∷ [])

  unfoldable pub get_or_create_support_conversation : SubjectId → Action Conversation
  get_or_create_support_conversation user_id = do
    existing ← get_support_for_user user_id
    existing_or_support user_id existing

  unfoldable pub existing_or_topic :
      String → ℕ → SubjectId → Option Conversation → Action (Conversation × Bool)
  existing_or_topic topic_type topic_id user_id (some existing) = pure (existing, false)
  existing_or_topic topic_type topic_id user_id none = do
    conversation ← create_conversation topic_type (some topic_id) user_id (λ conversation_id.
        ("conversation_id", id conversation_id)
        ∷ ("user_id", int user_id)
        ∷ ("topic_type", str topic_type)
        ∷ ("topic_id", int topic_id)
        ∷ [])
    pure (conversation, true)

  unfoldable pub get_or_create_topic_conversation :
      String → ℕ → SubjectId → Action (Conversation × Bool)
  get_or_create_topic_conversation topic_type topic_id user_id = do
    existing ← get_by_topic topic_type topic_id (some (status_value opened))
    existing_or_topic topic_type topic_id user_id existing

  unfoldable pub list_user_conversations :
      ⦃codec : Codec⦄ → Principal → Option Text → ℕ → Action (List Conversation)
  list_user_conversations principal cursor limit = list_for_user principal.subject_id cursor limit

  unfoldable pub get_conversation : Uuid → Principal → Action Conversation
  get_conversation conversation_id principal = do
    conversation ← get_by_id conversation_id
    assert_conversation_access principal conversation
