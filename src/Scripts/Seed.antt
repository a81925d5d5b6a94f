-- ===== src/Scripts/Seed.antt =====
-- scripts/seed_dev_data.py
use leaf_flow_chat.Prelude.{String, none, some, List, [], ◌∷◌}
use leaf_flow_chat.Domain.{
  Uuid, Timestamp, SubjectId, Conversation, Participant, Message, opened, status_value, user, admin,
  kind_value, text, type_value,
}
use leaf_flow_chat.Sql.{Sql}
use leaf_flow_chat.Db.Conversations.{create}
use leaf_flow_chat.Db.Participants
use leaf_flow_chat.Db.Messages.{create_if_not_exists}
use leaf_flow_chat.Db.Session.{Action, pure, uuid4, utc_now, commit, ◌>>=◌, ◌>>◌}

abbrev pub sample_conversation : Uuid → Timestamp → Conversation
sample_conversation conv_id now = record {
  id = conv_id;
  topic_type = "support";
  topic_id = none;
  status = status_value opened;
  assignee_admin_id = none;
  last_message_at = some now;
  created_at = now;
  updated_at = now;
}

abbrev pub sample_participant : Uuid → String → SubjectId → Timestamp → Participant
sample_participant conv_id kind subject_id now = record {
  conversation_id = conv_id;
  kind = kind;
  subject_id = subject_id;
  joined_at = now;
}

-- `messages_data`
abbrev pub messages_data : List (String × SubjectId × String)
messages_data =
    ("user", 42, "Привет! У меня проблема с заказом.")
    ∷ ("admin", 1, "Здравствуйте! Какой номер заказа?")
    ∷ ("user", 42, "Заказ #12345")
    ∷ ("admin", 1, "Спасибо, проверяю. Одну минуту.")
    ∷ []

abbrev pub sample_message : Uuid → Timestamp → String × SubjectId × String → Uuid → Uuid → Message
sample_message conv_id now (sender_kind, sender_id, body) message_id client_msg_id = record {
  id = message_id;
  conversation_id = conv_id;
  sender_kind = sender_kind;
  sender_id = sender_id;
  type = type_value text;
  body = some body;
  payload = none;
  client_msg_id = client_msg_id;
  created_at = now;
}

module _ ⦃sql : Sql⦄ where
  -- the loop over `messages_data`
  unfoldable pub seed_messages :
      Uuid → Timestamp → List (String × SubjectId × String) → Action (Unit {0})
  seed_messages conv_id now [] = pure tt
  seed_messages conv_id now (d ∷ rest) = do
    message_id ← uuid4
    client_msg_id ← uuid4
    create_if_not_exists (sample_message conv_id now d message_id client_msg_id)
    seed_messages conv_id now rest

  unfoldable pub seed : Action (Unit {0})
  seed = do
    now ← utc_now
    conv_id ← uuid4
    create (sample_conversation conv_id now)
    Participants.add (sample_participant conv_id (kind_value user) 42 now)
    Participants.add (sample_participant conv_id (kind_value admin) 1 now)
    seed_messages conv_id now messages_data
    commit
