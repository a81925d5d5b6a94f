-- ===== src/Db/Mappers/ConversationMapper.antt =====
-- infrastructure/db/mappers/conversation.py
use leaf_flow_chat.Domain.{Conversation}
use leaf_flow_chat.Db.Models.{ConversationModel}

abbrev pub model_to_entity : ConversationModel → Conversation
model_to_entity model = record {
  id = model.id;
  topic_type = model.topic_type;
  topic_id = model.topic_id;
  status = model.status;
  assignee_admin_id = model.assignee_admin_id;
  last_message_at = model.last_message_at;
  created_at = model.created_at;
  updated_at = model.updated_at;
}

abbrev pub entity_to_model : Conversation → ConversationModel
entity_to_model entity = record {
  id = entity.id;
  topic_type = entity.topic_type;
  topic_id = entity.topic_id;
  status = entity.status;
  assignee_admin_id = entity.assignee_admin_id;
  last_message_at = entity.last_message_at;
  created_at = entity.created_at;
  updated_at = entity.updated_at;
}
