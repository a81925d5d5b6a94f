-- ===== src/Db/Mappers/MessageMapper.antt =====
-- infrastructure/db/mappers/message.py
use leaf_flow_chat.Domain.{Message}
use leaf_flow_chat.Db.Models.{MessageModel}

abbrev pub model_to_entity : MessageModel → Message
model_to_entity model = record {
  id = model.id;
  conversation_id = model.conversation_id;
  sender_kind = model.sender_kind;
  sender_id = model.sender_id;
  type = model.type;
  body = model.body;
  payload = model.payload;
  client_msg_id = model.client_msg_id;
  created_at = model.created_at;
}

abbrev pub entity_to_model : Message → MessageModel
entity_to_model entity = record {
  id = entity.id;
  conversation_id = entity.conversation_id;
  sender_kind = entity.sender_kind;
  sender_id = entity.sender_id;
  type = entity.type;
  body = entity.body;
  payload = entity.payload;
  client_msg_id = entity.client_msg_id;
  created_at = entity.created_at;
}
