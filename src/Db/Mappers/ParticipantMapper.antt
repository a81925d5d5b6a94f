-- ===== src/Db/Mappers/ParticipantMapper.antt =====
-- infrastructure/db/mappers/participant.py
use leaf_flow_chat.Domain.{Uuid, Participant}
use leaf_flow_chat.Db.Models.{ParticipantModel}

abbrev pub model_to_entity : ParticipantModel → Participant
model_to_entity model = record {
  conversation_id = model.conversation_id;
  kind = model.kind;
  subject_id = model.subject_id;
  joined_at = model.joined_at;
}

-- The row's own id is left to the column's default, a new UUID, which is an argument here.
abbrev pub entity_to_model : Uuid → Participant → ParticipantModel
entity_to_model id entity = record {
  id = id;
  conversation_id = entity.conversation_id;
  kind = entity.kind;
  subject_id = entity.subject_id;
  joined_at = entity.joined_at;
}
