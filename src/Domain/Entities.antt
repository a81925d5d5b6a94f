-- ===== src/Domain/Entities.antt =====
-- The frozen dataclasses of domain/entities.
use leaf_flow_chat.Prelude.{ℕ, String, Option}
use leaf_flow_chat.Domain.Values.{Uuid, Timestamp, SubjectId, Payload}

pub record Conversation : Type 0 where
  pub id : Uuid
  pub topic_type : String
  pub topic_id : Option ℕ
  pub status : String
  pub assignee_admin_id : Option ℕ
  pub last_message_at : Option Timestamp
  pub created_at : Timestamp
  pub updated_at : Timestamp

pub record Message : Type 0 where
  pub id : Uuid
  pub conversation_id : Uuid
  pub sender_kind : String
  pub sender_id : SubjectId
  pub type : String
  pub body : Option String
  pub payload : Option Payload
  pub client_msg_id : Uuid
  pub created_at : Timestamp

pub record Participant : Type 0 where
  pub conversation_id : Uuid
  pub kind : String
  pub subject_id : SubjectId
  pub joined_at : Timestamp
