-- ===== src/Db/Models.antt =====
-- infrastructure/db/models: a record for the rows of each of the five tables, and the database.
use native.Mathlib.Decide.{ℕ_discrete}
use leaf_flow_chat.Prelude.{ℕ, String, List, Option, String-discrete}
use leaf_flow_chat.Domain.{Uuid, Timestamp, SubjectId, Payload}

pub record ConversationModel : Type 0 where
  pub id : Uuid
  pub topic_type : String
  pub topic_id : Option ℕ
  pub status : String
  pub assignee_admin_id : Option ℕ
  pub last_message_at : Option Timestamp
  pub created_at : Timestamp
  pub updated_at : Timestamp

pub record ParticipantModel : Type 0 where
  pub id : Uuid
  pub conversation_id : Uuid
  pub kind : String
  pub subject_id : SubjectId
  pub joined_at : Timestamp

pub record MessageModel : Type 0 where
  pub id : Uuid
  pub conversation_id : Uuid
  pub sender_kind : String
  pub sender_id : SubjectId
  pub type : String
  pub body : Option String
  pub payload : Option Payload
  pub client_msg_id : Uuid
  pub created_at : Timestamp

pub record ReadStateModel : Type 0 where
  pub id : Uuid
  pub conversation_id : Uuid
  pub kind : String
  pub subject_id : SubjectId
  pub last_read_message_id : Option Uuid
  pub updated_at : Timestamp

pub record OutboxMessageModel : Type 0 where
  pub id : ℕ
  pub event_type : String
  pub payload : Payload
  pub status : String
  pub attempts : ℕ
  pub next_retry_at : Option Timestamp
  pub created_at : Timestamp
  pub updated_at : Timestamp

pub record Db : Type 0 where
  pub conversations : List ConversationModel
  pub participants : List ParticipantModel
  pub messages : List MessageModel
  pub read_states : List ReadStateModel
  pub outbox : List OutboxMessageModel

-- Rows can be compared, as the laws of the interface ask.
pub ConversationModel-discrete : Discrete ConversationModel
ConversationModel-discrete = hlevel (ℕ_discrete, String-discrete)

pub ParticipantModel-discrete : Discrete ParticipantModel
ParticipantModel-discrete = hlevel (ℕ_discrete, String-discrete)

pub MessageModel-discrete : Discrete MessageModel
MessageModel-discrete = hlevel (ℕ_discrete, String-discrete)

pub ReadStateModel-discrete : Discrete ReadStateModel
ReadStateModel-discrete = hlevel (ℕ_discrete, String-discrete)

pub OutboxMessageModel-discrete : Discrete OutboxMessageModel
OutboxMessageModel-discrete = hlevel (ℕ_discrete, String-discrete)
