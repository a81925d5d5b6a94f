-- ===== src/Db/Conversations/Reader.antt =====
-- `ConversationReaderRepo`
use mathlib.Core.Option
use leaf_flow_chat.Prelude.{ℕ, String, Bool, ◌&&◌, ◌||◌, Option, none, some, leb, holds, str_eq}
use leaf_flow_chat.Domain.{Uuid, SubjectId, Conversation, opened, status_value}
use leaf_flow_chat.Sql.{Sql, unordered}
use leaf_flow_chat.Sql.Laws.{fetch}
use leaf_flow_chat.Db.Models.{Db, ConversationModel}
use leaf_flow_chat.Db.Mappers.ConversationMapper
use leaf_flow_chat.Db.Constraints.{is_conversation, is_member, exists_row}
use leaf_flow_chat.Db.Session.{Action, query}

-- `ConversationModel.created_at.desc()`
abbrev pub newest_first : ConversationModel → ConversationModel → Bool
newest_first a b = leb b.created_at a.created_at

-- The join with participants, restricted to one user. A row stands once for each participant
-- that matches, of which `uq_participant_member` leaves at most one.
abbrev pub joins_user : Db → SubjectId → ConversationModel → Bool
joins_user db user_id c = exists_row (is_member c.id "user" user_id) db.participants

abbrev pub is_open_support : Db → SubjectId → ConversationModel → Bool
is_open_support db user_id c =
    joins_user db user_id c
    && str_eq c.topic_type "support"
    && str_eq c.status (status_value opened)

-- The test on `status` applies where a status is given, and is not empty.
abbrev pub is_on_topic : String → ℕ → Option String → ConversationModel → Bool
is_on_topic topic_type topic_id none c = str_eq c.topic_type topic_type && holds c.topic_id topic_id
is_on_topic topic_type topic_id (some status) c =
    str_eq c.topic_type topic_type
    && holds c.topic_id topic_id
    && (str_eq status "" || str_eq c.status status)

module _ ⦃sql : Sql⦄ where
  unfoldable pub get_by_id : Uuid → Action (Option Conversation)
  get_by_id conversation_id = query (λ db.
      Option.map ConversationMapper.model_to_entity
        (fetch (is_conversation conversation_id) unordered db.conversations))

  unfoldable pub get_support_for_user : SubjectId → Action (Option Conversation)
  get_support_for_user user_id = query (λ db.
      Option.map ConversationMapper.model_to_entity
        (fetch (is_open_support db user_id) newest_first db.conversations))

  unfoldable pub get_by_topic : String → ℕ → Option String → Action (Option Conversation)
  get_by_topic topic_type topic_id status = query (λ db.
      Option.map ConversationMapper.model_to_entity
        (fetch (is_on_topic topic_type topic_id status) newest_first db.conversations))
