-- ===== src/Db/Conversations/Writer.antt =====
-- `ConversationWriterRepo`. Each UPDATE also sets `updated_at`, by the column's `onupdate`.
use leaf_flow_chat.Prelude.{ℕ, Option, some}
use leaf_flow_chat.Domain.{Uuid, Timestamp, Conversation, closed, status_value}
use leaf_flow_chat.Errors.{integrity_error}
use leaf_flow_chat.Sql.{Sql}
use leaf_flow_chat.Db.Models.{ConversationModel}
use leaf_flow_chat.Db.Mappers.ConversationMapper
use leaf_flow_chat.Db.Constraints.{is_conversation, conversation_refused}
use leaf_flow_chat.Db.Session.{Action, pure, raise_if, query, write, server_time, ◌>>=◌, ◌>>◌}

module _ ⦃sql : Sql⦄ where
  unfoldable pub create : Conversation → Action Conversation
  create conversation = do
    let model = ConversationMapper.entity_to_model conversation
    raise_if (← query (λ db. conversation_refused db model)) integrity_error
    write (λ db. record db { conversations = sql.insert model db.conversations })
    pure (ConversationMapper.model_to_entity model)

  -- `update(ConversationModel).where(ConversationModel.id == …).values(…)`
  unfoldable pub update_conversation :
      Uuid → (ConversationModel → ConversationModel) → Action (Unit {0})
  update_conversation conversation_id values = do
    now ← server_time
    write (λ db. record db {
      conversations =
          sql.update (is_conversation conversation_id) (λ c. record (values c) { updated_at = now })
            db.conversations;
    })

  unfoldable pub assign : Uuid → Option ℕ → Action (Unit {0})
  assign conversation_id admin_id =
      update_conversation conversation_id (λ c. record c { assignee_admin_id = admin_id })

  unfoldable pub close : Uuid → Action (Unit {0})
  close conversation_id =
      update_conversation conversation_id (λ c. record c { status = status_value closed })

  unfoldable pub touch_last_message_at : Uuid → Timestamp → Action (Unit {0})
  touch_last_message_at conversation_id ts =
      update_conversation conversation_id (λ c. record c { last_message_at = some ts })
