-- ===== src/Db/Messages.antt =====
-- infrastructure/db/repositories/message.py: `MessageWriterRepo`
use mathlib.Core.Option
use leaf_flow_chat.Prelude.{String, Bool, true, false, Option, none, some, if◌then◌else◌}
use leaf_flow_chat.Domain.{Uuid, SubjectId, Message}
use leaf_flow_chat.Errors.{integrity_error, assertion_error}
use leaf_flow_chat.Sql.{Sql, unordered}
use leaf_flow_chat.Sql.Laws.{fetch}
use leaf_flow_chat.Db.Models.{MessageModel}
use leaf_flow_chat.Db.Mappers.MessageMapper
use leaf_flow_chat.Db.Constraints.{is_sent, exists_row, message_refused}
use leaf_flow_chat.Db.Session.{Action, pure, raise, raise_if, query, write, ◌>>=◌, ◌>>◌}

-- `assert existing is not None`
unfoldable pub existing_or_assert : Option Message → Action (Message × Bool)
existing_or_assert none = raise assertion_error
existing_or_assert (some existing) = pure (existing, false)

module _ ⦃sql : Sql⦄ where
  unfoldable pub get_by_client_msg_id : Uuid → String → SubjectId → Uuid → Action (Option Message)
  get_by_client_msg_id conversation_id sender_kind sender_id client_msg_id = query (λ db.
      Option.map MessageMapper.model_to_entity
        (fetch (is_sent conversation_id sender_kind sender_id client_msg_id) unordered db.messages))

  -- `pg_insert(…).on_conflict_do_nothing(constraint="uq_message_idempotency").returning(…)`
  unfoldable pub insert_or_nothing : MessageModel → Action (Option MessageModel)
  insert_or_nothing model = do
    taken ← query (λ db.
        exists_row
          (is_sent model.conversation_id model.sender_kind model.sender_id model.client_msg_id)
          db.messages)
    if taken then pure none else do
      raise_if (← query (λ db. message_refused db model)) integrity_error
      write (λ db. record db { messages = sql.insert model db.messages })
      pure (some model)

  unfoldable pub inserted_or_existing : Message → Option MessageModel → Action (Message × Bool)
  inserted_or_existing message (some row) = pure (MessageMapper.model_to_entity row, true)
  inserted_or_existing message none = do
    existing ←
        get_by_client_msg_id message.conversation_id message.sender_kind message.sender_id
          message.client_msg_id
    existing_or_assert existing

  unfoldable pub create_if_not_exists : Message → Action (Message × Bool)
  create_if_not_exists message = do
    row ← insert_or_nothing (MessageMapper.entity_to_model message)
    inserted_or_existing message row
