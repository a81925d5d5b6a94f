-- ===== src/Services/ReadStateService.antt =====
-- services/read_state_service.py
pub mod Marks
use leaf_flow_chat.Domain.{Uuid, kind_value}
use leaf_flow_chat.Principal.{Principal}
use leaf_flow_chat.Permissions.{assert_conversation_access}
use leaf_flow_chat.Sql.{Sql}
use leaf_flow_chat.Db.Conversations.{get_by_id}
use leaf_flow_chat.Db.ReadStates.{upsert_last_read}
use leaf_flow_chat.Db.Session.{Action, commit, ◌>>=◌, ◌>>◌}

module _ ⦃sql : Sql⦄ where
  unfoldable pub mark_read : Uuid → Principal → Uuid → Action (Unit {0})
  mark_read conversation_id principal last_message_id = do
    conversation ← get_by_id conversation_id
    assert_conversation_access principal conversation
    upsert_last_read conversation_id (kind_value principal.kind) principal.subject_id
        last_message_id
    commit
