-- ===== src/Permissions.antt =====
-- application/policies/permissions.py
pub mod Access
use leaf_flow_chat.Prelude.{Bool, true, false, Option, none, some, if◌then◌else◌}
use leaf_flow_chat.Domain.{Conversation, kind_value}
use leaf_flow_chat.Errors.{app, not_found, forbidden, ok, err}
use leaf_flow_chat.Principal.{Principal, is_admin}
use leaf_flow_chat.Sql.{Sql}
use leaf_flow_chat.Db.Participants.{is_participant}
use leaf_flow_chat.Db.Session.{Action, pure, raise, ◌>>=◌}

unfoldable pub member_or_raise : Conversation → Bool → Action Conversation
member_or_raise conversation true = pure conversation
member_or_raise conversation false =
    raise (app (forbidden "Not a participant of this conversation"))

module _ ⦃sql : Sql⦄ where
  unfoldable pub member_or_forbidden : Principal → Conversation → Action Conversation
  member_or_forbidden principal conversation = do
    is_member ← is_participant conversation.id (kind_value principal.kind) principal.subject_id
    member_or_raise conversation is_member

  unfoldable pub assert_conversation_access : Principal → Option Conversation → Action Conversation
  assert_conversation_access principal none = raise (app (not_found "Conversation not found"))
  assert_conversation_access principal (some conversation) =
      if is_admin principal then pure conversation else member_or_forbidden principal conversation

unfoldable pub assert_admin : Principal → Action (Unit {0})
assert_admin principal =
    if is_admin principal then pure tt else raise (app (forbidden "Admin access required"))
