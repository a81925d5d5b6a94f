-- ===== src/Permissions/Access.antt =====
-- Who may read and write a conversation.
use leaf_flow_chat.Prelude.{◌≡◌, Bool, ◌||◌, arith, if◌then◌else◌, some, none}
use leaf_flow_chat.Domain.{Conversation, kind_value}
use leaf_flow_chat.Errors.{Error, app, not_found, forbidden, ok, err}
use leaf_flow_chat.Principal.{Principal, is_admin}
use leaf_flow_chat.Sql.{Sql, unordered}
use leaf_flow_chat.Sql.Laws.{is_some-fetch}
use leaf_flow_chat.Db.Models.{Db}
use leaf_flow_chat.Db.Constraints.{is_member, exists_row}
use leaf_flow_chat.Db.Participants.{is_participant}
use leaf_flow_chat.Db.Session.{Session, ◌>>=◌}
use leaf_flow_chat.Permissions.{assert_conversation_access, member_or_forbidden, member_or_raise}

-- Admins have global access; anybody else is among the participants.
abbrev pub may_access : Db → Principal → Conversation → Bool
may_access db principal c =
    is_admin principal
    || exists_row (is_member c.id (kind_value principal.kind) principal.subject_id) db.participants

abbrev pub no_conversation : Error
no_conversation = app (not_found "Conversation not found")

abbrev pub no_member : Error
no_member = app (forbidden "Not a participant of this conversation")

module _ ⦃sql : Sql⦄ where
  -- The check of a conversation that exists passes exactly for an admin and for a participant of
  -- that kind and id, raises ForbiddenError for anybody else, and writes nothing; of a conversation
  -- that does not exist it raises NotFoundError, for an admin too.
  pub access_decides :
      (principal : Principal) (c : Conversation) (s : Session)
      → (assert_conversation_access principal (some c) s
          ≡ (if may_access s.working principal c then ok c else err no_member, s))
        × (assert_conversation_access principal none s ≡ (err no_conversation, s))
  unfolding assert_conversation_access member_or_forbidden member_or_raise is_participant ◌>>=◌
  access_decides principal c s = ground (
    arith,
    is_some-fetch (is_member c.id (kind_value principal.kind) principal.subject_id) unordered
        s.working.participants,
  )
