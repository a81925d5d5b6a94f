-- ===== src/Db/Valid.antt =====
-- The invariant that the declared constraints give a database: keys occur once, and what a
-- foreign key names is there. The outbox has no part in it: its key comes from a sequence, and it has
-- no other constraint.
pub mod Inserts
pub mod Updates
pub mod Keeps
pub mod Repositories
use leaf_flow_chat.Prelude.{
  ℕ, String, ◌≡◌, ◌≤◌, Bool, false, not, Option, none, some, count_p, ◌==◌,
}
use leaf_flow_chat.Domain.{Uuid, SubjectId}
use leaf_flow_chat.Db.Models.{Db, OutboxMessageModel}
use leaf_flow_chat.Db.Constraints.{
  is_conversation, is_message, is_participant_row, is_read_state_row, is_member, is_sent, is_reader,
  has_conversation, has_message,
}

-- a marker that names a message which is gone
abbrev pub is_dangling : Db → Option Uuid → Bool
is_dangling db none = false
is_dangling db (some id) = not (has_message db id)

pub record IsValid (db : Db) : Type 0 where
  pub conversation_once : (i : Uuid) → count_p (is_conversation i) db.conversations ≤ 1
  pub message_once : (i : Uuid) → count_p (is_message i) db.messages ≤ 1
  pub participant_once : (i : Uuid) → count_p (is_participant_row i) db.participants ≤ 1
  pub read_state_once : (i : Uuid) → count_p (is_read_state_row i) db.read_states ≤ 1
  pub member_once :
      (c : Uuid) (k : String) (i : SubjectId) → count_p (is_member c k i) db.participants ≤ 1
  pub sent_once :
      (c : Uuid) (k : String) (i : SubjectId) (m : Uuid) → count_p (is_sent c k i m) db.messages ≤ 1
  pub reader_once :
      (c : Uuid) (k : String) (i : SubjectId) → count_p (is_reader c k i) db.read_states ≤ 1
  pub members_placed :
      count_p (λ p. not (has_conversation db p.conversation_id)) db.participants ≡ 0
  pub messages_placed : count_p (λ m. not (has_conversation db m.conversation_id)) db.messages ≡ 0
  pub readers_placed : count_p (λ r. not (has_conversation db r.conversation_id)) db.read_states ≡ 0
  pub markers_placed : count_p (λ r. is_dangling db r.last_read_message_id) db.read_states ≡ 0
