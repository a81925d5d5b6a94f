-- ===== src/Db/Constraints.antt =====
-- The constraints that infrastructure/db/models declares: primary keys, the unique constraints
-- and the foreign keys. The server refuses a row that violates one.
use leaf_flow_chat.Prelude.{String, Bool, not, ◌&&◌, ◌||◌, List, ltb, ◌==◌, str_eq, count_p}
use leaf_flow_chat.Domain.{Uuid, SubjectId}
use leaf_flow_chat.Db.Models.{Db, ConversationModel, ParticipantModel, MessageModel, ReadStateModel}

abbrev pub exists_row : {A : Type 0} → (A → Bool) → List A → Bool
exists_row w t = ltb 0 (count_p w t)

abbrev pub is_conversation : Uuid → ConversationModel → Bool
is_conversation id c = c.id == id

abbrev pub is_message : Uuid → MessageModel → Bool
is_message id m = m.id == id

abbrev pub is_participant_row : Uuid → ParticipantModel → Bool
is_participant_row id p = p.id == id

abbrev pub is_read_state_row : Uuid → ReadStateModel → Bool
is_read_state_row id r = r.id == id

-- the columns of `uq_participant_member`
abbrev pub is_member : Uuid → String → SubjectId → ParticipantModel → Bool
is_member conversation_id kind subject_id p =
    p.conversation_id == conversation_id && str_eq p.kind kind && p.subject_id == subject_id

-- the columns of `uq_message_idempotency`
abbrev pub is_sent : Uuid → String → SubjectId → Uuid → MessageModel → Bool
is_sent conversation_id sender_kind sender_id client_msg_id m =
    m.conversation_id == conversation_id
    && str_eq m.sender_kind sender_kind
    && m.sender_id == sender_id
    && m.client_msg_id == client_msg_id

-- the columns of `uq_read_state_member`
abbrev pub is_reader : Uuid → String → SubjectId → ReadStateModel → Bool
is_reader conversation_id kind subject_id r =
    r.conversation_id == conversation_id && str_eq r.kind kind && r.subject_id == subject_id

-- the foreign keys to conversations.id and messages.id
abbrev pub has_conversation : Db → Uuid → Bool
has_conversation db id = exists_row (is_conversation id) db.conversations

abbrev pub has_message : Db → Uuid → Bool
has_message db id = exists_row (is_message id) db.messages

unfoldable pub conversation_refused : Db → ConversationModel → Bool
conversation_refused db c = has_conversation db c.id

unfoldable pub participant_refused : Db → ParticipantModel → Bool
participant_refused db p =
    exists_row (is_participant_row p.id) db.participants
    || exists_row (is_member p.conversation_id p.kind p.subject_id) db.participants
    || not (has_conversation db p.conversation_id)

-- `uq_message_idempotency` is left out: the only insertion has ON CONFLICT DO NOTHING for it.
unfoldable pub message_refused : Db → MessageModel → Bool
message_refused db m = has_message db m.id || not (has_conversation db m.conversation_id)

-- the foreign keys of a read state, which are checked for an insertion and for an update
unfoldable pub read_state_refused : Db → Uuid → Uuid → Bool
read_state_refused db conversation_id last_message_id =
    not (has_conversation db conversation_id) || not (has_message db last_message_id)

-- the primary key of a read state, which only an insertion can violate
unfoldable pub read_state_taken : Db → Uuid → Bool → Bool
read_state_taken db id found = not found && exists_row (is_read_state_row id) db.read_states
