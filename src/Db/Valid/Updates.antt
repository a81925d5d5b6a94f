-- ===== src/Db/Valid/Updates.antt =====
-- An update that leaves keys and references alone leaves the database valid.
use leaf_flow_chat.Prelude.{
  ◌≡◌, refl, Bool, true, false, not, some, List, arith, if◌then◌else◌, count_p, count_p_mono,
}
use leaf_flow_chat.Domain.{Uuid}
use leaf_flow_chat.Sql.{Sql}
use leaf_flow_chat.Sql.Laws.{count_p-update_same}
use leaf_flow_chat.Db.Models.{Db, ConversationModel, ReadStateModel, OutboxMessageModel}
use leaf_flow_chat.Db.Constraints.{
  is_conversation, is_read_state_row, is_reader, has_conversation, read_state_refused,
}
use leaf_flow_chat.Db.Valid.{IsValid, is_dangling}

-- The outbox has no part in the invariant.
pub outbox-IsValid :
    (db : Db) (t : List OutboxMessageModel) → IsValid db → IsValid (record db { outbox = t })
outbox-IsValid db t v = record {
  conversation_once = v.conversation_once;
  message_once = v.message_once;
  participant_once = v.participant_once;
  read_state_once = v.read_state_once;
  member_once = v.member_once;
  sent_once = v.sent_once;
  reader_once = v.reader_once;
  members_placed = v.members_placed;
  messages_placed = v.messages_placed;
  readers_placed = v.readers_placed;
  markers_placed = v.markers_placed;
}

module _ ⦃sql : Sql⦄ where
  -- An update of conversations that keeps their ids.
  pub update_conversation-IsValid :
      (db : Db) (w : ConversationModel → Bool) (f : ConversationModel → ConversationModel)
      → IsValid db
      → ((c : ConversationModel) → (f c).id ≡ c.id)
      → IsValid (record db { conversations = sql.update w f db.conversations })
  update_conversation-IsValid db w f v keeps = record {
    conversation_once = λ i. omega (arith, v.conversation_once i, same_count i);
    message_once = v.message_once;
    participant_once = v.participant_once;
    read_state_once = v.read_state_once;
    member_once = v.member_once;
    sent_once = v.sent_once;
    reader_once = v.reader_once;
    members_placed = omega (
      arith,
      v.members_placed,
      count_p_mono (λ p. not (has_conversation db' p.conversation_id))
          (λ p. not (has_conversation db p.conversation_id)) db.participants
          (λ p. still p.conversation_id),
    );
    messages_placed = omega (
      arith,
      v.messages_placed,
      count_p_mono (λ m. not (has_conversation db' m.conversation_id))
          (λ m. not (has_conversation db m.conversation_id)) db.messages
          (λ m. still m.conversation_id),
    );
    readers_placed = omega (
      arith,
      v.readers_placed,
      count_p_mono (λ r. not (has_conversation db' r.conversation_id))
          (λ r. not (has_conversation db r.conversation_id)) db.read_states
          (λ r. still r.conversation_id),
    );
    markers_placed = v.markers_placed;
  }
    where
      db' : Db
      db' = record db { conversations = sql.update w f db.conversations }

      same_count :
          (i : Uuid)
          → count_p (is_conversation i) (sql.update w f db.conversations)
            ≡ count_p (is_conversation i) db.conversations
      same_count i =
          count_p-update_same (is_conversation i) w f db.conversations
            (λ c q. ground (arith, keeps c))

      still : (i : Uuid) → not (has_conversation db' i) ≡ true → not (has_conversation db i) ≡ true
      still i h = ground (arith, same_count i)

  -- The update of a marker, to a message that is there.
  pub update_read_state-IsValid :
      (db : Db) (w : ReadStateModel → Bool) (conversation_id id : Uuid)
      → IsValid db
      → read_state_refused db conversation_id id ≡ false
      → IsValid (record db {
        read_states =
            sql.update w (λ r. record r { last_read_message_id = some id }) db.read_states;
      })
  unfolding read_state_refused
  update_read_state-IsValid db w conversation_id id v placed = record {
    conversation_once = v.conversation_once;
    message_once = v.message_once;
    participant_once = v.participant_once;
    read_state_once = λ i. omega (
      arith,
      v.read_state_once i,
      count_p-update_same (is_read_state_row i) w mark db.read_states (λ r q. refl),
    );
    member_once = v.member_once;
    sent_once = v.sent_once;
    reader_once = λ c k i. omega (
      arith,
      v.reader_once c k i,
      count_p-update_same (is_reader c k i) w mark db.read_states (λ r q. refl),
    );
    members_placed = v.members_placed;
    messages_placed = v.messages_placed;
    readers_placed = omega (
      arith,
      v.readers_placed,
      count_p-update_same (λ r. not (has_conversation db r.conversation_id)) w mark db.read_states
          (λ r q. refl),
    );
    markers_placed = omega (
      arith,
      v.markers_placed,
      sql.count_p-update (λ r. is_dangling db r.last_read_message_id) w mark db.read_states,
      count_p_mono (λ r. is_dangling db (if w r then mark r else r).last_read_message_id)
          (λ r. is_dangling db r.last_read_message_id) db.read_states (λ r. ground arith),
    );
  }
    where
      mark : ReadStateModel → ReadStateModel
      mark r = record r { last_read_message_id = some id }
