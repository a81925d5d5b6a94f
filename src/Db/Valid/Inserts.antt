-- ===== src/Db/Valid/Inserts.antt =====
-- A row that the constraints accept leaves the database valid.
use leaf_flow_chat.Prelude.{
  String, ◌≡◌, ◌≤◌, subst, inl, inr, Bool, true, false, not, Option, some, none, List, arith,
  eq_iff, count_p, count_p_mono, Bool-cases,
}
use leaf_flow_chat.Domain.{Uuid, SubjectId}
use leaf_flow_chat.Sql.{Sql}
use leaf_flow_chat.Db.Models.{Db, ConversationModel, ParticipantModel, MessageModel, ReadStateModel}
use leaf_flow_chat.Db.Constraints.{
  is_conversation, is_message, is_participant_row, is_read_state_row, is_member, is_sent, is_reader,
  has_conversation, exists_row, conversation_refused, participant_refused, message_refused,
  read_state_refused, read_state_taken,
}
use leaf_flow_chat.Db.Valid.{IsValid, is_dangling}

module _ ⦃sql : Sql⦄ where
  -- A row whose key is new leaves every key at most once.
  insert_once :
      {K A : Type 0} (w : K → A → Bool) (key k : K) (r : A) (t : List A)
      → count_p (w key) t ≡ 0
      → (w k r ≡ true → key ≡ k)
      → count_p (w k) t ≤ 1
      → count_p (w k) (sql.insert r t) ≤ 1
  insert_once w key k r t new own once = elim (Bool-cases (w k r)) [
    | inl e ↦
        ground (arith, sql.count_p-insert (w k) r t, subst (λ x. count_p (w x) t ≡ 0) (own e) new)
    | inr e ↦ ground (arith, sql.count_p-insert (w k) r t)
  ]

  pub insert_conversation-IsValid :
      (db : Db) (c : ConversationModel)
      → IsValid db
      → conversation_refused db c ≡ false
      → IsValid (record db { conversations = sql.insert c db.conversations })
  unfolding conversation_refused
  insert_conversation-IsValid db c v new = record {
    conversation_once = λ i.
        insert_once is_conversation c.id i c db.conversations (ground arith) (λ h. ground arith)
          (v.conversation_once i);
    message_once = v.message_once;
    participant_once = v.participant_once;
    read_state_once = v.read_state_once;
    member_once = v.member_once;
    sent_once = v.sent_once;
    reader_once = v.reader_once;
    members_placed = omega (
      arith,
      v.members_placed,
      count_p_mono (λ p. not (has_conversation db' p.conversation_id))
          (λ p. not (has_conversation db p.conversation_id)) db.participants
          (λ p. still p.conversation_id),
    );
    messages_placed = omega (
      arith,
      v.messages_placed,
      count_p_mono (λ m. not (has_conversation db' m.conversation_id))
          (λ m. not (has_conversation db m.conversation_id)) db.messages
          (λ m. still m.conversation_id),
    );
    readers_placed = omega (
      arith,
      v.readers_placed,
      count_p_mono (λ r. not (has_conversation db' r.conversation_id))
          (λ r. not (has_conversation db r.conversation_id)) db.read_states
          (λ r. still r.conversation_id),
    );
    markers_placed = v.markers_placed;
  }
    where
      db' : Db
      db' = record db { conversations = sql.insert c db.conversations }

      still : (i : Uuid) → not (has_conversation db' i) ≡ true → not (has_conversation db i) ≡ true
      still i h = ground (arith, sql.count_p-insert (is_conversation i) c db.conversations)

  pub insert_participant-IsValid :
      (db : Db) (p : ParticipantModel)
      → IsValid db
      → participant_refused db p ≡ false
      → IsValid (record db { participants = sql.insert p db.participants })
  unfolding participant_refused
  insert_participant-IsValid db p v new = record {
    conversation_once = v.conversation_once;
    message_once = v.message_once;
    participant_once = λ i.
        insert_once is_participant_row p.id i p db.participants (ground arith) (λ h. ground arith)
          (v.participant_once i);
    read_state_once = v.read_state_once;
    member_once = λ c k i.
        insert_once (λ (x : Uuid × String × SubjectId). is_member x.0 x.1 x.2)
          (p.conversation_id, p.kind, p.subject_id) (c, k, i) p db.participants (ground arith)
          (λ h. ground (arith, eq_iff p.kind k)) (v.member_once c k i);
    sent_once = v.sent_once;
    reader_once = v.reader_once;
    members_placed = ground (
      arith,
      v.members_placed,
      sql.count_p-insert (λ q. not (has_conversation db q.conversation_id)) p db.participants,
    );
    messages_placed = v.messages_placed;
    readers_placed = v.readers_placed;
    markers_placed = v.markers_placed;
  }

  pub insert_message-IsValid :
      (db : Db) (m : MessageModel)
      → IsValid db
      → exists_row (is_sent m.conversation_id m.sender_kind m.sender_id m.client_msg_id) db.messages
        ≡ false
      → message_refused db m ≡ false
      → IsValid (record db { messages = sql.insert m db.messages })
  unfolding message_refused
  insert_message-IsValid db m v unsent new = record {
    conversation_once = v.conversation_once;
    message_once = λ i.
        insert_once is_message m.id i m db.messages (ground arith) (λ h. ground arith)
          (v.message_once i);
    participant_once = v.participant_once;
    read_state_once = v.read_state_once;
    member_once = v.member_once;
    sent_once = λ c k i n.
        insert_once (λ (x : Uuid × String × SubjectId × Uuid). is_sent x.0 x.1 x.2 x.3)
          (m.conversation_id, m.sender_kind, m.sender_id, m.client_msg_id) (c, k, i, n) m
          db.messages (ground arith) (λ h. ground (arith, eq_iff m.sender_kind k))
          (v.sent_once c k i n);
    reader_once = v.reader_once;
    members_placed = v.members_placed;
    messages_placed = ground (
      arith,
      v.messages_placed,
      sql.count_p-insert (λ q. not (has_conversation db q.conversation_id)) m db.messages,
    );
    readers_placed = v.readers_placed;
    markers_placed = omega (
      arith,
      v.markers_placed,
      count_p_mono (λ r. is_dangling db' r.last_read_message_id)
          (λ r. is_dangling db r.last_read_message_id) db.read_states
          (λ r. still r.last_read_message_id),
    );
  }
    where
      db' : Db
      db' = record db { messages = sql.insert m db.messages }

      still : (o : Option Uuid) → is_dangling db' o ≡ true → is_dangling db o ≡ true
      still none h = h
      still (some i) h = ground (arith, sql.count_p-insert (is_message i) m db.messages)

  pub insert_read_state-IsValid :
      (db : Db) (r : ReadStateModel) (id : Uuid)
      → IsValid db
      → exists_row (is_reader r.conversation_id r.kind r.subject_id) db.read_states ≡ false
      → r.last_read_message_id ≡ some id
      → read_state_refused db r.conversation_id id ≡ false
      → read_state_taken db r.id false ≡ false
      → IsValid (record db { read_states = sql.insert r db.read_states })
  unfolding read_state_refused read_state_taken
  insert_read_state-IsValid db r id v unread marks new untaken = record {
    conversation_once = v.conversation_once;
    message_once = v.message_once;
    participant_once = v.participant_once;
    read_state_once = λ i.
        insert_once is_read_state_row r.id i r db.read_states (ground arith) (λ h. ground arith)
          (v.read_state_once i);
    member_once = v.member_once;
    sent_once = v.sent_once;
    reader_once = λ c k i.
        insert_once (λ (x : Uuid × String × SubjectId). is_reader x.0 x.1 x.2)
          (r.conversation_id, r.kind, r.subject_id) (c, k, i) r db.read_states (ground arith)
          (λ h. ground (arith, eq_iff r.kind k)) (v.reader_once c k i);
    members_placed = v.members_placed;
    messages_placed = v.messages_placed;
    readers_placed = ground (
      arith,
      v.readers_placed,
      sql.count_p-insert (λ q. not (has_conversation db q.conversation_id)) r db.read_states,
    );
    markers_placed = ground (
      arith,
      v.markers_placed,
      sql.count_p-insert (λ q. is_dangling db q.last_read_message_id) r db.read_states,
    );
  }
