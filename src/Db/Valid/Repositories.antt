-- ===== src/Db/Valid/Repositories.antt =====
-- The repositories keep both views of the database valid.
use leaf_flow_chat.Prelude.{
  ℕ, ◌≡◌, refl, String, Option, none, some, List, arith, Bool-cases, inl, inr,
}
use leaf_flow_chat.Domain.{Uuid, SubjectId, Timestamp, Conversation, Participant, Message, Payload}
use leaf_flow_chat.Sql.{Sql}
use leaf_flow_chat.Db.Models.{
  Db, ConversationModel, MessageModel, ReadStateModel, OutboxMessageModel,
}
use leaf_flow_chat.Db.Session.{commit, ◌>>=◌}
use leaf_flow_chat.Db.Constraints.{is_reader, exists_row, read_state_taken}
use leaf_flow_chat.Db.Mappers.ConversationMapper
use leaf_flow_chat.Db.Mappers.ParticipantMapper
use leaf_flow_chat.Db.Conversations.{
  create, update_conversation, assign, close, touch_last_message_at,
}
use leaf_flow_chat.Db.Participants
use leaf_flow_chat.Db.Messages.{
  create_if_not_exists, insert_or_nothing, inserted_or_existing, get_by_client_msg_id,
  existing_or_assert,
}
use leaf_flow_chat.Db.ReadStates.{upsert_last_read, update_or_insert}
use leaf_flow_chat.Db.Outbox
use leaf_flow_chat.Db.Valid.{IsValid}
use leaf_flow_chat.Db.Valid.Keeps.{Keeps, keeps_rules}
use leaf_flow_chat.Db.Valid.Inserts.{
  insert_conversation-IsValid, insert_participant-IsValid, insert_message-IsValid,
  insert_read_state-IsValid,
}
use leaf_flow_chat.Db.Valid.Updates.{
  outbox-IsValid, update_conversation-IsValid, update_read_state-IsValid,
}

abbrev pub BothValid : Db → Db → Type 0
BothValid committed working = IsValid committed × IsValid working

pub commit-Keeps : Keeps BothValid commit
unfolding commit
commit-Keeps = record { at = λ s h. (h.1, h.1) }

existing_or_assert-Keeps : (found : Option Message) → Keeps BothValid (existing_or_assert found)
unfolding existing_or_assert
existing_or_assert-Keeps none = search keeps_rules
existing_or_assert-Keeps (some existing) = search keeps_rules

module _ ⦃sql : Sql⦄ where
  pub create-Keeps : (c : Conversation) → Keeps BothValid (create c)
  unfolding create ◌>>=◌
  create-Keeps c = record {
    at = λ s h.
        ground
          (arith, insert_conversation-IsValid s.working (ConversationMapper.entity_to_model c) h.1);
  }

  pub update_conversation-Keeps :
      (i : Uuid) (f : ConversationModel → ConversationModel)
      → ((c : ConversationModel) → (f c).id ≡ c.id)
      → Keeps BothValid (update_conversation i f)
  unfolding update_conversation ◌>>=◌
  update_conversation-Keeps i f keeps = record {
    at = λ s h. (h.0, update_conversation-IsValid s.working _ _ h.1 keeps);
  }

  pub assign-Keeps : (i : Uuid) (a : Option SubjectId) → Keeps BothValid (assign i a)
  unfolding assign
  assign-Keeps i a = update_conversation-Keeps i _ (λ c. refl)

  pub close-Keeps : (i : Uuid) → Keeps BothValid (close i)
  unfolding close
  close-Keeps i = update_conversation-Keeps i _ (λ c. refl)

  pub touch-Keeps : (i : Uuid) (ts : Timestamp) → Keeps BothValid (touch_last_message_at i ts)
  unfolding touch_last_message_at
  touch-Keeps i ts = update_conversation-Keeps i _ (λ c. refl)

  pub add_participant-Keeps : (p : Participant) → Keeps BothValid (Participants.add p)
  unfolding Participants.add ◌>>=◌
  add_participant-Keeps p = record {
    at = λ s h. ground (
      arith,
      insert_participant-IsValid s.working (ParticipantMapper.entity_to_model (s.uuids s.drawn) p)
          h.1,
    );
  }

  insert_or_nothing-Keeps : (m : MessageModel) → Keeps BothValid (insert_or_nothing m)
  unfolding insert_or_nothing ◌>>=◌
  insert_or_nothing-Keeps m = record {
    at = λ s h. ground (arith, insert_message-IsValid s.working m h.1);
  }

  inserted_or_existing-Keeps :
      (m : Message) (row : Option MessageModel) → Keeps BothValid (inserted_or_existing m row)
  unfolding inserted_or_existing get_by_client_msg_id
  inserted_or_existing-Keeps m (some row) = search keeps_rules
  inserted_or_existing-Keeps m none = search (keeps_rules, existing_or_assert-Keeps)

  pub create_if_not_exists-Keeps : (m : Message) → Keeps BothValid (create_if_not_exists m)
  unfolding create_if_not_exists
  create_if_not_exists-Keeps m =
      search (keeps_rules, insert_or_nothing-Keeps, inserted_or_existing-Keeps)

  pub upsert_last_read-Keeps :
      (c : Uuid) (k : String) (i : SubjectId) (m : Uuid)
      → Keeps BothValid (upsert_last_read c k i m)
  unfolding upsert_last_read update_or_insert read_state_taken ◌>>=◌
  upsert_last_read-Keeps c k i m = record {
    at = λ s h.
        let row : ReadStateModel = record {
          id = s.uuids s.drawn;
          conversation_id = c;
          kind = k;
          subject_id = i;
          last_read_message_id = some m;
          updated_at = s.server_now;
        } in
        elim (Bool-cases (exists_row (is_reader c k i) s.working.read_states)) [
          | inl here ↦
              rw here
                (ground (arith, h, update_read_state-IsValid s.working (is_reader c k i) c m h.1))
          | inr unread ↦
              rw unread
                (ground (arith, h, insert_read_state-IsValid s.working row m h.1 unread refl))
        ];
  }

  pub add_event-Keeps : (t : String) (p : Payload) → Keeps BothValid (Outbox.add t p)
  unfolding Outbox.add
  add_event-Keeps t p = record { at = λ s h. (h.0, outbox-IsValid s.working _ h.1) }

  pub update_outbox-Keeps :
      (ids : List ℕ) (f : OutboxMessageModel → OutboxMessageModel)
      → Keeps BothValid (Outbox.update_outbox ids f)
  unfolding Outbox.update_outbox
  update_outbox-Keeps ids f = record { at = λ s h. (h.0, outbox-IsValid s.working _ h.1) }

-- what `search` uses on the services
pub ruleset valid_rules = (
  keeps_rules, commit-Keeps, create-Keeps, assign-Keeps, close-Keeps, touch-Keeps,
  add_participant-Keeps, create_if_not_exists-Keeps, upsert_last_read-Keeps, add_event-Keeps,
)
