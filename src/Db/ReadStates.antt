-- ===== src/Db/ReadStates.antt =====
-- infrastructure/db/repositories/read_state.py
use leaf_flow_chat.Prelude.{String, Bool, true, false, some}
use leaf_flow_chat.Domain.{Uuid, Timestamp, SubjectId}
use leaf_flow_chat.Errors.{integrity_error}
use leaf_flow_chat.Sql.{Sql}
use leaf_flow_chat.Db.Constraints.{is_reader, exists_row, read_state_refused, read_state_taken}
use leaf_flow_chat.Db.Session.{Action, raise_if, query, write, uuid4, server_time, ◌>>=◌, ◌>>◌}

module _ ⦃sql : Sql⦄ where
  -- the two outcomes of INSERT … ON CONFLICT … DO UPDATE
  unfoldable pub update_or_insert :
      Uuid → String → SubjectId → Uuid → Uuid → Timestamp → Bool → Action (Unit {0})
  update_or_insert conversation_id kind subject_id last_message_id id now true = write (λ db.
      record db {
        read_states =
            sql.update (is_reader conversation_id kind subject_id)
              (λ r. record r { last_read_message_id = some last_message_id }) db.read_states;
      })
  update_or_insert conversation_id kind subject_id last_message_id id now false = write (λ db.
      record db {
        read_states =
            sql.insert
              (record {
                id = id;
                conversation_id = conversation_id;
                kind = kind;
                subject_id = subject_id;
                last_read_message_id = some last_message_id;
                updated_at = now;
              })
              db.read_states;
      })

  -- ON CONFLICT DO UPDATE sets the one column that it names: `onupdate` does not apply to it.
  unfoldable pub upsert_last_read : Uuid → String → SubjectId → Uuid → Action (Unit {0})
  upsert_last_read conversation_id kind subject_id last_message_id = do
    id ← uuid4
    now ← server_time
    found ← query (λ db. exists_row (is_reader conversation_id kind subject_id) db.read_states)
    raise_if (← query (λ db. read_state_taken db id found)) integrity_error
    raise_if (← query (λ db. read_state_refused db conversation_id last_message_id)) integrity_error
    update_or_insert conversation_id kind subject_id last_message_id id now found
