-- ===== src/Db/Participants.antt =====
-- infrastructure/db/repositories/participant.py
use leaf_flow_chat.Prelude.{String, Bool, List, map, is_some, ◌==◌}
use leaf_flow_chat.Domain.{Uuid, SubjectId, Participant}
use leaf_flow_chat.Errors.{integrity_error}
use leaf_flow_chat.Sql.{Sql, unordered}
use leaf_flow_chat.Sql.Laws.{fetch}
use leaf_flow_chat.Db.Mappers.ParticipantMapper
use leaf_flow_chat.Db.Constraints.{is_member, participant_refused}
use leaf_flow_chat.Db.Session.{Action, raise_if, query, write, uuid4, ◌>>=◌, ◌>>◌}

module _ ⦃sql : Sql⦄ where
  unfoldable pub is_participant : Uuid → String → SubjectId → Action Bool
  is_participant conversation_id kind subject_id =
      query (λ db.
        is_some (fetch (is_member conversation_id kind subject_id) unordered db.participants))

  unfoldable pub list_participants : Uuid → Action (List Participant)
  list_participants conversation_id = query (λ db.
      map ParticipantMapper.model_to_entity
        (sql.select (λ p. p.conversation_id == conversation_id) unordered db.participants))

  unfoldable pub add : Participant → Action (Unit {0})
  add participant = do
    id ← uuid4
    let model = ParticipantMapper.entity_to_model id participant
    raise_if (← query (λ db. participant_refused db model)) integrity_error
    write (λ db. record db { participants = sql.insert model db.participants })
