-- ===== src/Services/ReadStateService/Marks.antt =====
-- Where a read marker stands after `mark_read`.
use leaf_flow_chat.Prelude.{
  ◌≡◌, refl, inl, inr, Bool, true, false, none, some, arith, Bool-cases, Option-cases, eq_iff,
}
use leaf_flow_chat.Domain.{Uuid, kind_value}
use leaf_flow_chat.Errors.{integrity_error, ok, err}
use leaf_flow_chat.Principal.{Principal}
use leaf_flow_chat.Permissions.{assert_conversation_access}
use leaf_flow_chat.Permissions.Access.{may_access, no_conversation, no_member, access_decides}
use leaf_flow_chat.Sql.{Sql, unordered}
use leaf_flow_chat.Sql.Laws.{fetch, is_some-fetch, fetch-none, fetch-insert, fetch-update}
use leaf_flow_chat.Db.Models.{ConversationModel, ReadStateModel, ReadStateModel-discrete}
use leaf_flow_chat.Db.Mappers.ConversationMapper
use leaf_flow_chat.Db.Constraints.{
  is_conversation, is_reader, exists_row, read_state_refused, read_state_taken,
}
use leaf_flow_chat.Db.Conversations.{get_by_id}
use leaf_flow_chat.Db.ReadStates.{update_or_insert, upsert_last_read}
use leaf_flow_chat.Db.Session.{Session, commit, ◌>>=◌}
use leaf_flow_chat.Db.Valid.{IsValid}
use leaf_flow_chat.Services.ReadStateService.{mark_read}

module _ ⦃sql : Sql⦄ (c : Uuid) (p : Principal) (m : Uuid) (s : Session) where
  abbrev mine : ReadStateModel → Bool
  mine = is_reader c (kind_value p.kind) p.subject_id

  abbrev marked : ReadStateModel → ReadStateModel
  marked r = record r { last_read_message_id = some m }

  abbrev fresh : ReadStateModel
  fresh = record {
    id = s.uuids s.drawn;
    conversation_id = c;
    kind = kind_value p.kind;
    subject_id = p.subject_id;
    last_read_message_id = some m;
    updated_at = s.server_now;
  }

  mark_read-missing :
      fetch (is_conversation c) unordered s.working.conversations ≡ none
      → (mark_read c p m s).0 ≡ err no_conversation
  unfolding mark_read get_by_id ◌>>=◌ assert_conversation_access
  mark_read-missing missing = ground arith

  module _ (x : ConversationModel)
      (there : fetch (is_conversation c) unordered s.working.conversations ≡ some x) where
    abbrev allows : Bool
    allows = may_access s.working p (ConversationMapper.model_to_entity x)

    mark_read-denied : allows ≡ false → (mark_read c p m s).0 ≡ err no_member
    unfolding mark_read get_by_id ◌>>=◌
    mark_read-denied denied =
        ground (arith, access_decides p (ConversationMapper.model_to_entity x) s)

    mark_read-refused :
        allows ≡ true
        → read_state_refused s.working c m ≡ true
        → (mark_read c p m s).0 ≡ err integrity_error
    unfolding mark_read get_by_id upsert_last_read ◌>>=◌
    mark_read-refused allowed bad =
        ground (arith, access_decides p (ConversationMapper.model_to_entity x) s)

    mark_read-taken :
        allows ≡ true
        → read_state_taken s.working (s.uuids s.drawn) (exists_row mine s.working.read_states)
          ≡ true
        → (mark_read c p m s).0 ≡ err integrity_error
    unfolding mark_read get_by_id upsert_last_read ◌>>=◌
    mark_read-taken allowed bad =
        ground (arith, access_decides p (ConversationMapper.model_to_entity x) s)

    mark_read-updates :
        allows ≡ true
        → read_state_refused s.working c m ≡ false
        → read_state_taken s.working (s.uuids s.drawn) (exists_row mine s.working.read_states)
          ≡ false
        → exists_row mine s.working.read_states ≡ true
        → (mark_read c p m s).1.committed.read_states ≡ sql.update mine marked s.working.read_states
    unfolding mark_read get_by_id upsert_last_read update_or_insert commit ◌>>=◌
    mark_read-updates allowed good untaken here =
        ground (arith, access_decides p (ConversationMapper.model_to_entity x) s)

    mark_read-inserts :
        allows ≡ true
        → read_state_refused s.working c m ≡ false
        → read_state_taken s.working (s.uuids s.drawn) (exists_row mine s.working.read_states)
          ≡ false
        → exists_row mine s.working.read_states ≡ false
        → (mark_read c p m s).1.committed.read_states ≡ sql.insert fresh s.working.read_states
    unfolding mark_read get_by_id upsert_last_read update_or_insert commit ◌>>=◌
    mark_read-inserts allowed good untaken apart =
        ground (arith, access_decides p (ConversationMapper.model_to_entity x) s)

    marks :
        allows ≡ true
        → read_state_refused s.working c m ≡ false
        → read_state_taken s.working (s.uuids s.drawn) (exists_row mine s.working.read_states)
          ≡ false
        → IsValid s.working
        → (r : ReadStateModel) × (fetch mine unordered (mark_read c p m s).1.committed.read_states
            ≡ some r)
          × (r.last_read_message_id ≡ some m)
    marks allowed good untaken v =
        elim (Option-cases (fetch mine unordered s.working.read_states)) [
          | inl missing ↦ (
            fresh,
            rw
                (mark_read-inserts allowed good untaken
                  (ground (arith, is_some-fetch mine unordered s.working.read_states)))
                (fetch-insert ReadStateModel-discrete mine unordered s.working.read_states fresh
                  (fetch-none mine unordered s.working.read_states missing)
                  (ground (arith, eq_iff (kind_value p.kind) (kind_value p.kind)))),
            refl,
          )
          | inr (old, here) ↦ (
            marked old,
            rw
                (mark_read-updates allowed good untaken
                  (ground (arith, is_some-fetch mine unordered s.working.read_states)))
                (fetch-update ReadStateModel-discrete mine marked unordered s.working.read_states
                  old (v.reader_once c (kind_value p.kind) p.subject_id) (λ y. refl) here),
            refl,
          )
        ]

  -- After a call of mark_read that returned, in a valid database, the committed read marker of the
  -- principal in the conversation names the message.
  pub mark_read_marks :
      IsValid s.working
      → (mark_read c p m s).0 ≡ ok tt
      → (r : ReadStateModel) × (fetch mine unordered (mark_read c p m s).1.committed.read_states
          ≡ some r)
        × (r.last_read_message_id ≡ some m)
  mark_read_marks v done =
      elim (Option-cases (fetch (is_conversation c) unordered s.working.conversations)) [
        | inl missing ↦ absurd (cc (mark_read-missing missing))
        | inr (x, there) ↦ elim (Bool-cases (allows x there)) [
          | inr denied ↦ absurd (cc (mark_read-denied x there denied))
          | inl allowed ↦ elim (Bool-cases (read_state_refused s.working c m)) [
            | inl bad ↦ absurd (cc (mark_read-refused x there allowed bad))
            | inr good ↦
                let id = s.uuids s.drawn in
                let here = exists_row mine s.working.read_states in
                elim (Bool-cases (read_state_taken s.working id here)) [
                  | inl taken ↦ absurd (cc (mark_read-taken x there allowed taken))
                  | inr untaken ↦ marks x there allowed good untaken v
                ]
          ]
        ]
      ]
