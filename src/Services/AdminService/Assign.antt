-- ===== src/Services/AdminService/Assign.antt =====
-- What assigning a conversation to an admin leaves.
use leaf_flow_chat.Prelude.{
  ◌≤◌, ℕ, ◌<>◌, ◌≡◌, refl, sym, ap, ◌∙◌, inl, inr, Bool, true, false, Option, some, is_some, List,
  [], ◌∷◌, arith, Bool-cases, count_p, str_int, eq_iff,
}
use leaf_flow_chat.Domain.{
  Uuid, SubjectId, Timestamp, Conversation, admin, kind_value, str, int, id,
}
use leaf_flow_chat.Errors.{Error, ok, err, app, forbidden, integrity_error, Result-cases}
use leaf_flow_chat.Principal.{Principal, is_admin}
use leaf_flow_chat.Permissions.{assert_admin}
use leaf_flow_chat.Sql.{Sql, unordered}
use leaf_flow_chat.Sql.Laws.{fetch, is_some-fetch, fetch-update, count_p-update_same}
use leaf_flow_chat.Db.Models.{ConversationModel, ConversationModel-discrete, ParticipantModel}
use leaf_flow_chat.Db.Mappers.ConversationMapper
use leaf_flow_chat.Db.Mappers.ParticipantMapper
use leaf_flow_chat.Db.Constraints.{is_conversation, is_member, exists_row, participant_refused}
use leaf_flow_chat.Db.Conversations.{get_by_id, assign, update_conversation}
use leaf_flow_chat.Db.Participants
use leaf_flow_chat.Db.Participants.{is_participant}
use leaf_flow_chat.Db.Session.{Session, ◌>>=◌}
use leaf_flow_chat.Db.Valid.{IsValid}
use leaf_flow_chat.Services.AdminService.{
  new_admin, found_or_raise, join_admin, record_change, assign_conversation,
}
use leaf_flow_chat.Services.AdminService.Change.{record_change_writes}

module _ ⦃sql : Sql⦄ (c : Uuid) (i : SubjectId) where
  abbrev pub is_joined : List ParticipantModel → Bool
  is_joined ps = exists_row (is_member c (kind_value admin) i) ps

  -- what of a session the joining leaves as it was, and the membership that it leaves
  record Joins (s t : Session) : Type 0 where
    pub conversations : t.working.conversations ≡ s.working.conversations
    pub clock : t.clock ≡ s.clock
    pub server_now : t.server_now ≡ s.server_now
    pub joined : is_joined t.working.participants ≡ true

  abbrev known : Session → Bool
  known s = is_some (fetch (is_member c (kind_value admin) i) unordered s.working.participants)

  abbrev membership : Session → ParticipantModel
  membership s =
      ParticipantMapper.entity_to_model (s.uuids s.drawn) (new_admin c i (s.clock s.ticks))

  join_admin-refused :
      (s : Session)
      → known s ≡ false
      → participant_refused s.working (membership s) ≡ true
      → (join_admin c i s).0 ≡ err integrity_error
  unfolding join_admin is_participant Participants.add ◌>>=◌
  join_admin-refused s e bad = rw e (rw bad refl)

  join_admin-Joins : (s : Session) → (join_admin c i s).0 ≡ ok tt → Joins s (join_admin c i s).1
  join_admin-Joins s h = elim (Bool-cases (known s)) [
    | inl e ↦
        unfold join_admin is_participant ◌>>=◌ in
        rw e (record {
          conversations = refl;
          clock = refl;
          server_now = refl;
          joined =
              sym
                (is_some-fetch (is_member c (kind_value admin) i) unordered s.working.participants)
              ∙ e;
        })
    | inr e ↦ elim (Bool-cases (participant_refused s.working (membership s))) [
      | inl bad ↦ absurd (cc (join_admin-refused s e bad))
      | inr good ↦
          unfold join_admin is_participant Participants.add ◌>>=◌ in
          rw e (
            rw good (record {
              conversations = refl;
              clock = refl;
              server_now = refl;
              joined = ground (
                arith,
                sql.count_p-insert (is_member c (kind_value admin) i) (membership s)
                    s.working.participants,
                eq_iff (kind_value admin) (kind_value admin),
              );
            }))
    ]
  ]

  module _ (p : Principal) (s : Session) where
    abbrev given : ConversationModel → ConversationModel
    given x = record x { assignee_admin_id = some i; updated_at = s.server_now }

    abbrev after_assign : Session
    after_assign = record s {
      working = record s.working {
        conversations = sql.update (is_conversation c) given s.working.conversations;
      };
    }

    assign-denied :
        is_admin p ≡ false
        → (assign_conversation c i p s).0 ≡ err (app (forbidden "Admin access required"))
    unfolding assign_conversation assert_admin ◌>>=◌
    assign-denied denied = rw denied refl

    assign-unjoined :
        (x : ConversationModel) (e : Error)
        → is_admin p ≡ true
        → fetch (is_conversation c) unordered s.working.conversations ≡ some x
        → (join_admin c i after_assign).0 ≡ err e
        → (assign_conversation c i p s).0 ≡ err e
    unfolding assign_conversation assert_admin get_by_id found_or_raise assign update_conversation
        ◌>>=◌
    assign-unjoined x e allowed there stopped = rw allowed (rw there (rw stopped refl))

    assign-run :
        (x : ConversationModel)
        → is_admin p ≡ true
        → fetch (is_conversation c) unordered s.working.conversations ≡ some x
        → (join_admin c i after_assign).0 ≡ ok tt
        → assign_conversation c i p s
          ≡ record_change c i
              ("Admin " <> str_int i <> " assigned to conversation")
              (("action", str "assigned") ∷ ("admin_id", int i) ∷ [])
              (("conversation_id", id c)
                ∷ ("action", str "assigned")
                ∷ ("assignee_admin_id", int i)
                ∷ [])
              (join_admin c i after_assign).1
    unfolding assign_conversation assert_admin get_by_id found_or_raise assign update_conversation
        ◌>>=◌
    assign-run x allowed there done = rw allowed (rw there (rw done refl))

  abbrev pub assigned : Timestamp → Timestamp → ConversationModel → ConversationModel
  assigned at now x = record x {
    assignee_admin_id = some i;
    last_message_at = some at;
    updated_at = now;
  }

  -- For a conversation that is there, in a valid database, a call of assign_conversation that
  -- returns was made by an admin, returns the conversation as it was but for the assignee,
  -- `last_message_at` (a reading of the clock) and `updated_at`, and has committed that row and a
  -- membership of the assignee, as an admin, in the conversation.
  pub assign_conversation_assigns :
      (p : Principal) (s : Session) (o : Option Conversation) (x : ConversationModel)
      → IsValid s.working
      → fetch (is_conversation c) unordered s.working.conversations ≡ some x
      → (assign_conversation c i p s).0 ≡ ok o
      → let s' = (assign_conversation c i p s).1 in
        (is_admin p ≡ true)
        × (n : ℕ) × (o
            ≡ some (ConversationMapper.model_to_entity (assigned (s.clock n) s.server_now x)))
        × (fetch (is_conversation c) unordered s'.committed.conversations
            ≡ some (assigned (s.clock n) s.server_now x))
        × (is_joined s'.committed.participants ≡ true)
  assign_conversation_assigns p s o x v there done = elim (Bool-cases (is_admin p)) [
    | inr denied ↦ absurd (cc (assign-denied p s denied))
    | inl allowed ↦ elim (Result-cases (join_admin c i (after_assign p s)).0) [
      | inr (e, stopped) ↦ absurd (cc (assign-unjoined p s x e allowed there stopped))
      | inl (u, entered) ↦ assigns allowed entered
    ]
  ]
    where
      t : Session
      t = (join_admin c i (after_assign p s)).1

      assigns :
          is_admin p ≡ true
          → (join_admin c i (after_assign p s)).0 ≡ ok tt
          → let s' = (assign_conversation c i p s).1 in
            (is_admin p ≡ true)
            × (n : ℕ) × (o
                ≡ some (ConversationMapper.model_to_entity (assigned (s.clock n) s.server_now x)))
            × (fetch (is_conversation c) unordered s'.committed.conversations
                ≡ some (assigned (s.clock n) s.server_now x))
            × (is_joined s'.committed.participants ≡ true)
      assigns allowed entered =
          let run = assign-run p s x allowed there entered in
          let j = join_admin-Joins (after_assign p s) entered in
          let once : count_p (is_conversation c) t.working.conversations ≤ 1 = omega (
            arith,
            v.conversation_once c,
            ap (count_p (is_conversation c)) j.conversations,
            count_p-update_same (is_conversation c) (is_conversation c) (given p s)
                s.working.conversations (λ y h. refl),
          ) in
          let found : fetch (is_conversation c) unordered t.working.conversations
              ≡ some (given p s x) =
            ap (fetch (is_conversation c) unordered) j.conversations
            ∙ fetch-update ConversationModel-discrete (is_conversation c) (given p s) unordered
                s.working.conversations x (v.conversation_once c) (λ y. refl) there in
          let wrote =
            record_change_writes c i _ _ _ t o (given p s x) once found
              (ap (λ r. r.0) (sym run) ∙ done) in
          let same : record (given p s x) {
            last_message_at = some (t.clock t.ticks);
            updated_at = t.server_now;
          }
              ≡ assigned (s.clock t.ticks) s.server_now x =
            ap (λ (f : ℕ → Timestamp). assigned (f t.ticks) t.server_now x) j.clock
            ∙ ap (λ u. assigned (s.clock t.ticks) u x) j.server_now in
          (
            allowed,
            t.ticks,
            wrote.0 ∙ ap (λ y. some (ConversationMapper.model_to_entity y)) same,
            rw run (
                rw wrote.1 (
                  fetch-update ConversationModel-discrete (is_conversation c) _ unordered
                    t.working.conversations (given p s x) once (λ y. refl) found
                  ∙ ap some same)),
            rw run (rw wrote.2 j.joined),
          )
