-- ===== src/Services/ConversationService/Repeat.antt =====
-- Asking again for the conversation of a topic finds the one that is there.
use leaf_flow_chat.Prelude.{
  ℕ, ◌+◌, String, ◌≡◌, refl, ap, ◌∙◌, inl, inr, Bool, true, false, none, some, arith, Bool-cases,
  Option-cases, eq_iff,
}
use leaf_flow_chat.Domain.{SubjectId, Conversation, opened, status_value}
use leaf_flow_chat.Errors.{integrity_error, ok, err}
use leaf_flow_chat.Sql.{Sql}
use leaf_flow_chat.Sql.Laws.{fetch, fetch-none, fetch-insert}
use leaf_flow_chat.Db.Models.{ConversationModel, ConversationModel-discrete, Db}
use leaf_flow_chat.Db.Mappers.ConversationMapper
use leaf_flow_chat.Db.Mappers.ParticipantMapper
use leaf_flow_chat.Db.Constraints.{conversation_refused, participant_refused}
use leaf_flow_chat.Db.Conversations.{get_by_topic, is_on_topic, newest_first, create}
use leaf_flow_chat.Db.Participants
use leaf_flow_chat.Db.Outbox
use leaf_flow_chat.Db.Session.{Session, commit, ◌>>=◌}
use leaf_flow_chat.Services.ConversationService.{
  new_conversation, new_user, create_conversation, existing_or_topic,
  get_or_create_topic_conversation,
}

module _ ⦃sql : Sql⦄ (t : String) (i : ℕ) (u : SubjectId) (s : Session) where
  abbrev pub wanted : ConversationModel → Bool
  wanted = is_on_topic t i (some (status_value opened))

  abbrev pub fresh : Conversation
  fresh = new_conversation t (some i) (s.clock s.ticks) (s.uuids s.drawn)

  abbrev drawn : Session
  drawn = record s { ticks = s.ticks + 1; drawn = s.drawn + 1 }

  topic-found :
      (x : ConversationModel)
      → fetch wanted newest_first s.working.conversations ≡ some x
      → get_or_create_topic_conversation t i u s
        ≡ (ok (ConversationMapper.model_to_entity x, false), s)
  unfolding get_or_create_topic_conversation existing_or_topic get_by_topic ◌>>=◌
  topic-found x h = rw h refl

  abbrev pub row : ConversationModel
  row = ConversationMapper.entity_to_model fresh

  abbrev pub with_conversation : Db
  with_conversation = record s.working { conversations = sql.insert row s.working.conversations }

  abbrev pub refused : Bool
  refused = participant_refused with_conversation (
      ParticipantMapper.entity_to_model (s.uuids (s.drawn + 1))
        (new_user (s.uuids s.drawn) u (s.clock s.ticks)))

  topic-taken :
      fetch wanted newest_first s.working.conversations ≡ none
      → conversation_refused s.working row ≡ true
      → (get_or_create_topic_conversation t i u s).0 ≡ err integrity_error
  unfolding get_or_create_topic_conversation existing_or_topic get_by_topic create_conversation
      create ◌>>=◌
  topic-taken missing bad = rw missing (rw bad refl)

  topic-closed :
      fetch wanted newest_first s.working.conversations ≡ none
      → conversation_refused s.working row ≡ false
      → refused ≡ true
      → (get_or_create_topic_conversation t i u s).0 ≡ err integrity_error
  unfolding get_or_create_topic_conversation existing_or_topic get_by_topic create_conversation
      create Participants.add ◌>>=◌
  topic-closed missing good bad = rw missing (rw good (rw bad refl))

  pub topic-made :
      fetch wanted newest_first s.working.conversations ≡ none
      → conversation_refused s.working row ≡ false
      → refused ≡ false
      → ((get_or_create_topic_conversation t i u s).0 ≡ ok (fresh, true))
        × ((get_or_create_topic_conversation t i u s).1.working.conversations
            ≡ sql.insert row s.working.conversations)
        × ((get_or_create_topic_conversation t i u s).1.committed
            ≡ (get_or_create_topic_conversation t i u s).1.working)
  unfolding get_or_create_topic_conversation existing_or_topic get_by_topic create_conversation
      create Participants.add Outbox.add commit ◌>>=◌
  topic-made missing good fine = rw missing (rw good (rw fine (refl, refl, refl)))

  -- A call that returns leaves nothing uncommitted that was not there before.
  pub topic-committed :
      (c : Conversation) (created : Bool)
      → (get_or_create_topic_conversation t i u s).0 ≡ ok (c, created)
      → s.committed ≡ s.working
      → (get_or_create_topic_conversation t i u s).1.committed
        ≡ (get_or_create_topic_conversation t i u s).1.working
  topic-committed c created first clean =
      elim (Option-cases (fetch wanted newest_first s.working.conversations)) [
        | inr (x, there) ↦ rw (topic-found x there) clean
        | inl missing ↦ elim (Bool-cases (conversation_refused s.working row)) [
          | inl bad ↦ absurd (cc (topic-taken missing bad))
          | inr good ↦ elim (Bool-cases refused) [
            | inl bad ↦ absurd (cc (topic-closed missing good bad))
            | inr fine ↦ (topic-made missing good fine).2
          ]
        ]
      ]

module _ ⦃sql : Sql⦄ (t : String) (i : ℕ) (u u' : SubjectId) (s : Session) where
  -- After a call that returned a conversation for a topic, found or created, a call for the same
  -- topic, for whichever user, returns the same conversation with False and changes nothing.
  pub topic_twice :
      (c : Conversation) (created : Bool)
      → (get_or_create_topic_conversation t i u s).0 ≡ ok (c, created)
      → let s' = (get_or_create_topic_conversation t i u s).1 in
        get_or_create_topic_conversation t i u' s' ≡ (ok (c, false), s')
  topic_twice c created first =
      elim (Option-cases (fetch sought newest_first s.working.conversations)) [
        | inr (x, there) ↦
            again (ConversationMapper.model_to_entity x) x refl false
              (ap (λ r. r.0) (topic-found t i u s x there)) (rw (topic-found t i u s x there) there)
        | inl missing ↦ elim (Bool-cases (conversation_refused s.working (row t i u s))) [
          | inl bad ↦ absurd (cc (topic-taken t i u s missing bad))
          | inr good ↦ elim (Bool-cases (refused t i u s)) [
            | inl bad ↦ absurd (cc (topic-closed t i u s missing good bad))
            | inr fine ↦
                let made = topic-made t i u s missing good fine in
                again (fresh t i u s) (row t i u s) refl true made.0 (
                  rw made.1 (
                    fetch-insert ConversationModel-discrete sought newest_first
                      s.working.conversations (row t i u s)
                      (fetch-none sought newest_first s.working.conversations missing)
                      (ground (arith, eq_iff t t))))
          ]
        ]
      ]
    where
      sought : ConversationModel → Bool
      sought = is_on_topic t i (some (status_value opened))

      again :
          (d : Conversation) (x : ConversationModel)
          → ConversationMapper.model_to_entity x ≡ d
          → (made : Bool) → (get_or_create_topic_conversation t i u s).0 ≡ ok (d, made)
          → let s' = (get_or_create_topic_conversation t i u s).1 in
            fetch sought newest_first s'.working.conversations ≡ some x
            → get_or_create_topic_conversation t i u' s' ≡ (ok (c, false), s')
      again d x e made run there =
          let s' = (get_or_create_topic_conversation t i u s).1 in
          let same : d ≡ c = cc in
          topic-found t i u' s' x there ∙ ap (λ z. (ok (z, false), s')) (e ∙ same)
