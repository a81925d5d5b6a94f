-- ===== src/Services/ConversationService/Support.antt =====
-- Asking again for a user's support conversation finds the one that is there.
use leaf_flow_chat.Prelude.{
  ◌+◌, ◌≡◌, refl, sym, subst, ap, ◌∙◌, inl, inr, true, false, ◌||◌, none, some, List, arith,
  Bool-cases, Option-cases, eq_iff, count_p, count_p_mono, count_p-or-le,
}
use leaf_flow_chat.Domain.{SubjectId, Conversation}
use leaf_flow_chat.Errors.{Result, integrity_error, ok, err}
use leaf_flow_chat.Sql.{Sql}
use leaf_flow_chat.Sql.Laws.{fetch, fetch-none, fetch-insert}
use leaf_flow_chat.Db.Models.{ConversationModel, ConversationModel-discrete, ParticipantModel, Db}
use leaf_flow_chat.Db.Mappers.ConversationMapper
use leaf_flow_chat.Db.Mappers.ParticipantMapper
use leaf_flow_chat.Db.Constraints.{
  is_conversation, is_member, conversation_refused, participant_refused,
}
use leaf_flow_chat.Db.Conversations.{get_support_for_user, is_open_support, newest_first, create}
use leaf_flow_chat.Db.Participants
use leaf_flow_chat.Db.Outbox
use leaf_flow_chat.Db.Session.{Session, commit, ◌>>=◌}
use leaf_flow_chat.Services.ConversationService.{
  new_conversation, new_user, create_conversation, existing_or_support,
  get_or_create_support_conversation,
}

module _ ⦃sql : Sql⦄ (u : SubjectId) (s : Session) where
  abbrev pub opening : Conversation
  opening = new_conversation "support" none (s.clock s.ticks) (s.uuids s.drawn)

  support-found :
      (x : ConversationModel)
      → fetch (is_open_support s.working u) newest_first s.working.conversations ≡ some x
      → get_or_create_support_conversation u s ≡ (ok (ConversationMapper.model_to_entity x), s)
  unfolding get_or_create_support_conversation existing_or_support get_support_for_user ◌>>=◌
  support-found x h = rw h refl

  abbrev pub row : ConversationModel
  row = ConversationMapper.entity_to_model opening

  abbrev with_row : Db
  with_row = record s.working { conversations = sql.insert row s.working.conversations }

  abbrev pub member : ParticipantModel
  member =
      ParticipantMapper.entity_to_model (s.uuids (s.drawn + 1))
        (new_user (s.uuids s.drawn) u (s.clock s.ticks))

  abbrev with_member : Db
  with_member = record with_row { participants = sql.insert member s.working.participants }

  pub support-missing :
      fetch (is_open_support s.working u) newest_first s.working.conversations ≡ none
      → get_or_create_support_conversation u s ≡ existing_or_support u none s
  unfolding get_or_create_support_conversation get_support_for_user ◌>>=◌
  support-missing h = rw h refl

  support-taken :
      conversation_refused s.working row ≡ true
      → (existing_or_support u none s).0 ≡ err integrity_error
  unfolding existing_or_support create_conversation create ◌>>=◌
  support-taken bad = rw bad refl

  support-closed :
      conversation_refused s.working row ≡ false
      → participant_refused with_row member ≡ true
      → (existing_or_support u none s).0 ≡ err integrity_error
  unfolding existing_or_support create_conversation create Participants.add ◌>>=◌
  support-closed good bad = rw good (rw bad refl)

  -- What a session is after a conversation was opened.
  pub record IsOpened (s' : Session) : Type 0 where
    pub row_new : conversation_refused s.working row ≡ false
    pub conversations : s'.working.conversations ≡ with_member.conversations
    pub participants : s'.working.participants ≡ with_member.participants
    pub settled : s'.committed ≡ s'.working

  pub support-made :
      conversation_refused s.working row ≡ false
      → participant_refused with_row member ≡ false
      → ((existing_or_support u none s).0 ≡ ok opening) × IsOpened (existing_or_support u none s).1
  unfolding existing_or_support create_conversation create Participants.add Outbox.add commit ◌>>=◌
  support-made good fine = rw good (
      rw fine (
        refl,
        record { row_new = good; conversations = refl; participants = refl; settled = refl },
      ))

  -- A call that opens a conversation and returns has written it and the membership.
  pub support-IsOpened :
      (c : Conversation)
      → (existing_or_support u none s).0 ≡ ok c
      → ((existing_or_support u none s).0 ≡ ok opening) × IsOpened (existing_or_support u none s).1
  support-IsOpened c returned = elim (Bool-cases (conversation_refused s.working row)) [
    | inl bad ↦ absurd (cc (support-taken bad))
    | inr good ↦ elim (Bool-cases (participant_refused with_row member)) [
      | inl bad ↦ absurd (cc (support-closed good bad))
      | inr fine ↦ support-made good fine
    ]
  ]

  -- The new membership brings the user into the new conversation alone.
  joins_before :
      (d : Db) (c : ConversationModel)
      → d.participants ≡ with_member.participants
      → is_open_support d u c ≡ true
      → (is_open_support s.working u c || is_conversation row.id c) ≡ true
  joins_before d c e h = ground (
    arith,
    ap (count_p (is_member c.id "user" u)) e,
    sql.count_p-insert (is_member c.id "user" u) member s.working.participants,
  )

  pub none_before :
      (d : Db) (t : List ConversationModel)
      → d.participants ≡ with_member.participants
      → count_p (is_open_support s.working u) t ≡ 0
      → count_p (is_conversation row.id) t ≡ 0
      → count_p (is_open_support d u) t ≡ 0
  none_before d t e missing new = omega (
    arith,
    missing,
    new,
    count_p_mono (is_open_support d u)
        (λ c. is_open_support s.working u c || is_conversation row.id c) t
        (λ c h. joins_before d c e h),
    count_p-or-le (is_open_support s.working u) (is_conversation row.id) t,
  )

  pub row-IsNew :
      conversation_refused s.working row ≡ false
      → count_p (is_conversation row.id) s.working.conversations ≡ 0
  unfolding conversation_refused
  row-IsNew good = ground (arith, good)

  pub joins_now :
      (d : Db) → d.participants ≡ with_member.participants → is_open_support d u row ≡ true
  joins_now d e = ground (
    arith,
    ap (count_p (is_member row.id "user" u)) e,
    sql.count_p-insert (is_member row.id "user" u) member s.working.participants,
    eq_iff "user" "user",
  )

module _ ⦃sql : Sql⦄ (u : SubjectId) (s : Session) where
  -- After a call that returned a user's support conversation, found or created, a call for the same
  -- user returns the same conversation and changes nothing.
  pub support_twice :
      (c : Conversation)
      → (get_or_create_support_conversation u s).0 ≡ ok c
      → let s' = (get_or_create_support_conversation u s).1 in
        get_or_create_support_conversation u s' ≡ (ok c, s')
  support_twice c first =
      elim (Option-cases
        (fetch (is_open_support s.working u) newest_first s.working.conversations)) [
          | inr (x, there) ↦ again x _ (support-found u s x there) refl there
          | inl missing ↦
              let alone = support-missing u s missing in
              let (run, made) = support-IsOpened u s c (ap (λ r. r.0) (sym alone) ∙ first) in
              again (row u s) _ alone run (
                rw made.conversations (
                  fetch-insert ConversationModel-discrete (is_open_support d u) newest_first
                    s.working.conversations (row u s)
                    (none_before u s d s.working.conversations made.participants
                      (fetch-none (is_open_support s.working u) newest_first s.working.conversations
                        missing)
                      (row-IsNew u s made.row_new))
                    (joins_now u s d made.participants)))
        ]
    where
      -- the database after a call that opens a conversation
      d : Db
      d = (existing_or_support u none s).1.working

      again :
          (x : ConversationModel) (r : Result Conversation × Session)
          → get_or_create_support_conversation u s ≡ r
          → r.0 ≡ ok (ConversationMapper.model_to_entity x)
          → fetch (is_open_support r.1.working u) newest_first r.1.working.conversations ≡ some x
          → let s' = (get_or_create_support_conversation u s).1 in
            get_or_create_support_conversation u s' ≡ (ok c, s')
      again x r e run there =
          let same : ConversationMapper.model_to_entity x ≡ c = cc in
          subst
            (λ (q : Result Conversation × Session).
              get_or_create_support_conversation u q.1 ≡ (ok c, q.1))
            (sym e) (support-found u r.1 x there ∙ ap (λ z. (ok z, r.1)) same)
