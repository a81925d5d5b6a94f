-- ===== src/Services/AdminService/Change.antt =====
-- What closing a conversation leaves.
use leaf_flow_chat.Prelude.{
  ◌+◌, ◌≤◌, String, ◌≡◌, refl, sym, ap, ◌∙◌, inl, inr, Bool, true, false, Option, none, some, List,
  [], ◌∷◌, arith, Bool-cases, count_p,
}
use mathlib.Core.Option
use leaf_flow_chat.Domain.{
  Uuid, SubjectId, Conversation, Message, Payload, closed, status_value, str, id,
}
use leaf_flow_chat.Errors.{Error, ok, err, app, forbidden, Result-cases}
use leaf_flow_chat.Principal.{Principal, is_admin}
use leaf_flow_chat.Permissions.{assert_admin}
use leaf_flow_chat.Sql.{Sql, unordered}
use leaf_flow_chat.Sql.Laws.{fetch, fetch-update, count_p-update_same}
use leaf_flow_chat.Db.Models.{ConversationModel, ConversationModel-discrete, MessageModel}
use leaf_flow_chat.Db.Mappers.ConversationMapper
use leaf_flow_chat.Db.Mappers.MessageMapper
use leaf_flow_chat.Db.Constraints.{is_conversation, is_sent, exists_row, message_refused}
use leaf_flow_chat.Db.Conversations.{get_by_id, close, update_conversation, touch_last_message_at}
use leaf_flow_chat.Db.Messages.{
  create_if_not_exists, insert_or_nothing, inserted_or_existing, existing_or_assert,
  get_by_client_msg_id,
}
use leaf_flow_chat.Db.Outbox
use leaf_flow_chat.Db.Session.{Session, commit, ◌>>=◌}
use leaf_flow_chat.Db.Valid.{IsValid}
use leaf_flow_chat.Services.AdminService.{
  system_message, found_or_raise, record_change, close_conversation,
}

abbrev with_messages : List MessageModel → Session → Session
with_messages ms s = record s { working = record s.working { messages = ms } }

module _ ⦃sql : Sql⦄ where
  existing-session : (o : Option Message) (s : Session) → (existing_or_assert o s).1 ≡ s
  unfolding existing_or_assert ◌>>=◌
  existing-session none s = refl
  existing-session (some m) s = refl

  -- Storing a message changes nothing but the table of messages.
  create-session :
      (msg : Message) (s : Session)
      → (ms : List MessageModel) × ((create_if_not_exists msg s).1 ≡ with_messages ms s)
  unfolding create_if_not_exists insert_or_nothing inserted_or_existing get_by_client_msg_id ◌>>=◌
  create-session msg s = elim (Bool-cases taken) [
    | inl here ↦ (s.working.messages, rw here (existing-session _ s))
    | inr fresh ↦
        elim (Bool-cases (message_refused s.working (MessageMapper.entity_to_model msg))) [
          | inl bad ↦ (s.working.messages, rw fresh (rw bad refl))
          | inr good ↦ (
            sql.insert (MessageMapper.entity_to_model msg) s.working.messages,
            rw fresh (rw good refl),
          )
        ]
  ]
    where
      taken : Bool
      taken =
          exists_row (is_sent msg.conversation_id msg.sender_kind msg.sender_id msg.client_msg_id)
            s.working.messages

  module _ (c : Uuid) (i : SubjectId) (body : String) (payload event : Payload) (s : Session) where
    abbrev change_message : Message
    change_message =
        system_message c i body payload (s.clock s.ticks) (s.uuids s.drawn) (s.uuids (s.drawn + 1))

    abbrev drawn : Session
    drawn = record s { ticks = s.ticks + 1; drawn = s.drawn + 1 + 1 }

    abbrev pub touched : ConversationModel → ConversationModel
    touched x = record x { last_message_at = some (s.clock s.ticks); updated_at = s.server_now }

    record_change-raises :
        (e : Error)
        → (create_if_not_exists change_message drawn).0 ≡ err e
        → (record_change c i body payload event s).0 ≡ err e
    unfolding record_change ◌>>=◌
    record_change-raises e h = rw h refl

    record_change-stores :
        (ms : List MessageModel) (r : Message × Bool)
        → create_if_not_exists change_message drawn ≡ (ok r, with_messages ms drawn)
        → let t = sql.update (is_conversation c) touched s.working.conversations in
          ((record_change c i body payload event s).0
            ≡ ok (
                Option.map ConversationMapper.model_to_entity
                  (fetch (is_conversation c) unordered t)))
          × ((record_change c i body payload event s).1.committed.conversations ≡ t)
          × ((record_change c i body payload event s).1.committed.participants
              ≡ s.working.participants)
    unfolding record_change touch_last_message_at update_conversation Outbox.add commit get_by_id
        ◌>>=◌
    record_change-stores ms r h = rw h (refl, refl, refl)

    pub record_change_writes :
        (o : Option Conversation) (x : ConversationModel)
        → count_p (is_conversation c) s.working.conversations ≤ 1
        → fetch (is_conversation c) unordered s.working.conversations ≡ some x
        → (record_change c i body payload event s).0 ≡ ok o
        → (o ≡ some (ConversationMapper.model_to_entity (touched x)))
          × ((record_change c i body payload event s).1.committed.conversations
              ≡ sql.update (is_conversation c) touched s.working.conversations)
          × ((record_change c i body payload event s).1.committed.participants
              ≡ s.working.participants)
    record_change_writes o x once there done =
        elim (Result-cases (create_if_not_exists change_message drawn).0) [
          | inr (e, h) ↦ absurd (cc (record_change-raises e h))
          | inl (r, h) ↦
              let (ms, same) = create-session change_message drawn in
              let stored : create_if_not_exists change_message drawn
                  ≡ (ok r, with_messages ms drawn) =
                ap (λ z. (z, (create_if_not_exists change_message drawn).1)) h
                ∙ ap (λ z. (ok r, z)) same in
              let run = record_change-stores ms r stored in
              let found =
                fetch-update ConversationModel-discrete (is_conversation c) touched unordered
                  s.working.conversations x once (λ y. refl) there in
              let result =
                sym done
                ∙ run.0
                ∙ ap (λ f. ok (Option.map ConversationMapper.model_to_entity f)) found in
              (cc result, run.1, run.2)
        ]

  module _ (c : Uuid) (p : Principal) (s : Session) where
    abbrev shut : ConversationModel → ConversationModel
    shut x = record x { status = status_value closed; updated_at = s.server_now }

    abbrev after_close : Session
    after_close = record s {
      working = record s.working {
        conversations = sql.update (is_conversation c) shut s.working.conversations;
      };
    }

    close-denied :
        is_admin p ≡ false
        → (close_conversation c p s).0 ≡ err (app (forbidden "Admin access required"))
    unfolding close_conversation assert_admin ◌>>=◌
    close-denied denied = rw denied refl

    close-run :
        (x : ConversationModel)
        → is_admin p ≡ true
        → fetch (is_conversation c) unordered s.working.conversations ≡ some x
        → close_conversation c p s
          ≡ record_change c p.subject_id "Conversation closed"
              (("action", str "closed") ∷ [])
              (("conversation_id", id c)
                ∷ ("action", str "closed")
                ∷ ("status", str (status_value closed))
                ∷ [])
              after_close
    unfolding close_conversation assert_admin get_by_id found_or_raise close update_conversation
        ◌>>=◌
    close-run x allowed there = rw allowed (rw there refl)

  -- For a conversation that is there, a call of close_conversation that returns was made by an
  -- admin, returns the conversation as it was but for the status "closed", `last_message_at` (the
  -- system message's time) and `updated_at`, and that is the row that it has committed.
  pub close_conversation_closes :
      (c : Uuid) (p : Principal) (s : Session) (o : Option Conversation) (x : ConversationModel)
      → IsValid s.working
      → fetch (is_conversation c) unordered s.working.conversations ≡ some x
      → (close_conversation c p s).0 ≡ ok o
      → let z = record x {
        status = status_value closed;
        last_message_at = some (s.clock s.ticks);
        updated_at = s.server_now;
      } in
        (is_admin p ≡ true)
        × (o ≡ some (ConversationMapper.model_to_entity z))
        × (fetch (is_conversation c) unordered (close_conversation c p s).1.committed.conversations
            ≡ some z)
  close_conversation_closes c p s o x v there done = elim (Bool-cases (is_admin p)) [
    | inr denied ↦ absurd (cc (close-denied c p s denied))
    | inl allowed ↦
        let run = close-run c p s x allowed there in
        let t = (after_close c p s).working.conversations in
        let once : count_p (is_conversation c) t ≤ 1 = omega (
          arith,
          v.conversation_once c,
          count_p-update_same (is_conversation c) (is_conversation c) (shut c p s)
              s.working.conversations (λ y h. refl),
        ) in
        let found =
          fetch-update ConversationModel-discrete (is_conversation c) (shut c p s) unordered
            s.working.conversations x (v.conversation_once c) (λ y. refl) there in
        let wrote =
          record_change_writes c p.subject_id _ _ _ (after_close c p s) o (shut c p s x) once found
            (ap (λ r. r.0) (sym run) ∙ done) in
        (
          allowed,
          wrote.0,
          rw run (
              rw wrote.1 (
                fetch-update ConversationModel-discrete (is_conversation c) _ unordered t
                  (shut c p s x) once (λ y. refl) found)),
        )
  ]
