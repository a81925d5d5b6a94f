-- ===== src/Services/MessageService/Idempotency.antt =====
-- Sending again with the same `client_msg_id` returns the message that is there.
use leaf_flow_chat.Prelude.{
  String, ◌≡◌, inl, inr, refl, ap, Bool, true, false, Option, none, some, arith, Bool-cases,
  Option-cases, eq_iff,
}
use leaf_flow_chat.Domain.{Uuid, Conversation, Message, MessageType, kind_value}
use leaf_flow_chat.Errors.{ok}
use leaf_flow_chat.Principal.{Principal}
use leaf_flow_chat.Permissions.Access.{may_access}
use leaf_flow_chat.Sql.{Sql, unordered}
use leaf_flow_chat.Sql.Laws.{fetch, is_some-fetch, fetch-insert, fetch-update}
use leaf_flow_chat.Db.Models.{
  ConversationModel, MessageModel, MessageModel-discrete, ConversationModel-discrete,
}
use leaf_flow_chat.Db.Mappers.ConversationMapper
use leaf_flow_chat.Db.Mappers.MessageMapper
use leaf_flow_chat.Db.Constraints.{is_conversation, exists_row, message_refused}
use leaf_flow_chat.Db.Session.{Session}
use leaf_flow_chat.Db.Valid.{IsValid}
use leaf_flow_chat.Services.MessageService.{send_message}
use leaf_flow_chat.Services.MessageService.Branches.{
  message, asked, sent, key, send_message-new, send_message-missing, send_message-forbidden,
  send_message-duplicate, send_message-refused,
}

module _ ⦃sql : Sql⦄ (c : Uuid) (principal : Principal) (m : Uuid) (t t' : MessageType)
    (body body' : Option String) (s : Session) where
  abbrev Repeats : Session → Message → Type 0
  Repeats s' msg =
      send_message c principal m t' body' s' ≡ (ok (msg, false), asked c principal m t' body' s')

  repeat_new :
      (x : ConversationModel)
      → IsValid s.working
      → fetch (is_conversation c) unordered s.working.conversations ≡ some x
      → may_access s.working principal (ConversationMapper.model_to_entity x) ≡ true
      → exists_row (key c principal m t body s) s.working.messages ≡ false
      → Repeats (sent c principal m t body s) (message c principal m t body s)
  repeat_new x v there allowed fresh =
      send_message-duplicate c principal m t' body' (sent c principal m t body s)
        (record x { last_message_at = some (s.clock s.ticks); updated_at = s.server_now })
        (MessageMapper.entity_to_model (message c principal m t body s))
        (fetch-update ConversationModel-discrete (is_conversation c) _ unordered
          s.working.conversations x (v.conversation_once c) (λ y. refl) there)
        allowed
        (fetch-insert MessageModel-discrete (key c principal m t body s) unordered
          s.working.messages (MessageMapper.entity_to_model (message c principal m t body s))
          (ground arith)
          (ground (arith, eq_iff (kind_value principal.kind) (kind_value principal.kind))))

  -- After a call that returned a message, new or not, in a valid database, a second call with the
  -- same conversation, sender and `client_msg_id`, whatever its type and body, returns that same
  -- message with False and writes nothing.
  pub send_message_twice :
      (msg : Message) (created : Bool)
      → IsValid s.working
      → (send_message c principal m t body s).0 ≡ ok (msg, created)
      → let s' = (send_message c principal m t body s).1 in
        let (r, s'') = send_message c principal m t' body' s' in
        (r ≡ ok (msg, false)) × (s''.working ≡ s'.working) × (s''.committed ≡ s'.committed)
  send_message_twice msg created v first = elim (Option-cases found) [
    | inl missing ↦ absurd (cc (send_message-missing c principal m t body s missing))
    | inr (x, there) ↦ elim (Bool-cases (may_access s.working principal (entity x))) [
      | inr denied ↦ absurd (cc (send_message-forbidden c principal m t body s x there denied))
      | inl allowed ↦ elim (Option-cases (fetch row_key unordered s.working.messages)) [
        | inr (old, kept) ↦
            let run = send_message-duplicate c principal m t body s x old there allowed kept in
            again (entity_of old) (asked c principal m t body s) run (
              send_message-duplicate c principal m t' body' (asked c principal m t body s) x old
                there allowed kept)
        | inl unsent ↦ elim (Bool-cases (message_refused s.working row)) [
          | inl bad ↦
              absurd (
                cc (send_message-refused c principal m t body s x there allowed (fresh unsent) bad))
          | inr good ↦
              again (message c principal m t body s) (sent c principal m t body s)
                (send_message-new c principal m t body s x there allowed (fresh unsent) good)
                (repeat_new x v there allowed (fresh unsent))
        ]
      ]
    ]
  ]
    where
      found : Option ConversationModel
      found = fetch (is_conversation c) unordered s.working.conversations

      entity : ConversationModel → Conversation
      entity x = ConversationMapper.model_to_entity x

      entity_of : MessageModel → Message
      entity_of x = MessageMapper.model_to_entity x

      row : MessageModel
      row = MessageMapper.entity_to_model (message c principal m t body s)

      row_key : MessageModel → Bool
      row_key = key c principal m t body s

      fresh :
          fetch row_key unordered s.working.messages ≡ none
          → exists_row row_key s.working.messages ≡ false
      fresh unsent = ground (arith, is_some-fetch row_key unordered s.working.messages)

      again :
          {b : Bool} (msg' : Message) (s' : Session)
          → send_message c principal m t body s ≡ (ok (msg', b), s')
          → Repeats s' msg'
          → let s1 = (send_message c principal m t body s).1 in
            let (r, s2) = send_message c principal m t' body' s1 in
            (r ≡ ok (msg, false)) × (s2.working ≡ s1.working) × (s2.committed ≡ s1.committed)
      again msg' s' run rep = rw run (rw rep (cc (ap (λ p. p.0) run), refl, refl))
