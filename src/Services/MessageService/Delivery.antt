-- ===== src/Services/MessageService/Delivery.antt =====
-- What a caller of `send_message` can rely on.
use leaf_flow_chat.Prelude.{
  String, ◌≡◌, ◌≢◌, ◌⊎◌, inl, inr, refl, Bool, true, false, Option, none, some, ◌∷◌, arith, count_p,
  Bool-cases, Option-cases, eq_iff,
}
use leaf_flow_chat.Domain.{Uuid, MessageType, kind_value}
use leaf_flow_chat.Errors.{Error, integrity_error, ok, err}
use leaf_flow_chat.Principal.{Principal}
use leaf_flow_chat.Permissions.Access.{may_access, no_conversation, no_member}
use leaf_flow_chat.Sql.{Sql, unordered}
use leaf_flow_chat.Sql.Laws.{fetch, is_some-fetch, fetch-insert, fetch-update, fetch-update_other}
use leaf_flow_chat.Db.Models.{
  ConversationModel, MessageModel, MessageModel-discrete, ConversationModel-discrete,
  OutboxMessageModel,
}
use leaf_flow_chat.Db.Mappers.ConversationMapper
use leaf_flow_chat.Db.Mappers.MessageMapper
use leaf_flow_chat.Db.Constraints.{is_conversation, exists_row, message_refused}
use leaf_flow_chat.Db.Session.{Session}
use leaf_flow_chat.Db.Valid.{IsValid}
use leaf_flow_chat.Services.MessageService.{send_message}
use leaf_flow_chat.Services.MessageService.Branches.{
  message, key, message_event, send_message-new, send_message-missing, send_message-forbidden,
  send_message-duplicate, send_message-refused,
}

module _ ⦃sql : Sql⦄ (c : Uuid) (principal : Principal) (m : Uuid) (t : MessageType)
    (body : Option String) (s : Session) where
  -- A message that is sent for the first time, by someone with access, to a conversation that is
  -- there, under a fresh identifier: it is returned with True, it is the one message that the
  -- committed database has under its idempotency key, the conversation's `last_message_at` is its
  -- `created_at`, no other conversation changes, and messages and outbox have one row more each,
  -- the outbox the pending event with the message's fields.
  pub send_message_delivers :
      (x : ConversationModel)
      → IsValid s.working
      → fetch (is_conversation c) unordered s.working.conversations ≡ some x
      → may_access s.working principal (ConversationMapper.model_to_entity x) ≡ true
      → exists_row (key c principal m t body s) s.working.messages ≡ false
      → message_refused s.working (MessageMapper.entity_to_model (message c principal m t body s))
        ≡ false
      → let msg = message c principal m t body s in
        let (r, s') = send_message c principal m t body s in
        (r ≡ ok (msg, true))
        × (fetch (key c principal m t body s) unordered s'.committed.messages
            ≡ some (MessageMapper.entity_to_model msg))
        × (fetch (is_conversation c) unordered s'.committed.conversations
            ≡ some (record x { last_message_at = some msg.created_at; updated_at = s.server_now }))
        × ((d : Uuid)
            → d ≢ c
            → fetch (is_conversation d) unordered s'.committed.conversations
              ≡ fetch (is_conversation d) unordered s.working.conversations)
        × ((p : MessageModel → Bool)
            → count_p p s'.committed.messages
              ≡ count_p p (MessageMapper.entity_to_model msg ∷ s.working.messages))
        × ((p : OutboxMessageModel → Bool)
            → count_p p s'.committed.outbox ≡ count_p p (message_event s msg ∷ s.working.outbox))
  send_message_delivers x v found allowed fresh accepted =
      rw (send_message-new c principal m t body s x found allowed fresh accepted) (
        refl,
        fetch-insert MessageModel-discrete (key c principal m t body s) unordered s.working.messages
            (MessageMapper.entity_to_model (message c principal m t body s)) (ground arith)
            (ground (arith, eq_iff (kind_value principal.kind) (kind_value principal.kind))),
        fetch-update ConversationModel-discrete (is_conversation c) _ unordered
            s.working.conversations x (v.conversation_once c) (λ y. refl) found,
        λ d ne.
            fetch-update_other ConversationModel-discrete (is_conversation d) (is_conversation c) _
              unordered s.working.conversations (v.conversation_once d)
              (λ y h. (ground arith, ground arith)),
        λ p. sql.count_p-insert p _ _,
        λ p. sql.count_p-insert p _ _,
      )

  abbrev pub found : Option ConversationModel
  found = fetch (is_conversation c) unordered s.working.conversations

  abbrev pub row : MessageModel
  row = MessageMapper.entity_to_model (message c principal m t body s)

  abbrev pub passes : ConversationModel → Bool
  passes x = may_access s.working principal (ConversationMapper.model_to_entity x)

  -- what a call has found that raises the exception
  abbrev pub IsCause : Error → Type 0
  IsCause e =
      ((found ≡ none) × (e ≡ no_conversation))
      ⊎ (((x : ConversationModel) × (found ≡ some x) × (passes x ≡ false) × (e ≡ no_member))
          ⊎ ((x : ConversationModel) × (found ≡ some x)
              × (passes x ≡ true)
              × (message_refused s.working row ≡ true)
              × (e ≡ integrity_error)))

  -- A call that raises has a cause, and has written nothing.
  pub send_message_causes :
      (e : Error)
      → (send_message c principal m t body s).0 ≡ err e
      → IsCause e
        × ((send_message c principal m t body s).1.working ≡ s.working)
        × ((send_message c principal m t body s).1.committed ≡ s.committed)
  send_message_causes e raised = elim (Option-cases found) [
    | inl missing ↦
        let run = send_message-missing c principal m t body s missing in
        (inl (missing, cc run), cc run, cc run)
    | inr (x, there) ↦ elim (Bool-cases (passes x)) [
      | inr denied ↦
          let run = send_message-forbidden c principal m t body s x there denied in
          (inr (inl (x, there, denied, cc run)), cc run, cc run)
      | inl allowed ↦ elim (Option-cases (fetch row_key unordered s.working.messages)) [
        | inr (old, kept) ↦
            absurd (cc (send_message-duplicate c principal m t body s x old there allowed kept))
        | inl unsent ↦ elim (Bool-cases (message_refused s.working row)) [
          | inl bad ↦
              let run =
                send_message-refused c principal m t body s x there allowed (fresh unsent) bad in
              (inr (inr (x, there, allowed, bad, cc run)), cc run, cc run)
          | inr good ↦
              absurd
                (cc (send_message-new c principal m t body s x there allowed (fresh unsent) good))
        ]
      ]
    ]
  ]
    where
      row_key : MessageModel → Bool
      row_key = key c principal m t body s

      fresh :
          fetch row_key unordered s.working.messages ≡ none
          → exists_row row_key s.working.messages ≡ false
      fresh unsent = ground (arith, is_some-fetch row_key unordered s.working.messages)

  -- A call that raises has found no conversation, or no access, or a constraint violated (never
  -- the assertion of the repository), and has written nothing.
  pub send_message_raises :
      (e : Error)
      → (send_message c principal m t body s).0 ≡ err e
      → ((e ≡ no_conversation) ⊎ ((e ≡ no_member) ⊎ (e ≡ integrity_error)))
        × ((send_message c principal m t body s).1.working ≡ s.working)
        × ((send_message c principal m t body s).1.committed ≡ s.committed)
  send_message_raises e raised =
      let (cause, working, committed) = send_message_causes e raised in
      (
        elim cause [
          | inl (missing, is) ↦ inl is
          | inr other ↦ elim other [
            | inl (x, there, denied, is) ↦ inr (inl is)
            | inr (x, there, allowed, bad, is) ↦ inr (inr is)
          ]
        ],
        working,
        committed,
      )
