-- ===== src/Api/Retry.antt =====
-- A client that posts its message again.
use leaf_flow_chat.Prelude.{
  String, ◌≡◌, refl, sym, ap, ◌∙◌, subst, inl, inr, Bool, false, Option, none, some, Bool-cases,
  Option-cases, arith,
}
use leaf_flow_chat.Domain.{Uuid, Message, MessageType}
use leaf_flow_chat.Errors.{ok, Result, Result-cases}
use leaf_flow_chat.Principal.{Principal}
use leaf_flow_chat.Permissions.Access.{may_access}
use leaf_flow_chat.Sql.{Sql, unordered}
use leaf_flow_chat.Sql.Laws.{fetch, is_some-fetch}
use leaf_flow_chat.Db.Mappers.ConversationMapper
use leaf_flow_chat.Db.Mappers.MessageMapper
use leaf_flow_chat.Db.Constraints.{is_conversation, exists_row, message_refused}
use leaf_flow_chat.Db.Session.{Session, rollback, in_session, ◌>>=◌}
use leaf_flow_chat.Db.Valid.{IsValid}
use leaf_flow_chat.Services.MessageService
use leaf_flow_chat.Services.MessageService.Branches.{
  message, key, send_message-new, send_message-missing, send_message-forbidden,
  send_message-duplicate, send_message-refused,
}
use leaf_flow_chat.Services.MessageService.Idempotency.{send_message_twice}
use leaf_flow_chat.Api.{
  SendMessageRequest, success, request, as_principal, post_message, send_message,
}
use leaf_flow_chat.Api.Status.{posted, post-raised}

module _ ⦃sql : Sql⦄ (c : Uuid) (p : Principal) (m : Uuid) (t : MessageType) (body : Option String)
    (s : Session) where
  -- A call that returns leaves nothing uncommitted that was not there before.
  send_message-committed :
      (msg : Message) (created : Bool)
      → s.committed ≡ s.working
      → (MessageService.send_message c p m t body s).0 ≡ ok (msg, created)
      → (MessageService.send_message c p m t body s).1.committed
        ≡ (MessageService.send_message c p m t body s).1.working
  send_message-committed msg created clean first =
      elim (Option-cases (fetch (is_conversation c) unordered s.working.conversations)) [
        | inl missing ↦ absurd (cc (send_message-missing c p m t body s missing))
        | inr (x, there) ↦
            elim (Bool-cases (may_access s.working p (ConversationMapper.model_to_entity x))) [
              | inr denied ↦ absurd (cc (send_message-forbidden c p m t body s x there denied))
              | inl allowed ↦
                  elim (Option-cases (fetch (key c p m t body s) unordered s.working.messages)) [
                    | inr (old, kept) ↦
                        rw (send_message-duplicate c p m t body s x old there allowed kept) clean
                    | inl unsent ↦
                        let fresh : exists_row (key c p m t body s) s.working.messages ≡ false =
                          ground (
                            arith,
                            is_some-fetch (key c p m t body s) unordered s.working.messages,
                          ) in
                        elim (Bool-cases (
                          message_refused s.working
                            (MessageMapper.entity_to_model (message c p m t body s)))) [
                              | inl bad ↦ absurd (
                                  cc
                                    (send_message-refused c p m t body s x there allowed fresh bad))
                              | inr good ↦
                                  rw (send_message-new c p m t body s x there allowed fresh good)
                                    refl
                            ]
                  ]
            ]
      ]

-- the body of a request
abbrev pub to_post : Uuid → MessageType → Option String → SendMessageRequest
to_post m t text = record { client_msg_id = m; type = t; body = text }

module _ ⦃sql : Sql⦄ (c : Uuid) (m : Uuid) (t t' : MessageType) (text text' : Option String)
    (s : Session) where
  post-success :
      (body : SendMessageRequest) (u : Session) (p : Principal) (msg : Message) (created : Bool)
      → (posted c body u p).0 ≡ ok (msg, created)
      → request (post_message c body p) u ≡ (success msg, rollback (posted c body u p).1)
  unfolding request in_session ◌>>=◌
  post-success body u p msg created h = rw h refl

  post_twice :
      (p : Principal) (msg : Message)
      → IsValid s.committed
      → (request (post_message c (to_post m t text) p) s).0 ≡ success msg
      → let s' = (request (post_message c (to_post m t text) p) s).1 in
        let (r, s'') = request (post_message c (to_post m t' text') p) s' in
        (r ≡ success msg) × (s''.committed ≡ s'.committed)
  unfolding rollback
  post_twice p msg v done = elim (Result-cases (posted c (to_post m t text) s p).0) [
    | inr (e, h) ↦ absurd (cc (ap (λ r. r.0) (post-raised c (to_post m t text) s p e h), done))
    | inl ((msg', created), h) ↦
        let u = (posted c (to_post m t text) s p).1 in
        let run = post-success (to_post m t text) s p msg' created h in
        let same : msg' ≡ msg = cc (ap (λ r. r.0) run, done) in
        let clean : u.committed ≡ u.working =
          send_message-committed c p m t text (rollback s) msg' created refl h in
        let back : rollback (rollback u) ≡ u = ap (λ d. record u { working = d }) clean in
        let (repeated, working, committed) =
          send_message_twice c p m t t' text text' (rollback s) msg' created v h in
        let resent : Session → Result (Message × Bool) × Session =
          MessageService.send_message c p m t' text' in
        let run' =
          post-success (to_post m t' text') (rollback u) p msg' false
            (ap (λ z. (resent z).0) back ∙ repeated) in
        subst
          (λ z.
            ((request (post_message c (to_post m t' text') p) z).0 ≡ success msg)
            × ((request (post_message c (to_post m t' text') p) z).1.committed ≡ z.committed))
          (sym (ap (λ r. r.1) run))
          (
            ap (λ r. r.0) run' ∙ ap success same,
            ap (λ r. r.1.committed) run' ∙ (ap (λ z. (resent z).1.committed) back ∙ committed),
          )
  ]

  -- After a POST of a message that was answered by the message, from a valid database, a POST under
  -- the same client_msg_id by the same caller, whatever its type and body, is answered by the same
  -- message and leaves the committed database as it was.
  pub post_again :
      (verified : Option Principal) (msg : Message)
      → IsValid s.committed
      → (send_message verified c (to_post m t text) s).0 ≡ success msg
      → let s' = (send_message verified c (to_post m t text) s).1 in
        let (r, s'') = send_message verified c (to_post m t' text') s' in
        (r ≡ success msg) × (s''.committed ≡ s'.committed)
  unfolding send_message as_principal
  post_again none msg v done = absurd (cc done)
  post_again (some p) msg v done = post_twice p msg v done
