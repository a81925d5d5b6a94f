-- ===== src/Api/Status.antt =====
-- What a failing POST of a message answers and leaves.
use leaf_flow_chat.Prelude.{ℕ, ◌≡◌, ◌⊎◌, refl, Bool, true, false, none, some}
use leaf_flow_chat.Domain.{Uuid, Message}
use leaf_flow_chat.Errors.{Error, err, Result}
use leaf_flow_chat.Db.Models.{ConversationModel}
use leaf_flow_chat.Db.Constraints.{message_refused}
use leaf_flow_chat.Principal.{Principal}
use leaf_flow_chat.Sql.{Sql}
use leaf_flow_chat.Db.Session.{Session, rollback, in_session, ◌>>=◌}
use leaf_flow_chat.Services.MessageService
use leaf_flow_chat.Services.MessageService.Delivery.{found, passes, row}
use leaf_flow_chat.Api.{SendMessageRequest, failure, status_of, request, post_message, send_message}

module _ ⦃sql : Sql⦄ (c : Uuid) (body : SendMessageRequest) (s : Session) where
  abbrev pub posted : Principal → Result (Message × Bool) × Session
  posted p = MessageService.send_message c p body.client_msg_id body.type body.body (rollback s)

  pub post-raised :
      (p : Principal) (e : Error)
      → (posted p).0 ≡ err e
      → request (post_message c body p) s ≡ (failure (status_of e), rollback (posted p).1)
  unfolding request in_session ◌>>=◌
  post-raised p e h = rw h refl

  -- An error status of a caller, with what it is answered for: no conversation, no access to it, or
  -- a constraint that refuses the message.
  abbrev pub IsSendFailure : Principal → ℕ → Type 0
  IsSendFailure p n =
      let t = rollback s in
      ((found c p body.client_msg_id body.type body.body t ≡ none) × (n ≡ 404))
      ⊎ (((x : ConversationModel) × (found c p body.client_msg_id body.type body.body t ≡ some x)
            × (passes c p body.client_msg_id body.type body.body t x ≡ false)
            × (n ≡ 403))
          ⊎ ((x : ConversationModel) × (found c p body.client_msg_id body.type body.body t ≡ some x)
              × (passes c p body.client_msg_id body.type body.body t x ≡ true)
              × (message_refused s.committed (row c p body.client_msg_id body.type body.body t)
                  ≡ true)
              × (n ≡ 500)))
