-- ===== src/Api.antt =====
-- The HTTP API: api/deps.py, the routers and the exception handlers of app.py. A request is an action
-- that `request` runs in a session of its own. pydantic's validation of bodies and queries, and of the
-- responses, which have the fields of the entities, comes before and after.
pub mod Status
pub mod Retry
pub mod Cursors
pub mod Limits
pub mod Health
pub mod Middleware
use leaf_flow_chat.Prelude.{ℕ, String, Bool, true, false, Option, none, some, List, if◌then◌else◌}
use leaf_flow_chat.Domain.{
  Uuid, SubjectId, Conversation, ConversationStatus, opened, closed, Message, MessageType,
}
use leaf_flow_chat.Errors.{
  AppError, not_found, forbidden, conflict, validation, Error, app, integrity_error,
  assertion_error, value_error, key_error, type_error, attribute_error, Result, ok, err,
}
use leaf_flow_chat.Principal.{Principal, is_admin_kind}
use leaf_flow_chat.Sql.{Sql}
use leaf_flow_chat.Db.Cursor.Codec.{Text, Codec}
use leaf_flow_chat.Db.Conversations.{ConversationFilterDto}
use leaf_flow_chat.Db.Session.{Session, Action, in_session, pure, ◌>>=◌}
use leaf_flow_chat.Services.ConversationService
use leaf_flow_chat.Services.AdminService
use leaf_flow_chat.Services.MessageService

pub record PatchConversationRequest : Type 0 where
  pub assignee_admin_id : Option SubjectId
  pub status : Option ConversationStatus

pub record SendMessageRequest : Type 0 where
  pub client_msg_id : Uuid
  pub type : MessageType
  pub body : Option String

-- A response: what the endpoint returns, or a status code.
pub data Response (A : Type 0) : Type 0 where
  success : A → Response A
  failure : ℕ → Response A

-- the handlers of `_register_exception_handlers`; anything else is a server error
unfoldable pub status_of : Error → ℕ
status_of (app (not_found detail)) = 404
status_of (app (forbidden detail)) = 403
status_of (app (conflict detail)) = 409
status_of (app (validation detail)) = 422
status_of integrity_error = 500
status_of assertion_error = 500
status_of value_error = 500
status_of key_error = 500
status_of type_error = 500
status_of attribute_error = 500

abbrev pub respond : {A : Type 0} → Result A → Response A
respond (ok a) = success a
respond (err e) = failure (status_of e)

-- an endpoint with `UoWDep`: the session of `get_uow`, and the exception handlers
unfoldable pub request : {A : Type 0} → Action A → Session → Response A × Session
request m s = let (r, s') = in_session m s in (respond r, s')

-- `get_current_principal`, from what the verifier returned for the bearer token, or raised
unfoldable pub as_principal :
    {A : Type 0}
    → Option Principal
    → (Principal → Session → Response A × Session)
    → Session
    → Response A × Session
as_principal none endpoint s = (failure 401, s)
as_principal (some principal) endpoint s = endpoint principal s

-- `get_current_admin`
unfoldable pub as_admin :
    {A : Type 0}
    → Option Principal
    → (Principal → Session → Response A × Session)
    → Session
    → Response A × Session
as_admin verified endpoint =
    as_principal verified (λ principal s.
      if is_admin_kind principal.kind then endpoint principal s else (failure 403, s))

module _ ⦃sql : Sql⦄ where
  -- the call of both endpoints that send
  abbrev pub post_message : Uuid → SendMessageRequest → Principal → Action Message
  post_message conversation_id body principal = do
    (msg, created) ←
        MessageService.send_message conversation_id principal body.client_msg_id body.type body.body
    pure msg

  -- the branches of `patch_conversation`; a service may return None where the row is gone
  unfoldable pub patch :
      Uuid → Option ConversationStatus → Option SubjectId → Principal → Action (Option Conversation)
  patch conversation_id (some closed) assignee principal =
      AdminService.close_conversation conversation_id principal
  patch conversation_id (some opened) (some admin_id) principal =
      AdminService.assign_conversation conversation_id admin_id principal
  patch conversation_id none (some admin_id) principal =
      AdminService.assign_conversation conversation_id admin_id principal
  patch conversation_id (some opened) none principal = do
    conversation ← AdminService.get_conversation conversation_id
    pure (some conversation)
  patch conversation_id none none principal = do
    conversation ← AdminService.get_conversation conversation_id
    pure (some conversation)

module _ ⦃sql : Sql⦄ (verified : Option Principal) where
  -- routers/conversations.py
  unfoldable pub create_support_conversation : Session → Response Conversation × Session
  create_support_conversation = as_principal verified (λ principal.
      request (ConversationService.get_or_create_support_conversation principal.subject_id))

  unfoldable pub list_conversations :
      ⦃codec : Codec⦄ → Option Text → ℕ → Session → Response (List Conversation) × Session
  list_conversations cursor limit =
      as_principal verified
        (λ principal. request (ConversationService.list_user_conversations principal cursor limit))

  unfoldable pub get_conversation : Uuid → Session → Response Conversation × Session
  get_conversation conversation_id =
      as_principal verified
        (λ principal. request (ConversationService.get_conversation conversation_id principal))

  -- routers/messages.py
  unfoldable pub list_messages :
      ⦃codec : Codec⦄ → Uuid → Option Text → ℕ → Session → Response (List Message) × Session
  list_messages conversation_id cursor limit =
      as_principal verified
        (λ principal. request (MessageService.list_messages conversation_id principal cursor limit))

  unfoldable pub send_message : Uuid → SendMessageRequest → Session → Response Message × Session
  send_message conversation_id body =
      as_principal verified (λ principal. request (post_message conversation_id body principal))

  -- routers/admin_conversations.py
  unfoldable pub list_all_conversations :
      ⦃codec : Codec⦄ → ConversationFilterDto → Session → Response (List Conversation) × Session
  list_all_conversations filters =
      as_admin verified (λ principal. request (AdminService.list_conversations filters))

  unfoldable pub get_any_conversation : Uuid → Session → Response Conversation × Session
  get_any_conversation conversation_id =
      as_admin verified (λ principal. request (AdminService.get_conversation conversation_id))

  unfoldable pub patch_conversation :
      Uuid → PatchConversationRequest → Session → Response (Option Conversation) × Session
  patch_conversation conversation_id body =
      as_admin verified
        (λ principal. request (patch conversation_id body.status body.assignee_admin_id principal))

  unfoldable pub list_any_messages :
      ⦃codec : Codec⦄ → Uuid → Option Text → ℕ → Session → Response (List Message) × Session
  list_any_messages conversation_id cursor limit =
      as_admin verified
        (λ principal. request (MessageService.list_messages conversation_id principal cursor limit))

  unfoldable pub send_admin_message :
      Uuid → SendMessageRequest → Session → Response Message × Session
  send_admin_message conversation_id body =
      as_admin verified (λ principal. request (post_message conversation_id body principal))
