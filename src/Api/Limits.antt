-- ===== src/Api/Limits.antt =====
-- The parameter `limit: int = Query(…, ge=…, le=…)` of the endpoints that return lists
-- (api/v1/routers). FastAPI's part is to resolve an endpoint's dependencies and then to refuse bad
-- parameters.
pub mod Bounds
use leaf_flow_chat.Prelude.{
  ℕ, ◌≡◌, ◌≤◌, refl, ◌∙◌, sym, subst, Option, none, some, List, [], ◌∷◌, map, take, length, leb,
  ◌&&◌, arith, if◌then◌else◌, inl, inr, Option-cases,
}
use leaf_flow_chat.Domain.{Uuid, Conversation, Message}
use leaf_flow_chat.Errors.{Result, ok, err}
use leaf_flow_chat.Principal.{Principal}
use leaf_flow_chat.Sql.{Sql}
use leaf_flow_chat.Db.Cursor.Codec.{Text, Codec}
use leaf_flow_chat.Db.Conversations.{ConversationFilterDto, list_for_user, list_for_admin}
use leaf_flow_chat.Db.MessagePages
use leaf_flow_chat.Db.Session.{Session, Action, in_session, ◌>>=◌}
use leaf_flow_chat.Services.ConversationService
use leaf_flow_chat.Services.AdminService
use leaf_flow_chat.Services.MessageService
use leaf_flow_chat.Api.{
  Response, success, failure, respond, request, as_principal, as_admin, list_messages,
  list_conversations, list_all_conversations, list_any_messages,
}

-- the text of the query parameter, as an integer
pub data LimitQuery : Type 0 where
  absent malformed negative : LimitQuery
  number : ℕ → LimitQuery

-- `Query(default, ge=ge, le=le)`; without a value where it is refused
abbrev pub limit_between : ℕ → ℕ → ℕ → LimitQuery → Option ℕ
limit_between default_ ge le absent = some default_
limit_between default_ ge le malformed = none
limit_between default_ ge le negative = none
limit_between default_ ge le (number n) = if leb ge n && leb n le then some n else none

unfoldable pub messages_limit : LimitQuery → Option ℕ
messages_limit q = limit_between 50 1 200 q

unfoldable pub conversations_limit : LimitQuery → Option ℕ
conversations_limit q = limit_between 20 1 100 q

-- a parameter that is refused is answered by 422
abbrev pub or_422 :
    {A : Type 0} → Option ℕ → (ℕ → Session → Response A × Session) → Session → Response A × Session
or_422 none endpoint s = (failure 422, s)
or_422 (some limit) endpoint s = endpoint limit s

module _ ⦃sql : Sql⦄ ⦃codec : Codec⦄ (verified : Option Principal) where
  -- The dependencies come first: a caller who is refused gets its 401 or 403.
  unfoldable pub get_messages :
      Uuid → Option Text → LimitQuery → Session → Response (List Message) × Session
  get_messages conversation_id cursor q = as_principal verified (λ principal.
      or_422 (messages_limit q)
        (λ limit. list_messages (some principal) conversation_id cursor limit))

  unfoldable pub get_conversations :
      Option Text → LimitQuery → Session → Response (List Conversation) × Session
  get_conversations cursor q = as_principal verified (λ principal.
      or_422 (conversations_limit q) (λ limit. list_conversations (some principal) cursor limit))

  unfoldable pub get_any_messages :
      Uuid → Option Text → LimitQuery → Session → Response (List Message) × Session
  get_any_messages conversation_id cursor q = as_admin verified (λ principal.
      or_422 (messages_limit q)
        (λ limit. list_any_messages (some principal) conversation_id cursor limit))

  -- `filters` but for its limit
  unfoldable pub get_all_conversations :
      ConversationFilterDto → LimitQuery → Session → Response (List Conversation) × Session
  get_all_conversations filters q = as_admin verified (λ principal.
      or_422 (conversations_limit q)
        (λ limit. list_all_conversations (some principal) (record filters { limit = limit })))
