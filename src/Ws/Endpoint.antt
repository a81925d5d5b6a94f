-- ===== src/Ws/Endpoint.antt =====
-- api/v1/routers/ws.py. An incoming message is a list, or what was no WsInbound; `parse_uuid` is
-- `UUID(…)` of a text, without a value where Python raises ValueError. The texts of exceptions in
-- error replies are left out; the heartbeat is in Process.
pub mod Effects
pub mod Registers
use leaf_flow_chat.Prelude.{
  ℕ, String, Bool, true, false, Option, none, some, List, [], ◌∷◌, ◌++◌, str_eq, if◌then◌else◌,
}
use leaf_flow_chat.Prelude.Dict.{Dict, get, string_eq}
use leaf_flow_chat.Domain.{Uuid, Message, MessageType, text, system, attachment, Payload, str}
use leaf_flow_chat.Errors.{
  Error, Result, ok, err, app, integrity_error, assertion_error, value_error, key_error, type_error,
  attribute_error,
}
use leaf_flow_chat.Principal.{Principal, principal_key}
use leaf_flow_chat.Sql.{Sql}
use leaf_flow_chat.Db.Session.{Session, in_session}
use leaf_flow_chat.Services.MessageService.{send_message}
use leaf_flow_chat.Services.ReadStateService.{mark_read}
use leaf_flow_chat.Ws.Manager.{
  WebSocket, WsOutbound, ConnectionManager, connect, disconnect, subscribe,
  broadcast_to_conversation,
}

-- A value of the JSON object `data`: null, a text, or anything else, with its truth value.
pub data Json : Type 0 where
  json_null : Json
  json_text : String → Json
  json_other : Bool → Json

-- `model_validate_json` of what was received
pub data WsInbound : Type 0 where
  invalid : WsInbound
  inbound : String → Dict String Json → WsInbound

-- The data of what is sent: a flat object, or that of "message.created".
pub data Outgoing : Type 0 where
  flat : Payload → Outgoing
  created_message : Message → Outgoing

-- what one process keeps, and the database
pub record Hub : Type 0 where
  pub session : Session
  pub manager : ConnectionManager

-- What handling a message did: `alive` is false where an exception leaves the read loop.
pub record Outcome : Type 0 where
  pub hub : Hub
  pub delivered : List (WebSocket × WsOutbound Outgoing)
  pub alive : Bool

abbrev pub quiet : Hub → Outcome
quiet hub = record { hub = hub; delivered = []; alive = true }

abbrev pub broken : Hub → Outcome
broken hub = record { hub = hub; delivered = []; alive = false }

-- `except (KeyError, ValueError)`
abbrev pub is_bad_data : Error → Bool
is_bad_data value_error = true
is_bad_data key_error = true
is_bad_data (app e) = false
is_bad_data integrity_error = false
is_bad_data assertion_error = false
is_bad_data type_error = false
is_bad_data attribute_error = false

abbrev pub is_truthy : Json → Bool
is_truthy json_null = false
is_truthy (json_text s) = if str_eq s "" then false else true
is_truthy (json_other b) = b

abbrev pub uuid_or_raise : Option Uuid → Result Uuid
uuid_or_raise none = err value_error
uuid_or_raise (some u) = ok u

-- `MessageType(…)` of a text
abbrev pub message_type : String → Result MessageType
message_type t =
    if str_eq t "text"
    then ok text
    else if str_eq t "system"
    then ok system
    else if str_eq t "attachment"
    then ok attachment
    else err value_error

-- `MessageType(data.get("type", "text"))`
abbrev pub type_of : Option Json → Result MessageType
type_of none = ok text
type_of (some (json_text t)) = message_type t
type_of (some json_null) = err value_error
type_of (some (json_other b)) = err value_error

-- `data.get("body")` as a column value; the driver refuses what is neither text nor null.
abbrev pub body_of : Option Json → Option (Option String)
body_of none = some none
body_of (some json_null) = some none
body_of (some (json_text s)) = some (some s)
body_of (some (json_other b)) = none

abbrev pub then_result : {A B : Type 0} → Result A → (A → Result B) → Result B
then_result (ok a) f = f a
then_result (err e) f = err e

module _ (parse_uuid : String → Option Uuid) where
  -- `UUID(value)`
  abbrev pub uuid_of : Json → Result Uuid
  uuid_of json_null = err type_error
  uuid_of (json_text s) = uuid_or_raise (parse_uuid s)
  uuid_of (json_other b) = err attribute_error

  -- `UUID(data[key])`
  abbrev pub uuid_field : Option Json → Result Uuid
  uuid_field none = err key_error
  uuid_field (some v) = uuid_of v

  -- the block under `try:` of `_handle_send`
  unfoldable pub send_data : Dict String Json → Result (Uuid × Uuid × MessageType)
  send_data data_ = then_result (uuid_field (get "conversation_id" data_)) (λ conversation_id.
      then_result (uuid_field (get "client_msg_id" data_)) (λ client_msg_id.
        then_result (type_of (get "type" data_))
          (λ msg_type. ok (conversation_id, client_msg_id, msg_type))))

  -- the block under `try:` of `_handle_mark_read`
  unfoldable pub mark_read_data : Dict String Json → Result (Uuid × Uuid)
  mark_read_data data_ = then_result (uuid_field (get "conversation_id" data_)) (λ conversation_id.
      then_result (uuid_field (get "last_message_id" data_))
        (λ last_message_id. ok (conversation_id, last_message_id)))

module _ ⦃sql : Sql⦄ (parse_uuid : String → Option Uuid) (fails : WebSocket → Bool) where
  -- `await ws.send_text(…)`
  unfoldable pub reply : WebSocket → String → Payload → Hub → Outcome
  reply ws type payload hub = if fails ws then broken hub else record {
    hub = hub;
    delivered = (ws, record { type = type; payload = flat payload }) ∷ [];
    alive = true;
  }

  -- the end of `_handle_send`, after the service has returned or raised
  unfoldable pub announce_sent : WebSocket → Uuid → Result (Message × Bool) → Hub → Outcome
  announce_sent ws conversation_id (err e) hub =
      reply ws "error" (("code", str "send_failed") ∷ []) hub
  announce_sent ws conversation_id (ok (msg, created)) hub =
      let (arrived, manager) =
        broadcast_to_conversation fails conversation_id "message.created" (created_message msg)
          hub.manager in
      record { hub = record hub { manager = manager }; delivered = arrived; alive = true }

  unfoldable pub send_parsed :
      WebSocket
      → Principal
      → Option (Option String)
      → Result (Uuid × Uuid × MessageType)
      → Hub
      → Outcome
  send_parsed ws principal body (err e) hub =
      if is_bad_data e then reply ws "error" (("code", str "invalid_data") ∷ []) hub else broken hub
  send_parsed ws principal none (ok (c, m, t)) hub =
      reply ws "error" (("code", str "send_failed") ∷ []) hub
  send_parsed ws principal (some body) (ok (c, m, t)) hub =
      let (r, s) = in_session (send_message c principal m t body) hub.session in
      announce_sent ws c r (record hub { session = s })

  unfoldable pub handle_send : WebSocket → Principal → Dict String Json → Hub → Outcome
  handle_send ws principal data_ hub =
      send_parsed ws principal (body_of (get "body" data_)) (send_data parse_uuid data_) hub

  unfoldable pub mark_read_parsed : Principal → Result (Uuid × Uuid) → Hub → Outcome
  mark_read_parsed principal (err e) hub = if is_bad_data e then quiet hub else broken hub
  mark_read_parsed principal (ok (c, m)) hub =
      let (r, s) = in_session (mark_read c principal m) hub.session in
      quiet (record hub { session = s })

  unfoldable pub handle_mark_read : Principal → Dict String Json → Hub → Outcome
  handle_mark_read principal data_ hub =
      mark_read_parsed principal (mark_read_data parse_uuid data_) hub

  -- `manager.subscribe(pkey, UUID(conversation_id))`
  unfoldable pub subscribe_parsed : Principal → Result Uuid → Hub → Outcome
  subscribe_parsed principal (err e) hub = broken hub
  subscribe_parsed principal (ok c) hub =
      quiet (record hub { manager = subscribe (principal_key principal) c hub.manager })

  unfoldable pub handle_subscribe : Principal → Option Json → Hub → Outcome
  handle_subscribe principal none hub = quiet hub
  handle_subscribe principal (some v) hub =
      if is_truthy v then subscribe_parsed principal (uuid_of parse_uuid v) hub else quiet hub

  -- one round of `_read_loop`
  unfoldable pub on_message : WebSocket → Principal → WsInbound → Hub → Outcome
  on_message ws principal invalid hub = reply ws "error" (("code", str "invalid_payload") ∷ []) hub
  on_message ws principal (inbound type data_) hub =
      if str_eq type "ping"
      then reply ws "pong" [] hub
      else if str_eq type "subscribe"
      then handle_subscribe principal (get "conversation_id" data_) hub
      else if str_eq type "message.send"
      then handle_send ws principal data_ hub
      else if str_eq type "mark_read"
      then handle_mark_read principal data_ hub
      else reply ws "error" (("code", str "unknown_type") ∷ ("type", str type) ∷ []) hub

  -- The read loop over what the client sends before it disconnects, until an exception ends it.
  unfoldable pub read_loop : WebSocket → Principal → List WsInbound → Hub → Hub
  read_loop ws principal [] hub = hub
  read_loop ws principal (m ∷ rest) hub =
      let o = on_message ws principal m hub in
      let after = read_loop ws principal rest o.hub in if o.alive then after else o.hub

  -- `ws_chat` after the token was verified
  unfoldable pub ws_chat : WebSocket → Principal → List WsInbound → Hub → Hub
  ws_chat ws principal inbounds hub =
      let key = principal_key principal in
      let opened = record hub { manager = connect ws key hub.manager } in
      let ended = read_loop ws principal inbounds opened in
      record ended { manager = disconnect ws key ended.manager }
