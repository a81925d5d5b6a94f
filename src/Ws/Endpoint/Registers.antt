-- ===== src/Ws/Endpoint/Registers.antt =====
-- The manager after a message of a connection: as it was, after a subscription of the connection's
-- own key, or after a broadcast.
use leaf_flow_chat.Prelude.{
  String, Bool, true, false, Option, none, some, [], inl, inr, Bool-cases, str_eq, if◌then◌else◌,
}
use leaf_flow_chat.Prelude.Dict.{get, string_eq}
use leaf_flow_chat.Domain.{Uuid, Message, MessageType, Payload}
use leaf_flow_chat.Errors.{Result, ok, err}
use leaf_flow_chat.Principal.{Principal, principal_key}
use leaf_flow_chat.Sql.{Sql}
use leaf_flow_chat.Db.Session.{Session, in_session}
use leaf_flow_chat.Services.MessageService.{send_message}
use leaf_flow_chat.Ws.Manager.{WebSocket, ConnectionManager, subscribe, broadcast_to_conversation}
use leaf_flow_chat.Ws.Endpoint.{
  Json, WsInbound, invalid, inbound, Hub, Outcome, Outgoing, quiet, broken, is_bad_data, is_truthy,
  uuid_of, body_of, send_data, mark_read_data, reply, announce_sent, send_parsed, handle_send,
  mark_read_parsed, handle_mark_read, subscribe_parsed, handle_subscribe, on_message,
}

module _ ⦃sql : Sql⦄ (parse_uuid : String → Option Uuid) (fails : WebSocket → Bool) (ws : WebSocket)
    (p : Principal) (Q : ConnectionManager → Type 0) (hub : Hub) (unchanged : Q hub.manager)
    (subscribes : (c : Uuid) → Q (subscribe (principal_key p) c hub.manager))
    (broadcasts : (c : Uuid) (event_type : String) (payload : Outgoing)
      → Q (broadcast_to_conversation fails c event_type payload hub.manager).1) where
  abbrev Leaves : Outcome → Type 0
  Leaves o = Q o.hub.manager

  either-Leaves : (b : Bool) (x y : Outcome) → Leaves x → Leaves y → Leaves (if b then x else y)
  either-Leaves true x y hx hy = hx
  either-Leaves false x y hx hy = hy

  reply-Leaves :
      (type : String) (payload : Payload) (s : Session)
      → Leaves (reply parse_uuid fails ws type payload (record hub { session = s }))
  unfolding reply
  reply-Leaves type payload s = elim (Bool-cases (fails ws)) [
    | inl e ↦ rw e unchanged
    | inr e ↦ rw e unchanged
  ]

  announce_sent-Leaves :
      (c : Uuid) (r : Result (Message × Bool)) (s : Session)
      → Leaves (announce_sent parse_uuid fails ws c r (record hub { session = s }))
  unfolding announce_sent
  announce_sent-Leaves c (err e) s = reply-Leaves "error" _ s
  announce_sent-Leaves c (ok (msg, created)) s = broadcasts c "message.created" _

  send_parsed-Leaves :
      (body : Option (Option String)) (r : Result (Uuid × Uuid × MessageType))
      → Leaves (send_parsed parse_uuid fails ws p body r hub)
  unfolding send_parsed
  send_parsed-Leaves body (err e) =
      either-Leaves (is_bad_data e) _ (broken hub) (reply-Leaves "error" _ hub.session) unchanged
  send_parsed-Leaves none (ok (c, m, t)) = reply-Leaves "error" _ hub.session
  send_parsed-Leaves (some body) (ok (c, m, t)) =
      let (r, s) = in_session (send_message c p m t body) hub.session in announce_sent-Leaves c r s

  mark_read-Leaves : (r : Result (Uuid × Uuid)) → Leaves (mark_read_parsed parse_uuid fails p r hub)
  unfolding mark_read_parsed
  mark_read-Leaves (err e) =
      either-Leaves (is_bad_data e) (quiet hub) (broken hub) unchanged unchanged
  mark_read-Leaves (ok (c, m)) = unchanged

  subscribe_parsed-Leaves : (r : Result Uuid) → Leaves (subscribe_parsed parse_uuid fails p r hub)
  unfolding subscribe_parsed
  subscribe_parsed-Leaves (err e) = unchanged
  subscribe_parsed-Leaves (ok c) = subscribes c

  subscribe-Leaves : (o : Option Json) → Leaves (handle_subscribe parse_uuid fails p o hub)
  unfolding handle_subscribe
  subscribe-Leaves none = unchanged
  subscribe-Leaves (some j) =
      either-Leaves (is_truthy j) _ (quiet hub) (subscribe_parsed-Leaves (uuid_of parse_uuid j))
        unchanged

  pub on_message_ind : (m : WsInbound) → Leaves (on_message parse_uuid fails ws p m hub)
  unfolding on_message handle_send handle_mark_read
  on_message_ind invalid = reply-Leaves "error" _ hub.session
  on_message_ind (inbound type fields) =
      either-Leaves (str_eq type "ping") _ _ (reply-Leaves "pong" [] hub.session) (
        either-Leaves (str_eq type "subscribe") _ _
          (subscribe-Leaves (get "conversation_id" fields))
          (either-Leaves (str_eq type "message.send") _ _
            (send_parsed-Leaves (body_of (get "body" fields)) (send_data parse_uuid fields))
            (either-Leaves (str_eq type "mark_read") _ _
              (mark_read-Leaves (mark_read_data parse_uuid fields))
              (reply-Leaves "error" _ hub.session))))
