-- ===== src/Ws/Endpoint/Effects.antt =====
-- What the messages of one connection can do to the database and to the registry.
use leaf_flow_chat.Prelude.{
  String, ◌≡◌, refl, sym, subst, Bool, true, false, Option, none, some, List, [], ◌∷◌, arith,
  str_eq, if◌then◌else◌, eq_iff,
}
use leaf_flow_chat.Prelude.Dict.{get, nat_eq, string_eq}
use leaf_flow_chat.Domain.{Uuid, Message, MessageType, Payload}
use leaf_flow_chat.Errors.{Result, ok, err}
use leaf_flow_chat.Principal.{Principal, principal_key}
use leaf_flow_chat.Sql.{Sql}
use leaf_flow_chat.Db.Session.{Session, in_session}
use leaf_flow_chat.Services.MessageService.{send_message}
use leaf_flow_chat.Db.Valid.{IsValid}
use leaf_flow_chat.Services.Validity.{send, read, Step-IsValid}
use leaf_flow_chat.Ws.Manager.{WebSocket, connect}
use leaf_flow_chat.Ws.Registry.{connected, subscribed, connected-disconnect, subscribed-disconnect}
use leaf_flow_chat.Ws.Endpoint.{
  Json, WsInbound, invalid, inbound, Hub, Outcome, quiet, broken, is_bad_data, is_truthy, uuid_of,
  body_of, send_data, mark_read_data, reply, announce_sent, send_parsed, handle_send,
  mark_read_parsed, handle_mark_read, subscribe_parsed, handle_subscribe, on_message, read_loop,
  ws_chat,
}

abbrev HubIsValid : Hub → Type 0
HubIsValid hub = IsValid hub.session.committed

either-IsValid :
    (b : Bool) (x y : Outcome)
    → HubIsValid x.hub
    → HubIsValid y.hub
    → HubIsValid (if b then x else y).hub
either-IsValid true x y vx vy = vx
either-IsValid false x y vx vy = vy

module _ ⦃sql : Sql⦄ (parse_uuid : String → Option Uuid) (fails : WebSocket → Bool) where
  reply-session :
      (ws : WebSocket) (type : String) (payload : Payload) (hub : Hub)
      → (reply parse_uuid fails ws type payload hub).hub.session ≡ hub.session
  unfolding reply
  reply-session ws type payload hub = ground arith

  reply-IsValid :
      (ws : WebSocket) (type : String) (payload : Payload) (hub : Hub)
      → HubIsValid hub
      → HubIsValid (reply parse_uuid fails ws type payload hub).hub
  reply-IsValid ws type payload hub v =
      subst (λ (s : Session). IsValid s.committed) (sym (reply-session ws type payload hub)) v

  announce_sent-session :
      (ws : WebSocket) (c : Uuid) (r : Result (Message × Bool)) (hub : Hub)
      → (announce_sent parse_uuid fails ws c r hub).hub.session ≡ hub.session
  unfolding announce_sent
  announce_sent-session ws c (err e) hub = reply-session ws _ _ hub
  announce_sent-session ws c (ok (msg, created)) hub = refl

  send_parsed-IsValid :
      (ws : WebSocket) (p : Principal) (body : Option (Option String))
      (r : Result (Uuid × Uuid × MessageType)) (hub : Hub)
      → HubIsValid hub
      → HubIsValid (send_parsed parse_uuid fails ws p body r hub).hub
  unfolding send_parsed
  send_parsed-IsValid ws p body (err e) hub v =
      either-IsValid (is_bad_data e) (reply parse_uuid fails ws "error" _ hub) (broken hub)
        (reply-IsValid ws "error" _ hub v) v
  send_parsed-IsValid ws p none (ok (c, m, t)) hub v = reply-IsValid ws "error" _ hub v
  send_parsed-IsValid ws p (some body) (ok (c, m, t)) hub v =
      subst (λ (s : Session). IsValid s.committed)
        (sym (
          announce_sent-session ws c (in_session (send_message c p m t body) hub.session).0
            (record hub { session = (in_session (send_message c p m t body) hub.session).1 })))
        (Step-IsValid {s = hub.session} (send c p m t body) v)

  mark_read-IsValid :
      (p : Principal) (r : Result (Uuid × Uuid)) (hub : Hub)
      → HubIsValid hub
      → HubIsValid (mark_read_parsed parse_uuid fails p r hub).hub
  unfolding mark_read_parsed
  mark_read-IsValid p (err e) hub v = either-IsValid (is_bad_data e) (quiet hub) (broken hub) v v
  mark_read-IsValid p (ok (c, m)) hub v = Step-IsValid {s = hub.session} (read c p m) v

  subscribe-IsValid :
      (p : Principal) (o : Option Json) (hub : Hub)
      → HubIsValid hub
      → HubIsValid (handle_subscribe parse_uuid fails p o hub).hub
  unfolding handle_subscribe subscribe_parsed
  subscribe-IsValid p none hub v = v
  subscribe-IsValid p (some j) hub v =
      either-IsValid (is_truthy j) _ (quiet hub) (parsed (uuid_of parse_uuid j)) v
    where
      parsed : (r : Result Uuid) → HubIsValid (subscribe_parsed parse_uuid fails p r hub).hub
      parsed (err e) = v
      parsed (ok c) = v

  pub on_message-IsValid :
      (ws : WebSocket) (p : Principal) (m : WsInbound) (hub : Hub)
      → HubIsValid hub
      → HubIsValid (on_message parse_uuid fails ws p m hub).hub
  unfolding on_message handle_send handle_mark_read
  on_message-IsValid ws p invalid hub v = reply-IsValid ws "error" _ hub v
  on_message-IsValid ws p (inbound type fields) hub v =
      either-IsValid (str_eq type "ping") _ _ (reply-IsValid ws "pong" [] hub v) (
        either-IsValid (str_eq type "subscribe") _ _
          (subscribe-IsValid p (get "conversation_id" fields) hub v)
          (either-IsValid (str_eq type "message.send") _ _
            (send_parsed-IsValid ws p (body_of (get "body" fields)) (send_data parse_uuid fields)
              hub v)
            (either-IsValid (str_eq type "mark_read") _ _
              (mark_read-IsValid p (mark_read_data parse_uuid fields) hub v)
              (reply-IsValid ws "error" _ hub v))))

  read_loop-IsValid :
      (ws : WebSocket) (p : Principal) (ms : List WsInbound) (hub : Hub)
      → HubIsValid hub
      → HubIsValid (read_loop parse_uuid fails ws p ms hub)
  unfolding read_loop
  read_loop-IsValid ws p [] hub v = v
  read_loop-IsValid ws p (m ∷ ms) hub v =
      let o = on_message parse_uuid fails ws p m hub in
      either_hub o.alive (read_loop parse_uuid fails ws p ms o.hub) o.hub
        (read_loop-IsValid ws p ms o.hub (on_message-IsValid ws p m hub v))
        (on_message-IsValid ws p m hub v)
    where
      either_hub :
          (b : Bool) (x y : Hub) → HubIsValid x → HubIsValid y → HubIsValid (if b then x else y)
      either_hub true x y vx vy = vx
      either_hub false x y vx vy = vy

  -- A WebSocket connection, from its registration to its end, however it ends and whatever its
  -- client sends: a valid database is valid still, the socket is registered under its key no more,
  -- and its key is subscribed to nothing.
  pub ws_chat_leaves :
      (ws : WebSocket) (p : Principal) (ms : List WsInbound) (hub : Hub)
      → IsValid hub.session.committed
      → let end = ws_chat parse_uuid fails ws p ms hub in
        IsValid end.session.committed
        × (connected end.manager (principal_key p) ws ≡ false)
        × ((c : Uuid) → subscribed end.manager c (principal_key p) ≡ false)
  unfolding ws_chat
  ws_chat_leaves ws p ms hub v =
      let key = principal_key p in
      let opened = record hub { manager = connect ws key hub.manager } in
      let m = (read_loop parse_uuid fails ws p ms opened).manager in
      (
        read_loop-IsValid ws p ms opened v,
        ground (arith, connected-disconnect m ws key key ws, eq_iff key key),
        λ c. ground (arith, subscribed-disconnect m ws key c key, eq_iff key key),
      )
