-- ===== src/Process.antt =====
-- One process of the service as app.py puts it together: WebSocket connections side by side, each a
-- call of `ws_chat` (api/v1/routers/ws.py), the listener of infrastructure/bus/redis_pubsub.py, and
-- everything else that writes to the database.
pub mod Belongs
pub mod Tidy
pub mod Lifespan
use leaf_flow_chat.Prelude.{
  ℕ, zero, suc, String, ◌≡◌, Bool, true, false, Option, some, List, [], ◌∷◌, ◌++◌, if◌then◌else◌,
}
use leaf_flow_chat.Domain.{Uuid}
use leaf_flow_chat.Principal.{Principal, principal_key}
use leaf_flow_chat.Settings.{Settings}
use leaf_flow_chat.Sql.{Sql}
use leaf_flow_chat.Auth.{Jwt}
use leaf_flow_chat.Auth.Entrance.{authenticate}
use leaf_flow_chat.Db.Session.{Session}
use leaf_flow_chat.Services.Validity
use leaf_flow_chat.Bus.Serializer.{Json}
use leaf_flow_chat.Bus.PubSub.{Notice, hear}
use leaf_flow_chat.Ws.Manager.{WebSocket, WsOutbound, connect, disconnect}
use leaf_flow_chat.Ws.Endpoint.{Hub, WsInbound, Outgoing, flat, on_message}

-- `live` are the calls of `ws_chat` that have registered their socket and are in the read loop.
pub record Process : Type 0 where
  pub hub : Hub
  pub live : List (WebSocket × Principal)

-- the connection's beginning, after its token was accepted
unfoldable pub open_socket : WebSocket → Principal → Hub → Hub
open_socket ws p hub = record hub { manager = connect ws (principal_key p) hub.manager }

-- the `finally:` of `ws_chat`
unfoldable pub close_socket : WebSocket → Principal → Hub → Hub
close_socket ws p hub = record hub { manager = disconnect ws (principal_key p) hub.manager }

-- `_heartbeat` over so many intervals before it is cancelled; a send that raises ends it.
unfoldable pub heartbeat :
    (WebSocket → Bool) → WebSocket → ℕ → List (WebSocket × WsOutbound Outgoing)
heartbeat fails ws zero = []
heartbeat fails ws (suc n) =
    let rest = heartbeat fails ws n in
    if fails ws then [] else (ws, record { type = "pong"; payload = flat [] }) ∷ rest

module _ ⦃sql : Sql⦄ ⦃json : Json⦄ ⦃jwt : Jwt⦄ (settings : Settings) (parse_int : String → Option ℕ)
    (parse_uuid : String → Option Uuid) (uuid_text : Uuid → String) (fails : WebSocket → Bool) where
  pub data Step (s : Process) : Process → Type 0 where
    opens :
        (ws : WebSocket) (token : String) (p : Principal)
        → authenticate parse_int settings token ≡ some p
        → Step s (record { hub = open_socket ws p s.hub; live = (ws, p) ∷ s.live })
    -- a message, after which the read loop goes on
    handles :
        (ws : WebSocket) (p : Principal) (m : WsInbound)
        (before after : List (WebSocket × Principal))
        → s.live ≡ before ++ (ws, p) ∷ after
        → (on_message parse_uuid fails ws p m s.hub).alive ≡ true
        → Step s (record s { hub = (on_message parse_uuid fails ws p m s.hub).hub })
    -- one whose exception ends it
    breaks :
        (ws : WebSocket) (p : Principal) (m : WsInbound)
        (before after : List (WebSocket × Principal))
        → s.live ≡ before ++ (ws, p) ∷ after
        → (on_message parse_uuid fails ws p m s.hub).alive ≡ false
        → Step s (record {
          hub = close_socket ws p (on_message parse_uuid fails ws p m s.hub).hub;
          live = before ++ after;
        })
    -- WebSocketDisconnect
    closes :
        (ws : WebSocket) (p : Principal) (before after : List (WebSocket × Principal))
        → s.live ≡ before ++ (ws, p) ∷ after
        → Step s (record { hub = close_socket ws p s.hub; live = before ++ after })
    hears :
        (n : Notice json.Raw)
        → Step s (record s {
          hub = record s.hub { manager = (hear parse_uuid uuid_text fails n s.hub.manager).1 };
        })
    writes :
        {t : Session}
        → Validity.Step s.hub.session t
        → Step s (record s { hub = record s.hub { session = t } })

  pub data Reach (s : Process) : Process → Type 0 where
    here : Reach s s
    next : {t u : Process} → Reach s t → Step t u → Reach s u
