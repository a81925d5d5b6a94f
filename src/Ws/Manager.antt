-- ===== src/Ws/Manager.antt =====
-- infrastructure/ws/manager.py. A socket is known by its identity. Whether a socket's `send_text`
-- raises is a parameter, `fails`; no other task runs while a message is being sent out.
use leaf_flow_chat.Prelude.{ℕ, String, Bool, Option, none, some, List, [], ◌∷◌, ◌++◌, if◌then◌else◌}
use leaf_flow_chat.Prelude.Dict.{
  Dict, get, put, remove, map_values, add, discard, nat_eq, string_eq,
}
use leaf_flow_chat.Domain.{Uuid}

abbrev pub WebSocket : Type 0
WebSocket = ℕ

-- `WsOutbound` of infrastructure/ws/protocol.py, over the type of the data it carries
pub record WsOutbound (D : Type 0) : Type 0 where
  pub type : String
  pub payload : D

pub record ConnectionManager : Type 0 where
  pub connections : Dict String (List WebSocket)
  pub subscriptions : Dict Uuid (List String)

abbrev pub init : ConnectionManager
init = record { connections = []; subscriptions = [] }

-- `d.get(k, set())`
abbrev pub or_empty : {A : Type 0} → Option (List A) → List A
or_empty none = []
or_empty (some xs) = xs

unfoldable pub connect : WebSocket → String → ConnectionManager → ConnectionManager
connect ws pkey m = record m {
  connections = put pkey (add ws (or_empty (get pkey m.connections))) m.connections;
}

-- the entry of a principal after one of its sockets is gone; an empty set is deleted
abbrev pub drop_socket :
    WebSocket
    → String
    → List WebSocket
    → Dict String (List WebSocket)
    → Dict String (List WebSocket)
drop_socket ws pkey [] d = remove pkey d
drop_socket ws pkey (x ∷ xs) d = put pkey (x ∷ xs) d

-- `if conns:`, which neither None nor an empty set passes
abbrev pub forget_socket :
    WebSocket
    → String
    → Option (List WebSocket)
    → Dict String (List WebSocket)
    → Dict String (List WebSocket)
forget_socket ws pkey none d = d
forget_socket ws pkey (some []) d = d
forget_socket ws pkey (some (x ∷ xs)) d = drop_socket ws pkey (discard ws (x ∷ xs)) d

unfoldable pub disconnect : WebSocket → String → ConnectionManager → ConnectionManager
disconnect ws pkey m = record {
  connections = forget_socket ws pkey (get pkey m.connections) m.connections;
  subscriptions = map_values (discard pkey) m.subscriptions;
}

unfoldable pub subscribe : String → Uuid → ConnectionManager → ConnectionManager
subscribe pkey conversation_id m = record m {
  subscriptions =
      put conversation_id (add pkey (or_empty (get conversation_id m.subscriptions)))
        m.subscriptions;
}

abbrev pub drop_subscriber :
    String → Uuid → Option (List String) → Dict Uuid (List String) → Dict Uuid (List String)
drop_subscriber pkey conversation_id none d = d
drop_subscriber pkey conversation_id (some []) d = d
drop_subscriber pkey conversation_id (some (x ∷ subs)) d =
    put conversation_id (discard pkey (x ∷ subs)) d

unfoldable pub unsubscribe : String → Uuid → ConnectionManager → ConnectionManager
unsubscribe pkey conversation_id m = record m {
  subscriptions =
      drop_subscriber pkey conversation_id (get conversation_id m.subscriptions) m.subscriptions;
}

-- The sockets that a loop over some sets of sockets writes to, with the key of each.
abbrev pub sockets_of : String → List WebSocket → List (String × WebSocket)
sockets_of pkey [] = []
sockets_of pkey (ws ∷ rest) = (pkey, ws) ∷ sockets_of pkey rest

unfoldable pub targets : List String → Dict String (List WebSocket) → List (String × WebSocket)
targets [] d = []
targets (pkey ∷ subs) d = sockets_of pkey (or_empty (get pkey d)) ++ targets subs d

-- the loop over `dead`
unfoldable pub disconnect_all : List (String × WebSocket) → ConnectionManager → ConnectionManager
disconnect_all [] m = m
disconnect_all ((pkey, ws) ∷ dead) m = disconnect_all dead (disconnect ws pkey m)

module _ {D : Type 0} (fails : WebSocket → Bool) where
  -- The loop of `send_text` calls: what arrives, and the list `dead`.
  unfoldable pub send_all :
      WsOutbound D
      → List (String × WebSocket)
      → List (WebSocket × WsOutbound D) × List (String × WebSocket)
  send_all raw [] = ([], [])
  send_all raw ((pkey, ws) ∷ rest) =
      let (arrived, dead) = send_all raw rest in
      if fails ws then (arrived, (pkey, ws) ∷ dead) else ((ws, raw) ∷ arrived, dead)

  unfoldable pub broadcast_to_conversation :
      Uuid → String → D → ConnectionManager → List (WebSocket × WsOutbound D) × ConnectionManager
  broadcast_to_conversation conversation_id event_type payload m =
      let subs = or_empty (get conversation_id m.subscriptions) in
      let (arrived, dead) =
        send_all (record { type = event_type; payload = payload }) (targets subs m.connections) in
      (arrived, disconnect_all dead m)

  unfoldable pub send_to_principal :
      String → String → D → ConnectionManager → List (WebSocket × WsOutbound D) × ConnectionManager
  send_to_principal pkey event_type payload m =
      let (arrived, dead) =
        send_all (record { type = event_type; payload = payload })
          (sockets_of pkey (or_empty (get pkey m.connections))) in
      (arrived, disconnect_all dead m)
