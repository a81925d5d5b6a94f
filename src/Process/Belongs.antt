-- ===== src/Process/Belongs.antt =====
-- What the manager holds, against the live connections.
use leaf_flow_chat.Prelude.{
  String, ◌≡◌, refl, subst, inl, inr, Bool, true, ◌&&◌, ◌||◌, List, [], ◌∷◌, ◌++◌, arith, any, ◌==◌,
  str_eq, eq_iff, Bool-cases,
}
use leaf_flow_chat.Prelude.Dict.{get}
use leaf_flow_chat.Domain.{Uuid}
use leaf_flow_chat.Principal.{Principal, principal_key}
use leaf_flow_chat.Ws.Manager.{
  WebSocket, ConnectionManager, init, connect, disconnect, subscribe, broadcast_to_conversation,
}
use leaf_flow_chat.Ws.Registry.{
  connected, subscribed, connected-connect, subscribed-connect, connected-disconnect,
  subscribed-disconnect, subscribed-subscribe,
}
use leaf_flow_chat.Ws.Broadcast.{broadcast_drops_dead, broadcast-subscribed}

abbrev pub has_key : String → WebSocket × Principal → Bool
has_key k q = str_eq (principal_key q.1) k

abbrev pub has_socket : String → WebSocket → WebSocket × Principal → Bool
has_socket k x q = str_eq (principal_key q.1) k && q.0 == x

-- Some live connection has the key; one has the key and the socket.
abbrev pub is_present : List (WebSocket × Principal) → String → Bool
is_present live k = any (has_key k) live

abbrev pub is_live : List (WebSocket × Principal) → String → WebSocket → Bool
is_live live k x = any (has_socket k x) live

-- Everything in the manager belongs to a live connection.
pub record Belongs (live : List (WebSocket × Principal)) (m : ConnectionManager) : Type 0 where
  pub sockets : (k : String) (x : WebSocket) → connected m k x ≡ true → is_live live k x ≡ true
  pub keys : (c : Uuid) (k : String) → subscribed m c k ≡ true → is_present live k ≡ true

pub init-Belongs : (live : List (WebSocket × Principal)) → Belongs live init
unfolding get
init-Belongs live = record { sockets = λ k x e. absurd (cc e); keys = λ c k e. absurd (cc e) }

pub any-middle :
    (q : WebSocket × Principal → Bool) (before after : List (WebSocket × Principal))
    (a : WebSocket × Principal)
    → any q (before ++ a ∷ after) ≡ (q a || any q (before ++ after))
any-middle q [] after a = refl
any-middle q (b ∷ before) after a = ground (arith, any-middle q before after a)

module _ (live : List (WebSocket × Principal)) (m : ConnectionManager) (h : Belongs live m) where
  pub connect-Belongs :
      (ws : WebSocket) (p : Principal) → Belongs ((ws, p) ∷ live) (connect ws (principal_key p) m)
  connect-Belongs ws p = record {
    sockets = λ k x e. ground (arith, h.sockets k x, connected-connect m ws (principal_key p) k x);
    keys = λ c k e. ground (arith, h.keys c k, subscribed-connect m ws (principal_key p) c k);
  }

  pub subscribe-Belongs :
      (p : Principal) (c : Uuid)
      → is_present live (principal_key p) ≡ true
      → Belongs live (subscribe (principal_key p) c m)
  subscribe-Belongs p c there = record {
    sockets = λ k x e. unfold subscribe in h.sockets k x e;
    keys = λ d k e. elim (Bool-cases (str_eq (principal_key p) k)) [
      | inl same ↦ subst (λ j. is_present live j ≡ true) ((eq_iff (principal_key p) k).0 same) there
      | inr other ↦ ground (arith, h.keys d k, subscribed-subscribe m (principal_key p) c d k)
    ];
  }

  pub broadcast-Belongs :
      {D : Type 0} (fails : WebSocket → Bool) (c : Uuid) (event_type : String) (payload : D)
      → Belongs live (broadcast_to_conversation fails c event_type payload m).1
  broadcast-Belongs fails c event_type payload = record {
    sockets = λ k x e.
        h.sockets k x (ground (arith, broadcast_drops_dead fails c event_type payload m k x));
    keys = λ d k e. h.keys d k (broadcast-subscribed fails c event_type payload m d k e);
  }

-- The `finally:` of a connection leaves what belongs to the others.
pub disconnect-Belongs :
    (before after : List (WebSocket × Principal)) (ws : WebSocket) (p : Principal)
    (m : ConnectionManager)
    → Belongs (before ++ (ws, p) ∷ after) m
    → Belongs (before ++ after) (disconnect ws (principal_key p) m)
disconnect-Belongs before after ws p m h = record {
  sockets = λ k x e. ground (
    arith,
    h.sockets k x,
    connected-disconnect m ws (principal_key p) k x,
    any-middle (has_socket k x) before after (ws, p),
  );
  keys = λ c k e. ground (
    arith,
    h.keys c k,
    subscribed-disconnect m ws (principal_key p) c k,
    any-middle (has_key k) before after (ws, p),
  );
}
