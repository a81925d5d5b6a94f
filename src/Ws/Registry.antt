-- ===== src/Ws/Registry.antt =====
-- The connection manager as two relations: which socket is connected under which key, and which
-- key is subscribed to which conversation.
use mathlib.Core.Option
use leaf_flow_chat.Prelude.{
  String, ◌≡◌, ◌≢◌, refl, Bool, true, false, not, ◌&&◌, ◌||◌, Option, none, some, List, [], ◌∷◌,
  arith, ◌==◌, str_eq, eq_iff,
}
use leaf_flow_chat.Prelude.Dict.{
  get, get-put, get-remove, get-map_values, contains, contains-add, contains-discard, discard,
  nat_eq, string_eq,
}
use leaf_flow_chat.Domain.{Uuid}
use leaf_flow_chat.Ws.Manager.{
  WebSocket, ConnectionManager, connect, disconnect, subscribe, unsubscribe, or_empty,
  forget_socket, drop_socket, drop_subscriber,
}

abbrev pub connected : ConnectionManager → String → WebSocket → Bool
connected m pkey ws = contains (or_empty (get pkey m.connections)) ws

abbrev pub subscribed : ConnectionManager → Uuid → String → Bool
subscribed m conversation_id pkey = contains (or_empty (get conversation_id m.subscriptions)) pkey

module _ (m : ConnectionManager) (ws : WebSocket) (pkey : String) where
  pub connected-connect :
      (k : String) (x : WebSocket)
      → connected (connect ws pkey m) k x ≡ ((str_eq pkey k && ws == x) || connected m k x)
  unfolding connect
  connected-connect k x =
      rw get-put
        (ground (arith, eq_iff pkey k, contains-add ws x (or_empty (get pkey m.connections))))

  pub subscribed-connect :
      (c : Uuid) (k : String) → subscribed (connect ws pkey m) c k ≡ subscribed m c k
  unfolding connect
  subscribed-connect c k = refl

  pub connected-disconnect :
      (k : String) (x : WebSocket)
      → connected (disconnect ws pkey m) k x ≡ (connected m k x && not (str_eq pkey k && ws == x))
  unfolding disconnect
  connected-disconnect k x = split (get pkey m.connections) refl
    where
      after : Option (List WebSocket) → Bool
      after o = contains (or_empty (get k (forget_socket ws pkey o m.connections))) x

      kept :
          (held rest : List WebSocket)
          → get pkey m.connections ≡ some held
          → discard ws held ≡ rest
          → contains (or_empty (get k (drop_socket ws pkey rest m.connections))) x
            ≡ (connected m k x && not (str_eq pkey k && ws == x))
      kept held [] g d = rw get-remove (ground (arith, eq_iff pkey k, contains-discard ws x held))
      kept held (y ∷ ys) g d =
          rw get-put (ground (arith, eq_iff pkey k, contains-discard ws x held))

      split :
          (o : Option (List WebSocket))
          → get pkey m.connections ≡ o
          → after o ≡ (connected m k x && not (str_eq pkey k && ws == x))
      split none g = ground (arith, eq_iff pkey k)
      split (some []) g = ground (arith, eq_iff pkey k)
      split (some (y ∷ ys)) g = kept (y ∷ ys) (discard ws (y ∷ ys)) g refl

  pub subscribed-disconnect :
      (c : Uuid) (k : String)
      → subscribed (disconnect ws pkey m) c k ≡ (subscribed m c k && not (str_eq pkey k))
  unfolding disconnect
  subscribed-disconnect c k = rw get-map_values (kept (get c m.subscriptions))
    where
      kept :
          (o : Option (List String))
          → contains (or_empty (Option.map (discard pkey) o)) k
            ≡ (contains (or_empty o) k && not (str_eq pkey k))
      kept none = refl
      kept (some subs) = contains-discard pkey k subs

module _ (m : ConnectionManager) (pkey : String) (conversation_id : Uuid) where
  pub subscribed-subscribe :
      (c : Uuid) (k : String)
      → subscribed (subscribe pkey conversation_id m) c k
        ≡ ((conversation_id == c && str_eq pkey k) || subscribed m c k)
  unfolding subscribe
  subscribed-subscribe c k =
      rw get-put
        (ground (arith, contains-add pkey k (or_empty (get conversation_id m.subscriptions))))

  pub subscribed-unsubscribe :
      (c : Uuid) (k : String)
      → subscribed (unsubscribe pkey conversation_id m) c k
        ≡ (subscribed m c k && not (conversation_id == c && str_eq pkey k))
  unfolding unsubscribe
  subscribed-unsubscribe c k = split (get conversation_id m.subscriptions) refl
    where
      split :
          (o : Option (List String))
          → get conversation_id m.subscriptions ≡ o
          → contains (or_empty (get c (drop_subscriber pkey conversation_id o m.subscriptions))) k
            ≡ (subscribed m c k && not (conversation_id == c && str_eq pkey k))
      split none g = ground arith
      split (some []) g = ground arith
      split (some (y ∷ ys)) g = rw get-put (ground (arith, contains-discard pkey k (y ∷ ys)))

-- Closing one socket of a principal ends the subscriptions of all of them: another socket of the
-- same principal stays connected, and the principal is subscribed to no conversation any more.
pub disconnect_unsubscribes :
    (m : ConnectionManager) (ws other : WebSocket) (pkey : String)
    → connected m pkey other ≡ true
    → other ≢ ws
    → (connected (disconnect ws pkey m) pkey other ≡ true)
      × ((c : Uuid) → subscribed (disconnect ws pkey m) c pkey ≡ false)
disconnect_unsubscribes m ws other pkey open_still ne = (
  ground (arith, connected-disconnect m ws pkey pkey other),
  λ c. ground (arith, subscribed-disconnect m ws pkey c pkey, eq_iff pkey pkey),
)
