-- ===== src/Ws/Refinement.antt =====
-- The connection manager against a specification that forgets its dictionaries: one bit for each
-- key and socket, one for each conversation and key.
use leaf_flow_chat.Prelude.{
  String, ◌≡◌, refl, ap, ◌∙◌, Bool, not, ◌&&◌, ◌||◌, List, [], ◌∷◌, ◌==◌, str_eq,
}
use leaf_flow_chat.Prelude.Dict.{nat_eq, string_eq}
use leaf_flow_chat.Domain.{Uuid}
use leaf_flow_chat.Ws.Manager.{
  WebSocket, ConnectionManager, connect, disconnect, subscribe, unsubscribe,
}
use leaf_flow_chat.Ws.Registry.{
  connected, subscribed, connected-connect, connected-disconnect, subscribed-connect,
  subscribed-disconnect, subscribed-subscribe, subscribed-unsubscribe,
}

-- the calls that the handlers make
pub data Call : Type 0 where
  opens closes : WebSocket → String → Call
  enters leaves : String → Uuid → Call

unfoldable pub run : List Call → ConnectionManager → ConnectionManager
run [] m = m
run (opens ws key ∷ calls) m = run calls (connect ws key m)
run (closes ws key ∷ calls) m = run calls (disconnect ws key m)
run (enters key c ∷ calls) m = run calls (subscribe key c m)
run (leaves key c ∷ calls) m = run calls (unsubscribe key c m)

-- Whether the socket is connected under the key after the calls, from whether it was before.
unfoldable pub connected_after : String → WebSocket → List Call → Bool → Bool
connected_after k x [] b = b
connected_after k x (opens ws key ∷ calls) b =
    connected_after k x calls ((str_eq key k && ws == x) || b)
connected_after k x (closes ws key ∷ calls) b =
    connected_after k x calls (b && not (str_eq key k && ws == x))
connected_after k x (enters key c ∷ calls) b = connected_after k x calls b
connected_after k x (leaves key c ∷ calls) b = connected_after k x calls b

-- Whether the key is subscribed to the conversation after the calls, from whether it was before.
unfoldable pub subscribed_after : Uuid → String → List Call → Bool → Bool
subscribed_after d k [] b = b
subscribed_after d k (opens ws key ∷ calls) b = subscribed_after d k calls b
subscribed_after d k (closes ws key ∷ calls) b =
    subscribed_after d k calls (b && not (str_eq key k))
subscribed_after d k (enters key c ∷ calls) b =
    subscribed_after d k calls ((c == d && str_eq key k) || b)
subscribed_after d k (leaves key c ∷ calls) b =
    subscribed_after d k calls (b && not (c == d && str_eq key k))

connected-run :
    (calls : List Call) (m : ConnectionManager) (k : String) (x : WebSocket)
    → connected (run calls m) k x ≡ connected_after k x calls (connected m k x)
unfolding run connected_after subscribe unsubscribe
connected-run [] m k x = refl
connected-run (opens ws key ∷ calls) m k x =
    connected-run calls (connect ws key m) k x
    ∙ ap (connected_after k x calls) (connected-connect m ws key k x)
connected-run (closes ws key ∷ calls) m k x =
    connected-run calls (disconnect ws key m) k x
    ∙ ap (connected_after k x calls) (connected-disconnect m ws key k x)
connected-run (enters key c ∷ calls) m k x = connected-run calls (subscribe key c m) k x
connected-run (leaves key c ∷ calls) m k x = connected-run calls (unsubscribe key c m) k x

subscribed-run :
    (calls : List Call) (m : ConnectionManager) (d : Uuid) (k : String)
    → subscribed (run calls m) d k ≡ subscribed_after d k calls (subscribed m d k)
unfolding run subscribed_after
subscribed-run [] m d k = refl
subscribed-run (opens ws key ∷ calls) m d k =
    subscribed-run calls (connect ws key m) d k
    ∙ ap (subscribed_after d k calls) (subscribed-connect m ws key d k)
subscribed-run (closes ws key ∷ calls) m d k =
    subscribed-run calls (disconnect ws key m) d k
    ∙ ap (subscribed_after d k calls) (subscribed-disconnect m ws key d k)
subscribed-run (enters key c ∷ calls) m d k =
    subscribed-run calls (subscribe key c m) d k
    ∙ ap (subscribed_after d k calls) (subscribed-subscribe m key c d k)
subscribed-run (leaves key c ∷ calls) m d k =
    subscribed-run calls (unsubscribe key c m) d k
    ∙ ap (subscribed_after d k calls) (subscribed-unsubscribe m key c d k)

-- After any sequence of calls of connect, disconnect, subscribe and unsubscribe, the manager's
-- dictionaries hold exactly the two relations of the specification: a socket is connected under a
-- key since its last connect without a disconnect of the two, and a key is subscribed to a
-- conversation since its last subscribe without an unsubscribe and without a disconnect of any
-- socket of the key.
pub run_refines :
    (calls : List Call) (m : ConnectionManager)
    → ((k : String) (x : WebSocket)
        → connected (run calls m) k x ≡ connected_after k x calls (connected m k x))
      × ((d : Uuid) (k : String)
          → subscribed (run calls m) d k ≡ subscribed_after d k calls (subscribed m d k))
run_refines calls m = (connected-run calls m, subscribed-run calls m)
