-- ===== src/Tests/Sockets.antt =====
-- The connection manager on two sockets of one principal.
use leaf_flow_chat.Prelude.{
  ℕ, String, ◌≡◌, refl, Bool, true, false, not, ◌&&◌, ◌||◌, [], ◌∷◌, arith, any, ◌==◌, str_eq,
}
use leaf_flow_chat.Prelude.Dict.{get, put, add, nat_eq, string_eq}
use leaf_flow_chat.Domain.{Uuid}
use leaf_flow_chat.Ws.Manager.{
  WebSocket, ConnectionManager, init, connect, disconnect, subscribe, broadcast_to_conversation,
}
use leaf_flow_chat.Ws.Registry.{connected, subscribed, disconnect_unsubscribes}
use leaf_flow_chat.Ws.Refinement.{
  opens, closes, enters, run, connected_after, subscribed_after, run_refines,
}
use leaf_flow_chat.Ws.Broadcast.{broadcast_reaches}

abbrev two_sockets : ConnectionManager
two_sockets = record {
  connections = ("user:42", 1 ∷ 2 ∷ []) ∷ [];
  subscriptions = (10, "user:42" ∷ []) ∷ [];
}

abbrev dead : WebSocket → Bool
dead ws = ws == 2

opened_twice : subscribe "user:42" 10 (connect 2 "user:42" (connect 1 "user:42" init)) ≡ two_sockets
unfolding connect subscribe put add get
opened_twice = refl

disconnect_unsubscribes_example :
    (connected (disconnect 2 "user:42" two_sockets) "user:42" 1 ≡ true)
    × ((c : Uuid) → subscribed (disconnect 2 "user:42" two_sockets) c "user:42" ≡ false)
unfolding get
disconnect_unsubscribes_example =
    disconnect_unsubscribes two_sockets 2 1 "user:42" refl (omega arith)

broadcast_reaches_example :
    any (λ a. a.0 == 1) (broadcast_to_conversation {D = ℕ} dead 10 "chat.typing" 5 two_sockets).0
    ≡ true
unfolding get
broadcast_reaches_example = broadcast_reaches dead 10 "chat.typing" 5 two_sockets 1

run_refines_example :
    ((k : String) (x : WebSocket)
      → connected (run (opens 1 "user:42" ∷ enters "user:42" 10 ∷ closes 1 "user:42" ∷ []) init) k x
        ≡ (((str_eq "user:42" k && 1 == x) || false) && not (str_eq "user:42" k && 1 == x)))
    × ((d : Uuid) (k : String)
        → subscribed
            (run (opens 1 "user:42" ∷ enters "user:42" 10 ∷ closes 1 "user:42" ∷ []) init)
            d
            k
          ≡ (((10 == d && str_eq "user:42" k) || false) && not (str_eq "user:42" k)))
unfolding connected_after subscribed_after get
run_refines_example =
    run_refines (opens 1 "user:42" ∷ enters "user:42" 10 ∷ closes 1 "user:42" ∷ []) init
