-- ===== src/Tests/Interleaved.antt =====
-- Broadcasts with other tasks between their sends.
use leaf_flow_chat.Prelude.{◌≡◌, refl, Bool, false, List, [], ◌∷◌, get_elem?, ◌==◌}
use leaf_flow_chat.Prelude.Dict.{get, put, add, nat_eq, string_eq}
use leaf_flow_chat.Ws.Manager.{
  WebSocket, WsOutbound, ConnectionManager, sockets_of, targets, send_all,
  broadcast_to_conversation, connect, subscribe,
}
use leaf_flow_chat.Ws.Refinement.{Call, opens, enters, run}
use leaf_flow_chat.Ws.SetLoop.{SetIterator, returned, runtime_error}
use leaf_flow_chat.Ws.Interleaved.{broadcast, begin}
use leaf_flow_chat.Ws.Interleaved.Walk.{during}
use leaf_flow_chat.Ws.Interleaved.Undisturbed.{broadcast_undisturbed}
use leaf_flow_chat.Ws.Interleaved.Disturbed.{broadcast_disturbed}

-- goes on at the same place in the changed set
abbrev by_place : {A : Type 0} → SetIterator A
by_place = record { item = λ xs now n. get_elem? now n; item-unchanged = λ xs n. refl }

-- a customer with two sockets and an admin with one, in conversation 9
abbrev room : ConnectionManager
room = record {
  connections = ("user:7", 1 ∷ 2 ∷ []) ∷ ("admin:1", 3 ∷ []) ∷ [];
  subscriptions = (9, "user:7" ∷ "admin:1" ∷ []) ∷ [];
}

-- the customer's second socket is gone
abbrev gone : WebSocket → Bool
gone ws = ws == 2

abbrev note : WsOutbound Bool
note = record { type = "note"; payload = false }

-- another customer comes and enters another conversation
abbrev elsewhere : List (List Call)
elsewhere = (opens 4 "user:8" ∷ []) ∷ (enters "user:8" 5 ∷ []) ∷ []

broadcast_undisturbed_example :
    let (ending, end) = broadcast gone note by_place by_place 9 (begin room elsewhere) in
    let calls = during 3 elsewhere in
    let (arrived, manager) = broadcast_to_conversation gone 9 "note" false (run calls room) in
    (ending ≡ returned) × (end.arrived ≡ arrived) × (end.manager ≡ manager)
unfolding get targets
broadcast_undisturbed_example =
    broadcast_undisturbed gone by_place by_place 9 "note" false room elsewhere
      ((refl, tt), ((refl, tt), tt))

-- the other customer enters this conversation
abbrev entering : List (List Call)
entering = (opens 4 "user:8" ∷ enters "user:8" 9 ∷ []) ∷ []

broadcast_disturbed_example :
    let (ending, end) = broadcast gone note by_place by_place 9 (begin room entering) in
    let first = sockets_of "user:7" (1 ∷ 2 ∷ []) in
    (ending ≡ runtime_error)
    × (end.arrived ≡ (send_all gone note first).0)
    × (end.manager ≡ run (during 2 entering) room)
unfolding get run subscribe put connect add
broadcast_disturbed_example =
    broadcast_disturbed gone note by_place by_place 9 room "user:7" ("admin:1" ∷ []) entering refl
      ((refl, (tt, tt)), tt) refl
