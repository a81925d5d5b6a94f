-- ===== src/Bus/Listener.antt =====
-- The listener against bad events: what it hears never costs a working socket its connection.
use leaf_flow_chat.Prelude.{
  String, ◌≡◌, Bool, true, false, Option, List, [], ◌∷◌, arith, All, ◌∙◌, ap,
}
use leaf_flow_chat.Domain.{Uuid}
use leaf_flow_chat.Bus.Serializer.{Json}
use leaf_flow_chat.Bus.Heard.{hear_ind}
use leaf_flow_chat.Bus.PubSub.{Notice, hear, listen}
use leaf_flow_chat.Ws.Broadcast.{broadcast_drops_dead}
use leaf_flow_chat.Ws.Manager.{WebSocket, ConnectionManager}
use leaf_flow_chat.Ws.Refinement.{Call, run, connected_after, run_refines}
use leaf_flow_chat.Ws.Registry.{connected}
use leaf_flow_chat.Prelude.Dict.{string_eq}

module _ (parse_uuid : String → Option Uuid) (uuid_text : Uuid → String) (fails : WebSocket → Bool)
    (k : String) (x : WebSocket) (works : fails x ≡ false) where
  module _ ⦃json : Json⦄ where
    hear-connected :
        (n : Notice json.Raw) (m : ConnectionManager)
        → connected m k x ≡ true
        → connected (hear parse_uuid uuid_text fails n m).1 k x ≡ true
    hear-connected n m h =
        hear_ind parse_uuid uuid_text fails (λ m'. connected m' k x ≡ true) m h
          (λ c event_type payload.
            broadcast_drops_dead fails c event_type payload m k x ∙ ground arith)
          n

    -- A socket that accepts what is sent to it and is connected stays connected, whatever the listener hears, readable or not, as
    -- long as no call of another task closes it.
    pub listen_keeps :
        (rounds : List (List Call × Notice json.Raw)) (m : ConnectionManager)
        → connected m k x ≡ true
        → All (λ r. connected_after k x r.0 true ≡ true) rounds
        → connected (listen parse_uuid uuid_text fails rounds m).1 k x ≡ true
    unfolding listen
    listen_keeps [] m h held = h
    listen_keeps ((calls, n) ∷ rest) m h held =
        listen_keeps rest (hear parse_uuid uuid_text fails n (run calls m)).1
          (hear-connected n (run calls m)
            ((run_refines calls m).0 k x ∙ ap (connected_after k x calls) h ∙ held.0))
          held.1
