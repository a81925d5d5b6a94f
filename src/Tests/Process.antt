-- ===== src/Tests/Process.antt =====
-- Two sockets of one admin in a process, with a subscription and an event between.
use leaf_flow_chat.Prelude.{
  String, ◌≡◌, refl, Bool, true, false, Option, none, some, List, [], ◌∷◌, str_eq, if◌then◌else◌,
}
use leaf_flow_chat.Prelude.Dict.{get, nat_eq, string_eq}
use leaf_flow_chat.Domain.{Uuid, str}
use leaf_flow_chat.Settings.{defaults}
use leaf_flow_chat.Sql.Rows.{rows}
use leaf_flow_chat.Auth.{get_verifier, claims_of, verify}
use leaf_flow_chat.Auth.Entrance.{authenticate}
use leaf_flow_chat.Db.Valid.{IsValid}
use leaf_flow_chat.Bus.Serializer.{Object, scalar, object}
use leaf_flow_chat.Bus.PubSub.{Notice, confirmation, message, listen}
use leaf_flow_chat.Ws.Manager.{WebSocket, init}
use leaf_flow_chat.Ws.Registry.{connected, subscribed}
use leaf_flow_chat.Ws.Endpoint.{inbound, json_text, on_message, handle_subscribe, subscribe_parsed}
use leaf_flow_chat.Process.{
  Process, open_socket, close_socket, Reach, here, next, opens, handles, closes,
}
use leaf_flow_chat.Process.Belongs.{is_live, is_present}
use leaf_flow_chat.Process.Tidy.{process_holds_live}
use leaf_flow_chat.Process.Lifespan.{App, raised, lifespan}
use leaf_flow_chat.Process.Lifespan.Ends.{before_loss, calls_after_loss, lifespan_forwards}
use leaf_flow_chat.Ws.Refinement.{Call, run}
use leaf_flow_chat.Tests.Data.{db-IsValid}
use leaf_flow_chat.Tests.Journey.{as_is, some_text}
use leaf_flow_chat.Tests.Tokens.{one_token, parse_int, boss, hub}

abbrev nine : String → Option Uuid
nine t = if str_eq t "9" then some 9 else none

abbrev all_work : WebSocket → Bool
all_work ws = false

abbrev fresh : Process
fresh = record { hub = hub; live = [] }

accepted : authenticate parse_int defaults "token" ≡ some boss
unfolding authenticate get_verifier verify claims_of
accepted = refl

abbrev both : Process
both = record {
  hub = open_socket 2 boss (open_socket 1 boss hub);
  live = (2, boss) ∷ (1, boss) ∷ [];
}

abbrev subscribed_to : Process
subscribed_to = record both {
  hub =
      (on_message nine all_work 1 boss
        (inbound "subscribe" (("conversation_id", json_text "9") ∷ [])) both.hub).hub;
}

abbrev one_left : Process
one_left = record { hub = close_socket 2 boss subscribed_to.hub; live = (1, boss) ∷ [] }

one_left-Reach : Reach defaults parse_int nine some_text all_work fresh one_left
unfolding on_message handle_subscribe subscribe_parsed get
one_left-Reach =
    next
      (next (next (next here (opens 1 "token" boss accepted)) (opens 2 "token" boss accepted)) (
        handles 1 boss (inbound "subscribe" (("conversation_id", json_text "9") ∷ []))
          ((2, boss) ∷ []) [] refl refl))
      (closes 2 boss [] ((1, boss) ∷ []) refl)

process_holds_live_example :
    IsValid one_left.hub.session.committed
    × ((k : String) (x : WebSocket)
        → connected one_left.hub.manager k x ≡ true
        → is_live one_left.live k x ≡ true)
    × ((c : Uuid) (k : String)
        → subscribed one_left.hub.manager c k ≡ true
        → is_present one_left.live k ≡ true)
process_holds_live_example =
    process_holds_live defaults parse_int nine some_text all_work fresh one_left refl db-IsValid
      one_left-Reach

abbrev stopped : App
stopped = record { redis_open = false; task = none; subscribed = false; manager = init; sent = [] }

abbrev no_event : Object
no_event = ("event_type", scalar (str "chat.event")) ∷ ("data", object []) ∷ []

-- a confirmation, an event without an id, and an exception of the connection
abbrev three_turns : List (List Call × Option (Notice Object))
three_turns = ([], some confirmation) ∷ ([], some (message no_event)) ∷ ([], none) ∷ []

lifespan_forwards_example :
    let (exit, end) = lifespan nine some_text all_work false three_turns stopped in
    let heard = listen nine some_text all_work (before_loss three_turns) stopped.manager in
    (end.sent ≡ heard.0)
    × (end.manager ≡ run (calls_after_loss three_turns) heard.1)
    × (end.subscribed ≡ false)
    × (exit ≡ raised)
    × (end.redis_open ≡ true)
lifespan_forwards_example = lifespan_forwards nine some_text all_work three_turns stopped
