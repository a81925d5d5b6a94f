-- ===== src/Bus/PubSub.antt =====
-- The listening side of infrastructure/bus/redis_pubsub.py, and `_on_pubsub_event` of app.py.
-- `parse_uuid` is `UUID(…)` of a text, `uuid_text` is `str(…)` of a UUID, and `fails` says whether
-- sending to a socket raises.
use leaf_flow_chat.Prelude.{
  String, Bool, true, false, Option, none, some, List, [], ◌∷◌, ◌++◌, str_eq, ◌==◌, if◌then◌else◌,
}
use leaf_flow_chat.Prelude.Dict.{get, string_eq}
use leaf_flow_chat.Domain.{Uuid, Value, Payload, null, str, int, id}
use leaf_flow_chat.Errors.{Result, ok, err, value_error, attribute_error}
use leaf_flow_chat.Bus.Serializer.{Json, Member, scalar, object, serialize_event, deserialize_event}
use leaf_flow_chat.Workers.OutboxWorker.{Envelope}
use leaf_flow_chat.Ws.Manager.{WebSocket, WsOutbound, ConnectionManager, broadcast_to_conversation}
use leaf_flow_chat.Ws.Refinement.{Call, run}

-- What `pubsub.listen()` yields: a confirmation of the subscription, or the text of a message.
pub data Notice (Raw : Type 0) : Type 0 where
  confirmation : Notice Raw
  message : Raw → Notice Raw

-- What was sent to sockets, and the manager afterwards.
abbrev pub Relayed : Type 0
Relayed = List (WebSocket × WsOutbound Payload) × ConnectionManager

-- the text that `redis.publish` is given
unfoldable pub raw_of : ⦃json : Json⦄ → Envelope → json.Raw
raw_of e = serialize_event e.event e.payload

-- `not value` of a JSON value
abbrev pub is_falsy : Value → Bool
is_falsy null = true
is_falsy (str t) = str_eq t ""
is_falsy (int n) = n == 0
is_falsy (id u) = false

module _ (parse_uuid : String → Option Uuid) (uuid_text : Uuid → String)
    (fails : WebSocket → Bool) where
  -- the field `type: str` of WsOutbound
  abbrev pub text_of : Member → Option String
  text_of (scalar (str t)) = some t
  text_of (scalar (id u)) = some (uuid_text u)
  text_of (scalar null) = none
  text_of (scalar (int n)) = none
  text_of (object payload) = none

  -- `manager.broadcast_to_conversation(…)`, which raises where the event type is no text
  abbrev pub broadcast : Option String → Payload → ConnectionManager → Uuid → Result Relayed
  broadcast none payload m c = err value_error
  broadcast (some event_type) payload m c =
      ok (broadcast_to_conversation fails c event_type payload m)

  -- a ValueError of `UUID(…)` is a return
  abbrev pub if_uuid : Option Uuid → ConnectionManager → (Uuid → Result Relayed) → Result Relayed
  if_uuid none m f = ok ([], m)
  if_uuid (some c) m f = f c

  -- `UUID(conversation_id_raw)`, and what follows
  abbrev pub with_uuid : Value → ConnectionManager → (Uuid → Result Relayed) → Result Relayed
  with_uuid (str t) m f = if_uuid (parse_uuid t) m f
  with_uuid (id u) m f = f u
  with_uuid (int n) m f = err attribute_error
  with_uuid null m f = err attribute_error

  -- the rest of `_on_pubsub_event`, after `data.get("conversation_id")`
  abbrev pub on_id : Option Value → ConnectionManager → (Uuid → Result Relayed) → Result Relayed
  on_id none m f = ok ([], m)
  on_id (some v) m f = if is_falsy v then ok ([], m) else with_uuid v m f

  unfoldable pub on_pubsub_event : Member → Member → ConnectionManager → Result Relayed
  on_pubsub_event event_type (scalar v) m = err attribute_error
  on_pubsub_event event_type (object payload) m =
      on_id (get "conversation_id" payload) m (broadcast (text_of event_type) payload m)

  -- `except Exception`
  abbrev pub or_logged : ConnectionManager → Result Relayed → Relayed
  or_logged m (ok r) = r
  or_logged m (err e) = ([], m)

  module _ ⦃json : Json⦄ where
    abbrev pub dispatch : Option (Member × Member) → ConnectionManager → Relayed
    dispatch none m = ([], m)
    dispatch (some (event_type, payload)) m = or_logged m (on_pubsub_event event_type payload m)

    -- one round of the loop of `_listen`
    unfoldable pub hear : Notice json.Raw → ConnectionManager → Relayed
    hear confirmation m = ([], m)
    hear (message raw) m = dispatch (deserialize_event raw) m

    -- the loop, with the calls that other tasks make before each round
    unfoldable pub listen : List (List Call × Notice json.Raw) → ConnectionManager → Relayed
    listen [] m = ([], m)
    listen ((calls, notice) ∷ rest) m =
        let (sent, m') = hear notice (run calls m) in
        let (more, m'') = listen rest m' in (sent ++ more, m'')
