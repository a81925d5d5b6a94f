-- ===== src/Bus/Heard.antt =====
-- The manager after what the listener heard: as it was, or after a broadcast.
use leaf_flow_chat.Prelude.{String, Bool, Option, none, some, inl, inr, Bool-cases}
use leaf_flow_chat.Prelude.Dict.{get, string_eq}
use leaf_flow_chat.Domain.{Uuid, Value, Payload, null, str, int, id}
use leaf_flow_chat.Errors.{Result}
use leaf_flow_chat.Bus.Serializer.{Json, Member, scalar, object, deserialize_event}
use leaf_flow_chat.Bus.PubSub.{
  Notice, Relayed, confirmation, message, is_falsy, text_of, broadcast, if_uuid, with_uuid, on_id,
  or_logged, dispatch, on_pubsub_event, hear,
}
use leaf_flow_chat.Ws.Manager.{WebSocket, ConnectionManager, broadcast_to_conversation}

module _ (parse_uuid : String → Option Uuid) (uuid_text : Uuid → String) (fails : WebSocket → Bool)
    (Q : ConnectionManager → Type 0) (m : ConnectionManager) (unchanged : Q m)
    (broadcasts : (c : Uuid) (event_type : String) (payload : Payload)
      → Q (broadcast_to_conversation fails c event_type payload m).1) where
  -- what was done, or was logged as an exception
  abbrev Leaves : Result Relayed → Type 0
  Leaves r = Q (or_logged parse_uuid uuid_text fails m r).1

  broadcast-Leaves :
      (event_type : Option String) (payload : Payload) (c : Uuid)
      → Leaves (broadcast parse_uuid uuid_text fails event_type payload m c)
  broadcast-Leaves none payload c = unchanged
  broadcast-Leaves (some event_type) payload c = broadcasts c event_type payload

  if_uuid-Leaves :
      (o : Option Uuid) (f : Uuid → Result Relayed)
      → ((c : Uuid) → Leaves (f c))
      → Leaves (if_uuid parse_uuid uuid_text fails o m f)
  if_uuid-Leaves none f h = unchanged
  if_uuid-Leaves (some c) f h = h c

  with_uuid-Leaves :
      (v : Value) (f : Uuid → Result Relayed)
      → ((c : Uuid) → Leaves (f c))
      → Leaves (with_uuid parse_uuid uuid_text fails v m f)
  with_uuid-Leaves null f h = unchanged
  with_uuid-Leaves (int n) f h = unchanged
  with_uuid-Leaves (id u) f h = h u
  with_uuid-Leaves (str t) f h = if_uuid-Leaves (parse_uuid t) f h

  on_id-Leaves :
      (o : Option Value) (f : Uuid → Result Relayed)
      → ((c : Uuid) → Leaves (f c))
      → Leaves (on_id parse_uuid uuid_text fails o m f)
  on_id-Leaves none f h = unchanged
  on_id-Leaves (some v) f h = elim (Bool-cases (is_falsy v)) [
    | inl e ↦ rw e unchanged
    | inr e ↦ rw e (with_uuid-Leaves v f h)
  ]

  on_pubsub_event-Leaves :
      (event_type payload : Member)
      → Leaves (on_pubsub_event parse_uuid uuid_text fails event_type payload m)
  unfolding on_pubsub_event
  on_pubsub_event-Leaves event_type (scalar v) = unchanged
  on_pubsub_event-Leaves event_type (object payload) =
      let text = text_of parse_uuid uuid_text fails event_type in
      on_id-Leaves (get "conversation_id" payload)
        (broadcast parse_uuid uuid_text fails text payload m) (broadcast-Leaves text payload)

  module _ ⦃json : Json⦄ where
    dispatch-Leaves : (o : Option (Member × Member)) → Q (dispatch parse_uuid uuid_text fails o m).1
    dispatch-Leaves none = unchanged
    dispatch-Leaves (some (event_type, payload)) = on_pubsub_event-Leaves event_type payload

    pub hear_ind : (n : Notice json.Raw) → Q (hear parse_uuid uuid_text fails n m).1
    unfolding hear
    hear_ind confirmation = unchanged
    hear_ind (message raw) = dispatch-Leaves (deserialize_event raw)
