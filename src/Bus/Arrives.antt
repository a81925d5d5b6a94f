-- ===== src/Bus/Arrives.antt =====
-- A published event at the sockets of a process.
use leaf_flow_chat.Prelude.{
  String, ◌≡◌, refl, Bool, not, ◌&&◌, Option, none, some, [], ◌∷◌, ◌==◌, any, arith, All,
}
use leaf_flow_chat.Prelude.Dict.{IsDict, get, put, string_eq, nat_eq}
use leaf_flow_chat.Domain.{Uuid, Value, Payload, Message, id, str}
use leaf_flow_chat.Settings.{Settings}
use leaf_flow_chat.Db.Outbox.{OutboxRecord}
use leaf_flow_chat.Services.MessageService.{message_created}
use leaf_flow_chat.Bus.Serializer.{Json, deserialize_event-serialize_event}
use leaf_flow_chat.Bus.PubSub.{message, raw_of, on_pubsub_event, hear}
use leaf_flow_chat.Bus.Merge.{IsDict-merge, get-merge}
use leaf_flow_chat.Workers.OutboxWorker.{or_unknown, merge, envelope}
use leaf_flow_chat.Ws.Broadcast.{broadcast_reaches, broadcast-All}
use leaf_flow_chat.Ws.Manager.{WebSocket, ConnectionManager, broadcast_to_conversation, or_empty}
use leaf_flow_chat.Ws.Registry.{connected}

message_created-IsDict : (msg : Message) → IsDict (message_created msg)
unfolding get
message_created-IsDict msg = ground arith

module _ (parse_uuid : String → Option Uuid) (uuid_text : Uuid → String) (fails : WebSocket → Bool)
    ⦃json : Json⦄ (settings : Settings) where
  -- What the worker publishes for a record that names a conversation is broadcast, under the
  -- record's event type, to the sockets of this conversation.
  pub hear-envelope :
      (r : OutboxRecord) (c : Uuid) (m : ConnectionManager)
      → IsDict r.payload
      → get "event_type" r.payload ≡ none
      → get "conversation_id" r.payload ≡ some (id c)
      → hear parse_uuid uuid_text fails (message (raw_of (envelope settings r))) m
        ≡ broadcast_to_conversation fails c r.event_type
            (merge (("event_type", str r.event_type) ∷ []) r.payload)
            m
  unfolding hear raw_of envelope on_pubsub_event get
  hear-envelope r c m h plain names =
      let kind : Payload = ("event_type", str r.event_type) ∷ [] in
      rw
        (deserialize_event-serialize_event (or_unknown (get "event_type" (merge kind r.payload)))
          (merge kind r.payload) (IsDict-merge kind r.payload (refl {A = Option Value}, tt)))
        (rw (get-merge "conversation_id" kind r.payload h)
          (rw (get-merge "event_type" kind r.payload h) (rw names (rw plain refl))))

  -- What the worker publishes for the event of a new message arrives at a socket of another process
  -- exactly when the socket's sending works and it is connected there under some key that is
  -- subscribed to the message's conversation; and whatever arrives has the record's event type, and
  -- the message's fields beside it as its data.
  pub message_arrives :
      (r : OutboxRecord) (msg : Message) (m : ConnectionManager)
      → let event = record r { payload = message_created msg } in
        let sent =
          (hear parse_uuid uuid_text fails (message (raw_of (envelope settings event))) m).0 in
        ((x : WebSocket)
          → any (λ a. a.0 == x) sent ≡ (
              any (λ k. connected m k x) (or_empty (get msg.conversation_id m.subscriptions))
              && not (fails x)))
        × All
            (λ a. a.1 ≡ record {
              type = r.event_type;
              payload = ("event_type", str r.event_type) ∷ message_created msg;
            })
            sent
  unfolding merge put get
  message_arrives r msg m =
      let whole : Payload = ("event_type", str r.event_type) ∷ message_created msg in
      rw
        (hear-envelope (record r { payload = message_created msg }) msg.conversation_id m
          (message_created-IsDict msg) refl refl)
        (
          broadcast_reaches fails msg.conversation_id r.event_type whole m,
          broadcast-All fails msg.conversation_id r.event_type whole m,
        )
