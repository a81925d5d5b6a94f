-- ===== src/Bus/EndToEnd.antt =====
-- The way of a message: `send_message`, the outbox, the worker, Redis, and the sockets of a process.
use leaf_flow_chat.Prelude.{
  String, ◌≡◌, ◌≤◌, ◌<◌, ap, ◌∙◌, Bool, true, false, not, ◌&&◌, Option, some, List, ◌∷◌, Mem, arith,
  any, All, count_p, ◌==◌,
}
use leaf_flow_chat.Prelude.Dict.{get, nat_eq}
use leaf_flow_chat.Domain.{Uuid, Message, MessageType, str}
use leaf_flow_chat.Errors.{ok}
use leaf_flow_chat.Principal.{Principal}
use leaf_flow_chat.Permissions.Access.{may_access}
use leaf_flow_chat.Settings.{Settings}
use leaf_flow_chat.Sql.{Sql, unordered}
use leaf_flow_chat.Sql.Laws.{fetch, fetch_unique, same, same_refl}
use leaf_flow_chat.Db.Models.{
  Db, ConversationModel, OutboxMessageModel, OutboxMessageModel-discrete,
}
use leaf_flow_chat.Db.Mappers.ConversationMapper
use leaf_flow_chat.Db.Mappers.MessageMapper
use leaf_flow_chat.Db.Constraints.{is_conversation, exists_row, message_refused}
use leaf_flow_chat.Db.Outbox.{OutboxRecord, to_record, is_fetchable}
use leaf_flow_chat.Db.Session.{Session}
use leaf_flow_chat.Db.Valid.{IsValid}
use leaf_flow_chat.Services.MessageService.{send_message, message_created}
use leaf_flow_chat.Services.MessageService.Branches.{message as new, key, message_event}
use leaf_flow_chat.Services.MessageService.Delivery.{send_message_delivers}
use leaf_flow_chat.Bus.Serializer.{Json}
use leaf_flow_chat.Bus.PubSub.{message, raw_of, hear}
use leaf_flow_chat.Bus.Arrives.{message_arrives}
use leaf_flow_chat.Workers.OutboxWorker.{Envelope, envelope, process_batch}
use leaf_flow_chat.Workers.OutboxWorker.Loop.{is_row}
use leaf_flow_chat.Workers.OutboxWorker.Publishes.{due_row_published}
use leaf_flow_chat.Ws.Manager.{WebSocket, ConnectionManager, or_empty}
use leaf_flow_chat.Ws.Registry.{connected}

module _ ⦃sql : Sql⦄ where
  -- A row that was added under an unused id is the one row with this id.
  fetch-added :
      (y : OutboxMessageModel) (old new : List OutboxMessageModel)
      → ((p : OutboxMessageModel → Bool) → count_p p new ≡ count_p p (y ∷ old))
      → count_p (is_row y.id) old ≡ 0
      → (count_p (is_row y.id) new ≤ 1) × (fetch (is_row y.id) unordered new ≡ some y)
  fetch-added y old new added unused =
      let once : count_p (is_row y.id) new ≤ 1 = ground (arith, added (is_row y.id)) in
      (
        once,
        fetch_unique OutboxMessageModel-discrete (is_row y.id) unordered new y once (
            ground (
              arith,
              added (λ r. is_row y.id r && same OutboxMessageModel-discrete y r),
              same_refl OutboxMessageModel-discrete y,
            )),
      )

  module _ ⦃json : Json⦄ (parse_uuid : String → Option Uuid) (uuid_text : Uuid → String)
      (dead : WebSocket → Bool) (settings : Settings) (fails : OutboxRecord → Bool) (c : Uuid)
      (principal : Principal) (m : Uuid) (t : MessageType) (body : Option String)
      (s w : Session) where
    -- A message is sent as `send_message_delivers` asks, with an unused outbox id; the next run of
    -- the worker has attempts to spend, has room for all rows that are due, finds the new row not locked, and Redis
    -- takes its event. Then the run publishes an event which, in whichever process it is heard,
    -- reaches exactly the sockets that accept it and are connected under a key that is subscribed to the
    -- conversation, as chat.message_created with the message's fields.
    pub end_to_end :
        (x : ConversationModel)
        → IsValid s.working
        → fetch (is_conversation c) unordered s.working.conversations ≡ some x
        → may_access s.working principal (ConversationMapper.model_to_entity x) ≡ true
        → exists_row (key c principal m t body s) s.working.messages ≡ false
        → message_refused s.working (MessageMapper.entity_to_model (new c principal m t body s))
          ≡ false
        → count_p (is_row s.outbox_seq) s.working.outbox ≡ 0
        → w.working ≡ (send_message c principal m t body s).1.committed
        → w.committed ≡ w.working
        → w.locked s.outbox_seq ≡ false
        → count_p (is_fetchable w.locked (w.clock w.ticks)) w.working.outbox
          ≤ settings.outbox_batch_size
        → 0 < settings.outbox_max_attempts
        → fails (to_record (message_event s (new c principal m t body s))) ≡ false
        → let msg = new c principal m t body s in
          (out : List Envelope) × (e : Envelope) × ((process_batch settings fails w).0 ≡ ok out)
          × Mem e out
          × ((hub : ConnectionManager)
              → let sent = (hear parse_uuid uuid_text dead (message (raw_of e)) hub).0 in
                ((ws : WebSocket)
                  → any (λ a. a.0 == ws) sent ≡ (
                      any (λ k. connected hub k ws) (or_empty (get c hub.subscriptions))
                      && not (dead ws)))
                × All
                    (λ a. a.1 ≡ record {
                      type = "chat.message_created";
                      payload = ("event_type", str "chat.message_created") ∷ message_created msg;
                    })
                    sent)
    end_to_end x v found allowed fresh accepted unused next begun free fits spare works =
        let msg : Message = new c principal m t body s in
        let y : OutboxMessageModel = message_event s msg in
        let delivered =
          send_message_delivers c principal m t body s x v found allowed fresh accepted in
        let (once, row) =
          fetch-added y s.working.outbox w.working.outbox
            (λ p. ap (λ (d : Db). count_p p d.outbox) next ∙ delivered.5 p) unused in
        let (out, returned, has, settled) =
          due_row_published settings fails w y begun once row (ground (arith, free)) fits
            (ground (arith, spare)) works in
        (
          out,
          envelope settings (to_record y),
          returned,
          has,
          message_arrives parse_uuid uuid_text dead settings (to_record y) msg,
        )
