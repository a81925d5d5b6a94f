-- ===== src/Tests/Journey.antt =====
-- Events on their way from the outbox to the sockets.
use leaf_flow_chat.Prelude.{
  ◌≡◌, ◌≤◌, refl, count_p, Bool, true, false, not, ◌&&◌, Option, none, some, List, [], ◌∷◌, Mem,
  arith, any, All, ◌==◌, String,
}
use leaf_flow_chat.Prelude.Dict.{get, string_eq, nat_eq}
use leaf_flow_chat.Domain.{Uuid, Message, text, str, int}
use leaf_flow_chat.Errors.{ok}
use leaf_flow_chat.Principal.{is_admin}
use leaf_flow_chat.Settings.{defaults}
use leaf_flow_chat.Sql.Rows.{rows, select_rows}
use leaf_flow_chat.Db.Constraints.{message_refused}
use leaf_flow_chat.Db.Outbox.{OutboxRecord, is_fetchable}
use leaf_flow_chat.Db.Session.{Session}
use leaf_flow_chat.Services.MessageService.{send_message, message_created}
use leaf_flow_chat.Services.MessageService.Branches.{message as new}
use leaf_flow_chat.Services.MessageService.Delivery.{send_message_delivers}
use leaf_flow_chat.Bus.Serializer.{Json, Object, scalar}
use leaf_flow_chat.Bus.PubSub.{confirmation, message, raw_of, hear, listen}
use leaf_flow_chat.Bus.Listener.{listen_keeps}
use leaf_flow_chat.Bus.EndToEnd.{end_to_end}
use leaf_flow_chat.Workers.OutboxWorker.{Envelope, process_batch}
use leaf_flow_chat.Ws.Manager.{WebSocket, ConnectionManager, or_empty}
use leaf_flow_chat.Ws.Refinement.{enters, connected_after}
use leaf_flow_chat.Ws.Registry.{connected}
use leaf_flow_chat.Tests.Data.{conversation, session, customer, db-IsValid}

-- Objects that go through Redis as they are.
instance abbrev pub as_is : Json
as_is = record { Raw = Object; dumps = λ o. o; loads = λ o. some o; loads-dumps = λ o h. refl }

abbrev no_uuid : String → Option Uuid
no_uuid t = none

abbrev pub some_text : Uuid → String
some_text u = "id"

abbrev never_fails : WebSocket → Bool
never_fails ws = false

abbrev accepted : OutboxRecord → Bool
accepted r = false

abbrev one_socket : ConnectionManager
one_socket = record { connections = ("user:42", 1 ∷ []) ∷ []; subscriptions = [] }

listen_keeps_example :
    connected
      (listen no_uuid some_text never_fails
        ((enters "user:42" 10 ∷ [], message (("event", scalar (int 5)) ∷ []))
          ∷ ([], confirmation)
          ∷ [])
        one_socket).1
      "user:42"
      1
    ≡ true
unfolding get connected_after
listen_keeps_example =
    listen_keeps no_uuid some_text never_fails "user:42" 1 refl
      ((enters "user:42" 10 ∷ [], message (("event", scalar (int 5)) ∷ []))
        ∷ ([], confirmation)
        ∷ [])
      one_socket refl (refl, (refl, tt))

abbrev after : Session
after = (send_message 10 customer 77 text (some "hello") session).1

abbrev later : Session
later = record session { working = after.committed; committed = after.committed }

abbrev hello : Message
hello = new 10 customer 77 text (some "hello") session

room : count_p (is_fetchable session.locked 2000) later.working.outbox ≤ 50
unfolding select_rows is_admin message_refused
room = ground (
  arith,
  (send_message_delivers 10 customer 77 text (some "hello") session conversation db-IsValid refl
        refl refl refl).5
      (is_fetchable session.locked 2000),
)

end_to_end_example :
    (out : List Envelope) × (e : Envelope) × ((process_batch defaults accepted later).0 ≡ ok out)
    × Mem e out
    × ((hub : ConnectionManager)
        → let sent = (hear no_uuid some_text never_fails (message (raw_of e)) hub).0 in
          ((ws : WebSocket)
            → any (λ a. a.0 == ws) sent ≡ (
                any (λ k. connected hub k ws) (or_empty (get 10 hub.subscriptions))
                && not (never_fails ws)))
          × All
              (λ a. a.1 ≡ record {
                type = "chat.message_created";
                payload = ("event_type", str "chat.message_created") ∷ message_created hello;
              })
              sent)
unfolding select_rows is_admin message_refused
end_to_end_example =
    end_to_end no_uuid some_text never_fails defaults accepted 10 customer 77 text (some "hello")
      session later conversation db-IsValid refl refl refl refl refl refl refl refl room
      (omega arith) refl
