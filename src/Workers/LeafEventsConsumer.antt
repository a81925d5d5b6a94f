-- ===== src/Workers/LeafEventsConsumer.antt =====
-- workers/leaf_events_consumer.py. The fields of a stream entry are texts; `int(…)` of a text is the
-- parameter `parse_int`, which has no value where Python raises ValueError. Log lines are left out.
pub mod Again
use leaf_flow_chat.Prelude.{
  ℕ, String, ◌<>◌, Bool, Option, none, some, [], ◌∷◌, str_eq, str_int, if◌then◌else◌,
}
use leaf_flow_chat.Prelude.Dict.{Dict, get, string_eq}
use leaf_flow_chat.Domain.{Uuid, Conversation, admin, system}
use leaf_flow_chat.Errors.{value_error, key_error}
use leaf_flow_chat.Principal.{Principal}
use leaf_flow_chat.Sql.{Sql}
use leaf_flow_chat.Db.Conversations.{get_by_topic}
use leaf_flow_chat.Db.Session.{Action, pure, raise, uuid4, in_session, ◌>>=◌, ◌>>◌}
use leaf_flow_chat.Services.ConversationService.{get_or_create_topic_conversation}
use leaf_flow_chat.Services.MessageService.{send_message}

abbrev pub Fields : Type 0
Fields = Dict String String

abbrev pub value_or_raise : Option String → Action String
value_or_raise none = raise key_error
value_or_raise (some v) = pure v

-- `fields[key]`
abbrev pub field : String → Fields → Action String
field key fields = value_or_raise (get key fields)

abbrev pub system_principal : Principal
system_principal = record { kind = admin; subject_id = 0; roles = "admin" ∷ [] }

abbrev pub order_status_labels : Dict String String
order_status_labels =
    ("confirmed", "Заказ подтверждён")
    ∷ ("processing", "Заказ в обработке")
    ∷ ("shipped", "Заказ отправлен")
    ∷ ("delivered", "Заказ доставлен")
    ∷ ("completed", "Заказ завершён")
    ∷ ("cancelled", "Заказ отменён")
    ∷ ("refunded", "Возврат оформлен")
    ∷ []

abbrev pub label_or : String → Option String → String
label_or status none = "Статус заказа: " <> status
label_or status (some label) = label

abbrev pub status_body : ℕ → String → String
status_body order_id status =
    label_or status (get status order_status_labels) <> " (#" <> str_int order_id <> ")"

-- the handlers that only write a log line
unfoldable pub handle_user_blocked : Fields → Action (Unit {0})
handle_user_blocked fields = pure tt

unfoldable pub handle_user_updated : Fields → Action (Unit {0})
handle_user_updated fields = pure tt

module _ ⦃sql : Sql⦄ (parse_int : String → Option ℕ) where
  abbrev pub int_or_raise : Option ℕ → Action ℕ
  int_or_raise none = raise value_error
  int_or_raise (some n) = pure n

  -- `int(fields[key])`
  unfoldable pub int_field : String → Fields → Action ℕ
  int_field key fields = do text ← field key fields; int_or_raise (parse_int text)

  unfoldable pub handle_order_created : Fields → Action (Unit {0})
  handle_order_created fields = do
    user_id ← int_field "user_id" fields
    order_id ← int_field "order_id" fields
    in_session (get_or_create_topic_conversation "order" order_id user_id)
    pure tt

  -- the message of a status change, where the order has a conversation
  unfoldable pub notify : ℕ → String → Option Conversation → Action (Unit {0})
  notify order_id new_status none = pure tt
  notify order_id new_status (some conv) = do
    client_msg_id ← uuid4
    send_message conv.id system_principal client_msg_id system
        (some (status_body order_id new_status))
    pure tt

  unfoldable pub handle_order_status_changed : Fields → Action (Unit {0})
  handle_order_status_changed fields = do
    order_id ← int_field "order_id" fields
    new_status ← field "status" fields
    in_session (do conv ← get_by_topic "order" order_id none; notify order_id new_status conv)

  unfoldable pub handle_event : String → Fields → Action (Unit {0})
  handle_event event_type fields =
      if str_eq event_type "user.blocked"
      then handle_user_blocked fields
      else if str_eq event_type "user.updated"
      then handle_user_updated fields
      else if str_eq event_type "order.created"
      then handle_order_created fields
      else if str_eq event_type "order.status_changed"
      then handle_order_status_changed fields
      else pure tt
