-- ===== src/Db/MessagePages.antt =====
-- infrastructure/db/repositories/message.py: `MessageReaderRepo`
pub mod Adjoin
pub mod Resume
use leaf_flow_chat.Prelude.{ℕ, Bool, true, ◌&&◌, Option, none, some, List, map, take, ◌==◌}
use leaf_flow_chat.Domain.{Uuid, Message}
use leaf_flow_chat.Sql.{Sql}
use leaf_flow_chat.Db.Cursor.Codec.{Text, Codec, read_cursor}
use leaf_flow_chat.Db.Cursor.{Cursor, earlier, is_later}
use leaf_flow_chat.Db.Models.{MessageModel}
use leaf_flow_chat.Db.Mappers.MessageMapper
use leaf_flow_chat.Db.Session.{Action, from_result, query, ◌>>=◌}

-- `created_at.asc(), id.asc()`
abbrev pub in_order : MessageModel → MessageModel → Bool
in_order a b = earlier (a.created_at, a.id) (b.created_at, b.id)

-- the condition that a cursor adds
abbrev pub on_page : Option Cursor → MessageModel → Bool
on_page none m = true
on_page (some cursor) m = is_later cursor (m.created_at, m.id)

abbrev pub belongs : Uuid → Option Cursor → MessageModel → Bool
belongs conversation_id cursor m = m.conversation_id == conversation_id && on_page cursor m

module _ ⦃sql : Sql⦄ where
  abbrev pub page : Uuid → Option Cursor → ℕ → List MessageModel → List MessageModel
  page conversation_id cursor limit t =
      take limit (sql.select (belongs conversation_id cursor) in_order t)

  unfoldable pub list_messages : ⦃codec : Codec⦄ → Uuid → Option Text → ℕ → Action (List Message)
  list_messages conversation_id cursor_text limit = do
    cursor ← from_result (read_cursor cursor_text)
    query (λ db. map MessageMapper.model_to_entity (page conversation_id cursor limit db.messages))
