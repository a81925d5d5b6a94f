-- ===== src/Db/MessagePages/Resume.antt =====
-- The page after a message, asked for by the text of its cursor.
use leaf_flow_chat.Prelude.{ℕ, ◌≡◌, refl, some, map}
use leaf_flow_chat.Domain.{Uuid}
use leaf_flow_chat.Errors.{ok}
use leaf_flow_chat.Sql.{Sql}
use leaf_flow_chat.Db.Cursor.Codec.{Codec, encode_cursor}
use leaf_flow_chat.Db.Cursor.RoundTrip.{read_cursor-encode_cursor}
use leaf_flow_chat.Db.Mappers.MessageMapper
use leaf_flow_chat.Db.MessagePages.{page, list_messages}
use leaf_flow_chat.Db.Models.{MessageModel}
use leaf_flow_chat.Db.Session.{Session, ◌>>=◌}

module _ ⦃sql : Sql⦄ ⦃codec : Codec⦄ where
  -- `list_messages` with the text that `encode_cursor` makes of a message returns the page of the
  -- rows after that message, and changes nothing.
  pub list_messages_resumes :
      (c : Uuid) (x : MessageModel) (limit : ℕ) (s : Session)
      → list_messages c (some (encode_cursor (some x.created_at) x.id)) limit s ≡ (
        ok (
            map MessageMapper.model_to_entity
              (page c (some (x.created_at, x.id)) limit s.working.messages)),
        s,
      )
  unfolding list_messages ◌>>=◌
  list_messages_resumes c x limit s = rw (read_cursor-encode_cursor (some x.created_at) x.id) refl
