-- ===== src/Api/Cursors.antt =====
-- What a request for messages answers to a cursor that cannot be read.
use leaf_flow_chat.Prelude.{ℕ, ◌≡◌, refl, true, arith, Option, none, some, [], ◌∷◌}
use leaf_flow_chat.Domain.{Uuid}
use leaf_flow_chat.Errors.{Error, Result, ok, err, value_error}
use leaf_flow_chat.Principal.{Principal}
use leaf_flow_chat.Permissions.Access.{may_access, access_decides}
use leaf_flow_chat.Sql.{Sql, unordered}
use leaf_flow_chat.Sql.Laws.{fetch}
use leaf_flow_chat.Db.Cursor.{Cursor}
use leaf_flow_chat.Db.Cursor.Codec.{
  Text, Codec, decode_cursor, read_cursor, some_ok, or_value_error,
}
use leaf_flow_chat.Db.Constraints.{is_conversation}
use leaf_flow_chat.Db.Conversations.{get_by_id}
use leaf_flow_chat.Db.Mappers.ConversationMapper
use leaf_flow_chat.Db.MessagePages
use leaf_flow_chat.Db.Models.{ConversationModel}
use leaf_flow_chat.Db.Session.{Session, rollback, in_session, ◌>>=◌}
use leaf_flow_chat.Services.MessageService
use leaf_flow_chat.Api.{failure, status_of, request, as_principal, list_messages}

or_value_error-err :
    {A : Type 0} (o : Option A) (e : Error) → or_value_error o ≡ err e → e ≡ value_error
or_value_error-err none e h = cc h
or_value_error-err (some a) e h = absurd (cc h)

module _ ⦃codec : Codec⦄ where
  decode_cursor-err : (t : Text) (e : Error) → decode_cursor t ≡ err e → e ≡ value_error
  unfolding decode_cursor
  decode_cursor-err t e h = or_value_error-err _ e h

  -- A cursor is refused by a ValueError alone.
  read_cursor-err : (o : Option Text) (e : Error) → read_cursor o ≡ err e → e ≡ value_error
  unfolding read_cursor
  read_cursor-err none e h = absurd (cc h)
  read_cursor-err (some []) e h = absurd (cc h)
  read_cursor-err (some (x ∷ xs)) e h =
      refused (decode_cursor (x ∷ xs)) (decode_cursor-err (x ∷ xs)) h
    where
      refused :
          (r : Result Cursor)
          → ((e' : Error) → r ≡ err e' → e' ≡ value_error)
          → some_ok r ≡ err e
          → e ≡ value_error
      refused (ok c) why h' = absurd (cc h')
      refused (err e') why h' = cc (h', why e' refl)

module _ ⦃sql : Sql⦄ ⦃codec : Codec⦄ where
  -- A request for messages by somebody with access, with a cursor that cannot be read, is answered
  -- by 500, and leaves the database as it was.
  pub list_messages_bad_cursor :
      (p : Principal) (c : Uuid) (cursor : Option Text) (limit : ℕ) (s : Session)
      (x : ConversationModel) (e : Error)
      → fetch (is_conversation c) unordered s.committed.conversations ≡ some x
      → may_access s.committed p (ConversationMapper.model_to_entity x) ≡ true
      → read_cursor cursor ≡ err e
      → list_messages (some p) c cursor limit s ≡ (failure 500, rollback s)
  unfolding list_messages as_principal request in_session rollback MessageService.list_messages
      get_by_id MessagePages.list_messages status_of ◌>>=◌
  list_messages_bad_cursor p c cursor limit s x e there allowed bad = ground (
    arith,
    access_decides p (ConversationMapper.model_to_entity x) (rollback s),
    read_cursor-err cursor e bad,
  )
