-- ===== src/Db/Conversations/Pages.antt =====
-- The paginated lists of `ConversationReaderRepo`, and ConversationFilterDTO.
use leaf_flow_chat.Prelude.{
  ℕ, ◌≡◌, Bool, true, false, not, ◌&&◌, arith, is_some, count_p, count_p-take-le, count_p-false,
  Option, none, some, List, map, take, holds, str_eq,
}
use leaf_flow_chat.Domain.{SubjectId, Conversation, ConversationStatus, status_value}
use leaf_flow_chat.Sql.{Sql}
use leaf_flow_chat.Db.Cursor.Codec.{Text, Codec, read_cursor}
use leaf_flow_chat.Db.Cursor.{Cursor, more_recent, is_older}
use leaf_flow_chat.Db.Models.{ConversationModel}
use leaf_flow_chat.Db.Mappers.ConversationMapper
use leaf_flow_chat.Db.Session.{Action, from_result, query, ◌>>=◌}
use leaf_flow_chat.Db.Conversations.Reader.{joins_user}

pub record ConversationFilterDto : Type 0 where
  pub status : Option ConversationStatus
  pub assignee_admin_id : Option ℕ
  pub cursor : Option Text
  pub limit : ℕ

-- `last_message_at.desc().nullslast(), id`
abbrev pub by_activity : ConversationModel → ConversationModel → Bool
by_activity a b = more_recent (a.last_message_at, a.id) (b.last_message_at, b.id)

-- the condition that a cursor adds
abbrev pub on_page : Option Cursor → ConversationModel → Bool
on_page none c = true
on_page (some cursor) c = is_older cursor (c.last_message_at, c.id)

abbrev pub has_status : Option ConversationStatus → ConversationModel → Bool
has_status none c = true
has_status (some status) c = str_eq c.status (status_value status)

abbrev pub has_assignee : Option ℕ → ConversationModel → Bool
has_assignee none c = true
has_assignee (some admin_id) c = holds c.assignee_admin_id admin_id

abbrev pub passes : ConversationFilterDto → ConversationModel → Bool
passes filters c = has_status filters.status c && has_assignee filters.assignee_admin_id c

module _ ⦃sql : Sql⦄ where
  abbrev pub page :
      (ConversationModel → Bool)
      → Option Cursor
      → ℕ
      → List ConversationModel
      → List ConversationModel
  page w cursor limit t = take limit (sql.select (λ c. w c && on_page cursor c) by_activity t)

  unfoldable pub list_for_user :
      ⦃codec : Codec⦄ → SubjectId → Option Text → ℕ → Action (List Conversation)
  list_for_user user_id cursor_text limit = do
    cursor ← from_result (read_cursor cursor_text)
    query (λ db.
        map ConversationMapper.model_to_entity
          (page (joins_user db user_id) cursor limit db.conversations))

  unfoldable pub list_for_admin :
      ⦃codec : Codec⦄ → ConversationFilterDto → Action (List Conversation)
  list_for_admin filters = do
    cursor ← from_result (read_cursor filters.cursor)
    query (λ db.
        map ConversationMapper.model_to_entity
          (page (passes filters) cursor filters.limit db.conversations))

  -- A page that begins at a cursor has none of the conversations without `last_message_at`,
  -- whatever else they meet: only the first page can have one.
  pub page_skips_silent :
      (w : ConversationModel → Bool) (cursor : Cursor) (limit : ℕ) (t : List ConversationModel)
      → count_p (λ c. not (is_some c.last_message_at)) (page w (some cursor) limit t) ≡ 0
  page_skips_silent w cursor limit t = omega (
    arith,
    count_p-take-le silent limit (sql.select (λ c. w c && on_page (some cursor) c) by_activity t),
    sql.count_p-select silent (λ c. w c && on_page (some cursor) c) by_activity t,
    count_p-false (λ c. (w c && on_page (some cursor) c) && silent c) t (λ c. no_page c),
  )
    where
      silent : ConversationModel → Bool
      silent c = not (is_some c.last_message_at)

      no_page : (c : ConversationModel) → ((w c && on_page (some cursor) c) && silent c) ≡ false
      no_page c = elim c.last_message_at [ none ↦ ground arith | some u ↦ ground arith ]
