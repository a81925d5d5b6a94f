-- ===== src/Tests/Cursors.antt =====
-- Cursors over the codec that computes.
use leaf_flow_chat.Prelude.{◌≡◌, ◌≤◌, ◌+◌, ◌&&◌, refl, true, arith, some, none, [], ◌∷◌, count_p}
use leaf_flow_chat.Errors.{ok, err, value_error}
use leaf_flow_chat.Principal.{is_admin}
use leaf_flow_chat.Sql.Rows.{rows, select_rows}
use leaf_flow_chat.Db.Cursor.Codec.{Text, encode_cursor, decode_cursor, read_cursor, split_once}
use leaf_flow_chat.Db.Cursor.RoundTrip.{decode_cursor-encode_cursor}
use leaf_flow_chat.Db.Conversations.{ConversationFilterDto, page}
use leaf_flow_chat.Db.Conversations.Adjoin.{is_silent, left, pages_lose_silent}
use leaf_flow_chat.Db.Models.{ConversationModel}
use leaf_flow_chat.Db.Session.{rollback}
use leaf_flow_chat.Api
use leaf_flow_chat.Api.{failure}
use leaf_flow_chat.Api.Cursors.{list_messages_bad_cursor}
use leaf_flow_chat.Api.Limits.{
  number, get_messages, get_any_messages, get_conversations, get_all_conversations,
}
use leaf_flow_chat.Api.Limits.Bounds.{entries, lists_bounded}
use leaf_flow_chat.Tests.Data.{conversation, customer, session}
use leaf_flow_chat.Tests.PlainCodec.{plain}

decode_cursor-encode_cursor_example : decode_cursor (encode_cursor none 3) ≡ ok (0, 3)
decode_cursor-encode_cursor_example = decode_cursor-encode_cursor none 3

-- no "|" in it
abbrev garbage : Text
garbage = b'x' ∷ []

unreadable : read_cursor (some garbage) ≡ err value_error
unfolding read_cursor decode_cursor split_once
unreadable = refl

list_messages_bad_cursor_example :
    Api.list_messages (some customer) 10 (some garbage) 20 session ≡ (failure 500, session)
unfolding select_rows is_admin rollback
list_messages_bad_cursor_example =
    list_messages_bad_cursor customer 10 (some garbage) 20 session conversation value_error refl
      refl unreadable

abbrev spoken : ConversationModel
spoken = record conversation { id = 11; last_message_at = some 5 }

pages_lose_silent_example :
    count_p (λ _. true) (page (λ _. true) none 1 (conversation ∷ spoken ∷ []))
      + count_p (λ _. true) (left (λ _. true) (conversation ∷ spoken ∷ []) (some (5, 11)))
      + count_p (λ m. is_silent m && true) (left (λ _. true) (conversation ∷ spoken ∷ []) none)
    ≡ count_p (λ _. true) (left (λ _. true) (conversation ∷ spoken ∷ []) none)
unfolding select_rows
pages_lose_silent_example =
    pages_lose_silent (λ _. true) none (conversation ∷ spoken ∷ []) (λ i. ground arith) (λ _. true)
      1 spoken 5 refl refl

abbrev all_conversations : ConversationFilterDto
all_conversations = record { status = none; assignee_admin_id = none; cursor = none; limit = 0 }

lists_bounded_example :
    (entries (get_messages (some customer) 10 none (number 200) session).0 ≤ 200)
    × (entries (get_any_messages (some customer) 10 none (number 200) session).0 ≤ 200)
    × (entries (get_conversations (some customer) none (number 200) session).0 ≤ 100)
    × (entries (get_all_conversations (some customer) all_conversations (number 200) session).0
        ≤ 100)
lists_bounded_example = lists_bounded (some customer) 10 none all_conversations (number 200) session
