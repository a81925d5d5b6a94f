-- ===== src/Services/ConversationService/Overlap.antt =====
-- Two requests for a user's support conversation that overlap. Under READ COMMITTED a statement sees
-- what other transactions have committed before it.
use leaf_flow_chat.Prelude.{◌≡◌, refl, sym, ap, ◌∙◌, true, none, arith, count_p}
use leaf_flow_chat.Domain.{SubjectId, Conversation}
use leaf_flow_chat.Errors.{Result, ok}
use leaf_flow_chat.Sql.{Sql}
use leaf_flow_chat.Sql.Laws.{fetch, fetch-none}
use leaf_flow_chat.Db.Models.{ConversationModel, Db}
use leaf_flow_chat.Db.Constraints.{is_conversation, is_member}
use leaf_flow_chat.Db.Conversations.{get_support_for_user, is_open_support, newest_first}
use leaf_flow_chat.Db.Session.{Session, Action, ◌>>=◌, ◌>>◌}
use leaf_flow_chat.Services.ConversationService.{
  existing_or_support, get_or_create_support_conversation,
}
use leaf_flow_chat.Services.ConversationService.Support.{
  row, member, IsOpened, support-missing, support-IsOpened, none_before, row-IsNew, joins_now,
}

-- what others commit between two statements
abbrev meanwhile : (Session → Session) → Action (Unit {0})
meanwhile others s = (ok tt, others s)

module _ ⦃sql : Sql⦄ where
  -- `get_or_create_support_conversation`, where others act between its lookup and the rest
  unfoldable pub support_meanwhile : (Session → Session) → SubjectId → Action Conversation
  support_meanwhile others user_id = do
    existing ← get_support_for_user user_id
    meanwhile others
    existing_or_support user_id existing

  -- the other request, in one piece
  abbrev pub other_request : SubjectId → Session → Session
  other_request user_id s = (get_or_create_support_conversation user_id s).1

  pub overlap-missing :
      (u : SubjectId) (s : Session) (others : Session → Session)
      → fetch (is_open_support s.working u) newest_first s.working.conversations ≡ none
      → support_meanwhile others u s ≡ existing_or_support u none (others s)
  unfolding support_meanwhile get_support_for_user ◌>>=◌
  overlap-missing u s others h = rw h refl

  -- A second membership takes no conversation away.
  still_open :
      (u : SubjectId) (s : Session) (d : Db) (c : ConversationModel)
      → d.participants ≡ sql.insert (member u s) s.working.participants
      → is_open_support s.working u c ≡ true
      → is_open_support d u c ≡ true
  still_open u s d c e h = ground (
    arith,
    ap (count_p (is_member c.id "user" u)) e,
    sql.count_p-insert (is_member c.id "user" u) (member u s) s.working.participants,
  )

  module _ (u : SubjectId) (s s' e : Session) (first : IsOpened u s s')
      (second : IsOpened u s' e) where
    -- the conversations that were there before both
    before_none :
        count_p (is_open_support s.working u) s.working.conversations ≡ 0
        → count_p (is_open_support e.working u) s.working.conversations ≡ 0
    before_none missing =
        none_before u s' e.working s.working.conversations second.participants
          (none_before u s s'.working s.working.conversations first.participants missing
            (row-IsNew u s first.row_new))
          (omega (
            arith,
            row-IsNew u s' second.row_new,
            ap (count_p (is_conversation (row u s').id)) first.conversations,
            sql.count_p-insert (is_conversation (row u s').id) (row u s) s.working.conversations,
          ))

    both_open :
        count_p (is_open_support s.working u) s.working.conversations ≡ 0
        → count_p (is_open_support e.working u) e.working.conversations ≡ 2
    both_open missing = ground (
      arith,
      before_none missing,
      ap (count_p (is_open_support e.working u)) first.conversations,
      ap (count_p (is_open_support e.working u)) second.conversations,
      sql.count_p-insert (is_open_support e.working u) (row u s) s.working.conversations,
      sql.count_p-insert (is_open_support e.working u) (row u s') s'.working.conversations,
      still_open u s' e.working (row u s) second.participants
          (joins_now u s s'.working first.participants),
      joins_now u s' e.working second.participants,
    )

-- A user has no open support conversation, and two requests for it overlap: the second runs between
-- the lookup of the first and the rest of it. Where both return, the user has two open support
-- conversations, committed.
pub support_overlaps :
    ⦃sql : Sql⦄ (u : SubjectId) (s : Session) (c c' : Conversation)
    → fetch (is_open_support s.working u) newest_first s.working.conversations ≡ none
    → (get_or_create_support_conversation u s).0 ≡ ok c'
    → (support_meanwhile (other_request u) u s).0 ≡ ok c
    → let e = (support_meanwhile (other_request u) u s).1 in
      count_p (is_open_support e.committed u) e.committed.conversations ≡ 2
support_overlaps u s c c' missing ran returned =
    let alone = support-missing u s missing in
    let s' : Session = (existing_or_support u none s).1 in
    let (same, first) = support-IsOpened u s c' (ap (λ r. r.0) (sym alone) ∙ ran) in
    let overlap : support_meanwhile (other_request u) u s ≡ existing_or_support u none s' =
      overlap-missing u s (other_request u) missing
      ∙ ap (λ (r : Result Conversation × Session). existing_or_support u none r.1) alone in
    let (same', second) = support-IsOpened u s' c (ap (λ r. r.0) (sym overlap) ∙ returned) in
    let none_open =
      fetch-none (is_open_support s.working u) newest_first s.working.conversations missing in
    rw overlap (
      rw second.settled (both_open u s s' (existing_or_support u none s').1 first second none_open))
