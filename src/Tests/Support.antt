-- ===== src/Tests/Support.antt =====
-- Support conversations asked for twice, one after the other and at once.
use leaf_flow_chat.Prelude.{◌≡◌, refl, ap, ◌∙◌, count_p}
use leaf_flow_chat.Errors.{ok}
use leaf_flow_chat.Sql.Rows.{rows, select_rows}
use leaf_flow_chat.Db.Constraints.{conversation_refused, participant_refused}
use leaf_flow_chat.Db.Conversations.{get_support_for_user, is_open_support, create}
use leaf_flow_chat.Db.Participants
use leaf_flow_chat.Db.Outbox
use leaf_flow_chat.Db.Session.{Session, commit, ◌>>=◌}
use leaf_flow_chat.Services.ConversationService.{
  create_conversation, existing_or_support, get_or_create_support_conversation,
}
use leaf_flow_chat.Services.ConversationService.Support.{
  opening, support-missing, support-made, support_twice,
}
use leaf_flow_chat.Services.ConversationService.Overlap.{
  other_request, support_meanwhile, overlap-missing, support_overlaps,
}
use leaf_flow_chat.Tests.Data.{session}

newcomer : (get_or_create_support_conversation 43 session).0 ≡ ok (opening 43 session)
unfolding select_rows conversation_refused participant_refused
newcomer = ap (λ r. r.0) (support-missing 43 session refl) ∙ (support-made 43 session refl refl).0

support_twice_example :
    let s' = (get_or_create_support_conversation 43 session).1 in
    get_or_create_support_conversation 43 s' ≡ (ok (opening 43 session), s')
support_twice_example = support_twice 43 session (opening 43 session) newcomer

-- what the second request leaves, which runs while the first waits
abbrev overtaken : Session
overtaken = other_request 43 session

overlapped : (support_meanwhile (other_request 43) 43 session).0 ≡ ok (opening 43 overtaken)
unfolding select_rows conversation_refused participant_refused get_or_create_support_conversation
    existing_or_support get_support_for_user create_conversation create Participants.add Outbox.add
    commit ◌>>=◌
overlapped =
    ap (λ r. r.0) (overlap-missing 43 session (other_request 43) refl)
    ∙ (support-made 43 overtaken refl refl).0

support_overlaps_example :
    let e = (support_meanwhile (other_request 43) 43 session).1 in
    count_p (is_open_support e.committed 43) e.committed.conversations ≡ 2
unfolding select_rows
support_overlaps_example =
    support_overlaps 43 session (opening 43 overtaken) (opening 43 session) refl newcomer overlapped
