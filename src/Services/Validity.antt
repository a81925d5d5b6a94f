-- ===== src/Services/Validity.antt =====
-- Every use case, whether it returns or raises, leaves a valid database valid.
use leaf_flow_chat.Prelude.{ℕ, String, Bool, true, false, Option, none, some, List, [], ◌∷◌}
use leaf_flow_chat.Domain.{Uuid, SubjectId, Timestamp, Conversation, Message, MessageType, Payload}
use leaf_flow_chat.Principal.{Principal}
use leaf_flow_chat.Sql.{Sql}
use leaf_flow_chat.Permissions.{
  assert_conversation_access, member_or_forbidden, member_or_raise, assert_admin,
}
use leaf_flow_chat.Db.Conversations.{get_by_id, get_support_for_user, get_by_topic}
use leaf_flow_chat.Db.Participants.{is_participant}
use leaf_flow_chat.Db.Session.{Session, Action, in_session, rollback}
use leaf_flow_chat.Db.Valid.{IsValid}
use leaf_flow_chat.Db.Valid.Keeps.{Keeps, Keeps-then, Keeps-uuid4, keeps_rules}
use leaf_flow_chat.Db.Valid.Repositories.{BothValid, create_if_not_exists-Keeps, valid_rules}
use leaf_flow_chat.Services.MessageService.{send_message, announce}
use leaf_flow_chat.Services.ConversationService.{
  get_or_create_support_conversation, get_or_create_topic_conversation, create_conversation,
  existing_or_support, existing_or_topic,
}
use leaf_flow_chat.Services.AdminService.{
  assign_conversation, close_conversation, found_or_raise, record_change, join_admin,
}
use leaf_flow_chat.Services.ReadStateService.{mark_read}
use leaf_flow_chat.Scripts.Seed.{seed, seed_messages}
use leaf_flow_chat.Settings.{Settings}
use leaf_flow_chat.Db.Outbox.{OutboxRecord}
use leaf_flow_chat.Workers.OutboxWorker.{process_batch}
use leaf_flow_chat.Workers.OutboxWorker.Valid.{process_batch-Keeps}

member_or_raise-Keeps : (c : Conversation) (b : Bool) → Keeps BothValid (member_or_raise c b)
unfolding member_or_raise
member_or_raise-Keeps c true = search keeps_rules
member_or_raise-Keeps c false = search keeps_rules

found_or_raise-Keeps : (o : Option Conversation) → Keeps BothValid (found_or_raise o)
unfolding found_or_raise
found_or_raise-Keeps none = search keeps_rules
found_or_raise-Keeps (some c) = search keeps_rules

assert_admin-Keeps : (p : Principal) → Keeps BothValid (assert_admin p)
unfolding assert_admin
assert_admin-Keeps p = search keeps_rules

module _ ⦃sql : Sql⦄ where
  access-Keeps :
      (p : Principal) (o : Option Conversation) → Keeps BothValid (assert_conversation_access p o)
  unfolding assert_conversation_access member_or_forbidden is_participant
  access-Keeps p none = search keeps_rules
  access-Keeps p (some c) = search (keeps_rules, member_or_raise-Keeps)

  announce-Keeps : (c : Uuid) (m : Message) → Keeps BothValid (announce c m)
  unfolding announce
  announce-Keeps c m = search valid_rules

  send_message-Keeps :
      (c : Uuid) (p : Principal) (m : Uuid) (t : MessageType) (body : Option String)
      → Keeps BothValid (send_message c p m t body)
  unfolding send_message get_by_id
  send_message-Keeps c p m t body = search (valid_rules, access-Keeps, announce-Keeps) depth 12

  create_conversation-Keeps :
      (t : String) (o : Option ℕ) (u : SubjectId) (payload : Uuid → Payload)
      → Keeps BothValid (create_conversation t o u payload)
  unfolding create_conversation
  create_conversation-Keeps t o u payload = search valid_rules depth 12

  existing_or_support-Keeps :
      (u : SubjectId) (o : Option Conversation) → Keeps BothValid (existing_or_support u o)
  unfolding existing_or_support
  existing_or_support-Keeps u (some c) = search keeps_rules
  existing_or_support-Keeps u none = create_conversation-Keeps _ _ u _

  existing_or_topic-Keeps :
      (t : String) (i : ℕ) (u : SubjectId) (o : Option Conversation)
      → Keeps BothValid (existing_or_topic t i u o)
  unfolding existing_or_topic
  existing_or_topic-Keeps t i u (some c) = search keeps_rules
  existing_or_topic-Keeps t i u none = search (keeps_rules, create_conversation-Keeps)

  support-Keeps : (u : SubjectId) → Keeps BothValid (get_or_create_support_conversation u)
  unfolding get_or_create_support_conversation get_support_for_user
  support-Keeps u = search (keeps_rules, existing_or_support-Keeps)

  topic-Keeps :
      (t : String) (i : ℕ) (u : SubjectId)
      → Keeps BothValid (get_or_create_topic_conversation t i u)
  unfolding get_or_create_topic_conversation get_by_topic
  topic-Keeps t i u = search (keeps_rules, existing_or_topic-Keeps)

  record_change-Keeps :
      (c : Uuid) (i : SubjectId) (body : String) (payload event : Payload)
      → Keeps BothValid (record_change c i body payload event)
  unfolding record_change get_by_id
  record_change-Keeps c i body payload event = search valid_rules depth 12

  join_admin-Keeps : (c : Uuid) (i : SubjectId) → Keeps BothValid (join_admin c i)
  unfolding join_admin is_participant
  join_admin-Keeps c i = search valid_rules

  assign_conversation-Keeps :
      (c : Uuid) (i : SubjectId) (p : Principal) → Keeps BothValid (assign_conversation c i p)
  unfolding assign_conversation get_by_id
  assign_conversation-Keeps c i p =
      search
        (
          valid_rules, assert_admin-Keeps, found_or_raise-Keeps, join_admin-Keeps,
          record_change-Keeps,
        )
        depth 12

  close_conversation-Keeps : (c : Uuid) (p : Principal) → Keeps BothValid (close_conversation c p)
  unfolding close_conversation get_by_id
  close_conversation-Keeps c p =
      search (valid_rules, assert_admin-Keeps, found_or_raise-Keeps, record_change-Keeps) depth 12

  mark_read-Keeps : (c : Uuid) (p : Principal) (m : Uuid) → Keeps BothValid (mark_read c p m)
  unfolding mark_read get_by_id
  mark_read-Keeps c p m = search (valid_rules, access-Keeps) depth 12

  seed_messages-Keeps :
      (c : Uuid) (now : Timestamp) (rows : List (String × SubjectId × String))
      → Keeps BothValid (seed_messages c now rows)
  unfolding seed_messages
  seed_messages-Keeps c now [] = search keeps_rules
  seed_messages-Keeps c now (d ∷ rest) = Keeps-then _ _ Keeps-uuid4 (λ message_id.
      Keeps-then _ _ Keeps-uuid4 (λ client_msg_id.
        Keeps-then _ _ (create_if_not_exists-Keeps _) (λ r. seed_messages-Keeps c now rest)))

  seed-Keeps : Keeps BothValid seed
  unfolding seed
  seed-Keeps = search (valid_rules, seed_messages-Keeps) depth 16

  -- What clients, the worker and the seeding script do, each in a session of its own.
  pub data Step (s : Session) : Session → Type 0 where
    send :
        (c : Uuid) (p : Principal) (m : Uuid) (t : MessageType) (body : Option String)
        → Step s (in_session (send_message c p m t body) s).1
    open_support : (u : SubjectId) → Step s (in_session (get_or_create_support_conversation u) s).1
    open_topic :
        (t : String) (i : ℕ) (u : SubjectId)
        → Step s (in_session (get_or_create_topic_conversation t i u) s).1
    assign :
        (c : Uuid) (i : SubjectId) (p : Principal)
        → Step s (in_session (assign_conversation c i p) s).1
    close : (c : Uuid) (p : Principal) → Step s (in_session (close_conversation c p) s).1
    read : (c : Uuid) (p : Principal) (m : Uuid) → Step s (in_session (mark_read c p m) s).1
    work :
        (settings : Settings) (fails : OutboxRecord → Bool)
        → Step s (in_session (process_batch settings fails) s).1
    sow : Step s (in_session seed s).1

  pub data Reach (s : Session) : Session → Type 0 where
    here : Reach s s
    next : {t u : Session} → Reach s t → Step t u → Reach s u

  in_session-IsValid :
      {A : Type 0} (m : Action A) (s : Session)
      → Keeps BothValid m
      → IsValid s.committed
      → IsValid (in_session m s).1.committed
  unfolding in_session rollback
  in_session-IsValid m s k v = (k.at (rollback s) (v, v)).0

  pub Step-IsValid : {s t : Session} → Step s t → IsValid s.committed → IsValid t.committed
  Step-IsValid {s} (send c p m t body) v =
      in_session-IsValid (send_message c p m t body) s (send_message-Keeps c p m t body) v
  Step-IsValid {s} (open_support u) v =
      in_session-IsValid (get_or_create_support_conversation u) s (support-Keeps u) v
  Step-IsValid {s} (open_topic t i u) v =
      in_session-IsValid (get_or_create_topic_conversation t i u) s (topic-Keeps t i u) v
  Step-IsValid {s} (assign c i p) v =
      in_session-IsValid (assign_conversation c i p) s (assign_conversation-Keeps c i p) v
  Step-IsValid {s} (close c p) v =
      in_session-IsValid (close_conversation c p) s (close_conversation-Keeps c p) v
  Step-IsValid {s} (read c p m) v = in_session-IsValid (mark_read c p m) s (mark_read-Keeps c p m) v
  Step-IsValid {s} (work settings fails) v =
      in_session-IsValid (process_batch settings fails) s (process_batch-Keeps settings fails) v
  Step-IsValid {s} sow v = in_session-IsValid seed s seed-Keeps v

  -- After any sequence of use cases, runs of the worker and runs of the seeding script, failing ones
  -- included, from a valid database, the committed database is valid: the primary and unique keys of
  -- conversations, participants, messages and read markers occur at most once (the outbox, whose key
  -- comes from a sequence, is left aside), and no reference dangles.
  pub Reach-IsValid : {s t : Session} → Reach s t → IsValid s.committed → IsValid t.committed
  Reach-IsValid here v = v
  Reach-IsValid (next r st) v = Step-IsValid st (Reach-IsValid r v)
