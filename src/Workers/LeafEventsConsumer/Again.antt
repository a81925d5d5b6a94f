-- ===== src/Workers/LeafEventsConsumer/Again.antt =====
-- An event that is delivered again.
use leaf_flow_chat.Prelude.{
  ℕ, String, ◌≡◌, ◌⊎◌, inl, inr, refl, ap, ◌∙◌, Bool, false, Option, Option-cases,
}
use leaf_flow_chat.Prelude.Dict.{get, string_eq}
use leaf_flow_chat.Domain.{Conversation}
use leaf_flow_chat.Errors.{Error, Result, ok, err, Result-cases, key_error, value_error}
use leaf_flow_chat.Sql.{Sql}
use leaf_flow_chat.Db.Session.{Session, Action, rollback, in_session, ◌>>=◌}
use leaf_flow_chat.Services.ConversationService.{get_or_create_topic_conversation}
use leaf_flow_chat.Services.ConversationService.Repeat.{topic_twice, topic-committed}
use leaf_flow_chat.Workers.LeafEventsConsumer.{Fields, int_field, handle_order_created}

-- A request that left nothing uncommitted, and that would do nothing more, does nothing more in a
-- session of its own.
in_session_again :
    {A : Type 0} (m : Action A) (s : Session) (b : A)
    → let s' = (m (rollback s)).1 in
      s'.committed ≡ s'.working
      → m s' ≡ (ok b, s')
      → in_session m (in_session m s).1 ≡ (ok b, (in_session m s).1)
unfolding in_session rollback
in_session_again m s b clean same =
    let s' : Session = (m (rollback s)).1 in
    let settled : rollback s' ≡ s' = ap (λ d. record s' { working = d }) clean in
    ap (λ x. ((m x).0, rollback (m x).1)) settled ∙ ap (λ p. (p.0, rollback p.1)) same

module _ ⦃sql : Sql⦄ (parse_int : String → Option ℕ) (fields : Fields) where
  abbrev Reads : String → Type 0
  Reads key =
      ((n : ℕ) × ((s : Session) → int_field parse_int key fields s ≡ (ok n, s)))
      ⊎ ((e : Error) × ((s : Session) → int_field parse_int key fields s ≡ (err e, s)))

  int_field-Reads : (key : String) → Reads key
  unfolding int_field ◌>>=◌
  int_field-Reads key = elim (Option-cases (get key fields)) [
    | inl missing ↦ inr (key_error, λ s. rw missing refl)
    | inr (v, there) ↦ elim (Option-cases (parse_int v)) [
      | inl bad ↦ inr (value_error, λ s. rw there (rw bad refl))
      | inr (n, good) ↦ inl (n, λ s. rw there (rw good refl))
    ]
  ]

  order_created-unread :
      (e : Error) (s : Session)
      → ((s' : Session) → int_field parse_int "user_id" fields s' ≡ (err e, s'))
      → (handle_order_created parse_int fields s).0 ≡ err e
  unfolding handle_order_created ◌>>=◌
  order_created-unread e s h = rw (h s) refl

  order_created-orderless :
      (u : ℕ) (e : Error) (s : Session)
      → ((s' : Session) → int_field parse_int "user_id" fields s' ≡ (ok u, s'))
      → ((s' : Session) → int_field parse_int "order_id" fields s' ≡ (err e, s'))
      → (handle_order_created parse_int fields s).0 ≡ err e
  unfolding handle_order_created ◌>>=◌
  order_created-orderless u e s hu h = rw (hu s) (rw (h s) refl)

  module _ (u o : ℕ) (hu : (s' : Session) → int_field parse_int "user_id" fields s' ≡ (ok u, s'))
      (ho : (s' : Session) → int_field parse_int "order_id" fields s' ≡ (ok o, s')) where
    abbrev opened : Session → Result (Conversation × Bool) × Session
    opened = in_session (get_or_create_topic_conversation "order" o u)

    order_created-read :
        (s : Session) (r : Result (Conversation × Bool))
        → (opened s).0 ≡ r
        → handle_order_created parse_int fields s
          ≡ (elim r [ ok c ↦ ok tt | err e ↦ err e ], (opened s).1)
    unfolding handle_order_created ◌>>=◌
    order_created-read s (ok c) h = rw (hu s) (rw (ho s) (rw h refl))
    order_created-read s (err e) h = rw (hu s) (rw (ho s) (rw h refl))

    opened_again :
        (s : Session) (c : Conversation) (created : Bool)
        → (opened s).0 ≡ ok (c, created)
        → opened (opened s).1 ≡ (ok (c, false), (opened s).1)
    unfolding in_session rollback
    opened_again s c created h =
        in_session_again (get_or_create_topic_conversation "order" o u) s (c, false)
          (topic-committed "order" o u (rollback s) c created h refl)
          (topic_twice "order" o u u (rollback s) c created h)

    order_created-twice :
        (s : Session) (c : Conversation) (created : Bool)
        → (opened s).0 ≡ ok (c, created)
        → handle_order_created parse_int fields (opened s).1 ≡ (ok tt, (opened s).1)
    order_created-twice s c created h =
        let same = opened_again s c created h in
        order_created-read (opened s).1 (ok (c, false)) (ap (λ r. r.0) same)
        ∙ ap (λ r. (ok tt, r.1)) same

  -- After an `order.created` event was handled without an exception, the same event handled again
  -- is handled too and changes nothing.
  pub order_created_again :
      (s : Session)
      → (handle_order_created parse_int fields s).0 ≡ ok tt
      → let s' = (handle_order_created parse_int fields s).1 in
        handle_order_created parse_int fields s' ≡ (ok tt, s')
  order_created_again s first = elim (int_field-Reads "user_id") [
    | inr (e, h) ↦ absurd (cc (order_created-unread e s h))
    | inl (u, hu) ↦ elim (int_field-Reads "order_id") [
      | inr (e, h) ↦ absurd (cc (order_created-orderless u e s hu h))
      | inl (o, ho) ↦ elim (Result-cases (opened u o hu ho s).0) [
        | inr (e, h) ↦ absurd (cc (order_created-read u o hu ho s (err e) h))
        | inl ((c, created), h) ↦
            rw (order_created-read u o hu ho s (ok (c, created)) h)
              (order_created-twice u o hu ho s c created h)
      ]
    ]
  ]
