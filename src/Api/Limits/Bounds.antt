-- ===== src/Api/Limits/Bounds.antt =====
-- How long the answers of the endpoints that return lists are.
use leaf_flow_chat.Prelude.{
  ℕ, zero, suc, ◌≡◌, ◌≤◌, refl, Option, none, some, List, [], ◌∷◌, map, take, length, leb, ◌&&◌,
  arith, inl, inr, Bool-cases,
}
use leaf_flow_chat.Domain.{Uuid}
use leaf_flow_chat.Errors.{Result, ok, err}
use leaf_flow_chat.Principal.{Principal, is_admin_kind}
use leaf_flow_chat.Sql.{Sql}
use leaf_flow_chat.Db.Cursor.Codec.{Text, Codec}
use leaf_flow_chat.Db.Conversations.{ConversationFilterDto, list_for_user, list_for_admin}
use leaf_flow_chat.Db.MessagePages
use leaf_flow_chat.Db.Models.{Db}
use leaf_flow_chat.Db.Session
use leaf_flow_chat.Db.Session.{Session, Action, in_session, ◌>>=◌}
use leaf_flow_chat.Services.ConversationService
use leaf_flow_chat.Services.AdminService
use leaf_flow_chat.Services.MessageService
use leaf_flow_chat.Api.{
  Response, success, failure, respond, request, as_principal, as_admin, list_messages,
  list_conversations, list_all_conversations, list_any_messages,
}
use leaf_flow_chat.Api.Limits.{
  LimitQuery, absent, malformed, negative, number, limit_between, messages_limit,
  conversations_limit, or_422, get_messages, get_conversations, get_any_messages,
  get_all_conversations,
}

-- the number of entries in an answer
abbrev pub entries : {A : Type 0} → Response (List A) → ℕ
entries (success xs) = length xs
entries (failure status) = 0

abbrev listed : {A : Type 0} → Result (List A) → ℕ
listed (ok xs) = length xs
listed (err e) = 0

abbrev IsShort : {A : Type 0} → ℕ → Action (List A) → Type 0
IsShort n m = (s : Session) → listed (m s).0 ≤ n

length-map : {A B : Type 0} (f : A → B) (xs : List A) → length (map f xs) ≡ length xs
length-map f [] = refl
length-map f (x ∷ xs) = omega (arith, length-map f xs)

length-take-le : {A : Type 0} (n : ℕ) (xs : List A) → length (take n xs) ≤ n
length-take-le zero xs = omega arith
length-take-le (suc n) [] = omega arith
length-take-le (suc n) (x ∷ xs) = omega (arith, length-take-le n xs)

continue-IsShort :
    {A B : Type 0} (n : ℕ) (r : Result A) (f : A → Action (List B)) (s : Session)
    → ((a : A) → IsShort n (f a))
    → listed (Session.continue r f s).0 ≤ n
continue-IsShort n (ok a) f s h = h a s
continue-IsShort n (err e) f s h = omega arith

>>=-IsShort :
    {A B : Type 0} (n : ℕ) (m : Action A) (f : A → Action (List B))
    → ((a : A) → IsShort n (f a))
    → IsShort n (m >>= f)
unfolding ◌>>=◌
>>=-IsShort n m f h s = continue-IsShort n (m s).0 f (m s).1 h

-- a query for a page
query-IsShort :
    {A B : Type 0} (n : ℕ) (f : A → B) (rows : Db → List A)
    → IsShort n (Session.query (λ db. map f (take n (rows db))))
unfolding ◌>>=◌
query-IsShort n f rows s =
    omega (arith, length-map f (take n (rows s.working)), length-take-le n (rows s.working))

entries-respond :
    {A : Type 0} (n : ℕ) (r : Result (List A)) → listed r ≤ n → entries (respond r) ≤ n
entries-respond n (ok xs) h = h
entries-respond n (err e) h = omega arith

request-entries :
    {A : Type 0} (n : ℕ) (m : Action (List A)) (s : Session)
    → IsShort n m
    → entries (request m s).0 ≤ n
unfolding request in_session
request-entries n m s h = entries-respond n (m (Session.rollback s)).0 (h (Session.rollback s))

-- an endpoint that is short for each caller
as_principal-entries :
    {A : Type 0} (n : ℕ) (verified : Option Principal)
    (endpoint : Principal → Session → Response (List A) × Session) (s : Session)
    → ((p : Principal) → entries (endpoint p s).0 ≤ n)
    → entries (as_principal verified endpoint s).0 ≤ n
unfolding as_principal
as_principal-entries n none endpoint s h = omega arith
as_principal-entries n (some p) endpoint s h = h p

as_admin-entries :
    {A : Type 0} (n : ℕ) (verified : Option Principal)
    (endpoint : Principal → Session → Response (List A) × Session) (s : Session)
    → ((p : Principal) → entries (endpoint p s).0 ≤ n)
    → entries (as_admin verified endpoint s).0 ≤ n
unfolding as_admin
as_admin-entries n verified endpoint s h = as_principal-entries n verified _ s (λ p.
    elim (Bool-cases (is_admin_kind p.kind)) [ inl e ↦ rw e (h p) | inr e ↦ rw e (omega arith) ])

or_422-entries :
    {A : Type 0} (n : ℕ) (default_ ge le : ℕ) (q : LimitQuery)
    (endpoint : ℕ → Session → Response (List A) × Session) (s : Session)
    → default_ ≤ le
    → le ≤ n
    → ((limit : ℕ) → entries (endpoint limit s).0 ≤ limit)
    → entries (or_422 (limit_between default_ ge le q) endpoint s).0 ≤ n
or_422-entries n default_ ge le absent endpoint s d h short = omega (arith, d, h, short default_)
or_422-entries n default_ ge le malformed endpoint s d h short = omega arith
or_422-entries n default_ ge le negative endpoint s d h short = omega arith
or_422-entries n default_ ge le (number k) endpoint s d h short =
    elim (Bool-cases (leb ge k && leb k le)) [
      | inl e ↦ rw e (ground (arith, h, short k))
      | inr e ↦ rw e (omega arith)
    ]

module _ ⦃sql : Sql⦄ ⦃codec : Codec⦄ where
  list_messages-IsShort :
      (p : Principal) (c : Uuid) (cursor : Option Text) (limit : ℕ)
      → IsShort limit (MessageService.list_messages c p cursor limit)
  unfolding MessageService.list_messages MessagePages.list_messages
  list_messages-IsShort p c cursor limit =
      >>=-IsShort limit _ _
        (λ o. >>=-IsShort limit _ _ (λ u. >>=-IsShort limit _ _ (λ k. query-IsShort limit _ _)))

  list_user_conversations-IsShort :
      (p : Principal) (cursor : Option Text) (limit : ℕ)
      → IsShort limit (ConversationService.list_user_conversations p cursor limit)
  unfolding ConversationService.list_user_conversations list_for_user
  list_user_conversations-IsShort p cursor limit =
      >>=-IsShort limit _ _ (λ k. query-IsShort limit _ _)

  list_conversations-IsShort :
      (filters : ConversationFilterDto)
      → IsShort filters.limit (AdminService.list_conversations filters)
  unfolding AdminService.list_conversations list_for_admin
  list_conversations-IsShort filters =
      >>=-IsShort filters.limit _ _ (λ k. query-IsShort filters.limit _ _)

  get_messages-entries :
      (verified : Option Principal) (c : Uuid) (cursor : Option Text) (q : LimitQuery) (s : Session)
      → entries (get_messages verified c cursor q s).0 ≤ 200
  unfolding get_messages messages_limit list_messages as_principal
  get_messages-entries verified c cursor q s = as_principal-entries 200 verified _ s (λ p.
      or_422-entries 200 50 1 200 q _ s (omega arith) (omega arith)
        (λ limit. request-entries limit _ s (list_messages-IsShort p c cursor limit)))

  get_conversations-entries :
      (verified : Option Principal) (cursor : Option Text) (q : LimitQuery) (s : Session)
      → entries (get_conversations verified cursor q s).0 ≤ 100
  unfolding get_conversations conversations_limit list_conversations as_principal
  get_conversations-entries verified cursor q s = as_principal-entries 100 verified _ s (λ p.
      or_422-entries 100 20 1 100 q _ s (omega arith) (omega arith)
        (λ limit. request-entries limit _ s (list_user_conversations-IsShort p cursor limit)))

  get_any_messages-entries :
      (verified : Option Principal) (c : Uuid) (cursor : Option Text) (q : LimitQuery) (s : Session)
      → entries (get_any_messages verified c cursor q s).0 ≤ 200
  unfolding get_any_messages messages_limit list_any_messages
  get_any_messages-entries verified c cursor q s = as_admin-entries 200 verified _ s (λ p.
      or_422-entries 200 50 1 200 q _ s (omega arith) (omega arith) (λ limit.
        as_admin-entries limit (some p) _ s
          (λ p'. request-entries limit _ s (list_messages-IsShort p' c cursor limit))))

  get_all_conversations-entries :
      (verified : Option Principal) (filters : ConversationFilterDto) (q : LimitQuery) (s : Session)
      → entries (get_all_conversations verified filters q s).0 ≤ 100
  unfolding get_all_conversations conversations_limit list_all_conversations
  get_all_conversations-entries verified filters q s = as_admin-entries 100 verified _ s (λ p.
      or_422-entries 100 20 1 100 q _ s (omega arith) (omega arith) (λ limit.
        as_admin-entries limit (some p) _ s (λ p'.
          request-entries limit _ s
            (list_conversations-IsShort (record filters { limit = limit })))))

  -- Whoever asks, with whatever cursor, filters and limit, an answer has at most 200 messages, or
  -- 100 conversations, for users and for admins.
  pub lists_bounded :
      (verified : Option Principal) (c : Uuid) (cursor : Option Text)
      (filters : ConversationFilterDto) (q : LimitQuery) (s : Session)
      → (entries (get_messages verified c cursor q s).0 ≤ 200)
        × (entries (get_any_messages verified c cursor q s).0 ≤ 200)
        × (entries (get_conversations verified cursor q s).0 ≤ 100)
        × (entries (get_all_conversations verified filters q s).0 ≤ 100)
  lists_bounded verified c cursor filters q s = (
    get_messages-entries verified c cursor q s,
    get_any_messages-entries verified c cursor q s,
    get_conversations-entries verified cursor q s,
    get_all_conversations-entries verified filters q s,
  )
