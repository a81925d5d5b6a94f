-- ===== src/Ws/Broadcast.antt =====
-- Who receives a broadcast, and what it leaves registered.
use leaf_flow_chat.Prelude.{
  String, ◌≡◌, refl, ◌∙◌, ap, Bool, true, not, ◌&&◌, ◌||◌, List, [], ◌∷◌, ◌++◌, arith, any, All,
  ◌==◌, str_eq, eq_iff,
}
use leaf_flow_chat.Prelude.Dict.{Dict, get, contains, nat_eq, string_eq}
use leaf_flow_chat.Domain.{Uuid}
use leaf_flow_chat.Ws.Manager.{
  WebSocket, WsOutbound, ConnectionManager, disconnect, disconnect_all, or_empty, sockets_of,
  targets, send_all, broadcast_to_conversation,
}
use leaf_flow_chat.Ws.Registry.{connected, subscribed, connected-disconnect, subscribed-disconnect}

abbrev pub is_target : String → WebSocket → String × WebSocket → Bool
is_target k x p = str_eq p.0 k && p.1 == x

any-append {ℓ} :
    {A : Type ℓ} (p : A → Bool) (xs ys : List A) → any p (xs ++ ys) ≡ (any p xs || any p ys)
any-append p [] ys = refl
any-append p (x ∷ xs) ys = ground (arith, any-append p xs ys)

any-sockets_of :
    (k key : String) (x : WebSocket) (held : List WebSocket)
    → any (is_target k x) (sockets_of key held) ≡ (str_eq key k && contains held x)
any-sockets_of k key x [] = ground arith
any-sockets_of k key x (ws ∷ rest) = ground (arith, any-sockets_of k key x rest)

-- The pairs that the loops reach: a subscribed key with one of its sockets.
any-targets :
    (k : String) (x : WebSocket) (subs : List String) (d : Dict String (List WebSocket))
    → any (is_target k x) (targets subs d) ≡ (contains subs k && contains (or_empty (get k d)) x)
unfolding targets
any-targets k x [] d = refl
any-targets k x (key ∷ subs) d = ground (
  arith,
  any-append (is_target k x) (sockets_of key (or_empty (get key d))) (targets subs d),
  any-sockets_of k key x (or_empty (get key d)),
  any-targets k x subs d,
  eq_iff key k,
)

connected-disconnect_all :
    (dead : List (String × WebSocket)) (m : ConnectionManager) (k : String) (x : WebSocket)
    → connected (disconnect_all dead m) k x ≡ (connected m k x && not (any (is_target k x) dead))
unfolding disconnect_all
connected-disconnect_all [] m k x = ground arith
connected-disconnect_all ((key, ws) ∷ dead) m k x = ground (
  arith,
  connected-disconnect_all dead (disconnect ws key m) k x,
  connected-disconnect m ws key k x,
)

subscribed-disconnect_all :
    (dead : List (String × WebSocket)) (m : ConnectionManager) (c : Uuid) (k : String)
    → subscribed (disconnect_all dead m) c k
      ≡ (subscribed m c k && not (any (λ p. str_eq p.0 k) dead))
unfolding disconnect_all
subscribed-disconnect_all [] m c k = ground arith
subscribed-disconnect_all ((key, ws) ∷ dead) m c k = ground (
  arith,
  subscribed-disconnect_all dead (disconnect ws key m) c k,
  subscribed-disconnect m ws key c k,
)

module _ {D : Type 0} (fails : WebSocket → Bool) (raw : WsOutbound D) where
  any-dead :
      (k : String) (x : WebSocket) (l : List (String × WebSocket))
      → any (is_target k x) (send_all fails raw l).1 ≡ (any (is_target k x) l && fails x)
  unfolding send_all
  any-dead k x [] = refl
  any-dead k x ((key, ws) ∷ l) = ground (arith, any-dead k x l)

  any-arrived :
      (x : WebSocket) (l : List (String × WebSocket))
      → any (λ a. a.0 == x) (send_all fails raw l).0 ≡ (any (λ p. p.1 == x) l && not (fails x))
  unfolding send_all
  any-arrived x [] = refl
  any-arrived x ((key, ws) ∷ l) = ground (arith, any-arrived x l)

  -- Everything that a loop of sends delivers is what was given to it.
  All-arrived : (l : List (String × WebSocket)) → All (λ a. a.1 ≡ raw) (send_all fails raw l).0
  unfolding send_all
  All-arrived [] = tt
  All-arrived ((key, ws) ∷ l) = ground (arith, All-arrived l)

any-socket :
    (x : WebSocket) (key : String) (held : List WebSocket)
    → any (λ p. p.1 == x) (sockets_of key held) ≡ contains held x
any-socket x key [] = refl
any-socket x key (ws ∷ rest) = ground (arith, any-socket x key rest)

any-reached :
    (x : WebSocket) (subs : List String) (d : Dict String (List WebSocket))
    → any (λ p. p.1 == x) (targets subs d) ≡ any (λ k. contains (or_empty (get k d)) x) subs
unfolding targets
any-reached x [] d = refl
any-reached x (key ∷ subs) d = ground (
  arith,
  any-append (λ p. p.1 == x) (sockets_of key (or_empty (get key d))) (targets subs d),
  any-socket x key (or_empty (get key d)),
  any-reached x subs d,
)

module _ {D : Type 0} (fails : WebSocket → Bool) (conversation_id : Uuid) (event_type : String)
    (payload : D) (m : ConnectionManager) where
  -- A broadcast arrives at a socket exactly when the socket's sending works and it is connected
  -- under some key that is subscribed to the conversation.
  pub broadcast_reaches :
      (x : WebSocket)
      → any (λ a. a.0 == x) (broadcast_to_conversation fails conversation_id event_type payload m).0
        ≡ (any (λ k. connected m k x) (or_empty (get conversation_id m.subscriptions))
            && not (fails x))
  unfolding broadcast_to_conversation
  broadcast_reaches x =
      let subs = or_empty (get conversation_id m.subscriptions) in
      any-arrived fails (record { type = event_type; payload = payload }) x
        (targets subs m.connections)
      ∙ ap (λ b. b && not (fails x)) (any-reached x subs m.connections)

  pub broadcast-All :
      All
        (λ a. a.1 ≡ record { type = event_type; payload = payload })
        (broadcast_to_conversation fails conversation_id event_type payload m).0
  unfolding broadcast_to_conversation
  broadcast-All =
      All-arrived fails (record { type = event_type; payload = payload })
        (targets (or_empty (get conversation_id m.subscriptions)) m.connections)

  -- After a broadcast the sockets of subscribed keys that failed are gone, and every other
  -- connection is as before.
  pub broadcast_drops_dead :
      (k : String) (x : WebSocket)
      → connected (broadcast_to_conversation fails conversation_id event_type payload m).1 k x
        ≡ (connected m k x && not (subscribed m conversation_id k && fails x))
  unfolding broadcast_to_conversation
  broadcast_drops_dead k x =
      rw connected-disconnect_all (rw any-dead (rw any-targets (ground arith)))

  -- A broadcast subscribes nobody.
  pub broadcast-subscribed :
      (d : Uuid) (k : String)
      → subscribed (broadcast_to_conversation fails conversation_id event_type payload m).1 d k
        ≡ true
      → subscribed m d k ≡ true
  unfolding broadcast_to_conversation
  broadcast-subscribed d k h = ground (
    arith,
    subscribed-disconnect_all
        (send_all fails (record { type = event_type; payload = payload })
          (targets (or_empty (get conversation_id m.subscriptions)) m.connections)).1
        m d k,
  )
