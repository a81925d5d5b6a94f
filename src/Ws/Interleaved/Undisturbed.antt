-- ===== src/Ws/Interleaved/Undisturbed.antt =====
-- A broadcast while other tasks keep away from its conversation.
use leaf_flow_chat.Prelude.{
  String, ◌≡◌, refl, ap, ◌∙◌, sym, subst, Bool, true, List, [], ◌∷◌, All, length, arith, eq_iff,
}
use leaf_flow_chat.Prelude.Dict.{Dict, get, contains, nat_eq, string_eq}
use leaf_flow_chat.Domain.{Uuid}
use leaf_flow_chat.Ws.Manager.{
  WebSocket, WsOutbound, ConnectionManager, or_empty, sockets_of, targets, send_all, disconnect_all,
  broadcast_to_conversation,
}
use leaf_flow_chat.Ws.Refinement.{Call, run}
use leaf_flow_chat.Ws.SetLoop.{SetIterator, Ending, returned, each, for_each_unchanged}
use leaf_flow_chat.Ws.Interleaved.{
  Sending, next_calls, send, to_key, subscribers, clean_up, broadcast, begin,
}
use leaf_flow_chat.Ws.Interleaved.Walk.{
  during, left_after, send_each, send_each-append, send_each_lem,
}
use leaf_flow_chat.Ws.Interleaved.Keys.{All-next_calls, All-later_waits, to_key-Apart}
use leaf_flow_chat.Ws.Interleaved.Elsewhere.{Elsewhere, Elsewhere-Apart, run-Reads}

All-map {ℓ} :
    {A : Type ℓ} {P Q : A → Type 0} (xs : List A) → ((x : A) → P x → Q x) → All P xs → All Q xs
All-map [] f h = tt
All-map (x ∷ xs) f h = (f x h.0, All-map xs f h.1)

All-contains : (xs : List String) → All (λ k. contains xs k ≡ true) xs
All-contains [] = tt
All-contains (x ∷ xs) =
    (ground (arith, eq_iff x x), All-map xs (λ k h. ground arith) (All-contains xs))

module _ {D : Type 0} (fails : WebSocket → Bool) (raw : WsOutbound D)
    (sockets : SetIterator WebSocket) (keys : SetIterator String) (c : Uuid)
    (m : ConnectionManager) where
  abbrev subs : List String
  subs = or_empty (get c m.subscriptions)

  abbrev IsSubscriber : String → Type 0
  IsSubscriber k = contains subs k ≡ true

  -- The broadcast still meets what it began with, now and after the awaits to come.
  record IsCalm (s : Sending D) : Type 0 where
    pub same_subs : or_empty (get c s.manager.subscriptions) ≡ subs
    pub calm : All (All (Elsewhere c subs)) s.waits
    pub same_sockets :
        (k : String) → IsSubscriber k → get k s.manager.connections ≡ get k m.connections

  send-IsCalm :
      (key : String) (ws : WebSocket) (s : Sending D) → IsCalm s → IsCalm (send fails raw key ws s)
  unfolding send
  send-IsCalm key ws s h =
      let reads =
        run-Reads c subs (next_calls s.waits) s.manager h.same_subs
          (All-next_calls (Elsewhere c subs) s.waits h.calm) in
      record {
        same_subs = reads.same_subs ∙ h.same_subs;
        calm = All-later_waits (Elsewhere c subs) s.waits h.calm;
        same_sockets = λ k there. reads.same_sockets k there ∙ h.same_sockets k there;
      }

  send_each-IsCalm :
      (l : List (String × WebSocket)) (s : Sending D) → IsCalm s → IsCalm (send_each fails raw l s)
  unfolding send_each
  send_each-IsCalm [] s h = h
  send_each-IsCalm ((key, ws) ∷ l) s h =
      send_each-IsCalm l (send fails raw key ws s) (send-IsCalm key ws s h)

  abbrev sockets_at : String → List (String × WebSocket)
  sockets_at k = sockets_of k (or_empty (get k m.connections))

  to_key-IsCalm :
      (k : String) (s : Sending D)
      → IsSubscriber k
      → IsCalm s
      → to_key fails raw sockets keys k s ≡ (returned, send_each fails raw (sockets_at k) s)
  to_key-IsCalm k s there h =
      to_key-Apart fails raw sockets keys k s (
        All-map s.waits
          (λ calls away. All-map calls (λ call e. Elsewhere-Apart c subs k call there e) away)
          h.calm)
      ∙ ap (λ o. (returned, send_each fails raw (sockets_of k (or_empty o)) s))
          (h.same_sockets k there)

  each_key :
      (start xs : List String) (s : Sending D)
      → All IsSubscriber xs
      → IsCalm s
      → each keys (subscribers fails raw sockets keys c) (to_key fails raw sockets keys) start xs s
        ≡ send_each fails raw (targets xs m.connections) s
  unfolding each targets
  each_key start [] s all h = unfold send_each in refl
  each_key start (k ∷ xs) s all h = rw (to_key-IsCalm k s all.0 h) (
      each_key start xs (send_each fails raw (sockets_at k) s) all.1
        (send_each-IsCalm (sockets_at k) s h)
      ∙ sym (send_each-append fails raw (sockets_at k) (targets xs m.connections) s))

  targets_same :
      (xs : List String) (d : Dict String (List WebSocket))
      → All IsSubscriber xs
      → ((k : String) → IsSubscriber k → get k d ≡ get k m.connections)
      → targets xs d ≡ targets xs m.connections
  unfolding targets
  targets_same [] d all same = refl
  targets_same (k ∷ xs) d all same = rw (same k all.0, targets_same xs d all.1 same) refl

  module _ (waits : List (List Call)) (away : All (All (Elsewhere c subs)) waits) where
    begin-IsCalm : IsCalm (begin m waits)
    begin-IsCalm = record { same_subs = refl; calm = away; same_sockets = λ k there. refl }

    broadcast_walks :
        broadcast fails raw sockets keys c (begin m waits)
        ≡ clean_up fails raw sockets keys
            (returned, send_each fails raw (targets subs m.connections) (begin m waits))
    unfolding broadcast
    broadcast_walks =
        let whole =
          for_each_unchanged keys (subscribers fails raw sockets keys c)
            (to_key fails raw sockets keys) subs IsCalm IsSubscriber (λ s h. h.same_subs)
            (λ k s there h.
              subst (λ (r : Ending × Sending D). (r.0 ≡ returned) × IsCalm r.1)
                (sym (to_key-IsCalm k s there h)) (refl, send_each-IsCalm (sockets_at k) s h))
            (begin m waits) (All-contains subs) begin-IsCalm in
        ap (clean_up fails raw sockets keys) (
          whole.0
          ∙ ap (λ t. (returned, t))
              (each_key subs subs (begin m waits) (All-contains subs) begin-IsCalm))

    abbrev others : List Call
    others = during (length (targets subs m.connections)) waits

    others-IsCalm :
        IsCalm (begin (run others m) (left_after (length (targets subs m.connections)) waits))
    others-IsCalm =
        let h =
          subst IsCalm (send_each_lem fails raw (targets subs m.connections) (begin m waits))
            (send_each-IsCalm (targets subs m.connections) (begin m waits) begin-IsCalm) in
        record { same_subs = h.same_subs; calm = h.calm; same_sockets = h.same_sockets }

    pub broadcast_sends : broadcast fails raw sockets keys c (begin m waits) ≡ (
      returned,
      record {
        manager = disconnect_all (send_all fails raw (targets subs m.connections)).1 (run others m);
        waits = left_after (length (targets subs m.connections)) waits;
        arrived = (send_all fails raw (targets subs m.connections)).0;
        dead = (send_all fails raw (targets subs m.connections)).1;
      },
    )
    broadcast_sends =
        broadcast_walks
        ∙ ap (λ t. clean_up fails raw sockets keys (returned, t))
            (send_each_lem fails raw (targets subs m.connections) (begin m waits))

    -- what the broadcast reads is what it would read after the calls of the others
    pub same_targets :
        targets (or_empty (get c (run others m).subscriptions)) (run others m).connections
        ≡ targets subs m.connections
    same_targets =
        ap (λ xs. targets xs (run others m).connections) others-IsCalm.same_subs
        ∙ targets_same subs (run others m).connections (All-contains subs)
            others-IsCalm.same_sockets

module _ {D : Type 0} (fails : WebSocket → Bool) (sockets : SetIterator WebSocket)
    (keys : SetIterator String) (c : Uuid) (event_type : String) (payload : D)
    (m : ConnectionManager) where
  -- While other tasks, whenever the broadcast waits, act on other conversations and on sockets of
  -- keys that are not subscribed to this one, the broadcast raises nothing, and what arrives and what is left
  -- are as if it had run in one piece after the calls that the others made meanwhile.
  pub broadcast_undisturbed :
      (waits : List (List Call))
      → let subs = or_empty (get c m.subscriptions) in
        All (All (Elsewhere c subs)) waits
        → let (ending, end) =
            broadcast fails
              (record { type = event_type; payload = payload })
              sockets
              keys
              c
              (begin m waits) in
          let calls = during (length (targets subs m.connections)) waits in
          let (arrived, manager) =
            broadcast_to_conversation fails c event_type payload (run calls m) in
          (ending ≡ returned) × (end.arrived ≡ arrived) × (end.manager ≡ manager)
  unfolding broadcast_to_conversation
  broadcast_undisturbed waits away =
      let raw : WsOutbound D = record { type = event_type; payload = payload } in
      let sends = broadcast_sends fails raw sockets keys c m waits away in
      let same = same_targets fails raw sockets keys c m waits away in
      (
        ap (λ r. r.0) sends,
        ap (λ r. r.1.arrived) sends ∙ ap (λ l. (send_all fails raw l).0) (sym same),
        ap (λ r. r.1.manager) sends
            ∙ ap
                (λ l.
                  disconnect_all (send_all fails raw l).1
                    (run (others fails raw sockets keys c m waits away) m))
                (sym same),
      )
